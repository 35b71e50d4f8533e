-- ===== src/Warts/ParseEnds.antt =====
-- warts/warts.go: Parse and the records that are not a traceroute or a ping, by what a read leaves.
use reverse_traceroute_publi.Base.{
  ℕ, zero, suc, ◌<◌, ◌≢◌, Bool, true, false, Bool-cases, List, [], ◌∷◌, length, arith, inl, inr,
  ◌==◌, ◌++◌, not, ◌&&◌,
}
use reverse_traceroute_publi.Warts.Reader.{get_string, isset, Reading, got, failed, eof, bad}
use reverse_traceroute_publi.Warts.Shrinks.{
  read_some-Below, Below, Shrinks, pure-Shrinks, failed-Shrinks, bind-Shrinks, stored,
  test◌reads◌next◌, and_then-Below, read-Shrinks, wrapped-Shrinks, read_uint16-Shrinks,
  read_uint32-Shrinks, get_string-Shrinks,
}
use reverse_traceroute_publi.Warts.TracerouteShrinks.{read_traceroute-Shrinks}
use reverse_traceroute_publi.Warts.PingShrinks.{read_ping-Shrinks}
use reverse_traceroute_publi.Warts.Records.{
  Header, warts_magic, number_at, ListFlags, CycleStartFlags, check_magic, read_header, read_list,
  read_cycle, read_cycle_stop, read_list_flags, after_list_flag, read_texts, after_description,
  read_monitor, after_monitor, after_cycle_flag, read_cycle_start_flags, read_stop_time,
  read_hostname,
}
use reverse_traceroute_publi.Warts.Parse.{
  Object, by_type, parse_next, Parsed, out_of_fuel, after_record, parse_loop, parse,
}

-- What goes on with a text: the text and what is left, or nothing is left.
after_string :
    {B : Type 0} (n : ℕ) (go_on : Reading (List ℕ) → Reading B)
    → ((t rest : List ℕ) → length rest < n → Below n (go_on (got t rest)))
    → (0 < n → Below n (go_on (failed eof [])))
    → (text buf : List ℕ) → length buf < n
    → Below n (go_on (get_string text buf))
unfolding get_string
after_string n go_on on_text on_end text [] h = on_end h
after_string n go_on on_text on_end text (b ∷ buf) h =
    let rest = after_string n go_on on_text on_end (text ++ b ∷ []) buf (omega arith) in
    elim (Bool-cases (b == 0)) [ inl e ↦ rw e (on_text text buf (omega arith)) | inr e ↦ rw e rest ]

read_monitor-Below :
    (set : Bool) (lf : ListFlags) (n : ℕ) (buf : List ℕ)
    → length buf < n
    → Below n (read_monitor set lf buf)
unfolding read_monitor after_monitor Below
read_monitor-Below false lf n buf h = h
read_monitor-Below true lf n buf h =
    after_string n (after_monitor lf) (λ t rest h. h) (λ h. h) [] buf h

read_texts-Below :
    (desc mon : Bool) (lf : ListFlags) (n : ℕ) (buf : List ℕ)
    → length buf < n
    → Below n (read_texts desc mon lf buf)
unfolding read_texts after_description Below
read_texts-Below false mon lf n buf h = read_monitor-Below mon lf n buf h
read_texts-Below true mon lf n buf h =
    after_string n (after_description mon lf)
      (λ t rest h. read_monitor-Below mon (record lf { description = t }) n rest h) (λ h. h) [] buf
      h

after_list_flag-Shrinks : (flag : ℕ) → Shrinks (after_list_flag flag)
unfolding after_list_flag
after_list_flag-Shrinks flag = elim (Bool-cases (not (isset flag 1) && not (isset flag 2))) [
  | inl e ↦ rw e pure-Shrinks
  | inr e ↦
      rw e (bind-Shrinks read_uint16-Shrinks (λ l. record { shrink = read_texts-Below _ _ _ }))
]

read_list_flags-Shrinks : Shrinks read_list_flags
unfolding read_list_flags
read_list_flags-Shrinks =
    bind-Shrinks (wrapped-Shrinks (read-Shrinks 1)) (λ first. after_list_flag-Shrinks _)

read_list-Shrinks : Shrinks read_list
unfolding read_list
read_list-Shrinks =
    bind-Shrinks (read-Shrinks 8)
      (λ ids. bind-Shrinks (get_string-Shrinks []) (λ name. stored _ read_list_flags-Shrinks))

read_stop_time-Shrinks : (set : Bool) (csf : CycleStartFlags) → Shrinks (read_stop_time set csf)
unfolding read_stop_time
read_stop_time-Shrinks false csf = pure-Shrinks
read_stop_time-Shrinks true csf = stored _ read_uint32-Shrinks

read_hostname-Shrinks : (set : Bool) (csf : CycleStartFlags) → Shrinks (read_hostname set csf)
unfolding read_hostname
read_hostname-Shrinks false csf = pure-Shrinks
read_hostname-Shrinks true csf = stored _ (get_string-Shrinks [])

after_cycle_flag-Shrinks : (flag : ℕ) → Shrinks (after_cycle_flag flag)
unfolding after_cycle_flag
after_cycle_flag-Shrinks flag = elim (Bool-cases (not (isset flag 1) && not (isset flag 2))) [
  | inl e ↦ rw e pure-Shrinks
  | inr e ↦ rw e (
      bind-Shrinks read_uint16-Shrinks
        (λ l. bind-Shrinks (read_stop_time-Shrinks _ _) (λ csf. read_hostname-Shrinks _ csf)))
]

read_cycle-Shrinks : Shrinks read_cycle
unfolding read_cycle read_cycle_start_flags
read_cycle-Shrinks = bind-Shrinks (read-Shrinks 16) (λ ids.
    stored _
      (bind-Shrinks (wrapped-Shrinks (read-Shrinks 1)) (λ first. after_cycle_flag-Shrinks _)))

read_cycle_stop-Shrinks : Shrinks read_cycle_stop
unfolding read_cycle_stop
read_cycle_stop-Shrinks =
    bind-Shrinks (read-Shrinks 8) (λ ids. bind-Shrinks (read-Shrinks 1) (λ first. pure-Shrinks))

by_type-Shrinks : (h : Header) → Shrinks (by_type h)
unfolding by_type
by_type-Shrinks h =
    test _
    reads stored _ read_list-Shrinks
    next test _
    reads stored _ read_cycle-Shrinks
    next test _
    reads stored _ read_cycle_stop-Shrinks
    next test _
    reads stored _ read_traceroute-Shrinks
    next test _
    reads stored _ read_ping-Shrinks
    next pure-Shrinks

check_magic-Shrinks : (bytes : List ℕ) → Shrinks (check_magic bytes)
unfolding check_magic
check_magic-Shrinks bytes = elim (Bool-cases (number_at 0 2 bytes == warts_magic)) [
  | inl e ↦ rw e pure-Shrinks
  | inr e ↦ rw e failed-Shrinks
]

parse_next-Below : (buf : List ℕ) → Below (length buf) (parse_next buf)
unfolding parse_next read_header
parse_next-Below buf =
    and_then-Below _ _ _
      (and_then-Below _ _ _ (read_some-Below 7 buf) (λ bytes. (check_magic-Shrinks bytes).shrink _))
      (λ h. (by_type-Shrinks h).shrink _)

after_record-ends :
    (n : ℕ) (parse_rest : List Object → List ℕ → Parsed) (objs : List ℕ) (ret : List Object)
    (r : Reading Object)
    → Below n r
    → ((ret' : List Object) (rest : List ℕ) → length rest < n → parse_rest ret' rest ≢ out_of_fuel)
    → after_record parse_rest objs ret r ≢ out_of_fuel
unfolding after_record Below
after_record-ends n parse_rest objs ret (got obj rest) h ends = ends _ rest h
after_record-ends n parse_rest objs ret (failed eof rest) h ends = λ e. grind arith
after_record-ends n parse_rest objs ret (failed bad rest) h ends = λ e. grind arith

parse_loop-ends :
    (fuel : ℕ) (objs : List ℕ) (ret : List Object) (buf : List ℕ)
    → length buf < fuel
    → parse_loop fuel objs ret buf ≢ out_of_fuel
unfolding parse_loop
parse_loop-ends zero objs ret buf h = grind arith
parse_loop-ends (suc fuel) objs ret buf h =
    after_record-ends (length buf) (parse_loop fuel objs) objs ret (parse_next buf)
      (parse_next-Below buf)
      (λ ret' rest shorter. parse_loop-ends fuel objs ret' rest (omega arith))

-- Parse ends on every list of bytes: its fuel, one more than the number of bytes, does not run
-- out.
pub parse-ends : (bytes objs : List ℕ) → parse bytes objs ≢ out_of_fuel
unfolding parse
parse-ends bytes objs = parse_loop-ends (suc (length bytes)) objs [] bytes (omega arith)
