-- ===== src/Warts/Parse.antt =====
-- warts/warts.go: the records of a file, one after another. The loop of Parse runs on fuel, the number of
-- bytes plus one. A record of a type that is not read leaves its header, and its body is not skipped.
use reverse_traceroute_publi.Base.{
  ℕ, zero, suc, Bool, List, [], ◌∷◌, ◌++◌, length, if◌then◌else◌, ◌==◌, ◌||◌, any,
}
use reverse_traceroute_publi.Warts.Reader.{
  Reader, Reading, got, failed, eof, bad, pure, ◌>>=◌, when◌run◌otherwise◌,
}
use reverse_traceroute_publi.Warts.Records.{
  Header, WartsList, CycleStart, CycleStop, read_header, read_list, read_cycle, read_cycle_stop,
}
use reverse_traceroute_publi.Warts.Traceroute.{Traceroute, read_traceroute}
use reverse_traceroute_publi.Warts.Ping.{Ping, read_ping}

pub data Object : Type 0 where
  warts_list : WartsList → Object
  cycle_start : CycleStart → Object
  cycle_stop : CycleStop → Object
  trace : Traceroute → Object
  ping : Ping → Object
  head : Header → Object

unfoldable pub by_type : Header → Reader Object
by_type h =
    when h.type == 1
    run (read_list >>= λ l. pure (warts_list l))
    otherwise when h.type == 3 || h.type == 2
    run (read_cycle >>= λ c. pure (cycle_start c))
    otherwise when h.type == 4
    run (read_cycle_stop >>= λ c. pure (cycle_stop c))
    otherwise when h.type == 6
    run (read_traceroute >>= λ t. pure (trace t))
    otherwise when h.type == 7
    run (read_ping >>= λ p. pure (ping p))
    otherwise pure (head h)

unfoldable pub parse_next : Reader Object
parse_next = read_header >>= by_type

unfoldable pub get_warts_t : Object → ℕ
get_warts_t (warts_list l) = 1
get_warts_t (cycle_start c) = 2
get_warts_t (cycle_stop c) = 4
get_warts_t (trace t) = 6
get_warts_t (ping p) = 7
get_warts_t (head h) = 0

unfoldable pub is_wanted : List ℕ → ℕ → Bool
is_wanted objs t = any (λ obj. obj == t) objs

pub data Parsed : Type 0 where
  objects : List Object → Parsed
  parse_error out_of_fuel : Parsed

unfoldable pub with_object : List ℕ → List Object → Object → List Object
with_object objs ret obj = if is_wanted objs (get_warts_t obj) then ret ++ obj ∷ [] else ret

-- What Parse does with a record and what is left behind it.
unfoldable pub after_record :
    (List Object → List ℕ → Parsed) → List ℕ → List Object → Reading Object → Parsed
after_record parse_rest objs ret (got obj rest) = parse_rest (with_object objs ret obj) rest
after_record parse_rest objs ret (failed eof rest) = objects ret
after_record parse_rest objs ret (failed bad rest) = parse_error

unfoldable pub parse_loop : ℕ → List ℕ → List Object → List ℕ → Parsed
parse_loop zero objs ret buf = out_of_fuel
parse_loop (suc fuel) objs ret buf = after_record (parse_loop fuel objs) objs ret (parse_next buf)

unfoldable pub parse : List ℕ → List ℕ → Parsed
parse bytes objs = parse_loop (suc (length bytes)) objs [] bytes
