-- ===== src/Controller/Traceroute.antt =====
-- controller/controller.go: doTraceroute, and the key of datamodel/traceroute.go.
pub mod Served
use reverse_traceroute_publi.Base.{
  ℕ, String, Bool, not, ◌||◌, List, map, [], ◌∷◌, ◌++◌, if◌then◌else◌, str_eq, text_append,
}
use reverse_traceroute_publi.IpUtil.{int32_to_ip_string}
use reverse_traceroute_publi.Controller.Numbers.{decimal}
use reverse_traceroute_publi.Controller.Backend.{Backend}
use reverse_traceroute_publi.Controller.Phases.{
  look_up, Asked, no_asked, ask_loop, Progress, answer_loop, check_cache_for, key_loop, cache_late,
  file_loop, run_batches,
}

-- dm.TracerouteMeasurement and dm.Traceroute, with the fields that are read here.
pub record Measurement : Type 0 where
  pub src : ℕ
  pub dst : ℕ
  pub check_cache : Bool
  pub check_db : Bool

pub record Traceroute : Type 0 where
  pub src : ℕ
  pub dst : ℕ
  pub stop_reason : String
  pub error : String
  pub id : ℕ

unfoldable pub trace_key : ℕ → ℕ → String
trace_key src dst = text_append "XXTR_" (text_append (decimal src) (text_append "_" (decimal dst)))

abbrev pub key : Measurement → String
key tm = trace_key tm.src tm.dst

abbrev pub result_key : Traceroute → String
result_key t = trace_key t.src t.dst

abbrev pub source : Measurement → String
source tm = int32_to_ip_string tm.src

unfoldable pub error_result : Measurement → String → Traceroute
error_result tm err = record { src = tm.src; dst = tm.dst; stop_reason = ""; error = err; id = 0 }

module _ {W S T : Type 0} (be : Backend W Measurement Traceroute S T) where
  -- A result without an error is cached; each is stored, and sent with its id.
  unfoldable pub receive : List Traceroute → W → W × List Traceroute
  receive [] w = (w, [])
  receive (pp ∷ ps) w =
      let (w1, done) = be.is_done w in
      let (w2, id) = be.store pp w1 in
      let kept : Traceroute = record pp { id = id } in
      let w3 =
        if str_eq pp.error ""
        then be.set_with_expire (result_key pp) (be.marshal kept) w2
        else w2 in
      let (w4, stops) = be.is_done w3 in
      let (w5, rest) = receive ps w4 in
      if done then (w1, []) else if stops then (w4, []) else (w5, kept ∷ rest)

  -- With an error the map is nil.
  unfoldable pub check_trace_db : List Measurement → W → W × List (String × Traceroute)
  check_trace_db check w =
      let (w1, found, err) = be.get_from_db check w in
      let (w2, done) = be.is_done w1 in
      (w2, if done || err then [] else key_loop result_key [] found)

  abbrev pub look_up_traces : List Measurement → W → W × Progress Measurement Traceroute
  look_up_traces =
      look_up be key (λ tm. tm.check_cache) (λ tm. tm.check_db) check_trace_db
        (λ p. str_eq p.stop_reason "COMPLETED")

  unfoldable pub do_traceroute : List Measurement → W → W × List Traceroute
  do_traceroute tms w =
      let (w1, known) = look_up_traces tms w in
      let (w2, mts, errors) = file_loop be source error_result known.remaining [] [] w1 in
      let (w3, results) = run_batches be error_result receive (be.order mts) w2 in
      (w3, known.sent ++ errors ++ results)
