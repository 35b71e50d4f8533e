-- ===== src/Controller/Traceroute/Served.antt =====
-- Every measurement that doTraceroute is asked for is served.
use reverse_traceroute_publi.Base.{◌≡◌, ◌⊎◌, List, [], ◌++◌, str_eq}
use reverse_traceroute_publi.Controller.Backend.{Backend}
use reverse_traceroute_publi.Controller.Phases.{Progress, file_loop, run_batches}
use reverse_traceroute_publi.Controller.Phases.Kept.{Any}
use reverse_traceroute_publi.Controller.Phases.Filed.{Outcome}
use reverse_traceroute_publi.Controller.Phases.Served.{AnswerFor}
use reverse_traceroute_publi.Controller.Traceroute.{
  Measurement, Traceroute, key, result_key, source, error_result, check_trace_db, look_up_traces,
  receive, do_traceroute,
}

module _ {W S T : Type 0} (be : Backend W Measurement Traceroute S T) where
  -- The lookups, and what is left, as doTraceroute goes on with it.
  abbrev pub looked_up : List Measurement → W → W × Progress Measurement Traceroute
  looked_up = look_up_traces be

  abbrev pub filed : List Measurement → W → W × List (S × List Measurement) × List Traceroute
  filed tms w =
      let known = looked_up tms w in
      file_loop be source error_result known.1.remaining [] [] known.0

  abbrev pub Answers : List Measurement → W → Measurement → Traceroute → Type 0
  Answers tms w tm =
      AnswerFor be key result_key (λ tm. tm.check_cache) (λ tm. tm.check_db) (check_trace_db be)
        (λ p. str_eq p.stop_reason "COMPLETED") tms w (key tm)

  -- The results in their order, and what becomes of one request.
  abbrev pub IsServed : List Measurement → W → Measurement → Type 0
  IsServed tms w tm =
      let known = (looked_up tms w).1 in
      let batches = (filed tms w).1 in
      let errors = (filed tms w).2 in
      ((do_traceroute be tms w).1
        ≡ known.sent
          ++ errors
          ++ (run_batches be error_result (receive be) (be.order batches) (filed tms w).0).1)
      × (Any (Answers tms w tm) known.sent
          ⊎ ((tm' : Measurement) × (key tm' ≡ key tm)
              × Outcome be source error_result tm' batches errors))
