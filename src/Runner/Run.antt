-- ===== src/Runner/Run.antt =====
-- rtBatch.run: the steps one after the other, until one returns nil or the context is done.
-- Each reverse traceroute of a batch has a goroutine of its own; one is modelled. `rounds` is the
-- fuel of the loops of recordRoute and timestamp, and the fuel of the run counts its steps.
use reverse_traceroute_publi.Base.{ℕ, zero, suc, Option, none, some, if◌then◌else◌}
use reverse_traceroute_publi.Revtr.{StopReason}
use reverse_traceroute_publi.Runner.Result.{Result, ret, hang, ◌>>=◌}
use reverse_traceroute_publi.Runner.Network.{Options, Running}
use reverse_traceroute_publi.Runner.Steps.{
  Step, initial_step, backoff_endhost, tr_to_source, record_route, timestamp, background_trs,
  assume_symmetric, with_revtr, with_world, rounds, record_route_round, tr_to_source_step,
  background_trs_step, assume_symmetric_step, backoff_endhost_step,
}
use reverse_traceroute_publi.Runner.Timestamp.Rounds.{timestamp_step}

module _ {W : Type 0} (opts : Options W) where
  -- One step; initialStep is the first.
  unfoldable pub exec : ℕ → Step → Running W → Result (Running W × Option Step)
  exec fuel initial_step st =
      ret (st, some (if st.revtr.backoff_endhost then backoff_endhost else tr_to_source))
  exec fuel backoff_endhost st = backoff_endhost_step opts st
  exec fuel tr_to_source st = tr_to_source_step opts st
  exec fuel record_route st = rounds opts (record_route_round opts) fuel st
  exec fuel timestamp st = timestamp_step opts fuel st
  exec fuel background_trs st = background_trs_step opts st
  exec fuel assume_symmetric st = assume_symmetric_step opts st

  abbrev pub cancel : Running W → Running W
  cancel st = with_revtr st (record (st.revtr) { stop_reason = StopReason.canceled })

  unfoldable pub after_step :
      (Step → Running W → Result (Running W)) → Running W × Option Step → Result (Running W)
  after_step loop (st, none) = ret st
  after_step loop (st, some s) = loop s st

  -- The state that is sent on the channel.
  unfoldable pub run_from : ℕ → ℕ → Step → Running W → Result (Running W)
  run_from fuel zero curr_step st = hang
  run_from fuel (suc n) curr_step st =
      let (w, done) = opts.is_done st.world in
      let stepped = exec fuel curr_step (with_world st w) >>= λ r. after_step (run_from fuel n) r in
      if done then ret (cancel (with_world st w)) else stepped

  unfoldable pub run : ℕ → ℕ → Running W → Result (Running W)
  run fuel n st = run_from fuel n initial_step st
