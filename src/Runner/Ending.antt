-- ===== src/Runner/Ending.antt =====
-- Each step is on an edge of the graph, and how a run ends.
use reverse_traceroute_publi.Base.{
  ℕ, zero, suc, ◌≡◌, ◌⊎◌, inl, inr, refl, String, Bool, true, false, Option, none, some, List, [],
  ◌∷◌, Run, ok, Bool-cases, if◌then◌else◌, length, ◌==◌,
}
use reverse_traceroute_publi.StringUtil.{in_array, non_spoofed}
use reverse_traceroute_publi.Segment.{Segment, RevSegment, clone}
use reverse_traceroute_publi.Revtr.{Revtr, StopReason, failed_now, ts_is_responsive}
use reverse_traceroute_publi.Revtr.Reaching.{ReachesSays, reaches_lem, failed_now_lem}
use reverse_traceroute_publi.Runner.Result.{Result, ret, ◌>>=◌, of_run}
use reverse_traceroute_publi.Runner.Network.{Options, Running, FailReason, IntersectionResponse}
use reverse_traceroute_publi.Runner.Measure.{IntersectingTr}
use reverse_traceroute_publi.Runner.Probes.{SpoofedProbes}
use reverse_traceroute_publi.Runner.Steps.{
  symmetric_parts, Step, initial_step, backoff_endhost, tr_to_source, record_route, timestamp,
  background_trs, assume_symmetric, Round, again, next, with_revtr, with_world, after_intersecting,
  after_round, rounds, give_up, add_rr, direct_round, add_spoof_rr, spoofed_round,
  record_route_round, tr_to_source_step, after_traceroute, by_last_segment, assume_symmetric_step,
  backoff_endhost_step, add_symmetric_hop, add_symmetric_segment,
}
use reverse_traceroute_publi.Runner.Timestamp.{TsRound}
use reverse_traceroute_publi.Runner.Timestamp.Rounds.{
  add_found, use_segments, send_and_check, probe_adjacents, timestamp_round, timestamp_step,
}
use reverse_traceroute_publi.Runner.Run.{exec, after_step, run_from, run}
use reverse_traceroute_publi.Runner.Post.{
  Post, returns, crashes, hangs, Post-bind, Post-if, Post-any,
}
use reverse_traceroute_publi.Runner.Graph.{
  start_backoff, start, backed_off, no_traceroute, no_vantage_points, rr_hops, no_adjacents,
  ts_hops, assumed, ends, Reached, Failed, Follows, FollowsRound, reached_or-Follows,
  add_traceroute-Follows, background_trs-Follows, after_adding-Follows,
}

-- A call of which nothing is known.
any_then {ℓ κ} :
    {A : Type ℓ} {B : Type κ} {Q : B → Type 0} (m : Result A) (f : A → Result B)
    → ((a : A) → Post Unit Q (f a))
    → Post Unit Q (m >>= f)
any_then m f k = Post-bind m f (Post-any m) (λ a u. k a)

module _ {W : Type 0} (opts : Options W) where
  after_intersecting-Follows :
      (st : Running W) (answer : Option (IntersectingTr × List IntersectionResponse))
      → Post Unit (Follows opts.env tr_to_source) (after_intersecting opts st answer)
  unfolding after_intersecting
  after_intersecting-Follows st none = returns (no_traceroute, tt)
  after_intersecting-Follows st (some (trace, t ∷ ts)) = returns (no_traceroute, tt)
  after_intersecting-Follows st (some (trace, [])) =
      Post-if (length trace.hops == 0) _ _ (λ e. returns (no_traceroute, tt))
        (λ e. add_traceroute-Follows opts tr_to_source st trace)

  pub tr_to_source-Follows :
      (st : Running W) → Post Unit (Follows opts.env tr_to_source) (tr_to_source_step opts st)
  unfolding tr_to_source_step
  tr_to_source-Follows st = any_then _ _ (λ seg.
      any_then _ _ (λ addrs.
        any_then _ _ (λ (w, answer). after_intersecting-Follows (with_world st w) answer)))

  add_rr-Follows :
      (st : Running W) (target : String) (rr : Option (List String))
      → Post Unit (FollowsRound opts.env record_route) (add_rr opts st target rr)
  unfolding add_rr
  add_rr-Follows st target none = returns tt
  add_rr-Follows st target (some rr) = any_then _ _ (λ (rt, added).
      after_adding-Follows opts record_route tr_to_source (with_revtr st rt) added rr_hops)

  add_spoof_rr-Follows :
      (st : Running W) (segs : List Segment)
      → Post Unit (FollowsRound opts.env record_route) (add_spoof_rr opts st segs)
  unfolding add_spoof_rr
  add_spoof_rr-Follows st [] = returns tt
  add_spoof_rr-Follows st (s ∷ segs) = any_then _ _ (λ (rt, added).
      after_adding-Follows opts record_route timestamp (with_revtr st rt) added no_vantage_points)

  record_route_round-Follows :
      (st : Running W) → Post Unit (FollowsRound opts.env record_route) (record_route_round opts st)
  unfolding record_route_round direct_round spoofed_round
  record_route_round-Follows st = any_then _ _ (λ (rt, vps, target).
      Post-if (length vps == 0) _ _ (λ e. returns (no_vantage_points, tt))
        (λ e.
          Post-if (in_array vps non_spoofed) _ _
            (λ d.
              any_then _ _ (λ (w, rr). add_rr-Follows (with_world (with_revtr st rt) w) target rr))
            (λ d. any_then _ _ (λ (w, rrs, err). add_spoof_rr-Follows _ _))))

  module _ {S : Type 0} (running_of : S → Running W) (s : Step) where
    after_round-Follows :
        (loop : S → Result (S × Option Step))
        → ((x : S) → Post Unit (λ (x', ns). Follows opts.env s (running_of x', ns)) (loop x))
        → (r : S × Round) → FollowsRound opts.env s (running_of r.0, r.1)
        → Post Unit (λ (x', ns). Follows opts.env s (running_of x', ns)) (after_round opts loop r)
    unfolding after_round
    after_round-Follows loop h (x, again) f = h x
    after_round-Follows loop h (x, next ns) f = returns f

    rounds-Follows :
        (round : S → Result (S × Round))
        → ((x : S) → Post Unit (λ (x', rd). FollowsRound opts.env s (running_of x', rd)) (round x))
        → (fuel : ℕ) (x : S)
        → Post Unit (λ (x', ns). Follows opts.env s (running_of x', ns)) (rounds opts round fuel x)
    unfolding rounds
    rounds-Follows round h zero x = hangs tt
    rounds-Follows round h (suc fuel) x =
        Post-bind _ _ (h x)
          (λ r f. after_round-Follows (rounds opts round fuel) (rounds-Follows round h fuel) r f)

  add_found-Follows :
      (st : Running W) (found : Option (List Segment))
      → Post Unit (FollowsRound opts.env timestamp) (add_found opts st found)
  unfolding add_found
  add_found-Follows st none = returns tt
  add_found-Follows st (some segs) = any_then _ _ (λ (rt, added).
      after_adding-Follows opts timestamp tr_to_source (with_revtr st rt) added ts_hops)

  abbrev TsFollows : (Running W × SpoofedProbes) × Round → Type 0
  TsFollows ((st, left), round) = FollowsRound opts.env timestamp (st, round)

  send_and_check-Follows :
      (st : Running W) (left : SpoofedProbes) (r : Option (TsRound W))
      → Post Unit TsFollows (send_and_check opts st left r)
  unfolding send_and_check use_segments
  send_and_check-Follows st left none = returns (no_adjacents, tt)
  send_and_check-Follows st left (some r) = any_then _ _ (λ r₁. any_then _ _ (λ r₂.
      any_then _ _ (λ r₃. any_then _ _ (λ r₄.
        Post-bind _ _ (any_then _ _ (λ hop. add_found-Follows _ _))
          (λ (st', round) f. returns f)))))

  probe_adjacents-Follows :
      (st : Running W) (left : SpoofedProbes) (target : String) (adjs : List String)
      → Post Unit TsFollows (probe_adjacents opts st left target adjs)
  unfolding probe_adjacents
  probe_adjacents-Follows st left target [] = returns (no_adjacents, tt)
  probe_adjacents-Follows st left target (adj ∷ adjs) =
      any_then _ _ (λ r. send_and_check-Follows st left r)

  timestamp_round-Follows :
      (target : String) (x : Running W × SpoofedProbes)
      → Post Unit TsFollows (timestamp_round opts target x)
  unfolding timestamp_round
  timestamp_round-Follows target (st, left) =
      any_then _ _ (λ (rt, adjs). probe_adjacents-Follows (with_revtr st rt) left target adjs)

  timestamp-Follows :
      (fuel : ℕ) (st : Running W)
      → Post Unit (Follows opts.env timestamp) (timestamp_step opts fuel st)
  unfolding timestamp_step
  timestamp-Follows fuel st = any_then _ _ (λ target.
      Post-if (ts_is_responsive st.revtr target) _ _
        (λ e.
          Post-bind _ _
            (rounds-Follows (λ (st, left). st) timestamp (timestamp_round opts target)
              (timestamp_round-Follows target) fuel (st, []))
            (λ ((st', left), ns) f. returns f))
        (λ e. returns (no_adjacents, tt)))

  give_up-Follows :
      (st : Running W) (why : FailReason)
      → Post Unit (Follows opts.env assume_symmetric) (give_up opts st why)
  unfolding give_up
  give_up-Follows st why = any_then _ _ (λ rt. elim (Bool-cases (failed_now rt).1) [
    | inl e ↦ rw e (returns (ends, inr (failed_now_lem rt e)))
    | inr e ↦ rw e (returns (assumed, tt))
  ])

  add_symmetric_hop-Follows :
      (st : Running W) (trace : List String) (num_hops : ℕ) (rv : RevSegment)
      → Post Unit (Follows opts.env assume_symmetric) (add_symmetric_hop opts st trace num_hops rv)
  unfolding add_symmetric_hop
  add_symmetric_hop-Follows st trace num_hops rv = any_then _ _ (λ p. any_then _ _ (λ seg.
      any_then _ _ (λ (rt, added).
        Post-if added _ _ (λ e. reached_or-Follows opts.env assume_symmetric tr_to_source _ assumed)
          (λ e. crashes))))

  after_traceroute-Follows :
      (st : Running W) (hop : String) (trace : Option (List String))
      → Post Unit (Follows opts.env assume_symmetric) (after_traceroute opts st hop trace)
  unfolding after_traceroute
  after_traceroute-Follows st hop none = give_up-Follows st _
  after_traceroute-Follows st hop (some trace) = any_then _ _ (λ seg. any_then _ _ (λ (rt, added).
      Post-if added _ _ (λ e. reached_or-Follows opts.env assume_symmetric tr_to_source _ assumed)
        (λ e. give_up-Follows (with_revtr st rt) _)))

  by_last_segment-Follows :
      (st : Running W) (parts : Option (List String × ℕ)) (rv : RevSegment)
      → Post Unit (Follows opts.env assume_symmetric) (by_last_segment opts st parts rv)
  unfolding by_last_segment add_symmetric_segment
  by_last_segment-Follows st none rv =
      any_then _ _
        (λ hop. any_then _ _ (λ (w, trace). after_traceroute-Follows (with_world st w) hop trace))
  by_last_segment-Follows st (some (trace, num_hops)) rv =
      add_symmetric_hop-Follows st trace num_hops rv

  assume_symmetric-Follows :
      (st : Running W)
      → Post Unit (Follows opts.env assume_symmetric) (assume_symmetric_step opts st)
  unfolding assume_symmetric_step
  assume_symmetric-Follows st =
      any_then _ _
        (λ seg. by_last_segment-Follows st (symmetric_parts (clone seg).kind) (clone seg).rev)

  -- An end of assumeSymmetric is one of backoffEndhost, where Reaches holds or not.
  backed_off-Follows :
      (st : Running W) (ns : Option Step) (r : Run (Revtr × Bool))
      → Follows opts.env assume_symmetric (st, ns)
      → ReachesSays opts.env st.revtr r
      → Post Unit (Follows opts.env backoff_endhost) (
          of_run r >>= λ (rt, reach). ret (
            with_revtr st (if reach then record rt { stop_reason = StopReason.trivial } else rt),
            ns,
          ))
  unfolding ◌>>=◌ of_run
  backed_off-Follows st ns Run.panic f says = crashes
  backed_off-Follows st none (ok (rt, true)) f (stop, same, top) =
      returns (ends, inl (inr refl, top))
  backed_off-Follows st none (ok (rt, false)) (edge, end) says = returns (ends, rw says end)
  backed_off-Follows st (some s) (ok (rt, reach)) (assumed, end) says = returns (backed_off, tt)

  -- A step that returns is followed by a step that the graph of the steps allows, or by nil; at
  -- nil the current path reaches the source and the stop reason says so, or the traceroute failed
  -- with no option left.
  pub exec-Follows :
      (fuel : ℕ) (s : Step) (st : Running W) → Post Unit (Follows opts.env s) (exec opts fuel s st)
  unfolding exec backoff_endhost_step
  exec-Follows fuel initial_step st = elim (Bool-cases st.revtr.backoff_endhost) [
    | inl e ↦ rw e (returns (start_backoff, tt))
    | inr e ↦ rw e (returns (start, tt))
  ]
  exec-Follows fuel backoff_endhost st =
      Post-bind _ _ (assume_symmetric-Follows st)
        (λ (st', ns) f. backed_off-Follows st' ns _ f (reaches_lem opts.env st'.revtr))
  exec-Follows fuel tr_to_source st = tr_to_source-Follows st
  exec-Follows fuel record_route st =
      rounds-Follows (λ st. st) record_route (record_route_round opts) record_route_round-Follows
        fuel st
  exec-Follows fuel timestamp st = timestamp-Follows fuel st
  exec-Follows fuel background_trs st = background_trs-Follows opts st
  exec-Follows fuel assume_symmetric st = assume_symmetric-Follows st

  abbrev pub RunEnds : Running W → Type 0
  RunEnds st =
      (st.revtr.stop_reason ≡ StopReason.canceled) ⊎ (Reached opts.env st.revtr ⊎ Failed st.revtr)

  after_step-RunEnds :
      (loop : Step → Running W → Result (Running W)) (s : Step)
      → ((s : Step) (st : Running W) → Post Unit RunEnds (loop s st))
      → (r : Running W × Option Step) → Follows opts.env s r
      → Post Unit RunEnds (after_step opts loop r)
  unfolding after_step
  after_step-RunEnds loop s h (st, none) (edge, end) = returns (inr end)
  after_step-RunEnds loop s h (st, some s') f = h s' st

  run_from-RunEnds :
      (fuel n : ℕ) (s : Step) (st : Running W) → Post Unit RunEnds (run_from opts fuel n s st)
  unfolding run_from
  run_from-RunEnds fuel zero s st = hangs tt
  run_from-RunEnds fuel (suc n) s st =
      Post-if (opts.is_done st.world).1 _ _ (λ e. returns (inl refl))
        (λ e.
          Post-bind _ _ (exec-Follows fuel s _)
            (λ r f. after_step-RunEnds (run_from opts fuel n) s (run_from-RunEnds fuel n) r f))

  -- A run that returns was cancelled, or the current path reaches the source and the stop reason
  -- says so, or the traceroute failed with no option left.
  pub run-RunEnds : (fuel n : ℕ) (st : Running W) → Post Unit RunEnds (run opts fuel n st)
  unfolding run
  run-RunEnds fuel n st = run_from-RunEnds fuel n initial_step st
