-- ===== src/Runner/Timestamp/Ends.antt =====
-- The loop of the step timestamp ends: every round that goes on takes adjacents from the target.

use reverse_traceroute_publi.Base.{
  ℕ, zero, suc, ◌<◌, ◌≤◌, ◌≡◌, ◌≢◌, inl, inr, refl, ap, ◌∙◌, String, some, List, [], ◌∷◌, ok,
  length, lookup, arith,
}
use reverse_traceroute_publi.Revtr.{Revtr, revtr_last_hop, ts_is_responsive}
use reverse_traceroute_publi.Revtr.Timestamp.{adjs_left, get_ts_adjacents}
use reverse_traceroute_publi.Runner.Result.{hang, ◌>>=◌, of_run}
use reverse_traceroute_publi.Runner.Network.{Options, Running}
use reverse_traceroute_publi.Runner.Probes.{SpoofedProbes}
use reverse_traceroute_publi.Runner.Steps.{Round, again, next, with_revtr, after_round, rounds}
use reverse_traceroute_publi.Runner.Timestamp.Rounds.{
  probe_adjacents, timestamp_round, timestamp_step,
}
use reverse_traceroute_publi.Runner.Post.{
  Post, returns, Post-bind, Post-if, Post-map, OfRun, OfRun-then, not_hang,
}
use reverse_traceroute_publi.Runner.Timestamp.GoesOn.{RoundGoesOn, probe_adjacents-GoesOn}
use reverse_traceroute_publi.Runner.Timestamp.Left.{Left, known-Left, get_ts_adjacents-Left}

module _ {W : Type 0} (opts : Options W) (target : String) where
  -- A round ends the loop, or leaves fewer than `n` adjacents for the target.
  abbrev Shrinks : ℕ → (Running W × SpoofedProbes) × Round → Type 0
  Shrinks n ((st, left), again) =
      (l : List String) × (lookup st.revtr.ts_hop_adjs_left target ≡ some l) × (length l < n)
  Shrinks n ((st, left), next ns) = Unit

  GoesOn-Shrinks :
      (n : ℕ) (rt : Revtr) (l : List String) (r : (Running W × SpoofedProbes) × Round)
      → lookup rt.ts_hop_adjs_left target ≡ some l
      → length l < n
      → RoundGoesOn opts rt r
      → Shrinks n r
  GoesOn-Shrinks n rt l ((st, left), again) e h k = (l, (ap (λ m. lookup m target) k ∙ e), h)
  GoesOn-Shrinks n rt l ((st, left), next ns) e h k = tt

  probe_adjacents-Shrinks :
      (n : ℕ) (st : Running W) (left : SpoofedProbes) (adjs : List String)
      → Left target n (st.revtr, adjs)
      → Post ⊥ (Shrinks n) (probe_adjacents opts st left target adjs)
  unfolding probe_adjacents
  probe_adjacents-Shrinks n st left [] few = returns tt
  probe_adjacents-Shrinks n st left (adj ∷ adjs) (inl e) = absurd (ground arith)
  probe_adjacents-Shrinks n st left (adj ∷ adjs) (inr (l, e, h)) =
      Post-map _ (λ r k. GoesOn-Shrinks n st.revtr l r e h k)
        (probe_adjacents-GoesOn opts st.revtr st left target adj adjs refl)

  -- What the first part of a round gives, for every state.
  round-Shrinks :
      (n : ℕ) (st : Running W) (left : SpoofedProbes)
      → OfRun (Left target n) (get_ts_adjacents opts.env opts.adjacencies st.revtr target)
      → Post ⊥ (Shrinks n) (timestamp_round opts target (st, left))
  unfolding timestamp_round
  round-Shrinks n st left few =
      OfRun-then _ _ few (λ (rt, adjs) h. probe_adjacents-Shrinks n (with_revtr st rt) left adjs h)

  after_round-Post :
      (fuel n : ℕ) (r : (Running W × SpoofedProbes) × Round)
      → n ≤ fuel
      → ((st : Running W) (left : SpoofedProbes) (l : List String)
          → lookup st.revtr.ts_hop_adjs_left target ≡ some l
          → length l < fuel
          → Post ⊥ (λ r'. Unit) (rounds opts (timestamp_round opts target) fuel (st, left)))
      → Shrinks n r
      → Post ⊥ (λ r'. Unit) (after_round opts (rounds opts (timestamp_round opts target) fuel) r)
  unfolding after_round
  after_round-Post fuel n ((st, left), again) le loop (l, e, h) = loop st left l e (omega arith)
  after_round-Post fuel n ((st, left), next ns) le loop k = returns tt

  rounds-Post :
      (fuel : ℕ) (st : Running W) (left : SpoofedProbes) (l : List String)
      → lookup st.revtr.ts_hop_adjs_left target ≡ some l
      → length l < fuel
      → Post ⊥ (λ r. Unit) (rounds opts (timestamp_round opts target) fuel (st, left))
  unfolding rounds
  rounds-Post zero st left l e h = absurd (omega arith)
  rounds-Post (suc fuel) st left l e h =
      Post-bind _ _
        (round-Shrinks (length l) st left
          (known-Left opts.env opts.adjacencies st.revtr target l (length l) e (omega arith)))
        (λ r k. after_round-Post fuel (length l) r (omega arith) (rounds-Post fuel) k)

  first_rounds-Post :
      (fuel : ℕ) (st : Running W) (left : SpoofedProbes)
      → 30 < fuel
      → length (adjs_left st.revtr target) < fuel
      → Post ⊥ (λ r. Unit) (rounds opts (timestamp_round opts target) fuel (st, left))
  unfolding rounds
  first_rounds-Post zero st left h k = absurd (omega arith)
  first_rounds-Post (suc fuel) st left h k =
      Post-bind _ _
        (round-Shrinks fuel st left (
          get_ts_adjacents-Left opts.env opts.adjacencies st.revtr target fuel (omega arith)
            (omega arith)))
        (λ r s. after_round-Post fuel fuel r (omega arith) (rounds-Post fuel) s)

timestamp-Post :
    {W : Type 0} (opts : Options W) (fuel : ℕ) (st : Running W) (target : String)
    → revtr_last_hop st.revtr ≡ ok target
    → 30 < fuel
    → length (adjs_left st.revtr target) < fuel
    → Post ⊥ (λ r. Unit) (timestamp_step opts fuel st)
unfolding timestamp_step ◌>>=◌ of_run
timestamp-Post opts fuel st target at h k = rw at (
    Post-if (ts_is_responsive st.revtr target) _ _
      (λ e.
        Post-bind _ _ (first_rounds-Post opts target fuel st [] h k)
          (λ ((st', left), ns) u. returns tt))
      (λ e. returns tt))

-- Where the last hop is `target`, the step timestamp returns or panics: 31 rounds are enough, or
-- one more than the number of adjacents that the target has left, if that is more.
pub timestamp-ends :
    {W : Type 0} (opts : Options W) (fuel : ℕ) (st : Running W) (target : String)
    → revtr_last_hop st.revtr ≡ ok target
    → 30 < fuel
    → length (adjs_left st.revtr target) < fuel
    → timestamp_step opts fuel st ≢ hang
timestamp-ends opts fuel st target at h k = not_hang _ (timestamp-Post opts fuel st target at h k)
