-- ===== src/Runner/Timestamp/GoesOn.antt =====
-- A round of the step timestamp returns or panics, and leaves the adjacents that are left alone.

use reverse_traceroute_publi.Base.{
  inl, inr, ◌∙◌, String, Bool, false, Option, none, some, List, [], ◌∷◌, Run, Bool-cases,
  Option-cases, length, lookup, lookup_or, ◌==◌,
}
use reverse_traceroute_publi.Segment.{Segment}
use reverse_traceroute_publi.Revtr.{Revtr, ts_set_unresponsive}
use reverse_traceroute_publi.Runner.Network.{Ping, Options, Running}
use reverse_traceroute_publi.Runner.Probes.{Probe, Probes, SpoofedProbes}
use reverse_traceroute_publi.Runner.Probes.Handled.{
  issue_timestamps-Post, issue_spoofed_timestamps-Post,
}
use reverse_traceroute_publi.Runner.Steps.{
  Round, again, next, tr_to_source, timestamp, with_revtr, checkbg_trs, after_adding,
}
use reverse_traceroute_publi.Runner.Timestamp.{
  TsRound, set_send_spoofed, sends_spoofed, set_unresponsive,
}
use reverse_traceroute_publi.Runner.Timestamp.Rounds.{
  expect_answers, spoof_unanswered, issue_direct, issue_spoofed, direct_probing, choose_spoofed,
  choose_probes, check_linux_bugs, probe_zero_stamps, for_zero_stamps, verify_zero_stamps,
  send_spoofed, add_found, use_segments, send_and_check, probe_adjacents,
}
use reverse_traceroute_publi.Runner.Timestamp.Kept.{
  Kept, KeptRound, add_segments-Kept, process_rev_hop-Kept, process_linux_bug-Kept,
  process_does_not_stamp-Kept, process_to_verify-Kept,
}
use reverse_traceroute_publi.Runner.Post.{
  Post, returns, Post-bind, Post-run, Post-if, OfRun, OfRun-then,
}
use reverse_traceroute_publi.Runner.Graph.{reached_or-Post, ends, checkbg_trs-Follows, ts_hops}

module _ {W : Type 0} (opts : Options W) (rt₀ : Revtr) where
  abbrev K : TsRound W → Type 0
  K r = KeptRound rt₀ r

  expect_answers-K :
      (probes : List Probe) (r : TsRound W) (src : String)
      → K r
      → K (expect_answers opts r src probes)
  unfolding expect_answers set_send_spoofed
  expect_answers-K [] r src h = h
  expect_answers-K ([] ∷ probes) r src h = expect_answers-K probes r src h
  expect_answers-K ((hop ∷ stamps) ∷ probes) r src h =
      elim (Option-cases (lookup (lookup_or r.running.ts_src_to_hop_to_send_spoofed src []) hop)) [
        | inl e ↦ rw (e, expect_answers) (expect_answers-K probes _ src h)
        | inr (b, e) ↦ rw (e, expect_answers) (expect_answers-K probes _ src h)
      ]

  spoof_unanswered-K :
      (probes : List Probe) (r : TsRound W) (src : String)
      → K r
      → K (spoof_unanswered opts r src probes)
  unfolding spoof_unanswered set_unresponsive ts_set_unresponsive
  spoof_unanswered-K [] r src h = h
  spoof_unanswered-K ([] ∷ probes) r src h = spoof_unanswered-K probes r src h
  spoof_unanswered-K ((hop ∷ stamps) ∷ probes) r src h =
      elim (Bool-cases (sends_spoofed r.running src hop)) [
        | inl e ↦ rw (e, spoof_unanswered) (spoof_unanswered-K probes _ src h)
        | inr e ↦ rw (e, spoof_unanswered) (spoof_unanswered-K probes _ src h)
      ]

  module _ (fn : String → String → Ping → TsRound W → Run (TsRound W))
      (keeps : (src vp : String) (p : Ping) (r : TsRound W) → K r → OfRun K (fn src vp p r)) where
    issue_direct-K :
        (probes : Probes) (r : TsRound W) → K r → Post ⊥ K (issue_direct opts fn probes r)
    unfolding issue_direct
    issue_direct-K probes r h =
        Post-bind _ _ (issue_timestamps-Post fn keeps opts probes _ r h) (λ (w, r') h'. returns h')

    issue_spoofed-K :
        (probes : SpoofedProbes) (r : TsRound W) → K r → Post ⊥ K (issue_spoofed opts fn probes r)
    unfolding issue_spoofed
    issue_spoofed-K probes r h =
        Post-bind _ _ (issue_spoofed_timestamps-Post fn keeps opts probes _ r h)
          (λ (w, r') h'. returns h')

  abbrev KOption : Option (TsRound W) → Type 0
  KOption none = Unit
  KOption (some r) = K r

  choose_spoofed-K :
      (st : Running W) (left : SpoofedProbes) (target hop : String) (adjs spfs : List String)
      → Kept rt₀ st.revtr
      → KOption (choose_spoofed opts st left target hop adjs spfs)
  unfolding choose_spoofed set_unresponsive ts_set_unresponsive
  choose_spoofed-K st left target hop adjs [] h = tt
  choose_spoofed-K st left target hop adjs (spf ∷ spfs) h = h

  direct_probing-K :
      (r : TsRound W) (src : String) (probes : List Probe)
      → K r
      → Post ⊥ K (direct_probing opts r src probes)
  unfolding direct_probing
  direct_probing-K r src probes h =
      Post-bind _ _
        (issue_direct-K _ (process_rev_hop-Kept rt₀ opts.env) _ _ (expect_answers-K probes r src h))
        (λ r' h'. returns (spoof_unanswered-K probes r' src h'))

  choose_probes-K :
      (st : Running W) (left : SpoofedProbes) (target : String) (adjs : List String)
      → Kept rt₀ st.revtr
      → Post ⊥ KOption (choose_probes opts st left target adjs)
  unfolding choose_probes
  choose_probes-K st left target adjs h =
      Post-if (lookup_or st.ts_dst_to_stamps_zero target false) _ _ (λ e. returns h)
        (λ e. Post-run _ _ (λ hop d.
          Post-if (sends_spoofed st st.revtr.src target) _ _
            (λ c. returns (choose_spoofed-K st left target hop adjs _ h))
            (λ c. Post-bind _ _ (direct_probing-K _ _ _ h) (λ r h'. returns h'))))

  send_spoofed-K : (r : TsRound W) → K r → Post ⊥ K (send_spoofed opts r)
  unfolding send_spoofed
  send_spoofed-K r h =
      Post-if (length r.receiver_to_spoofer_to_probe == 0) _ _ (λ e. returns h)
        (λ e. issue_spoofed-K _ (process_rev_hop-Kept rt₀ opts.env) _ r h)

  check_linux_bugs-K : (r : TsRound W) → K r → Post ⊥ K (check_linux_bugs opts r)
  unfolding check_linux_bugs
  check_linux_bugs-K r h =
      Post-if (length r.linux_bug_to_check == 0) _ _ (λ e. returns h)
        (λ e.
          Post-bind _ _ (issue_direct-K _ (process_linux_bug-Kept rt₀ opts.env) _ r h)
            (λ r' h'. issue_spoofed-K _ (process_linux_bug-Kept rt₀ opts.env) _ r' h'))

  probe_zero_stamps-K : (r : TsRound W) → K r → Post ⊥ K (probe_zero_stamps opts r)
  unfolding probe_zero_stamps
  probe_zero_stamps-K r h =
      Post-if (length r.dest_does_not_stamp == 0) _ _ (λ e. returns h)
        (λ e.
          issue_spoofed-K _ (process_does_not_stamp-Kept rt₀ opts.env) _ (for_zero_stamps opts r) h)

  verify_zero_stamps-K : (r : TsRound W) → K r → Post ⊥ K (verify_zero_stamps opts r)
  unfolding verify_zero_stamps
  verify_zero_stamps-K r h =
      Post-if (length r.to_verify == 0) _ _ (λ e. returns h)
        (λ e. issue_direct-K _ (process_to_verify-Kept rt₀ opts.env) _ r h)

  -- A round that goes on leaves the adjacents as they are.
  abbrev pub GoesOn : Running W × Round → Type 0
  GoesOn (st, again) = Kept rt₀ st.revtr
  GoesOn (st, next ns) = Unit

  after_adding-GoesOn :
      (st : Running W) (added : Bool)
      → Kept rt₀ st.revtr
      → Post ⊥ GoesOn (after_adding opts st added tr_to_source)
  unfolding after_adding
  after_adding-GoesOn st added h =
      Post-if added _ _
        (λ e.
          Post-bind _ _
            (reached_or-Post opts.env st (λ st'. checkbg_trs opts st' tr_to_source)
              (λ st' r. (ends, inl r))
              (λ st'. checkbg_trs-Follows opts timestamp tr_to_source st' ts_hops))
            (λ (st', ns) f. returns tt))
        (λ e. returns h)

  add_found-GoesOn :
      (st : Running W) (found : Option (List Segment))
      → Kept rt₀ st.revtr
      → Post ⊥ GoesOn (add_found opts st found)
  unfolding add_found
  add_found-GoesOn st none h = returns h
  add_found-GoesOn st (some segs) h =
      OfRun-then _ _ (add_segments-Kept opts.env st.revtr segs)
        (λ (rt, added) k. after_adding-GoesOn (with_revtr st rt) added (k ∙ h))

  abbrev pub RoundGoesOn : (Running W × SpoofedProbes) × Round → Type 0
  RoundGoesOn ((st, left), round) = GoesOn (st, round)

  send_and_check-GoesOn :
      (st : Running W) (left : SpoofedProbes) (r : Option (TsRound W))
      → KOption r
      → Post ⊥ RoundGoesOn (send_and_check opts st left r)
  unfolding send_and_check use_segments
  send_and_check-GoesOn st left none h = returns tt
  send_and_check-GoesOn st left (some r) h = Post-bind _ _ (send_spoofed-K r h) (λ r₁ h₁.
      Post-bind _ _ (check_linux_bugs-K r₁ h₁) (λ r₂ h₂.
        Post-bind _ _ (probe_zero_stamps-K r₂ h₂) (λ r₃ h₃.
          Post-bind _ _ (verify_zero_stamps-K r₃ h₃) (λ r₄ h₄.
            Post-bind _ _ (Post-run _ _ (λ hop e. add_found-GoesOn r₄.running _ h₄))
              (λ (st', round) g. returns g)))))

  pub probe_adjacents-GoesOn :
      (st : Running W) (left : SpoofedProbes) (target adj : String) (adjs : List String)
      → Kept rt₀ st.revtr
      → Post ⊥ RoundGoesOn (probe_adjacents opts st left target (adj ∷ adjs))
  unfolding probe_adjacents
  probe_adjacents-GoesOn st left target adj adjs h =
      Post-bind _ _ (choose_probes-K st left target (adj ∷ adjs) h)
        (λ r h'. send_and_check-GoesOn st left r h')
