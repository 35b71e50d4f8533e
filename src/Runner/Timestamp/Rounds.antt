-- ===== src/Runner/Timestamp/Rounds.antt =====
-- The rounds of the step timestamp: which probes are sent, in which order, and what is done with
-- the answers.
use reverse_traceroute_publi.Base.{
  length, ℕ, String, true, false, Option, none, some, List, [], ◌∷◌, ◌++◌, map, lookup, lookup_or,
  Run, str_eq, if◌then◌else◌, ◌==◌,
}
use reverse_traceroute_publi.StringUtil.{non_spoofed}
use reverse_traceroute_publi.Segment.{Segment}
use reverse_traceroute_publi.Revtr.{revtr_last_hop, ts_is_responsive, add_segments}
use reverse_traceroute_publi.Revtr.Timestamp.{get_ts_adjacents, get_timestamp_spoofers}
use reverse_traceroute_publi.Runner.Result.{Result, ret, ◌>>=◌, of_run}
use reverse_traceroute_publi.Runner.Network.{Ping, Options, Running}
use reverse_traceroute_publi.Runner.Keyed.{Triplet, pair_eq, find}
use reverse_traceroute_publi.Runner.Probes.{
  Probe, Probes, SpoofedProbes, add_probe, add_spoofed_probe, issue_timestamps,
  issue_spoofed_timestamps,
}
use reverse_traceroute_publi.Runner.Steps.{
  Step, background_trs, tr_to_source, Round, again, next, with_revtr, with_world, after_adding,
  rounds,
}
use reverse_traceroute_publi.Runner.Timestamp.{
  dummy_ip, TsRound, in_running, set_send_spoofed, sends_spoofed, set_unresponsive, process_rev_hop,
  process_linux_bug, process_does_not_stamp, process_to_verify,
}

-- A probe for each spoofer.
unfoldable pub spoof_probe : SpoofedProbes → String → Probe → List String → SpoofedProbes
spoof_probe probes receiver p [] = probes
spoof_probe probes receiver p (spf ∷ spfs) =
    spoof_probe (add_spoofed_probe probes receiver spf p) receiver p spfs

unfoldable pub spoof_probes : SpoofedProbes → String → List String → List Probe → SpoofedProbes
spoof_probes probes receiver spfs [] = probes
spoof_probes probes receiver spfs (p ∷ ps) =
    spoof_probes (spoof_probe probes receiver p spfs) receiver spfs ps

-- The probes that ask the last hop whether it stamps itself and then the adjacent.
abbrev pub adjacent_probes : String → List String → List Probe
adjacent_probes hop adjs = map (λ adj. hop ∷ hop ∷ adj ∷ adj ∷ dummy_ip ∷ []) adjs

-- The checks for the linux bug, from the map of what is to be checked.
unfoldable pub linux_checks :
    List (Triplet × List String) → Probes → SpoofedProbes → Probes × SpoofedProbes
linux_checks [] direct spoofed = (direct, spoofed)
linux_checks ((k, hs) ∷ m) direct spoofed =
    let p = k.dst ∷ k.dst ∷ dummy_ip ∷ dummy_ip ∷ [] in
    if str_eq k.third non_spoofed
    then linux_checks m (add_probe direct k.src p) spoofed
    else linux_checks m direct (add_spoofed_probe spoofed k.src k.third p)

-- Four times the probes.
unfoldable pub four_times : Probes → Probes
four_times [] = []
four_times ((vp, probes) ∷ m) = let twice = probes ++ probes in (vp, twice ++ twice) ∷ four_times m

module _ {W : Type 0} where
  -- The spoofed probes are those that the round before left; the other maps are new.
  abbrev pub new_round : Running W → SpoofedProbes → TsRound W
  new_round st left = record {
    running = st;
    receiver_to_spoofer_to_probe = left;
    rev_hops_src_dst_to_rev_seg = [];
    linux_bug_to_check = [];
    dest_does_not_stamp = [];
    to_verify = [];
    interested_srcs = [];
    maybe_revhop = [];
  }

  module _ (opts : Options W) where
    -- Before the direct probes: spoofing is needed until an answer comes.
    unfoldable pub expect_answers : TsRound W → String → List Probe → TsRound W
    expect_answers r src [] = r
    expect_answers r src ([] ∷ probes) = expect_answers r src probes
    expect_answers r src ((hop ∷ stamps) ∷ probes) =
        let sent = lookup_or r.running.ts_src_to_hop_to_send_spoofed src [] in
        expect_answers
          (elim (lookup sent hop) [
            | some b ↦ r
            | none ↦ in_running r (λ st. set_send_spoofed st src hop true)
          ])
          src probes

    -- After the direct probes: spoofed ones, for those without an answer.
    unfoldable pub spoof_unanswered : TsRound W → String → List Probe → TsRound W
    spoof_unanswered r src [] = r
    spoof_unanswered r src ([] ∷ probes) = spoof_unanswered r src probes
    spoof_unanswered r src ((hop ∷ stamps) ∷ probes) =
        let r' = record r {
          running = set_unresponsive r.running hop;
          receiver_to_spoofer_to_probe =
              spoof_probe r.receiver_to_spoofer_to_probe src (hop ∷ stamps)
                (get_timestamp_spoofers opts.vps);
        } in
        spoof_unanswered (if sends_spoofed r.running src hop then r' else r) src probes

    -- Calls of the issuing functions within a round.
    unfoldable pub issue_direct :
        (String → String → Ping → TsRound W → Run (TsRound W))
        → Probes
        → TsRound W
        → Result (TsRound W)
    issue_direct fn probes r = issue_timestamps opts fn probes r.running.world r >>= λ (w, r').
        ret (in_running r' (λ st. with_world st w))

    unfoldable pub issue_spoofed :
        (String → String → Ping → TsRound W → Run (TsRound W))
        → SpoofedProbes
        → TsRound W
        → Result (TsRound W)
    issue_spoofed fn probes r =
        issue_spoofed_timestamps opts fn probes r.running.world r >>= λ (w, r').
        ret (in_running r' (λ st. with_world st w))

    unfoldable pub direct_probing : TsRound W → String → List Probe → Result (TsRound W)
    direct_probing r src probes =
        issue_direct (process_rev_hop opts.env) ((src, probes) ∷ []) (expect_answers r src probes)
        >>= λ r'. ret (spoof_unanswered r' src probes)

    -- The first branches: probes of the adjacents, or a return. Where the destination is known to
    -- stamp zero the list dstsDoNotStamp is made, and not read: only the probes left over are sent.
    unfoldable pub choose_spoofed :
        Running W → SpoofedProbes → String → String → List String → List String → Option (TsRound W)
    choose_spoofed st left target hop adjs [] = none
    choose_spoofed st left target hop adjs (spf ∷ spfs) = some (
        new_round (set_unresponsive st target)
          (spoof_probes left st.revtr.src (spf ∷ spfs) (adjacent_probes hop adjs)))

    unfoldable pub choose_probes :
        Running W → SpoofedProbes → String → List String → Result (Option (TsRound W))
    choose_probes st left target adjs =
        if lookup_or st.ts_dst_to_stamps_zero target false
        then ret (some (new_round st left))
        else (of_run (revtr_last_hop st.revtr) >>= λ hop.
            if sends_spoofed st st.revtr.src target
            then ret (choose_spoofed st left target hop adjs (get_timestamp_spoofers opts.vps))
            else (direct_probing (new_round st left) st.revtr.src (adjacent_probes hop adjs)
                >>= λ r. ret (some r)))

    unfoldable pub check_linux_bugs : TsRound W → Result (TsRound W)
    check_linux_bugs r =
        let (direct, spoofed) = linux_checks (opts.order r.linux_bug_to_check) [] [] in
        if length r.linux_bug_to_check == 0
        then ret r
        else (issue_direct (process_linux_bug opts.env) direct r >>= λ r'.
            issue_spoofed (process_linux_bug opts.env) spoofed r')

    unfoldable pub zero_probes : List Triplet → SpoofedProbes → SpoofedProbes
    zero_probes [] probes = probes
    zero_probes (k ∷ ks) probes = zero_probes ks (
        spoof_probe probes k.src (k.dst ∷ k.third ∷ k.third ∷ k.third ∷ k.third ∷ [])
          (get_timestamp_spoofers opts.vps))

    -- Destinations that do not stamp: the map of the spoofed probes is made anew, for them, and
    -- stays for the next round.
    abbrev pub for_zero_stamps : TsRound W → TsRound W
    for_zero_stamps r = record r {
      receiver_to_spoofer_to_probe = zero_probes r.dest_does_not_stamp [];
    }

    unfoldable pub probe_zero_stamps : TsRound W → Result (TsRound W)
    probe_zero_stamps r =
        if length r.dest_does_not_stamp == 0
        then ret (for_zero_stamps r)
        else issue_spoofed (process_does_not_stamp opts.env) (zero_probes r.dest_does_not_stamp [])
            (for_zero_stamps r)

    unfoldable pub verify_zero_stamps : TsRound W → Result (TsRound W)
    verify_zero_stamps r =
        if length r.to_verify == 0
        then ret r
        else issue_direct (process_to_verify opts.env) (four_times (opts.order r.to_verify)) r

    unfoldable pub send_spoofed : TsRound W → Result (TsRound W)
    send_spoofed r =
        if length r.receiver_to_spoofer_to_probe == 0
        then ret r
        else issue_spoofed (process_rev_hop opts.env) r.receiver_to_spoofer_to_probe r

    -- The end of a round: the segments for the last hop, if there are any.
    unfoldable pub add_found : Running W → Option (List Segment) → Result (Running W × Round)
    add_found st none = ret (st, again)
    add_found st (some segments) =
        of_run (add_segments opts.env st.revtr segments) >>= λ (rt, added).
        after_adding opts (with_revtr st rt) added tr_to_source

    unfoldable pub use_segments : TsRound W → Result (Running W × Round)
    use_segments r = of_run (revtr_last_hop r.running.revtr) >>= λ hop. add_found r.running (
        find pair_eq r.rev_hops_src_dst_to_rev_seg
          (record { src = r.running.revtr.src; dst = hop }))

    -- The rest of a round, after the first probes, with the spoofed probes that it leaves.
    unfoldable pub send_and_check :
        Running W
        → SpoofedProbes
        → Option (TsRound W)
        → Result ((Running W × SpoofedProbes) × Round)
    send_and_check st left none = ret ((st, left), next (some background_trs))
    send_and_check st left (some r) = do
      r₁ ← send_spoofed r
      r₂ ← check_linux_bugs r₁
      r₃ ← probe_zero_stamps r₂
      r₄ ← verify_zero_stamps r₃
      (st', round) ← use_segments r₄
      ret ((st', r₄.receiver_to_spoofer_to_probe), round)

    unfoldable pub probe_adjacents :
        Running W
        → SpoofedProbes
        → String
        → List String
        → Result ((Running W × SpoofedProbes) × Round)
    probe_adjacents st left target [] = ret ((st, left), next (some background_trs))
    probe_adjacents st left target (adj ∷ adjs) =
        choose_probes st left target (adj ∷ adjs) >>= λ r. send_and_check st left r

    -- receiverToSpooferToProbe is declared before the loop: a round starts with what the one before
    -- left in it.
    unfoldable pub timestamp_round :
        String → Running W × SpoofedProbes → Result ((Running W × SpoofedProbes) × Round)
    timestamp_round target (st, left) =
        of_run (get_ts_adjacents opts.env opts.adjacencies st.revtr target) >>= λ (rt, adjs).
        probe_adjacents (with_revtr st rt) left target adjs

    unfoldable pub timestamp_step : ℕ → Running W → Result (Running W × Option Step)
    timestamp_step fuel st = of_run (revtr_last_hop st.revtr) >>= λ target.
        if ts_is_responsive st.revtr target
        then (rounds opts (timestamp_round target) fuel (st, []) >>= λ ((st', left), ns).
            ret (st', ns))
        else ret (st, some background_trs)
