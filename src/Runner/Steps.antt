-- ===== src/Runner/Steps.antt =====
-- The steps of rtBatch but timestamp. A step gives the state afterwards and the next step; `none`
-- is nil.
use reverse_traceroute_publi.Base.{
  ℕ, zero, suc, String, Bool, Option, none, some, List, [], ◌∷◌, ◌++◌, length, str_eq,
  if◌then◌else◌, ◌==◌,
}
use reverse_traceroute_publi.StringUtil.{in_array, non_spoofed}
use reverse_traceroute_publi.Segment.{
  null_hop, RevSegment, Segment, Kind, dst_sym_rev_segment, hops, clone,
}
use reverse_traceroute_publi.Segment.Create.{
  new_tr_to_src_rev_segment, new_rr_rev_segment, new_spoof_rr_rev_segment,
}
use reverse_traceroute_publi.Segment.Symmetric.{new_dst_sym_rev_segment, add_hop}
use reverse_traceroute_publi.ReversePath.{last_seg, path_hops, without_last}
use reverse_traceroute_publi.Revtr.{
  Revtr, StopReason, curr_path, revtr_hops, revtr_last_hop, deadends, reaches, failed_now,
  fail_curr_path, add_and_replace_segment, add_segments, add_unresponsive_rr_spoofer,
  mark_responsive_rr_spoofer,
}
use reverse_traceroute_publi.Revtr.Externs.{Env}
use reverse_traceroute_publi.Revtr.RecordRoute.{address_of, get_rr_vps}
use reverse_traceroute_publi.Revtr.Background.{add_background_tr_segment}
use reverse_traceroute_publi.Runner.Result.{Result, ret, crash, hang, ◌>>=◌, of_run}
use reverse_traceroute_publi.Runner.Network.{
  IntersectionResponse, Options, FailReason, traceroute_failed, no_hops, Running, is_private,
}
use reverse_traceroute_publi.Runner.Measure.{
  IntersectingTr, SprrHops, issue_rr, issue_spoofed_rr, issue_traceroute, intersecting_traceroute,
  retreive_traceroutes,
}

pub data Step : Type 0 where
  initial_step backoff_endhost tr_to_source record_route timestamp background_trs assume_symmetric :
      Step

-- How one round of a step's `for` loop ends: `continue`, or a return.
pub data Round : Type 0 where
  again : Round
  next : Option Step → Round

-- The segments of one answer: for each hop but a null hop, the hops up to it. NewRevSegment writes
-- null hops into the array that the slices share, at hops that a later segment nulls again.
rr_segments_loop : (List String → Segment) → List String → List String → List Segment
rr_segments_loop new before [] = []
rr_segments_loop new before (h ∷ hs) =
    let rest = rr_segments_loop new (before ++ h ∷ []) hs in
    if str_eq h null_hop then rest else new (before ++ h ∷ []) ∷ rest

unfoldable pub rr_segments : Env → String → String → List String → List Segment
unfolding rr_segments_loop
rr_segments env src target rr =
    rr_segments_loop (λ seg. new_rr_rev_segment env.is_global_unicast seg src target) [] rr

unfoldable pub spoof_rr_segments : Env → String → String → List SprrHops → List Segment
unfolding rr_segments_loop
spoof_rr_segments env src target [] = []
spoof_rr_segments env src target (rr ∷ rrs) =
    rr_segments_loop (λ seg. new_spoof_rr_rev_segment env.is_global_unicast seg src target rr.vp) []
      rr.hops
    ++ spoof_rr_segments env src target rrs

-- The addresses of the hops that are not private. A hop that is IPv6 panics, private or not.
tr_addresses : Env → List ℕ → List String → Result (List ℕ)
tr_addresses env addrs [] = ret addrs
tr_addresses env addrs (hop ∷ hs) = of_run (address_of env hop) >>= λ addr.
    tr_addresses env (if is_private env hop then addrs else addrs ++ addr ∷ []) hs

-- The traceroute of a DstSymRevSegment and the number of its hops.
unfoldable pub symmetric_parts : Kind → Option (List String × ℕ)
symmetric_parts (dst_sym_rev_segment trace num_hops) = some (trace, num_hops)
symmetric_parts kind = none

-- nil stays, and another step is replaced.
unfoldable pub instead : Option Step → Step → Option Step
instead none next_step = none
instead (some s) next_step = some next_step

module _ {W : Type 0} where
  abbrev pub with_revtr : Running W → Revtr → Running W
  with_revtr st rt = record st { revtr = rt }

  abbrev pub with_world : Running W → W → Running W
  with_world st w = record st { world = w }

  -- Where Reaches holds the step returns nil, and `otherwise` is called if it does not.
  unfoldable pub reached_or :
      Env
      → Running W
      → (Running W → Result (Running W × Option Step))
      → Result (Running W × Option Step)
  reached_or env st otherwise = of_run (reaches env st.revtr) >>= λ (rt, reach).
      if reach then ret (with_revtr st rt, none) else otherwise (with_revtr st rt)

  module _ (opts : Options W) where
    last_segment : Running W → Result Segment
    last_segment st = of_run (curr_path st.revtr) >>= λ p. of_run (last_seg p)

    -- A traceroute to the source must complete the path: all else panics.
    unfoldable pub add_traceroute : Running W → IntersectingTr → Result (Running W × Option Step)
    add_traceroute st tr =
        let segment =
          new_tr_to_src_rev_segment opts.env.is_global_unicast tr.hops st.revtr.src tr.addr in
        of_run (add_background_tr_segment opts.env st.revtr segment) >>= λ (rt, added).
        if added then reached_or opts.env (with_revtr st rt) (λ st'. crash) else crash

    -- The end of trToSource: an error, tokens, no hops, or hops.
    unfoldable pub after_intersecting :
        Running W
        → Option (IntersectingTr × List IntersectionResponse)
        → Result (Running W × Option Step)
    after_intersecting st none = ret (st, some record_route)
    after_intersecting st (some (tr, t ∷ ts)) =
        ret (record st { tokens = t ∷ ts }, some record_route)
    after_intersecting st (some (tr, [])) =
        if length tr.hops == 0
        then ret (record st { tokens = [] }, some record_route)
        else add_traceroute st tr

    unfoldable pub tr_to_source_step : Running W → Result (Running W × Option Step)
    unfolding tr_addresses last_segment
    tr_to_source_step st = do
      seg ← last_segment st
      addrs ← tr_addresses opts.env [] (hops seg)
      (w, answer) ← intersecting_traceroute opts st.revtr.src st.revtr.dst addrs st.world
      after_intersecting (with_world st w) answer

    -- The end of backgroundTRS.
    unfoldable pub after_retreiving :
        Running W → W → Option IntersectingTr → Result (Running W × Option Step)
    after_retreiving st w none = ret (record st { tokens = []; world = w }, some assume_symmetric)
    after_retreiving st w (some tr) = add_traceroute (record st { tokens = []; world = w }) tr

    unfoldable pub background_trs_step : Running W → Result (Running W × Option Step)
    background_trs_step st = do
      (w, answer) ← retreive_traceroutes opts st.tokens st.world
      after_retreiving st w answer

    unfoldable pub checkbg_trs : Running W → Step → Result (Running W × Option Step)
    checkbg_trs st next_step =
        background_trs_step st >>= λ (st', ns). ret (st', instead ns next_step)

    -- What follows AddSegments in a round: it failed and the loop goes on, or a return.
    unfoldable pub after_adding : Running W → Bool → Step → Result (Running W × Round)
    after_adding st added next_step =
        if added
        then (reached_or opts.env st (λ st'. checkbg_trs st' next_step) >>= λ (st', ns).
            ret (st', next ns))
        else ret (st, again)

    -- The round with the direct probe.
    unfoldable pub add_rr : Running W → String → Option (List String) → Result (Running W × Round)
    add_rr st target none = ret (st, again)
    add_rr st target (some rr) =
        of_run (add_segments opts.env st.revtr (rr_segments opts.env st.revtr.src target rr))
        >>= λ (rt, added). after_adding (with_revtr st rt) added tr_to_source

    unfoldable pub direct_round : Running W → String → Result (Running W × Round)
    direct_round st target =
        issue_rr opts st.revtr.src target st.world >>= λ (w, rr). add_rr (with_world st w) target rr

    -- The answers of the target are counted.
    unfoldable pub count_answers : Revtr → String → List SprrHops → ℕ → Revtr
    count_answers rt target [] sent = add_unresponsive_rr_spoofer rt target sent
    count_answers rt target (rr ∷ rrs) sent = mark_responsive_rr_spoofer rt target

    -- The round with the spoofed probes.
    unfoldable pub add_spoof_rr : Running W → List Segment → Result (Running W × Round)
    add_spoof_rr st [] = ret (st, again)
    add_spoof_rr st (s ∷ segs) =
        of_run (add_segments opts.env st.revtr (s ∷ segs)) >>= λ (rt, added).
        after_adding (with_revtr st rt) added timestamp

    unfoldable pub spoofed_round : Running W → List String → String → Result (Running W × Round)
    spoofed_round st vps target = do
      (w, rrs, err) ← issue_spoofed_rr opts st.revtr.src target vps st.world
      let st' = record st { world = w; revtr = count_answers st.revtr target rrs (length vps) }
      add_spoof_rr st' (spoof_rr_segments opts.env st'.revtr.src target rrs)

    -- One round of the loop of recordRoute.
    unfoldable pub record_route_round : Running W → Result (Running W × Round)
    record_route_round st = do
      (rt, vps, target) ← of_run (get_rr_vps opts.env opts.vps st.revtr)
      let st' = with_revtr st rt
      (if length vps == 0
          then ret (st', next (some timestamp))
          else if in_array vps non_spoofed
          then direct_round st' target
          else spoofed_round st' vps target)

    -- A loop of rounds on fuel, over what it changes.
    unfoldable pub after_round :
        {S : Type 0} → (S → Result (S × Option Step)) → S × Round → Result (S × Option Step)
    after_round loop (st, again) = loop st
    after_round loop (st, next ns) = ret (st, ns)

    unfoldable pub rounds :
        {S : Type 0} → (S → Result (S × Round)) → ℕ → S → Result (S × Option Step)
    unfolding after_round
    rounds round zero st = hang
    rounds round (suc fuel) st = round st >>= λ r. after_round (rounds round fuel) r

    -- assumeSymmetric where the last segment is assumed already: one more hop of its traceroute.
    -- AddHop gives no error where it returns.
    unfoldable pub add_symmetric_hop :
        Running W → List String → ℕ → RevSegment → Result (Running W × Option Step)
    add_symmetric_hop st tr num_hops rv = do
      p ← of_run (curr_path st.revtr)
      let all_hops = path_hops (without_last p.path) ++ deadends opts.env st.revtr
      new_seg ← of_run (add_hop tr num_hops rv all_hops)
      (rt, added) ← of_run (add_and_replace_segment st.revtr new_seg)
      (if added
          then reached_or opts.env (with_revtr st rt) (λ st'. ret (st', some tr_to_source))
          else crash)

    -- FailCurrPath, and then nil if no path is left.
    unfoldable pub give_up : Running W → FailReason → Result (Running W × Option Step)
    give_up st reason = of_run (fail_curr_path st.revtr) >>= λ rt.
        let (rt', failed) = failed_now rt in
        ret (
          if failed
          then (record st { revtr = rt'; fail_reason = reason }, none)
          else (with_revtr st rt', some tr_to_source))

    -- assumeSymmetric with a new traceroute.
    unfoldable pub after_traceroute :
        Running W → String → Option (List String) → Result (Running W × Option Step)
    after_traceroute st hop none = give_up st traceroute_failed
    after_traceroute st hop (some trace) = do
      let ignore = revtr_hops st.revtr ++ deadends opts.env st.revtr
      seg ←
          of_run
            (new_dst_sym_rev_segment opts.env.is_global_unicast st.revtr.src hop trace 1 ignore)
      (rt, added) ← of_run (add_segments opts.env st.revtr (seg ∷ []))
      (if added
          then reached_or opts.env (with_revtr st rt) (λ st'. ret (st', some tr_to_source))
          else give_up (with_revtr st rt) no_hops)

    unfoldable pub add_symmetric_segment : Running W → Result (Running W × Option Step)
    add_symmetric_segment st = do
      hop ← of_run (revtr_last_hop st.revtr)
      (w, trace) ← issue_traceroute opts st.revtr.src hop st.world
      after_traceroute (with_world st w) hop trace

    unfoldable pub by_last_segment :
        Running W → Option (List String × ℕ) → RevSegment → Result (Running W × Option Step)
    by_last_segment st none rv = add_symmetric_segment st
    by_last_segment st (some (trace, num_hops)) rv = add_symmetric_hop st trace num_hops rv

    unfoldable pub assume_symmetric_step : Running W → Result (Running W × Option Step)
    unfolding last_segment
    assume_symmetric_step st = last_segment st >>= λ seg.
        by_last_segment st (symmetric_parts (clone seg).kind) (clone seg).rev

    unfoldable pub backoff_endhost_step : Running W → Result (Running W × Option Step)
    backoff_endhost_step st = assume_symmetric_step st >>= λ (st', ns).
        of_run (reaches opts.env st'.revtr) >>= λ (rt, reach).
        ret (
          with_revtr st' (if reach then record rt { stop_reason = StopReason.trivial } else rt),
          ns,
        )
