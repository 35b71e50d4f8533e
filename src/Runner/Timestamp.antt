-- ===== src/Runner/Timestamp.antt =====
-- The step timestamp: what an answer to a timestamp probe means, and the rounds of its loop.
-- The segments that the step makes from the answers of its last probes go to a map that nothing
-- reads (revHopsVPDstToRevSeg); they are left out.
pub mod Rounds
pub mod Kept
pub mod GoesOn
pub mod Left
pub mod Ends
use reverse_traceroute_publi.Base.{
  ℕ, suc, ◌+◌, ◌-◌, ◌%◌, ◌^◌, String, Bool, true, false, ◌&&◌, ◌||◌, Option, none, some, List, [],
  ◌∷◌, ◌++◌, length, lookup, insert, lookup_or, Run, ok, panic, str_eq, if◌then◌else◌, ltb, ◌==◌,
}
use reverse_traceroute_publi.IpUtil.{int32_to_ip_string}
use reverse_traceroute_publi.StringUtil.{non_spoofed}
use reverse_traceroute_publi.Segment.{Segment}
use reverse_traceroute_publi.Segment.Create.{
  new_ts_adj_rev_segment, new_spoof_ts_adj_rev_segment,
  new_spoof_ts_adj_rev_segment_ts_zero_double_stamp,
}
use reverse_traceroute_publi.Revtr.{
  Revtr, revtr_last_hop, ts_set_unresponsive, ts_is_responsive, add_segments,
}
use reverse_traceroute_publi.Revtr.Externs.{Env}
use reverse_traceroute_publi.Revtr.Timestamp.{get_ts_adjacents, get_timestamp_spoofers}
use reverse_traceroute_publi.Runner.Result.{Result, ret, crash, hang, ◌>>=◌, of_run}
use reverse_traceroute_publi.Runner.Network.{TsAndAddr, PingResponse, Ping, Options, Running}
use reverse_traceroute_publi.Runner.Keyed.{
  Pair, Triplet, pair_eq, triplet_eq, find, put, unset, find_or,
}
use reverse_traceroute_publi.Runner.Probes.{
  Probe, Probes, SpoofedProbes, add_probe, add_spoofed_probe, issue_timestamps,
  issue_spoofed_timestamps,
}
use reverse_traceroute_publi.Runner.Steps.{
  Step, Round, again, next, with_revtr, with_world, after_adding,
}

abbrev pub dummy_ip : String
dummy_ip = "128.208.3.77"

-- The maps of one round, with the state that the answers change.
pub record TsRound (W : Type 0) : Type 0 where
  pub running : Running W
  pub receiver_to_spoofer_to_probe : SpoofedProbes
  pub rev_hops_src_dst_to_rev_seg : List (Pair × List Segment)
  pub linux_bug_to_check : List (Triplet × List String)
  pub dest_does_not_stamp : List Triplet
  pub to_verify : Probes
  pub interested_srcs : List (Triplet × List String)
  pub maybe_revhop : List (Triplet × Bool)

abbrev pub no_stamp : TsAndAddr
no_stamp = record { ip = 0; ts = 0 }

-- The stamps of an answer by their number; one that is not read is empty.
unfoldable pub three_stamps : List TsAndAddr → TsAndAddr × TsAndAddr × TsAndAddr
three_stamps (a ∷ []) = (a, no_stamp, no_stamp)
three_stamps (a ∷ b ∷ []) = (a, b, no_stamp)
three_stamps (a ∷ b ∷ c ∷ []) = (a, b, c)
three_stamps stamps = (no_stamp, no_stamp, no_stamp)

-- The first, the second and the fourth.
unfoldable pub zero_stamps : List TsAndAddr → TsAndAddr × TsAndAddr × TsAndAddr
zero_stamps (a ∷ []) = (a, no_stamp, no_stamp)
zero_stamps (a ∷ b ∷ []) = (a, b, no_stamp)
zero_stamps (a ∷ b ∷ c ∷ []) = (a, b, no_stamp)
zero_stamps (a ∷ b ∷ c ∷ d ∷ []) = (a, b, d)
zero_stamps stamps = (no_stamp, no_stamp, no_stamp)

-- `ts2.Ts-ts1.Ts > 3 || ts2.Ts < ts1.Ts`, on 32 bits.
unfoldable pub is_increment : ℕ → ℕ → Bool
is_increment ts1 ts2 = ltb 3 ((ts2 + 2 ^ 32 - ts1) % 2 ^ 32) || ltb ts2 ts1

-- What an answer says of the hop after its source.
pub data Verdict : Type 0 where
  reverse_hop : String → Verdict
  check_linux_bug : String → Verdict
  does_not_stamp : String → Verdict
  no_reverse_hop : Verdict

unfoldable pub verdict : TsAndAddr × TsAndAddr × TsAndAddr → Verdict
unfolding is_increment
verdict (ts1, ts2, ts3) =
    if ltb 0 ts3.ts
    then reverse_hop (int32_to_ip_string ts3.ip)
    else if ltb 0 ts2.ts
    then (if is_increment ts1.ts ts2.ts
        then reverse_hop (int32_to_ip_string ts2.ip)
        else check_linux_bug (int32_to_ip_string ts2.ip))
    else if ts1.ts == 0
    then does_not_stamp (int32_to_ip_string ts2.ip)
    else no_reverse_hop

-- The segment of an adjacent, with or without a spoofer.
unfoldable pub ts_segment : Env → String → String → String → String → Segment
ts_segment env hop src dst vp =
    if str_eq vp non_spoofed
    then new_ts_adj_rev_segment env.is_global_unicast (hop ∷ []) src dst false
    else new_spoof_ts_adj_rev_segment env.is_global_unicast (hop ∷ []) src dst vp false

module _ {W : Type 0} where
  abbrev pub in_running : TsRound W → (Running W → Running W) → TsRound W
  in_running r f = record r { running = f r.running }

  -- revtr.TSSrcToHopToSendSpoofed[src][hop] = b, after its magic.
  unfoldable pub set_send_spoofed : Running W → String → String → Bool → Running W
  set_send_spoofed st src hop b = record st {
    ts_src_to_hop_to_send_spoofed =
        insert st.ts_src_to_hop_to_send_spoofed src
          (insert (lookup_or st.ts_src_to_hop_to_send_spoofed src []) hop b);
  }

  unfoldable pub sends_spoofed : Running W → String → String → Bool
  sends_spoofed st src hop = lookup_or (lookup_or st.ts_src_to_hop_to_send_spoofed src []) hop false

  unfoldable pub set_unresponsive : Running W → String → Running W
  set_unresponsive st dst = with_revtr st (ts_set_unresponsive st.revtr dst)

  abbrev pub put_rev_hop : TsRound W → String → String → Segment → TsRound W
  put_rev_hop r src dst seg = record r {
    rev_hops_src_dst_to_rev_seg =
        put pair_eq r.rev_hops_src_dst_to_rev_seg (record { src = src; dst = dst }) (seg ∷ []);
  }

  module _ (env : Env) where
    unfoldable pub file_verdict : TsRound W → String → String → String → Verdict → TsRound W
    file_verdict r src dst vp (reverse_hop hop) =
        put_rev_hop r src dst (ts_segment env hop src dst vp)
    file_verdict r src dst vp (check_linux_bug hop) =
        let key : Triplet = record { src = src; dst = dst; third = vp } in
        record r {
          linux_bug_to_check =
              put triplet_eq r.linux_bug_to_check key
                (find_or triplet_eq r.linux_bug_to_check key [] ++ hop ∷ []);
        }
    file_verdict r src dst vp (does_not_stamp hop) =
        let st = r.running in
        record r {
          running = record st { ts_dst_to_stamps_zero = insert st.ts_dst_to_stamps_zero dst true };
          dest_does_not_stamp =
              r.dest_does_not_stamp ++ record { src = src; dst = dst; third = hop } ∷ [];
        }
    file_verdict r src dst vp no_reverse_hop = r

    -- Any answer to a direct probe says that there is no need to spoof.
    unfoldable pub mark_answered : TsRound W → String → String → String → TsRound W
    mark_answered r src dst vp =
        if str_eq vp non_spoofed then in_running r (λ st. set_send_spoofed st src dst false) else r

    -- processTSCheckForRevHop, at the responses.
    unfoldable pub rev_hop_answer :
        TsRound W → String → String → String → List PingResponse → TsRound W
    rev_hop_answer r src dst vp [] = r
    rev_hop_answer r src dst vp (rp ∷ rps) =
        file_verdict r src dst vp (verdict (three_stamps rp.tsandaddr))

    unfoldable pub process_rev_hop : String → String → Ping → TsRound W → Run (TsRound W)
    process_rev_hop src vp p r =
        let dst = int32_to_ip_string p.dst in
        let r' = in_running (mark_answered r src dst vp) (λ st. set_unresponsive st dst) in
        ok (rev_hop_answer r' src dst vp p.responses)

    pub rev_hops_loop : TsRound W → String → String → String → List String → TsRound W
    rev_hops_loop r src dst vp [] = r
    rev_hops_loop r src dst vp (revhop ∷ hs) =
        rev_hops_loop (put_rev_hop r src dst (ts_segment env revhop src dst vp)) src dst vp hs

    -- processTSCheckForLinuxBug, at the second stamp of the first response; it panics where there
    -- is none. The hops that wait for the check are declared where the bug is not seen.
    unfoldable pub linux_stamps :
        TsRound W → String → String → String → List TsAndAddr → Run (TsRound W)
    linux_stamps r src dst vp (ts1 ∷ ts2 ∷ stamps) =
        let key : Triplet = record { src = src; dst = dst; third = vp } in
        ok (
          if ltb 0 ts2.ts
          then r
          else rev_hops_loop r src dst vp (find_or triplet_eq r.linux_bug_to_check key []))
    linux_stamps r src dst vp stamps = panic

    unfoldable pub linux_answer :
        TsRound W → String → String → String → List PingResponse → Run (TsRound W)
    linux_answer r src dst vp [] = panic
    linux_answer r src dst vp (rp ∷ rps) = linux_stamps r src dst vp rp.tsandaddr

    unfoldable pub process_linux_bug : String → String → Ping → TsRound W → Run (TsRound W)
    process_linux_bug src vp p r =
        let dst = int32_to_ip_string p.dst in
        linux_answer (mark_answered r src dst vp) src dst vp p.responses

    -- processTSDestDoesNotStamp, at the stamps. The address of a declared hop is read from the
    -- time stamp.
    unfoldable pub zero_answer :
        TsRound W → String → String → String → TsAndAddr × TsAndAddr × TsAndAddr → TsRound W
    zero_answer r src dst vp (ts1, ts2, ts4) =
        let ts2ips = int32_to_ip_string ts2.ts in
        let ts1ips = int32_to_ip_string ts1.ip in
        let key : Triplet = record { src = vp; dst = dst; third = ts1ips } in
        let declared = put_rev_hop r src dst (
          new_spoof_ts_adj_rev_segment_ts_zero_double_stamp env.is_global_unicast (ts2ips ∷ []) src
            dst vp false) in
        let verify = record r {
          to_verify = add_probe r.to_verify vp (dst ∷ ts1ips ∷ ts1ips ∷ ts1ips ∷ ts1ips ∷ []);
          interested_srcs =
              put triplet_eq r.interested_srcs key
                (find_or triplet_eq r.interested_srcs key [] ++ src ∷ []);
        } in
        if ltb 0 ts2.ts && ts4.ts == 0 then declared else if ltb 0 ts1.ts then verify else r

    unfoldable pub zero_responses :
        TsRound W → String → String → String → List PingResponse → TsRound W
    zero_responses r src dst vp [] = r
    zero_responses r src dst vp (rp ∷ rps) = zero_answer r src dst vp (zero_stamps rp.tsandaddr)

    unfoldable pub process_does_not_stamp : String → String → Ping → TsRound W → Run (TsRound W)
    process_does_not_stamp src vp p r =
        ok (zero_responses r src (int32_to_ip_string p.dst) vp p.responses)

    -- processTSDestDoesNotStampToVerify, at the first stamp of the first response; it panics where
    -- there is none.
    unfoldable pub verify_stamps : TsRound W → String → String → List TsAndAddr → Run (TsRound W)
    verify_stamps r src dst [] = panic
    verify_stamps r src dst (ts1 ∷ stamps) =
        let key : Triplet = record { src = src; dst = dst; third = int32_to_ip_string ts1.ip } in
        ok (
          if ts1.ts == 0
          then record r { maybe_revhop = put triplet_eq r.maybe_revhop key true }
          else record r { interested_srcs = unset triplet_eq r.interested_srcs key })

    unfoldable pub verify_answer : TsRound W → String → String → List PingResponse → Run (TsRound W)
    verify_answer r src dst [] = panic
    verify_answer r src dst (rp ∷ rps) = verify_stamps r src dst rp.tsandaddr

    unfoldable pub process_to_verify : String → String → Ping → TsRound W → Run (TsRound W)
    process_to_verify src vp p r = verify_answer r src (int32_to_ip_string p.dst) p.responses
