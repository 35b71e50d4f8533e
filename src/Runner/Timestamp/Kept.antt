-- ===== src/Runner/Timestamp/Kept.antt =====
-- The rounds of the step timestamp leave the adjacents that are left alone.
use reverse_traceroute_publi.Base
use reverse_traceroute_publi.Base.{
  ok, ℕ, ◌≡◌, ◌⊎◌, inl, inr, refl, String, Bool, true, false, Option, none, some, List, [], ◌∷◌,
  Run, Bool-cases, if◌then◌else◌, length, lookup, lookup_or, str_eq, ltb, ◌==◌, ◌&&◌,
}
use reverse_traceroute_publi.StringUtil.{non_spoofed}
use reverse_traceroute_publi.Segment.{Segment}
use reverse_traceroute_publi.ReversePath.{ReversePath, clone_path}
use reverse_traceroute_publi.Revtr.{
  Revtr, Added, done, aborted, finish_adding, add_segments, fire_on_add, ts_set_unresponsive,
  curr_path, add_loop,
}
use reverse_traceroute_publi.Revtr.Externs.{Env}
use reverse_traceroute_publi.Runner.Network.{TsAndAddr, PingResponse, Ping}
use reverse_traceroute_publi.Runner.Timestamp.{
  TsRound, Verdict, reverse_hop, check_linux_bug, does_not_stamp, no_reverse_hop, set_send_spoofed,
  set_unresponsive, file_verdict, mark_answered, process_rev_hop, rev_hops_loop, process_linux_bug,
  process_does_not_stamp, process_to_verify, rev_hop_answer, linux_stamps, linux_answer,
  zero_answer, zero_responses, verify_stamps, verify_answer,
}
use reverse_traceroute_publi.Runner.Post.{OfRun, oks, panics}

-- The adjacents left and the rate limits are those of `rt₀`.
abbrev pub Kept : Revtr → Revtr → Type 0
Kept rt₀ rt = rt.ts_hop_adjs_left ≡ rt₀.ts_hop_adjs_left

fire_on_add-Kept : (rt₀ rt : Revtr) → Kept rt₀ rt → Kept rt₀ (fire_on_add rt)
unfolding fire_on_add
fire_on_add-Kept rt₀ rt h = elim (Bool-cases rt.callbacks.has_on_add) [
  | inl e ↦ rw e h
  | inr e ↦ rw e h
]

finish_adding-Kept : (rt : Revtr) (a : Added) → Kept rt (finish_adding rt a).0
unfolding finish_adding
finish_adding-Kept rt (aborted paths) = refl
finish_adding-Kept rt (done true paths) = fire_on_add-Kept rt (record rt { paths = paths }) refl
finish_adding-Kept rt (done false paths) = refl

pub add_segments-Kept :
    (env : Env) (rt : Revtr) (segs : List Segment)
    → OfRun (λ (rt', added). Kept rt rt') (add_segments env rt segs)
unfolding add_segments
add_segments-Kept env rt segs = go (curr_path rt)
  where
    go :
        (r : Run ReversePath)
        → OfRun
            (λ (rt', added). Kept rt rt')
            (Base.◌>>=◌ r λ p.
              ok (finish_adding rt (add_loop env rt (clone_path p) (env.sort segs) false rt.paths)))
    go (ok p) = oks (finish_adding-Kept rt _)
    go Run.panic = panics

module _ {W : Type 0} (rt₀ : Revtr) where
  abbrev pub KeptRound : TsRound W → Type 0
  KeptRound r = Kept rt₀ r.running.revtr

  module _ (env : Env) where
    mark_answered-Kept :
        (r : TsRound W) (src dst vp : String)
        → KeptRound r
        → KeptRound (mark_answered env r src dst vp)
    unfolding mark_answered set_send_spoofed
    mark_answered-Kept r src dst vp h = elim (Bool-cases (str_eq vp non_spoofed)) [
      | inl e ↦ rw e h
      | inr e ↦ rw e h
    ]

    file_verdict-Kept :
        (r : TsRound W) (src dst vp : String) (v : Verdict)
        → KeptRound r
        → KeptRound (file_verdict env r src dst vp v)
    unfolding file_verdict
    file_verdict-Kept r src dst vp (reverse_hop hop) h = h
    file_verdict-Kept r src dst vp (check_linux_bug hop) h = h
    file_verdict-Kept r src dst vp (does_not_stamp hop) h = h
    file_verdict-Kept r src dst vp no_reverse_hop h = h

    rev_hop_answer-Kept :
        (r : TsRound W) (src dst vp : String) (rps : List PingResponse)
        → KeptRound r
        → KeptRound (rev_hop_answer env r src dst vp rps)
    unfolding rev_hop_answer
    rev_hop_answer-Kept r src dst vp [] h = h
    rev_hop_answer-Kept r src dst vp (rp ∷ rps) h = file_verdict-Kept r src dst vp _ h

    pub process_rev_hop-Kept :
        (src vp : String) (p : Ping) (r : TsRound W)
        → KeptRound r
        → OfRun KeptRound (process_rev_hop env src vp p r)
    unfolding process_rev_hop set_unresponsive ts_set_unresponsive
    process_rev_hop-Kept src vp p r h =
        oks (rev_hop_answer-Kept _ src _ vp p.responses (mark_answered-Kept r src _ vp h))

    rev_hops_loop-Kept :
        (hs : List String) (r : TsRound W) (src dst vp : String)
        → KeptRound r
        → KeptRound (rev_hops_loop env r src dst vp hs)
    unfolding rev_hops_loop
    rev_hops_loop-Kept [] r src dst vp h = h
    rev_hops_loop-Kept (hop ∷ hs) r src dst vp h = rev_hops_loop-Kept hs _ src dst vp h

    linux_stamps-Kept :
        (r : TsRound W) (src dst vp : String) (stamps : List TsAndAddr)
        → KeptRound r
        → OfRun KeptRound (linux_stamps env r src dst vp stamps)
    unfolding linux_stamps
    linux_stamps-Kept r src dst vp [] h = panics
    linux_stamps-Kept r src dst vp (ts1 ∷ []) h = panics
    linux_stamps-Kept r src dst vp (ts1 ∷ ts2 ∷ stamps) h = elim (Bool-cases (ltb 0 ts2.ts)) [
      | inl e ↦ rw e (oks h)
      | inr e ↦ rw e (oks (rev_hops_loop-Kept _ r src dst vp h))
    ]

    linux_answer-Kept :
        (r : TsRound W) (src dst vp : String) (rps : List PingResponse)
        → KeptRound r
        → OfRun KeptRound (linux_answer env r src dst vp rps)
    unfolding linux_answer
    linux_answer-Kept r src dst vp [] h = panics
    linux_answer-Kept r src dst vp (rp ∷ rps) h = linux_stamps-Kept r src dst vp rp.tsandaddr h

    pub process_linux_bug-Kept :
        (src vp : String) (p : Ping) (r : TsRound W)
        → KeptRound r
        → OfRun KeptRound (process_linux_bug env src vp p r)
    unfolding process_linux_bug
    process_linux_bug-Kept src vp p r h =
        linux_answer-Kept _ src _ vp p.responses (mark_answered-Kept r src _ vp h)

    zero_answer-Kept :
        (r : TsRound W) (src dst vp : String) (stamps : TsAndAddr × TsAndAddr × TsAndAddr)
        → KeptRound r
        → KeptRound (zero_answer env r src dst vp stamps)
    unfolding zero_answer
    zero_answer-Kept r src dst vp (ts1, ts2, ts4) h =
        elim (Bool-cases (ltb 0 ts2.ts && ts4.ts == 0)) [
          | inl e ↦ rw e h
          | inr e ↦ elim (Bool-cases (ltb 0 ts1.ts)) [ inl d ↦ rw (e, d) h | inr d ↦ rw (e, d) h ]
        ]

    zero_responses-Kept :
        (r : TsRound W) (src dst vp : String) (rps : List PingResponse)
        → KeptRound r
        → KeptRound (zero_responses env r src dst vp rps)
    unfolding zero_responses
    zero_responses-Kept r src dst vp [] h = h
    zero_responses-Kept r src dst vp (rp ∷ rps) h = zero_answer-Kept r src dst vp _ h

    pub process_does_not_stamp-Kept :
        (src vp : String) (p : Ping) (r : TsRound W)
        → KeptRound r
        → OfRun KeptRound (process_does_not_stamp env src vp p r)
    unfolding process_does_not_stamp
    process_does_not_stamp-Kept src vp p r h = oks (zero_responses-Kept r src _ vp p.responses h)

    verify_stamps-Kept :
        (r : TsRound W) (src dst : String) (stamps : List TsAndAddr)
        → KeptRound r
        → OfRun KeptRound (verify_stamps env r src dst stamps)
    unfolding verify_stamps
    verify_stamps-Kept r src dst [] h = panics
    verify_stamps-Kept r src dst (ts1 ∷ stamps) h = elim (Bool-cases (ts1.ts == 0)) [
      | inl e ↦ rw e (oks h)
      | inr e ↦ rw e (oks h)
    ]

    verify_answer-Kept :
        (r : TsRound W) (src dst : String) (rps : List PingResponse)
        → KeptRound r
        → OfRun KeptRound (verify_answer env r src dst rps)
    unfolding verify_answer
    verify_answer-Kept r src dst [] h = panics
    verify_answer-Kept r src dst (rp ∷ rps) h = verify_stamps-Kept r src dst rp.tsandaddr h

    pub process_to_verify-Kept :
        (src vp : String) (p : Ping) (r : TsRound W)
        → KeptRound r
        → OfRun KeptRound (process_to_verify env src vp p r)
    unfolding process_to_verify
    process_to_verify-Kept src vp p r h = verify_answer-Kept r src _ p.responses h
