-- ===== src/Revtr.antt =====
-- revtr/reverse_traceroute/revese_traceroute.go: the state of one reverse traceroute.
-- The calls of the callbacks are kept as events; a callback does not change the traceroute. The
-- clock, the log and the duration statistics are left out.
pub mod Externs
pub mod Fail
pub mod Reaching
pub mod AddSegments
pub mod RecordRoute
pub mod Timestamp
pub mod Background
pub mod Storable
pub mod Samples
mod Tests
use reverse_traceroute_publi.Base.{
  ℕ, ◌+◌, ◌-◌, String, Bool, true, false, not, ◌&&◌, ◌||◌, Option, none, some, List, [], ◌∷◌, ◌++◌,
  map, length, take, drop, Run, ok, panic, ◌>>=◌, str_eq, if◌then◌else◌, ltb, ◌==◌, lookup, insert,
  lookup_or,
}
use reverse_traceroute_publi.Segment.{
  Segment, Kind, type_of, hops, last_hop, segment_length, is_dst_sym, dst_rev_segment, remove_hops,
}
use reverse_traceroute_publi.ReversePath.{
  ReversePath, new_reverse_path, clone_path, path_hops, last_seg, path_last_hop, pop, path_reaches,
  path_symmetric_assumptions, add,
}
use reverse_traceroute_publi.Revtr.Externs.{Env}

-- `unset` is the empty text.
pub data StopReason : Type 0 where
  unset failed trivial canceled reached : StopReason

-- A call of a callback.
pub data Event : Type 0 where
  on_add on_reach on_fail : Event

-- What rrSpoofRRResponsive counts: -1 is `responsive`, and a count is of probes without an answer.
pub data Answers : Type 0 where
  responsive : Answers
  unanswered : ℕ → Answers

-- Which callbacks are set.
pub record Callbacks : Type 0 where
  pub has_on_add : Bool
  pub has_on_reach : Bool
  pub has_on_fail : Bool

-- `paths` is the slice from its end: the last path, the top of the stack, comes first.
pub record Revtr : Type 0 where
  pub src : String
  pub dst : String
  pub paths : List ReversePath
  pub dead_end : List (String × Bool)
  pub rr_hop_rate_limit : List (String × ℕ)
  pub rr_hop_vps_left : List (String × List String)
  pub ts_hop_rate_limit : List (String × ℕ)
  pub ts_hop_adjs_left : List (String × List String)
  pub stop_reason : StopReason
  pub backoff_endhost : Bool
  pub ts_hop_responsive : List (String × ℕ)
  pub rr_spoof_rr_responsive : List (String × Answers)
  pub callbacks : Callbacks
  pub reach_done : Bool
  pub fail_done : Bool
  pub events : List Event

unfoldable pub new_reverse_traceroute : Env → String → String → Revtr
new_reverse_traceroute env src dst = record {
  src = src;
  dst = dst;
  paths = new_reverse_path env.is_global_unicast src dst [] ∷ [];
  dead_end = [];
  rr_hop_rate_limit = [];
  rr_hop_vps_left = [];
  ts_hop_rate_limit = [];
  ts_hop_adjs_left = [];
  stop_reason = unset;
  backoff_endhost = false;
  ts_hop_responsive = [];
  rr_spoof_rr_responsive = [];
  callbacks = record { has_on_add = false; has_on_reach = false; has_on_fail = false };
  reach_done = false;
  fail_done = false;
  events = [];
}

unfoldable pub create_reverse_traceroute : Env → Callbacks → Bool → String → String → Revtr
unfolding new_reverse_traceroute
create_reverse_traceroute env callbacks backoff_endhost src dst =
    record (new_reverse_traceroute env src dst) {
      backoff_endhost = backoff_endhost;
      callbacks = callbacks;
    }

unfoldable pub ts_set_unresponsive : Revtr → String → Revtr
ts_set_unresponsive rt dst = record rt { ts_hop_responsive = insert rt.ts_hop_responsive dst 1 }

unfoldable pub ts_is_responsive : Revtr → String → Bool
ts_is_responsive rt dst = lookup_or rt.ts_hop_responsive dst 0 == 0

unfoldable pub add_unresponsive_rr_spoofer : Revtr → String → ℕ → Revtr
add_unresponsive_rr_spoofer rt dst cnt = elim (lookup rt.rr_spoof_rr_responsive dst) [
  | some responsive ↦ rt
  | some (unanswered n) ↦ record rt {
    rr_spoof_rr_responsive = insert rt.rr_spoof_rr_responsive dst (unanswered (n + cnt));
  }
  | none ↦ record rt {
    rr_spoof_rr_responsive = insert rt.rr_spoof_rr_responsive dst (unanswered cnt);
  }
]

unfoldable pub mark_responsive_rr_spoofer : Revtr → String → Revtr
mark_responsive_rr_spoofer rt dst = record rt {
  rr_spoof_rr_responsive = insert rt.rr_spoof_rr_responsive dst responsive;
}

unfoldable pub top : List ReversePath → Run ReversePath
top [] = panic
top (p ∷ paths) = ok p

abbrev pub curr_path : Revtr → Run ReversePath
curr_path rt = top rt.paths

unfoldable pub symmetric_assumptions : Revtr → Run ℕ
symmetric_assumptions rt = curr_path rt >>= λ p. ok (path_symmetric_assumptions p)

unfoldable pub revtr_hops : Revtr → List String
unfolding top
revtr_hops rt = elim (curr_path rt) [ ok p ↦ path_hops p.path | panic ↦ [] ]

unfoldable pub revtr_last_hop : Revtr → Run String
revtr_last_hop rt = curr_path rt >>= path_last_hop

pub is_dead : Revtr → String → Bool
is_dead rt hop = lookup_or rt.dead_end hop false

deadends_loop : List (String × Bool) → List String
deadends_loop [] = []
deadends_loop ((k, v) ∷ m) = k ∷ deadends_loop m

unfoldable pub deadends : Env → Revtr → List String
unfolding deadends_loop
deadends env rt = deadends_loop (env.order rt.dead_end)

unfoldable pub fire_on_add : Revtr → Revtr
fire_on_add rt =
    if rt.callbacks.has_on_add then record rt { events = rt.events ++ on_add ∷ [] } else rt

-- Reaches: the first time that a path reaches, onReach is called.
pub mark_reached : Revtr → Revtr
mark_reached rt =
    if rt.callbacks.has_on_reach && not rt.reach_done
    then record rt { stop_reason = reached; reach_done = true; events = rt.events ++ on_reach ∷ [] }
    else record rt { stop_reason = reached }

pub reaches_top : Env → Revtr → List ReversePath → Run (Revtr × Bool)
reaches_top env rt [] = ok (rt, false)
reaches_top env rt (p ∷ paths) =
    path_reaches env.cm p >>= λ reach. ok (if reach then (mark_reached rt, true) else (rt, false))

unfoldable pub reaches : Env → Revtr → Run (Revtr × Bool)
unfolding reaches_top mark_reached
reaches env rt = reaches_top env rt rt.paths

is_dst_rev : Kind → Bool
is_dst_rev dst_rev_segment = true
is_dst_rev kind = false

-- The test of Failed on the stack of paths.
pub no_option_left : Bool → List ReversePath → Bool
no_option_left backoff_endhost [] = true
no_option_left backoff_endhost (p ∷ []) = elim p.path [
  | [] ↦ false
  | s ∷ rest ↦ elim rest [ [] ↦ backoff_endhost && is_dst_rev s.kind | _ ∷ _ ↦ false ]
]
no_option_left backoff_endhost (p ∷ q ∷ paths) = false

-- Failed: the first time, onFail is called.
pub mark_failed : Revtr → Revtr
mark_failed rt =
    if rt.callbacks.has_on_fail && not rt.fail_done
    then record rt { stop_reason = failed; fail_done = true; events = rt.events ++ on_fail ∷ [] }
    else record rt { stop_reason = failed }

unfoldable pub failed_now : Revtr → Revtr × Bool
unfolding no_option_left mark_failed is_dst_rev
failed_now rt =
    if no_option_left rt.backoff_endhost rt.paths then (mark_failed rt, true) else (rt, false)

-- The loop of FailCurrPath, with the paths that are left.
pub fail_loop : List ReversePath → Revtr → Run Revtr
fail_loop [] rt = ok (mark_failed (record rt { paths = [] }))
fail_loop (p ∷ paths) rt =
    let here = record rt { paths = p ∷ paths } in
    let popped = fail_loop paths rt in
    if no_option_left rt.backoff_endhost (p ∷ paths)
    then ok (mark_failed here)
    else path_last_hop p >>= λ hop.
        if is_dead rt hop
        then (last_seg p >>= λ s. if is_dst_sym s.kind then ok here else popped)
        else ok here

unfoldable pub fail_curr_path : Revtr → Run Revtr
fail_curr_path rt = revtr_last_hop rt >>= λ hop.
    fail_loop rt.paths (record rt { dead_end = insert rt.dead_end hop true }) >>= λ rt'.
    ok (fire_on_add rt')

unfoldable pub add_and_replace_segment : Revtr → Segment → Run (Revtr × Bool)
add_and_replace_segment rt s =
    if is_dead rt (last_hop s.rev)
    then ok (rt, false)
    else curr_path rt >>= λ p. pop (clone_path p) >>= λ (last, base_path).
        ok (fire_on_add (record rt { paths = add base_path s ∷ rt.paths }), true)

-- How the loop of AddSegments ends: an error of RemoveHops returns false at once.
pub data Added : Type 0 where
  done : Bool → List ReversePath → Added
  aborted : List ReversePath → Added

unfoldable pub finish_adding : Revtr → Added → Revtr × Bool
finish_adding rt (aborted paths) = (record rt { paths = paths }, false)
finish_adding rt (done added paths) =
    let rt' = record rt { paths = paths } in (if added then fire_on_add rt' else rt', added)

module _ (env : Env) where
  -- The segment as AddSegments adds it.
  pub pruned : ReversePath → Segment → Segment × Bool
  pruned base_path s =
      let (rev, err) = remove_hops env.cm env.order s.rev (path_hops base_path.path) in
      (record s { rev = rev }, err)

  pub add_loop : Revtr → ReversePath → List Segment → Bool → List ReversePath → Added
  add_loop rt base_path [] added paths = done added paths
  add_loop rt base_path (s ∷ segs) added paths =
      let (s', err) = pruned base_path s in
      let skip = add_loop rt base_path segs added paths in
      let push = add_loop rt base_path segs true (add (clone_path base_path) s' ∷ paths) in
      if is_dead rt (last_hop s.rev)
      then skip
      else if err
      then aborted paths
      else if segment_length s'.rev false == 0
      then skip
      else push

  unfoldable pub add_segments : Revtr → List Segment → Run (Revtr × Bool)
  add_segments rt segs = curr_path rt >>= λ p.
      ok (finish_adding rt (add_loop rt (clone_path p) (env.sort segs) false rt.paths))
