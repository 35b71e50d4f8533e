-- ===== src/Revtr/Tests.antt =====
-- One reverse traceroute, step by step.
use reverse_traceroute_publi.Revtr.Samples.{first_path}
use native.Mathlib.Omega.{arith}
use reverse_traceroute_publi.Base.{
  ℕ, ◌≡◌, ◌≢◌, ◌≤◌, ◌<◌, ◌⊎◌, ◌++◌, refl, String, Bool, true, false, List, [], ◌∷◌, length, ok,
  lookup_or, insert,
}
use reverse_traceroute_publi.StringUtil.{in_array, non_spoofed}
use reverse_traceroute_publi.StringUtil.Samples.{keep_order-IsRangeOrder}
use reverse_traceroute_publi.Segment.{Segment, Kind, rr_rev_segment, spoof_rr_rev_segment}
use reverse_traceroute_publi.ReversePath.{ReversePath, clone_path, path_hops}
use reverse_traceroute_publi.Revtr.{
  Revtr, new_reverse_traceroute, create_reverse_traceroute, add_segments, fail_curr_path,
  fire_on_add, is_dead, revtr_last_hop, curr_path, no_option_left, top,
}
use reverse_traceroute_publi.Revtr.Samples.{sample_env, keep_segments-Perm, fresh, sample_segment}
use reverse_traceroute_publi.StringUtil.Sets.{Distinct}
use reverse_traceroute_publi.Revtr.Storable.{Storable, to_storable}
use reverse_traceroute_publi.Revtr.Storable.Stored.{stored_hops, to_storable-Distinct}
use reverse_traceroute_publi.Base.{◌+◌, Run, panic, some, take}
use reverse_traceroute_publi.StringUtil.{string_slice_index}
use reverse_traceroute_publi.Segment.{hops}
use reverse_traceroute_publi.Revtr.AddSegments.{Pushed, Reported, add_segments-Pushed}
use reverse_traceroute_publi.Revtr.Fail.{AllPaths, Popped, Ends, marked_dead, fail_curr_path-Ends}
use reverse_traceroute_publi.Revtr.RecordRoute.{take_batch, vps_left}
use reverse_traceroute_publi.Revtr.RecordRoute.Batches.{IsBatch, take_batch-IsBatch}
use reverse_traceroute_publi.Revtr.Timestamp.{combine, adjs_left, take_adjacents}
use reverse_traceroute_publi.Revtr.Timestamp.Adjacents.{combine_lem, take_adjacents_lem}

abbrev answers : List Segment
answers =
    sample_segment rr_rev_segment ("1.0.0.9" ∷ "1.0.0.8" ∷ [])
    ∷ sample_segment (spoof_rr_rev_segment "5.5.5.5") ("1.0.0.9" ∷ [])
    ∷ []

fresh_path : curr_path fresh ≡ ok first_path
unfolding create_reverse_traceroute new_reverse_traceroute reverse_traceroute_publi.Revtr.top
    reverse_traceroute_publi.ReversePath.new_reverse_path
    reverse_traceroute_publi.Segment.Create.new_dst_rev_segment
fresh_path = refl

add_segments-Pushed_example :
    (rt' : Revtr) × (added : Bool) × (add_segments sample_env fresh answers ≡ ok (rt', added))
    × Pushed sample_env fresh (clone_path first_path) answers fresh.paths rt'.paths
    × Reported sample_env fresh (clone_path first_path) answers rt' added
add_segments-Pushed_example =
    add_segments-Pushed sample_env keep_order-IsRangeOrder keep_segments-Perm fresh answers
      first_path fresh_path

fresh_hop : revtr_last_hop fresh ≡ ok "1.0.0.9"
unfolding revtr_last_hop create_reverse_traceroute new_reverse_traceroute
    reverse_traceroute_publi.Revtr.top reverse_traceroute_publi.ReversePath.path_last_hop
    reverse_traceroute_publi.ReversePath.last_seg_of
    reverse_traceroute_publi.ReversePath.new_reverse_path
    reverse_traceroute_publi.Segment.last_hop_of
    reverse_traceroute_publi.Segment.Create.new_dst_rev_segment
fresh_hop = refl

fresh_valid : AllPaths fresh.paths
unfolding create_reverse_traceroute new_reverse_traceroute
    reverse_traceroute_publi.ReversePath.new_reverse_path
fresh_valid = (tt, tt)

fail_curr_path-Ends_example :
    (qs : List ReversePath) × (rt' : Revtr) × (fail_curr_path fresh ≡ ok (fire_on_add rt'))
    × Popped (marked_dead fresh "1.0.0.9") fresh.paths qs
    × Ends (marked_dead fresh "1.0.0.9") qs (ok rt')
    × (is_dead (marked_dead fresh "1.0.0.9") "1.0.0.9" ≡ true)
fail_curr_path-Ends_example = fail_curr_path-Ends fresh "1.0.0.9" fresh_valid fresh_hop

-- Two vantage points are left for a hop, after the direct probe.
abbrev asking : Revtr
asking = record fresh {
  rr_hop_rate_limit = ("1.0.0.9", 4) ∷ [];
  rr_hop_vps_left = ("1.0.0.9", non_spoofed ∷ "5.5.5.5" ∷ "6.6.6.6" ∷ []) ∷ [];
}

asking_limit : 2 ≤ lookup_or asking.rr_hop_rate_limit "1.0.0.9" 0
unfolding lookup_or
asking_limit = omega arith

asking_vps : 0 < length (vps_left asking "1.0.0.9")
unfolding lookup_or
asking_vps = omega arith

take_batch-IsBatch_example :
    (rt' : Revtr) × (vps : List String) × (take_batch asking rr_rev_segment "1.0.0.9"
      ≡ ok (rt', vps))
    × IsBatch rr_rev_segment
        (lookup_or asking.rr_hop_rate_limit "1.0.0.9" 0)
        (vps_left asking "1.0.0.9")
        vps
        (vps_left rt' "1.0.0.9")
    × ((other : String) → other ≢ "1.0.0.9" → vps_left rt' other ≡ vps_left asking other)
    × (rt'.paths ≡ asking.paths)
take_batch-IsBatch_example =
    take_batch-IsBatch asking rr_rev_segment "1.0.0.9" asking_limit asking_vps

abbrev to_dest : List String
to_dest = "1.0.0.5" ∷ []

abbrev seen : List String
seen = "1.0.0.9" ∷ "1.0.0.5" ∷ "1.0.0.6" ∷ []

combined : combine sample_env "1.0.0.9" to_dest seen ≡ "1.0.0.5" ∷ "1.0.0.6" ∷ []
unfolding combine reverse_traceroute_publi.StringUtil.string_slice_minus
    reverse_traceroute_publi.Base.lookup insert reverse_traceroute_publi.Base.delete
combined = refl

combine_lem_example :
    (length (combine sample_env "1.0.0.9" to_dest seen) ≤ 30)
    × ((x : String)
        → in_array (combine sample_env "1.0.0.9" to_dest seen) x ≡ true
        → (in_array to_dest x ≡ true) ⊎ ((in_array seen x ≡ true) × (x ≢ "1.0.0.9")))
combine_lem_example = combine_lem sample_env keep_order-IsRangeOrder "1.0.0.9" to_dest seen

abbrev stamping : Revtr
stamping = record fresh { ts_hop_adjs_left = ("1.0.0.9", "1.0.0.5" ∷ "1.0.0.6" ∷ []) ∷ [] }

take_adjacents_lem_example :
    ((take_adjacents stamping "1.0.0.9").1
        ++ adjs_left (take_adjacents stamping "1.0.0.9").0 "1.0.0.9"
      ≡ adjs_left stamping "1.0.0.9")
    × ((other : String)
        → other ≢ "1.0.0.9"
        → adjs_left (take_adjacents stamping "1.0.0.9").0 other ≡ adjs_left stamping other)
    × (0 < length (adjs_left stamping "1.0.0.9")
        → 0 < lookup_or stamping.ts_hop_rate_limit "1.0.0.9" 1
        → 0 < length (take_adjacents stamping "1.0.0.9").1)
take_adjacents_lem_example = take_adjacents_lem stamping "1.0.0.9"

-- A path that record route made longer; its first hop stands twice.
abbrev longer_path : ReversePath
longer_path = record first_path {
  path =
      sample_segment Kind.dst_rev_segment ("1.0.0.9" ∷ [])
      ∷ sample_segment rr_rev_segment ("1.0.0.9" ∷ "1.0.0.8" ∷ [])
      ∷ [];
}

abbrev answered : Revtr
answered = record fresh { paths = longer_path ∷ [] }

answered_left : no_option_left answered.backoff_endhost answered.paths ≡ false
unfolding no_option_left
answered_left = refl

answered_path : curr_path answered ≡ ok longer_path
unfolding top
answered_path = refl

to_storable-Distinct_example :
    (stored : Storable) × (to_storable answered ≡ ok (answered, stored))
    × Distinct (stored_hops stored.path)
    × ((x : String)
        → in_array (stored_hops stored.path) x ≡ in_array (path_hops longer_path.path) x)
to_storable-Distinct_example = to_storable-Distinct answered longer_path answered_left answered_path
