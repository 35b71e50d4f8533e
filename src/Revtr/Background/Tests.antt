-- ===== src/Revtr/Background/Tests.antt =====
-- A traceroute to the source that meets the path of a reverse traceroute.
use reverse_traceroute_publi.Revtr.Samples.{first_path}
use reverse_traceroute_publi.Base.{◌≡◌, ◌++◌, refl, Bool, List, [], ◌∷◌, length, ok}
use reverse_traceroute_publi.Segment.{Segment, Kind, rr_rev_segment, spoof_rr_rev_segment}
use reverse_traceroute_publi.ReversePath.{ReversePath, clone_path, path_hops}
use reverse_traceroute_publi.Revtr.{
  Revtr, new_reverse_traceroute, create_reverse_traceroute, add_segments, fail_curr_path,
  fire_on_add, is_dead, revtr_last_hop, curr_path, no_option_left, top,
}
use reverse_traceroute_publi.Revtr.Samples.{sample_env, fresh, sample_segment}
use reverse_traceroute_publi.Base.{◌+◌, panic, some, take}
use reverse_traceroute_publi.StringUtil.{string_slice_index}
use reverse_traceroute_publi.Segment.{hops}
use reverse_traceroute_publi.Revtr.Background.{
  string_slice_index_with_clusters, trim_loop, find_chunk,
}
use reverse_traceroute_publi.Revtr.Background.Trim.{cut_behind, find_chunk-cut_behind}
use mathlib.Core.List.{reverse}
use reverse_traceroute_publi.Revtr.Background.{first_hop, add_background_tr_segment}
use reverse_traceroute_publi.Revtr.Background.Stacked.{Stacked, add_background_tr_segment-Stacked}

-- The traceroute meets the path at 1.0.0.8, and 1.0.0.7 is taken off.
abbrev met_segment : Segment
met_segment = sample_segment rr_rev_segment ("1.0.0.8" ∷ "1.0.0.7" ∷ [])

abbrev before_met : List Segment
before_met = sample_segment Kind.dst_rev_segment ("1.0.0.9" ∷ []) ∷ []

abbrev met_path : ReversePath
met_path = record first_path { path = before_met ++ met_segment ∷ [] }

met_clone : (clone_path met_path).path ≡ before_met ++ met_segment ∷ []
unfolding clone_path reverse_traceroute_publi.Segment.clone
met_clone = refl

met_index :
    string_slice_index_with_clusters sample_env.cm (path_hops met_path.path) "1.0.0.8"
    ≡ some (length (path_hops before_met) + 0)
unfolding string_slice_index_with_clusters path_hops
met_index = refl

met_here : string_slice_index (hops met_segment) "1.0.0.8" ≡ some 0
unfolding string_slice_index
met_here = refl

find_chunk-cut_behind_example :
    (found : ReversePath) × (find_chunk sample_env.cm "1.0.0.8" (met_path ∷ []) ≡ ok (some found))
    × (found.path ≡ before_met ++ cut_behind 0 met_segment ∷ [])
    × (path_hops found.path ≡ path_hops before_met ++ take 1 (hops met_segment))
find_chunk-cut_behind_example =
    find_chunk-cut_behind sample_env.cm "1.0.0.8" met_path [] before_met met_segment 0 met_clone
      met_index met_here

-- With two segments behind the intersection the loop dereferences nil.
two_behind : trim_loop 0 "1.0.0.9" 0 (before_met ++ met_segment ∷ met_segment ∷ []) ≡ panic
unfolding trim_loop path_hops reverse_traceroute_publi.Revtr.Background.cut_segment
    reverse_traceroute_publi.Revtr.Background.remove_times
two_behind = refl

abbrev to_source : Segment
to_source = sample_segment Kind.tr_to_src_rev_segment ("1.0.0.8" ∷ "9.9.9.9" ∷ [])

abbrev meeting : Revtr
meeting = record fresh { paths = met_path ∷ [] }

abbrev trimmed : ReversePath
trimmed = record met_path { path = before_met ++ cut_behind 0 met_segment ∷ [] }

to_source_starts : first_hop to_source ≡ ok "1.0.0.8"
unfolding first_hop
to_source_starts = refl

trimmed_found : find_chunk sample_env.cm "1.0.0.8" (reverse meeting.paths) ≡ ok (some trimmed)
unfolding find_chunk string_slice_index_with_clusters path_hops trim_loop clone_path
    reverse_traceroute_publi.Segment.clone reverse_traceroute_publi.Revtr.Background.cut_segment
    reverse_traceroute_publi.Revtr.Background.remove_times
    reverse_traceroute_publi.Segment.remove_at string_slice_index
trimmed_found = refl

add_background_tr_segment-Stacked_example :
    (rt' : Revtr) × (added : Bool) × (add_background_tr_segment sample_env meeting to_source
      ≡ ok (rt', added))
    × Stacked sample_env meeting to_source trimmed rt' added
add_background_tr_segment-Stacked_example =
    add_background_tr_segment-Stacked sample_env (λ s. refl) meeting to_source "1.0.0.8" trimmed
      to_source_starts trimmed_found
