-- ===== src/Revtr/Background.antt =====
-- AddBackgroundTRSegment: a traceroute to the source that meets one of the paths.
pub mod Trim
pub mod Stacked
mod Tests
use mathlib.Core.List.{reverse}
use reverse_traceroute_publi.Base.{
  ℕ, zero, suc, ◌+◌, ◌-◌, String, Bool, true, false, Option, none, some, List, [], ◌∷◌, length,
  drop, Run, ok, panic, ◌>>=◌, str_eq, if◌then◌else◌, ltb,
}
use reverse_traceroute_publi.StringUtil.{string_slice_index}
use reverse_traceroute_publi.Segment.{RevSegment, Segment, hops, remove_at}
use reverse_traceroute_publi.ReversePath.{ReversePath, clone_path, path_hops}
use reverse_traceroute_publi.Revtr.{Revtr, add_segments}
use reverse_traceroute_publi.Revtr.Externs.{Env}

cluster_index_loop : (String → String) → ℕ → List String → String → Option ℕ
cluster_index_loop cm i [] seg = none
cluster_index_loop cm i (s ∷ ss) seg =
    let rest = cluster_index_loop cm (suc i) ss seg in
    if str_eq (cm s) (cm seg) then some i else rest

-- `none` is -1.
unfoldable pub string_slice_index_with_clusters :
    (String → String) → List String → String → Option ℕ
unfolding cluster_index_loop
string_slice_index_with_clusters cm ss seg = cluster_index_loop cm 0 ss seg

-- RemoveAt(l), `n` times.
unfoldable pub remove_times : ℕ → ℕ → RevSegment → Run RevSegment
remove_times zero l rv = ok rv
remove_times (suc n) l rv = remove_at rv l >>= remove_times n l

-- The segment that the intersection is in, or that ends at it or before: hops are removed behind
-- the hop of the traceroute until the segment ends at the index. `k` hops stand before the segment.
unfoldable pub cut_segment : ℕ → String → ℕ → Segment → Run Segment
cut_segment index hop k s =
    let l : ℕ = elim (string_slice_index (hops s) hop) [ some i ↦ suc i | none ↦ 0 ] in
    remove_times (k + length (hops s) - suc index) l s.rev >>= λ rev. ok (record s { rev = rev })

-- The loop over the segments, at the segments from j on. It ends when no hop stands past the index.
-- A segment past the index is deleted, and nil is written where the next one then stands: the next
-- round panics, unless none was left.
unfoldable pub trim_loop : ℕ → String → ℕ → List Segment → Run (List Segment)
trim_loop index hop k [] = if ltb (suc index) k then panic else ok []
trim_loop index hop k (s ∷ rest) =
    let delete : Run (List Segment) = elim rest [
      | [] ↦ if ltb (suc index) k then panic else ok []
      | _ ∷ _ ↦ panic
    ] in
    let cut = cut_segment index hop k s >>= λ s'.
    trim_loop index hop (k + length (hops s')) rest >>= λ rest'. ok (s' ∷ rest') in
    if ltb (suc index) (k + length (path_hops (s ∷ rest)))
    then (if ltb index k then delete else cut)
    else ok (s ∷ rest)

-- The first path, from the bottom of the stack, that the hop is in; a trimmed copy of it.
unfoldable pub find_chunk : (String → String) → String → List ReversePath → Run (Option ReversePath)
find_chunk cm hop [] = ok none
find_chunk cm hop (chunk ∷ paths) =
    elim (string_slice_index_with_clusters cm (path_hops chunk.path) hop) [
      | none ↦ find_chunk cm hop paths
      | some index ↦
          let copy = clone_path chunk in
          trim_loop index hop 0 copy.path >>= λ path. ok (some (record copy { path = path }))
    ]

unfoldable pub first_hop : Segment → Run String
first_hop s = elim (hops s) [ [] ↦ panic | h ∷ _ ↦ ok h ]

-- Where AddSegments fails the copy is on top, and is taken off.
unfoldable pub add_background_tr_segment : Env → Revtr → Segment → Run (Revtr × Bool)
add_background_tr_segment env rt tr_seg = first_hop tr_seg >>= λ hop.
    find_chunk env.cm hop (reverse rt.paths) >>= λ found. (elim found [
      | none ↦ ok (rt, false)
      | some chunk ↦
          add_segments env (record rt { paths = chunk ∷ rt.paths }) (tr_seg ∷ [])
          >>= λ (rt', success).
              ok (if success then (rt', true) else (record rt' { paths = drop 1 rt'.paths }, false))
    ])
