-- ===== src/ReversePath.antt =====
-- revtr/reverse_traceroute/reverse_path.go: a reverse path, a list of segments from the
-- destination towards the source.
pub mod Stack
use reverse_traceroute_publi.Base.{
  ℕ, ◌+◌, String, Bool, true, false, List, [], ◌∷◌, ◌++◌, map, length, Run, ok, panic, ◌>>=◌,
}
use reverse_traceroute_publi.Segment.{
  Segment, hops, clone, last_hop, reaches, segment_length, symmetric_assumptions,
}
use reverse_traceroute_publi.Segment.Create.{new_dst_rev_segment}

pub record ReversePath : Type 0 where
  pub src : String
  pub dst : String
  pub path : List Segment

-- A path given as empty starts at the destination.
unfoldable pub new_reverse_path : (String → Bool) → String → String → List Segment → ReversePath
new_reverse_path is_global_unicast src dst [] = record {
  src = src;
  dst = dst;
  path = new_dst_rev_segment is_global_unicast (dst ∷ []) src dst ∷ [];
}
new_reverse_path is_global_unicast src dst (s ∷ path) = record {
  src = src;
  dst = dst;
  path = s ∷ path;
}

unfoldable pub clone_path : ReversePath → ReversePath
clone_path rp = record rp { path = map clone rp.path }

-- The hops of the segments, one after the other.
unfoldable pub path_hops : List Segment → List String
path_hops [] = []
path_hops (s ∷ path) = hops s ++ path_hops path

length_loop : ℕ → List Segment → ℕ
length_loop n [] = n
length_loop n (s ∷ path) = length_loop (n + segment_length s.rev false) path

unfoldable pub path_length : ReversePath → ℕ
unfolding length_loop
path_length rp = length_loop 0 rp.path

-- An index of -1 panics.
unfoldable pub last_seg_of : List Segment → Run Segment
last_seg_of [] = panic
last_seg_of (s ∷ []) = ok s
last_seg_of (s ∷ t ∷ path) = last_seg_of (t ∷ path)

abbrev pub last_seg : ReversePath → Run Segment
last_seg rp = last_seg_of rp.path

unfoldable pub path_last_hop : ReversePath → Run String
path_last_hop rp = last_seg rp >>= λ s. ok (last_hop s.rev)

unfoldable pub without_last : List Segment → List Segment
without_last [] = []
without_last (s ∷ []) = []
without_last (s ∷ t ∷ path) = s ∷ without_last (t ∷ path)

unfoldable pub pop : ReversePath → Run (Segment × ReversePath)
pop rp = last_seg rp >>= λ s. ok (s, record rp { path = without_last rp.path })

unfoldable pub path_reaches : (String → String) → ReversePath → Run Bool
path_reaches cm rp = last_seg rp >>= λ s. ok (reaches cm s.rev)

symmetric_loop : ℕ → List Segment → ℕ
symmetric_loop total [] = total
symmetric_loop total (s ∷ path) = symmetric_loop (total + symmetric_assumptions s) path

unfoldable pub path_symmetric_assumptions : ReversePath → ℕ
unfolding symmetric_loop
path_symmetric_assumptions rp = symmetric_loop 0 rp.path

unfoldable pub add : ReversePath → Segment → ReversePath
add rp s = record rp { path = rp.path ++ s ∷ [] }
