-- ===== src/ReversePath/Stack.antt =====
-- Pop and Add of a reverse path, and Clone.
use mathlib.Core.List.{append-nil, append_assoc}
use reverse_traceroute_publi.Base.{◌≡◌, refl, sym, ap, ◌∙◌, List, [], ◌∷◌, ◌++◌, map, ok}
use reverse_traceroute_publi.Segment.{Segment, hops, clone, last_hop}
use reverse_traceroute_publi.ReversePath.{
  ReversePath, clone_path, path_hops, last_seg_of, path_last_hop, without_last, pop, add,
}

last_seg_of-append : (path : List Segment) (s : Segment) → last_seg_of (path ++ s ∷ []) ≡ ok s
unfolding last_seg_of
last_seg_of-append [] s = refl
last_seg_of-append (t ∷ []) s = refl
last_seg_of-append (t ∷ u ∷ path) s = last_seg_of-append (u ∷ path) s

without_last-append : (path : List Segment) (s : Segment) → without_last (path ++ s ∷ []) ≡ path
unfolding without_last
without_last-append [] s = refl
without_last-append (t ∷ []) s = refl
without_last-append (t ∷ u ∷ path) s = ap (◌∷◌ t) (without_last-append (u ∷ path) s)

-- Pop takes back the segment that Add put, and the last hop of the path is that segment's.
pop-add :
    (rp : ReversePath) (s : Segment)
    → (pop (add rp s) ≡ ok (s, rp)) × (path_last_hop (add rp s) ≡ ok (last_hop s.rev))
unfolding pop add path_last_hop
pop-add rp s = (
  rw (last_seg_of-append rp.path s, without_last-append rp.path s) refl,
  rw (last_seg_of-append rp.path s) refl,
)

hops-clone : (path : List Segment) → path_hops (map clone path) ≡ path_hops path
unfolding path_hops clone
hops-clone [] = refl
hops-clone (s ∷ path) = ap (λ l. hops s ++ l) (hops-clone path)

pub path_hops-append :
    (path : List Segment) (s : Segment) → path_hops (path ++ s ∷ []) ≡ path_hops path ++ hops s
unfolding path_hops
path_hops-append [] s = append-nil (hops s)
path_hops-append (t ∷ path) s =
    ap (λ l. hops t ++ l) (path_hops-append path s)
    ∙ sym (append_assoc (hops t) (path_hops path) (hops s))

-- The hops of a cloned path with one more segment are the hops of the path and the segment's.
path_hops-add-clone_path :
    (rp : ReversePath) (s : Segment)
    → path_hops (add (clone_path rp) s).path ≡ path_hops rp.path ++ hops s
unfolding add clone_path
path_hops-add-clone_path rp s =
    path_hops-append (map clone rp.path) s ∙ ap (λ l. l ++ hops s) (hops-clone rp.path)
