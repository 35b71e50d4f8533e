-- ===== src/Revtr/Background/Stacked.antt =====
-- AddBackgroundTRSegment: the stack of paths afterwards.
use mathlib.Core.List.{reverse}
use reverse_traceroute_publi.Base.{
  ◌≡◌, ◌⊎◌, inl, inr, refl, ap, String, Bool, true, false, some, List, [], ◌∷◌, ok, ◌==◌,
  Bool-cases,
}
use reverse_traceroute_publi.Segment.{Segment, last_hop, segment_length}
use reverse_traceroute_publi.ReversePath.{ReversePath, clone_path, add}
use reverse_traceroute_publi.Revtr.{
  Revtr, Added, done, aborted, add_loop, pruned, is_dead, add_segments, finish_adding, fire_on_add,
  top,
}
use reverse_traceroute_publi.Revtr.Externs.{Env}
use reverse_traceroute_publi.Revtr.AddSegments.{fire_on_add-paths}
use reverse_traceroute_publi.Revtr.Background.{first_hop, find_chunk, add_background_tr_segment}

module _ (env : Env) (rt : Revtr) (base_path : ReversePath) (s : Segment)
    (paths : List ReversePath) where
  -- How the loop of AddSegments ends on one segment.
  abbrev One : Added → Type 0
  One r =
      (r ≡ done true (add (clone_path base_path) (pruned env base_path s).0 ∷ paths))
      ⊎ ((r ≡ done false paths) ⊎ (r ≡ aborted paths))

  add_loop-One : One (add_loop env rt base_path (s ∷ []) false paths)
  unfolding add_loop
  add_loop-One = elim (Bool-cases (is_dead rt (last_hop s.rev))) [
    | inl dead ↦ inr (inl (rw dead refl))
    | inr alive ↦ elim (Bool-cases (pruned env base_path s).1) [
      | inl err ↦ inr (inr (rw (alive, err) refl))
      | inr fine ↦ elim (Bool-cases (segment_length (pruned env base_path s).0.rev false == 0)) [
        | inl empty ↦ inr (inl (rw (alive, fine, empty) refl))
        | inr more ↦ inl (rw (alive, fine, more) refl)
      ]
    ]
  ]

-- The stack with the trimmed copy and its extension on top, or nothing changed.
abbrev pub Stacked : Env → Revtr → Segment → ReversePath → Revtr → Bool → Type 0
Stacked env rt s chunk rt' added =
    ((added ≡ true)
      × (rt'.paths
          ≡ add (clone_path (clone_path chunk)) (pruned env (clone_path chunk) s).0
            ∷ chunk
            ∷ rt.paths))
    ⊎ ((added ≡ false) × (rt' ≡ rt))

module _ (env : Env) (sorts_one : (s : Segment) → env.sort (s ∷ []) ≡ s ∷ []) where
  add_segments-One :
      (rt : Revtr) (s : Segment) (chunk : ReversePath)
      → (r : Added) × (add_segments env (record rt { paths = chunk ∷ rt.paths }) (s ∷ [])
          ≡ ok (finish_adding (record rt { paths = chunk ∷ rt.paths }) r))
        × One env (record rt { paths = chunk ∷ rt.paths }) (clone_path chunk) s (chunk ∷ rt.paths) r
  unfolding add_segments top
  add_segments-One rt s chunk =
      let rt1 : Revtr = record rt { paths = chunk ∷ rt.paths } in
      let base_path = clone_path chunk in
      (
        add_loop env rt1 base_path (s ∷ []) false (chunk ∷ rt.paths),
        ap
            (λ segs.
              ok (finish_adding rt1 (add_loop env rt1 base_path segs false (chunk ∷ rt.paths))))
            (sorts_one s),
        add_loop-One env rt1 base_path s (chunk ∷ rt.paths),
      )

  -- Where a path meets the traceroute and sorting leaves a single segment as it is,
  -- AddBackgroundTRSegment returns: true with the trimmed copy and its extension by the segment
  -- on the stack, or false with nothing changed.
  pub add_background_tr_segment-Stacked :
      (rt : Revtr) (s : Segment) (hop : String) (chunk : ReversePath)
      → first_hop s ≡ ok hop
      → find_chunk env.cm hop (reverse rt.paths) ≡ ok (some chunk)
      → (rt' : Revtr) × (added : Bool) × (add_background_tr_segment env rt s ≡ ok (rt', added))
        × Stacked env rt s chunk rt' added
  unfolding add_background_tr_segment finish_adding
  add_background_tr_segment-Stacked rt s hop chunk starts found =
      let rt1 : Revtr = record rt { paths = chunk ∷ rt.paths } in
      let (r, at, one) = add_segments-One rt s chunk in
      let extension = add (clone_path (clone_path chunk)) (pruned env (clone_path chunk) s).0 in
      let longer : Revtr = record rt1 { paths = extension ∷ chunk ∷ rt.paths } in
      elim one [
        | inl e ↦ (
          fire_on_add longer,
          true,
          rw (add_background_tr_segment, starts, found, at, e) refl,
          inl (refl, fire_on_add-paths longer),
        )
        | inr (inl e) ↦
            (rt, false, rw (add_background_tr_segment, starts, found, at, e) refl, inr (refl, refl))
        | inr (inr e) ↦
            (rt, false, rw (add_background_tr_segment, starts, found, at, e) refl, inr (refl, refl))
      ]
