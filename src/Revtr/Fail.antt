-- ===== src/Revtr/Fail.antt =====
-- FailCurrPath: it returns, pops dead ends alone, and stops at a path that may go on.
use reverse_traceroute_publi.Base.{
  ◌≡◌, ◌⊎◌, inl, inr, refl, String, Bool, true, false, List, [], ◌∷◌, Run, ok, insert, lookup_or,
  lookup-insert, if◌then◌else◌, str_eq, str_eq_refl, arith, Bool-cases,
}
use reverse_traceroute_publi.Segment.{Segment, is_dst_sym, last_hop}
use reverse_traceroute_publi.ReversePath.{ReversePath, last_seg, last_seg_of, path_last_hop}
use reverse_traceroute_publi.Revtr.{
  Revtr, revtr_last_hop, is_dead, no_option_left, mark_failed, fail_loop, fail_curr_path,
  fire_on_add,
}

abbrev pub NonEmpty {ℓ} : {A : Type ℓ} → List A → Type 0
NonEmpty [] = ⊥
NonEmpty (x ∷ xs) = Unit

-- Every path has a segment.
abbrev pub AllPaths : List ReversePath → Type 0
AllPaths [] = Unit
AllPaths (p ∷ paths) = NonEmpty p.path × AllPaths paths

last_seg-ok : (path : List Segment) → NonEmpty path → (s : Segment) × (last_seg_of path ≡ ok s)
unfolding last_seg_of
last_seg-ok [] h = absurd h
last_seg-ok (s ∷ []) h = (s, refl)
last_seg-ok (s ∷ t ∷ path) h = last_seg-ok (t ∷ path) tt

-- A path that ends in a dead end which was not assumed symmetric.
pub record IsStuck (rt : Revtr) (p : ReversePath) : Type 0 where
  pub end : Segment
  pub ends : last_seg p ≡ ok end
  pub dead : is_dead rt (last_hop end.rev) ≡ true
  pub measured : is_dst_sym end.kind ≡ false

-- `qs` is `ps` without some paths at the top, each of them stuck.
pub data Popped (rt : Revtr) : List ReversePath → List ReversePath → Type 0 where
  stay : {ps : List ReversePath} → Popped rt ps ps
  drop_path :
      {p : ReversePath} {ps qs : List ReversePath}
      → IsStuck rt p
      → Popped rt ps qs
      → Popped rt (p ∷ ps) qs

-- The top path may be extended: its last hop is no dead end, or was assumed symmetric.
abbrev pub MayGoOn : Revtr → List ReversePath → Type 0
MayGoOn rt [] = ⊥
MayGoOn rt (p ∷ ps) =
    (s : Segment) × (last_seg p ≡ ok s)
    × ((is_dead rt (last_hop s.rev) ≡ false) ⊎ (is_dst_sym s.kind ≡ true))

-- How the loop ends: failed for good, or at a path that may go on.
abbrev pub Ends : Revtr → List ReversePath → Run Revtr → Type 0
Ends rt qs r =
    ((no_option_left rt.backoff_endhost qs ≡ true)
      × (r ≡ ok (mark_failed (record rt { paths = qs }))))
    ⊎ ((no_option_left rt.backoff_endhost qs ≡ false)
        × (r ≡ ok (record rt { paths = qs }))
        × MayGoOn rt qs)

path_last_hop-ok :
    (p : ReversePath) (s : Segment) → last_seg p ≡ ok s → path_last_hop p ≡ ok (last_hop s.rev)
unfolding path_last_hop
path_last_hop-ok p s h = rw h

no_option_left-nil : (b : Bool) → no_option_left b [] ≡ true
unfolding no_option_left
no_option_left-nil b = refl

fail_loop-Ends :
    (ps : List ReversePath) (rt : Revtr)
    → AllPaths ps
    → (qs : List ReversePath) × Popped rt ps qs × Ends rt qs (fail_loop ps rt)
unfolding fail_loop
fail_loop-Ends [] rt h = ([], stay, inl (no_option_left-nil rt.backoff_endhost, refl))
fail_loop-Ends (p ∷ ps) rt (some_seg, h) =
    elim (Bool-cases (no_option_left rt.backoff_endhost (p ∷ ps))) [
      | inl none_left ↦ (p ∷ ps, stay, inl (none_left, rw none_left))
      | inr left ↦
          let (s, ends) = last_seg-ok p.path some_seg in
          elim (Bool-cases (is_dead rt (last_hop s.rev))) [
            | inr alive ↦ (
              p ∷ ps,
              stay,
              inr (left, rw (left, path_last_hop-ok p s ends, alive), (s, ends, inl alive)),
            )
            | inl dead ↦ elim (Bool-cases (is_dst_sym s.kind)) [
              | inl sym_seg ↦ (
                p ∷ ps,
                stay,
                inr (
                  left,
                  rw (left, path_last_hop-ok p s ends, dead, ends, sym_seg),
                  (s, ends, inr sym_seg),
                ),
              )
              | inr measured ↦
                  let (qs, popped, fin) = fail_loop-Ends ps rt h in
                  let stuck : IsStuck rt p = record {
                    end = s;
                    ends = ends;
                    dead = dead;
                    measured = measured;
                  } in
                  (
                    qs,
                    drop_path stuck popped,
                    rw (left, path_last_hop-ok p s ends, dead, ends, measured) fin,
                  )
            ]
          ]
    ]

-- The state that the loop of FailCurrPath starts with.
abbrev pub marked_dead : Revtr → String → Revtr
marked_dead rt hop = record rt { dead_end = insert rt.dead_end hop true }

pub is_dead-marked_dead :
    (rt : Revtr) (hop x : String)
    → is_dead (marked_dead rt hop) x ≡ (if str_eq hop x then true else is_dead rt x)
unfolding is_dead lookup_or
is_dead-marked_dead rt hop x = ground (arith, lookup-insert rt.dead_end hop true x)

-- Where there is a last hop and every path has a segment, FailCurrPath marks the last hop dead,
-- takes off paths that end in a dead hop not assumed symmetric, and stops failed, or at a path
-- that may go on.
pub fail_curr_path-Ends :
    (rt : Revtr) (hop : String)
    → AllPaths rt.paths
    → revtr_last_hop rt ≡ ok hop
    → (qs : List ReversePath) × (rt' : Revtr) × (fail_curr_path rt ≡ ok (fire_on_add rt'))
      × Popped (marked_dead rt hop) rt.paths qs
      × Ends (marked_dead rt hop) qs (ok rt')
      × (is_dead (marked_dead rt hop) hop ≡ true)
unfolding fail_curr_path
fail_curr_path-Ends rt hop valid at =
    let (qs, popped, fin) = fail_loop-Ends rt.paths (marked_dead rt hop) valid in
    let dead : is_dead (marked_dead rt hop) hop ≡ true =
      ground (arith, is_dead-marked_dead rt hop hop, str_eq_refl hop) in
    elim fin [
      | inl (none_left, e) ↦ (
        qs,
        mark_failed (record (marked_dead rt hop) { paths = qs }),
        rw (at, e),
        popped,
        inl (none_left, refl),
        dead,
      )
      | inr (left, e, go_on) ↦ (
        qs,
        record (marked_dead rt hop) { paths = qs },
        rw (at, e),
        popped,
        inr (left, refl, go_on),
        dead,
      )
    ]
