-- ===== src/Revtr/Reaching.antt =====
-- Reaches and Failed: what they say of the state that they leave.
use reverse_traceroute_publi.Base.{
  ◌≡◌, ◌⊎◌, inl, inr, refl, Bool, true, false, not, ◌&&◌, List, [], ◌∷◌, Run, ok, panic, Bool-cases,
  arith, arith,
}
use reverse_traceroute_publi.ReversePath.{ReversePath, path_reaches}
use reverse_traceroute_publi.Revtr.{
  Revtr, reached, failed, top, curr_path, reaches, reaches_top, mark_reached, failed_now,
  no_option_left,
}
use reverse_traceroute_publi.Revtr.Externs.{Env}

-- The current path reaches the source.
abbrev pub TopReaches : Env → Revtr → Type 0
TopReaches env rt = (p : ReversePath) × (curr_path rt ≡ ok p) × (path_reaches env.cm p ≡ ok true)

reach-cases : (r : Run Bool) → (r ≡ panic) ⊎ ((r ≡ ok true) ⊎ (r ≡ ok false))
reach-cases panic = inl refl
reach-cases (ok true) = inr (inl refl)
reach-cases (ok false) = inr (inr refl)

-- What the result of Reaches says.
abbrev pub ReachesSays : Env → Revtr → Run (Revtr × Bool) → Type 0
ReachesSays env rt panic = Unit
ReachesSays env rt (ok (rt', true)) =
    (rt'.stop_reason ≡ reached) × (rt'.paths ≡ rt.paths) × TopReaches env rt'
ReachesSays env rt (ok (rt', false)) = rt' ≡ rt

reaches_top_lem :
    (env : Env) (rt : Revtr) (paths : List ReversePath)
    → rt.paths ≡ paths
    → ReachesSays env rt (reaches_top env rt paths)
unfolding reaches_top mark_reached top
reaches_top_lem env rt [] e = refl
reaches_top_lem env rt (p ∷ ps) e = elim (reach-cases (path_reaches env.cm p)) [
  | inl stuck ↦ rw stuck tt
  | inr (inl there) ↦ elim (Bool-cases (rt.callbacks.has_on_reach && not rt.reach_done)) [
    | inl h ↦ rw (there, h) (refl, refl, (p, rw e refl, there))
    | inr h ↦ rw (there, h) (refl, refl, (p, rw e refl, there))
  ]
  | inr (inr away) ↦ rw away refl
]

pub reaches_lem : (env : Env) (rt : Revtr) → ReachesSays env rt (reaches env rt)
unfolding reaches
reaches_lem env rt = reaches_top_lem env rt rt.paths refl

pub failed_now_lem :
    (rt : Revtr)
    → ((failed_now rt).1 ≡ true)
    → ((failed_now rt).0.stop_reason ≡ failed)
      × (no_option_left (failed_now rt).0.backoff_endhost (failed_now rt).0.paths ≡ true)
unfolding failed_now
failed_now_lem rt h = elim (Bool-cases (no_option_left rt.backoff_endhost rt.paths)) [
  | inl e ↦ ground arith
  | inr e ↦ absurd (ground arith)
]
