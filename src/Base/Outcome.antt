-- ===== src/Base/Outcome.antt =====
-- How a Go function ends: it returns, or it panics (an index out of range, a nil dereference).
use mathlib.Core.Logic.{◌⊎◌, inl, inr}
use mathlib.Core.Path.{◌≡◌, refl}

pub data Run {ℓ} (A : Type ℓ) : Type ℓ where
  ok : A → Run A
  panic : Run A

-- The call of `next` happens only if `run` returned.
abbrev pub ◌>>=◌ {ℓ κ} : {A : Type ℓ} {B : Type κ} (run : Run A) (next : A → Run B) → Run B
panic >>= next = panic
ok result >>= next = next result

infixl 5 ◌>>=◌
pub Run-cases {ℓ} : {A : Type ℓ} (r : Run A) → (r ≡ panic) ⊎ ((a : A) × (r ≡ ok a))
Run-cases panic = inl refl
Run-cases (ok a) = inr (a, refl)

pub ok-eq {ℓ} : {A : Type ℓ} (a b : A) → ok a ≡ ok b → a ≡ b
ok-eq a b e = cc
