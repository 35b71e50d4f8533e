-- ===== src/Base/Lists.antt =====
-- Lists measured and indexed by native numbers, under the library's names.
use Prim.Native.Nat.{ℕ, zero, suc, ◌+◌, ◌-◌, min}
use mathlib.Core.Logic.{◌≢◌}
use mathlib.Core.Path.{◌≡◌, refl, ap}
use mathlib.Core.List.{List, [], ◌∷◌, ◌++◌}
use mathlib.Core.Option.{Option, none, some}
use native.Mathlib.Omega.{arith}

module _ {ℓ} {A : Type ℓ} where
  abbrev pub length : List A → ℕ
  length [] = 0
  length (x ∷ xs) = suc (length xs)

  abbrev pub get_elem? : List A → ℕ → Option A
  get_elem? [] i = none
  get_elem? (x ∷ xs) zero = some x
  get_elem? (x ∷ xs) (suc i) = get_elem? xs i

  abbrev pub take : ℕ → List A → List A
  take zero xs = []
  take (suc n) [] = []
  take (suc n) (x ∷ xs) = x ∷ take n xs

  abbrev pub drop : ℕ → List A → List A
  drop zero xs = xs
  drop (suc n) [] = []
  drop (suc n) (x ∷ xs) = drop n xs

  -- A write out of bounds changes nothing.
  abbrev pub set : List A → ℕ → A → List A
  set [] i v = []
  set (x ∷ xs) zero v = v ∷ xs
  set (x ∷ xs) (suc i) v = x ∷ set xs i v

  abbrev pub replicate : ℕ → A → List A
  replicate zero a = []
  replicate (suc n) a = a ∷ replicate n a

  pub length-append : (xs ys : List A) → length (xs ++ ys) ≡ length xs + length ys
  length-append [] ys = omega arith
  length-append (x ∷ xs) ys = omega (arith, length-append xs ys)

  pub take-append-drop : (n : ℕ) (xs : List A) → take n xs ++ drop n xs ≡ xs
  take-append-drop zero xs = refl
  take-append-drop (suc n) [] = refl
  take-append-drop (suc n) (x ∷ xs) = ap (◌∷◌ x) (take-append-drop n xs)

  pub length-take : (n : ℕ) (xs : List A) → length (take n xs) ≡ min n (length xs)
  length-take zero xs = omega arith
  length-take (suc n) [] = omega arith
  length-take (suc n) (x ∷ xs) = omega (arith, length-take n xs)

  pub length-drop : (n : ℕ) (xs : List A) → length (drop n xs) ≡ length xs - n
  length-drop zero xs = omega arith
  length-drop (suc n) [] = omega arith
  length-drop (suc n) (x ∷ xs) = omega (arith, length-drop n xs)

module _ {ℓ} {A : Type ℓ} where
  pub append-before :
      (xs : List A) (z : A) (c : ℕ) (y : A)
      → get_elem? xs c ≡ some y
      → get_elem? (xs ++ z ∷ []) c ≡ some y
  append-before [] z c y e = cc
  append-before (x ∷ xs) z zero y e = e
  append-before (x ∷ xs) z (suc c) y e = append-before xs z c y e

  pub append-last : (xs : List A) (z : A) → get_elem? (xs ++ z ∷ []) (length xs) ≡ some z
  append-last [] z = refl
  append-last (x ∷ xs) z = append-last xs z

  pub set-at :
      (xs : List A) (c : ℕ) (v y : A) → get_elem? xs c ≡ some y → get_elem? (set xs c v) c ≡ some v
  set-at [] c v y e = cc
  set-at (x ∷ xs) zero v y e = refl
  set-at (x ∷ xs) (suc c) v y e = set-at xs c v y e

  pub set-other :
      (xs : List A) (c c' : ℕ) (v : A) → c ≢ c' → get_elem? (set xs c v) c' ≡ get_elem? xs c'
  set-other [] c c' v other = refl
  set-other (x ∷ xs) zero zero v other = absurd (other refl)
  set-other (x ∷ xs) zero (suc c') v other = refl
  set-other (x ∷ xs) (suc c) zero v other = refl
  set-other (x ∷ xs) (suc c) (suc c') v other = set-other xs c c' v (λ e. other (ap suc e))
