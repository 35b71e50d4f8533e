-- ===== src/Base/Dict.antt =====
-- Go maps with text keys, as association lists. A write replaces the entry of its key.
use Prim.Native.String.{String}
use mathlib.Core.Bool.{Bool, false, ◌||◌}
use mathlib.Core.List.{List, [], ◌∷◌, Perm, Permᴰ}
use mathlib.Core.Logic.{inl, inr, ∥∥₁_elim}
use mathlib.Core.Option.{Option, none, some}
use mathlib.Core.Path.{◌≡◌, refl, ◌∙◌}
use native.Mathlib.Omega.{arith}
use text.Mathlib.TextEquality.{eq_iff}
use reverse_traceroute_publi.Base.Tests.{if◌then◌else◌, Bool-cases}
use reverse_traceroute_publi.Base.Text.{str_eq}

module _ {ℓ} {V : Type ℓ} where
  unfoldable pub lookup : List (String × V) → String → Option V
  lookup [] k = none
  lookup ((j, v) ∷ m) k = if str_eq j k then some v else lookup m k

  unfoldable pub insert : List (String × V) → String → V → List (String × V)
  insert [] k v = (k, v) ∷ []
  insert ((j, w) ∷ m) k v = if str_eq j k then (k, v) ∷ m else (j, w) ∷ insert m k v

  unfoldable pub delete : List (String × V) → String → List (String × V)
  delete [] k = []
  delete ((j, w) ∷ m) k = if str_eq j k then delete m k else (j, w) ∷ delete m k

  -- What Go reads at a missing key is the zero value.
  unfoldable pub lookup_or : List (String × V) → String → V → V
  unfolding lookup
  lookup_or m k zero_value = elim (lookup m k) [ some v ↦ v | none ↦ zero_value ]

  -- No key stands twice, as in every Go map.
  abbrev pub IsMap : List (String × V) → Type ℓ
  IsMap [] = Unit
  IsMap ((j, v) ∷ m) = (lookup m j ≡ none) × IsMap m

  pub lookup-insert :
      (m : List (String × V)) (k : String) (v : V) (x : String)
      → lookup (insert m k v) x ≡ (if str_eq k x then some v else lookup m x)
  unfolding lookup insert
  lookup-insert [] k v x = refl
  lookup-insert ((j, w) ∷ m) k v x =
      ground (arith, eq_iff k x, eq_iff j k, eq_iff j x, lookup-insert m k v x)

  pub lookup_or-insert :
      (m : List (String × V)) (k : String) (v : V) (x : String) (d : V)
      → lookup_or (insert m k v) x d ≡ (if str_eq k x then v else lookup_or m x d)
  unfolding lookup_or
  lookup_or-insert m k v x d =
      rw (lookup-insert m k v x, lookup_or)
        (elim (Bool-cases (str_eq k x)) [ inl same ↦ rw same refl | inr apart ↦ rw apart refl ])

  pub lookup-delete :
      (m : List (String × V)) (k x : String)
      → lookup (delete m k) x ≡ (if str_eq k x then none else lookup m x)
  unfolding lookup delete
  lookup-delete [] k x = ground arith
  lookup-delete ((j, w) ∷ m) k x =
      ground (arith, eq_iff k x, eq_iff j k, eq_iff j x, lookup-delete m k x)

  pub insert-IsMap : (m : List (String × V)) (k : String) (v : V) → IsMap m → IsMap (insert m k v)
  unfolding lookup insert
  insert-IsMap [] k v h = (refl, tt)
  insert-IsMap ((j, w) ∷ m) k v h =
      ground (arith, eq_iff j k, eq_iff k j, lookup-insert m k v j, insert-IsMap m k v)

-- Whether an entry passes the test.
unfoldable pub any {ℓ} : {A : Type ℓ} → (A → Bool) → List A → Bool
any p [] = false
any p (x ∷ xs) = p x || any p xs

Permᴰ-any {ℓ} : {A : Type ℓ} (p : A → Bool) {a b : List A} → Permᴰ a b → any p a ≡ any p b
unfolding any
Permᴰ-any p Permᴰ.nil = refl
Permᴰ-any p (Permᴰ.cons x h) = ground (arith, Permᴰ-any p h)
Permᴰ-any p (Permᴰ.swap x y) = ground arith
Permᴰ-any p (Permᴰ.trans h k) = Permᴰ-any p h ∙ Permᴰ-any p k

Bool-set : IsSet Bool
Bool-set = hlevel

pub any-perm {ℓ} : {A : Type ℓ} (p : A → Bool) {a b : List A} → Perm a b → any p a ≡ any p b
any-perm p h = ∥∥₁_elim h (Bool-set _ _) (Permᴰ-any p)
