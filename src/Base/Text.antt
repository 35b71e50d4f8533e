-- ===== src/Base/Text.antt =====
-- Texts. Go compares strings by their bytes; UTF-8 keeps the order of the code points.
use Prim.Native.Nat.{ℕ, compare, Ordering}
use Prim.Native.Char.{code}
use Prim.Native.String.{String, ◌++◌}
use mathlib.Core.Bool.{Bool, true}
use mathlib.Core.List.{List, [], ◌∷◌}
use mathlib.Core.Path.{◌≡◌, refl}
use native.Mathlib.Omega.{arith}
use text.Mathlib.Text.{◌==◌}
use text.Mathlib.TextEquality.{eq_iff}
use text.Mathlib.TextPositions.{eq_refl}

abbrev pub str_eq : String → String → Bool
str_eq s t = s == t

abbrev pub text_append : String → String → String
text_append s t = s ++ t

pub str_eq_refl : (s : String) → str_eq s s ≡ true
str_eq_refl s = eq_refl s

pub str_eq-eq : (s t : String) → str_eq s t ≡ true → s ≡ t
str_eq-eq s t h = (eq_iff s t).0 h

abbrev pub codes : String → List ℕ
codes String.[] = []
codes (String.◌∷◌ first rest) = code first ∷ codes rest

unfoldable pub compare_codes : List ℕ → List ℕ → Ordering
compare_codes [] [] = Ordering.eq
compare_codes [] (b ∷ bs) = Ordering.lt
compare_codes (a ∷ as') [] = Ordering.gt
compare_codes (a ∷ as') (b ∷ bs) = elim (compare a b) [
  | Ordering.lt ↦ Ordering.lt
  | Ordering.gt ↦ Ordering.gt
  | Ordering.eq ↦ compare_codes as' bs
]

pub compare_codes_refl : (a : List ℕ) → compare_codes a a ≡ Ordering.eq
unfolding compare_codes
compare_codes_refl [] = refl
compare_codes_refl (a ∷ as') = ground (arith, compare_codes_refl as')

pub compare_codes-eq : (a b : List ℕ) → compare_codes a b ≡ Ordering.eq → a ≡ b
unfolding compare_codes
compare_codes-eq [] [] h = refl
compare_codes-eq [] (b ∷ bs) h = absurd (ground arith)
compare_codes-eq (a ∷ as') [] h = absurd (ground arith)
compare_codes-eq (a ∷ as') (b ∷ bs) h = ground (arith, compare_codes-eq as' bs)

pub compare_codes_asym :
    (a b : List ℕ) → compare_codes a b ≡ Ordering.lt → compare_codes b a ≡ Ordering.gt
unfolding compare_codes
compare_codes_asym [] [] h = absurd (ground arith)
compare_codes_asym [] (b ∷ bs) h = refl
compare_codes_asym (a ∷ as') [] h = absurd (ground arith)
compare_codes_asym (a ∷ as') (b ∷ bs) h = ground (arith, compare_codes_asym as' bs)

pub compare_codes_trans :
    (a b c : List ℕ)
    → compare_codes a b ≡ Ordering.lt
    → compare_codes b c ≡ Ordering.lt
    → compare_codes a c ≡ Ordering.lt
unfolding compare_codes
compare_codes_trans [] [] c h k = absurd (ground arith)
compare_codes_trans [] (b ∷ bs) [] h k = absurd (ground arith)
compare_codes_trans [] (b ∷ bs) (c ∷ cs) h k = refl
compare_codes_trans (a ∷ as') [] c h k = absurd (ground arith)
compare_codes_trans (a ∷ as') (b ∷ bs) [] h k = absurd (ground arith)
compare_codes_trans (a ∷ as') (b ∷ bs) (c ∷ cs) h k = ground (arith, compare_codes_trans as' bs cs)
