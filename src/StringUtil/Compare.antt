-- ===== src/StringUtil/Compare.antt =====
-- OrderStringArray is a strict order: by length, then by the first texts that differ.
use Prim.Native.Nat.{Ordering}
use reverse_traceroute_publi.Base.{
  ◌≡◌, refl, sym, ap, ◌∙◌, String, List, [], ◌∷◌, length, codes, compare_codes, compare_codes_refl,
  compare_codes-eq, compare_codes_asym, compare_codes_trans, arith,
}
use reverse_traceroute_publi.StringUtil.{compare_string, order_loop, order_string_array}

pub compare_string_refl : (a : String) → compare_string a a ≡ Ordering.eq
unfolding compare_string
compare_string_refl a = compare_codes_refl (codes a)

pub compare_string_asym :
    (a b : String) → compare_string a b ≡ Ordering.lt → compare_string b a ≡ Ordering.gt
unfolding compare_string
compare_string_asym a b h = compare_codes_asym (codes a) (codes b) h

pub compare_string_trans :
    (a b c : String)
    → compare_string a b ≡ Ordering.lt
    → compare_string b c ≡ Ordering.lt
    → compare_string a c ≡ Ordering.lt
unfolding compare_string
compare_string_trans a b c h k = compare_codes_trans (codes a) (codes b) (codes c) h k

-- Equal texts compare alike with a third.
compare_string_left :
    (a b c : String) → compare_string a b ≡ Ordering.eq → compare_string a c ≡ compare_string b c
unfolding compare_string
compare_string_left a b c h =
    ap (λ t. compare_codes t (codes c)) (compare_codes-eq (codes a) (codes b) h)

compare_string_right :
    (a b c : String) → compare_string a b ≡ Ordering.eq → compare_string c a ≡ compare_string c b
unfolding compare_string
compare_string_right a b c h =
    ap (λ t. compare_codes (codes c) t) (compare_codes-eq (codes a) (codes b) h)

order_loop_refl : (l : List String) → order_loop l l ≡ Ordering.eq
unfolding order_loop
order_loop_refl [] = refl
order_loop_refl (x ∷ l) = ground (arith, compare_string_refl x, order_loop_refl l)

compare_string_sym :
    (a b : String) → compare_string a b ≡ Ordering.eq → compare_string b a ≡ Ordering.eq
compare_string_sym a b h = sym (compare_string_left a b a h) ∙ compare_string_refl a

order_loop_asym : (l r : List String) → order_loop l r ≡ Ordering.lt → order_loop r l ≡ Ordering.gt
unfolding order_loop
order_loop_asym [] r h = absurd (ground arith)
order_loop_asym (x ∷ l) [] h = absurd (ground arith)
order_loop_asym (x ∷ l) (y ∷ r) h =
    ground (arith, compare_string_asym x y, compare_string_sym x y, order_loop_asym l r)

order_loop_trans :
    (l m r : List String)
    → length l ≡ length m
    → length m ≡ length r
    → order_loop l m ≡ Ordering.lt
    → order_loop m r ≡ Ordering.lt
    → order_loop l r ≡ Ordering.lt
unfolding order_loop
order_loop_trans [] m r e f h k = absurd (ground arith)
order_loop_trans (x ∷ l) [] r e f h k = absurd (ground arith)
order_loop_trans (x ∷ l) (y ∷ m) [] e f h k = absurd (ground arith)
order_loop_trans (x ∷ l) (y ∷ m) (z ∷ r) e f h k = ground (
  arith,
  compare_string_trans x y z,
  compare_string_left x y z,
  compare_string_right y z x,
  order_loop_trans l m r,
)

pub order_string_array_refl : (l : List String) → order_string_array l l ≡ Ordering.eq
unfolding order_string_array
order_string_array_refl l = ground (arith, order_loop_refl l)

pub order_string_array_asym :
    (l r : List String)
    → order_string_array l r ≡ Ordering.lt
    → order_string_array r l ≡ Ordering.gt
unfolding order_string_array
order_string_array_asym l r h = ground (arith, order_loop_asym l r)

-- The order of OrderStringArray is transitive.
pub order_string_array_trans :
    (l m r : List String)
    → order_string_array l m ≡ Ordering.lt
    → order_string_array m r ≡ Ordering.lt
    → order_string_array l r ≡ Ordering.lt
unfolding order_string_array
order_string_array_trans l m r h k = ground (arith, order_loop_trans l m r)
