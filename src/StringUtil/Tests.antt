-- ===== src/StringUtil/Tests.antt =====
-- The utilities at concrete texts.
use Prim.Native.Nat.{Ordering}
use reverse_traceroute_publi.Base.{◌≡◌, refl, String, true, false, not, ◌&&◌, some, List, [], ◌∷◌}
use reverse_traceroute_publi.StringUtil.{
  union, in_array, string_slice_minus, string_slice_index, order_string_array,
}
use reverse_traceroute_publi.StringUtil.Sets.{in_array-union, in_array-string_slice_minus}
use reverse_traceroute_publi.StringUtil.Samples.{keep_order, keep_order-IsRangeOrder}

abbrev abc : List String
abc = "a" ∷ "b" ∷ "c" ∷ []

abbrev bcd : List String
bcd = "b" ∷ "c" ∷ "d" ∷ []

union-abc : union keep_order abc bcd ≡ "b" ∷ "c" ∷ []
unfolding union reverse_traceroute_publi.Base.lookup reverse_traceroute_publi.Base.insert
union-abc = refl

in_array-union_example :
    in_array (union keep_order abc bcd) "b" ≡ in_array abc "b" && in_array bcd "b"
in_array-union_example = in_array-union keep_order keep_order-IsRangeOrder abc bcd "b"

in_array-string_slice_minus_example :
    in_array (string_slice_minus keep_order abc bcd) "a"
    ≡ in_array abc "a" && not (in_array bcd "a")
in_array-string_slice_minus_example =
    in_array-string_slice_minus keep_order keep_order-IsRangeOrder abc bcd "a"

index_c : string_slice_index abc "c" ≡ some 2
unfolding string_slice_index
index_c = refl

short_first : order_string_array ("z" ∷ []) ("a" ∷ "b" ∷ []) ≡ Ordering.lt
unfolding order_string_array
short_first = refl

by_text : order_string_array ("a" ∷ "b" ∷ []) ("a" ∷ "c" ∷ []) ≡ Ordering.lt
unfolding order_string_array reverse_traceroute_publi.Base.compare_codes
by_text = refl
