-- ===== src/StringUtil.antt =====
-- util/string/string_utils.go: the slice and set functions on strings.
-- A Go map is ranged over in an unspecified order: `order` is what the runtime chooses, a
-- function that rearranges the entries of a map.
pub mod Sets
pub mod Slices
pub mod Compare
pub mod Samples
mod Tests
use Prim.Native.Nat.{Ordering}
use mathlib.Core.List.{Perm}
use reverse_traceroute_publi.Base.{
  ℕ, zero, suc, ◌+◌, ◌-◌, String, Bool, true, false, ◌&&◌, Option, none, some, List, [], ◌∷◌, ◌++◌,
  length, set, replicate, str_eq, codes, compare_codes, if◌then◌else◌, ltb, ◌==◌, lookup, insert,
  delete,
}

-- The loop of StringSliceReverse from index `i`, writing into `ret`.
reverse_loop : ℕ → ℕ → List String → List String → List String
reverse_loop n i [] ret = ret
reverse_loop n i (s ∷ ss) ret = reverse_loop n (suc i) ss (set ret (n - i - 1) s)

unfoldable pub string_slice_reverse : List String → List String
unfolding reverse_loop
string_slice_reverse ss = reverse_loop (length ss) 0 ss (replicate (length ss) "")

-- The mark that a probe is sent from the source itself.
abbrev pub non_spoofed : String
non_spoofed = "non_spoofed"

-- The first two loops of Union: the keys of `ss`, then those of them that `s` has too.
set_all : List (String × Bool) → List String → List (String × Bool)
set_all mm [] = mm
set_all mm (c ∷ ss) = set_all (insert mm c false) ss

mark_all : List (String × Bool) → List String → List (String × Bool)
mark_all mm [] = mm
mark_all mm (c ∷ s) = mark_all (elim (lookup mm c) [ some _ ↦ insert mm c true | none ↦ mm ]) s

-- The loop over the map, with `foundNonSpoofed` and `ret`.
union_loop : List (String × Bool) → Bool → List String → Bool × List String
union_loop [] found ret = (found, ret)
union_loop ((k, v) ∷ mm) found ret =
    let special = str_eq k non_spoofed && v in
    union_loop mm (if special then true else found)
      (if special then ret else if v then ret ++ k ∷ [] else ret)

non_spoofed_first : Bool × List String → List String
non_spoofed_first (found, ret) = if found then non_spoofed ∷ ret else ret

module _ (order : List (String × Bool) → List (String × Bool)) where
  unfoldable pub union : List String → List String → List String
  unfolding set_all mark_all union_loop non_spoofed_first
  union ss s = non_spoofed_first (union_loop (order (mark_all (set_all [] ss) s)) false [])

array_equals_loop : List String → List String → Bool
array_equals_loop (l ∷ ls) (r ∷ rs) = str_eq l r && array_equals_loop ls rs
array_equals_loop _ _ = true

unfoldable pub string_array_equals : List String → List String → Bool
unfolding array_equals_loop
string_array_equals left right =
    if length left == length right then array_equals_loop left right else false

-- strings.Compare: `Ordering.lt`, `eq` and `gt` stand for -1, 0 and +1.
unfoldable pub compare_string : String → String → Ordering
compare_string a b = compare_codes (codes a) (codes b)

order_loop : List String → List String → Ordering
order_loop (l ∷ ls) (r ∷ rs) = elim (compare_string l r) [
  | Ordering.lt ↦ Ordering.lt
  | Ordering.gt ↦ Ordering.gt
  | Ordering.eq ↦ order_loop ls rs
]
order_loop _ _ = Ordering.eq

unfoldable pub order_string_array : List String → List String → Ordering
unfolding order_loop compare_string
order_string_array left right =
    if ltb (length right) (length left)
    then Ordering.gt
    else if ltb (length left) (length right)
    then Ordering.lt
    else order_loop left right

unfoldable pub in_array : List String → String → Bool
in_array [] s = false
in_array (ss ∷ arr) s = if str_eq ss s then true else in_array arr s

-- The loops of StringSliceMinus; the values of the map are all true.
add_all : List (String × Bool) → List String → List (String × Bool)
add_all old [] = old
add_all old (s ∷ l) = add_all (insert old s true) l

delete_all : List (String × Bool) → List String → List (String × Bool)
delete_all old [] = old
delete_all old (s ∷ r) = delete_all (elim (lookup old s) [ some _ ↦ delete old s | none ↦ old ]) r

minus_loop : List (String × Bool) → Bool → List String → Bool × List String
minus_loop [] found ret = (found, ret)
minus_loop ((k, v) ∷ old) found ret =
    let special = str_eq k non_spoofed in
    minus_loop old (if special then true else found) (if special then ret else ret ++ k ∷ [])

module _ (order : List (String × Bool) → List (String × Bool)) where
  unfoldable pub string_slice_minus : List String → List String → List String
  unfolding add_all delete_all minus_loop non_spoofed_first
  string_slice_minus l r =
      non_spoofed_first (minus_loop (order (delete_all (add_all [] l) r)) false [])

-- `none` stands for -1.
index_loop : ℕ → List String → String → Option ℕ
index_loop i [] seg = none
index_loop i (s ∷ segs) seg = if str_eq s seg then some i else index_loop (suc i) segs seg

unfoldable pub string_slice_index : List String → String → Option ℕ
unfolding index_loop
string_slice_index segs seg = index_loop 0 segs seg

clone_loop : List String → List String → List String
clone_loop ret [] = ret
clone_loop ret (s ∷ ss) = clone_loop (ret ++ s ∷ []) ss

unfoldable pub clone_string_slice : List String → List String
unfolding clone_loop
clone_string_slice ss = clone_loop [] ss

-- What Go promises of a range over a map: each entry once, in some order.
abbrev pub IsRangeOrder : (List (String × Bool) → List (String × Bool)) → Type 0
IsRangeOrder order = (m : List (String × Bool)) → Perm (order m) m
