-- ===== src/StringUtil/Sets.antt =====
-- Union and StringSliceMinus as sets.
use text.Mathlib.TextEquality.{eq_iff}
use reverse_traceroute_publi.Base.{
  ℕ, take, drop, take-append-drop, ap, sym, ◌∙◌, ◌≡◌, refl, String, Bool, true, false, not, ◌&&◌,
  ◌||◌, none, some, List, [], ◌∷◌, ◌++◌, str_eq, if◌then◌else◌, lookup, insert, delete, any,
  any-perm, IsMap, lookup-insert, lookup-delete, insert-IsMap, arith,
}
use reverse_traceroute_publi.StringUtil.{
  set_all, mark_all, union_loop, non_spoofed_first, union, in_array, add_all, delete_all,
  minus_loop, string_slice_minus, non_spoofed, IsRangeOrder,
}

-- The entry for `x` that holds true.
abbrev holds : String → String × Bool → Bool
holds x (k, v) = str_eq k x && v

pub in_array-append :
    (xs ys : List String) (x : String) → in_array (xs ++ ys) x ≡ in_array xs x || in_array ys x
unfolding in_array
in_array-append [] ys x = refl
in_array-append (y ∷ xs) ys x = ground (arith, in_array-append xs ys x)

any-lookup :
    (m : List (String × Bool)) (x : String)
    → IsMap m
    → any (holds x) m ≡ elim (lookup m x) [ some v ↦ v | none ↦ false ]
unfolding any lookup
any-lookup [] x h = refl
any-lookup ((j, v) ∷ m) x h = ground (arith, eq_iff j x, any-lookup m x)

union_loop-in_array :
    (m : List (String × Bool)) (found : Bool) (ret : List String) (x : String)
    → in_array (non_spoofed_first (union_loop m found ret)) x
      ≡ ((found && str_eq non_spoofed x) || in_array ret x) || any (holds x) m
unfolding union_loop non_spoofed_first any in_array
union_loop-in_array [] true ret x = ground arith
union_loop-in_array [] false ret x = ground arith
union_loop-in_array ((k, v) ∷ m) found ret x = ground (
  arith,
  eq_iff k non_spoofed,
  eq_iff k x,
  eq_iff non_spoofed x,
  in_array-append ret (k ∷ []) x,
  union_loop-in_array m (if str_eq k non_spoofed && v then true else found)
      (if str_eq k non_spoofed && v then ret else if v then ret ++ k ∷ [] else ret) x,
)

-- Where an entry stands, its value says whether the text was marked.
abbrev Mark : List (String × Bool) → List String → List (String × Bool) → Type 0
Mark before s after =
    (x : String)
    → lookup after x ≡ elim (lookup before x) [ some v ↦ some (v || in_array s x) | none ↦ none ]

set_all-lookup :
    (mm : List (String × Bool)) (ss : List String) (x : String)
    → lookup (set_all mm ss) x ≡ (if in_array ss x then some false else lookup mm x)
unfolding set_all in_array
set_all-lookup mm [] x = refl
set_all-lookup mm (c ∷ ss) x =
    ground (arith, set_all-lookup (insert mm c false) ss x, lookup-insert mm c false x)

set_all-IsMap : (mm : List (String × Bool)) (ss : List String) → IsMap mm → IsMap (set_all mm ss)
unfolding set_all
set_all-IsMap mm [] h = h
set_all-IsMap mm (c ∷ ss) h = set_all-IsMap (insert mm c false) ss (insert-IsMap mm c false h)

-- One step of the second loop.
mark : List (String × Bool) → String → List (String × Bool)
mark mm c = elim (lookup mm c) [ some _ ↦ insert mm c true | none ↦ mm ]

mark-lookup :
    (mm : List (String × Bool)) (c x : String)
    → lookup (mark mm c) x ≡ elim (lookup mm x) [ some v ↦ some (v || str_eq c x) | none ↦ none ]
unfolding mark
mark-lookup mm c x = ground (arith, lookup-insert mm c true x, eq_iff c x)

mark-IsMap : (mm : List (String × Bool)) (c : String) → IsMap mm → IsMap (mark mm c)
unfolding mark
mark-IsMap mm c h = ground (arith, insert-IsMap mm c true h)

mark_all-lookup : (mm : List (String × Bool)) (s : List String) → Mark mm s (mark_all mm s)
unfolding mark_all in_array mark
mark_all-lookup mm [] x = ground arith
mark_all-lookup mm (c ∷ s) x = ground (arith, mark_all-lookup (mark mm c) s x, mark-lookup mm c x)

mark_all-IsMap : (mm : List (String × Bool)) (s : List String) → IsMap mm → IsMap (mark_all mm s)
unfolding mark_all mark
mark_all-IsMap mm [] h = h
mark_all-IsMap mm (c ∷ s) h = mark_all-IsMap (mark mm c) s (mark-IsMap mm c h)

module _ (order : List (String × Bool) → List (String × Bool)) (ranges : IsRangeOrder order) where
  -- Where a range over a map gives each entry once, Union is the intersection: a text is in the
  -- result exactly when it is in both slices.
  pub in_array-union :
      (ss s : List String) (x : String)
      → in_array (union order ss s) x ≡ in_array ss x && in_array s x
  unfolding union in_array lookup
  in_array-union ss s x =
      let mm = mark_all (set_all [] ss) s in
      ground (
        arith,
        union_loop-in_array (order mm) false [] x,
        any-perm (holds x) (ranges mm),
        any-lookup mm x (mark_all-IsMap (set_all [] ss) s (set_all-IsMap [] ss tt)),
        mark_all-lookup (set_all [] ss) s x,
        set_all-lookup [] ss x,
      )

has_key : String → String × Bool → Bool
has_key x (k, v) = str_eq k x

any-has_key :
    (m : List (String × Bool)) (x : String)
    → any (has_key x) m ≡ elim (lookup m x) [ some _ ↦ true | none ↦ false ]
unfolding any lookup has_key
any-has_key [] x = refl
any-has_key ((j, v) ∷ m) x = ground (arith, eq_iff j x, any-has_key m x)

minus_loop-in_array :
    (m : List (String × Bool)) (found : Bool) (ret : List String) (x : String)
    → in_array (non_spoofed_first (minus_loop m found ret)) x
      ≡ ((found && str_eq non_spoofed x) || in_array ret x) || any (has_key x) m
unfolding minus_loop non_spoofed_first any in_array has_key
minus_loop-in_array [] true ret x = ground arith
minus_loop-in_array [] false ret x = ground arith
minus_loop-in_array ((k, v) ∷ m) found ret x = ground (
  arith,
  eq_iff k non_spoofed,
  eq_iff k x,
  eq_iff non_spoofed x,
  in_array-append ret (k ∷ []) x,
  minus_loop-in_array m (if str_eq k non_spoofed then true else found)
      (if str_eq k non_spoofed then ret else ret ++ k ∷ []) x,
)

add_all-lookup :
    (old : List (String × Bool)) (l : List String) (x : String)
    → lookup (add_all old l) x ≡ (if in_array l x then some true else lookup old x)
unfolding add_all in_array
add_all-lookup old [] x = refl
add_all-lookup old (s ∷ l) x =
    ground (arith, add_all-lookup (insert old s true) l x, lookup-insert old s true x)

-- One step of the second loop of StringSliceMinus.
drop_key : List (String × Bool) → String → List (String × Bool)
drop_key old s = elim (lookup old s) [ some _ ↦ delete old s | none ↦ old ]

drop_key-lookup :
    (old : List (String × Bool)) (s x : String)
    → lookup (drop_key old s) x ≡ (if str_eq s x then none else lookup old x)
unfolding drop_key
drop_key-lookup old s x = ground (arith, lookup-delete old s x, eq_iff s x)

delete_all-lookup :
    (old : List (String × Bool)) (r : List String) (x : String)
    → lookup (delete_all old r) x ≡ (if in_array r x then none else lookup old x)
unfolding delete_all in_array drop_key
delete_all-lookup old [] x = refl
delete_all-lookup old (s ∷ r) x =
    ground (arith, delete_all-lookup (drop_key old s) r x, drop_key-lookup old s x)

module _ (order : List (String × Bool) → List (String × Bool)) (ranges : IsRangeOrder order) where
  -- Where a range over a map gives each entry once, a text is in StringSliceMinus exactly when it
  -- is in the left slice and not in the right one.
  pub in_array-string_slice_minus :
      (l r : List String) (x : String)
      → in_array (string_slice_minus order l r) x ≡ in_array l x && not (in_array r x)
  unfolding string_slice_minus in_array lookup
  in_array-string_slice_minus l r x =
      let old = delete_all (add_all [] l) r in
      ground (
        arith,
        minus_loop-in_array (order old) false [] x,
        any-perm (has_key x) (ranges old),
        any-has_key old x,
        delete_all-lookup (add_all [] l) r x,
        add_all-lookup [] l x,
      )

-- A text of a part of a list is in the list.
pub in_array-take :
    (n : ℕ) (l : List String) (x : String) → in_array (take n l) x ≡ true → in_array l x ≡ true
in_array-take n l x h =
    let split = in_array-append (take n l) (drop n l) x in
    ap (λ t. in_array t x) (sym (take-append-drop n l)) ∙ ground (arith, split)

pub in_array-drop :
    (n : ℕ) (l : List String) (x : String) → in_array (drop n l) x ≡ true → in_array l x ≡ true
in_array-drop n l x h =
    let split = in_array-append (take n l) (drop n l) x in
    ap (λ t. in_array t x) (sym (take-append-drop n l)) ∙ ground (arith, split)

-- No text stands twice.
abbrev pub Distinct : List String → Type 0
Distinct [] = Unit
Distinct (c ∷ cs) = (in_array cs c ≡ false) × Distinct cs
