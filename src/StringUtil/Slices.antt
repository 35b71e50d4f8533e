-- ===== src/StringUtil/Slices.antt =====
-- StringSliceReverse, CloneStringSlice, StringSliceIndex and StringArrayEquals.
use mathlib.Core.List.{reverse, reverse-cons, append_assoc, append-nil}
use text.Mathlib.TextEquality.{eq_iff}
use reverse_traceroute_publi.Base.{
  ℕ, zero, suc, ◌+◌, ◌-◌, ◌≡◌, ◌↔◌, refl, sym, ap, ◌∙◌, String, true, false, none, some, List, [],
  ◌∷◌, ◌++◌, length, set, replicate, str_eq, arith, Bool-cases, inl, inr,
}
use reverse_traceroute_publi.StringUtil.{
  reverse_loop, string_slice_reverse, index_loop, string_slice_index, clone_loop,
  clone_string_slice, array_equals_loop, string_array_equals, in_array,
}

-- Writing just below the written tail.
set-replicate :
    (k : ℕ) (a v : String) (tail : List String)
    → set (replicate (suc k) a ++ tail) k v ≡ replicate k a ++ v ∷ tail
set-replicate zero a v tail = refl
set-replicate (suc k) a v tail = ap (◌∷◌ a) (set-replicate k a v tail)

reverse_loop-reverse :
    (n i : ℕ) (ss done : List String)
    → n ≡ i + length ss
    → reverse_loop n i ss (replicate (length ss) "" ++ done) ≡ reverse ss ++ done
unfolding reverse_loop
reverse_loop-reverse n i [] done h = refl
reverse_loop-reverse n i (s ∷ ss) done h =
    let at : n - i - 1 ≡ length ss = omega arith in
    rw (at, set-replicate, reverse-cons, append_assoc)
      (reverse_loop-reverse n (suc i) ss (s ∷ done) (omega arith))

-- StringSliceReverse is the reversed list.
string_slice_reverse-reverse : (ss : List String) → string_slice_reverse ss ≡ reverse ss
unfolding string_slice_reverse
string_slice_reverse-reverse ss =
    let path = reverse_loop-reverse (length ss) 0 ss [] (omega arith) in
    rw (append-nil, append-nil) at path

clone_loop-append : (ret ss : List String) → clone_loop ret ss ≡ ret ++ ss
unfolding clone_loop
clone_loop-append ret [] = sym (append-nil ret)
clone_loop-append ret (s ∷ ss) = clone_loop-append (ret ++ s ∷ []) ss ∙ append_assoc ret (s ∷ []) ss

pub clone_string_slice_lem : (ss : List String) → clone_string_slice ss ≡ ss
unfolding clone_string_slice
clone_string_slice_lem ss = clone_loop-append [] ss

array_equals_loop-eq :
    (l r : List String) → length l ≡ length r → array_equals_loop l r ≡ true → l ≡ r
unfolding array_equals_loop
array_equals_loop-eq [] [] e h = refl
array_equals_loop-eq [] (r ∷ rs) e h = absurd (omega arith)
array_equals_loop-eq (l ∷ ls) [] e h = absurd (omega arith)
array_equals_loop-eq (l ∷ ls) (r ∷ rs) e h = ground (arith, eq_iff l r, array_equals_loop-eq ls rs)

array_equals_loop_refl : (l : List String) → array_equals_loop l l ≡ true
unfolding array_equals_loop
array_equals_loop_refl [] = refl
array_equals_loop_refl (l ∷ ls) = ground (arith, eq_iff l l, array_equals_loop_refl ls)

pub string_array_equals-eq : (l r : List String) → string_array_equals l r ≡ true → l ≡ r
unfolding string_array_equals
string_array_equals-eq l r h = ground (arith, array_equals_loop-eq l r)

pub string_array_equals_refl : (l : List String) → string_array_equals l l ≡ true
unfolding string_array_equals
string_array_equals_refl l = ground (arith, array_equals_loop_refl l)

pub string_array_equals_iff : (l r : List String) → (string_array_equals l r ≡ true) ↔ (l ≡ r)
string_array_equals_iff l r = (string_array_equals-eq l r, λ e. rw e (string_array_equals_refl r))

-- `seg` stands at index `j`, and at no index below.
abbrev pub FirstAt : List String → String → ℕ → Type 0
FirstAt segs seg j =
    (before after : List String) × (segs ≡ before ++ seg ∷ after)
    × (length before ≡ j)
    × (in_array before seg ≡ false)

index_loop-some :
    (i : ℕ) (segs : List String) (seg : String) (j : ℕ)
    → index_loop i segs seg ≡ some j
    → (k : ℕ) × (j ≡ i + k) × FirstAt segs seg k
unfolding index_loop in_array
index_loop-some i [] seg j h = absurd (ground arith)
index_loop-some i (s ∷ segs) seg j h = elim (Bool-cases (str_eq s seg)) [
  | inl same ↦ (0, ground arith, ([], segs, ground (arith, eq_iff s seg), refl, refl))
  | inr other ↦
      let (k, e, at) = index_loop-some (suc i) segs seg j (rw (other, index_loop) at h) in
      let (before, after, split, len, fresh) = at in
      (suc k, omega arith, (s ∷ before, after, ap (◌∷◌ s) split, ap suc len, rw other fresh))
]

index_loop-none :
    (i : ℕ) (segs : List String) (seg : String)
    → index_loop i segs seg ≡ none
    → in_array segs seg ≡ false
unfolding index_loop in_array
index_loop-none i [] seg h = refl
index_loop-none i (s ∷ segs) seg h = ground (arith, index_loop-none (suc i) segs seg)

-- An index that StringSliceIndex returns is where the text first stands.
pub string_slice_index-FirstAt :
    (segs : List String) (seg : String) (j : ℕ)
    → string_slice_index segs seg ≡ some j
    → FirstAt segs seg j
unfolding string_slice_index
string_slice_index-FirstAt segs seg j h =
    let (k, e, at) = index_loop-some 0 segs seg j h in let same : j ≡ k = omega arith in rw same at

pub string_slice_index-none :
    (segs : List String) (seg : String)
    → string_slice_index segs seg ≡ none
    → in_array segs seg ≡ false
unfolding string_slice_index
string_slice_index-none segs seg h = index_loop-none 0 segs seg h
