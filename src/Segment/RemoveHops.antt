-- ===== src/Segment/RemoveHops.antt =====
-- RemoveHops, the loop removal: what is left of a segment, and when an error is returned.
use text.Mathlib.TextEquality.{eq_iff}
use reverse_traceroute_publi.Base.{
  ℕ, zero, suc, ◌+◌, ◌≤◌, ◌≡◌, ◌⊎◌, inl, inr, refl, sym, String, true, false, not, ◌&&◌, ◌||◌, List,
  [], ◌∷◌, ◌++◌, length, drop, str_eq, str_eq_refl, str_eq-eq, if◌then◌else◌, ltb, arith,
  Bool-cases,
}
use reverse_traceroute_publi.StringUtil.{in_array}
use reverse_traceroute_publi.StringUtil.Sets.{in_array-append}
use reverse_traceroute_publi.Segment.{
  null_hop, r_index_loop, r_index, max_index_loop, no_zeros_loop,
}

pub no_zeros_loop-in_array :
    (no_zeros to_del : List String) (x : String)
    → in_array (no_zeros_loop no_zeros to_del) x
      ≡ in_array no_zeros x || (not (str_eq x null_hop) && in_array to_del x)
unfolding no_zeros_loop in_array
no_zeros_loop-in_array no_zeros [] x = ground arith
no_zeros_loop-in_array no_zeros (ip ∷ to_del) x = ground (
  arith,
  eq_iff ip null_hop,
  eq_iff x null_hop,
  eq_iff ip x,
  in_array-append no_zeros (ip ∷ []) x,
  no_zeros_loop-in_array (if str_eq ip null_hop then no_zeros else no_zeros ++ ip ∷ []) to_del x,
)

pub empty_of_none : (l : List String) → ((x : String) → in_array l x ≡ false) → length l ≡ 0
unfolding in_array
empty_of_none [] h = refl
empty_of_none (x ∷ l) h = ground (arith, h x, str_eq_refl x)

pub none_of_empty : (l : List String) (x : String) → length l ≡ 0 → in_array l x ≡ false
unfolding in_array
none_of_empty [] x h = refl
none_of_empty (y ∷ l) x h = absurd (omega arith)

pub some_of_nonempty :
    (l : List String) → ltb 0 (length l) ≡ true → (x : String) × (in_array l x ≡ true)
unfolding in_array
some_of_nonempty [] h = absurd (ground arith)
some_of_nonempty (x ∷ l) h = (x, ground (arith, str_eq_refl x))

pub in_array-drop :
    (n : ℕ) (l : List String) (x : String) → in_array (drop n l) x ≡ true → in_array l x ≡ true
unfolding in_array
in_array-drop zero l x h = h
in_array-drop (suc n) [] x h = h
in_array-drop (suc n) (y ∷ l) x h = ground (arith, in_array-drop n l x)

module _ (cm : String → String) where
  r_index_loop-le :
      (i : ℕ) (ss : List String) (s : String) (index : ℕ)
      → index ≤ i
      → index ≤ r_index_loop cm i ss s index
  unfolding r_index_loop
  r_index_loop-le i [] s index h = omega arith
  r_index_loop-le i (st ∷ ss) s index h =
      ground (arith, r_index_loop-le (suc i) ss s (if str_eq (cm s) (cm st) then suc i else index))

  -- No hop past the last index of its cluster.
  r_index_loop-drop :
      (i : ℕ) (ss : List String) (s : String) (index end : ℕ)
      → index ≤ i
      → r_index_loop cm i ss s index ≤ i + end
      → in_array (drop end ss) s ≡ false
  unfolding r_index_loop in_array
  r_index_loop-drop i [] s index zero h k = refl
  r_index_loop-drop i [] s index (suc end) h k = refl
  r_index_loop-drop i (st ∷ ss) s index zero h k =
      let index' = if str_eq (cm s) (cm st) then suc i else index in
      ground (
        arith,
        str_eq-eq st s,
        str_eq_refl (cm s),
        r_index_loop-le (suc i) ss s index',
        r_index_loop-drop (suc i) ss s index' zero,
      )
  r_index_loop-drop i (st ∷ ss) s index (suc end) h k =
      let index' = if str_eq (cm s) (cm st) then suc i else index in
      r_index_loop-drop (suc i) ss s index' end (ground arith) (omega arith)

  pub r_index-drop :
      (ss : List String) (s : String) (end : ℕ)
      → r_index cm ss s ≤ end
      → in_array (drop end ss) s ≡ false
  unfolding r_index
  r_index-drop ss s end h = r_index_loop-drop 0 ss s 0 end (omega arith) (omega arith)

  r_index_loop-bound :
      (i : ℕ) (ss : List String) (s : String) (index : ℕ)
      → index ≤ i
      → r_index_loop cm i ss s index ≤ i + length ss
  unfolding r_index_loop
  r_index_loop-bound i [] s index h = omega arith
  r_index_loop-bound i (st ∷ ss) s index h =
      ground
        (arith, r_index_loop-bound (suc i) ss s (if str_eq (cm s) (cm st) then suc i else index))

  max_index_loop-le :
      (segment common : List String) (max_index : ℕ)
      → max_index ≤ max_index_loop cm segment common max_index
  unfolding max_index_loop
  max_index_loop-le segment [] m = omega arith
  max_index_loop-le segment (h ∷ common) m =
      let tmp = r_index cm segment h in
      ground (arith, max_index_loop-le segment common (if ltb m tmp then tmp else m))

  pub r_index-bound : (ss : List String) (s : String) → r_index cm ss s ≤ length ss
  unfolding r_index
  r_index-bound ss s = omega (arith, r_index_loop-bound 0 ss s 0)

  pub max_index_loop-member :
      (segment common : List String) (max_index : ℕ) (x : String)
      → in_array common x ≡ true
      → r_index cm segment x ≤ max_index_loop cm segment common max_index
  unfolding max_index_loop in_array
  max_index_loop-member segment [] m x h = absurd (ground arith)
  max_index_loop-member segment (h ∷ common) m x k =
      let tmp = r_index cm segment h in
      let m' = if ltb m tmp then tmp else m in
      elim (Bool-cases (str_eq h x)) [
        | inl same ↦ rw (← str_eq-eq h x same) (ground (arith, max_index_loop-le segment common m'))
        | inr other ↦ max_index_loop-member segment common m' x (rw (other, in_array) at k)
      ]

  -- Where the loop ends above its start, a common hop has that index.
  pub max_index_loop-reached :
      (segment common : List String) (max_index : ℕ)
      → (max_index_loop cm segment common max_index ≡ max_index)
        ⊎ ((x : String) × (in_array common x ≡ true)
            × (r_index cm segment x ≡ max_index_loop cm segment common max_index))
  unfolding max_index_loop in_array
  max_index_loop-reached segment [] m = inl refl
  max_index_loop-reached segment (h ∷ common) m =
      let tmp = r_index cm segment h in
      elim (Bool-cases (ltb m tmp)) [
        | inl above ↦ rw above (elim (max_index_loop-reached segment common tmp) [
          | inl start ↦ inr (h, ground (arith, str_eq_refl h), sym start)
          | inr (x, member, at) ↦ inr (x, ground arith, at)
        ])
        | inr below ↦ rw below (elim (max_index_loop-reached segment common m) [
          | inl start ↦ inl start
          | inr (x, member, at) ↦ inr (x, ground arith, at)
        ])
      ]
