-- ===== src/Segment/Select.antt =====
-- ndsrsSelectNonzeroHops: how many hops of the forward path are assumed symmetric.
use reverse_traceroute_publi.Base.{
  ℕ, zero, suc, ◌+◌, ◌≤◌, ◌<◌, ◌≡◌, ◌⊎◌, inl, inr, refl, ap, String, Bool, true, false, not, ◌&&◌,
  List, [], ◌∷◌, length, get_elem?, take, drop, some, Run, ok, panic, str_eq, if◌then◌else◌, ltb,
  ◌==◌, arith, Bool-cases,
}
use reverse_traceroute_publi.StringUtil.{in_array}
use reverse_traceroute_publi.Segment.{null_hop}
use reverse_traceroute_publi.Segment.Symmetric.{select_loop, last_valid, ndsrs_select_nonzero_hops}

-- A hop counts if it is neither null nor to be ignored.
abbrev pub counts : List String → String → Bool
counts ignore h = not (str_eq h null_hop) && not (in_array ignore h)

unfoldable pub count_valid : List String → List String → ℕ
count_valid ignore [] = 0
count_valid ignore (h ∷ tr) = (if counts ignore h then 1 else 0) + count_valid ignore tr

-- The hop at the index below `n`.
abbrev pub EndsIn : List String → ℕ → (String → Type 0) → Type 0
EndsIn tr n P = (k : ℕ) × (n ≡ suc k) × (h : String) × (get_elem? tr k ≡ some h) × P h

-- At the wanted number, or at the end.
abbrev Stop : List String → ℕ → List String → ℕ → ℕ → Type 0
Stop ignore wanted tr n got =
    ((got ≡ wanted) × ((n ≡ 0) ⊎ EndsIn tr n (λ h. counts ignore h ≡ true)))
    ⊎ ((got < wanted) × (n ≡ length tr))

-- Where the first loop stops: `n` hops further.
pub Stopped : List String → ℕ → ℕ → ℕ → List String → ℕ × ℕ → Type 0
Stopped ignore wanted i found tr r =
    (n : ℕ) × (r.0 ≡ i + n)
    × (n ≤ length tr)
    × (r.1 ≡ found + count_valid ignore (take n tr))
    × Stop ignore wanted tr n r.1

Stop-cons :
    (ignore : List String) (wanted found : ℕ) (h : String) (tr : List String) (n got : ℕ)
    → found < wanted
    → got ≡ (if counts ignore h then found + 1 else found) + count_valid ignore (take n tr)
    → Stop ignore wanted tr n got
    → Stop ignore wanted (h ∷ tr) (suc n) got
unfolding count_valid
Stop-cons ignore wanted found h tr n got lt sum (inl (e, inl z)) =
    inl
      (e, inr (0, omega arith, h, refl, ground (arith, ap (λ k. count_valid ignore (take k tr)) z)))
Stop-cons ignore wanted found h tr n got lt sum (inl (e, inr (k, z, x, at, c))) =
    inl (e, inr (suc k, omega arith, x, at, c))
Stop-cons ignore wanted found h tr n got lt sum (inr (l, e)) = inr (l, omega arith)

Stopped-cons :
    (ignore : List String) (wanted i found : ℕ) (h : String) (tr : List String) (r : ℕ × ℕ)
    → found < wanted
    → Stopped ignore wanted (i + 1) (if counts ignore h then found + 1 else found) tr r
    → Stopped ignore wanted i found (h ∷ tr) r
unfolding Stopped count_valid
Stopped-cons ignore wanted i found h tr r lt (n, at, len, sum, stop) = (
  suc n,
  omega arith,
  omega arith,
  ground arith,
  Stop-cons ignore wanted found h tr n r.1 lt sum stop,
)

select_loop-Stopped :
    (wanted : ℕ) (ignore : List String) (i found : ℕ) (tr : List String)
    → found ≤ wanted
    → Stopped ignore wanted i found tr (select_loop wanted ignore i found tr)
unfolding select_loop Stopped count_valid
select_loop-Stopped wanted ignore i found [] h = elim (Bool-cases (ltb found wanted)) [
  | inl more ↦ (0, omega arith, omega arith, omega arith, inr (ground arith, refl))
  | inr done ↦ (0, omega arith, omega arith, omega arith, inl (ground arith, inl refl))
]
select_loop-Stopped wanted ignore i found (h ∷ tr) le = elim (Bool-cases (ltb found wanted)) [
  | inr done ↦ rw done (0, omega arith, omega arith, omega arith, inl (ground arith, inl refl))
  | inl more ↦
      let found' = if counts ignore h then found + 1 else found in
      rw more (
        Stopped-cons ignore wanted i found h tr (select_loop wanted ignore (i + 1) found' tr)
          (ground arith) (select_loop-Stopped wanted ignore (i + 1) found' tr (ground arith)))
]

abbrev pub all_null : List String → Bool
all_null [] = true
all_null (h ∷ hs) = str_eq h null_hop && all_null hs

count_valid-take :
    (ignore : List String) (n : ℕ) (tr : List String)
    → count_valid ignore (take n tr) ≤ count_valid ignore tr
unfolding count_valid
count_valid-take ignore zero tr = omega arith
count_valid-take ignore (suc n) [] = omega arith
count_valid-take ignore (suc n) (h ∷ tr) = omega (arith, count_valid-take ignore n tr)

take_all : (tr : List String) → take (length tr) tr ≡ tr
take_all [] = refl
take_all (h ∷ tr) = ap (◌∷◌ h) (take_all tr)

get_elem?_below :
    (tr : List String) (n : ℕ) → n < length tr → (h : String) × (get_elem? tr n ≡ some h)
get_elem?_below [] n lt = absurd (omega arith)
get_elem?_below (h ∷ tr) zero lt = (h, refl)
get_elem?_below (h ∷ tr) (suc n) lt = get_elem?_below tr n (omega arith)

-- One hop more.
all_null-drop-take :
    (m n : ℕ) (tr : List String) (h : String)
    → m ≤ n
    → get_elem? tr n ≡ some h
    → all_null (drop m (take (suc n) tr)) ≡ all_null (drop m (take n tr)) && str_eq h null_hop
all_null-drop-take m n [] h le at = absurd (ground arith)
all_null-drop-take zero zero (x ∷ tr) h le at = ground arith
all_null-drop-take zero (suc n) (x ∷ tr) h le at =
    ground (arith, all_null-drop-take zero n tr h (omega arith) at)
all_null-drop-take (suc m) zero (x ∷ tr) h le at = absurd (omega arith)
all_null-drop-take (suc m) (suc n) (x ∷ tr) h le at = all_null-drop-take m n tr h (omega arith) at

drop-take_self : (n : ℕ) (tr : List String) → all_null (drop n (take n tr)) ≡ true
drop-take_self zero tr = refl
drop-take_self (suc n) [] = refl
drop-take_self (suc n) (x ∷ tr) = drop-take_self n tr

-- The second loop stops behind the last hop that is not null, and panics if there is none.
abbrev Last : List String → ℕ → Run ℕ → Type 0
Last tr n r =
    ((all_null (take n tr) ≡ true) × (r ≡ panic))
    ⊎ ((m : ℕ) × (r ≡ ok m)
        × (m ≤ n)
        × EndsIn tr m (λ h. str_eq h null_hop ≡ false)
        × (all_null (drop m (take n tr)) ≡ true))

Last-null :
    (tr : List String) (n : ℕ) (h : String) (r : Run ℕ)
    → get_elem? tr n ≡ some h
    → str_eq h null_hop ≡ true
    → Last tr n r
    → Last tr (suc n) r
Last-null tr n h r at null (inl (all, e)) = inl (ground (arith, all_null-drop-take 0 n tr h), e)
Last-null tr n h r at null (inr (m, e, le, ends, rest)) =
    inr (m, e, omega arith, ends, ground (arith, all_null-drop-take m n tr h))

last_valid-Last : (tr : List String) (n : ℕ) → n ≤ length tr → Last tr n (last_valid tr n)
unfolding last_valid
last_valid-Last tr zero le = inl (refl, refl)
last_valid-Last tr (suc n) le =
    let (h, at) = get_elem?_below tr n (omega arith) in
    elim (Bool-cases (str_eq h null_hop)) [
      | inl null ↦
          rw (at, last_valid, null)
            (Last-null tr n h (last_valid tr n) at null (last_valid-Last tr n (omega arith)))
      | inr valid ↦
          rw (at, last_valid, valid)
            (inr (suc n, refl, omega arith, (n, refl, h, at, valid), drop-take_self (suc n) tr))
    ]

module _ (tr : List String) (wanted : ℕ) (ignore : List String) where
  -- With enough hops that count, ndsrsSelectNonzeroHops selects the shortest front part of the
  -- path with the wanted number of them.
  pub select_enough :
      wanted ≤ count_valid ignore tr
      → (n : ℕ) × (ndsrs_select_nonzero_hops tr wanted ignore ≡ ok (take n tr))
        × (count_valid ignore (take n tr) ≡ wanted)
        × ((n ≡ 0) ⊎ EndsIn tr n (λ h. counts ignore h ≡ true))
  unfolding ndsrs_select_nonzero_hops Stopped
  select_enough le =
      let r = select_loop wanted ignore 0 0 tr in
      let (n, at, len, sum, stop) = select_loop-Stopped wanted ignore 0 0 tr (omega arith) in
      elim stop [
        | inl (got, ends) ↦ (n, ground arith, omega arith, ends)
        | inr (short, all) ↦
            absurd (ground (arith, take_all tr, ap (λ k. count_valid ignore (take k tr)) all))
      ]

  -- With too few hops that count, ndsrsSelectNonzeroHops selects up to the last hop that is not
  -- null, and panics when there is none.
  select_short :
      count_valid ignore tr < wanted
      → ((all_null tr ≡ true) × (ndsrs_select_nonzero_hops tr wanted ignore ≡ panic))
        ⊎ ((n : ℕ) × (ndsrs_select_nonzero_hops tr wanted ignore ≡ ok (take n tr))
            × EndsIn tr n (λ h. str_eq h null_hop ≡ false)
            × (all_null (drop n tr) ≡ true))
  unfolding ndsrs_select_nonzero_hops Stopped
  select_short lt =
      let r = select_loop wanted ignore 0 0 tr in
      let (n, at, len, sum, stop) = select_loop-Stopped wanted ignore 0 0 tr (omega arith) in
      let few : (r.1 == wanted) ≡ false = ground (arith, count_valid-take ignore n tr) in
      let whole = take_all tr in
      elim (last_valid-Last tr (length tr) (omega arith)) [
        | inl (all, e) ↦ inl (rw whole at all, rw (few, e))
        | inr (m, e, le, ends, rest) ↦ inr (m, rw (few, e), ends, rw whole at rest)
      ]
