-- ===== src/Controller/Spoofs/Counts.antt =====
-- How many ids of the map wait on a channel.
use reverse_traceroute_publi.Base.{
  ℕ, zero, suc, ◌+◌, ◌≤◌, ◌≡◌, ◌≢◌, ◌⊎◌, refl, inl, inr, none, some, List, [], ◌∷◌, ◌++◌, length,
  set, get_elem?, if◌then◌else◌, ◌==◌, arith,
}
use reverse_traceroute_publi.SpoofMap.{find, put, remove}
use reverse_traceroute_publi.SpoofMap.Entries.{find-put}
use reverse_traceroute_publi.Controller.Spoofs.{Absent, Free, put_all, remove_all}

unfoldable pub count : List (ℕ × ℕ) → ℕ → ℕ
count [] c = 0
count ((id, d) ∷ m) c = if d == c then suc (count m c) else count m c

count-put :
    (m : List (ℕ × ℕ)) (k v c : ℕ)
    → find m k ≡ none
    → count (put m k v) c ≡ (if v == c then suc (count m c) else count m c)
unfolding count find put
count-put [] k v c h = ground arith
count-put ((j, w) ∷ m) k v c h = ground (arith, count-put m k v c)

pub count-remove_le : (m : List (ℕ × ℕ)) (k c : ℕ) → count (remove m k) c ≤ count m c
unfolding count remove
count-remove_le [] k c = ground arith
count-remove_le ((j, w) ∷ m) k c = ground (arith, count-remove_le m k c)

pub count-remove_found :
    (m : List (ℕ × ℕ)) (k c : ℕ) → find m k ≡ some c → suc (count (remove m k) c) ≤ count m c
unfolding count find remove
count-remove_found [] k c h = ground arith
count-remove_found ((j, w) ∷ m) k c h =
    ground (arith, count-remove_le m k c, count-remove_found m k c)

pub count-remove_all_le :
    (ids : List ℕ) (m : List (ℕ × ℕ)) (c : ℕ) → count (remove_all m ids) c ≤ count m c
unfolding remove_all
count-remove_all_le [] m c = omega arith
count-remove_all_le (id ∷ ids) m c =
    omega (arith, count-remove_le m id c, count-remove_all_le ids (remove m id) c)

put-Free :
    (ids : List ℕ) (m : List (ℕ × ℕ)) (id v : ℕ)
    → Absent id ids
    → Free m ids
    → Free (put m id v) ids
put-Free [] m id v apart h = tt
put-Free (id' ∷ ids) m id v (other, apart) (unused, once, free) =
    (ground (arith, find-put m id v id'), once, put-Free ids m id v apart free)

pub count-put_all :
    (ids : List ℕ) (m : List (ℕ × ℕ)) (v c : ℕ)
    → Free m ids
    → count (put_all m ids v) c ≡ (if v == c then count m c + length ids else count m c)
unfolding put_all
count-put_all [] m v c h = ground arith
count-put_all (id ∷ ids) m v c (unused, once, free) = ground (
  arith,
  count-put m id v c unused,
  count-put_all ids (put m id v) v c (put-Free ids m id v once free),
)

module _ {A : Type 0} where
  pub get_elem?-set :
      (xs : List A) (i j : ℕ) (v w : A)
      → get_elem? (set xs i v) j ≡ some w
      → ((i ≡ j) × (v ≡ w)) ⊎ ((i ≢ j) × (get_elem? xs j ≡ some w))
  get_elem?-set [] i j v w h = ground arith
  get_elem?-set (x ∷ xs) zero zero v w h = inl (refl, grind arith)
  get_elem?-set (x ∷ xs) zero (suc j) v w h = inr (ground arith, h)
  get_elem?-set (x ∷ xs) (suc i) zero v w h = inr (ground arith, h)
  get_elem?-set (x ∷ xs) (suc i) (suc j) v w h = ground (arith, get_elem?-set xs i j v w h)

  pub get_elem?-set_none :
      (xs : List A) (i j : ℕ) (v : A) → get_elem? (set xs i v) j ≡ none → get_elem? xs j ≡ none
  get_elem?-set_none [] i j v h = h
  get_elem?-set_none (x ∷ xs) zero zero v h = ground arith
  get_elem?-set_none (x ∷ xs) zero (suc j) v h = h
  get_elem?-set_none (x ∷ xs) (suc i) zero v h = ground arith
  get_elem?-set_none (x ∷ xs) (suc i) (suc j) v h = get_elem?-set_none xs i j v h

  pub get_elem?-append :
      (xs : List A) (v : A) (j : ℕ) (w : A)
      → get_elem? (xs ++ v ∷ []) j ≡ some w
      → ((j ≡ length xs) × (v ≡ w)) ⊎ ((j ≢ length xs) × (get_elem? xs j ≡ some w))
  get_elem?-append [] v zero w h = inl (refl, grind arith)
  get_elem?-append [] v (suc j) w h = ground arith
  get_elem?-append (x ∷ xs) v zero w h = inr (ground arith, h)
  get_elem?-append (x ∷ xs) v (suc j) w h = ground (arith, get_elem?-append xs v j w h)

  pub get_elem?-append_none :
      (xs : List A) (v : A) (j : ℕ)
      → get_elem? (xs ++ v ∷ []) j ≡ none
      → (j ≢ length xs) × (get_elem? xs j ≡ none)
  get_elem?-append_none [] v zero h = ground arith
  get_elem?-append_none [] v (suc j) h = (ground arith, refl)
  get_elem?-append_none (x ∷ xs) v zero h = ground arith
  get_elem?-append_none (x ∷ xs) v (suc j) h = ground (arith, get_elem?-append_none xs v j h)

  pub get_elem?-length : (xs : List A) → get_elem? xs (length xs) ≡ none
  get_elem?-length [] = refl
  get_elem?-length (x ∷ xs) = get_elem?-length xs
