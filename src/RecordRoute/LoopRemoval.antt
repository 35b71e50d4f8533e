-- ===== src/RecordRoute/LoopRemoval.antt =====
-- The loop removal of processRR ends, and leaves each cluster once.
use mathlib.Core.List.{append_assoc, append-nil, map-append}
use reverse_traceroute_publi.Base.{
  ℕ, zero, suc, ◌+◌, ◌-◌, ◌≤◌, ◌<◌, ◌≡◌, ◌⊎◌, inl, inr, refl, sym, ap, ◌∙◌, String, true, false,
  some, List, [], ◌∷◌, ◌++◌, map, length, length-append, get_elem?, ok, str_eq, str_eq-eq,
  str_eq_refl, if◌then◌else◌, ltb, arith, Bool-cases,
}
use reverse_traceroute_publi.StringUtil.{in_array}
use reverse_traceroute_publi.RecordRoute.{r_index_loop, string_slice_r_index, remove_loops}

module _ (cm : String → String) where
  -- `hops` with the loops at the level of clusters cut out: from each cluster the last hop is
  -- kept, and what stands between two hops of one cluster is dropped.
  pub data Unlooped : List String → List String → Type 0 where
    end : Unlooped [] []
    keep :
        (h : String) {rest r : List String}
        → in_array (map cm rest) (cm h) ≡ false
        → Unlooped rest r
        → Unlooped (h ∷ rest) (h ∷ r)
    cut :
        (first h : String) (between : List String) {hops rest r : List String}
        → hops ≡ first ∷ (between ++ h ∷ rest)
        → cm first ≡ cm h
        → in_array (map cm rest) (cm h) ≡ false
        → Unlooped rest r
        → Unlooped hops (h ∷ r)

  r_index_loop-append :
      (i : ℕ) (xs ys : List String) (c : String) (rindex : ℕ)
      → r_index_loop i (xs ++ ys) c rindex
        ≡ r_index_loop (i + length xs) ys c (r_index_loop i xs c rindex)
  unfolding r_index_loop
  r_index_loop-append i [] ys c rindex = ap (λ k. r_index_loop k ys c rindex) (omega arith)
  r_index_loop-append i (x ∷ xs) ys c rindex =
      let rindex' = if str_eq x c then suc i else rindex in
      let shift : suc i + length xs ≡ i + suc (length xs) = omega arith in
      r_index_loop-append (suc i) xs ys c rindex'
      ∙ ap (λ k. r_index_loop k ys c (r_index_loop (suc i) xs c rindex')) shift

  -- Where the index of a cluster is, in the clusters of `hs` from index `i`.
  r_index_loop-split :
      (i : ℕ) (hs : List String) (c : String) (rindex : ℕ)
      → ((r_index_loop i (map cm hs) c rindex ≡ rindex) × (in_array (map cm hs) c ≡ false))
        ⊎ ((before : List String) × (h : String) × (after : List String) × (hs
              ≡ before ++ h ∷ after)
            × (cm h ≡ c)
            × (in_array (map cm after) c ≡ false)
            × (r_index_loop i (map cm hs) c rindex ≡ suc (i + length before)))
  unfolding r_index_loop in_array
  r_index_loop-split i [] c rindex = inl (refl, refl)
  r_index_loop-split i (h ∷ hs) c rindex =
      let rindex' = if str_eq (cm h) c then suc i else rindex in
      elim (r_index_loop-split (suc i) hs c rindex') [
        | inr (before, h', after, split, same, fresh, at) ↦
            inr (h ∷ before, h', after, ap (◌∷◌ h) split, same, fresh, omega arith)
        | inl (at, fresh) ↦ elim (Bool-cases (str_eq (cm h) c)) [
          | inl here ↦ inr ([], h, hs, refl, str_eq-eq _ _ here, fresh, ground arith)
          | inr other ↦ inl (ground arith, rw other fresh)
        ]
      ]

  get_elem?-middle :
      {A : Type 0} (xs : List A) (y : A) (ys : List A)
      → get_elem? (xs ++ y ∷ ys) (length xs) ≡ some y
  get_elem?-middle [] y ys = refl
  get_elem?-middle (x ∷ xs) y ys = get_elem?-middle xs y ys

  length-map : (hs : List String) → length (map cm hs) ≡ length hs
  length-map [] = refl
  length-map (h ∷ hs) = ap suc (length-map hs)

  -- The index of the cluster of the hop behind `seen`.
  r_index-here :
      (seen : List String) (t : String) (ts : List String)
      → string_slice_r_index (map cm (seen ++ t ∷ ts)) (cm t)
        ≡ r_index_loop (suc (length seen)) (map cm ts) (cm t) (suc (length seen))
  unfolding string_slice_r_index r_index_loop
  r_index-here seen t ts =
      let found = r_index_loop 0 (map cm seen) (cm t) 0 in
      let start : 0 + length (map cm seen) ≡ length seen = omega (arith, length-map seen) in
      rw (map-append, r_index_loop-append 0 (map cm seen) (cm t ∷ map cm ts) (cm t) 0)
        (rw start (
          ap
            (λ b.
              r_index_loop (suc (length seen)) (map cm ts) (cm t)
                (if b then suc (length seen) else found))
            (str_eq_refl (cm t))))

  get_cluster :
      (seen : List String) (t : String) (ts : List String)
      → get_elem? (map cm (seen ++ t ∷ ts)) (length seen) ≡ some (cm t)
  get_cluster [] t ts = refl
  get_cluster (s ∷ seen) t ts = get_cluster seen t ts

  -- What one round does, once the index `ri` of the hop `h` to keep is known.
  round :
      (fuel : ℕ) (seen : List String) (t : String) (ts ret : List String) (n : ℕ) (h : String)
      → string_slice_r_index (map cm (seen ++ t ∷ ts)) (cm t) ≡ suc n
      → length seen ≤ n
      → get_elem? (seen ++ t ∷ ts) n ≡ some h
      → remove_loops (suc fuel) (map cm (seen ++ t ∷ ts)) (seen ++ t ∷ ts) (length seen) ret
        ≡ remove_loops fuel (map cm (seen ++ t ∷ ts)) (seen ++ t ∷ ts) (suc n) (ret ++ h ∷ [])
  unfolding remove_loops
  round fuel seen t ts ret n h at le found =
      let room : ltb (length seen) (length (map cm (seen ++ t ∷ ts))) ≡ true =
        ground (arith, length-map (seen ++ t ∷ ts), length-append seen (t ∷ ts)) in
      let on : ltb (length seen) (suc n) ≡ true = ground arith in
      let back : suc n - 1 ≡ n = omega arith in
      rw room (
        rw (get_cluster seen t ts) (
          rw at (
            rw (on, back)
              (rw found (
                ap
                  (λ k.
                    remove_loops fuel (map cm (seen ++ t ∷ ts)) (seen ++ t ∷ ts) k (ret ++ h ∷ []))
                  at)))))

  moved :
      (fuel : ℕ) (seen todo whole ret : List String) (n : ℕ)
      → whole ≡ seen ++ todo
      → n ≡ length seen
      → remove_loops fuel (map cm whole) whole n ret
        ≡ remove_loops fuel (map cm (seen ++ todo)) (seen ++ todo) (length seen) ret
  moved fuel seen todo whole ret n e f = rw (e, f)

  stop :
      (fuel : ℕ) (seen ret : List String)
      → remove_loops (suc fuel) (map cm (seen ++ [])) (seen ++ []) (length seen) ret
        ≡ some (ok (ret ++ []))
  unfolding remove_loops
  stop fuel seen ret =
      let full : ltb (length seen) (length (map cm seen)) ≡ false =
        ground (arith, length-map seen) in
      rw (append-nil, append-nil) (rw full)

  -- The loop from behind `seen`.
  pub remove_loops-Unlooped :
      (fuel : ℕ) (seen todo ret : List String)
      → length todo < fuel
      → (r : List String) × (remove_loops fuel
            (map cm (seen ++ todo))
            (seen ++ todo)
            (length seen)
            ret
          ≡ some (ok (ret ++ r)))
        × Unlooped todo r
  remove_loops-Unlooped zero seen todo ret lt = absurd (omega arith)
  remove_loops-Unlooped (suc fuel) seen [] ret lt = ([], stop fuel seen ret, end)
  remove_loops-Unlooped (suc fuel) seen (t ∷ ts) ret lt =
      elim (r_index_loop-split (suc (length seen)) ts (cm t) (suc (length seen))) [
        | inl (at, fresh) ↦
            let seen' = seen ++ t ∷ [] in
            let ret' = ret ++ t ∷ [] in
            let step =
              round fuel seen t ts ret (length seen) t (r_index-here seen t ts ∙ at) (omega arith)
                (get_elem?-middle seen t ts) in
            let on =
              moved fuel seen' ts (seen ++ t ∷ ts) ret' (suc (length seen))
                (sym (append_assoc seen (t ∷ []) ts))
                (omega (arith, length-append seen (t ∷ []))) in
            let (r, e, u) = remove_loops-Unlooped fuel seen' ts ret' (omega arith) in
            let out = ap (λ l. some (ok l)) (append_assoc ret (t ∷ []) r) in
            (t ∷ r, step ∙ on ∙ e ∙ out, keep t fresh u)
        | inr (before, h, after, split, same, fresh, at) ↦
            let mid = t ∷ before in
            let seen' = (seen ++ mid) ++ h ∷ [] in
            let ret' = ret ++ h ∷ [] in
            let whole : seen ++ t ∷ ts ≡ (seen ++ mid) ++ h ∷ after =
              ap (λ l. seen ++ t ∷ l) split ∙ sym (append_assoc seen mid (h ∷ after)) in
            let size = length-append seen mid in
            let found : get_elem? (seen ++ t ∷ ts) (length (seen ++ mid)) ≡ some h =
              rw whole (get_elem?-middle (seen ++ mid) h after) in
            let index : string_slice_r_index (map cm (seen ++ t ∷ ts)) (cm t)
                ≡ suc (length (seen ++ mid)) =
              r_index-here seen t ts ∙ at ∙ omega (arith, size) in
            let step =
              round fuel seen t ts ret (length (seen ++ mid)) h index (omega (arith, size)) found in
            let on =
              moved fuel seen' after (seen ++ t ∷ ts) ret' (suc (length (seen ++ mid)))
                (whole ∙ sym (append_assoc (seen ++ mid) (h ∷ []) after))
                (omega (arith, length-append (seen ++ mid) (h ∷ []))) in
            let shorter : length after < fuel =
              omega (arith, ap length split, length-append before (h ∷ after)) in
            let (r, e, u) = remove_loops-Unlooped fuel seen' after ret' shorter in
            let out = ap (λ l. some (ok l)) (append_assoc ret (h ∷ []) r) in
            (
              h ∷ r,
              step ∙ on ∙ e ∙ out,
              cut t h before (ap (◌∷◌ t) split) (sym same) (rw same fresh) u,
            )
      ]
