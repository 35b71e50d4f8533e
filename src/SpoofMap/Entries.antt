-- ===== src/SpoofMap/Entries.antt =====
-- Register and Receive on the entries of the map.
use reverse_traceroute_publi.Base.{
  ℕ, ◌≡◌, ◌≢◌, inl, inr, refl, sym, ap, ◌∙◌, true, false, none, some, List, [], ◌∷◌, arith,
  if◌then◌else◌, ◌==◌, Option-cases, Bool-cases,
}
use reverse_traceroute_publi.SpoofMap.{
  id_in_use, Spoof, find, put, remove, is_old, register, receive,
}

module _ {V : Type 0} where
  pub find-put :
      (m : List (ℕ × V)) (k : ℕ) (v : V) (x : ℕ)
      → find (put m k v) x ≡ (if k == x then some v else find m x)
  unfolding find put
  find-put [] k v x = refl
  find-put ((j, w) ∷ m) k v x = ground (arith, find-put m k v x)

  pub find-remove :
      (m : List (ℕ × V)) (k x : ℕ) → find (remove m k) x ≡ (if k == x then none else find m x)
  unfolding find remove
  find-remove [] k x = ground arith
  find-remove ((j, w) ∷ m) k x = ground (arith, find-remove m k x)

  pub find-put_same :
      (m : List (ℕ × V)) (k : ℕ) (v : V) (x : ℕ) → k ≡ x → find (put m k v) x ≡ some v
  find-put_same m k v x e = find-put m k v x ∙ rw (the_same e) refl
    where
      the_same : k ≡ x → (k == x) ≡ true
      the_same h = ground arith

  pub find-put_other :
      (m : List (ℕ × V)) (k : ℕ) (v : V) (x : ℕ) → k ≢ x → find (put m k v) x ≡ find m x
  find-put_other m k v x e = find-put m k v x ∙ rw (the_other e) refl
    where
      the_other : k ≢ x → (k == x) ≡ false
      the_other h = ground arith

module _ {S P : Type 0} (spoof_id : S → ℕ) (probe_id : P → ℕ) where
  -- The entry of a spoof that was just registered.
  abbrev pub registered : ℕ → S → Spoof S P
  registered now sp = record { probe = none; t = now; spoof = sp }

  register-put :
      (now : ℕ) (spoofs : List (ℕ × Spoof S P)) (sp : S)
      → (register spoof_id now spoofs sp).1 ≡ none
      → (register spoof_id now spoofs sp).0 ≡ put spoofs (spoof_id sp) (registered now sp)
  unfolding register
  register-put now spoofs sp accepted = elim (Option-cases (find spoofs (spoof_id sp))) [
    | inl free ↦ rw (register, free) refl
    | inr (spf, used) ↦ elim (Bool-cases (is_old now spf.t)) [
      | inl old ↦ rw (register, used, old) refl
      | inr fresh ↦ absurd (refused (rw (register, used, fresh) at accepted))
    ]
  ]
    where
      refused : ¬ (some id_in_use ≡ none)
      refused h = ground arith

  receive-put :
      (spoofs : List (ℕ × Spoof S P)) (p : P) (e : Spoof S P)
      → find spoofs (probe_id p) ≡ some e
      → receive probe_id spoofs p ≡ (put spoofs (probe_id p) (record e { probe = some p }), none)
  unfolding receive
  receive-put spoofs p e h = rw (receive, h) refl

  -- Once Register accepted a spoof, Receive of a probe with its id succeeds and stores the probe
  -- with the spoof; no other entry changes.
  pub receive-register :
      (now : ℕ) (spoofs : List (ℕ × Spoof S P)) (sp : S) (p : P)
      → probe_id p ≡ spoof_id sp
      → (register spoof_id now spoofs sp).1 ≡ none
      → let spoofs' = (register spoof_id now spoofs sp).0 in
        ((receive probe_id spoofs' p).1 ≡ none)
        × (find (receive probe_id spoofs' p).0 (spoof_id sp)
            ≡ some (record (registered now sp) { probe = some p }))
        × ((other : ℕ)
            → other ≢ spoof_id sp
            → find (receive probe_id spoofs' p).0 other ≡ find spoofs other)
  receive-register now spoofs sp p same accepted =
      let spoofs' = (register spoof_id now spoofs sp).0 in
      let e = registered now sp in
      let put_in = register-put now spoofs sp accepted in
      let there : find spoofs' (probe_id p) ≡ some e =
        ap (λ m. find m (probe_id p)) put_in
        ∙ find-put_same spoofs (spoof_id sp) e (probe_id p) (sym same) in
      let got = receive-put spoofs' p e there in
      let with_probe : Spoof S P = record e { probe = some p } in
      (
        ap (λ r. r.1) got,
        ap (λ r. find r.0 (spoof_id sp)) got
            ∙ find-put_same spoofs' (probe_id p) with_probe (spoof_id sp) same,
        λ other apart.
            ap (λ r. find r.0 other) got
            ∙ find-put_other spoofs' (probe_id p) with_probe other (λ h. apart (sym h ∙ same))
            ∙ ap (λ m. find m other) put_in
            ∙ find-put_other spoofs (spoof_id sp) e other (λ h. apart (sym h)),
      )

  register-busy :
      (now : ℕ) (spoofs : List (ℕ × Spoof S P)) (sp : S) (e : Spoof S P)
      → find spoofs (spoof_id sp) ≡ some e
      → is_old now e.t ≡ false
      → register spoof_id now spoofs sp ≡ (spoofs, some id_in_use)
  unfolding register
  register-busy now spoofs sp e h fresh = rw (register, h, fresh) refl

  -- Once Register accepted a spoof, it refuses a spoof with the same id for a minute, and changes
  -- nothing.
  pub register-refused :
      (now later : ℕ) (spoofs : List (ℕ × Spoof S P)) (sp sp' : S)
      → spoof_id sp ≡ spoof_id sp'
      → (register spoof_id now spoofs sp).1 ≡ none
      → is_old later now ≡ false
      → register spoof_id later (register spoof_id now spoofs sp).0 sp'
        ≡ ((register spoof_id now spoofs sp).0, some id_in_use)
  register-refused now later spoofs sp sp' same accepted fresh =
      let e = registered now sp in
      let there =
        ap (λ m. find m (spoof_id sp')) (register-put now spoofs sp accepted)
        ∙ find-put_same spoofs (spoof_id sp) e (spoof_id sp') same in
      register-busy later (register spoof_id now spoofs sp).0 sp' e there fresh
