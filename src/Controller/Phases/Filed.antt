-- ===== src/Controller/Phases/Filed.antt =====
-- What is left of the measurements is filed by the service, and what the lookups give.
use reverse_traceroute_publi.Base.{
  ℕ, String, ◌≡◌, ◌⊎◌, inl, inr, refl, sym, ap, ◌∙◌, Bool, some, List, [], ◌∷◌, ◌++◌, lookup,
  insert, str_eq, str_eq-eq, Bool-cases, Option-cases, arith, lookup-insert,
}
use reverse_traceroute_publi.Controller.Backend.{Backend, Reply, refused, given}
use reverse_traceroute_publi.Controller.Phases.{
  file_by, file_loop, found_loop, found_items, key_loop,
}
use reverse_traceroute_publi.Controller.Phases.Kept.{Any, In, Any-front, Any-last}

pub Reply-cases :
    {A : Type 0} (r : Reply A) → ((err : String) × (r ≡ refused err)) ⊎ ((a : A) × (r ≡ given a))
Reply-cases (refused err) = inl (err, refl)
Reply-cases (given a) = inr (a, refl)

module _ {M S : Type 0} (same_service : S → S → Bool) (P : M → Type 0) where
  pub file_by-new :
      (mts : List (S × List M)) (s : S) (m : M)
      → P m
      → Any (λ b. Any P b.1) (file_by same_service mts s m)
  unfolding file_by
  file_by-new [] s m h = inl (inl h)
  file_by-new ((s', ms) ∷ mts) s m h = elim (Bool-cases (same_service s' s)) [
    | inl same ↦ rw same (inl (Any-last P ms m h))
    | inr other ↦ rw other (inr (file_by-new mts s m h))
  ]

  pub file_by-Any :
      (mts : List (S × List M)) (s : S) (m : M)
      → Any (λ b. Any P b.1) mts
      → Any (λ b. Any P b.1) (file_by same_service mts s m)
  unfolding file_by
  file_by-Any [] s m h = elim h [ ]
  file_by-Any ((s', ms) ∷ mts) s m (inl here) = elim (Bool-cases (same_service s' s)) [
    | inl same ↦ rw same (inl (Any-front P ms _ here))
    | inr other ↦ rw other (inl here)
  ]
  file_by-Any ((s', ms) ∷ mts) s m (inr there) = elim (Bool-cases (same_service s' s)) [
    | inl same ↦ rw same (inr there)
    | inr other ↦ rw other (inr (file_by-Any mts s m there))
  ]

module _ {W M R S T : Type 0} (be : Backend W M R S T) where
  -- A batch has the measurement.
  abbrev pub Filed : M → List (S × List M) → Type 0
  Filed m = Any (λ b. In m b.1)

  module _ (source : M → String) (error_result : M → String → R) where
    -- The measurement has an error for a result, or is in a batch.
    abbrev pub Outcome : M → List (S × List M) → List R → Type 0
    Outcome m mts errors = Any (λ r. (err : String) × (r ≡ error_result m err)) errors ⊎ Filed m mts

    file_loop-refused :
        (m : M) (ms : List M) (mts : List (S × List M)) (errors : List R) (w : W) (err : String)
        → (be.get_service (source m) w).1 ≡ refused err
        → file_loop be source error_result (m ∷ ms) mts errors w
          ≡ file_loop be source error_result ms mts
              (errors ++ error_result m err ∷ [])
              (be.get_service (source m) w).0
    unfolding file_loop
    file_loop-refused m ms mts errors w err is = rw (file_loop, is) refl

    file_loop-given :
        (m : M) (ms : List M) (mts : List (S × List M)) (errors : List R) (w : W) (s : S)
        → (be.get_service (source m) w).1 ≡ given s
        → file_loop be source error_result (m ∷ ms) mts errors w
          ≡ file_loop be source error_result ms
              (file_by be.same_service mts s m)
              errors
              (be.get_service (source m) w).0
    unfolding file_loop
    file_loop-given m ms mts errors w s is = rw (file_loop, is) refl

    file_loop-Outcome :
        (ms : List M) (mts : List (S × List M)) (errors : List R) (w : W) (m : M)
        → Outcome m mts errors
        → let done = file_loop be source error_result ms mts errors w in Outcome m done.1 done.2
    unfolding file_loop
    file_loop-Outcome [] mts errors w m h = h
    file_loop-Outcome (m' ∷ ms) mts errors w m h =
        let w1 = (be.get_service (source m') w).0 in
        elim (Reply-cases (be.get_service (source m') w).1) [
          | inl (err, is) ↦ rw (file_loop-refused m' ms mts errors w err is) (
              file_loop-Outcome ms mts (errors ++ error_result m' err ∷ []) w1 m
                (after_error err h))
          | inr (s, is) ↦ rw (file_loop-given m' ms mts errors w s is) (
              file_loop-Outcome ms (file_by be.same_service mts s m') errors w1 m
                (after_filing s h))
        ]
      where
        after_error :
            (err : String)
            → Outcome m mts errors
            → Outcome m mts (errors ++ error_result m' err ∷ [])
        after_error err (inl e) = inl (Any-front _ errors _ e)
        after_error err (inr f) = inr f

        after_filing :
            (s : S) → Outcome m mts errors → Outcome m (file_by be.same_service mts s m') errors
        after_filing s (inl e) = inl e
        after_filing s (inr f) = inr (file_by-Any be.same_service _ mts s m' f)

    pub file_loop-In :
        (ms : List M) (mts : List (S × List M)) (errors : List R) (w : W) (m : M)
        → In m ms
        → let done = file_loop be source error_result ms mts errors w in Outcome m done.1 done.2
    unfolding file_loop
    file_loop-In [] mts errors w m h = elim h [ ]
    file_loop-In (m' ∷ ms) mts errors w m (inl here) =
        let w1 = (be.get_service (source m') w).0 in
        elim (Reply-cases (be.get_service (source m') w).1) [
          | inl (err, is) ↦ rw (file_loop-refused m' ms mts errors w err is) (
              file_loop-Outcome ms mts (errors ++ error_result m' err ∷ []) w1 m
                (inl (Any-last _ errors _ (err, ap (λ x. error_result x err) here))))
          | inr (s, is) ↦ rw (file_loop-given m' ms mts errors w s is) (
              file_loop-Outcome ms (file_by be.same_service mts s m') errors w1 m
                (inr (rw (sym here) (file_by-new be.same_service _ mts s m' refl))))
        ]
    file_loop-In (m' ∷ ms) mts errors w m (inr there) =
        let w1 = (be.get_service (source m') w).0 in
        elim (Reply-cases (be.get_service (source m') w).1) [
          | inl (err, is) ↦
              rw (file_loop-refused m' ms mts errors w err is)
                (file_loop-In ms mts (errors ++ error_result m' err ∷ []) w1 m there)
          | inr (s, is) ↦
              rw (file_loop-given m' ms mts errors w s is)
                (file_loop-In ms (file_by be.same_service mts s m') errors w1 m there)
        ]

  -- An item of the cache for the key that reads as the result.
  abbrev pub CacheGave : List (String × List ℕ) → String → R → Type 0
  CacheGave items k p = Any (λ e. (e.0 ≡ k) × (be.unmarshal e.1 ≡ some p)) items

  found_loop-CacheGave :
      (items : List (String × List ℕ)) (found : List (String × R)) (k : String) (p : R)
      → lookup (found_loop be found items) k ≡ some p
      → (lookup found k ≡ some p) ⊎ CacheGave items k p
  unfolding found_loop
  found_loop-CacheGave [] found k p h = inl h
  found_loop-CacheGave ((j, item) ∷ items) found k p h = elim (Option-cases (be.unmarshal item)) [
    | inl bad ↦ elim (found_loop-CacheGave items found k p (rw (found_loop, bad) at h)) [
      | inl e ↦ inl e
      | inr gave ↦ inr (inr gave)
    ]
    | inr (q, is) ↦
        elim (found_loop-CacheGave items (insert found j q) k p (rw (found_loop, is) at h)) [
          | inl e ↦ elim (Bool-cases (str_eq j k)) [
            | inl same ↦
                inr (inl (str_eq-eq j k same, is ∙ grind (arith, lookup-insert found j q k)))
            | inr other ↦ inl (grind (arith, lookup-insert found j q k))
          ]
          | inr gave ↦ inr (inr gave)
        ]
  ]

  pub found_items-CacheGave :
      (items : List (String × List ℕ)) (k : String) (p : R)
      → lookup (found_items be (some items)) k ≡ some p
      → CacheGave items k p
  unfolding found_items lookup
  found_items-CacheGave items k p h = elim (found_loop-CacheGave items [] k p h) [
    | inl e ↦ absurd (grind arith)
    | inr gave ↦ gave
  ]

module _ {R : Type 0} (result_key : R → String) where
  -- Each result stands under its own key.
  abbrev pub Own : List (String × R) → Type 0
  Own found = (j : String) (q : R) → lookup found j ≡ some q → result_key q ≡ j

  insert-Own : (found : List (String × R)) (q : R) → Own found → Own (insert found (result_key q) q)
  insert-Own found q own j r e =
      grind (arith, lookup-insert found (result_key q) q j, str_eq-eq (result_key q) j, own j r)

  pub key_loop-Own :
      (found : List (String × R)) (ps : List R) → Own found → Own (key_loop result_key found ps)
  unfolding key_loop
  key_loop-Own found [] own = own
  key_loop-Own found (q ∷ ps) own =
      key_loop-Own (insert found (result_key q) q) ps (insert-Own found q own)
