-- ===== src/Controller/Phases/Served.antt =====
-- The lookups lose no measurement.
use reverse_traceroute_publi.Base.{
  ℕ, String, ◌≡◌, ◌⊎◌, inl, inr, refl, Bool, Option, none, some, List, [], ◌∷◌, ◌++◌, lookup, map,
  Bool-cases, Option-cases, arith,
}
use reverse_traceroute_publi.Controller.Backend.{Backend}
use reverse_traceroute_publi.Controller.Phases.{
  Asked, no_asked, ask_loop, Progress, answer_loop, found_items, check_cache, check_cache_for,
  look_up,
}
use reverse_traceroute_publi.Controller.Phases.Kept.{
  Any-map, Any, Any-front, Kept, Answered, ask_loop-Kept, answer_loop-Of, answer_loop-Answered,
}
use reverse_traceroute_publi.Controller.Phases.Filed.{CacheGave, found_items-CacheGave}

module _ {M R : Type 0} (P : R → Type 0) (found : List (String × R)) where
  answer_loop-missing :
      (k : String) (m : M) (entries : List (String × M)) (acc : Progress M R)
      → lookup found k ≡ none
      → answer_loop found ((k, m) ∷ entries) acc
        ≡ answer_loop found entries (record acc { remaining = acc.remaining ++ m ∷ [] })
  unfolding answer_loop
  answer_loop-missing k m entries acc missing = rw (answer_loop, missing) refl

  answer_loop-found :
      (k : String) (m : M) (entries : List (String × M)) (acc : Progress M R) (p : R)
      → lookup found k ≡ some p
      → answer_loop found ((k, m) ∷ entries) acc
        ≡ answer_loop found entries (record acc { sent = acc.sent ++ p ∷ [] })
  unfolding answer_loop
  answer_loop-found k m entries acc p is = rw (answer_loop, is) refl

  -- What is sent stays sent.
  answer_loop-sent :
      (entries : List (String × M)) (acc : Progress M R)
      → Any P acc.sent
      → Any P (answer_loop found entries acc).sent
  unfolding answer_loop
  answer_loop-sent [] acc h = h
  answer_loop-sent ((k, m) ∷ entries) acc h = elim (Option-cases (lookup found k)) [
    | inl missing ↦
        rw (answer_loop-missing k m entries acc missing)
          (answer_loop-sent entries (record acc { remaining = acc.remaining ++ m ∷ [] }) h)
    | inr (p, is) ↦ rw (answer_loop-found k m entries acc p is) (
        answer_loop-sent entries (record acc { sent = acc.sent ++ p ∷ [] })
          (Any-front P acc.sent _ h))
  ]

module _ {W M R S T : Type 0} (be : Backend W M R S T) where
  -- A range over a map misses no entry.
  abbrev pub Visits : Type 1
  Visits = (A : Type 0) (P : A → Type 0) (xs : List A) → Any P xs → Any P (be.order xs)

  -- The items that the cache gave for the keys.
  unfoldable pub cache_items : List String → W → List (String × List ℕ)
  cache_items keys w = elim (be.get_multi keys w).1 [ none ↦ [] | some items ↦ items ]

  check_cache-CacheGave :
      (keys : List String) (w : W) (k : String) (p : R)
      → lookup (check_cache_for be keys w).1 k ≡ some p
      → CacheGave be (cache_items keys w) k p
  unfolding check_cache_for check_cache cache_items lookup found_items
  check_cache-CacheGave [] w k p h = absurd (grind arith)
  check_cache-CacheGave (j ∷ keys) w k p h =
      elim (Bool-cases (be.is_done (be.get_multi (j ∷ keys) w).0).1) [
        | inl done ↦ absurd (grind arith)
        | inr goes_on ↦ elim (Option-cases (be.get_multi (j ∷ keys) w).1) [
          | inl failed ↦
              absurd
                (not_found (rw (check_cache_for, check_cache, goes_on, failed, found_items) at h))
          | inr (items, gave) ↦
              rw (cache_items, gave)
                (found_items-CacheGave be items k p
                  (rw (check_cache_for, check_cache, goes_on, gave) at h))
        ]
      ]
    where
      not_found : Path (Option R) none (some p) → ⊥
      not_found e = grind arith

  module _ (key : M → String) (result_key : R → String) (may_ask_cache may_ask_db : M → Bool)
      (check_db : List M → W → W × List (String × R)) (may_cache : R → Bool) where
    -- The keys that the cache is asked for.
    abbrev pub cache_keys : List M → List String
    cache_keys ms = map key (ask_loop key may_ask_cache no_asked ms).asked

    abbrev pub AnswerFor : List M → W → String → R → Type 0
    AnswerFor ms w k p = CacheGave be (cache_items (cache_keys ms) w) k p ⊎ (result_key p ≡ k)

    pub look_up-Kept :
        (ms : List M) (w : W) (k : String)
        → Visits
        → ((check : List M) (w' : W) (j : String) (p : R)
            → lookup (check_db check w').1 j ≡ some p
            → result_key p ≡ j)
        → Kept key k ms
        → let known = (look_up be key may_ask_cache may_ask_db check_db may_cache ms w).1 in
          Any (AnswerFor ms w k) known.sent ⊎ Kept key k known.remaining
    unfolding look_up
    look_up-Kept ms w k visits own h =
        let cache = ask_loop key may_ask_cache no_asked ms in
        let checked = check_cache_for be (map key cache.asked) w in
        let acc : Progress M R = record { sent = []; remaining = cache.remaining } in
        let cached = answer_loop checked.1 (be.order cache.by_key) acc in
        let cached_or_left : Answered key checked.1 k cached =
          elim (ask_loop-Kept key may_ask_cache no_asked ms k h) [
            | inl of ↦ answer_loop-Of key checked.1 (be.order cache.by_key) acc k (visits _ _ _ of)
            | inr left ↦ answer_loop-Answered key checked.1 (be.order cache.by_key) acc k (inr left)
          ] in
        let db = ask_loop key may_ask_db no_asked cached.remaining in
        let dbs = check_db db.asked checked.0 in
        let entries = be.order db.by_key in
        let acc2 : Progress M R = record { sent = cached.sent; remaining = db.remaining } in
        elim cached_or_left [
          | inl sent ↦ inl (
              answer_loop-sent (AnswerFor ms w k) dbs.1 entries acc2 (
                Any-map cached.sent
                  (λ p is. inl (check_cache-CacheGave (map key cache.asked) w k p is)) sent))
          | inr left ↦ elim (ask_loop-Kept key may_ask_db no_asked cached.remaining k left) [
            | inl of ↦
                in_db db dbs entries acc2 (own db.asked checked.0)
                  (answer_loop-Of key dbs.1 entries acc2 k (visits _ _ _ of))
            | inr still ↦
                in_db db dbs entries acc2 (own db.asked checked.0)
                  (answer_loop-Answered key dbs.1 entries acc2 k (inr still))
          ]
        ]
      where
        in_db :
            (db : Asked M) (dbs : W × List (String × R)) (entries : List (String × M))
            (acc2 : Progress M R)
            → ((j : String) (p : R) → lookup dbs.1 j ≡ some p → result_key p ≡ j)
            → Answered key dbs.1 k (answer_loop dbs.1 entries acc2)
            → Any (AnswerFor ms w k) (answer_loop dbs.1 entries acc2).sent
              ⊎ Kept key k (answer_loop dbs.1 entries acc2).remaining
        in_db db dbs entries acc2 own_dbs (inl sent) =
            inl (Any-map _ (λ p is. inr (own_dbs k p is)) sent)
        in_db db dbs entries acc2 own_dbs (inr left) = inr left
