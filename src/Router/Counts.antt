-- ===== src/Router/Counts.antt =====
-- The counts of the users.
use reverse_traceroute_publi.Base.{
  ℕ, ◌+◌, ◌-◌, ◌%◌, ◌^◌, ◌<◌, ◌≡◌, refl, sym, ap, ◌∙◌, String, false, Option, none, some, lookup,
  insert, lookup-insert, str_eq, str_eq_refl, Option-cases, arith, inl, inr,
}
use reverse_traceroute_publi.Router.{
  ServiceDef, service_key, MtCacheItem, MtCache, create, get_mt, close,
}

abbrev pub users : {M : Type 0} → MtCache M → String → ℕ
users cache k = elim (lookup cache k) [ none ↦ 0 | some item ↦ item.ref_count ]

dropped : (n : ℕ) → n < 2 ^ 32 → ((n + 1) % 2 ^ 32 + (2 ^ 32 - 1)) % 2 ^ 32 ≡ n
dropped n small = omega arith

users-lookup :
    {M : Type 0} (cache : MtCache M) (k : String) (o : Option (MtCacheItem M))
    → lookup cache k ≡ o
    → users cache k ≡ elim o [ none ↦ 0 | some item ↦ item.ref_count ]
users-lookup cache k o e = ap (λ x. elim x [ none ↦ 0 | some item ↦ item.ref_count ]) e

module _ {W M : Type 0} (create_plmt : ServiceDef → W → W × Option M) (close_conn : M → W → W) where
  -- What a Close after a GetMT leaves, when the item of the tool is `item`.
  abbrev pub Back : ServiceDef → MtCache M → W × MtCache M × Option M → M → Type 0
  Back s cache opened mt =
      (close close_conn s mt opened.1 opened.0).0 ≡ opened.0
      × (users (close close_conn s mt opened.1 opened.0).1 (service_key s)
          ≡ users cache (service_key s))
      × ((k : String)
          → str_eq (service_key s) k ≡ false
          → lookup (close close_conn s mt opened.1 opened.0).1 k ≡ lookup cache k)

  lookup-own :
      (s : ServiceDef) (cache : MtCache M) (item : MtCacheItem M)
      → lookup (insert cache (service_key s) item) (service_key s) ≡ some item
  lookup-own s cache item =
      rw (lookup-insert cache (service_key s) item (service_key s), str_eq_refl (service_key s))
        refl

  close-item :
      (s : ServiceDef) (cache : MtCache M) (w : W) (item : MtCacheItem M) (mt : M)
      → lookup cache (service_key s) ≡ some item
      → close close_conn s mt cache w ≡ (
        w,
        insert cache
            (service_key s)
            (record item { ref_count = (item.ref_count + (2 ^ 32 - 1)) % 2 ^ 32 }),
      )
  unfolding close
  close-item s cache w item mt e = rw (close, e) refl

  Back-insert :
      (s : ServiceDef) (cache : MtCache M) (w : W) (item : MtCacheItem M) (mt : M)
      → (item.ref_count + (2 ^ 32 - 1)) % 2 ^ 32 ≡ users cache (service_key s)
      → Back s cache (w, insert cache (service_key s) item, some item.mt) mt
  Back-insert s cache w item mt count =
      let shut =
        close-item s (insert cache (service_key s) item) w item mt (lookup-own s cache item) in
      let fewer : MtCacheItem M = record item {
        ref_count = (item.ref_count + (2 ^ 32 - 1)) % 2 ^ 32;
      } in
      let opened = insert cache (service_key s) item in
      (
        ap (λ r. r.0) shut,
        ap (λ r. users r.1 (service_key s)) shut
            ∙ users-lookup (insert opened (service_key s) fewer) (service_key s) (some fewer)
                (lookup-own s opened fewer)
            ∙ count,
        λ k other.
            ap (λ r. lookup r.1 k) shut
            ∙ (rw
                (
                  lookup-insert opened (service_key s) fewer k,
                  lookup-insert cache (service_key s) item k,
                  other,
                )
                refl),
      )

  get_mt-cached :
      (s : ServiceDef) (cache : MtCache M) (w : W) (item : MtCacheItem M)
      → lookup cache (service_key s) ≡ some item
      → get_mt create_plmt s cache w ≡ (
        w,
        insert cache (service_key s) (record item { ref_count = (item.ref_count + 1) % 2 ^ 32 }),
        some item.mt,
      )
  unfolding get_mt
  get_mt-cached s cache w item e = rw (get_mt, e) refl

  get_mt-made :
      (s : ServiceDef) (cache : MtCache M) (w : W) (mt : M)
      → lookup cache (service_key s) ≡ none
      → (create create_plmt s w).1 ≡ some mt
      → get_mt create_plmt s cache w ≡ (
        (create create_plmt s w).0,
        insert cache (service_key s) (record { mt = mt; ref_count = 1 }),
        some mt,
      )
  unfolding get_mt
  get_mt-made s cache w mt e made = rw (get_mt, e, made) refl

  get_mt-refused :
      (s : ServiceDef) (cache : MtCache M) (w : W)
      → lookup cache (service_key s) ≡ none
      → (create create_plmt s w).1 ≡ none
      → get_mt create_plmt s cache w ≡ ((create create_plmt s w).0, cache, none)
  unfolding get_mt
  get_mt-refused s cache w e made = rw (get_mt, e, made) refl

  -- Where fewer than 2^32 users are counted and GetMT gives a tool, the Close of it closes no
  -- connection, leaves the count of the service's users as it was before, and the tools of other
  -- services as they were.
  pub close-get_mt :
      (s : ServiceDef) (cache : MtCache M) (w : W) (mt : M)
      → users cache (service_key s) < 2 ^ 32
      → (get_mt create_plmt s cache w).2 ≡ some mt
      → Back s cache (get_mt create_plmt s cache w) mt
  close-get_mt s cache w mt small got = elim (Option-cases (lookup cache (service_key s))) [
    | inr (item, e) ↦
        let n = users-lookup cache (service_key s) (some item) e in
        let same : item.ref_count < 2 ^ 32 = omega (arith, n, small) in
        rw (get_mt-cached s cache w item e) (
          Back-insert s cache w (record item { ref_count = (item.ref_count + 1) % 2 ^ 32 }) mt
            (dropped item.ref_count same ∙ sym n))
    | inl e ↦ elim (Option-cases (create create_plmt s w).1) [
      | inr (m, made) ↦ rw (get_mt-made s cache w m e made) (
          Back-insert s cache (create create_plmt s w).0 (record { mt = m; ref_count = 1 }) mt
            (dropped 0 (omega arith) ∙ sym (users-lookup cache (service_key s) none e)))
      | inl made ↦
          let no : none ≡ some mt = sym (ap (λ r. r.2) (get_mt-refused s cache w e made)) ∙ got in
          cc
    ]
  ]
