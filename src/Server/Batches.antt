-- ===== src/Server/Batches.antt =====
-- The batches that RunRevtr starts.
use reverse_traceroute_publi.Base.{
  ℕ, String, ◌≡◌, ◌≢◌, refl, sym, ap, ◌∙◌, List, [], ◌∷◌, Bool-cases, inl, inr,
}
use reverse_traceroute_publi.Server.{
  VantagePoint, Measurement, User, Answer, failed, given, Calls, verify_addrs, connect_failed,
}
use reverse_traceroute_publi.Server.Requests.{
  after, verify_all, run_verified, start_batch, run_revtr,
}
use reverse_traceroute_publi.Server.Verified.{given-eq, Verified, verify_addrs-Verified}

module _ {W V : Type 0} (calls : Calls W V) where
  -- A chain that gives something, from its first link.
  after-given :
      {A B : Type 0} (x : W × Answer A) (next : A → W → W × Answer B) (y : W × Answer B) (b : B)
      → after calls x next ≡ y
      → y.1 ≡ given b
      → (a : A) × (x.1 ≡ given a) × (next a x.0 ≡ y)
  after-given (w, failed f) next y b e h = let no : failed f ≡ given b = ap (λ r. r.1) e ∙ h in cc
  after-given (w, given a) next y b e h = (a, refl, e)

  -- The request with its addresses replaced by those that were verified, in some world.
  abbrev pub Checked : List VantagePoint → Measurement → Measurement → Type 0
  Checked vps r q =
      (w : W) × Verified calls vps r.src r.dst (q.src, q.dst) w
      × (q.staleness ≡ r.staleness)
      × (q.id ≡ r.id)
      × (q.backoff_endhost ≡ r.backoff_endhost)

  abbrev pub AllChecked : List VantagePoint → List Measurement → List Measurement → Type 0
  AllChecked vps [] [] = Unit
  AllChecked vps [] (q ∷ qs) = ⊥
  AllChecked vps (r ∷ rs) [] = ⊥
  AllChecked vps (r ∷ rs) (q ∷ qs) = Checked vps r q × AllChecked vps rs qs

  verify_all-AllChecked :
      (vps : List VantagePoint) (rs : List Measurement) (w : W) (qs : List Measurement)
      → (verify_all calls vps rs w).1 ≡ given qs
      → AllChecked vps rs qs
  unfolding verify_all
  verify_all-AllChecked vps [] w [] e = tt
  verify_all-AllChecked vps [] w (q ∷ qs) e = cc
  verify_all-AllChecked vps (r ∷ rs) w qs e =
      let (sd, good, rest_eq) =
        after-given (verify_addrs calls r.src r.dst vps w) _ (verify_all calls vps (r ∷ rs) w) qs
          refl e in
      let w1 = (verify_addrs calls r.src r.dst vps w).0 in
      let (rest, well, last) =
        after-given (verify_all calls vps rs w1) _ (verify_all calls vps (r ∷ rs) w) qs rest_eq e in
      let same : record r { src = sd.0; dst = sd.1 } ∷ rest ≡ qs =
        given-eq _ _ (ap (λ x. x.1) last ∙ e) in
      rw (sym same) (
        (w, verify_addrs-Verified calls r.src r.dst vps w sd good, refl, refl, refl),
        verify_all-AllChecked vps rs w1 rest well,
      )

  -- The call of CreateRevtrBatch for the checked requests of a user, of which there is one at least.
  abbrev pub Started : String → List Measurement → W × Answer ℕ → Type 0
  Started auth revtrs done =
      (user : User) × (vps : List VantagePoint) × (reqs : List Measurement) × (w0 : W) × (w1 : W)
      × (w2 : W) × ((calls.get_user_by_key auth w0).1 ≡ given user)
      × ((calls.get_vps w1).1 ≡ given vps)
      × (reqs ≢ [])
      × AllChecked vps revtrs reqs
      × (start_batch calls (calls.create_revtr_batch reqs user.key w2) ≡ done)

  run_verified-start :
      (user : User) (reqs : List Measurement) (w : W) (id : ℕ)
      → (run_verified calls user reqs w).1 ≡ given id
      → (w2 : W) × (reqs ≢ [])
        × (start_batch calls (calls.create_revtr_batch reqs user.key w2)
            ≡ run_verified calls user reqs w)
  unfolding run_verified
  run_verified-start user [] w id e = cc
  run_verified-start user (r ∷ rs) w id e = elim (Bool-cases (calls.connect_to_services w).1) [
    | inr down ↦
        let no : (run_verified calls user (r ∷ rs) w).1 ≡ failed connect_failed =
          rw (run_verified, down) refl in
        cc
    | inl up ↦
        ((calls.connect_to_services w).0, (λ none_left. cc), sym (rw (run_verified, up) refl))
  ]

  -- Where RunRevtr answers with the id of a batch, the user and the vantage points were given,
  -- CreateRevtrBatch was called for at least one measurement, and the measurements are the
  -- requests in their order with verified addresses: that of a vantage point that the source
  -- names, and a public address, that of a vantage point of that name, or the first that the
  -- resolver gives.
  pub run_revtr-Started :
      (auth : String) (revtrs : List Measurement) (w : W) (id : ℕ)
      → (run_revtr calls auth revtrs w).1 ≡ given id
      → Started auth revtrs (run_revtr calls auth revtrs w)
  unfolding run_revtr
  run_revtr-Started auth revtrs w id e =
      let all = run_revtr calls auth revtrs w in
      let (user, known, next) = after-given (calls.get_user_by_key auth w) _ all id refl e in
      let w1 = (calls.get_user_by_key auth w).0 in
      let (vps, listed, next2) = after-given (calls.get_vps w1) _ all id next e in
      let w2 = (calls.get_vps w1).0 in
      let (reqs, checked, next3) = after-given (verify_all calls vps revtrs w2) _ all id next2 e in
      let w3 = (verify_all calls vps revtrs w2).0 in
      let (w4, some_left, started) = run_verified-start user reqs w3 id (ap (λ x. x.1) next3 ∙ e) in
      (
        user,
        vps,
        reqs,
        w,
        w1,
        w4,
        known,
        listed,
        some_left,
        verify_all-AllChecked vps revtrs w2 reqs checked,
        started ∙ next3,
      )
