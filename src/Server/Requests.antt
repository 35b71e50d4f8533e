-- ===== src/Server/Requests.antt =====
-- revtr/server/server.go: RunRevtr, GetRevtr and GetSources.
use reverse_traceroute_publi.Base.{ℕ, String, false, List, [], ◌∷◌, map, if◌then◌else◌, ◌==◌}
use reverse_traceroute_publi.IpUtil.{int32_to_ip_string}
use reverse_traceroute_publi.Revtr.{Revtr, Callbacks, create_reverse_traceroute}
use reverse_traceroute_publi.Server.{
  VantagePoint, Measurement, User, batch_id_error, no_revtrs_to_run, connect_failed,
  failed_to_create_batch, Answer, failed, given, BatchError, no_error, cannot_add, other_error,
  Calls, verify_addrs,
}

-- pb.Source.
pub record Source : Type 0 where
  pub hostname : String
  pub ip : String
  pub site : String

abbrev none_set : Callbacks
none_set = record { has_on_add = false; has_on_reach = false; has_on_fail = false }

module _ {W V : Type 0} (calls : Calls W V) where
  abbrev pub after : {A B : Type 0} → W × Answer A → (A → W → W × Answer B) → W × Answer B
  after (w, failed f) next = (w, failed f)
  after (w, given a) next = next a w

  -- The loop over the requests: the first that fails ends it.
  unfoldable pub verify_all :
      List VantagePoint → List Measurement → W → W × Answer (List Measurement)
  verify_all vps [] w = (w, given [])
  verify_all vps (r ∷ rs) w = after (verify_addrs calls r.src r.dst vps w) (λ (src, dst) w1.
      after (verify_all vps rs w1)
        (λ rest w2. (w2, given (record r { src = src; dst = dst } ∷ rest))))

  unfoldable pub create_all : List Measurement → List Revtr
  create_all reqs =
      map (λ r. create_reverse_traceroute calls.env none_set r.backoff_endhost r.src r.dst) reqs

  -- The goroutine that runs a batch.
  unfoldable pub store_loop : List Revtr → W → W
  store_loop [] w = w
  store_loop (drtr ∷ done) w = store_loop done (calls.store drtr w)

  unfoldable pub run_batch : List Measurement → W → W
  run_batch reqs w = let (w1, done) = calls.run (create_all reqs) w in store_loop done w1

  -- Of the errors of CreateRevtrBatch only one is looked for: with another, what was returned beside
  -- it is run, and its id is the answer.
  unfoldable pub start_batch : W × List Measurement × ℕ × BatchError → W × Answer ℕ
  start_batch (w, reqs, batch_id, cannot_add) = (w, failed failed_to_create_batch)
  start_batch (w, reqs, batch_id, no_error) = (run_batch reqs w, given batch_id)
  start_batch (w, reqs, batch_id, other_error) = (run_batch reqs w, given batch_id)

  -- From the test on the number of requests on.
  unfoldable pub run_verified : User → List Measurement → W → W × Answer ℕ
  run_verified user [] w = (w, failed no_revtrs_to_run)
  run_verified user (r ∷ rs) w =
      let (w1, connected) = calls.connect_to_services w in
      if connected
      then start_batch (calls.create_revtr_batch (r ∷ rs) user.key w1)
      else (w1, failed connect_failed)

  unfoldable pub run_revtr : String → List Measurement → W → W × Answer ℕ
  run_revtr auth revtrs w = after (calls.get_user_by_key auth w) (λ user w1.
      after (calls.get_vps w1)
        (λ vps w2. after (verify_all vps revtrs w2) (λ reqs w3. run_verified user reqs w3)))

  unfoldable pub get_revtr : String → ℕ → W → W × Answer (List V)
  get_revtr auth batch_id w = after (calls.get_user_by_key auth w) (λ usr w1.
      if batch_id == 0
      then (w1, failed (batch_id_error batch_id))
      else calls.get_revtrs_in_batch usr.id batch_id w1)

  unfoldable pub get_sources : String → W → W × Answer (List Source)
  get_sources auth w = after (calls.get_user_by_key auth w) (λ usr w1.
      after (calls.get_vps w1) (λ vps w2. (
        w2,
        given (
            map
              (λ vp. record {
                hostname = vp.hostname;
                ip = int32_to_ip_string vp.ip;
                site = vp.site;
              })
              vps),
      )))
