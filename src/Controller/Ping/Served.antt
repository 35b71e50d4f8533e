-- ===== src/Controller/Ping/Served.antt =====
-- Every measurement that doPing is asked for is served.
use reverse_traceroute_publi.Base.{ℕ, String, ◌≡◌, ◌⊎◌, true, List, [], ◌∷◌, ◌++◌}
use reverse_traceroute_publi.Controller.Backend.{Backend}
use reverse_traceroute_publi.Controller.Phases.{file_loop, run_batches}
use reverse_traceroute_publi.Controller.Phases.Kept.{Any, Merged}
use reverse_traceroute_publi.Controller.Phases.Filed.{Filed}
use reverse_traceroute_publi.Controller.Phases.Served.{AnswerFor}
use reverse_traceroute_publi.Controller.Ping.{
  Measurement, Ping, SpoofBackend, Spoofing, key, result_key, source, error_result,
}
use reverse_traceroute_publi.Controller.Ping.Doing.{
  may_ask_cache, may_ask_db, split_spoofs, check_ping_db, look_up_pings, receive, file_spoof,
  spoof_error, spoof_loop, do_spoofed, do_ping,
}

module _ {W S T : Type 0} (be : Backend W Measurement Ping S T) where
  -- The measurement has an error for a result, or is sent with an id.
  abbrev pub SpoofOutcome : Measurement → Spoofing S → Type 0
  SpoofOutcome pm plan =
      Any (λ r. (err : String) × (r ≡ error_result pm err)) plan.errors
      ⊎ Any (λ b. Any (λ q. (id : String) × (q ≡ record pm { payload = id })) b.1) plan.pings

  -- What a round of the loop does is one of three.
  data Round (sp : Measurement) (sps : List Measurement) (acc : Spoofing S) (w : W) : Type 0 where
    refuses :
        (err : String) (w' : W)
        → spoof_loop be (sp ∷ sps) acc w ≡ spoof_loop be sps (spoof_error be acc sp err) w'
        → Round sp sps acc w
    files :
        (sd sds : S) (w' : W)
        → spoof_loop be (sp ∷ sps) acc w ≡ spoof_loop be sps (file_spoof be acc sd sds sp) w'
        → Round sp sps acc w

  -- The state of doPing between its phases.
  abbrev pub filed : List Measurement → W → W × List (S × List Measurement) × List Ping
  filed pms w =
      let known = look_up_pings be pms w in
      file_loop be source error_result (split_spoofs known.1.remaining).1 [] [] known.0

  abbrev pub results : List Measurement → W → W × List Ping
  results pms w =
      run_batches be error_result (receive be) (be.order (filed pms w).1) (filed pms w).0

  abbrev pub spoofing : List Measurement → ℕ → W → W × Spoofing S
  spoofing pms id w =
      spoof_loop be (split_spoofs (look_up_pings be pms w).1.remaining).0
        (record { receivers = []; pings = []; ids = []; errors = []; spoof_id = id })
        (results pms w).0

  abbrev pub Answers : List Measurement → W → Measurement → Ping → Type 0
  Answers pms w pm =
      AnswerFor be key result_key may_ask_cache may_ask_db (check_ping_db be) (λ p. true) pms w
        (key pm)

  -- What two goroutines send is interleaved.
  abbrev pub Merges : Type 1
  Merges = (A : Type 0) (xs ys : List A) → Merged xs ys (be.interleave xs ys)

  -- The results of doPing: those that are sent before a goroutine starts, then those of the batches
  -- among those of the spoofed pings.
  abbrev pub InPlace : SpoofBackend W T → List Measurement → ℕ → W → List Ping → Type 0
  InPlace sb pms id w out =
      let plan = spoofing pms id w in
      (rest : List Ping) × (out ≡ (look_up_pings be pms w).1.sent ++ (filed pms w).2 ++ rest)
      × Merged (results pms w).1 (plan.1.errors ++ (do_spoofed be sb plan.1 plan.0).1) rest

  -- What becomes of a request: an answer of the cache or the database for its key is among the
  -- results, or a request with its key has an error among them, is in the batch of its service, or in
  -- that of its spoofed ping.
  abbrev pub IsAnswered : List Measurement → ℕ → W → Measurement → List Ping → Type 0
  IsAnswered pms id w pm out =
      Any (Answers pms w pm) out
      ⊎ ((pm' : Measurement) × (key pm' ≡ key pm)
          × (Any (λ r. (err : String) × (r ≡ error_result pm' err)) out
              ⊎ (Any (λ b. Any (λ q. (id' : String) × (q ≡ record pm' { payload = id' })) b.1)
                    (spoofing pms id w).1.pings
                  ⊎ Filed be pm' (filed pms w).1)))

  abbrev pub IsServed : SpoofBackend W T → List Measurement → ℕ → W → Measurement → Type 0
  IsServed sb pms id w pm =
      InPlace sb pms id w (do_ping be sb pms id w).2
      × IsAnswered pms id w pm (do_ping be sb pms id w).2
