-- ===== src/Server/Tests.antt =====
-- Runs of the server, and the theorems at concrete inputs.
use reverse_traceroute_publi.Base.{
  ℕ, String, ◌≡◌, refl, true, false, none, some, List, [], ◌∷◌, get_elem?, ok, panic, Option,
  lookup, insert, lookup-insert, str_eq_refl,
}
use reverse_traceroute_publi.Revtr.Samples.{sample_env, fresh}
use reverse_traceroute_publi.Server.{
  VantagePoint, Measurement, User, Answer, failed, given, BatchError, no_error, other_error, Calls,
  batch_id_error,
}
use reverse_traceroute_publi.Server.Requests.{run_revtr, start_batch, get_revtr}
use reverse_traceroute_publi.Server.Batches.{Started, run_revtr-Started}
use reverse_traceroute_publi.Server.Running.{
  RevtrOutput, Job, asking, passed, looping, State, initial, file, start_revtr, ask, launch, finish,
  Reach, start, later, adding, starting, asking_next, launching,
}
use reverse_traceroute_publi.Server.Open.{start_revtr-Reach}
use reverse_traceroute_publi.Server.Resolve.{Cache, get_cluster, resolve_hostname}
use reverse_traceroute_publi.Server.Once.{get_cluster-again, resolve_hostname-again}

abbrev user : User
user = record { id = 5; key = "key" }

abbrev point : VantagePoint
point = record { ip = 151587081; hostname = "vp"; site = "site" }

abbrev calls_with : (List Measurement → List Measurement × ℕ × BatchError) → Calls Unit Unit
calls_with batch = record {
  env = sample_env;
  lookup_host = λ host w. (w, none);
  get_user_by_key = λ key w. (w, given user);
  get_vps = λ w. (w, given (point ∷ []));
  connect_to_services = λ w. (w, true);
  create_revtr_batch = λ reqs key w. let (made, id, err) = batch reqs in (w, made, id, err);
  get_revtrs_in_batch = λ usr id w. (w, given []);
  run = λ rtrs w. (w, rtrs);
  store = λ rtr w. w;
}

abbrev calls : Calls Unit Unit
calls = calls_with (λ reqs. (reqs, 7, no_error))

abbrev broken_calls : Calls Unit Unit
broken_calls = calls_with (λ reqs. ([], 0, other_error))

abbrev request : Measurement
request = record { src = "vp"; dst = "1.0.0.9"; staleness = 0; id = 0; backoff_endhost = true }

run_revtr_seven : (run_revtr calls "key" (request ∷ []) tt).1 ≡ given 7
unfolding run_revtr reverse_traceroute_publi.Server.Requests.verify_all
    reverse_traceroute_publi.Server.verify_addrs reverse_traceroute_publi.Server.valid_src
    reverse_traceroute_publi.Server.valid_dest reverse_traceroute_publi.Server.is_ip
    reverse_traceroute_publi.IpUtil.parse_ip reverse_traceroute_publi.Runner.Network.is_private
    reverse_traceroute_publi.Server.ensure reverse_traceroute_publi.IpUtil.int32_to_ip_string
    reverse_traceroute_publi.Server.Requests.run_verified start_batch
run_revtr_seven = refl

run_revtr-Started_example :
    Started calls "key" (request ∷ []) (run_revtr calls "key" (request ∷ []) tt)
run_revtr-Started_example = run_revtr-Started calls "key" (request ∷ []) tt 7 run_revtr_seven

-- With what CreateRevtrBatch returns where its transaction cannot begin, RunRevtr answers with the
-- batch 0, and GetRevtr refuses it.
broken_zero : (run_revtr broken_calls "key" (request ∷ []) tt).1 ≡ given 0
unfolding run_revtr reverse_traceroute_publi.Server.Requests.verify_all
    reverse_traceroute_publi.Server.verify_addrs reverse_traceroute_publi.Server.valid_src
    reverse_traceroute_publi.Server.valid_dest reverse_traceroute_publi.Server.is_ip
    reverse_traceroute_publi.IpUtil.parse_ip reverse_traceroute_publi.Runner.Network.is_private
    reverse_traceroute_publi.Server.ensure reverse_traceroute_publi.IpUtil.int32_to_ip_string
    reverse_traceroute_publi.Server.Requests.run_verified start_batch
broken_zero = refl

zero_refused : (get_revtr broken_calls "key" 0 tt).1 ≡ failed (batch_id_error 0)
unfolding get_revtr
zero_refused = refl

-- One revtr, started.
abbrev added : State
added = (file initial fresh).0

abbrev started : State
started = (start_revtr added 1).0

abbrev started_twice : State
started_twice = (start_revtr started 1).0

started-Reach : Reach started
started-Reach = later (later start (adding fresh)) (starting 1)

given_zero : (start_revtr started 1).1 ≡ given 0
unfolding start_revtr reverse_traceroute_publi.SpoofMap.find file
    reverse_traceroute_publi.SpoofMap.put
given_zero = refl

start_revtr-Reach_example :
    get_elem? (start_revtr started 1).0.channels 0 ≡ some (record { id = 1; closed = false })
start_revtr-Reach_example = start_revtr-Reach started 1 0 started-Reach given_zero

-- Two goroutines that both ask before either runs.
abbrev job_at : State → ℕ → Job
job_at s k = elim (get_elem? s.jobs k) [
  | some job ↦ job
  | none ↦ record { id = 0; out = record { rt = fresh; oc = 0 }; phase = asking }
]

abbrev both_passed : State
both_passed = let s1 = ask started_twice 0 (job_at started_twice 0) in ask s1 1 (job_at s1 1)

abbrev both_launched : State
both_launched = let s1 = launch both_passed 0 (job_at both_passed 0) in launch s1 1 (job_at s1 1)

-- The second close of the channel panics.
second_close_panics :
    (elim (finish both_launched 0 (job_at both_launched 0)) [
      | panic ↦ false
      | ok s ↦ elim (finish s 1 (job_at s 1)) [ panic ↦ true | ok s' ↦ false ]
    ])
    ≡ true
unfolding start_revtr finish reverse_traceroute_publi.Server.Running.close_channel launch ask
    reverse_traceroute_publi.SpoofMap.find file reverse_traceroute_publi.SpoofMap.put
second_close_panics = refl

-- A cache of texts.
abbrev World : Type 0
World = List (String × String)

abbrev texts : Cache World
texts = record { get = λ k w. lookup w k; set = λ k v w. insert w k v }

texts_keep : (k v : String) (w : World) → texts.get k (texts.set k v w) ≡ some v
texts_keep k v w = rw (lookup-insert w k v k, str_eq_refl k) refl

abbrev source : ℕ → World → World × Option ℕ
source ip w = (w, some 12)

cluster_twelve :
    get_cluster texts (λ codes. none) source "1.0.0.9" [] ≡ ok (("CM_1.0.0.9", "12") ∷ [], "12")
unfolding get_cluster lookup reverse_traceroute_publi.Server.Resolve.fetch_cluster
    reverse_traceroute_publi.IpUtil.ip_string_to_int32 reverse_traceroute_publi.IpUtil.ip_to_int32
    reverse_traceroute_publi.Server.Resolve.fetched insert
    reverse_traceroute_publi.Controller.Numbers.digits reverse_traceroute_publi.IpUtil.digit_text
cluster_twelve = refl

get_cluster-again_example :
    get_cluster texts (λ codes. none) source "1.0.0.9" (("CM_1.0.0.9", "12") ∷ [])
    ≡ ok (("CM_1.0.0.9", "12") ∷ [], "12")
get_cluster-again_example =
    get_cluster-again texts texts_keep (λ codes. none) source "1.0.0.9" []
      (("CM_1.0.0.9", "12") ∷ []) "12" cluster_twelve

abbrev points : World → World × Answer (List VantagePoint)
points w = (w, given (point ∷ []))

abbrev no_name : String → World → World × Option (String × List String)
no_name ip w = (w, none)

resolve_hostname-again_example :
    resolve_hostname texts points no_name "9.9.9.9"
      (resolve_hostname texts points no_name "9.9.9.9" []).0
    ≡ resolve_hostname texts points no_name "9.9.9.9" []
resolve_hostname-again_example =
    resolve_hostname-again texts texts_keep points no_name "9.9.9.9" [] (point ∷ []) refl
