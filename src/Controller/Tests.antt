-- ===== src/Controller/Tests.antt =====
-- Runs of the controller, and the theorems at concrete inputs.
use reverse_traceroute_publi.Base.{
  ℕ, suc, String, ◌≡◌, ◌≢◌, refl, ◌⊎◌, inr, true, false, none, some, List, [], ◌∷◌, ◌++◌, Run, ok,
  panic, Bool, Option, lookup, str_eq,
}
use reverse_traceroute_publi.Controller.Backend.{Backend, given, refused}
use reverse_traceroute_publi.Controller.Spoofs.{Groups, add, notify, Reach, start, later, adding}
use reverse_traceroute_publi.Controller.Spoofs.Safe.{notify-Reach}
use reverse_traceroute_publi.Controller.Ping.{SpoofBackend, Probe, to_ping, key, result_key}
use reverse_traceroute_publi.Controller.Ping
use reverse_traceroute_publi.Controller.Traceroute
use reverse_traceroute_publi.Controller.Traceroute.Served as TraceServed
use reverse_traceroute_publi.Controller.Ping.Served as PingServed
use reverse_traceroute_publi.Controller.Ping.Keys.{to_ping-key}

-- A probe is its id.
abbrev waiting : Groups ℕ
waiting = add (record { sm = []; channels = [] }) (4 ∷ 5 ∷ [])

waiting-Reach : Reach (λ (p : ℕ). p) waiting
unfolding reverse_traceroute_publi.SpoofMap.find
waiting-Reach = later start (adding (4 ∷ 5 ∷ []) (λ e. cc) (refl, ((λ e. cc), tt), (refl, tt, tt)))

notify-Reach_example : notify (λ p. p) waiting 5 false ≢ panic
notify-Reach_example = notify-Reach (λ p. p) waiting 5 false waiting-Reach

-- A tool that answers nothing; the world counts what is stored.
abbrev backend : (M R : Type 0) → (R → List ℕ) → (List ℕ → Option R) → Backend ℕ M R ℕ ℕ
backend M R marshal unmarshal = record {
  is_done = λ w. (w, false);
  takes_error = λ w. (w, false);
  late_key = λ keys w. (w, "");
  order = λ xs. xs;
  interleave = λ xs ys. xs ++ ys;
  get_multi = λ keys w. (w, none);
  set_with_expire = λ k item w. w;
  unmarshal = unmarshal;
  marshal = marshal;
  get_from_db = λ ms w. (w, [], true);
  store = λ r w. (suc w, w);
  get_service = λ ip w. (w, given 1);
  same_service = λ a b. true;
  get_mt = λ s w. (w, given 2);
  close = λ t w. w;
  measure = λ t ms w. (w, given []);
}

abbrev of_two : Backend ℕ Traceroute.Measurement Traceroute.Traceroute ℕ ℕ
of_two = backend Traceroute.Measurement Traceroute.Traceroute (λ t. []) (λ item. none)

abbrev trace_request : Traceroute.Measurement
trace_request = record { src = 16843009; dst = 151587081; check_cache = true; check_db = true }

-- The refused request is answered by its error.
abbrev of_none : Backend ℕ Traceroute.Measurement Traceroute.Traceroute ℕ ℕ
of_none = record of_two { get_service = λ ip w. (w, refused "no service") }

refused_error :
    (Traceroute.do_traceroute of_none (trace_request ∷ []) 0).1
    ≡ Traceroute.error_result trace_request "no service" ∷ []
unfolding Traceroute.do_traceroute reverse_traceroute_publi.Controller.Phases.look_up
    reverse_traceroute_publi.Controller.Phases.answer_loop
    reverse_traceroute_publi.Controller.Phases.ask_loop reverse_traceroute_publi.Base.insert lookup
    reverse_traceroute_publi.Controller.Phases.check_cache_for
    reverse_traceroute_publi.Controller.Phases.check_cache
    reverse_traceroute_publi.Controller.Phases.found_items Traceroute.check_trace_db
    reverse_traceroute_publi.Controller.Phases.file_loop
    reverse_traceroute_publi.Controller.Phases.run_batches
refused_error = refl

abbrev of_pings : Backend ℕ Ping.Measurement Ping.Ping ℕ ℕ
of_pings = backend Ping.Measurement Ping.Ping (λ p. []) (λ item. none)

abbrev spoofed_request : Ping.Measurement
spoofed_request = record {
  src = 16843009;
  dst = 151587081;
  spoofer_addr = 33686018;
  spoof = true;
  rr = true;
  s_addr = "3.3.3.3";
  payload = "";
  time_stamp = "";
  check_cache = false;
  check_db = false;
}

abbrev answer : Ping.Probe
answer = record {
  spoofer_ip = 16843009;
  probe_id = 1;
  src = 151587081;
  dst = 50529027;
  rr = some (1 ∷ 2 ∷ []);
  ts = none;
}

abbrev spoofing : Ping.SpoofBackend ℕ ℕ
spoofing = record {
  add_group = λ ids w. w;
  kill = λ w. w;
  probes = λ ids w. (w, some answer ∷ []);
  receive_spoof = λ t sps w. w;
  now = λ w. (w, w);
}

addr_of_source : Ping.read_addr "3.3.3.3" ≡ some 50529027
unfolding Ping.read_addr reverse_traceroute_publi.IpUtil.ip_string_to_int32
    reverse_traceroute_publi.IpUtil.ip_to_int32
addr_of_source = refl

to_ping-key_example : Ping.result_key (Ping.to_ping 7 answer) ≡ Ping.key spoofed_request
to_ping-key_example = to_ping-key spoofed_request 7 answer refl refl addr_of_source refl

-- The answer of a ping that is not spoofed has another key than its request.
abbrev plain_request : Ping.Measurement
plain_request = record spoofed_request { spoof = false; rr = false; s_addr = "" }

abbrev plain_answer : Ping.Ping
plain_answer = record (Ping.error_result plain_request "") { id = 1 }

plain_request_key : Ping.key plain_request ≡ "XXXP_16843009_151587081_0"
unfolding key Ping.ping_key reverse_traceroute_publi.Controller.Numbers.digits
    reverse_traceroute_publi.IpUtil.digit_text Ping.read_addr
    reverse_traceroute_publi.IpUtil.ip_string_to_int32
plain_request_key = refl

plain_answer_key : Ping.result_key plain_answer ≡ "XXXP_0_151587081_16843009"
unfolding result_key Ping.ping_key Ping.string_in reverse_traceroute_publi.Base.any
    Ping.error_result reverse_traceroute_publi.Controller.Numbers.digits
    reverse_traceroute_publi.IpUtil.digit_text
plain_answer_key = refl
