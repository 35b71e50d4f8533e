-- ===== src/Controller/Ping.antt =====
-- controller/controller.go: doPing and toPing, and the keys of datamodel/ping.go. An answer to a spoofed
-- ping comes by Notify on the channel of its group (Controller/Spoofs): `probes` gives what
-- comes on it. A text of an address is not IPv6. The goroutines change the world one after another;
-- what they send is interleaved.
pub mod Doing
pub mod Served
pub mod Keys
use reverse_traceroute_publi.Base.{
  ℕ, ◌+◌, ◌%◌, ◌^◌, String, Bool, not, true, false, ◌&&◌, ◌||◌, Option, none, some, List, map, [],
  ◌∷◌, ◌++◌, if◌then◌else◌, str_eq, text_append, any, ◌==◌, Run, ok, panic,
}
use reverse_traceroute_publi.IpUtil.{int32_to_ip_string, ip_string_to_int32}
use reverse_traceroute_publi.Controller.Numbers.{decimal, hex8}
use reverse_traceroute_publi.Controller.Backend.{Backend, Reply, refused, given}
use reverse_traceroute_publi.Controller.Phases.{
  look_up, Progress, key_loop, file_by, file_loop, run_batches,
}

-- dm.PingMeasurement, with the fields that are read or set here.
pub record Measurement : Type 0 where
  pub src : ℕ
  pub dst : ℕ
  pub spoofer_addr : ℕ
  pub spoof : Bool
  pub rr : Bool
  pub s_addr : String
  pub payload : String
  pub time_stamp : String
  pub check_cache : Bool
  pub check_db : Bool

-- The times that a response was sent and received are the same second.
pub record Response : Type 0 where
  pub sec : ℕ
  pub from : ℕ
  pub rr : List ℕ
  pub tsonly : List ℕ
  pub tsandaddr : List (ℕ × ℕ)

pub record Ping : Type 0 where
  pub src : ℕ
  pub dst : ℕ
  pub spoofed_from : ℕ
  pub flags : List String
  pub responses : List Response
  pub error : String
  pub id : ℕ

-- dm.TimeStamp; a stamp is its time and its address.
pub data TsType : Type 0 where
  ts_only ts_and_addr ts_pre_spec : TsType

pub record TimeStamp : Type 0 where
  pub type : TsType
  pub stamps : List (ℕ × ℕ)

pub record Probe : Type 0 where
  pub spoofer_ip : ℕ
  pub probe_id : ℕ
  pub src : ℕ
  pub dst : ℕ
  pub rr : Option (List ℕ)
  pub ts : Option TimeStamp

-- dm.Spoof.
pub record Spoof : Type 0 where
  pub ip : ℕ
  pub id : ℕ
  pub sip : ℕ
  pub dst : ℕ

unfoldable pub ping_key : Bool → ℕ → ℕ → ℕ → String
ping_key rr a b c = text_append (if rr then "XRRP_" else "XXXP_") (
    text_append (decimal a)
      (text_append "_" (text_append (decimal b) (text_append "_" (decimal c)))))

-- util.IPStringToInt32 of an address.
unfoldable pub read_addr : String → Option ℕ
read_addr s = elim (ip_string_to_int32 (λ codes. none) s) [
  | none ↦ none
  | some r ↦ elim r [ ok n ↦ some n | panic ↦ none ]
]

-- An address that is no text of one is zero.
unfoldable pub key : Measurement → String
key pm = ping_key pm.rr pm.src pm.dst (elim (read_addr pm.s_addr) [ none ↦ 0 | some sa ↦ sa ])

unfoldable pub string_in : List String → String → Bool
string_in ar s = any (λ a. str_eq a s) ar

unfoldable pub result_key : Ping → String
result_key p = ping_key (string_in p.flags "v4rr") p.spoofed_from p.dst p.src

abbrev pub source : Measurement → String
source pm = int32_to_ip_string pm.src

unfoldable pub error_result : Measurement → String → Ping
error_result pm err = record {
  src = pm.src;
  dst = pm.dst;
  spoofed_from = 0;
  flags = [];
  responses = [];
  error = err;
  id = 0;
}

-- The flags and the response, with the record route.
unfoldable pub with_rr : Option (List ℕ) → Ping × Response → Ping × Response
with_rr none (ping, pr) = (ping, pr)
with_rr (some hops) (ping, pr) =
    let pr' = record pr { rr = hops } in
    (record ping { flags = ping.flags ++ "v4rr" ∷ []; responses = pr' ∷ [] }, pr')

-- The same with the time stamps. The response is shared, so that it is set there too.
unfoldable pub with_stamps : Option TimeStamp → Ping × Response → Ping
with_stamps none (ping, pr) = ping
with_stamps (some ts) (ping, pr) = elim ts.type [
  | ts_only ↦ record ping {
    flags = ping.flags ++ "tsonly" ∷ [];
    responses = record pr { tsonly = map (λ stamp. stamp.0) ts.stamps } ∷ [];
  }
  | _ ↦ elim ts.stamps [
    | [] ↦ record ping { responses = pr ∷ [] }
    | stamp ∷ stamps ↦ record ping {
      flags = ping.flags ++ "tsandaddr" ∷ [];
      responses = record pr { tsandaddr = map (λ (t, ip). (ip, t)) (stamp ∷ stamps) } ∷ [];
    }
  ]
]

-- The source and the destination of a probe are those of the answer.
unfoldable pub to_ping : ℕ → Probe → Ping
to_ping now probe =
    let ping : Ping = record {
      src = probe.dst;
      dst = probe.src;
      spoofed_from = probe.spoofer_ip;
      flags = "spoof" ∷ [];
      responses = [];
      error = "";
      id = 0;
    } in
    let pr : Response = record {
      sec = now;
      from = probe.src;
      rr = [];
      tsonly = [];
      tsandaddr = [];
    } in
    with_stamps probe.ts (with_rr probe.rr (ping, pr))

-- What the spoofed measurements need: the map of groups, the channel of a group until it is closed (a
-- nil is `none`), and the requests to the receivers of spoofed probes.
pub record SpoofBackend (W T : Type 0) : Type 0 where
  pub add_group : List ℕ → W → W
  pub kill : W → W
  pub probes : List ℕ → W → W × List (Option Probe)
  pub receive_spoof : T → List Spoof → W → W
  pub now : W → W × ℕ

pub record Spoofing (S : Type 0) : Type 0 where
  pub receivers : List (S × List Spoof)
  pub pings : List (S × List Measurement)
  pub ids : List ℕ
  pub errors : List Ping
  pub spoof_id : ℕ

abbrev pub next_spoof_id : ℕ → ℕ
next_spoof_id id = (id + 1) % 2 ^ 32
