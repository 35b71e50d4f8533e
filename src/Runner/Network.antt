-- ===== src/Runner/Network.antt =====
-- What the runner asks of the controller (datamodel) and of the atlas (atlas/pb), and the state of
-- a reverse traceroute that is run. The clients are parameters: a call may change the world `W`.
-- Left out are the fields of a request that every call sets to the same constant, the staleness
-- that is passed on, and the statistics.
use reverse_traceroute_publi.Base.{ℕ, String, Bool, not, Option, List}
use reverse_traceroute_publi.Revtr.{Revtr}
use reverse_traceroute_publi.Revtr.Externs.{Env, VpSource, AdjacencySource}

-- What a client's stream gives: an error of the call or of a Send, or the messages received, and
-- whether an error ends them instead of io.EOF.
pub data Stream (A : Type 0) : Type 0 where
  refused : Stream A
  received : List A → Bool → Stream A

pub record PingMeasurement : Type 0 where
  pub src : ℕ
  pub dst : ℕ
  pub rr : Bool
  pub spoof : Bool
  pub s_addr : String
  pub spoofer_addr : ℕ
  pub time_stamp : String

pub record TsAndAddr : Type 0 where
  pub ip : ℕ
  pub ts : ℕ

pub record PingResponse : Type 0 where
  pub rr : List ℕ
  pub tsandaddr : List TsAndAddr

pub record Ping : Type 0 where
  pub src : ℕ
  pub dst : ℕ
  pub spoofed_from : ℕ
  pub responses : List PingResponse

pub record TracerouteHop : Type 0 where
  pub addr : ℕ
  pub probe_ttl : ℕ

-- `error` says that the text of the error is not empty.
pub record Trace : Type 0 where
  pub dst : ℕ
  pub error : Bool
  pub hops : List TracerouteHop

pub record IntersectionRequest : Type 0 where
  pub dest : ℕ
  pub address : ℕ
  pub src : ℕ

pub data ResponseType : Type 0 where
  none_found token path error : ResponseType

pub record AtlasPath : Type 0 where
  pub address : ℕ
  pub hops : List ℕ

-- A path of nil is `none`.
pub record IntersectionResponse : Type 0 where
  pub type : ResponseType
  pub token : ℕ
  pub path : Option AtlasPath

-- The controller's client, the atlas and the context. `order` is a range over a Go map.
pub record Options (W : Type 0) : Type 1 where
  pub env : Env
  pub vps : VpSource
  pub adjacencies : AdjacencySource
  pub ping : List PingMeasurement → W → W × Stream Ping
  pub traceroute : ℕ → ℕ → W → W × Stream Trace
  pub get_intersecting_path : List IntersectionRequest → W → W × Stream IntersectionResponse
  pub get_paths_with_token : List ℕ → W → W × Stream IntersectionResponse
  pub is_done : W → W × Bool
  pub order : {A : Type 0} → List A → List A

-- FailReason: the texts that the steps set.
pub data FailReason : Type 0 where
  no_reason traceroute_failed no_hops : FailReason

-- The reverse traceroute with what the runner alone reads and writes of it.
pub record Running (W : Type 0) : Type 0 where
  pub world : W
  pub revtr : Revtr
  pub tokens : List IntersectionResponse
  pub ts_dst_to_stamps_zero : List (String × Bool)
  pub ts_src_to_hop_to_send_spoofed : List (String × List (String × Bool))
  pub fail_reason : FailReason

-- revtr/ip_utils/ip_util.go: IsPrivate of net.ParseIP of a text.
unfoldable pub is_private : Env → String → Bool
is_private env s = not (env.is_global_unicast s)
