-- ===== src/Revtr/Externs.antt =====
-- What a reverse traceroute calls that is not its own: `net.ParseIP(h).IsGlobalUnicast()`, the
-- ClusterMap, the order in which Go ranges over a map, sort.Sort under magicSort, and `net.ParseIP`
-- on a text that is IPv6.
use reverse_traceroute_publi.Base.{ℕ, String, Bool, Option, List}
use reverse_traceroute_publi.IpUtil.{Ip}
use reverse_traceroute_publi.Segment.{Segment}

pub record Env : Type 0 where
  pub is_global_unicast : String → Bool
  pub cm : String → String
  pub order : List (String × Bool) → List (String × Bool)
  pub sort : List Segment → List Segment
  pub parse_ipv6 : List ℕ → Option Ip

-- The vantage points that may spoof, by their addresses; `none` is an error of the service.
pub record VpSource : Type 0 where
  pub get_rr_spoofers : ℕ → Option (List ℕ)
  pub get_ts_spoofers : Option (List ℕ)

-- types.Adjacency and types.AdjacencyToDest.
pub record Adjacency : Type 0 where
  pub ip1 : ℕ
  pub ip2 : ℕ
  pub cnt : ℕ

pub record AdjacencyToDest : Type 0 where
  pub dest24 : ℕ
  pub address : ℕ
  pub adjacent : ℕ
  pub cnt : ℕ

-- The adjacencies of an address; `none` is an error. The sorts are sort.Sort under byCount and
-- aByCount, reversed.
pub record AdjacencySource : Type 0 where
  pub get_adjacencies_by_ip1 : ℕ → Option (List Adjacency)
  pub get_adjacencies_by_ip2 : ℕ → Option (List Adjacency)
  pub get_adjacency_to_dest : ℕ → ℕ → Option (List AdjacencyToDest)
  pub sort_to_dest : List AdjacencyToDest → List AdjacencyToDest
  pub sort_adjacencies : List Adjacency → List Adjacency
