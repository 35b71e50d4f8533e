-- ===== src/Server/Resolve.antt =====
-- What is looked up once and kept in a cache: Get of revtr/clustermap/cluster_map.go and resolveHostname of
-- revtr/server/server.go. Everything that is kept under their keys is a text,
-- and a cluster id is not negative.
use reverse_traceroute_publi.Base.{
  ℕ, String, ◌≡◌, Option, none, some, List, [], ◌∷◌, text_append, Run, ok, panic, if◌then◌else◌,
  str_eq,
}
use reverse_traceroute_publi.IpUtil.{Ip, ip_string_to_int32, int32_to_ip_string}
use reverse_traceroute_publi.Controller.Numbers.{decimal}
use reverse_traceroute_publi.Server.{VantagePoint, Answer, failed, given}

-- types.Cache, where texts are kept; a time to live is left out.
pub record Cache (W : Type 0) : Type 0 where
  pub get : String → W → Option String
  pub set : String → String → W → W

-- That the cache keeps what was set.
abbrev pub Keeps : {W : Type 0} → Cache W → Type 0
Keeps {W} ca = (k v : String) (w : W) → ca.get k (ca.set k v w) ≡ some v

module _ {W : Type 0} (ca : Cache W) where
  module _ (parse_ipv6 : List ℕ → Option Ip) (get_cluster_id_by_ip : ℕ → W → W × Option ℕ) where
    -- What the source says of an address, kept: an address without a cluster is its own.
    unfoldable pub fetched : String → W × Option ℕ → W × String
    fetched s (w, none) = (ca.set (text_append "CM_" s) s w, s)
    fetched s (w, some cluster) =
        (ca.set (text_append "CM_" s) (decimal cluster) w, decimal cluster)

    -- An address that is no text of one is zero.
    unfoldable pub fetch_cluster : String → W → Run (W × String)
    fetch_cluster s w = elim (ip_string_to_int32 parse_ipv6 s) [
      | none ↦ ok (fetched s (get_cluster_id_by_ip 0 w))
      | some ipint ↦ elim ipint [
        | panic ↦ panic
        | ok ip ↦ ok (fetched s (get_cluster_id_by_ip ip w))
      ]
    ]

    unfoldable pub get_cluster : String → W → Run (W × String)
    get_cluster s w = elim (ca.get (text_append "CM_" s) w) [
      | none ↦ fetch_cluster s w
      | some item ↦ ok (w, item)
    ]

  module _ (get_vps : W → W × Answer (List VantagePoint))
      (lookup_addr : String → W → W × Option (String × List String)) where
    -- The reverse lookup: a failure is kept as the empty text. The resolver gives a name at least.
    unfoldable pub looked_up : String → W × Option (String × List String) → W × String
    looked_up ip (w, none) = (ca.set ip "" w, "")
    looked_up ip (w, some (first, hns)) = (ca.set ip first w, first)

    unfoldable pub hostname_loop : String → List VantagePoint → W → W × String
    hostname_loop ip [] w = looked_up ip (lookup_addr ip w)
    hostname_loop ip (vp ∷ vps) w =
        if str_eq (int32_to_ip_string vp.ip) ip
        then (ca.set ip vp.hostname w, vp.hostname)
        else hostname_loop ip vps w

    unfoldable pub resolve_miss : String → W × Answer (List VantagePoint) → W × String
    resolve_miss ip (w, failed f) = (w, "")
    resolve_miss ip (w, given vps) = hostname_loop ip vps w

    unfoldable pub resolve_hostname : String → W → W × String
    resolve_hostname ip w = elim (ca.get ip w) [
      | none ↦ resolve_miss ip (get_vps w)
      | some item ↦ (w, item)
    ]
