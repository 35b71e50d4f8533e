-- ===== src/Server.antt =====
-- revtr/server/server.go: the requests to run reverse traceroutes and for their results. `W` is the world
-- that a call of the stores, the resolver and the runner may change.
pub mod Requests
pub mod Verified
pub mod Batches
pub mod Running
pub mod Resolve
pub mod Once
pub mod Open
mod Tests
use reverse_traceroute_publi.Base.{
  ℕ, String, Bool, true, false, not, ◌||◌, Option, none, some, List, [], ◌∷◌, if◌then◌else◌, str_eq,
}
use reverse_traceroute_publi.IpUtil.{parse_ip, int32_to_ip_string}
use reverse_traceroute_publi.Revtr.{Revtr}
use reverse_traceroute_publi.Revtr.Externs.{Env}
use reverse_traceroute_publi.Runner.Network.{is_private}

pub record VantagePoint : Type 0 where
  pub ip : ℕ
  pub hostname : String
  pub site : String

-- pb.RevtrMeasurement.
pub record Measurement : Type 0 where
  pub src : String
  pub dst : String
  pub staleness : ℕ
  pub id : ℕ
  pub backoff_endhost : Bool

-- pb.RevtrUser, with the fields that are read.
pub record User : Type 0 where
  pub id : ℕ
  pub key : String

-- The errors; `other` is an error of a store or a source, its text.
pub data Failure : Type 0 where
  src_error dst_error other : String → Failure
  batch_id_error id_error : ℕ → Failure
  no_revtrs_to_run connect_failed failed_to_create_batch : Failure

pub data Answer (A : Type 0) : Type 0 where
  failed : Failure → Answer A
  given : A → Answer A

-- The error of CreateRevtrBatch: none, repo.ErrCannotAddRevtrBatch, or another one.
pub data BatchError : Type 0 where
  no_error cannot_add other_error : BatchError

-- The stores, sources and the runner of a revtrServer. `run` gives the reverse traceroutes in the order in
-- which they end, `store` is a store of ToStorable of one. `V` is pb.ReverseTraceroute.
pub record Calls (W V : Type 0) : Type 1 where
  pub env : Env
  pub lookup_host : String → W → W × Option (List String)
  pub get_user_by_key : String → W → W × Answer User
  pub get_vps : W → W × Answer (List VantagePoint)
  pub connect_to_services : W → W × Bool
  pub create_revtr_batch : List Measurement → String → W → W × List Measurement × ℕ × BatchError
  pub get_revtrs_in_batch : ℕ → ℕ → W → W × Answer (List V)
  pub run : List Revtr → W → W × List Revtr
  pub store : Revtr → W → W

unfoldable pub valid_src : String → List VantagePoint → Option String
valid_src src [] = none
valid_src src (vp ∷ vps) =
    if str_eq vp.hostname src || str_eq (int32_to_ip_string vp.ip) src
    then some (int32_to_ip_string vp.ip)
    else valid_src src vps

-- The loop over the hostnames in validDest.
unfoldable pub hostname_ip : String → List VantagePoint → Option String
hostname_ip dst [] = none
hostname_ip dst (vp ∷ vps) =
    if str_eq vp.hostname dst then some (int32_to_ip_string vp.ip) else hostname_ip dst vps

module _ {W V : Type 0} (calls : Calls W V) where
  -- Whether net.ParseIP reads the text.
  unfoldable pub is_ip : String → Bool
  is_ip s = elim (parse_ip calls.env.parse_ipv6 s) [ none ↦ false | some ip ↦ true ]

  -- The first of the addresses that net.LookupHost gives.
  unfoldable pub looked_up : W × Option (List String) → W × Option String
  looked_up (w, none) = (w, none)
  looked_up (w, some []) = (w, none)
  looked_up (w, some (first ∷ res)) = (w, some first)

  unfoldable pub valid_dest : String → List VantagePoint → W → W × Option String
  valid_dest dst vps w =
      if is_ip dst
      then (if is_private calls.env dst then (w, none) else (w, some dst))
      else elim (hostname_ip dst vps) [
        | some ips ↦ (w, some ips)
        | none ↦ looked_up (calls.lookup_host dst w)
      ]

  -- The end of verifyAddrs, where both are found.
  unfoldable pub ensure : String → String → Answer (String × String)
  ensure nsrc ndst =
      if not (is_ip nsrc)
      then failed (src_error nsrc)
      else if not (is_ip ndst)
      then failed (dst_error ndst)
      else given (nsrc, ndst)

  unfoldable pub verify_addrs :
      String → String → List VantagePoint → W → W × Answer (String × String)
  verify_addrs src dst vps w = elim (valid_src src vps) [
    | none ↦ (w, failed (src_error src))
    | some nsrc ↦
        let (w1, found) = valid_dest dst vps w in
        elim found [ none ↦ (w1, failed (dst_error dst)) | some ndst ↦ (w1, ensure nsrc ndst) ]
  ]
