-- ===== src/Revtr/Storable.antt =====
-- ToStorable: what is stored of a reverse traceroute, without the statistics and the times.
pub mod Stored
use reverse_traceroute_publi.Base.{
  ℕ, String, Bool, true, false, List, [], ◌∷◌, ◌++◌, Run, ok, ◌>>=◌, if◌then◌else◌, lookup_or,
  insert,
}
use reverse_traceroute_publi.Segment.{Segment, type_of, hops}
use reverse_traceroute_publi.Revtr.{Revtr, StopReason, unset, curr_path, failed_now}

pub data Status : Type 0 where
  running completed : Status

pub record Storable : Type 0 where
  pub src : String
  pub dst : String
  pub stop_reason : StopReason
  pub status : Status
  pub path : List (String × ℕ)

pub status_of : StopReason → Status
status_of unset = running
status_of reason = completed

-- The inner loop: `seen` is hopsSeen, and a hop that was seen is left out.
unfoldable pub store_hops :
    ℕ
    → List String
    → List (String × Bool)
    → List (String × ℕ)
    → List (String × Bool) × List (String × ℕ)
store_hops ty [] seen path = (seen, path)
store_hops ty (hi ∷ his) seen path =
    let skip = store_hops ty his seen path in
    let store = store_hops ty his (insert seen hi true) (path ++ (hi, ty) ∷ []) in
    if lookup_or seen hi false then skip else store

unfoldable pub store_segments :
    List Segment → List (String × Bool) → List (String × ℕ) → List (String × ℕ)
store_segments [] seen path = path
store_segments (s ∷ segments) seen path =
    let (seen', path') = store_hops (type_of s.kind) (hops s) seen path in
    store_segments segments seen' path'

-- The status is read before Failed is called, which may change the reverse traceroute.
unfoldable pub to_storable : Revtr → Run (Revtr × Storable)
unfolding status_of
to_storable rt =
    let stored : List (String × ℕ) → Storable = λ path. record {
      src = rt.src;
      dst = rt.dst;
      stop_reason = rt.stop_reason;
      status = status_of rt.stop_reason;
      path = path;
    } in
    let (rt', failed) = failed_now rt in
    if failed
    then ok (rt', stored [])
    else (curr_path rt' >>= λ p. ok (rt', stored (store_segments p.path [] [])))
