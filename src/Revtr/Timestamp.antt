-- ===== src/Revtr/Timestamp.antt =====
-- InitializeTSAdjacents, GetTSAdjacents and GetTimestampSpoofers: what timestamp probes ask for.
pub mod Adjacents
use reverse_traceroute_publi.Base.{
  ℕ, ◌/◌, ◌^◌, String, Bool, true, false, Option, none, some, List, [], ◌∷◌, ◌++◌, map, length,
  take, drop, Run, ok, ◌>>=◌, if◌then◌else◌, ltb, ◌==◌, lookup, insert, lookup_or,
}
use reverse_traceroute_publi.IpUtil.{int32_to_ip_string}
use reverse_traceroute_publi.StringUtil.{string_slice_minus}
use reverse_traceroute_publi.Revtr.{Revtr, revtr_last_hop}
use reverse_traceroute_publi.Revtr.Externs.{
  Env, VpSource, Adjacency, AdjacencyToDest, AdjacencySource,
}
use reverse_traceroute_publi.Revtr.RecordRoute.{address_of}

-- The end of an adjacency that is not the address.
other_end : ℕ → Adjacency → String
other_end ipint a = if a.ip1 == ipint then int32_to_ip_string a.ip2 else int32_to_ip_string a.ip1

-- The adjacents that are known towards the destination, then the others.
unfoldable pub combine : Env → String → List String → List String → List String
combine env ip atjs combined_ips =
    let ss = string_slice_minus env.order combined_ips atjs in
    let ret = atjs ++ string_slice_minus env.order ss (ip ∷ []) in
    if ltb (length ret) 30 then take (length ret) ret else take 30 ret

-- getAdjacenciesForIPToSrc, at the addresses as numbers.
unfoldable pub adjacencies_of : Env → AdjacencySource → String → ℕ → ℕ → Option (List String)
unfolding other_end
adjacencies_of env as' ip ipint srcint = elim (as'.get_adjacencies_by_ip1 ipint) [
  | none ↦ none
  | some ips1 ↦ elim (as'.get_adjacencies_by_ip2 ipint) [
    | none ↦ none
    | some ips2 ↦ elim (as'.get_adjacency_to_dest (srcint / 2 ^ 8) ipint) [
      | none ↦ none
      | some adjstodst ↦ some (
          combine env ip
            (map (λ (adj : AdjacencyToDest). int32_to_ip_string adj.adjacent)
              (as'.sort_to_dest adjstodst))
            (map (other_end ipint) (as'.sort_adjacencies (ips1 ++ ips2))))
    ]
  ]
]

unfoldable pub get_adjacencies_for_ip_to_src :
    Env → AdjacencySource → String → String → Run (Option (List String))
get_adjacencies_for_ip_to_src env as' ip src = address_of env ip >>= λ ipint.
    address_of env src >>= λ srcint. ok (adjacencies_of env as' ip ipint srcint)

-- The state afterwards; an error leaves it as it is, and is only logged by the caller.
unfoldable pub initialize_ts_adjacents : Env → AdjacencySource → Revtr → String → Run Revtr
initialize_ts_adjacents env as' rt cls =
    get_adjacencies_for_ip_to_src env as' cls rt.src >>= λ adjs. ok (elim adjs [
      | none ↦ rt
      | some l ↦ record rt { ts_hop_adjs_left = insert rt.ts_hop_adjs_left cls l }
    ])

abbrev pub adjs_left : Revtr → String → List String
adjs_left rt hop = lookup_or rt.ts_hop_adjs_left hop []

-- The next batch of a hop whose adjacents are initialized.
unfoldable pub take_adjacents : Revtr → String → Revtr × List String
take_adjacents rt hop =
    let left = adjs_left rt hop in
    let rate = lookup_or rt.ts_hop_rate_limit hop 1 in
    let min = if ltb (length left) rate then length left else rate in
    if length left == 0 then (rt, []) else (
      record rt { ts_hop_adjs_left = insert rt.ts_hop_adjs_left hop (drop min left) },
      take min left,
    )

-- The log line reads the last hop, which panics where there is no path.
unfoldable pub get_ts_adjacents : Env → AdjacencySource → Revtr → String → Run (Revtr × List String)
get_ts_adjacents env as' rt hop =
    (elim (lookup rt.ts_hop_adjs_left hop) [
      | some _ ↦ ok rt
      | none ↦ initialize_ts_adjacents env as' rt hop
    ])
    >>= λ rt'. revtr_last_hop rt' >>= λ last. ok (take_adjacents rt' hop)

unfoldable pub get_timestamp_spoofers : VpSource → List String
get_timestamp_spoofers vps = elim vps.get_ts_spoofers [
  | none ↦ []
  | some ips ↦
      let spoofers = map int32_to_ip_string ips in
      if ltb 5 (length spoofers) then take 5 spoofers else spoofers
]
