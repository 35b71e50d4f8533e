-- ===== src/Revtr/Timestamp/Adjacents.antt =====
-- The adjacents of a hop are handed out in order, each once, and never the hop itself anew.
use text.Mathlib.TextEquality.{eq_iff}
use reverse_traceroute_publi.Base.{
  ◌≤◌, ◌<◌, ◌≡◌, ◌≢◌, ◌⊎◌, inl, inr, refl, sym, String, true, List, [], ◌∷◌, ◌++◌, length,
  length-take, take, drop, take-append-drop, str_eq, str_eq_refl, if◌then◌else◌, ltb, ◌==◌,
  lookup_or, lookup_or-insert, arith, Bool-cases,
}
use reverse_traceroute_publi.StringUtil.{in_array, string_slice_minus, IsRangeOrder}
use reverse_traceroute_publi.StringUtil.Sets.{
  in_array-append, in_array-take, in_array-string_slice_minus,
}
use reverse_traceroute_publi.Revtr.{Revtr}
use reverse_traceroute_publi.Revtr.Externs.{Env}
use reverse_traceroute_publi.Revtr.Timestamp.{combine, adjs_left, take_adjacents}

first_30 :
    (ret : List String) (x : String)
    → in_array (if ltb (length ret) 30 then take (length ret) ret else take 30 ret) x ≡ true
    → in_array ret x ≡ true
first_30 ret x h = elim (Bool-cases (ltb (length ret) 30)) [
  | inl short ↦ in_array-take (length ret) ret x (rw short at h)
  | inr long ↦ in_array-take 30 ret x (rw long at h)
]

-- The adjacents besides those known towards the destination.
others :
    (env : Env)
    → IsRangeOrder env.order
    → (ip : String) (atjs combined_ips : List String) (x : String)
    → in_array
        (string_slice_minus env.order (string_slice_minus env.order combined_ips atjs) (ip ∷ []))
        x
      ≡ true
    → (in_array combined_ips x ≡ true) × (x ≢ ip)
unfolding in_array
others env ranges ip atjs combined_ips x h =
    let ss = string_slice_minus env.order combined_ips atjs in
    let outer = in_array-string_slice_minus env.order ranges ss (ip ∷ []) x in
    let inner = in_array-string_slice_minus env.order ranges combined_ips atjs x in
    (ground (arith, outer, inner), λ e. ground (arith, outer, eq_iff ip x))

-- Where a range over a map gives each entry once, at most 30 adjacents are kept, each known
-- towards the destination, or adjacent and not the hop itself.
pub combine_lem :
    (env : Env)
    → IsRangeOrder env.order
    → (ip : String) (atjs combined_ips : List String)
    → (length (combine env ip atjs combined_ips) ≤ 30)
      × ((x : String)
          → in_array (combine env ip atjs combined_ips) x ≡ true
          → (in_array atjs x ≡ true) ⊎ ((in_array combined_ips x ≡ true) × (x ≢ ip)))
unfolding combine
combine_lem env ranges ip atjs combined_ips =
    let ss = string_slice_minus env.order combined_ips atjs in
    let rest = string_slice_minus env.order ss (ip ∷ []) in
    let ret = atjs ++ rest in
    (
      ground (arith, length-take (length ret) ret, length-take 30 ret),
      λ x h.
          let member = first_30 ret x h in
          elim (Bool-cases (in_array atjs x)) [
            | inl known ↦ inl known
            | inr new ↦ inr (
                others env ranges ip atjs combined_ips x
                  (ground (arith, in_array-append atjs rest x)))
          ],
    )

elsewhere :
    (hop other : String) (now new before : List String)
    → hop ≢ other
    → now ≡ (if str_eq hop other then new else before)
    → now ≡ before
elsewhere hop other apart e = ground (arith, eq_iff hop other, e)

-- A batch of adjacents and what is left are the list as it was; other hops keep theirs; the batch
-- is not empty while adjacents are left and the rate limit is not zero.
pub take_adjacents_lem :
    (rt : Revtr) (hop : String)
    → ((take_adjacents rt hop).1 ++ adjs_left (take_adjacents rt hop).0 hop ≡ adjs_left rt hop)
      × ((other : String)
          → other ≢ hop
          → adjs_left (take_adjacents rt hop).0 other ≡ adjs_left rt other)
      × (0 < length (adjs_left rt hop)
          → 0 < lookup_or rt.ts_hop_rate_limit hop 1
          → 0 < length (take_adjacents rt hop).1)
unfolding take_adjacents
take_adjacents_lem rt hop =
    let left = adjs_left rt hop in
    let rate = lookup_or rt.ts_hop_rate_limit hop 1 in
    let min = if ltb (length left) rate then length left else rate in
    let after = lookup_or-insert rt.ts_hop_adjs_left hop (drop min left) in
    elim (Bool-cases (length left == 0)) [
      | inl empty ↦ rw empty (refl, (λ other apart. refl), λ pos rated. absurd (ground arith))
      | inr more ↦ rw more (
        (rw (after hop [], str_eq_refl hop) (take-append-drop min left)),
        (λ other apart. elsewhere hop other _ _ _ (λ same. apart (sym same)) (after other [])),
        (λ pos rated. ground (arith, length-take min left)),
      )
    ]
