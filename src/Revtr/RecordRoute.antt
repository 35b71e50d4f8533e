-- ===== src/Revtr/RecordRoute.antt =====
-- InitializeRRVPs and GetRRVPs: which vantage points probe next, and which hop.
pub mod Batches
use mathlib.Core.List.{reverse}
use reverse_traceroute_publi.Base.{
  ℕ, ◌-◌, String, Bool, true, false, Option, none, some, List, [], ◌∷◌, ◌++◌, map, length, take,
  drop, Run, ok, panic, ◌>>=◌, str_eq, if◌then◌else◌, ltb, leb, ◌==◌, lookup, insert, lookup_or,
}
use reverse_traceroute_publi.IpUtil.{int32_to_ip_string, ip_string_to_int32}
use reverse_traceroute_publi.StringUtil.{in_array, non_spoofed, clone_string_slice}
use reverse_traceroute_publi.Segment.{Kind, spoof_rr_rev_segment, hops}
use reverse_traceroute_publi.ReversePath.{last_seg}
use reverse_traceroute_publi.Revtr.{Revtr, Answers, responsive, unanswered, curr_path}
use reverse_traceroute_publi.Revtr.Externs.{Env, VpSource}

abbrev pub rate_limit : ℕ
rate_limit = 5

abbrev pub max_unresponsive : ℕ
max_unresponsive = 10

-- The error of IPStringToInt32 is dropped, and the address is then 0.
unfoldable pub address_of : Env → String → Run ℕ
address_of env s = elim (ip_string_to_int32 env.parse_ipv6 s) [ some r ↦ r | none ↦ ok 0 ]

-- The state afterwards, and whether an error is returned.
unfoldable pub initialize_rr_vps : Env → VpSource → Revtr → String → Run (Revtr × Bool)
unfolding address_of
initialize_rr_vps env vps rt cls =
    let rt' = record rt { rr_hop_rate_limit = insert rt.rr_hop_rate_limit cls rate_limit } in
    address_of env cls >>= λ clsi. ok (elim (vps.get_rr_spoofers clsi) [
      | none ↦ (rt', true)
      | some ips ↦ (
        record rt' {
          rr_hop_vps_left =
              insert rt.rr_hop_vps_left cls (non_spoofed ∷ map int32_to_ip_string ips);
        },
        false,
      )
    ])

unfoldable pub rr_vps_initialized_for_hop : Revtr → String → Bool
rr_vps_initialized_for_hop rt hop = elim (lookup rt.rr_hop_vps_left hop) [
  | some _ ↦ true
  | none ↦ false
]

unfoldable pub set_rr_vps_for_hop : Revtr → String → List String → Revtr
set_rr_vps_for_hop rt hop vps = record rt { rr_hop_vps_left = insert rt.rr_hop_vps_left hop vps }

initialize_loop : Env → VpSource → Revtr → List String → Run Revtr
initialize_loop env vps rt [] = ok rt
initialize_loop env vps rt (hop ∷ hs) =
    (if rr_vps_initialized_for_hop rt hop then ok (rt, false) else initialize_rr_vps env vps rt hop)
    >>= λ (rt', err). initialize_loop env vps rt' hs

abbrev pub vps_left : Revtr → String → List String
vps_left rt cls = lookup_or rt.rr_hop_vps_left cls []

is_unresponsive : Answers → Bool
is_unresponsive responsive = false
is_unresponsive (unanswered n) = leb max_unresponsive n

-- The loop over the hops, from the last one, to a hop that answers and has vantage points left.
unfoldable pub pick_target : Revtr → List String → Option String
unfolding is_unresponsive
pick_target rt [] = none
pick_target rt (target ∷ seg_hops) =
    let next = pick_target rt seg_hops in
    if is_unresponsive (lookup_or rt.rr_spoof_rr_responsive target (unanswered 0))
    then next
    else if length (vps_left rt target) == 0
    then next
    else some target

abbrev pub at_most : ℕ → List String → ℕ
at_most n l = if ltb (length l) n then length l else n

newleft_loop : String → List String → List String → List String
newleft_loop spoofer newleft [] = newleft
newleft_loop spoofer newleft (s ∷ left) =
    newleft_loop spoofer (if str_eq s spoofer then newleft else newleft ++ s ∷ []) left

unfoldable pub without_spoofer : String → List String → List String
unfolding newleft_loop
without_spoofer spoofer left = newleft_loop spoofer [] left

pub recent_spoofer : Kind → Option String
recent_spoofer (spoof_rr_rev_segment spoof_source) = some spoof_source
recent_spoofer kind = none

-- The vantage points for the target, and those that are left, from the rate limit and the list.
-- A limit of zero makes the bound of the second slice negative, which panics.
unfoldable pub next_batch : Kind → ℕ → List String → Run (List String × List String)
unfolding recent_spoofer
next_batch kind limit left =
    if in_array (take (at_most limit left) left) non_spoofed
    then ok (non_spoofed ∷ [], drop 1 left)
    else elim (recent_spoofer kind) [
      | none ↦ ok (take (at_most limit left) left, drop (at_most limit left) left)
      | some spoofer ↦
          let newleft = without_spoofer spoofer left in
          let min = at_most (limit - 1) newleft in
          if limit == 0 then panic else ok (spoofer ∷ take min newleft, drop min newleft)
    ]

-- The part of GetRRVPs after the target is found.
unfoldable pub take_batch : Revtr → Kind → String → Run (Revtr × List String)
take_batch rt kind cls =
    next_batch kind (lookup_or rt.rr_hop_rate_limit cls 0) (vps_left rt cls) >>= λ (vps, left).
    ok (record rt { rr_hop_vps_left = insert rt.rr_hop_vps_left cls left }, vps)

unfoldable pub get_rr_vps : Env → VpSource → Revtr → Run (Revtr × List String × String)
unfolding initialize_loop pick_target take_batch
get_rr_vps env vps rt = (curr_path rt >>= last_seg) >>= λ seg.
    initialize_loop env vps rt (hops seg) >>= λ rt'.
    elim (pick_target rt' (reverse (clone_string_slice (hops seg)))) [
      | none ↦ ok (rt', [], "")
      | some target ↦ take_batch rt' seg.kind target >>= λ (rt'', batch). ok (rt'', batch, target)
    ]
