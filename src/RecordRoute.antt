-- ===== src/RecordRoute.antt =====
-- processRR of revtr/runner/revtr_runner.go: the reverse hops of a record-route answer.
-- An index that may be -1 is kept as the index plus one. The loop that removes the cluster loops
-- runs on fuel; `none` is that the fuel ran out.
pub mod LoopRemoval
pub mod Process
mod Tests
use reverse_traceroute_publi.Base.{
  ℕ, zero, suc, ◌+◌, ◌-◌, String, Bool, Option, none, some, List, [], ◌∷◌, ◌++◌, map, length,
  get_elem?, drop, Run, ok, panic, str_eq, if◌then◌else◌, ltb, ◌==◌,
}
use reverse_traceroute_publi.IpUtil.{int32_to_ip_string}

pub r_index_loop : ℕ → List String → String → ℕ → ℕ
r_index_loop i [] s rindex = rindex
r_index_loop i (sss ∷ ss) s rindex =
    r_index_loop (suc i) ss s (if str_eq sss s then suc i else rindex)

unfoldable pub string_slice_r_index : List String → String → ℕ
unfolding r_index_loop
string_slice_r_index ss s = r_index_loop 0 ss s 0

-- The loop over currIndex; an index that does not move on is tried again.
unfoldable pub remove_loops :
    ℕ → List String → List String → ℕ → List String → Option (Run (List String))
remove_loops zero clusters hopss curr_index ret = none
remove_loops (suc fuel) clusters hopss curr_index ret =
    let again = remove_loops fuel clusters hopss curr_index ret in
    let at_cluster : Option (Run (List String)) = elim (get_elem? clusters curr_index) [
      | none ↦ some panic
      | some c ↦
          let ri = string_slice_r_index clusters c in
          let at_hop : Option (Run (List String)) = elim (get_elem? hopss (ri - 1)) [
            | none ↦ some panic
            | some h ↦ remove_loops fuel clusters hopss ri (ret ++ h ∷ [])
          ] in
          if ltb curr_index ri then at_hop else again
    ] in
    if ltb curr_index (length clusters) then at_cluster else some (ok ret)

module _ (cm : String → String) where
  -- The search down from index `n` for a hop in the cluster of the destination.
  unfoldable pub find_dst : String → List String → ℕ → Option ℕ
  find_dst dstcls hopss zero = none
  find_dst dstcls hopss (suc n) = elim (get_elem? hopss n) [
    | some h ↦ if str_eq dstcls (cm h) then some n else find_dst dstcls hopss n
    | none ↦ none
  ]

  unfoldable pub last_of : List String → Option String
  last_of [] = none
  last_of (h ∷ []) = some h
  last_of (h ∷ h' ∷ hs) = last_of (h' ∷ hs)

  -- What follows the last hop of the destination's cluster.
  pub after_dst : Bool → List String → Option (Run (List String))
  after_dst remove hopss =
      if remove
      then remove_loops (suc (length hopss)) (map cm hopss) hopss 0 []
      else some (ok hopss)

  unfoldable pub process_rr : String → List ℕ → Bool → Option (Run (List String))
  process_rr dst hops remove =
      let hopss = map int32_to_ip_string hops in
      elim (last_of hopss) [
        | none ↦ some (ok [])
        | some last ↦
            if str_eq (cm last) (cm dst)
            then some (ok [])
            else (elim (find_dst (cm dst) hopss (length hops - 1)) [
              | some i ↦ after_dst remove (if i == length hops - 1 then [] else drop (suc i) hopss)
              | none ↦ some (ok [])
            ])
      ]
