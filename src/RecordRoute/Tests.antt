-- ===== src/RecordRoute/Tests.antt =====
-- A record-route answer at concrete addresses.
use reverse_traceroute_publi.Base.{
  ℕ, ◌≡◌, refl, String, true, List, [], ◌∷◌, some, ok, str_eq, if◌then◌else◌,
}
use reverse_traceroute_publi.RecordRoute.{process_rr}
use reverse_traceroute_publi.RecordRoute.Process.{Processed, process_rr-Processed}

-- The addresses 0.0.0.7 and 0.0.0.8 are in one cluster.
abbrev cluster_of : String → String
cluster_of h = if str_eq h "0.0.0.7" then "c" else if str_eq h "0.0.0.8" then "c" else h

-- The destination answers at 0.0.0.2; the way back loops from 0.0.0.7 to 0.0.0.8.
abbrev answer : List ℕ
answer = 1 ∷ 2 ∷ 7 ∷ 3 ∷ 8 ∷ 4 ∷ []

answer_hops : process_rr cluster_of "0.0.0.2" answer true ≡ some (ok ("0.0.0.8" ∷ "0.0.0.4" ∷ []))
unfolding process_rr reverse_traceroute_publi.RecordRoute.last_of
    reverse_traceroute_publi.IpUtil.int32_to_ip_string reverse_traceroute_publi.RecordRoute.find_dst
    reverse_traceroute_publi.RecordRoute.after_dst reverse_traceroute_publi.RecordRoute.remove_loops
    reverse_traceroute_publi.RecordRoute.string_slice_r_index
answer_hops = refl

process_rr-Processed_example :
    Processed cluster_of "0.0.0.2" answer (process_rr cluster_of "0.0.0.2" answer true)
process_rr-Processed_example = process_rr-Processed cluster_of "0.0.0.2" answer
