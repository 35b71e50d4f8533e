-- ===== src/Segment/Symmetric.antt =====
-- revtr/reverse_traceroute/segments.go: the hops of a forward path that are assumed symmetric.
use reverse_traceroute_publi.Base.{
  ℕ, zero, suc, ◌+◌, ◌-◌, String, Bool, not, ◌&&◌, none, some, List, [], ◌∷◌, length, get_elem?,
  take, Run, ok, panic, ◌>>=◌, str_eq, if◌then◌else◌, ltb, ◌==◌,
}
use reverse_traceroute_publi.StringUtil.{in_array, string_slice_reverse}
use reverse_traceroute_publi.Segment.{null_hop, RevSegment, Segment, dst_sym_rev_segment}
use reverse_traceroute_publi.Segment.Create.{new_rev_segment}

-- The first loop of ndsrsSelectNonzeroHops, over what is left of `tr`: `i` and `found`.
unfoldable pub select_loop : ℕ → List String → ℕ → ℕ → List String → ℕ × ℕ
select_loop wanted ignore i found [] = (i, found)
select_loop wanted ignore i found (h ∷ tr) =
    let counts = not (str_eq h null_hop) && not (in_array ignore h) in
    let rest = select_loop wanted ignore (i + 1) (if counts then found + 1 else found) tr in
    if ltb found wanted then rest else (i, found)

-- The second loop: `n` is lastValidHop plus one, and an index of -1 panics.
unfoldable pub last_valid : List String → ℕ → Run ℕ
last_valid tr zero = panic
last_valid tr (suc n) = elim (get_elem? tr n) [
  | some h ↦ if str_eq h null_hop then last_valid tr n else ok (suc n)
  | none ↦ panic
]

unfoldable pub ndsrs_select_nonzero_hops : List String → ℕ → List String → Run (List String)
unfolding select_loop last_valid
ndsrs_select_nonzero_hops tr wanted hops_to_ignore =
    let (i, found) = select_loop wanted hops_to_ignore 0 0 tr in
    if found == wanted then ok (take i tr) else (last_valid tr (length tr) >>= λ n. ok (take n tr))

-- `tr[:len(tr)-1]`, after the source, in reverse; with no hop it panics.
pub reversed_path : String → List String → Run (List String)
reversed_path src tr =
    if length tr == 0 then panic else ok (string_slice_reverse (src ∷ take (length tr - 1) tr))

unfoldable pub new_dst_sym_rev_segment :
    (String → Bool) → String → String → List String → ℕ → List String → Run Segment
unfolding reversed_path new_rev_segment
new_dst_sym_rev_segment is_global_unicast src hop tr numhops hops_to_ignore = do
  rev ← reversed_path src tr
  segment ← ndsrs_select_nonzero_hops rev numhops hops_to_ignore
  ok (record {
    kind = dst_sym_rev_segment tr numhops;
    rev = new_rev_segment is_global_unicast segment src hop;
  })

-- AddHop, on the fields of a DstSymRevSegment.
unfoldable pub add_hop : List String → ℕ → RevSegment → List String → Run Segment
unfolding reversed_path
add_hop tr num_hops rv hops_to_ignore = do
  rev ← reversed_path rv.src tr
  segment ← ndsrs_select_nonzero_hops rev (num_hops + 1) hops_to_ignore
  ok (record {
    kind = dst_sym_rev_segment tr (num_hops + 1);
    rev = record rv { segment = segment };
  })
