-- ===== src/Segment/Tests.antt =====
-- Segments at concrete hops. The clusters are the hops themselves.
use native.Mathlib.Omega.{arith}
use reverse_traceroute_publi.Base.{
  ℕ, ◌≡◌, ◌≤◌, ◌<◌, ◌↔◌, ◌⊎◌, refl, String, Bool, true, List, [], ◌∷◌, take, drop, Run, ok, panic,
  str_eq, false,
}
use reverse_traceroute_publi.StringUtil.{in_array}
use reverse_traceroute_publi.StringUtil.Samples.{keep_order, keep_order-IsRangeOrder}
use reverse_traceroute_publi.Segment.{
  RevSegment, Segment, null_hop, remove_hops, rr_rev_segment, order_segments,
}
use reverse_traceroute_publi.Segment.Symmetric.{ndsrs_select_nonzero_hops}
use reverse_traceroute_publi.Segment.LoopFree.{
  remove_hops-in_array, remove_hops-drop, remove_hops-error_iff, CutAt,
}
use reverse_traceroute_publi.Segment.Select.{select_enough, count_valid, counts, EndsIn}
use reverse_traceroute_publi.Segment.Order.{Less}

abbrev same_cluster : String → String
same_cluster h = h

abbrev four_hops : RevSegment
four_hops = record {
  segment = "1.0.0.1" ∷ "1.0.0.2" ∷ "0.0.0.0" ∷ "1.0.0.3" ∷ [];
  src = "9.9.9.9";
  hop = "1.0.0.0";
}

abbrev old_hops : List String
old_hops = "1.0.0.2" ∷ "0.0.0.0" ∷ []

cut_four :
    (remove_hops same_cluster keep_order four_hops old_hops).0.segment ≡ "0.0.0.0" ∷ "1.0.0.3" ∷ []
unfolding remove_hops reverse_traceroute_publi.Segment.cut_common
    reverse_traceroute_publi.StringUtil.union reverse_traceroute_publi.Segment.no_zeros_loop
    reverse_traceroute_publi.Base.lookup reverse_traceroute_publi.Base.insert
    reverse_traceroute_publi.Segment.max_index_loop
cut_four = refl

null_is_left :
    in_array (remove_hops same_cluster keep_order four_hops old_hops).0.segment "0.0.0.0" ≡ true
unfolding remove_hops in_array reverse_traceroute_publi.Segment.cut_common
    reverse_traceroute_publi.StringUtil.union reverse_traceroute_publi.Segment.no_zeros_loop
    reverse_traceroute_publi.Base.lookup reverse_traceroute_publi.Base.insert
    reverse_traceroute_publi.Segment.max_index_loop
null_is_left = refl

null_is_old : in_array old_hops "0.0.0.0" ≡ true
unfolding in_array
null_is_old = refl

remove_hops-in_array_example : "0.0.0.0" ≡ null_hop
remove_hops-in_array_example =
    remove_hops-in_array same_cluster keep_order keep_order-IsRangeOrder four_hops old_hops
      "0.0.0.0" null_is_left null_is_old

remove_hops-drop_example :
    (end : ℕ) × ((remove_hops same_cluster keep_order four_hops old_hops).0
      ≡ record four_hops { segment = drop end four_hops.segment })
    × CutAt same_cluster four_hops.segment old_hops end
remove_hops-drop_example =
    remove_hops-drop same_cluster keep_order keep_order-IsRangeOrder four_hops old_hops

remove_hops-error_iff_example :
    ((remove_hops same_cluster keep_order four_hops old_hops).1 ≡ true) ↔ (
      (in_array (remove_hops same_cluster keep_order four_hops old_hops).0.segment null_hop ≡ true)
      × (in_array old_hops null_hop ≡ true))
remove_hops-error_iff_example =
    remove_hops-error_iff same_cluster keep_order keep_order-IsRangeOrder four_hops old_hops

abbrev forward : List String
forward = "1.0.0.1" ∷ "0.0.0.0" ∷ "1.0.0.2" ∷ "1.0.0.3" ∷ "0.0.0.0" ∷ []

abbrev known : List String
known = "1.0.0.1" ∷ []

one_counts : 1 ≤ count_valid known forward
unfolding count_valid in_array
one_counts = omega arith

select_enough_example :
    (n : ℕ) × (ndsrs_select_nonzero_hops forward 1 known ≡ ok (take n forward))
    × (count_valid known (take n forward) ≡ 1)
    × ((n ≡ 0) ⊎ EndsIn forward n (λ h. counts known h ≡ true))
select_enough_example = select_enough forward 1 known one_counts

two_count : count_valid known forward < 5
unfolding count_valid in_array
two_count = omega arith

abbrev recorded : List String → Segment
recorded segment = record {
  kind = rr_rev_segment;
  rev = record { segment = segment; src = "9.9.9.9"; hop = "1.0.0.0" };
}

abbrev one_hop : Segment
one_hop = recorded ("1.0.0.1" ∷ [])

abbrev two_hops : Segment
two_hops = recorded ("1.0.0.1" ∷ "1.0.0.2" ∷ [])

abbrev reaching : Segment
reaching = recorded ("1.0.0.1" ∷ "9.9.9.9" ∷ [])

one_before_two : Less same_cluster one_hop two_hops
unfolding order_segments reverse_traceroute_publi.Segment.is_dst_sym
    reverse_traceroute_publi.Segment.order_rev
    reverse_traceroute_publi.StringUtil.string_array_equals
    reverse_traceroute_publi.Segment.last_hop_of reverse_traceroute_publi.Segment.reaches
    reverse_traceroute_publi.Segment.compare_length reverse_traceroute_publi.Segment.segment_length
one_before_two = refl

reaching_last : Less same_cluster two_hops reaching
unfolding order_segments reverse_traceroute_publi.Segment.is_dst_sym
    reverse_traceroute_publi.Segment.order_rev
    reverse_traceroute_publi.StringUtil.string_array_equals
    reverse_traceroute_publi.Segment.last_hop_of reverse_traceroute_publi.Segment.reaches
reaching_last = refl
