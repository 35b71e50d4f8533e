-- ===== src/Segment/Create.antt =====
-- revtr/reverse_traceroute/segments.go: the functions that make the segments.
use reverse_traceroute_publi.Base.{String, Bool, List, [], ◌∷◌, if◌then◌else◌}
use reverse_traceroute_publi.Segment.{
  null_hop, RevSegment, Segment, dst_rev_segment, tr_to_src_rev_segment, rr_rev_segment,
  spoof_rr_rev_segment, ts_adj_rev_segment, spoof_ts_adj_rev_segment,
  spoof_ts_adj_rev_segment_ts_zero, spoof_ts_adj_rev_segment_ts_zero_double_stamp,
}

-- NewRevSegment writes into the slice that it is given.
pub global_hops : (String → Bool) → List String → List String
global_hops is_global_unicast [] = []
global_hops is_global_unicast (h ∷ hs) =
    (if is_global_unicast h then h else null_hop) ∷ global_hops is_global_unicast hs

unfoldable pub new_rev_segment : (String → Bool) → List String → String → String → RevSegment
unfolding global_hops
new_rev_segment is_global_unicast segment src hop = record {
  segment = global_hops is_global_unicast segment;
  src = src;
  hop = hop;
}

module _ (is_global_unicast : String → Bool) where
  unfoldable pub new_dst_rev_segment : List String → String → String → Segment
  unfolding new_rev_segment
  new_dst_rev_segment segment src hop = record {
    kind = dst_rev_segment;
    rev = new_rev_segment is_global_unicast segment src hop;
  }

  unfoldable pub new_tr_to_src_rev_segment : List String → String → String → Segment
  unfolding new_rev_segment
  new_tr_to_src_rev_segment segment src hop = record {
    kind = tr_to_src_rev_segment;
    rev = new_rev_segment is_global_unicast segment src hop;
  }

  unfoldable pub new_rr_rev_segment : List String → String → String → Segment
  unfolding new_rev_segment
  new_rr_rev_segment segment src hop = record {
    kind = rr_rev_segment;
    rev = new_rev_segment is_global_unicast segment src hop;
  }

  unfoldable pub new_spoof_rr_rev_segment : List String → String → String → String → Segment
  unfolding new_rev_segment
  new_spoof_rr_rev_segment segment src hop spfsrc = record {
    kind = spoof_rr_rev_segment spfsrc;
    rev = new_rev_segment is_global_unicast segment src hop;
  }

  unfoldable pub new_ts_adj_rev_segment : List String → String → String → Bool → Segment
  unfolding new_rev_segment
  new_ts_adj_rev_segment segment src hop linux_bug = record {
    kind = ts_adj_rev_segment linux_bug;
    rev = new_rev_segment is_global_unicast segment src hop;
  }

  unfoldable pub new_spoof_ts_adj_rev_segment :
      List String → String → String → String → Bool → Segment
  unfolding new_rev_segment
  new_spoof_ts_adj_rev_segment segment src hop spfsrc linux_bug = record {
    kind = spoof_ts_adj_rev_segment spfsrc linux_bug;
    rev = new_rev_segment is_global_unicast segment src hop;
  }

  unfoldable pub new_spoof_ts_adj_rev_segment_ts_zero :
      List String → String → String → String → Bool → Segment
  unfolding new_rev_segment
  new_spoof_ts_adj_rev_segment_ts_zero segment src hop spfsrc linux_bug = record {
    kind = spoof_ts_adj_rev_segment_ts_zero spfsrc linux_bug;
    rev = new_rev_segment is_global_unicast segment src hop;
  }

  unfoldable pub new_spoof_ts_adj_rev_segment_ts_zero_double_stamp :
      List String → String → String → String → Bool → Segment
  unfolding new_rev_segment
  new_spoof_ts_adj_rev_segment_ts_zero_double_stamp segment src hop spfsrc linux_bug = record {
    kind = spoof_ts_adj_rev_segment_ts_zero_double_stamp spfsrc linux_bug;
    rev = new_rev_segment is_global_unicast segment src hop;
  }
