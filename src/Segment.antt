-- ===== src/Segment.antt =====
-- revtr/reverse_traceroute/segments.go: the segments of a reverse path.
-- The segment types of Go embed one another, down to RevSegment; a `Segment` is the embedded
-- RevSegment with the dynamic type and what that type adds. The clusters of a ClusterMap are a
-- function of the hop, and `is_global_unicast h` is `net.ParseIP(h).IsGlobalUnicast()`.
-- An index that may be -1 is kept as the index plus one.
mod RemoveHops
pub mod Create
pub mod Symmetric
pub mod LoopFree
pub mod Select
pub mod Order
mod Tests
use Prim.Native.Nat.{Ordering}
use reverse_traceroute_publi.Base.{
  ℕ, zero, suc, ◌+◌, ◌-◌, String, Bool, true, false, not, ◌&&◌, ◌||◌, Option, none, some, List, [],
  ◌∷◌, ◌++◌, length, get_elem?, take, drop, Run, ok, panic, ◌>>=◌, str_eq, if◌then◌else◌, ltb, ◌==◌,
}
use reverse_traceroute_publi.StringUtil.{
  union, in_array, string_array_equals, order_string_array, compare_string, string_slice_reverse,
}

abbrev pub null_hop : String
null_hop = "0.0.0.0"

pub record RevSegment : Type 0 where
  pub segment : List String
  pub src : String
  pub hop : String

-- The dynamic type of a segment, with the fields that it adds to RevSegment.
pub data Kind : Type 0 where
  rev_segment dst_rev_segment tr_to_src_rev_segment rr_rev_segment : Kind
  dst_sym_rev_segment : List String → ℕ → Kind
  spoof_rr_rev_segment : String → Kind
  ts_adj_rev_segment : Bool → Kind
  spoof_ts_adj_rev_segment : String → Bool → Kind
  spoof_ts_adj_rev_segment_ts_zero : String → Bool → Kind
  spoof_ts_adj_rev_segment_ts_zero_double_stamp : String → Bool → Kind

pub record Segment : Type 0 where
  pub kind : Kind
  pub rev : RevSegment

-- The methods `Type`; the numbers count up from dstRevSegment.
unfoldable pub type_of : Kind → ℕ
type_of rev_segment = 0
type_of dst_rev_segment = 1
type_of (dst_sym_rev_segment tr num_hops) = 2
type_of tr_to_src_rev_segment = 3
type_of rr_rev_segment = 4
type_of (spoof_rr_rev_segment spoof_source) = 5
type_of (ts_adj_rev_segment linux_bug) = 6
type_of (spoof_ts_adj_rev_segment spoof_source linux_bug) = 7
type_of (spoof_ts_adj_rev_segment_ts_zero spoof_source linux_bug) = 8
type_of (spoof_ts_adj_rev_segment_ts_zero_double_stamp spoof_source linux_bug) = 9

-- `rv.Segment[idx+1:]` panics past the end; the rest moves down by one.
unfoldable pub remove_at : RevSegment → ℕ → Run RevSegment
remove_at rv idx =
    if ltb idx (length rv.segment)
    then ok (record rv { segment = take idx rv.segment ++ drop (suc idx) rv.segment })
    else panic

-- The methods `Clone`. A TRtoSrcRevSegment has none of its own: the method of the embedded
-- RevSegment is called, and returns a RevSegment.
unfoldable pub clone_kind : Kind → Kind
clone_kind tr_to_src_rev_segment = rev_segment
clone_kind kind = kind

unfoldable pub clone : Segment → Segment
unfolding clone_kind
clone s = record { kind = clone_kind s.kind; rev = s.rev }

abbrev pub hops : Segment → List String
hops s = s.rev.segment

pub set_hop : RevSegment → String → RevSegment
set_hop rv hop = record rv { hop = hop }

-- Length, with `excNullHops`.
length_loop : ℕ → List String → ℕ
length_loop n [] = n
length_loop n (h ∷ hs) = length_loop (if str_eq h null_hop then n else n + 1) hs

unfoldable pub segment_length : RevSegment → Bool → ℕ
unfolding length_loop
segment_length rv exc_null_hops =
    if exc_null_hops then length_loop 0 rv.segment else length rv.segment

unfoldable pub last_hop_of : List String → String
last_hop_of [] = ""
last_hop_of (h ∷ []) = h
last_hop_of (h ∷ h' ∷ hs) = last_hop_of (h' ∷ hs)

abbrev pub last_hop : RevSegment → String
last_hop rv = last_hop_of rv.segment

pub symmetric_assumptions : Segment → ℕ
symmetric_assumptions s = 0

local_loop : (String → Bool) → (String → Bool) → List String → List String → List String
local_loop parses is_global_unicast ns [] = ns
local_loop parses is_global_unicast ns (h ∷ hs) =
    local_loop parses is_global_unicast
      (if parses h && is_global_unicast h then ns ++ h ∷ [] else ns) hs

pub remove_local_hops : (String → Bool) → (String → Bool) → RevSegment → RevSegment
unfolding local_loop
remove_local_hops parses is_global_unicast rv = record rv {
  segment = local_loop parses is_global_unicast [] rv.segment;
}

pub no_zeros_loop : List String → List String → List String
no_zeros_loop no_zeros [] = no_zeros
no_zeros_loop no_zeros (ip ∷ to_del) =
    no_zeros_loop (if str_eq ip null_hop then no_zeros else no_zeros ++ ip ∷ []) to_del

-- Order compares the types of `rv` and `b` first, and `rv`, the embedded segment that the method
-- is called on, is a RevSegment whatever segment embeds it. The results are -1, 0 and +1.
pub is_dst_sym : Kind → Bool
is_dst_sym (dst_sym_rev_segment tr num_hops) = true
is_dst_sym kind = false

pub compare_length : ℕ → ℕ → Ordering → Ordering
compare_length ll rl otherwise =
    if ltb ll rl then Ordering.lt else if ltb rl ll then Ordering.gt else otherwise

-- The clusters of the hops.
module _ (cm : String → String) where
  unfoldable pub reaches : RevSegment → Bool
  reaches rv = str_eq (last_hop rv) rv.src || str_eq (cm (last_hop rv)) (cm rv.src)

  -- The loop of rIndex from index `i`; the result is the index plus one.
  pub r_index_loop : ℕ → List String → String → ℕ → ℕ
  r_index_loop i [] s index = index
  r_index_loop i (st ∷ ss) s index =
      r_index_loop (suc i) ss s (if str_eq (cm s) (cm st) then suc i else index)

  unfoldable pub r_index : List String → String → ℕ
  unfolding r_index_loop
  r_index ss s = r_index_loop 0 ss s 0

  pub max_index_loop : List String → List String → ℕ → ℕ
  unfolding r_index
  max_index_loop segment [] max_index = max_index
  max_index_loop segment (h ∷ common) max_index =
      let tmp = r_index segment h in
      max_index_loop segment common (if ltb max_index tmp then tmp else max_index)

  module _ (order : List (String × Bool) → List (String × Bool)) where
    -- The part of RemoveHops that cuts the segment.
    pub cut_common : List String → List String → List String
    cut_common segment to_del =
        let common = union order segment (no_zeros_loop [] to_del) in
        let max_index = max_index_loop segment common 0 in
        if ltb 0 (length common)
        then if max_index == suc (length segment) then [] else drop max_index segment
        else segment

    -- The segment afterwards, and whether an error is returned.
    unfoldable pub remove_hops : RevSegment → List String → RevSegment × Bool
    remove_hops rv to_del =
        let segment = cut_common rv.segment to_del in
        (record rv { segment = segment }, ltb 0 (length (union order segment to_del)))

  pub order_rev : RevSegment → RevSegment → Ordering
  order_rev rv b =
      if string_array_equals rv.segment b.segment
      then Ordering.eq
      else if str_eq (last_hop rv) (last_hop b)
      then compare_length (segment_length rv true) (segment_length b true)
          (order_string_array rv.segment b.segment)
      else if reaches rv
      then Ordering.gt
      else if reaches b
      then Ordering.lt
      else compare_length (segment_length rv true) (segment_length b true)
          (compare_string (last_hop rv) (last_hop b))

  unfoldable pub order_segments : Segment → Segment → Ordering
  order_segments a b =
      let receiver = rev_segment in
      if is_dst_sym receiver && not (is_dst_sym b.kind)
      then Ordering.lt
      else if is_dst_sym b.kind && not (is_dst_sym receiver)
      then Ordering.gt
      else order_rev a.rev b.rev
