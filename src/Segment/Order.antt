-- ===== src/Segment/Order.antt =====
-- Order, by which AddSegments sorts: `Less a b` is what sort.Sort is told.
use Prim.Native.Nat.{Ordering}
use text.Mathlib.TextEquality.{eq_iff}
use reverse_traceroute_publi.Base.{
  ◌≡◌, ◌≢◌, inl, inr, ◌∙◌, String, true, false, str_eq, str_eq-eq, if◌then◌else◌, arith, Bool-cases,
}
use reverse_traceroute_publi.StringUtil.{string_array_equals}
use reverse_traceroute_publi.StringUtil.Slices.{string_array_equals-eq, string_array_equals_refl}
use reverse_traceroute_publi.StringUtil.Compare.{
  compare_string_asym, compare_string_trans, order_string_array_asym, order_string_array_trans,
}
use reverse_traceroute_publi.Segment.{
  RevSegment, Segment, last_hop, reaches, segment_length, compare_length, order_rev, is_dst_sym,
  order_segments,
}

module _ (cm : String → String) where
  order_rev_refl : (a : RevSegment) → order_rev cm a a ≡ Ordering.eq
  unfolding order_rev
  order_rev_refl a = rw (string_array_equals_refl a.segment)

  order_rev_asym :
      (a b : RevSegment) → order_rev cm a b ≡ Ordering.lt → order_rev cm b a ≢ Ordering.lt
  unfolding order_rev compare_length
  order_rev_asym a b h k = ground (
    arith,
    eq_iff (last_hop a) (last_hop b),
    eq_iff (last_hop b) (last_hop a),
    order_string_array_asym a.segment b.segment,
    compare_string_asym (last_hop a) (last_hop b),
  )

  -- Two segments for one source with one last hop reach it alike.
  reaches-last_hop :
      (a b : RevSegment)
      → a.src ≡ b.src
      → str_eq (last_hop a) (last_hop b) ≡ true
      → reaches cm a ≡ reaches cm b
  unfolding reaches
  reaches-last_hop a b e h = rw (str_eq-eq _ _ h, e)

  -- The hops and the source decide the order.
  order_rev-left :
      (a b c : RevSegment)
      → a.src ≡ b.src
      → a.segment ≡ b.segment
      → order_rev cm a c ≡ order_rev cm b c
  unfolding order_rev reaches segment_length
  order_rev-left a b c e h = rw (e, h)

  order_rev-right :
      (a b c : RevSegment)
      → a.src ≡ b.src
      → a.segment ≡ b.segment
      → order_rev cm c a ≡ order_rev cm c b
  unfolding order_rev reaches segment_length
  order_rev-right a b c e h = rw (e, h)

  order_rev_trans :
      (a b c : RevSegment)
      → a.src ≡ b.src
      → b.src ≡ c.src
      → order_rev cm a b ≡ Ordering.lt
      → order_rev cm b c ≡ Ordering.lt
      → string_array_equals a.segment c.segment ≡ false
      → order_rev cm a c ≡ Ordering.lt
  unfolding order_rev compare_length
  order_rev_trans a b c e f h k other = ground (
    arith,
    eq_iff (last_hop a) (last_hop b),
    eq_iff (last_hop b) (last_hop c),
    eq_iff (last_hop a) (last_hop c),
    reaches-last_hop a b e,
    reaches-last_hop b c f,
    reaches-last_hop a c (e ∙ f),
    order_string_array_trans a.segment b.segment c.segment,
    compare_string_trans (last_hop a) (last_hop b) (last_hop c),
    compare_string_asym (last_hop a) (last_hop b),
  )

  -- The answer true of magicSort.Less.
  abbrev pub Less : Segment → Segment → Type 0
  Less a b = order_segments cm a b ≡ Ordering.lt

  -- A DstSymRevSegment on the right is answered +1, whatever stands on the left.
  order_segments_lem :
      (a b : Segment)
      → order_segments cm a b
        ≡ (if is_dst_sym b.kind then Ordering.gt else order_rev cm a.rev b.rev)
  unfolding order_segments is_dst_sym
  order_segments_lem a b = ground arith

  -- Less is irreflexive.
  pub Less-irrefl : (a : Segment) → ¬ Less a a
  Less-irrefl a h = ground (arith, order_segments_lem a a, order_rev_refl a.rev)

  -- Among segments for one source, the order by which AddSegments sorts is transitive.
  Less-trans :
      (a b c : Segment)
      → a.rev.src ≡ b.rev.src
      → b.rev.src ≡ c.rev.src
      → Less a b
      → Less b c
      → Less a c
  Less-trans a b c e f h k =
      let first : order_rev cm a.rev b.rev ≡ Ordering.lt = ground (arith, order_segments_lem a b) in
      let second : order_rev cm b.rev c.rev ≡ Ordering.lt =
        ground (arith, order_segments_lem b c) in
      elim (Bool-cases (string_array_equals a.rev.segment c.rev.segment)) [
        | inl same ↦
            let hops_eq = string_array_equals-eq a.rev.segment c.rev.segment same in
            absurd (
              order_rev_asym a.rev b.rev first
                (order_rev-right a.rev c.rev b.rev (e ∙ f) hops_eq ∙ second))
        | inr other ↦ ground (
          arith,
          order_segments_lem a c,
          order_segments_lem b c,
          order_rev_trans a.rev b.rev c.rev e f first second other,
        )
      ]
