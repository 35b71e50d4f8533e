-- ===== src/Segment/LoopFree.antt =====
-- What RemoveHops guarantees of the segment that it leaves, and of its error.
use text.Mathlib.TextEquality.{eq_iff}
use reverse_traceroute_publi.Base.{
  ℕ, ◌≡◌, ◌≢◌, ◌↔◌, ◌⊎◌, inl, inr, refl, String, Bool, true, not, ◌&&◌, List, [], drop, str_eq,
  str_eq-eq, arith, Bool-cases,
}
use reverse_traceroute_publi.StringUtil.{union, in_array, IsRangeOrder}
use reverse_traceroute_publi.StringUtil.Sets.{in_array-union}
use reverse_traceroute_publi.Segment.{
  RevSegment, null_hop, r_index, max_index_loop, no_zeros_loop, cut_common, remove_hops,
}
use reverse_traceroute_publi.Segment.RemoveHops.{
  no_zeros_loop-in_array, none_of_empty, some_of_nonempty, in_array-drop, r_index-drop,
  max_index_loop-member, r_index-bound, max_index_loop-reached,
}

-- How the segment is cut: nowhere, or just behind the last hop of the cluster of a hop, not null,
-- that the segment shares with the hops to delete.
abbrev pub CutAt : (String → String) → List String → List String → ℕ → Type 0
CutAt cm segment to_del end =
    (end ≡ 0)
    ⊎ ((x : String) × (in_array segment x ≡ true)
        × (in_array to_del x ≡ true)
        × (x ≢ null_hop)
        × (r_index cm segment x ≡ end))

module _ (cm : String → String) (order : List (String × Bool) → List (String × Bool))
    (ranges : IsRangeOrder order) where
  -- The hops in common that decide the cut.
  in_array-common :
      (segment to_del : List String) (x : String)
      → in_array (union order segment (no_zeros_loop [] to_del)) x
        ≡ in_array segment x && (not (str_eq x null_hop) && in_array to_del x)
  unfolding in_array
  in_array-common segment to_del x = ground (
    arith,
    in_array-union order ranges segment (no_zeros_loop [] to_del) x,
    no_zeros_loop-in_array [] to_del x,
  )

  cut_common-drop :
      (segment to_del : List String)
      → (end : ℕ) × (cut_common cm order segment to_del ≡ drop end segment)
        × CutAt cm segment to_del end
  unfolding cut_common
  cut_common-drop segment to_del =
      let common = union order segment (no_zeros_loop [] to_del) in
      elim (max_index_loop-reached cm segment common 0) [
        | inl start ↦ (0, rw start (ground arith), inl refl)
        | inr (x, member, at) ↦
            let shared = in_array-common segment to_del x in
            let bound = r_index-bound cm segment x in
            (
              max_index_loop cm segment common 0,
              ground (arith, none_of_empty common x),
              inr (x, ground arith, ground arith, (λ e. ground (arith, eq_iff x null_hop)), at),
            )
      ]

  cut_common-in_array :
      (segment to_del : List String) (x : String)
      → in_array (cut_common cm order segment to_del) x ≡ true
      → in_array to_del x ≡ true
      → x ≡ null_hop
  unfolding cut_common in_array
  cut_common-in_array segment to_del x h k =
      let common = union order segment (no_zeros_loop [] to_del) in
      let m = max_index_loop cm segment common 0 in
      elim (Bool-cases (str_eq x null_hop)) [
        | inl null ↦ str_eq-eq x null_hop null
        | inr other ↦ absurd (
            ground (
              arith,
              in_array-common segment to_del x,
              none_of_empty common x,
              in_array-drop m segment x,
              max_index_loop-member cm segment common 0 x,
              r_index-drop cm segment x m,
            ))
      ]

  -- Where a range over a map gives each entry once, what RemoveHops leaves shares no hop with the
  -- hops to delete but the null hop.
  pub remove_hops-in_array :
      (rv : RevSegment) (to_del : List String) (x : String)
      → in_array (remove_hops cm order rv to_del).0.segment x ≡ true
      → in_array to_del x ≡ true
      → x ≡ null_hop
  unfolding remove_hops
  remove_hops-in_array rv to_del x h k = cut_common-in_array rv.segment to_del x h k

  -- Where a range over a map gives each entry once, RemoveHops cuts the segment at the front
  -- alone, nowhere or just behind the last hop of the cluster of a shared hop.
  pub remove_hops-drop :
      (rv : RevSegment) (to_del : List String)
      → (end : ℕ) × ((remove_hops cm order rv to_del).0
          ≡ record rv { segment = drop end rv.segment })
        × CutAt cm rv.segment to_del end
  unfolding remove_hops
  remove_hops-drop rv to_del =
      let (end, cut, at) = cut_common-drop rv.segment to_del in (end, rw cut, at)

  -- Where a range over a map gives each entry once, RemoveHops returns an error exactly when the
  -- null hop is both in what is left and among the hops to delete.
  pub remove_hops-error_iff :
      (rv : RevSegment) (to_del : List String)
      → ((remove_hops cm order rv to_del).1 ≡ true) ↔ (
          (in_array (remove_hops cm order rv to_del).0.segment null_hop ≡ true)
          × (in_array to_del null_hop ≡ true))
  unfolding remove_hops
  remove_hops-error_iff rv to_del =
      let segment = cut_common cm order rv.segment to_del in
      let common = union order segment to_del in
      let both = λ (x : String). in_array-union order ranges segment to_del x in
      (
        (λ found.
            let (x, member) = some_of_nonempty common found in
            let null = cut_common-in_array rv.segment to_del x (ground (arith, both x)) in
            let at = rw (null (ground (arith, both x))) at member in ground (arith, both null_hop)),
        λ (h, k). ground (arith, both null_hop, none_of_empty common null_hop),
      )
