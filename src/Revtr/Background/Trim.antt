-- ===== src/Revtr/Background/Trim.antt =====
-- AddBackgroundTRSegment: the copy of the path ends at the intersection.
use reverse_traceroute_publi.Base.{
  ℕ, zero, suc, ◌+◌, ◌-◌, ◌≤◌, ◌<◌, ◌≡◌, refl, sym, ap, ◌∙◌, inl, inr, String, true, false, some,
  List, [], ◌∷◌, ◌++◌, length, length-append, length-drop, length-take, take, drop, ok, ltb, arith,
  Bool-cases,
}
use mathlib.Core.List.{append-nil}
use reverse_traceroute_publi.StringUtil.{string_slice_index}
use reverse_traceroute_publi.StringUtil.Slices.{string_slice_index-FirstAt}
use reverse_traceroute_publi.Segment.{RevSegment, Segment, hops, remove_at}
use reverse_traceroute_publi.ReversePath.{ReversePath, clone_path, path_hops}
use reverse_traceroute_publi.ReversePath.Stack.{path_hops-append}
use reverse_traceroute_publi.Revtr.Background.{
  string_slice_index_with_clusters, remove_times, cut_segment, trim_loop, find_chunk,
}

module _ {A : Type 0} where
  take-length : (n : ℕ) (xs : List A) → length xs ≤ n → take n xs ≡ xs
  take-length zero [] h = refl
  take-length zero (x ∷ xs) h = absurd (omega arith)
  take-length (suc n) [] h = refl
  take-length (suc n) (x ∷ xs) h = ap (◌∷◌ x) (take-length n xs (omega arith))

  take-append-take : (n : ℕ) (xs ys : List A) → n ≤ length xs → take n (take n xs ++ ys) ≡ take n xs
  take-append-take zero xs ys h = refl
  take-append-take (suc n) [] ys h = absurd (omega arith)
  take-append-take (suc n) (x ∷ xs) ys h = ap (◌∷◌ x) (take-append-take n xs ys (omega arith))

remove_times-take :
    (m l : ℕ) (rv : RevSegment)
    → length rv.segment ≡ l + m
    → remove_times m l rv ≡ ok (record rv { segment = take l rv.segment })
unfolding remove_times remove_at
remove_times-take zero l rv h =
    ap (λ t. ok (record rv { segment = t })) (sym (take-length l rv.segment (omega arith)))
remove_times-take (suc m) l rv h =
    let rest = take l rv.segment ++ drop (suc l) rv.segment in
    let inside : ltb l (length rv.segment) ≡ true = ground arith in
    let size : length rest ≡ l + m = omega (
      arith,
      length-append (take l rv.segment) (drop (suc l) rv.segment),
      length-take l rv.segment,
      length-drop (suc l) rv.segment,
    ) in
    rw inside (
      remove_times-take m l (record rv { segment = rest }) size
      ∙ ap (λ t. ok (record rv { segment = t }))
          (take-append-take l rv.segment (drop (suc l) rv.segment) (omega arith)))

-- The segment cut behind index `n`.
abbrev pub cut_behind : ℕ → Segment → Segment
cut_behind n s = record s { rev = record s.rev { segment = take (suc n) (hops s) } }

cut_segment-here :
    (index k n : ℕ) (hop : String) (s : Segment)
    → string_slice_index (hops s) hop ≡ some n
    → n < length (hops s)
    → index ≡ k + n
    → cut_segment index hop k s ≡ ok (cut_behind n s)
unfolding cut_segment
cut_segment-here index k n hop s at lt e =
    let size : length s.rev.segment ≡ suc n + (k + length (hops s) - suc index) = omega arith in
    let removed = remove_times-take (k + length (hops s) - suc index) (suc n) s.rev size in
    rw (at, removed) refl

cut_segment-before :
    (index k : ℕ) (hop : String) (t : Segment)
    → k + length (hops t) ≤ index
    → cut_segment index hop k t ≡ ok t
unfolding cut_segment remove_times
cut_segment-before index k hop t le =
    let none_left : k + length (hops t) - suc index ≡ 0 = omega arith in rw none_left refl

cut_behind-all : (n : ℕ) (s : Segment) → length (hops s) ≤ suc n → cut_behind n s ≡ s
cut_behind-all n s le =
    ap (λ t. record s { rev = record s.rev { segment = t } }) (take-length (suc n) (hops s) le)

module _ (hop : String) (index n : ℕ) (s : Segment) (at : string_slice_index (hops s) hop ≡ some n)
    (lt : n < length (hops s)) where
  trim_loop-last :
      (before : List Segment) (k : ℕ)
      → index ≡ k + length (path_hops before) + n
      → trim_loop index hop k (before ++ s ∷ []) ≡ ok (before ++ cut_behind n s ∷ [])
  unfolding trim_loop path_hops
  trim_loop-last [] k e =
      let past : ltb index k ≡ false = ground arith in
      let size = ap length (append-nil (hops s)) in
      let ended : ltb (suc index) (k + length (take (suc n) (hops s))) ≡ false =
        ground (arith, length-take (suc n) (hops s)) in
      let cut = cut_segment-here index k n hop s at lt (omega arith) in
      elim (Bool-cases (ltb (suc index) (k + length (hops s ++ [])))) [
        | inl more ↦ rw (more, past, cut, ended) refl
        | inr all ↦ rw all (ap (λ t. ok (t ∷ [])) (sym (cut_behind-all n s (ground (arith, size)))))
      ]
  trim_loop-last (t ∷ before) k e =
      let past : ltb index k ≡ false = ground arith in
      let size = length-append (hops t) (path_hops before) in
      let all_hops = length-append (hops t) (path_hops (before ++ s ∷ [])) in
      let last_hops = ap length (path_hops-append before s) in
      let last_size = length-append (path_hops before) (hops s) in
      let whole = cut_segment-before index k hop t (omega (arith, size)) in
      let rest = trim_loop-last before (k + length (hops t)) (omega (arith, size)) in
      elim (Bool-cases (ltb (suc index) (k + length (hops t ++ path_hops (before ++ s ∷ []))))) [
        | inl more ↦ rw (more, past, whole, rest) refl
        | inr all ↦
            let le : length (hops s) ≤ suc n =
              ground (arith, size, all_hops, last_hops, last_size) in
            rw all (ap (λ u. ok (t ∷ (before ++ u ∷ []))) (sym (cut_behind-all n s le)))
      ]

-- Where the first hop of a traceroute stands in the last segment of the first path looked at, at
-- the index that the clusters give, AddBackgroundTRSegment trims the copy of that path so that it
-- ends at that hop, and changes nothing before it.
pub find_chunk-cut_behind :
    (cm : String → String) (hop : String) (chunk : ReversePath) (paths : List ReversePath)
    (before : List Segment) (s : Segment) (n : ℕ)
    → (clone_path chunk).path ≡ before ++ s ∷ []
    → string_slice_index_with_clusters cm (path_hops chunk.path) hop
      ≡ some (length (path_hops before) + n)
    → string_slice_index (hops s) hop ≡ some n
    → (found : ReversePath) × (find_chunk cm hop (chunk ∷ paths) ≡ ok (some found))
      × (found.path ≡ before ++ cut_behind n s ∷ [])
      × (path_hops found.path ≡ path_hops before ++ take (suc n) (hops s))
unfolding find_chunk
find_chunk-cut_behind cm hop chunk paths before s n split here at =
    let (front, rest, parts, len, fresh) = string_slice_index-FirstAt (hops s) hop n at in
    let lt : n < length (hops s) =
      omega (arith, ap length parts, length-append front (hop ∷ rest)) in
    let index = length (path_hops before) + n in
    let trimmed = trim_loop-last hop index n s at lt before 0 (omega arith) in
    (
      record (clone_path chunk) { path = before ++ cut_behind n s ∷ [] },
      rw (find_chunk, here, split, trimmed) refl,
      refl,
      path_hops-append before (cut_behind n s),
    )
