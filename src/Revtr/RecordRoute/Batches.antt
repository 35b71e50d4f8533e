-- ===== src/Revtr/RecordRoute/Batches.antt =====
-- Each batch of vantage points uses some up, so that the rounds of record route come to an end.
use text.Mathlib.TextEquality.{eq_iff}
use reverse_traceroute_publi.Base.{
  ℕ, ◌+◌, ◌-◌, ◌≤◌, ◌<◌, ◌≡◌, ◌≢◌, ◌⊎◌, inl, inr, refl, String, true, false, some, List, [], ◌∷◌,
  ◌++◌, length, length-append, length-drop, length-take, take, drop, Run, ok, str_eq, str_eq_refl,
  if◌then◌else◌, ◌==◌, insert, lookup_or, lookup-insert, arith, Bool-cases, Option-cases,
}
use reverse_traceroute_publi.StringUtil.{in_array, non_spoofed}
use reverse_traceroute_publi.StringUtil.Sets.{in_array-append, in_array-take, in_array-drop}
use reverse_traceroute_publi.Segment.{Kind}
use reverse_traceroute_publi.Revtr.{Revtr}
use reverse_traceroute_publi.Revtr.RecordRoute.{
  at_most, newleft_loop, without_spoofer, recent_spoofer, next_batch, take_batch, vps_left,
}

newleft_loop-length :
    (spoofer : String) (newleft left : List String)
    → length (newleft_loop spoofer newleft left) ≤ length newleft + length left
unfolding newleft_loop
newleft_loop-length spoofer newleft [] = omega arith
newleft_loop-length spoofer newleft (s ∷ left) = ground (
  arith,
  newleft_loop-length spoofer (if str_eq s spoofer then newleft else newleft ++ s ∷ []) left,
  length-append newleft (s ∷ []),
)

newleft_loop-in_array :
    (spoofer : String) (newleft left : List String) (x : String)
    → in_array (newleft_loop spoofer newleft left) x ≡ true
    → (in_array newleft x ≡ true) ⊎ (in_array left x ≡ true)
unfolding newleft_loop in_array
newleft_loop-in_array spoofer newleft [] x h = inl h
newleft_loop-in_array spoofer newleft (s ∷ left) x h = ground (
  arith,
  newleft_loop-in_array spoofer (if str_eq s spoofer then newleft else newleft ++ s ∷ []) left x,
  in_array-append newleft (s ∷ []) x,
)

without_spoofer-in_array :
    (spoofer : String) (left : List String) (x : String)
    → in_array (without_spoofer spoofer left) x ≡ true
    → in_array left x ≡ true
unfolding without_spoofer in_array
without_spoofer-in_array spoofer left x h = ground (arith, newleft_loop-in_array spoofer [] left x)

without_spoofer-length :
    (spoofer : String) (left : List String) → length (without_spoofer spoofer left) ≤ length left
unfolding without_spoofer
without_spoofer-length spoofer left = omega (arith, newleft_loop-length spoofer [] left)

-- A batch: not empty and within the limit, of vantage points that were left or of the spoofer that
-- found the last segment; fewer are left, and only such as were left before.
pub record IsBatch (kind : Kind) (limit : ℕ) (left vps left' : List String) : Type 0 where
  pub some_vp : 0 < length vps
  pub bounded : length vps ≤ limit
  pub fewer : length left' < length left
  pub known :
      (x : String)
      → in_array vps x ≡ true
      → (in_array left x ≡ true) ⊎ (recent_spoofer kind ≡ some x)
  pub remaining : (x : String) → in_array left' x ≡ true → in_array left x ≡ true

abbrev pub Batched : Kind → ℕ → List String → Run (List String × List String) → Type 0
Batched kind limit left r =
    (vps : List String) × (left' : List String) × (r ≡ ok (vps, left'))
    × IsBatch kind limit left vps left'

module _ (kind : Kind) (limit : ℕ) (left : List String) (two : 2 ≤ limit)
    (pos : 0 < length left) where
  spoofed-IsBatch :
      (spoofer : String)
      → recent_spoofer kind ≡ some spoofer
      → IsBatch kind limit left
          (spoofer
            ∷ take
                (at_most (limit - 1) (without_spoofer spoofer left))
                (without_spoofer spoofer left))
          (drop (at_most (limit - 1) (without_spoofer spoofer left)) (without_spoofer spoofer left))
  unfolding in_array
  spoofed-IsBatch spoofer found =
      let newleft = without_spoofer spoofer left in
      let min = at_most (limit - 1) newleft in
      let size = without_spoofer-length spoofer left in
      record {
        some_vp = omega arith;
        bounded = ground (arith, length-take min newleft);
        fewer = ground (arith, length-drop min newleft);
        known = λ x h. ground (
          arith,
          eq_iff spoofer x,
          in_array-take min newleft x,
          without_spoofer-in_array spoofer left x,
        );
        remaining = λ x h. without_spoofer-in_array spoofer left x (in_array-drop min newleft x h);
      }

  plain-IsBatch :
      IsBatch kind limit left (take (at_most limit left) left) (drop (at_most limit left) left)
  plain-IsBatch =
      let min = at_most limit left in
      record {
        some_vp = ground (arith, length-take min left);
        bounded = ground (arith, length-take min left);
        fewer = ground (arith, length-drop min left);
        known = λ x h. inl (in_array-take min left x h);
        remaining = λ x h. in_array-drop min left x h;
      }

  non_spoofed-IsBatch :
      in_array (take (at_most limit left) left) non_spoofed ≡ true
      → IsBatch kind limit left (non_spoofed ∷ []) (drop 1 left)
  unfolding in_array
  non_spoofed-IsBatch h = record {
    some_vp = omega arith;
    bounded = omega arith;
    fewer = omega (arith, length-drop 1 left);
    known = λ x k.
        ground (arith, eq_iff non_spoofed x, in_array-take (at_most limit left) left non_spoofed);
    remaining = λ x k. in_array-drop 1 left x k;
  }

  pub next_batch-IsBatch : Batched kind limit left (next_batch kind limit left)
  unfolding next_batch
  next_batch-IsBatch = elim (Bool-cases (in_array (take (at_most limit left) left) non_spoofed)) [
    | inl direct ↦ rw direct (non_spoofed ∷ [], drop 1 left, refl, non_spoofed-IsBatch direct)
    | inr spoofed ↦ elim (Option-cases (recent_spoofer kind)) [
      | inl none_recent ↦
          rw (spoofed, none_recent)
            (take (at_most limit left) left, drop (at_most limit left) left, refl, plain-IsBatch)
      | inr (spoofer, found) ↦
          let newleft = without_spoofer spoofer left in
          let min = at_most (limit - 1) newleft in
          let limited : (limit == 0) ≡ false = ground arith in
          rw (spoofed, found, limited)
            (spoofer ∷ take min newleft, drop min newleft, refl, spoofed-IsBatch spoofer found)
    ]
  ]

-- With vantage points left and a limit of two or more, GetRRVPs takes a batch that is not empty
-- and within the limit, of vantage points that were left or the recent spoofer, and leaves fewer
-- of them; the lists of other hops and the paths stay as they are.
pub take_batch-IsBatch :
    (rt : Revtr) (kind : Kind) (cls : String)
    → 2 ≤ lookup_or rt.rr_hop_rate_limit cls 0
    → 0 < length (vps_left rt cls)
    → (rt' : Revtr) × (vps : List String) × (take_batch rt kind cls ≡ ok (rt', vps))
      × IsBatch kind (lookup_or rt.rr_hop_rate_limit cls 0) (vps_left rt cls) vps (vps_left rt' cls)
      × ((other : String) → other ≢ cls → vps_left rt' other ≡ vps_left rt other)
      × (rt'.paths ≡ rt.paths)
unfolding take_batch lookup_or
take_batch-IsBatch rt kind cls two pos =
    let limit = lookup_or rt.rr_hop_rate_limit cls 0 in
    let (vps, left', e, batch) = next_batch-IsBatch kind limit (vps_left rt cls) two pos in
    let rt' = record rt { rr_hop_vps_left = insert rt.rr_hop_vps_left cls left' } in
    let here : vps_left rt' cls ≡ left' =
      ground (arith, lookup-insert rt.rr_hop_vps_left cls left' cls, str_eq_refl cls) in
    (
      rt',
      vps,
      rw e,
      rw here batch,
      (λ other apart.
          ground (arith, lookup-insert rt.rr_hop_vps_left cls left' other, eq_iff cls other)),
      refl,
    )
