-- ===== src/Revtr/Storable/Stored.antt =====
-- The hops that are stored.
use text.Mathlib.TextEquality.{eq_iff}
use reverse_traceroute_publi.Base.{
  ℕ, ◌≡◌, inl, inr, refl, sym, ap, ◌∙◌, String, Bool, true, false, ◌||◌, List, [], ◌∷◌, ◌++◌, map,
  ok, lookup_or, insert, lookup_or-insert, arith, Bool-cases,
}
use mathlib.Core.List.{map-append}
use reverse_traceroute_publi.StringUtil.{in_array}
use reverse_traceroute_publi.StringUtil.Sets.{in_array-append, Distinct}
use reverse_traceroute_publi.Segment.{Segment, type_of, hops}
use reverse_traceroute_publi.ReversePath.{ReversePath, path_hops}
use reverse_traceroute_publi.Revtr.{Revtr, curr_path, failed_now, no_option_left}
use reverse_traceroute_publi.Revtr.Storable.{
  Storable, store_hops, store_segments, to_storable, status_of,
}

abbrev pub stored_hops : List (String × ℕ) → List String
stored_hops path = map (λ (h : String × ℕ). h.0) path

-- hopsSeen holds what is stored, and nothing is stored twice.
record IsStored (seen : List (String × Bool)) (path : List (String × ℕ)) : Type 0 where
  marks : (x : String) → lookup_or seen x false ≡ in_array (stored_hops path) x
  distinct : Distinct (stored_hops path)

Distinct-append :
    (xs : List String) (x : String) → Distinct xs → in_array xs x ≡ false → Distinct (xs ++ x ∷ [])
unfolding in_array
Distinct-append [] x d h = (refl, tt)
Distinct-append (y ∷ xs) x (fresh, d) h =
    let other : in_array (xs ++ x ∷ []) y ≡ false =
      ground (arith, in_array-append xs (x ∷ []) y, eq_iff x y, eq_iff y x) in
    (other, Distinct-append xs x d (ground arith))

store_hop :
    (seen : List (String × Bool)) (path : List (String × ℕ)) (hi : String) (ty : ℕ)
    → IsStored seen path
    → lookup_or seen hi false ≡ false
    → IsStored (insert seen hi true) (path ++ (hi, ty) ∷ [])
unfolding in_array
store_hop seen path hi ty s fresh =
    let names : stored_hops (path ++ (hi, ty) ∷ []) ≡ stored_hops path ++ hi ∷ [] =
      map-append (λ (h : String × ℕ). h.0) path ((hi, ty) ∷ []) in
    record {
      marks = λ x. rw names (
          ground (
            arith,
            lookup_or-insert seen hi true x false,
            s.marks x,
            in_array-append (stored_hops path) (hi ∷ []) x,
          ));
      distinct =
          rw names (Distinct-append (stored_hops path) hi s.distinct (sym (s.marks hi) ∙ fresh));
    }

-- What a loop from `path` to `path'` over `his` does.
abbrev Stores : List (String × ℕ) → List String → List (String × Bool) → List (String × ℕ) → Type 0
Stores path his seen' path' =
    IsStored seen' path'
    × ((x : String)
        → in_array (stored_hops path') x ≡ in_array (stored_hops path) x || in_array his x)

store_hops-Stores :
    (ty : ℕ) (his : List String) (seen : List (String × Bool)) (path : List (String × ℕ))
    → IsStored seen path
    → Stores path his (store_hops ty his seen path).0 (store_hops ty his seen path).1
unfolding store_hops in_array
store_hops-Stores ty [] seen path s = (s, λ x. ground arith)
store_hops-Stores ty (hi ∷ his) seen path s = elim (Bool-cases (lookup_or seen hi false)) [
  | inl old ↦
      let (s', e) = store_hops-Stores ty his seen path s in
      rw old (s', λ x. ground (arith, e x, s.marks hi, eq_iff hi x))
  | inr new ↦
      let next = path ++ (hi, ty) ∷ [] in
      let (s', e) =
        store_hops-Stores ty his (insert seen hi true) next (store_hop seen path hi ty s new) in
      let names : stored_hops next ≡ stored_hops path ++ hi ∷ [] =
        map-append (λ (h : String × ℕ). h.0) path ((hi, ty) ∷ []) in
      rw new (
        s',
        λ x. ground (
          arith,
          e x,
          ap (λ l. in_array l x) names,
          in_array-append (stored_hops path) (hi ∷ []) x,
        ),
      )
]

store_segments-Stores :
    (segments : List Segment) (seen : List (String × Bool)) (path : List (String × ℕ))
    → IsStored seen path
    → Distinct (stored_hops (store_segments segments seen path))
      × ((x : String)
          → in_array (stored_hops (store_segments segments seen path)) x
            ≡ in_array (stored_hops path) x || in_array (path_hops segments) x)
unfolding store_segments in_array path_hops
store_segments-Stores [] seen path s = (s.distinct, λ x. ground arith)
store_segments-Stores (seg ∷ segments) seen path s =
    let (s', e) = store_hops-Stores (type_of seg.kind) (hops seg) seen path s in
    let r = store_hops (type_of seg.kind) (hops seg) seen path in
    let (d, e') = store_segments-Stores segments r.0 r.1 s' in
    (d, λ x. ground (arith, e x, e' x, in_array-append (hops seg) (path_hops segments) x))

-- ToStorable of a reverse traceroute that has a current path and has not failed returns and
-- stores exactly the hops of the current path, each once.
pub to_storable-Distinct :
    (rt : Revtr) (p : ReversePath)
    → no_option_left rt.backoff_endhost rt.paths ≡ false
    → curr_path rt ≡ ok p
    → (stored : Storable) × (to_storable rt ≡ ok (rt, stored))
      × Distinct (stored_hops stored.path)
      × ((x : String) → in_array (stored_hops stored.path) x ≡ in_array (path_hops p.path) x)
unfolding to_storable failed_now lookup_or in_array
to_storable-Distinct rt p left at =
    let (d, e) = store_segments-Stores p.path [] [] (record { marks = λ x. refl; distinct = tt }) in
    (
      record {
        src = rt.src;
        dst = rt.dst;
        stop_reason = rt.stop_reason;
        status = status_of rt.stop_reason;
        path = store_segments p.path [] [];
      },
      rw (left, at) refl,
      d,
      e,
    )
