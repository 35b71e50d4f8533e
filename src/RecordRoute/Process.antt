-- ===== src/RecordRoute/Process.antt =====
-- processRR: it always returns, and its hops are past the destination and free of loops.
use reverse_traceroute_publi.Base.{
  ℕ, zero, suc, ◌-◌, ◌<◌, ◌≡◌, ◌⊎◌, inl, inr, refl, sym, ap, ◌∙◌, String, true, false, Option, some,
  List, [], ◌∷◌, ◌++◌, map, length, get_elem?, drop, Run, ok, str_eq, str_eq-eq, if◌then◌else◌,
  ◌==◌, arith, Bool-cases, Option-cases,
}
use text.Mathlib.TextEquality.{eq_iff}
use reverse_traceroute_publi.IpUtil.{int32_to_ip_string}
use reverse_traceroute_publi.StringUtil.{in_array}
use reverse_traceroute_publi.StringUtil.Sets.{Distinct}
use reverse_traceroute_publi.RecordRoute.{find_dst, last_of, after_dst, process_rr}
use reverse_traceroute_publi.RecordRoute.LoopRemoval.{
  Unlooped, end, keep, cut, remove_loops-Unlooped,
}

drop_get :
    (xs : List String) (n : ℕ) (h : String)
    → get_elem? xs n ≡ some h
    → drop n xs ≡ h ∷ drop (suc n) xs
drop_get [] n h e = absurd (ground arith)
drop_get (x ∷ xs) zero h e = ground arith
drop_get (x ∷ xs) (suc n) h e = drop_get xs n h e

module _ (cm : String → String) where
  in_array-append_right :
      (xs ys : List String) (c : String)
      → in_array (map cm (xs ++ ys)) c ≡ false
      → in_array (map cm ys) c ≡ false
  unfolding in_array
  in_array-append_right [] ys c h = h
  in_array-append_right (x ∷ xs) ys c h = ground (arith, in_array-append_right xs ys c)

  Unlooped-in_array :
      {hops r : List String} (c : String)
      → Unlooped cm hops r
      → in_array (map cm hops) c ≡ false
      → in_array (map cm r) c ≡ false
  unfolding in_array
  Unlooped-in_array c end h = h
  Unlooped-in_array c (keep x {rest} {r} fresh u) h = ground (arith, Unlooped-in_array c u)
  Unlooped-in_array c (cut first x between {hops} {rest} {r} e same fresh u) h =
      let all : in_array (map cm (first ∷ (between ++ x ∷ rest))) c ≡ false =
        sym (ap (λ l. in_array (map cm l) c) e) ∙ h in
      let later = in_array-append_right (first ∷ between) (x ∷ rest) c all in
      ground (arith, Unlooped-in_array c u)

  -- What is left has each cluster once.
  pub Unlooped-Distinct : {hops r : List String} → Unlooped cm hops r → Distinct (map cm r)
  Unlooped-Distinct end = tt
  Unlooped-Distinct (keep h fresh u) = (Unlooped-in_array (cm h) u fresh, Unlooped-Distinct u)
  Unlooped-Distinct (cut first h between e same fresh u) =
      (Unlooped-in_array (cm h) u fresh, Unlooped-Distinct u)

  last_of-drop :
      (hs : List String) (l : String) → last_of cm hs ≡ some l → drop (length hs - 1) hs ≡ l ∷ []
  unfolding last_of
  last_of-drop [] l e = absurd (ground arith)
  last_of-drop (h ∷ []) l e = ground arith
  last_of-drop (h ∷ h' ∷ hs) l e =
      let shift : suc (suc (length hs)) - 1 ≡ suc (suc (length hs) - 1) = omega arith in
      rw shift (last_of-drop (h' ∷ hs) l e)

  find_dst-drop :
      (dstcls : String) (hs : List String) (n i : ℕ)
      → find_dst cm dstcls hs n ≡ some i
      → in_array (map cm (drop n hs)) dstcls ≡ false
      → (i < n)
        × (in_array (map cm (drop (suc i) hs)) dstcls ≡ false)
        × ((h : String) × (get_elem? hs i ≡ some h) × (cm h ≡ dstcls))
  unfolding find_dst
  find_dst-drop dstcls hs zero i e fresh = absurd (ground arith)
  find_dst-drop dstcls hs (suc n) i e fresh = elim (Option-cases (get_elem? hs n)) [
    | inl out ↦ absurd (ground arith)
    | inr (h, at) ↦ elim (Bool-cases (str_eq dstcls (cm h))) [
      | inl here ↦
          let same : n ≡ i = ground arith in
          rw (← same) (omega arith, fresh, (h, at, sym (str_eq-eq _ _ here)))
      | inr other ↦
          let step : in_array (map cm (drop n hs)) dstcls ≡ false =
            rw (drop_get hs n h at) (miss h (drop (suc n) hs) dstcls other fresh) in
          let (lt, rest, found) = find_dst-drop dstcls hs n i (ground arith) step in
          (omega arith, rest, found)
    ]
  ]
    where
      miss :
          (h : String) (rest : List String) (c : String)
          → str_eq c (cm h) ≡ false
          → in_array (map cm rest) c ≡ false
          → in_array (map cm (h ∷ rest)) c ≡ false
      miss h rest c other fresh =
          unfold in_array in (ground (arith, eq_iff c (cm h), eq_iff (cm h) c))

  -- The hops of an answer that are returned: none, or what follows a hop in the cluster of the
  -- destination, with the loops cut out.
  abbrev pub FromAnswer : String → List String → List String → Type 0
  FromAnswer dst hopss r =
      (r ≡ [])
      ⊎ ((i : ℕ) × (h : String) × (get_elem? hopss i ≡ some h)
          × (cm h ≡ cm dst)
          × Unlooped cm (drop (suc i) hopss) r)

  abbrev pub Processed : String → List ℕ → Option (Run (List String)) → Type 0
  Processed dst hops result =
      (r : List String) × (result ≡ some (ok r))
      × Distinct (map cm r)
      × (in_array (map cm r) (cm dst) ≡ false)
      × FromAnswer dst (map int32_to_ip_string hops) r

  nothing : (dst : String) (hops : List ℕ) → Processed dst hops (some (ok []))
  unfolding in_array
  nothing dst hops = ([], refl, tt, refl, inl refl)

  length-map : (hops : List ℕ) → length (map int32_to_ip_string hops) ≡ length hops
  length-map [] = refl
  length-map (h ∷ hops) = ap suc (length-map hops)

  found_dst :
      (dst : String) (hops : List ℕ) (last : String) (i : ℕ)
      → last_of cm (map int32_to_ip_string hops) ≡ some last
      → str_eq (cm last) (cm dst) ≡ false
      → find_dst cm (cm dst) (map int32_to_ip_string hops) (length hops - 1) ≡ some i
      → Processed dst hops (
          after_dst cm true
            (if i == length hops - 1 then [] else drop (suc i) (map int32_to_ip_string hops)))
  unfolding in_array after_dst
  found_dst dst hops last i ends away found =
      let hopss = map int32_to_ip_string hops in
      let size : length hopss - 1 ≡ length hops - 1 = omega (arith, length-map hops) in
      let tail : drop (length hops - 1) hopss ≡ last ∷ [] =
        ap (λ n. drop n hopss) (sym size) ∙ last_of-drop hopss last ends in
      let start : in_array (map cm (drop (length hops - 1) hopss)) (cm dst) ≡ false =
        rw tail (ground arith) in
      let (lt, fresh, (h, at, same)) =
        find_dst-drop (cm dst) hopss (length hops - 1) i found start in
      let inside : (i == length hops - 1) ≡ false = ground arith in
      let rest = drop (suc i) hopss in
      let (r, e, u) = remove_loops-Unlooped cm (suc (length rest)) [] rest [] (omega arith) in
      rw inside
        (r, e, Unlooped-Distinct u, Unlooped-in_array (cm dst) u fresh, inr (i, h, at, same, u))

  -- processRR, with the removal of loops, returns on every answer; its hops are in different
  -- clusters, none in the destination's, and they are what follows a hop in the destination's
  -- cluster with the cluster loops cut out, or none.
  pub process_rr-Processed :
      (dst : String) (hops : List ℕ) → Processed dst hops (process_rr cm dst hops true)
  unfolding process_rr
  process_rr-Processed dst hops =
      let hopss = map int32_to_ip_string hops in
      elim (Option-cases (last_of cm hopss)) [
        | inl empty ↦ rw (empty, process_rr) (nothing dst hops)
        | inr (last, ends) ↦ elim (Bool-cases (str_eq (cm last) (cm dst))) [
          | inl there ↦ rw (ends, process_rr) (rw there (nothing dst hops))
          | inr away ↦ elim (Option-cases (find_dst cm (cm dst) hopss (length hops - 1))) [
            | inl missed ↦ rw (ends, process_rr) (rw away (rw missed (nothing dst hops)))
            | inr (i, found) ↦
                rw (ends, process_rr)
                  (rw away (rw found (found_dst dst hops last i ends away found)))
          ]
        ]
      ]
