-- ===== src/Server/Verified.antt =====
-- The addresses that verifyAddrs lets through.
use mathlib.Core.List.{Mem, mem-cons_self, mem-cons_of_mem}
use reverse_traceroute_publi.Base.{
  String, ◌≡◌, refl, sym, ap, ◌∙◌, ◌⊎◌, inl, inr, Bool, true, false, ◌||◌, Option, none, some, List,
  [], ◌∷◌, if◌then◌else◌, str_eq, str_eq-eq, Bool-cases, Option-cases,
}
use reverse_traceroute_publi.IpUtil.{int32_to_ip_string}
use reverse_traceroute_publi.Runner.Network.{is_private}
use reverse_traceroute_publi.Server.{
  VantagePoint, failed, given, Calls, valid_src, hostname_ip, is_ip, looked_up, valid_dest, ensure,
  verify_addrs, src_error, dst_error,
}

-- The address of a vantage point that the text names by its hostname or its address.
abbrev pub Named : List VantagePoint → String → String → Type 0
Named vps src s =
    (vp : VantagePoint) × Mem vp vps
    × ((vp.hostname ≡ src) ⊎ (int32_to_ip_string vp.ip ≡ src))
    × (s ≡ int32_to_ip_string vp.ip)

Named-there :
    (vp : VantagePoint) (vps : List VantagePoint) (src s : String)
    → Named vps src s
    → Named (vp ∷ vps) src s
Named-there vp vps src s (own, at, same, e) = (own, mem-cons_of_mem vp at, same, e)

some-eq : (a b : String) → some a ≡ some b → a ≡ b
some-eq a b e = cc

-- One round of either loop: `hit` is its test.
Named-round :
    (vp : VantagePoint) (vps : List VantagePoint) (src s : String) (hit : Bool)
    (rest : Option String)
    → (hit ≡ true → (vp.hostname ≡ src) ⊎ (int32_to_ip_string vp.ip ≡ src))
    → (rest ≡ some s → Named vps src s)
    → (if hit then some (int32_to_ip_string vp.ip) else rest) ≡ some s
    → Named (vp ∷ vps) src s
Named-round vp vps src s true rest same later e =
    (vp, mem-cons_self, same refl, sym (some-eq _ _ e))
Named-round vp vps src s false rest same later e = Named-there vp vps src s (later e)

or-right : (a b : Bool) → a ≡ false → (a || b) ≡ true → b ≡ true
or-right true b h e = cc
or-right false b h e = e

or-eq : (a b src : String) → (str_eq a src || str_eq b src) ≡ true → (a ≡ src) ⊎ (b ≡ src)
or-eq a b src e = elim (Bool-cases (str_eq a src)) [
  | inl same ↦ inl (str_eq-eq a src same)
  | inr other ↦ inr (str_eq-eq b src (or-right _ _ other e))
]

valid_src-Named :
    (src : String) (vps : List VantagePoint) (s : String)
    → valid_src src vps ≡ some s
    → Named vps src s
unfolding valid_src
valid_src-Named src [] s e = cc
valid_src-Named src (vp ∷ vps) s e =
    Named-round vp vps src s (str_eq vp.hostname src || str_eq (int32_to_ip_string vp.ip) src) _
      (or-eq vp.hostname (int32_to_ip_string vp.ip) src) (valid_src-Named src vps s) e

hostname_ip-Named :
    (dst : String) (vps : List VantagePoint) (s : String)
    → hostname_ip dst vps ≡ some s
    → Named vps dst s
unfolding hostname_ip
hostname_ip-Named dst [] s e = cc
hostname_ip-Named dst (vp ∷ vps) s e =
    Named-round vp vps dst s (str_eq vp.hostname dst) _
      (λ same. inl (str_eq-eq vp.hostname dst same)) (hostname_ip-Named dst vps s) e

pub given-eq : {A : Type 0} (a b : A) → given a ≡ given b → a ≡ b
given-eq a b e = cc

module _ {W V : Type 0} (calls : Calls W V) where
  -- A destination: an address that is not private, the address of a vantage point of that name, or
  -- the first that the resolver gives.
  abbrev pub Destination : List VantagePoint → String → String → W → Type 0
  Destination vps dst d w =
      ((is_ip calls dst ≡ true) × (is_private calls.env dst ≡ false) × (d ≡ dst))
      ⊎ ((is_ip calls dst ≡ false)
          × (Named vps dst d
              ⊎ ((res : List String) × ((calls.lookup_host dst w).1 ≡ some (d ∷ res)))))

  looked_up-first :
      (w : W) (found : Option (List String)) (d : String)
      → (looked_up calls (w, found)).1 ≡ some d
      → (res : List String) × (found ≡ some (d ∷ res))
  unfolding looked_up
  looked_up-first w none d e = cc
  looked_up-first w (some []) d e = cc
  looked_up-first w (some (x ∷ res)) d e = (res, ap (λ y. some (y ∷ res)) (some-eq _ _ e))

  valid_dest-Destination :
      (dst : String) (vps : List VantagePoint) (w : W) (d : String)
      → (valid_dest calls dst vps w).1 ≡ some d
      → Destination vps dst d w
  unfolding valid_dest
  valid_dest-Destination dst vps w d e = elim (Bool-cases (is_ip calls dst)) [
    | inl ip ↦ elim (Bool-cases (is_private calls.env dst)) [
      | inl own ↦
          let shut : valid_dest calls dst vps w ≡ (w, none) = rw (valid_dest, ip, own) refl in
          let no : none ≡ some d = sym (ap (λ r. r.1) shut) ∙ e in cc
      | inr public ↦
          let shown : valid_dest calls dst vps w ≡ (w, some dst) =
            rw (valid_dest, ip, public) refl in
          inl (ip, public, some-eq _ _ (sym e ∙ ap (λ r. r.1) shown))
    ]
    | inr name ↦ elim (Option-cases (hostname_ip dst vps)) [
      | inl absent ↦
          let asked : valid_dest calls dst vps w ≡ looked_up calls (calls.lookup_host dst w) =
            rw (valid_dest, name, absent) refl in
          inr (
            name,
            inr (
                looked_up-first (calls.lookup_host dst w).0 (calls.lookup_host dst w).1 d
                  (sym (ap (λ r. r.1) asked) ∙ e)),
          )
      | inr (ips, listed) ↦
          let found : valid_dest calls dst vps w ≡ (w, some ips) =
            rw (valid_dest, name, listed) refl in
          inr (name, inl (hostname_ip-Named dst vps d (listed ∙ sym (ap (λ r. r.1) found) ∙ e)))
    ]
  ]

  -- What verifyAddrs promises of the addresses that it gives.
  abbrev pub Verified : List VantagePoint → String → String → String × String → W → Type 0
  Verified vps src dst (s, d) w =
      Named vps src s × Destination vps dst d w × (is_ip calls s ≡ true) × (is_ip calls d ≡ true)

  ensure-given :
      (s d : String) (sd : String × String)
      → ensure calls s d ≡ given sd
      → (is_ip calls s ≡ true) × (is_ip calls d ≡ true) × (sd ≡ (s, d))
  unfolding ensure
  ensure-given s d sd e = elim (Bool-cases (is_ip calls s)) [
    | inr bad ↦ let no : ensure calls s d ≡ failed (src_error s) = rw (ensure, bad) refl in cc
    | inl good ↦ elim (Bool-cases (is_ip calls d)) [
      | inr bad ↦
          let no : ensure calls s d ≡ failed (dst_error d) = rw (ensure, good, bad) refl in cc
      | inl well ↦
          let yes : ensure calls s d ≡ given (s, d) = rw (ensure, good, well) refl in
          (good, well, given-eq _ _ (sym e ∙ yes))
    ]
  ]

  pub verify_addrs-Verified :
      (src dst : String) (vps : List VantagePoint) (w : W) (sd : String × String)
      → (verify_addrs calls src dst vps w).1 ≡ given sd
      → Verified vps src dst sd w
  unfolding verify_addrs
  verify_addrs-Verified src dst vps w sd e = elim (Option-cases (valid_src src vps)) [
    | inl absent ↦
        let no : verify_addrs calls src dst vps w ≡ (w, failed (src_error src)) =
          rw (verify_addrs, absent) refl in
        cc
    | inr (s, source) ↦ elim (Option-cases (valid_dest calls dst vps w).1) [
      | inl absent ↦
          let no : (verify_addrs calls src dst vps w).1 ≡ failed (dst_error dst) =
            rw (verify_addrs, source, absent) refl in
          cc
      | inr (d, dest) ↦
          let yes : (verify_addrs calls src dst vps w).1 ≡ ensure calls s d =
            rw (verify_addrs, source, dest) refl in
          let (good, well, same) = ensure-given s d sd (sym yes ∙ e) in
          rw (same)
            (valid_src-Named src vps s source, valid_dest-Destination dst vps w d dest, good, well)
    ]
  ]
