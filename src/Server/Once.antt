-- ===== src/Server/Once.antt =====
-- What is asked once.
use reverse_traceroute_publi.Base.{
  ok-eq, ℕ, String, ◌≡◌, refl, sym, ap, ◌∙◌, inl, inr, Option, none, some, List, [], ◌∷◌,
  Option-cases, text_append, Run, ok, panic, str_eq, Bool-cases,
}
use reverse_traceroute_publi.IpUtil.{Ip, ip_string_to_int32, int32_to_ip_string}
use reverse_traceroute_publi.Controller.Numbers.{decimal}
use reverse_traceroute_publi.Server.{VantagePoint, Answer, given}
use reverse_traceroute_publi.Server.Resolve.{
  Cache, Keeps, fetched, fetch_cluster, get_cluster, looked_up, hostname_loop, resolve_miss,
  resolve_hostname,
}

module _ {W : Type 0} (ca : Cache W) (keeps : Keeps ca) where
  -- The answer stands in the cache under its key.
  abbrev Kept : String → W × String → Type 0
  Kept k (w, answer) = ca.get k w ≡ some answer

  module _ (parse_ipv6 : List ℕ → Option Ip) (get_cluster_id_by_ip : ℕ → W → W × Option ℕ) where
    fetched-Kept :
        (s : String) (found : W × Option ℕ)
        → Kept (text_append "CM_" s) (fetched ca parse_ipv6 get_cluster_id_by_ip s found)
    unfolding fetched
    fetched-Kept s (w, none) = keeps (text_append "CM_" s) s w
    fetched-Kept s (w, some cluster) = keeps (text_append "CM_" s) (decimal cluster) w

    fetch_cluster-Kept :
        (s : String) (w : W) (r : W × String)
        → fetch_cluster ca parse_ipv6 get_cluster_id_by_ip s w ≡ ok r
        → Kept (text_append "CM_" s) r
    unfolding fetch_cluster
    fetch_cluster-Kept s w r e = go (ip_string_to_int32 parse_ipv6 s) refl
      where
        go :
            (o : Option (Run ℕ))
            → ip_string_to_int32 parse_ipv6 s ≡ o
            → Kept (text_append "CM_" s) r
        go none is =
            let same : fetch_cluster ca parse_ipv6 get_cluster_id_by_ip s w
                ≡ ok (fetched ca parse_ipv6 get_cluster_id_by_ip s (get_cluster_id_by_ip 0 w)) =
              rw (fetch_cluster, is) refl in
            rw (sym (ok-eq _ _ (sym same ∙ e))) (fetched-Kept s _)
        go (some panic) is =
            let same : fetch_cluster ca parse_ipv6 get_cluster_id_by_ip s w ≡ panic =
              rw (fetch_cluster, is) refl in
            cc
        go (some (ok ip)) is =
            let same : fetch_cluster ca parse_ipv6 get_cluster_id_by_ip s w
                ≡ ok (fetched ca parse_ipv6 get_cluster_id_by_ip s (get_cluster_id_by_ip ip w)) =
              rw (fetch_cluster, is) refl in
            rw (sym (ok-eq _ _ (sym same ∙ e))) (fetched-Kept s _)

    get_cluster-Kept :
        (s : String) (w : W) (r : W × String)
        → get_cluster ca parse_ipv6 get_cluster_id_by_ip s w ≡ ok r
        → Kept (text_append "CM_" s) r
    unfolding get_cluster
    get_cluster-Kept s w r e = elim (Option-cases (ca.get (text_append "CM_" s) w)) [
      | inl missing ↦
          let same : get_cluster ca parse_ipv6 get_cluster_id_by_ip s w
              ≡ fetch_cluster ca parse_ipv6 get_cluster_id_by_ip s w =
            rw (get_cluster, missing) refl in
          fetch_cluster-Kept s w r (sym same ∙ e)
      | inr (item, kept) ↦
          let same : get_cluster ca parse_ipv6 get_cluster_id_by_ip s w ≡ ok (w, item) =
            rw (get_cluster, kept) refl in
          rw (sym (ok-eq _ _ (sym same ∙ e))) kept
    ]

    -- Where the cache keeps what is set, a Get of a cluster after one that returned gives the
    -- same cluster and changes nothing.
    pub get_cluster-again :
        (s : String) (w w1 : W) (cluster : String)
        → get_cluster ca parse_ipv6 get_cluster_id_by_ip s w ≡ ok (w1, cluster)
        → get_cluster ca parse_ipv6 get_cluster_id_by_ip s w1 ≡ ok (w1, cluster)
    unfolding get_cluster
    get_cluster-again s w w1 cluster e = rw (get_cluster, get_cluster-Kept s w (w1, cluster) e) refl

  module _ (get_vps : W → W × Answer (List VantagePoint))
      (lookup_addr : String → W → W × Option (String × List String)) where
    looked_up-Kept :
        (ip : String) (found : W × Option (String × List String))
        → Kept ip (looked_up ca get_vps lookup_addr ip found)
    unfolding looked_up
    looked_up-Kept ip (w, none) = keeps ip "" w
    looked_up-Kept ip (w, some (first, hns)) = keeps ip first w

    hostname_loop-Kept :
        (ip : String) (vps : List VantagePoint) (w : W)
        → Kept ip (hostname_loop ca get_vps lookup_addr ip vps w)
    unfolding hostname_loop
    hostname_loop-Kept ip [] w = looked_up-Kept ip (lookup_addr ip w)
    hostname_loop-Kept ip (vp ∷ vps) w = elim (Bool-cases (str_eq (int32_to_ip_string vp.ip) ip)) [
      | inl same ↦ rw same (keeps ip vp.hostname w)
      | inr other ↦ rw other (hostname_loop-Kept ip vps w)
    ]

    resolve_hostname-Kept :
        (ip : String) (w : W) (vps : List VantagePoint)
        → (get_vps w).1 ≡ given vps
        → Kept ip (resolve_hostname ca get_vps lookup_addr ip w)
    unfolding resolve_hostname resolve_miss
    resolve_hostname-Kept ip w vps known = elim (Option-cases (ca.get ip w)) [
      | inl missing ↦
          let same : resolve_hostname ca get_vps lookup_addr ip w
              ≡ hostname_loop ca get_vps lookup_addr ip vps (get_vps w).0 =
            rw (resolve_hostname, missing, resolve_miss, known) refl in
          rw same (hostname_loop-Kept ip vps (get_vps w).0)
      | inr (item, kept) ↦
          let same : resolve_hostname ca get_vps lookup_addr ip w ≡ (w, item) =
            rw (resolve_hostname, kept) refl in
          rw same kept
    ]

    pub resolve_hostname-again :
        (ip : String) (w : W) (vps : List VantagePoint)
        → (get_vps w).1 ≡ given vps
        → resolve_hostname ca get_vps lookup_addr ip
            (resolve_hostname ca get_vps lookup_addr ip w).0
          ≡ resolve_hostname ca get_vps lookup_addr ip w
    unfolding resolve_hostname
    resolve_hostname-again ip w vps known =
        ap
          (λ o. elim o [
            | none ↦
                resolve_miss ca get_vps lookup_addr ip
                  (get_vps (resolve_hostname ca get_vps lookup_addr ip w).0)
            | some item ↦ ((resolve_hostname ca get_vps lookup_addr ip w).0, item)
          ])
          (resolve_hostname-Kept ip w vps known)
