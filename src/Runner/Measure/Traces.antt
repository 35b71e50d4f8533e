-- ===== src/Runner/Measure/Traces.antt =====
-- issueTraceroute and the hops of an intersecting path.
use reverse_traceroute_publi.Base.{
  ℕ, ◌+◌, ◌%◌, ◌^◌, ◌<◌, ◌≡◌, ◌≢◌, ◌⊎◌, inl, inr, refl, sym, ap, ◌∙◌, String, true, false, Option,
  none, some, List, [], ◌∷◌, ◌++◌, map, Bool, ok, str_eq, str_eq-eq, ltb, Bool-cases, arith,
}
use text.Mathlib.TextEquality.{eq_iff}
use mathlib.Core.List.{append-nil, append_assoc}
use reverse_traceroute_publi.IpUtil.{int32_to_ip_string}
use reverse_traceroute_publi.Segment.{last_hop_of}
use reverse_traceroute_publi.Revtr.Externs.{Env}
use reverse_traceroute_publi.Revtr.RecordRoute.{address_of}
use reverse_traceroute_publi.Runner.Result.{ret, ◌>>=◌}
use reverse_traceroute_publi.Runner.Network.{
  Stream, refused, received, TracerouteHop, Trace, Options, AtlasPath, is_private,
}
use reverse_traceroute_publi.Runner.Measure.{
  IntersectingTr, trace_loop, check_trace, first_trace, trace_answer, fix_up, intersecting_tr,
  issue_traceroute,
}
use reverse_traceroute_publi.Runner.Post.{Post, returns, Post-bind, Post-run, Post-if}

-- The times to live do not wrap around.
abbrev pub InRange : List TracerouteHop → Type 0
InRange [] = Unit
InRange (h ∷ hs) = (h.probe_ttl + 2 < 2 ^ 32) × InRange hs

abbrev pub AllInRange : List Trace → Type 0
AllInRange [] = Unit
AllInRange (t ∷ ts) = InRange t.hops × AllInRange ts

abbrev pub hop_texts : List TracerouteHop → List String
hop_texts hs = map (λ (h : TracerouteHop). int32_to_ip_string h.addr) hs

trace_loop-append :
    (hopst : List String) (hs : List TracerouteHop)
    → InRange hs
    → trace_loop hopst hs ≡ ret (hopst ++ hop_texts hs)
unfolding trace_loop
trace_loop-append hopst [] r = ap ret (sym (append-nil hopst))
trace_loop-append hopst (h ∷ []) r = refl
trace_loop-append hopst (h ∷ h' ∷ hs) (r, rs) =
    let inside : ltb ((h.probe_ttl + 2) % 2 ^ 32) h.probe_ttl ≡ false = ground arith in
    rw inside (
      trace_loop-append (hopst ++ int32_to_ip_string h.addr ∷ []) (h' ∷ hs) rs
      ∙ ap ret (append_assoc hopst (int32_to_ip_string h.addr ∷ []) (hop_texts (h' ∷ hs))))

-- What is made of the first traceroute of an answer: its hops, as they are, where it has no error
-- and ends in the cluster of its destination; an error only where it has one, has no hops, or ends
-- in another cluster.
abbrev pub TraceSays : Env → Trace → Option (List String) → Type 0
TraceSays env t none =
    (t.error ≡ true)
    ⊎ ((hop_texts t.hops ≡ [])
        ⊎ (env.cm (last_hop_of (hop_texts t.hops)) ≢ env.cm (int32_to_ip_string t.dst)))
TraceSays env t (some hops) =
    (t.error ≡ false)
    × (hops ≡ hop_texts t.hops)
    × (hops ≢ [])
    × (env.cm (last_hop_of hops) ≡ env.cm (int32_to_ip_string t.dst))

abbrev pub StreamSays : Env → Stream Trace → Option (List String) → Type 0
StreamSays env refused o = o ≡ none
StreamSays env (received [] err) o = o ≡ none
StreamSays env (received (t ∷ ts) err) o = TraceSays env t o

-- A test that fails is of texts that differ.
str_eq-apart : (a b : String) → str_eq a b ≡ false → a ≢ b
str_eq-apart a b apart same = ground (arith, eq_iff a b)

check_trace-TraceSays :
    (env : Env) (t : Trace) (hops : List String)
    → t.error ≡ false
    → hops ≡ hop_texts t.hops
    → TraceSays env t (check_trace env t hops)
unfolding check_trace
check_trace-TraceSays env t [] fine e = inr (inl (sym e))
check_trace-TraceSays env t (h ∷ hs) fine e =
    elim (Bool-cases (str_eq (env.cm (last_hop_of (h ∷ hs))) (env.cm (int32_to_ip_string t.dst)))) [
      | inl same ↦ rw same (fine, e, (λ none_left. cc), str_eq-eq _ _ same)
      | inr apart ↦ rw apart (inr (inr (rw (sym e) (str_eq-apart _ _ apart))))
    ]

first_trace-StreamSays :
    {H : Type 0} (env : Env) (ts : List Trace) (err : Bool)
    → AllInRange ts
    → Post H (StreamSays env (received ts err)) (first_trace env ts)
unfolding first_trace ◌>>=◌
first_trace-StreamSays env [] err r = returns refl
first_trace-StreamSays env (t ∷ ts) err (r, rs) =
    Post-if t.error _ _ (λ e. returns (inl e))
      (λ e. rw (trace_loop-append [] t.hops r) (returns (check_trace-TraceSays env t _ e refl)))

-- The answers of the client are in range.
abbrev pub StreamInRange : Stream Trace → Type 0
StreamInRange refused = Unit
StreamInRange (received ts err) = AllInRange ts

trace_answer-StreamSays :
    {H : Type 0} (env : Env) (st : Stream Trace)
    → StreamInRange st
    → Post H (StreamSays env st) (trace_answer env st)
unfolding trace_answer
trace_answer-StreamSays env refused r = returns refl
trace_answer-StreamSays env (received ts err) r = first_trace-StreamSays env ts err r

-- A private destination is not probed. To another one the client is asked once for a traceroute
-- from the source, and its answer says what is returned.
abbrev pub IsTrace :
    {W : Type 0} → Options W → String → String → W → W × Option (List String) → Type 0
IsTrace opts src dst w (w', o) =
    ((is_private opts.env dst ≡ true) × (w' ≡ w) × (o ≡ none))
    ⊎ ((srci : ℕ) × (dsti : ℕ) × (address_of opts.env src ≡ ok srci)
        × (address_of opts.env dst ≡ ok dsti)
        × (is_private opts.env dst ≡ false)
        × (w' ≡ (opts.traceroute srci dsti w).0)
        × StreamSays opts.env (opts.traceroute srci dsti w).1 o)

-- Where no time to live that the client returns is within two of 2^32, issueTraceroute returns or
-- panics; to a private destination no probe is sent and an error is given; to another one the
-- client is asked for a traceroute from the source, and where its first answer has no error, has
-- hops and ends in the cluster of its destination, the result is the hops of that answer, one by
-- one, with no "*" for a hop that is missing; otherwise it is an error.
pub issue_traceroute-IsTrace :
    {W : Type 0} (opts : Options W) (src dst : String) (w : W)
    → ((srci dsti : ℕ) → StreamInRange (opts.traceroute srci dsti w).1)
    → Post ⊥ (IsTrace opts src dst w) (issue_traceroute opts src dst w)
unfolding issue_traceroute
issue_traceroute-IsTrace opts src dst w r = Post-run _ _ (λ srci e. Post-run _ _ (λ dsti d.
    Post-if (is_private opts.env dst) _ _ (λ c. returns (inl (c, refl, refl)))
      (λ c.
        Post-bind _ _ (trace_answer-StreamSays opts.env _ (r srci dsti))
          (λ answer h. returns (inr (srci, dsti, e, d, c, refl, h))))))

-- No hop is in the cluster of the address.
abbrev pub NoneIn : (String → String) → String → List String → Type 0
NoneIn cm addr [] = Unit
NoneIn cm addr (h ∷ hs) = (cm addr ≢ cm h) × NoneIn cm addr hs

-- `hops` is `all` from the first hop in the cluster of the address on; it is empty if there is none.
abbrev pub FromCluster : (String → String) → String → List String → List String → Type 0
FromCluster cm addr all hops =
    (before : List String) × (all ≡ before ++ hops)
    × NoneIn cm addr before
    × ((hops ≡ []) ⊎ ((h : String) × (hs : List String) × (hops ≡ h ∷ hs) × (cm addr ≡ cm h)))

module _ (cm : String → String) (addr : String) where
  fix_up-found :
      (hs : List String) (ips : List ℕ)
      → fix_up cm addr true hs ips ≡ hs ++ map int32_to_ip_string ips
  unfolding fix_up
  fix_up-found hs [] = sym (append-nil hs)
  fix_up-found hs (i ∷ ips) =
      fix_up-found (hs ++ int32_to_ip_string i ∷ []) ips
      ∙ append_assoc hs (int32_to_ip_string i ∷ []) (map int32_to_ip_string ips)

  fix_up-FromCluster :
      (ips : List ℕ)
      → FromCluster cm addr (map int32_to_ip_string ips) (fix_up cm addr false [] ips)
  unfolding fix_up
  fix_up-FromCluster [] = ([], refl, tt, inl refl)
  fix_up-FromCluster (i ∷ ips) = elim (Bool-cases (str_eq (cm addr) (cm (int32_to_ip_string i)))) [
    | inl same ↦
        rw (same, fix_up-found (int32_to_ip_string i ∷ []) ips)
          (
            [],
            refl,
            tt,
            inr (int32_to_ip_string i, map int32_to_ip_string ips, refl, str_eq-eq _ _ same),
          )
    | inr apart ↦
        let (before, e, none_in, rest) = fix_up-FromCluster ips in
        rw apart (
          int32_to_ip_string i ∷ before,
          ap (◌∷◌ (int32_to_ip_string i)) e,
          (λ same. ground (arith, eq_iff (cm addr) (cm (int32_to_ip_string i))), none_in),
          rest,
        )
  ]

-- The hops of a path that the atlas gives are kept from the first one in the cluster of the
-- address on; the hops before are in other clusters, and no hop is kept if none is in it.
pub intersecting_tr-FromCluster :
    (cm : String → String) (p : AtlasPath)
    → (tr : IntersectingTr) × (intersecting_tr cm (some p) ≡ ret tr)
      × (tr.addr ≡ int32_to_ip_string p.address)
      × FromCluster cm tr.addr (map int32_to_ip_string p.hops) tr.hops
unfolding intersecting_tr
intersecting_tr-FromCluster cm p =
    let addr = int32_to_ip_string p.address in
    (
      record { addr = addr; hops = fix_up cm addr false [] p.hops },
      refl,
      refl,
      fix_up-FromCluster cm addr p.hops,
    )
