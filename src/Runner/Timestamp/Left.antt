-- ===== src/Runner/Timestamp/Left.antt =====
-- GetTSAdjacents: the batch is empty, or the target has fewer adjacents left.
use reverse_traceroute_publi.Base
use reverse_traceroute_publi.Base.{
  ltb, take, drop, take-append-drop, length-take, lookup_or-insert, ◌/◌, ◌^◌, ℕ, zero, suc, ◌+◌,
  ◌<◌, ◌≤◌, ◌≡◌, ◌≢◌, ◌⊎◌, inl, inr, refl, sym, ap, ◌∙◌, String, Bool, true, false, Option, none,
  some, List, [], ◌∷◌, ◌++◌, Run, ok, Bool-cases, Option-cases, if◌then◌else◌, length,
  length-append, lookup, lookup_or, insert, lookup-insert, str_eq, str_eq_refl, ◌==◌, arith,
}
use reverse_traceroute_publi.StringUtil.{string_slice_minus}
use reverse_traceroute_publi.Revtr.{Revtr, revtr_last_hop}
use reverse_traceroute_publi.Revtr.Timestamp.{
  combine, adjs_left, take_adjacents, get_ts_adjacents, adjacencies_of,
  get_adjacencies_for_ip_to_src, initialize_ts_adjacents,
}
use reverse_traceroute_publi.Revtr.Externs.{Env, AdjacencySource}
use reverse_traceroute_publi.Revtr.RecordRoute.{address_of}
use reverse_traceroute_publi.Runner.Post.{OfRun, oks, OfRun-bind, OfRun-any}

-- What a batch leaves for the target: the batch is empty, or fewer than `n` adjacents are left.
abbrev pub Left : String → ℕ → Revtr × List String → Type 0
Left target n (rt, adjs) =
    (adjs ≡ [])
    ⊎ ((l : List String) × (lookup rt.ts_hop_adjs_left target ≡ some l) × (length l < n))

Left-of :
    (target : String) (n : ℕ) (rt : Revtr) (adjs l : List String)
    → lookup rt.ts_hop_adjs_left target ≡ some l
    → length (adjs ++ l) ≤ n
    → Left target n (rt, adjs)
Left-of target n rt [] l e h = inl refl
Left-of target n rt (adj ∷ adjs) l e h = inr (l, e, omega (arith, length-append adjs l))

take_adjacents-Left :
    (rt : Revtr) (target : String) (n : ℕ)
    → length (adjs_left rt target) ≤ n
    → Left target n (take_adjacents rt target)
unfolding take_adjacents
take_adjacents-Left rt target n h = elim (Bool-cases (length (adjs_left rt target) == 0)) [
  | inl e ↦ rw e (inl refl)
  | inr e ↦
      let left = adjs_left rt target in
      let rate = lookup_or rt.ts_hop_rate_limit target 1 in
      let min = if ltb (length left) rate then length left else rate in
      rw e (
        Left-of target n
          (record rt { ts_hop_adjs_left = insert rt.ts_hop_adjs_left target (drop min left) })
          (take min left) (drop min left)
          (rw (lookup-insert rt.ts_hop_adjs_left target (drop min left) target, str_eq_refl target)
            refl)
          (rw (take-append-drop min left) h))
]

combine-le :
    (env : Env) (ip : String) (atjs combined_ips : List String)
    → length (combine env ip atjs combined_ips) ≤ 30
unfolding combine
combine-le env ip atjs combined_ips =
    let ss = string_slice_minus env.order combined_ips atjs in
    let ret = atjs ++ string_slice_minus env.order ss (ip ∷ []) in
    ground (arith, length-take (length ret) ret, length-take 30 ret)

-- At most 30 adjacents.
abbrev Few : Option (List String) → Type 0
Few none = Unit
Few (some l) = length l ≤ 30

adjacencies_of-Few :
    (env : Env) (as' : AdjacencySource) (ip : String) (ipint srcint : ℕ)
    → Few (adjacencies_of env as' ip ipint srcint)
unfolding adjacencies_of
adjacencies_of-Few env as' ip ipint srcint =
    elim (Option-cases (as'.get_adjacencies_by_ip1 ipint)) [
      | inl e ↦ rw (e, Few) tt
      | inr (ips1, e) ↦ elim (Option-cases (as'.get_adjacencies_by_ip2 ipint)) [
        | inl e₂ ↦ rw (e, e₂, Few) tt
        | inr (ips2, e₂) ↦ elim (Option-cases (as'.get_adjacency_to_dest (srcint / 2 ^ 8) ipint)) [
          | inl e₃ ↦ rw (e, e₂, e₃, Few) tt
          | inr (adjs, e₃) ↦ rw (e, e₂, e₃, Few) (combine-le env ip _ _)
        ]
      ]
    ]

get_adjacencies-Few :
    (env : Env) (as' : AdjacencySource) (ip src : String)
    → OfRun Few (get_adjacencies_for_ip_to_src env as' ip src)
unfolding get_adjacencies_for_ip_to_src
get_adjacencies-Few env as' ip src = OfRun-bind (address_of env ip) _ (OfRun-any _) (λ ipint u.
    OfRun-bind (address_of env src) _ (OfRun-any _)
      (λ srcint v. oks (adjacencies_of-Few env as' ip ipint srcint)))

-- The adjacents that are left after the initialization.
abbrev AtMost : String → ℕ → Revtr → Type 0
AtMost target n rt = length (adjs_left rt target) ≤ n

initialized-AtMost :
    (rt : Revtr) (target : String) (n : ℕ) (adjs : Option (List String))
    → 30 ≤ n
    → AtMost target n rt
    → Few adjs
    → AtMost target n (elim adjs [
      | none ↦ rt
      | some l ↦ record rt { ts_hop_adjs_left = insert rt.ts_hop_adjs_left target l }
    ])
initialized-AtMost rt target n none big h few = h
initialized-AtMost rt target n (some l) big h few =
    rw (lookup_or-insert rt.ts_hop_adjs_left target l target [], str_eq_refl target) (omega arith)

initialize-AtMost :
    (env : Env) (as' : AdjacencySource) (rt : Revtr) (target : String) (n : ℕ)
    → 30 ≤ n
    → AtMost target n rt
    → OfRun (AtMost target n) (initialize_ts_adjacents env as' rt target)
unfolding initialize_ts_adjacents
initialize-AtMost env as' rt target n big h =
    OfRun-bind _ _ (get_adjacencies-Few env as' target rt.src)
      (λ adjs few. oks (initialized-AtMost rt target n adjs big h few))

start-Left :
    (rt : Revtr) (target : String) (n : ℕ)
    → AtMost target n rt
    → OfRun (Left target n) (Base.◌>>=◌ (revtr_last_hop rt) (λ last. ok (take_adjacents rt target)))
start-Left rt target n h =
    OfRun-bind _ _ (OfRun-any (revtr_last_hop rt))
      (λ last u. oks (take_adjacents-Left rt target n h))

lookup_or-known :
    (m : List (String × List String)) (k : String) (l : List String)
    → lookup m k ≡ some l
    → lookup_or m k [] ≡ l
unfolding lookup_or
lookup_or-known m k l e = rw (e, lookup_or) refl

known-AtMost :
    (rt : Revtr) (target : String) (l : List String) (n : ℕ)
    → lookup rt.ts_hop_adjs_left target ≡ some l
    → length l ≤ n
    → AtMost target n rt
known-AtMost rt target l n e h = rw (lookup_or-known rt.ts_hop_adjs_left target l e) h

-- The batch of a hop whose adjacents are known.
pub known-Left :
    (env : Env) (as' : AdjacencySource) (rt : Revtr) (target : String) (l : List String) (n : ℕ)
    → lookup rt.ts_hop_adjs_left target ≡ some l
    → length l ≤ n
    → OfRun (Left target n) (get_ts_adjacents env as' rt target)
unfolding get_ts_adjacents
known-Left env as' rt target l n e h =
    rw e (start-Left rt target n (known-AtMost rt target l n e h))

pub get_ts_adjacents-Left :
    (env : Env) (as' : AdjacencySource) (rt : Revtr) (target : String) (n : ℕ)
    → 30 ≤ n
    → AtMost target n rt
    → OfRun (Left target n) (get_ts_adjacents env as' rt target)
unfolding get_ts_adjacents
get_ts_adjacents-Left env as' rt target n big h =
    elim (Option-cases (lookup rt.ts_hop_adjs_left target)) [
      | inl e ↦ rw e (
          OfRun-bind _ _ (initialize-AtMost env as' rt target n big h)
            (λ rt' h'. start-Left rt' target n h'))
      | inr (l, e) ↦ rw e (start-Left rt target n h)
    ]
