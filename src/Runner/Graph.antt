-- ===== src/Runner/Graph.antt =====
-- Which step follows which, and how the traceroute stands when a step returns nil.
use reverse_traceroute_publi.Base.{
  ◌≡◌, ◌⊎◌, inl, Bool, true, false, Option, none, some, List, [], ◌∷◌, Run, ok, if◌then◌else◌,
}
use reverse_traceroute_publi.Revtr.{Revtr, StopReason, reaches, no_option_left}
use reverse_traceroute_publi.Revtr.Externs.{Env}
use reverse_traceroute_publi.Revtr.Reaching.{TopReaches, ReachesSays, reaches_lem}
use reverse_traceroute_publi.Runner.Result.{Result, ret, crash, ◌>>=◌, of_run}
use reverse_traceroute_publi.Runner.Network.{
  AtlasPath, Options, Running, IntersectionResponse, Stream, refused, received,
}
use reverse_traceroute_publi.Runner.Measure.{
  is_path, IntersectingTr, paths_loop, paths_answer, intersecting_tr, retreive_traceroutes,
}
use reverse_traceroute_publi.Runner.Steps.{
  Step, initial_step, backoff_endhost, tr_to_source, record_route, timestamp, background_trs,
  assume_symmetric, Round, again, next, with_revtr, reached_or, add_traceroute, after_adding,
  after_retreiving, instead, checkbg_trs, background_trs_step,
}
use reverse_traceroute_publi.Runner.Post.{Post, returns, crashes, Post-bind, Post-run, Post-if}

-- The steps that may follow a step; `none` is the end.
pub data Edge : Step → Option Step → Type 0 where
  start_backoff : Edge initial_step (some backoff_endhost)
  start : Edge initial_step (some tr_to_source)
  backed_off : Edge backoff_endhost (some tr_to_source)
  no_traceroute : Edge tr_to_source (some record_route)
  no_vantage_points : Edge record_route (some timestamp)
  rr_hops : Edge record_route (some tr_to_source)
  no_adjacents : Edge timestamp (some background_trs)
  ts_hops : Edge timestamp (some tr_to_source)
  no_background : Edge background_trs (some assume_symmetric)
  assumed : Edge assume_symmetric (some tr_to_source)
  ends : {s : Step} → Edge s none

-- The current path reaches the source, or the traceroute failed and no option is left.
abbrev pub Reached : Env → Revtr → Type 0
Reached env rt =
    ((rt.stop_reason ≡ StopReason.reached) ⊎ (rt.stop_reason ≡ StopReason.trivial))
    × TopReaches env rt

abbrev pub Failed : Revtr → Type 0
Failed rt =
    (rt.stop_reason ≡ StopReason.failed) × (no_option_left rt.backoff_endhost rt.paths ≡ true)

module _ {W : Type 0} where
  abbrev pub AtEnd : Env → Running W → Option Step → Type 0
  AtEnd env st none = Reached env st.revtr ⊎ Failed st.revtr
  AtEnd env st (some s) = Unit

  abbrev pub Follows : Env → Step → Running W × Option Step → Type 0
  Follows env s (st, ns) = Edge s ns × AtEnd env st ns

  -- A round that goes on may be followed by anything.
  abbrev pub FollowsRound : Env → Step → Running W × Round → Type 0
  FollowsRound env s (st, again) = Unit
  FollowsRound env s (st, next ns) = Follows env s (st, ns)

  module _ {H : Type 0} (env : Env) where
    pub reached_or-Post :
        {Q : Running W × Option Step → Type 0} (st : Running W)
        (otherwise : Running W → Result (Running W × Option Step))
        → ((st' : Running W) → Reached env st'.revtr → Q (st', none))
        → ((st' : Running W) → Post H Q (otherwise st'))
        → Post H Q (reached_or env st otherwise)
    unfolding reached_or ◌>>=◌ of_run
    reached_or-Post {Q} st otherwise k l = go (reaches env st.revtr) (reaches_lem env st.revtr)
      where
        go :
            (r : Run (Revtr × Bool))
            → ReachesSays env st.revtr r
            → Post H Q (
                of_run r >>= λ (rt, reach).
                if reach then ret (with_revtr st rt, none) else otherwise (with_revtr st rt))
        go Run.panic says = crashes
        go (ok (rt, true)) (stop, same, top) = returns (k (with_revtr st rt) (inl stop, top))
        go (ok (rt, false)) says = l (with_revtr st rt)

    pub reached_or-Follows :
        (s s' : Step) (st : Running W)
        → Edge s (some s')
        → Post H (Follows env s) (reached_or env st (λ st'. ret (st', some s')))
    reached_or-Follows s s' st e =
        reached_or-Post st (λ st'. ret (st', some s')) (λ st' r. (ends, inl r))
          (λ st'. returns (e, tt))

  Follows-instead :
      (env : Env) (s s' : Step) (st : Running W) (ns : Option Step)
      → Edge s (some s')
      → Follows env background_trs (st, ns)
      → Follows env s (st, instead ns s')
  unfolding instead
  Follows-instead env s s' st none e (edge, end) = (ends, end)
  Follows-instead env s s' st (some t) e f = (e, tt)

  module _ {H : Type 0} (opts : Options W) where
    pub add_traceroute-Follows :
        (s : Step) (st : Running W) (tr : IntersectingTr)
        → Post H (Follows opts.env s) (add_traceroute opts st tr)
    unfolding add_traceroute
    add_traceroute-Follows s st tr = Post-run _ _ (λ (rt, added) e.
        Post-if added _ _
          (λ y.
            reached_or-Post opts.env (with_revtr st rt) (λ st'. crash) (λ st' r. (ends, inl r))
              (λ st'. crashes))
          (λ n. crashes))

    intersecting_tr-Post :
        (p : Option AtlasPath) → Post H (λ tr. Unit) (intersecting_tr opts.env.cm p)
    unfolding intersecting_tr
    intersecting_tr-Post none = crashes
    intersecting_tr-Post (some p) = returns tt

    paths_loop-Post :
        (resps : List IntersectionResponse) → Post H (λ o. Unit) (paths_loop opts.env resps)
    unfolding paths_loop
    paths_loop-Post [] = returns tt
    paths_loop-Post (r ∷ resps) =
        Post-if (is_path r.type) _ _
          (λ y. Post-bind _ _ (intersecting_tr-Post r.path) (λ tr u. returns tt))
          (λ n. paths_loop-Post resps)

    paths_answer-Post :
        (st : Stream IntersectionResponse) → Post H (λ o. Unit) (paths_answer opts.env st)
    unfolding paths_answer
    paths_answer-Post refused = returns tt
    paths_answer-Post (received resps err) = paths_loop-Post resps

    retreive-Post :
        (reqs : List IntersectionResponse) (w : W)
        → Post H (λ a. Unit) (retreive_traceroutes opts reqs w)
    unfolding retreive_traceroutes
    retreive-Post reqs w = Post-bind _ _ (paths_answer-Post _) (λ a u. returns tt)

    after_retreiving-Follows :
        (st : Running W) (w : W) (answer : Option IntersectingTr)
        → Post H (Follows opts.env background_trs) (after_retreiving opts st w answer)
    unfolding after_retreiving
    after_retreiving-Follows st w none = returns (no_background, tt)
    after_retreiving-Follows st w (some tr) =
        add_traceroute-Follows background_trs (record st { tokens = []; world = w }) tr

    pub background_trs-Follows :
        (st : Running W) → Post H (Follows opts.env background_trs) (background_trs_step opts st)
    unfolding background_trs_step
    background_trs-Follows st =
        Post-bind _ _ (retreive-Post st.tokens st.world)
          (λ (w, answer) u. after_retreiving-Follows st w answer)

    pub checkbg_trs-Follows :
        (s s' : Step) (st : Running W)
        → Edge s (some s')
        → Post H (Follows opts.env s) (checkbg_trs opts st s')
    unfolding checkbg_trs
    checkbg_trs-Follows s s' st e =
        Post-bind _ _ (background_trs-Follows st)
          (λ (st', ns) f. returns (Follows-instead opts.env s s' st' ns e f))

    pub after_adding-Follows :
        (s s' : Step) (st : Running W) (added : Bool)
        → Edge s (some s')
        → Post H (FollowsRound opts.env s) (after_adding opts st added s')
    unfolding after_adding
    after_adding-Follows s s' st added e =
        Post-if added _ _
          (λ y.
            Post-bind _ _
              (reached_or-Post opts.env st (λ st'. checkbg_trs opts st' s') (λ st' r. (ends, inl r))
                (λ st'. checkbg_trs-Follows s s' st' e))
              (λ (st', ns) p. returns p))
          (λ n. returns tt)
