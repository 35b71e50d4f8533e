-- ===== src/Runner/Measure/Answers.antt =====
-- issueRR and issueSpoofedRR: the hops of the answers are processed.
use reverse_traceroute_publi.Base.{
  ℕ, ◌≡◌, refl, String, true, false, Option, none, some, List, [], ◌∷◌, ◌++◌, map, arith,
}
use reverse_traceroute_publi.StringUtil.{in_array}
use reverse_traceroute_publi.StringUtil.Sets.{Distinct}
use reverse_traceroute_publi.RecordRoute.{process_rr}
use reverse_traceroute_publi.RecordRoute.Process.{process_rr-Processed}
use reverse_traceroute_publi.Revtr.Externs.{Env}
use reverse_traceroute_publi.Runner.Result.{of_run, of_fuel}
use reverse_traceroute_publi.Runner.Network.{
  Stream, refused, received, PingResponse, Ping, Options, is_private,
}
use reverse_traceroute_publi.Runner.Measure.{
  SprrHops, responses_rr, responses_sprr, first_rr, rr_answer, sprr_loop, sprr_answers,
  addresses_loop, issue_rr, issue_spoofed_rr,
}
use reverse_traceroute_publi.Runner.Post.{Post, returns, Post-bind, Post-run, Post-if}

-- Hops in different clusters, none of them the destination's.
abbrev pub ApartFrom : Env → String → List String → Type 0
ApartFrom env dst hops =
    Distinct (map env.cm hops) × (in_array (map env.cm hops) (env.cm dst) ≡ false)

abbrev pub RrAnswer : Env → String → Option (List String) → Type 0
RrAnswer env dst none = Unit
RrAnswer env dst (some hops) = ApartFrom env dst hops

abbrev pub AllApart : Env → String → List SprrHops → Type 0
AllApart env dst [] = Unit
AllApart env dst (rr ∷ rrs) = ApartFrom env dst rr.hops × AllApart env dst rrs

processed-Post :
    {H : Type 0} (env : Env) (dst : String) (hops : List ℕ)
    → Post H (ApartFrom env dst) (of_fuel (process_rr env.cm dst hops true))
unfolding of_fuel of_run
processed-Post env dst hops =
    let (r, e, distinct, apart, from) = process_rr-Processed env.cm dst hops in
    rw e (returns (distinct, apart))

responses_rr-Post :
    {H : Type 0} (env : Env) (dst : String) (rs : List PingResponse)
    → Post H (RrAnswer env dst) (responses_rr env dst rs)
unfolding responses_rr
responses_rr-Post env dst [] = returns tt
responses_rr-Post env dst (r ∷ rs) =
    Post-bind _ _ (processed-Post env dst r.rr) (λ hops h. returns h)

first_rr-Post :
    {H : Type 0} (env : Env) (dst : String) (ps : List Ping)
    → Post H (RrAnswer env dst) (first_rr env dst ps)
unfolding first_rr
first_rr-Post env dst [] = returns tt
first_rr-Post env dst (p ∷ ps) = responses_rr-Post env dst p.responses

AllApart-append :
    (env : Env) (dst : String) (rrs : List SprrHops) (rr : SprrHops)
    → AllApart env dst rrs
    → ApartFrom env dst rr.hops
    → AllApart env dst (rrs ++ rr ∷ [])
AllApart-append env dst [] rr a h = (h, tt)
AllApart-append env dst (x ∷ rrs) rr (b, a) h = (b, AllApart-append env dst rrs rr a h)

responses_sprr-Post :
    {H : Type 0} (env : Env) (dst vp : String) (rrs : List SprrHops) (rs : List PingResponse)
    → AllApart env dst rrs
    → Post H (AllApart env dst) (responses_sprr env dst vp rrs rs)
unfolding responses_sprr
responses_sprr-Post env dst vp rrs [] a = returns a
responses_sprr-Post env dst vp rrs (r ∷ rs) a =
    Post-bind _ _ (processed-Post env dst r.rr)
      (λ hops h. returns (AllApart-append env dst rrs (record { hops = hops; vp = vp }) a h))

sprr_loop-Post :
    {H : Type 0} (env : Env) (dst : String) (ps : List Ping) (rrs : List SprrHops)
    → AllApart env dst rrs
    → Post H (AllApart env dst) (sprr_loop env dst rrs ps)
unfolding sprr_loop
sprr_loop-Post env dst [] rrs a = returns a
sprr_loop-Post env dst (p ∷ ps) rrs a =
    Post-bind _ _ (responses_sprr-Post env dst _ rrs p.responses a)
      (λ rrs' a'. sprr_loop-Post env dst ps rrs' a')

rr_answer-Post :
    {H : Type 0} (env : Env) (dst : String) (st : Stream Ping)
    → Post H (RrAnswer env dst) (rr_answer env dst st)
unfolding rr_answer
rr_answer-Post env dst refused = returns tt
rr_answer-Post env dst (received ps err) = first_rr-Post env dst ps

sprr_answers-Post :
    {H : Type 0} (env : Env) (dst : String) (st : Stream Ping)
    → Post H (λ (rrs, err). AllApart env dst rrs) (sprr_answers env dst st)
unfolding sprr_answers
sprr_answers-Post env dst refused = returns tt
sprr_answers-Post env dst (received ps err) =
    Post-bind _ _ (sprr_loop-Post env dst ps [] tt) (λ rrs a. returns a)

addresses_loop-Post :
    {H : Type 0} (env : Env) (ss : List String) (is : List ℕ)
    → Post H (λ l. Unit) (addresses_loop env is ss)
unfolding addresses_loop
addresses_loop-Post env [] is = returns tt
addresses_loop-Post env (s ∷ ss) is = Post-run _ _ (λ i e. addresses_loop-Post env ss _)

module _ {W : Type 0} (opts : Options W) where
  -- issueRR returns or panics; the hops that it returns are in different clusters, none of them
  -- the cluster of the destination, and a private destination is an error without a probe.
  pub issue_rr-ApartFrom :
      (src dst : String) (w : W)
      → Post ⊥
          (λ (w', rr).
            RrAnswer opts.env dst rr × (is_private opts.env dst ≡ true → (w' ≡ w) × (rr ≡ none)))
          (issue_rr opts src dst w)
  unfolding issue_rr
  issue_rr-ApartFrom src dst w =
      Post-if (is_private opts.env dst) _ _ (λ e. returns (tt, λ p. (refl, refl)))
        (λ e. Post-run _ _ (λ srci d. Post-run _ _ (λ dsti c.
          Post-bind _ _ (rr_answer-Post opts.env dst _)
            (λ answer h. returns (h, λ p. absurd (ground arith))))))

  -- issueSpoofedRR returns or panics; the hops of every answer that it returns are in different
  -- clusters, none of them the cluster of the destination.
  pub issue_spoofed_rr-ApartFrom :
      (recv dst : String) (srcs : List String) (w : W)
      → Post ⊥ (λ (w', rrs, err). AllApart opts.env dst rrs) (issue_spoofed_rr opts recv dst srcs w)
  unfolding issue_spoofed_rr
  issue_spoofed_rr-ApartFrom recv dst srcs w =
      Post-if (is_private opts.env dst) _ _ (λ e. returns tt)
        (λ e. Post-run _ _ (λ dsti d.
          Post-bind _ _ (addresses_loop-Post opts.env srcs []) (λ srcis u.
            Post-bind _ _ (sprr_answers-Post opts.env dst _) (λ (rrs, err) h. returns h))))
