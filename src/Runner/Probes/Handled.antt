-- ===== src/Runner/Probes/Handled.antt =====
-- What holds of the state after the answers to timestamp probes are handled.
use reverse_traceroute_publi.Base.{ℕ, String, List, [], ◌∷◌, Run}
use reverse_traceroute_publi.Revtr.Externs.{Env}
use reverse_traceroute_publi.Runner.Network.{
  Stream, refused, received, PingMeasurement, Ping, Options,
}
use reverse_traceroute_publi.Runner.Probes.{
  Probe, Probes, SpoofedProbes, first, handle_loop, handle, probes_loop, sources_loop,
  spoofers_loop, receivers_loop, issue_timestamps, issue_spoofed_timestamps,
}
use reverse_traceroute_publi.Runner.Post.{
  Post, returns, crashes, Post-bind, Post-run, OfRun, OfRun-then,
}

abbrev Any : {A : Type 0} → A → Type 0
Any a = Unit

module _ {H : Type 0} (env : Env) where
  first-Post : (p : Probe) → Post H Any (first p)
  unfolding first
  first-Post [] = crashes
  first-Post (dst ∷ stamps) = returns tt

  probes_loop-Post :
      (make : ℕ → Probe → PingMeasurement) (probes : List Probe) (pings : List PingMeasurement)
      → Post H Any (probes_loop env make pings probes)
  unfolding probes_loop
  probes_loop-Post make [] pings = returns tt
  probes_loop-Post make (p ∷ probes) pings =
      Post-bind _ _ (first-Post p)
        (λ dst u. Post-run _ _ (λ dstip e. probes_loop-Post make probes _))

  sources_loop-Post :
      (pings : List PingMeasurement) (issue : Probes) → Post H Any (sources_loop env pings issue)
  unfolding sources_loop
  sources_loop-Post pings [] = returns tt
  sources_loop-Post pings ((src, probes) ∷ issue) = Post-run _ _ (λ srcip e.
      Post-bind _ _ (probes_loop-Post _ probes pings) (λ pings' u. sources_loop-Post pings' issue))

  spoofers_loop-Post :
      (recip : ℕ) (pings : List PingMeasurement) (issue : Probes)
      → Post H Any (spoofers_loop env recip pings issue)
  unfolding spoofers_loop
  spoofers_loop-Post recip pings [] = returns tt
  spoofers_loop-Post recip pings ((src, probes) ∷ issue) = Post-run _ _ (λ srcip e.
      Post-bind _ _ (probes_loop-Post _ probes pings)
        (λ pings' u. spoofers_loop-Post recip pings' issue))

  receivers_loop-Post :
      (order : Probes → Probes) (pings : List PingMeasurement) (issue : SpoofedProbes)
      → Post H Any (receivers_loop env order pings issue)
  unfolding receivers_loop
  receivers_loop-Post order pings [] = returns tt
  receivers_loop-Post order pings ((receiver, probes) ∷ issue) = Post-run _ _ (λ recip e.
      Post-bind _ _ (spoofers_loop-Post recip pings (order probes))
        (λ pings' u. receivers_loop-Post order pings' issue))

module _ {H : Type 0} {S : Type 0} {P : S → Type 0} (fn : String → String → Ping → S → Run S)
    (keeps : (src vp : String) (p : Ping) (s : S) → P s → OfRun P (fn src vp p s)) where
  handle_loop-Post :
      (vp : Ping → String) (ps : List Ping) (s : S) → P s → Post H P (handle_loop vp fn ps s)
  unfolding handle_loop
  handle_loop-Post vp [] s h = returns h
  handle_loop-Post vp (p ∷ ps) s h =
      OfRun-then _ _ (keeps _ _ p s h) (λ s' h'. handle_loop-Post vp ps s' h')

  handle-Post : (vp : Ping → String) (st : Stream Ping) (s : S) → P s → Post H P (handle vp fn st s)
  unfolding handle
  handle-Post vp refused s h = returns h
  handle-Post vp (received ps err) s h = handle_loop-Post vp ps s h

  module _ {W : Type 0} (opts : Options W) where
    pub issue_timestamps-Post :
        (issue : Probes) (w : W) (s : S)
        → P s
        → Post H (λ (w', s'). P s') (issue_timestamps opts fn issue w s)
    unfolding issue_timestamps
    issue_timestamps-Post issue w s h =
        Post-bind _ _ (sources_loop-Post opts.env [] (opts.order issue))
          (λ pings u. Post-bind _ _ (handle-Post _ _ s h) (λ s' h'. returns h'))

    pub issue_spoofed_timestamps-Post :
        (issue : SpoofedProbes) (w : W) (s : S)
        → P s
        → Post H (λ (w', s'). P s') (issue_spoofed_timestamps opts fn issue w s)
    unfolding issue_spoofed_timestamps
    issue_spoofed_timestamps-Post issue w s h =
        Post-bind _ _ (receivers_loop-Post opts.env _ [] (opts.order issue))
          (λ pings u. Post-bind _ _ (handle-Post _ _ s h) (λ s' h'. returns h'))
