-- ===== src/Runner/Measure.antt =====
-- issueRR, issueSpoofedRR, issueTraceroute, intersectingTraceroute and retreiveTraceroutes. An
-- error is `none`, or a Bool beside a result.
pub mod Answers
pub mod Traces
use reverse_traceroute_publi.Base.{
  ℕ, ◌+◌, ◌%◌, ◌^◌, String, Bool, true, false, not, ◌&&◌, Option, none, some, List, [], ◌∷◌, ◌++◌,
  map, str_eq, if◌then◌else◌, ltb,
}
use reverse_traceroute_publi.IpUtil.{int32_to_ip_string}
use reverse_traceroute_publi.Segment.{last_hop_of}
use reverse_traceroute_publi.RecordRoute.{process_rr}
use reverse_traceroute_publi.Revtr.Externs.{Env}
use reverse_traceroute_publi.Revtr.RecordRoute.{address_of}
use reverse_traceroute_publi.Runner.Result.{Result, ret, crash, hang, ◌>>=◌, of_run, of_fuel}
use reverse_traceroute_publi.Runner.Network.{
  Stream, refused, received, PingMeasurement, PingResponse, Ping, TracerouteHop, Trace,
  IntersectionRequest, ResponseType, AtlasPath, IntersectionResponse, Options, is_private,
}

pub record IntersectingTr : Type 0 where
  pub addr : String
  pub hops : List String

pub record SprrHops : Type 0 where
  pub hops : List String
  pub vp : String

-- A record-route probe; the spoofed ones are received at `s_addr`.
rr_measurement : Bool → String → ℕ → ℕ → PingMeasurement
rr_measurement spoof s_addr src dst = record {
  src = src;
  dst = dst;
  rr = true;
  spoof = spoof;
  s_addr = s_addr;
  spoofer_addr = 0;
  time_stamp = "";
}

-- The first response of an answer, or an error.
responses_rr : Env → String → List PingResponse → Result (Option (List String))
responses_rr env dst [] = ret none
responses_rr env dst (r ∷ rs) =
    of_fuel (process_rr env.cm dst r.rr true) >>= λ hops. ret (some hops)

-- The first message decides.
first_rr : Env → String → List Ping → Result (Option (List String))
unfolding responses_rr
first_rr env dst [] = ret none
first_rr env dst (p ∷ ps) = responses_rr env dst p.responses

rr_answer : Env → String → Stream Ping → Result (Option (List String))
rr_answer env dst refused = ret none
rr_answer env dst (received ps err) = first_rr env dst ps

-- The hops of an answer, if it has a response.
responses_sprr : Env → String → String → List SprrHops → List PingResponse → Result (List SprrHops)
responses_sprr env dst vp rrs [] = ret rrs
responses_sprr env dst vp rrs (r ∷ rs) = of_fuel (process_rr env.cm dst r.rr true) >>= λ hops.
    ret (rrs ++ record { hops = hops; vp = vp } ∷ [])

-- The answers up to the end of the stream.
sprr_loop : Env → String → List SprrHops → List Ping → Result (List SprrHops)
unfolding responses_sprr
sprr_loop env dst rrs [] = ret rrs
sprr_loop env dst rrs (p ∷ ps) =
    responses_sprr env dst (int32_to_ip_string p.spoofed_from) rrs p.responses >>= λ rrs'.
    sprr_loop env dst rrs' ps

sprr_answers : Env → String → Stream Ping → Result (List SprrHops × Bool)
sprr_answers env dst refused = ret ([], true)
sprr_answers env dst (received ps err) = sprr_loop env dst [] ps >>= λ rrs. ret (rrs, err)

addresses_loop : Env → List ℕ → List String → Result (List ℕ)
addresses_loop env is [] = ret is
addresses_loop env is (s ∷ ss) =
    of_run (address_of env s) >>= λ i. addresses_loop env (is ++ i ∷ []) ss

-- The loop of issueTraceroute that pads with "*" compares a hop with itself: where it is entered,
-- by a time to live that wraps around, it does not end. `last` is the last index.
trace_loop : List String → List TracerouteHop → Result (List String)
trace_loop hopst [] = ret hopst
trace_loop hopst (h ∷ []) = ret (hopst ++ int32_to_ip_string h.addr ∷ [])
trace_loop hopst (h ∷ h' ∷ hs) =
    let rest = trace_loop (hopst ++ int32_to_ip_string h.addr ∷ []) (h' ∷ hs) in
    if ltb ((h.probe_ttl + 2) % 2 ^ 32) h.probe_ttl then hang else rest

-- A traceroute that has no hop, or does not end in the cluster of its destination, is an error.
check_trace : Env → Trace → List String → Option (List String)
check_trace env trace [] = none
check_trace env trace (h ∷ hs) =
    if str_eq (env.cm (last_hop_of (h ∷ hs))) (env.cm (int32_to_ip_string trace.dst))
    then some (h ∷ hs)
    else none

first_trace : Env → List Trace → Result (Option (List String))
first_trace env [] = ret none
first_trace env (trace ∷ traces) =
    let checked = trace_loop [] trace.hops >>= λ hopst. ret (check_trace env trace hopst) in
    if trace.error then ret none else checked

trace_answer : Env → Stream Trace → Result (Option (List String))
trace_answer env refused = ret none
trace_answer env (received traces err) = first_trace env traces

-- The hops from the first one in the cluster of the address on.
fix_up : (String → String) → String → Bool → List String → List ℕ → List String
fix_up cm addr found hs [] = hs
fix_up cm addr found hs (h ∷ hops) =
    let hss = int32_to_ip_string h in
    let skip = fix_up cm addr found hs hops in
    let keep = fix_up cm addr true (hs ++ hss ∷ []) hops in
    if not found && not (str_eq (cm addr) (cm hss)) then skip else keep

unfoldable pub intersecting_tr : (String → String) → Option AtlasPath → Result IntersectingTr
unfolding fix_up
intersecting_tr cm none = crash
intersecting_tr cm (some p) =
    let addr = int32_to_ip_string p.address in
    ret (record { addr = addr; hops = fix_up cm addr false [] p.hops })

unfoldable pub is_path : ResponseType → Bool
is_path ResponseType.path = true
is_path type = false

unfoldable pub is_token : ResponseType → Bool
is_token ResponseType.token = true
is_token type = false

-- The loop of intersectingTraceroute; `err` says that an error ends the stream. The result is an
-- error, or a path with no tokens, or the tokens with an empty path.
responses_loop :
    Env
    → Bool
    → List IntersectionResponse
    → List IntersectionResponse
    → Result (Option (IntersectingTr × List IntersectionResponse))
responses_loop env err tokens [] =
    ret (if err then none else some (record { addr = ""; hops = [] }, tokens))
responses_loop env err tokens (itr ∷ itrs) =
    let found = intersecting_tr env.cm itr.path >>= λ tr. ret (some (tr, [])) in
    let more =
      responses_loop env err (if is_token itr.type then tokens ++ itr ∷ [] else tokens) itrs in
    if is_path itr.type then found else more

intersection_answer :
    Env → Stream IntersectionResponse → Result (Option (IntersectingTr × List IntersectionResponse))
intersection_answer env refused = ret none
intersection_answer env (received itrs err) = responses_loop env err [] itrs

-- The loop of retreiveTraceroutes: the first path, or an error.
unfoldable pub paths_loop : Env → List IntersectionResponse → Result (Option IntersectingTr)
paths_loop env [] = ret none
paths_loop env (resp ∷ resps) =
    let found = intersecting_tr env.cm resp.path >>= λ tr. ret (some tr) in
    let more = paths_loop env resps in if is_path resp.type then found else more

unfoldable pub paths_answer : Env → Stream IntersectionResponse → Result (Option IntersectingTr)
paths_answer env refused = ret none
paths_answer env (received resps err) = paths_loop env resps

module _ {W : Type 0} (opts : Options W) where
  unfoldable pub issue_rr : String → String → W → Result (W × Option (List String))
  unfolding rr_measurement rr_answer first_rr
  issue_rr src dst w = if is_private opts.env dst then ret (w, none) else do
    srci ← of_run (address_of opts.env src)
    dsti ← of_run (address_of opts.env dst)
    let (w', st) = opts.ping (rr_measurement false "" srci dsti ∷ []) w
    answer ← rr_answer opts.env dst st
    ret (w', answer)

  -- The answers are returned beside the error too.
  unfoldable pub issue_spoofed_rr :
      String → String → List String → W → Result (W × List SprrHops × Bool)
  unfolding rr_measurement sprr_answers sprr_loop addresses_loop
  issue_spoofed_rr recv dst srcs w = if is_private opts.env dst then ret (w, [], true) else do
    dsti ← of_run (address_of opts.env dst)
    srcis ← addresses_loop opts.env [] srcs
    let (w', st) = opts.ping (map (λ srci. rr_measurement true recv srci dsti) srcis) w
    (rrs, err) ← sprr_answers opts.env dst st
    ret (w', rrs, err)

  unfoldable pub issue_traceroute : String → String → W → Result (W × Option (List String))
  unfolding trace_answer first_trace trace_loop check_trace
  issue_traceroute src dst w = do
    srci ← of_run (address_of opts.env src)
    dsti ← of_run (address_of opts.env dst)
    if is_private opts.env dst
        then ret (w, none)
        else (let (w', st) = opts.traceroute srci dsti w in
            trace_answer opts.env st >>= λ answer. ret (w', answer))

  -- `dest` is the address of `src`, and `src` that of `dst`.
  unfoldable pub intersecting_traceroute :
      String
      → String
      → List ℕ
      → W
      → Result (W × Option (IntersectingTr × List IntersectionResponse))
  unfolding intersection_answer responses_loop
  intersecting_traceroute src dst addrs w = do
    dest ← of_run (address_of opts.env src)
    srci ← of_run (address_of opts.env dst)
    let requests = map (λ addr. record { dest = dest; address = addr; src = srci }) addrs
    let (w', st) = opts.get_intersecting_path requests w
    answer ← intersection_answer opts.env st
    ret (w', answer)

  unfoldable pub retreive_traceroutes :
      List IntersectionResponse → W → Result (W × Option IntersectingTr)
  retreive_traceroutes reqs w = do
    let (w', st) = opts.get_paths_with_token (map (λ req. req.token) reqs) w
    answer ← paths_answer opts.env st
    ret (w', answer)
