-- ===== src/Runner/Probes.antt =====
-- issueTimestamps and issueSpoofedTimestamps: the probes, and the answers that a function handles.
pub mod Handled
use reverse_traceroute_publi.Base.{
  ℕ, String, Bool, true, false, List, [], ◌∷◌, ◌++◌, insert, lookup_or, text_append, Run,
  if◌then◌else◌,
}
use reverse_traceroute_publi.IpUtil.{int32_to_ip_string}
use reverse_traceroute_publi.StringUtil.{non_spoofed}
use reverse_traceroute_publi.Revtr.Externs.{Env}
use reverse_traceroute_publi.Revtr.RecordRoute.{address_of}
use reverse_traceroute_publi.Runner.Result.{Result, ret, crash, hang, ◌>>=◌, of_run}
use reverse_traceroute_publi.Runner.Network.{
  Stream, refused, received, PingMeasurement, Ping, Options, is_private,
}

-- A probe: the destination, and the addresses to stamp.
abbrev pub Probe : Type 0
Probe = List String

-- From a source to its probes.
abbrev pub Probes : Type 0
Probes = List (String × List Probe)

-- From a receiver to its spoofers, to their probes.
abbrev pub SpoofedProbes : Type 0
SpoofedProbes = List (String × Probes)

unfoldable pub add_probe : Probes → String → Probe → Probes
add_probe probes src p = insert probes src (lookup_or probes src [] ++ p ∷ [])

-- checkMapMagic, and an append.
unfoldable pub add_spoofed_probe : SpoofedProbes → String → String → Probe → SpoofedProbes
unfolding add_probe
add_spoofed_probe probes receiver spoofer p =
    insert probes receiver (add_probe (lookup_or probes receiver []) spoofer p)

-- The addresses with commas between them.
pub stamps_text : Probe → String
stamps_text [] = ""
stamps_text (a ∷ []) = a
stamps_text (a ∷ b ∷ stamps) = text_append a (text_append "," (stamps_text (b ∷ stamps)))

pub tail : Probe → Probe
tail [] = []
tail (a ∷ stamps) = stamps

-- `probe[0]` panics where the probe is empty.
pub first : Probe → Result String
first [] = crash
first (dst ∷ stamps) = ret dst

pub direct_measurement : ℕ → ℕ → String → PingMeasurement
direct_measurement srcip dstip tss = record {
  src = srcip;
  dst = dstip;
  rr = false;
  spoof = false;
  s_addr = "";
  spoofer_addr = 0;
  time_stamp = tss;
}

-- The text of the stamps is made, and not sent.
pub spoofed_measurement : ℕ → ℕ → ℕ → PingMeasurement
spoofed_measurement recip spoofip dstip = record {
  src = spoofip;
  dst = dstip;
  rr = false;
  spoof = true;
  s_addr = "";
  spoofer_addr = recip;
  time_stamp = "";
}

-- The loop over the probes of one source; a private destination is left out.
probes_loop :
    Env
    → (ℕ → Probe → PingMeasurement)
    → List PingMeasurement
    → List Probe
    → Result (List PingMeasurement)
probes_loop env make pings [] = ret pings
probes_loop env make pings (probe ∷ probes) = do
  dst ← first probe
  dstip ← of_run (address_of env dst)
  probes_loop env make (if is_private env dst then pings else pings ++ make dstip probe ∷ []) probes

sources_loop : Env → List PingMeasurement → Probes → Result (List PingMeasurement)
sources_loop env pings [] = ret pings
sources_loop env pings ((src, probes) ∷ issue) = do
  srcip ← of_run (address_of env src)
  pings' ←
      probes_loop env
        (λ dstip probe.
          direct_measurement srcip dstip (text_append "tsprespec=" (stamps_text (tail probe))))
        pings probes
  sources_loop env pings' issue

spoofers_loop : Env → ℕ → List PingMeasurement → Probes → Result (List PingMeasurement)
spoofers_loop env recip pings [] = ret pings
spoofers_loop env recip pings ((spoofer, probes) ∷ issue) = do
  spoofip ← of_run (address_of env spoofer)
  pings' ← probes_loop env (λ dstip probe. spoofed_measurement recip spoofip dstip) pings probes
  spoofers_loop env recip pings' issue

-- `order` is the range over the spoofers.
receivers_loop :
    Env → (Probes → Probes) → List PingMeasurement → SpoofedProbes → Result (List PingMeasurement)
receivers_loop env order pings [] = ret pings
receivers_loop env order pings ((receiver, spoofer_to_probes) ∷ issue) = do
  recip ← of_run (address_of env receiver)
  pings' ← spoofers_loop env recip pings (order spoofer_to_probes)
  receivers_loop env order pings' issue

-- The function is called with the source, the vantage point and the answer.
handle_loop :
    {S : Type 0} → (Ping → String) → (String → String → Ping → S → Run S) → List Ping → S → Result S
handle_loop vp fn [] s = ret s
handle_loop vp fn (p ∷ ps) s =
    of_run (fn (int32_to_ip_string p.src) (vp p) p s) >>= λ s'. handle_loop vp fn ps s'

unfoldable pub handle :
    {S : Type 0}
    → (Ping → String)
    → (String → String → Ping → S → Run S)
    → Stream Ping
    → S
    → Result S
unfolding handle_loop
handle vp fn refused s = ret s
handle vp fn (received ps err) s = handle_loop vp fn ps s

-- The error that is returned is only logged.
module _ {W : Type 0} (opts : Options W) {S : Type 0}
    (fn : String → String → Ping → S → Run S) where
  unfoldable pub issue_timestamps : Probes → W → S → Result (W × S)
  unfolding sources_loop probes_loop
  issue_timestamps issue w s = do
    pings ← sources_loop opts.env [] (opts.order issue)
    let (w', st) = opts.ping pings w
    s' ← handle (λ p. non_spoofed) fn st s
    ret (w', s')

  unfoldable pub issue_spoofed_timestamps : SpoofedProbes → W → S → Result (W × S)
  unfolding receivers_loop spoofers_loop probes_loop
  issue_spoofed_timestamps issue w s = do
    pings ← receivers_loop opts.env (λ m. opts.order m) [] (opts.order issue)
    let (w', st) = opts.ping pings w
    s' ← handle (λ p. int32_to_ip_string p.spoofed_from) fn st s
    ret (w', s')
