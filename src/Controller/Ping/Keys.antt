-- ===== src/Controller/Ping/Keys.antt =====
-- The keys of measurements and of answers.
use reverse_traceroute_publi.Base.{
  ℕ, ◌≡◌, refl, Bool, true, false, Option, none, some, List, [], ◌∷◌, any, ap, ◌∙◌, ◌++◌,
}
use reverse_traceroute_publi.Controller.Ping.{
  Measurement, Ping, Response, Probe, TimeStamp, TsType, ts_only, ts_and_addr, ts_pre_spec,
  ping_key, key, result_key, read_addr, to_ping, with_rr, with_stamps, string_in,
}

abbrev pub has_rr : Option (List ℕ) → Bool
has_rr none = false
has_rr (some hops) = true

-- The part of a ping that its key reads.
abbrev read_of : Ping → Bool × ℕ × ℕ × ℕ
read_of p = (string_in p.flags "v4rr", p.spoofed_from, p.dst, p.src)

stamps-read :
    (type : TsType) (stamps : List (ℕ × ℕ)) (ping : Ping) (pr : Response)
    → string_in (ping.flags ++ "tsonly" ∷ []) "v4rr" ≡ string_in ping.flags "v4rr"
    → string_in (ping.flags ++ "tsandaddr" ∷ []) "v4rr" ≡ string_in ping.flags "v4rr"
    → read_of (with_stamps (some (record { type = type; stamps = stamps })) (ping, pr))
      ≡ read_of ping
unfolding with_stamps
stamps-read ts_only stamps ping pr h1 h2 = ap (λ b. (b, ping.spoofed_from, ping.dst, ping.src)) h1
stamps-read ts_and_addr [] ping pr h1 h2 = refl
stamps-read ts_and_addr (x ∷ xs) ping pr h1 h2 =
    ap (λ b. (b, ping.spoofed_from, ping.dst, ping.src)) h2
stamps-read ts_pre_spec [] ping pr h1 h2 = refl
stamps-read ts_pre_spec (x ∷ xs) ping pr h1 h2 =
    ap (λ b. (b, ping.spoofed_from, ping.dst, ping.src)) h2

with_stamps-read :
    (ts : Option TimeStamp) (ping : Ping) (pr : Response)
    → string_in (ping.flags ++ "tsonly" ∷ []) "v4rr" ≡ string_in ping.flags "v4rr"
    → string_in (ping.flags ++ "tsandaddr" ∷ []) "v4rr" ≡ string_in ping.flags "v4rr"
    → read_of (with_stamps ts (ping, pr)) ≡ read_of ping
unfolding with_stamps
with_stamps-read none ping pr h1 h2 = refl
with_stamps-read (some ts) ping pr h1 h2 = stamps-read ts.type ts.stamps ping pr h1 h2

both-read :
    (rr : Option (List ℕ)) (ts : Option TimeStamp) (src dst from : ℕ) (pr : Response)
    → let ping : Ping = record {
      src = src;
      dst = dst;
      spoofed_from = from;
      flags = "spoof" ∷ [];
      responses = [];
      error = "";
      id = 0;
    } in
      read_of (with_stamps ts (with_rr rr (ping, pr))) ≡ (has_rr rr, from, dst, src)
unfolding with_rr string_in any
both-read none ts src dst from pr = with_stamps-read ts _ pr refl refl
both-read (some hops) ts src dst from pr = with_stamps-read ts _ _ refl refl

to_ping-read :
    (now : ℕ) (probe : Probe)
    → read_of (to_ping now probe) ≡ (has_rr probe.rr, probe.spoofer_ip, probe.src, probe.dst)
unfolding to_ping
to_ping-read now probe = both-read probe.rr probe.ts probe.dst probe.src probe.spoofer_ip _

-- Where a probe answers a spoofed ping, that is, it has its source as the spoofer, its
-- destination as its source, its spoofed source as its destination, and a record route if one was
-- asked for, the key of the ping that toPing makes is the key of the measurement.
pub to_ping-key :
    (pm : Measurement) (now : ℕ) (probe : Probe)
    → pm.src ≡ probe.spoofer_ip
    → pm.dst ≡ probe.src
    → read_addr pm.s_addr ≡ some probe.dst
    → pm.rr ≡ has_rr probe.rr
    → result_key (to_ping now probe) ≡ key pm
unfolding result_key key
to_ping-key pm now probe from dst addr rr =
    ap (λ (r, a, b, c). ping_key r a b c) (to_ping-read now probe) ∙ (rw (rr, from, dst, addr) refl)
