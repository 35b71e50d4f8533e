-- ===== src/Controller/Ping/Doing.antt =====
-- controller/controller.go: doPing.
use reverse_traceroute_publi.Base.{
  ℕ, String, Bool, ◌&&◌, true, false, Option, none, some, List, [], ◌∷◌, ◌++◌, if◌then◌else◌,
  str_eq, ◌||◌,
}
use reverse_traceroute_publi.IpUtil.{int32_to_ip_string}
use reverse_traceroute_publi.Controller.Numbers.{hex8}
use reverse_traceroute_publi.Controller.Backend.{Backend, refused, given}
use reverse_traceroute_publi.Controller.Phases.{
  look_up, Progress, key_loop, file_by, file_loop, run_batches,
}
use reverse_traceroute_publi.Controller.Ping.{
  Measurement, Ping, Probe, Spoof, key, result_key, source, error_result, read_addr, to_ping,
  SpoofBackend, Spoofing, next_spoof_id,
}

-- A measurement that is looked up first.
abbrev pub may_ask_cache : Measurement → Bool
may_ask_cache pm = pm.check_cache && str_eq pm.time_stamp ""

abbrev pub may_ask_db : Measurement → Bool
may_ask_db pm = pm.check_db && str_eq pm.time_stamp ""

-- The spoofed measurements, and the others.
unfoldable pub add_split :
    Bool → Measurement → List Measurement × List Measurement → List Measurement × List Measurement
add_split true pm (spoofs, others) = (pm ∷ spoofs, others)
add_split false pm (spoofs, others) = (spoofs, pm ∷ others)

unfoldable pub split_spoofs : List Measurement → List Measurement × List Measurement
split_spoofs [] = ([], [])
split_spoofs (pm ∷ pms) = add_split pm.spoof pm (split_spoofs pms)

module _ {W S T : Type 0} (be : Backend W Measurement Ping S T) where
  -- With an error the goroutine goes on, and the select may take either.
  unfoldable pub check_ping_db : List Measurement → W → W × List (String × Ping)
  check_ping_db check w =
      let (w1, found, err) = be.get_from_db check w in
      let (w2, done) = be.is_done w1 in
      let (w3, takes) = be.takes_error w2 in
      (w3, if done || (err && takes) then [] else key_loop result_key [] found)

  -- A ping is stored and cached, and sent with its id.
  unfoldable pub receive : List Ping → W → W × List Ping
  receive [] w = (w, [])
  receive (pp ∷ ps) w =
      let (w1, done) = be.is_done w in
      let (w2, id) = be.store pp w1 in
      let w3 = be.set_with_expire (result_key pp) (be.marshal pp) w2 in
      let (w4, stops) = be.is_done w3 in
      let (w5, rest) = receive ps w4 in
      if done then (w1, []) else if stops then (w4, []) else (w5, record pp { id = id } ∷ rest)

  abbrev pub look_up_pings : List Measurement → W → W × Progress Measurement Ping
  look_up_pings = look_up be key may_ask_cache may_ask_db check_ping_db (λ p. true)

  -- A spoofed measurement whose services are found gets the next id. It is sent even where the
  -- spoofed source is no address, and nobody is told to receive it then.
  unfoldable pub file_spoof : Spoofing S → S → S → Measurement → Spoofing S
  file_spoof acc sd sds sp =
      let id = next_spoof_id acc.spoof_id in
      let filed : Spoofing S = record acc {
        pings = file_by be.same_service acc.pings sd (record sp { payload = hex8 id });
        ids = acc.ids ++ id ∷ [];
        spoof_id = id;
      } in
      elim (read_addr sp.s_addr) [
        | none ↦ filed
        | some sa ↦ record filed {
          receivers =
              file_by be.same_service acc.receivers sds
                (record { ip = sp.src; id = id; sip = sa; dst = sp.dst });
        }
      ]

  unfoldable pub spoof_error : Spoofing S → Measurement → String → Spoofing S
  spoof_error acc sp err = record acc { errors = acc.errors ++ error_result sp err ∷ [] }

  unfoldable pub spoof_loop : List Measurement → Spoofing S → W → W × Spoofing S
  spoof_loop [] acc w = (w, acc)
  spoof_loop (sp ∷ sps) acc w =
      let (w1, sd) = be.get_service (source sp) w in
      let (w2, sds) = be.get_service (int32_to_ip_string sp.spoofer_addr) w1 in
      elim sd [
        | refused err ↦ spoof_loop sps (spoof_error acc sp err) w1
        | given s ↦ elim sds [
          | refused err ↦ spoof_loop sps (spoof_error acc sp err) w2
          | given s' ↦ spoof_loop sps (file_spoof acc s s' sp) w2
        ]
      ]

  module _ (sb : SpoofBackend W T) where
    -- The receivers are told; an error is logged.
    unfoldable pub tell_receivers : List (S × List Spoof) → W → W
    tell_receivers [] w = w
    tell_receivers ((s, sps) ∷ bs) w =
        let (w1, tool) = be.get_mt s w in
        tell_receivers bs
          (elim tool [ refused err ↦ w1 | given mt ↦ be.close mt (sb.receive_spoof mt sps w1) ])

    -- The spoofed pings are sent; what the tools answer is dropped, and an error is logged.
    unfoldable pub send_spoofed : List (S × List Measurement) → W → W
    send_spoofed [] w = w
    send_spoofed ((s, sps) ∷ bs) w =
        let (w1, tool) = be.get_mt s w in
        send_spoofed bs
          (elim tool [ refused err ↦ w1 | given mt ↦ be.close mt (be.measure mt sps w1).0 ])

    -- The answers to the spoofed pings, until their channel is closed.
    unfoldable pub probes_loop : List (Option Probe) → W → W × List Ping
    probes_loop [] w = (sb.kill w, [])
    probes_loop (none ∷ probes) w = (sb.kill w, [])
    probes_loop (some probe ∷ probes) w =
        let (w1, done) = be.is_done w in
        let (w2, now) = sb.now w1 in
        let px = to_ping now probe in
        let w3 = be.set_with_expire (result_key px) (be.marshal px) w2 in
        let (w4, pid) = be.store px w3 in
        let (w5, stops) = be.is_done w4 in
        let (w6, rest) = probes_loop probes w5 in
        if done
        then (sb.kill w1, [])
        else if stops
        then (sb.kill w5, [])
        else (w6, record px { id = pid } ∷ rest)

    -- Without a spoofed ping no group is added, and the channel is closed.
    unfoldable pub open_group : List ℕ → W → W
    open_group [] w = w
    open_group (id ∷ ids) w = sb.add_group (id ∷ ids) w

    unfoldable pub group_probes : List ℕ → W → W × List (Option Probe)
    group_probes [] w = (w, [])
    group_probes (id ∷ ids) w = sb.probes (id ∷ ids) w

    unfoldable pub do_spoofed : Spoofing S → W → W × List Ping
    do_spoofed plan w =
        let w1 = open_group plan.ids w in
        let w2 = tell_receivers (be.order plan.receivers) w1 in
        let w3 = send_spoofed (be.order plan.pings) w2 in
        let (w4, probes) = group_probes plan.ids w3 in probes_loop probes w4

    -- The goroutines of the batches run beside the loop over the spoofed measurements and what follows
    -- it, so that the channel gets their results interleaved. The number is the last id of a spoofed
    -- ping.
    unfoldable pub do_ping : List Measurement → ℕ → W → W × ℕ × List Ping
    do_ping pms spoof_id w =
        let (w1, known) = look_up_pings pms w in
        let (spoofs, others) = split_spoofs known.remaining in
        let (w2, mts, errors) = file_loop be source error_result others [] [] w1 in
        let (w3, results) = run_batches be error_result receive (be.order mts) w2 in
        let (w4, plan) =
          spoof_loop spoofs
            (record { receivers = []; pings = []; ids = []; errors = []; spoof_id = spoof_id })
            w3 in
        let (w5, answers) = do_spoofed plan w4 in
        (w5, plan.spoof_id, known.sent ++ errors ++ be.interleave results (plan.errors ++ answers))
