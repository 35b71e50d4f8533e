-- ===== src/Warts/Traceroute.antt =====
-- warts/traceroute.go: the readers of a traceroute. Fields that no reader sets are left at zero.
use reverse_traceroute_publi.Base.{ℕ, List, [], ◌∷◌, ◌==◌}
use reverse_traceroute_publi.Warts.Reader.{
  Reader, got, failed, bad, pure, ◌>>=◌, when◌run◌otherwise◌, Timeval, read_uint8, read_uint16,
  read_uint32, read_time_val,
}
use reverse_traceroute_publi.Warts.Flags.{get_flags}
use reverse_traceroute_publi.Warts.Address.{
  Address, no_address, AddressRefs, new_address_refs, read_referenced_address, read_address,
}
use reverse_traceroute_publi.Warts.Hop.{no_time, TracerouteHop, skip_length, read_traceroute_hops}

pub record TracerouteFlags : Type 0 where
  pub list_id : ℕ
  pub cycle_id : ℕ
  pub src_id : Address
  pub dst_id : Address
  pub start_time : Timeval
  pub stop_reason : ℕ
  pub stop_data : ℕ
  pub trace_flags : ℕ
  pub attempts : ℕ
  pub hop_limit : ℕ
  pub trace_type : ℕ
  pub probe_size : ℕ
  pub source_port : ℕ
  pub dest_port : ℕ
  pub start_ttl : ℕ
  pub ip_to_s : ℕ
  pub timeout_s : ℕ
  pub loops : ℕ
  pub hops_probed : ℕ
  pub gap_limit : ℕ
  pub gap_action : ℕ
  pub loop_action : ℕ
  pub probes_sent : ℕ
  pub min_wait_centi : ℕ
  pub confidence : ℕ
  pub src : Address
  pub dst : Address
  pub user_id : ℕ

abbrev pub no_flags : TracerouteFlags
no_flags = record {
  list_id = 0;
  cycle_id = 0;
  src_id = no_address;
  dst_id = no_address;
  start_time = no_time;
  stop_reason = 0;
  stop_data = 0;
  trace_flags = 0;
  attempts = 0;
  hop_limit = 0;
  trace_type = 0;
  probe_size = 0;
  source_port = 0;
  dest_port = 0;
  start_ttl = 0;
  ip_to_s = 0;
  timeout_s = 0;
  loops = 0;
  hops_probed = 0;
  gap_limit = 0;
  gap_action = 0;
  loop_action = 0;
  probes_sent = 0;
  min_wait_centi = 0;
  confidence = 0;
  src = no_address;
  dst = no_address;
  user_id = 0;
}

-- One flag of a traceroute.
unfoldable pub flag_field :
    ℕ → TracerouteFlags × AddressRefs → Reader (TracerouteFlags × AddressRefs)
flag_field flag (tf, addrs) =
    when flag == 1
    run (read_uint32 >>= λ v. pure (record tf { list_id = v }, addrs))
    otherwise when flag == 2
    run (read_uint32 >>= λ v. pure (record tf { cycle_id = v }, addrs))
    otherwise when flag == 3
    run (read_referenced_address addrs >>= λ v. pure (record tf { src_id = v }, addrs))
    otherwise when flag == 4
    run (read_referenced_address addrs >>= λ v. pure (record tf { dst_id = v }, addrs))
    otherwise when flag == 5
    run (read_time_val >>= λ v. pure (record tf { start_time = v }, addrs))
    otherwise when flag == 6
    run (read_uint8 >>= λ v. pure (record tf { stop_reason = v }, addrs))
    otherwise when flag == 7
    run (read_uint8 >>= λ v. pure (record tf { stop_data = v }, addrs))
    otherwise when flag == 8
    run (read_uint8 >>= λ v. pure (record tf { trace_flags = v }, addrs))
    otherwise when flag == 9
    run (read_uint8 >>= λ v. pure (record tf { attempts = v }, addrs))
    otherwise when flag == 10
    run (read_uint8 >>= λ v. pure (record tf { hop_limit = v }, addrs))
    otherwise when flag == 11
    run (read_uint8 >>= λ v. pure (record tf { trace_type = v }, addrs))
    otherwise when flag == 12
    run (read_uint16 >>= λ v. pure (record tf { probe_size = v }, addrs))
    otherwise when flag == 13
    run (read_uint16 >>= λ v. pure (record tf { source_port = v }, addrs))
    otherwise when flag == 14
    run (read_uint16 >>= λ v. pure (record tf { dest_port = v }, addrs))
    otherwise when flag == 15
    run (read_uint8 >>= λ v. pure (record tf { start_ttl = v }, addrs))
    otherwise when flag == 16
    run (read_uint8 >>= λ v. pure (record tf { ip_to_s = v }, addrs))
    otherwise when flag == 17
    run (read_uint8 >>= λ v. pure (record tf { timeout_s = v }, addrs))
    otherwise when flag == 18
    run (read_uint8 >>= λ v. pure (record tf { loops = v }, addrs))
    otherwise when flag == 19
    run (read_uint16 >>= λ v. pure (record tf { hops_probed = v }, addrs))
    otherwise when flag == 20
    run (read_uint8 >>= λ v. pure (record tf { gap_limit = v }, addrs))
    otherwise when flag == 21
    run (read_uint8 >>= λ v. pure (record tf { gap_action = v }, addrs))
    otherwise when flag == 22
    run (read_uint8 >>= λ v. pure (record tf { loop_action = v }, addrs))
    otherwise when flag == 23
    run (read_uint16 >>= λ v. pure (record tf { probes_sent = v }, addrs))
    otherwise when flag == 24
    run (read_uint8 >>= λ v. pure (record tf { min_wait_centi = v }, addrs))
    otherwise when flag == 25
    run (read_uint8 >>= λ v. pure (record tf { confidence = v }, addrs))
    otherwise when flag == 26
    run (read_address addrs >>= λ (v, addrs'). pure (record tf { src = v }, addrs'))
    otherwise when flag == 27
    run (read_address addrs >>= λ (v, addrs'). pure (record tf { dst = v }, addrs'))
    otherwise when flag == 28
    run (read_uint32 >>= λ v. pure (record tf { user_id = v }, addrs))
    otherwise failed bad

unfoldable pub flag_fields :
    List ℕ → TracerouteFlags × AddressRefs → Reader (TracerouteFlags × AddressRefs)
flag_fields [] tf = pure tf
flag_fields (flag ∷ flags) tf = flag_field flag tf >>= flag_fields flags

unfoldable pub flags_after : ℕ → AddressRefs → Reader (TracerouteFlags × AddressRefs)
flags_after first addrs =
    get_flags first >>= λ flags. skip_length flags >>= λ l. flag_fields flags (no_flags, addrs)

-- Where no byte is left there are no flags, and no error.
unfoldable pub read_traceroute_flags : AddressRefs → Reader (TracerouteFlags × AddressRefs)
read_traceroute_flags addrs [] = got (no_flags, addrs) []
read_traceroute_flags addrs (first ∷ buf) = flags_after first addrs buf

pub record Traceroute : Type 0 where
  pub flags : TracerouteFlags
  pub p_length : ℕ
  pub hop_count : ℕ
  pub hops : List TracerouteHop
  pub end_of_trace : ℕ

-- The end of the trace is read, and not kept.
unfoldable pub read_traceroute : Reader Traceroute
read_traceroute = read_traceroute_flags new_address_refs >>= λ (tf, addrs). read_uint16 >>= λ hc.
    read_traceroute_hops hc addrs [] >>= λ ths. read_uint16 >>= λ last.
    pure (record { flags = tf; p_length = 0; hop_count = hc; hops = ths; end_of_trace = 0 })
