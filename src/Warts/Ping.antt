-- ===== src/Warts/Ping.antt =====
-- warts/ping.go: the flags of a ping and the ping itself. Fields that no reader sets are left at zero.
use reverse_traceroute_publi.Base.{
  if◌then◌else◌, ◌+◌, String, ℕ, Bool, List, [], ◌∷◌, ◌++◌, length, ltb, ◌==◌, replicate,
}
use reverse_traceroute_publi.Warts.Reader.{
  Reader, failed, bad, pure, ◌>>=◌, when◌run◌otherwise◌, Timeval, read_uint8, read_uint16,
  read_uint32, read_one, read_bytes, read_time_val, isset,
}
use reverse_traceroute_publi.Warts.Flags.{get_flags}
use reverse_traceroute_publi.Warts.Address.{
  Address, no_address, AddressRefs, new_address_refs, read_address,
}
use reverse_traceroute_publi.Warts.Hop.{no_time, skip_length}
use reverse_traceroute_publi.Warts.PingReply.{PingReplyFlags, read_addresses, read_ping_replies}

pub record PingFlags : Type 0 where
  pub list_id : ℕ
  pub cycle_id : ℕ
  pub src_id : ℕ
  pub dst_id : ℕ
  pub start_time : Timeval
  pub stop_reason : ℕ
  pub stop_data : ℕ
  pub data_length : ℕ
  pub ping_data : List ℕ
  pub probe_count : ℕ
  pub probe_size : ℕ
  pub probe_wait_s : ℕ
  pub probe_ttl : ℕ
  pub reply_count : ℕ
  pub pings_sent : ℕ
  pub ping_method : ℕ
  pub probe_src_port : ℕ
  pub probe_dst_port : ℕ
  pub user_id : ℕ
  pub src : Address
  pub dst : Address
  pub probe_tos : ℕ
  pub ts : List Address
  pub icmp_checksum : ℕ
  pub mtu : ℕ
  pub probe_timeout : ℕ
  pub probe_wait : ℕ
  pub ping_flags : List ℕ
  pub pf : ℕ

abbrev pub no_ping_flags : PingFlags
no_ping_flags = record {
  list_id = 0;
  cycle_id = 0;
  src_id = 0;
  dst_id = 0;
  start_time = no_time;
  stop_reason = 0;
  stop_data = 0;
  data_length = 0;
  ping_data = [];
  probe_count = 0;
  probe_size = 0;
  probe_wait_s = 0;
  probe_ttl = 0;
  reply_count = 0;
  pings_sent = 0;
  ping_method = 0;
  probe_src_port = 0;
  probe_dst_port = 0;
  user_id = 0;
  src = no_address;
  dst = no_address;
  probe_tos = 0;
  ts = [];
  icmp_checksum = 0;
  mtu = 0;
  probe_timeout = 0;
  probe_wait = 0;
  ping_flags = [];
  pf = 0;
}

-- The addresses are appended to a slice that was made with `num` addresses of its own.
unfoldable pub read_ping_ts : AddressRefs → Reader (List Address × AddressRefs)
read_ping_ts addrs = read_uint8 >>= λ num.
    read_addresses num addrs >>= λ (as', addrs'). pure (replicate num no_address ++ as', addrs')

-- One flag of a ping.
unfoldable pub ping_field : ℕ → PingFlags × AddressRefs → Reader (PingFlags × AddressRefs)
ping_field flag (fl, addrs) =
    when flag == 1
    run (read_uint32 >>= λ v. pure (record fl { list_id = v }, addrs))
    otherwise when flag == 2
    run (read_uint32 >>= λ v. pure (record fl { cycle_id = v }, addrs))
    otherwise when flag == 3
    run (read_uint32 >>= λ v. pure (record fl { src_id = v }, addrs))
    otherwise when flag == 4
    run (read_uint32 >>= λ v. pure (record fl { dst_id = v }, addrs))
    otherwise when flag == 5
    run (read_time_val >>= λ v. pure (record fl { start_time = v }, addrs))
    otherwise when flag == 6
    run (read_uint8 >>= λ v. pure (record fl { stop_reason = v }, addrs))
    otherwise when flag == 7
    run (read_uint8 >>= λ v. pure (record fl { stop_data = v }, addrs))
    otherwise when flag == 8
    run (read_uint16 >>= λ v. pure (record fl { data_length = v }, addrs))
    otherwise when flag == 9
    run (read_bytes fl.data_length >>= λ v. pure (record fl { ping_data = v }, addrs))
    otherwise when flag == 10
    run (read_uint16 >>= λ v. pure (record fl { probe_count = v }, addrs))
    otherwise when flag == 11
    run (read_uint16 >>= λ v. pure (record fl { probe_size = v }, addrs))
    otherwise when flag == 12
    run (read_uint8 >>= λ v. pure (record fl { probe_wait_s = v }, addrs))
    otherwise when flag == 13
    run (read_uint8 >>= λ v. pure (record fl { probe_ttl = v }, addrs))
    otherwise when flag == 14
    run (read_uint16 >>= λ v. pure (record fl { reply_count = v }, addrs))
    otherwise when flag == 15
    run (read_uint16 >>= λ v. pure (record fl { pings_sent = v }, addrs))
    otherwise when flag == 16
    run (read_uint8 >>= λ v. pure (record fl { ping_method = v }, addrs))
    otherwise when flag == 17
    run (read_uint16 >>= λ v. pure (record fl { probe_src_port = v }, addrs))
    otherwise when flag == 18
    run (read_uint16 >>= λ v. pure (record fl { probe_dst_port = v }, addrs))
    otherwise when flag == 19
    run (read_uint32 >>= λ v. pure (record fl { user_id = v }, addrs))
    otherwise when flag == 20
    run (read_address addrs >>= λ (v, addrs'). pure (record fl { src = v }, addrs'))
    otherwise when flag == 21
    run (read_address addrs >>= λ (v, addrs'). pure (record fl { dst = v }, addrs'))
    otherwise when flag == 22
    run (read_uint8 >>= λ v. pure (record fl { pf = v }, addrs))
    otherwise when flag == 23
    run (read_uint8 >>= λ v. pure (record fl { probe_tos = v }, addrs))
    otherwise when flag == 24
    run (read_ping_ts addrs >>= λ (v, addrs'). pure (record fl { ts = v }, addrs'))
    otherwise when flag == 25
    run (read_uint16 >>= λ v. pure (record fl { icmp_checksum = v }, addrs))
    otherwise when flag == 26
    run (read_uint16 >>= λ v. pure (record fl { mtu = v }, addrs))
    otherwise when flag == 27
    run (read_uint8 >>= λ v. pure (record fl { probe_timeout = v }, addrs))
    otherwise when flag == 28
    run (read_uint32 >>= λ v. pure (record fl { probe_wait = v }, addrs))
    otherwise failed bad

unfoldable pub ping_fields : List ℕ → PingFlags × AddressRefs → Reader (PingFlags × AddressRefs)
ping_fields [] fl = pure fl
ping_fields (flag ∷ flags) fl = ping_field flag fl >>= ping_fields flags

unfoldable pub read_ping_flags : AddressRefs → Reader (PingFlags × AddressRefs)
read_ping_flags addrs = read_one >>= λ first. get_flags first >>= λ flags.
    skip_length flags >>= λ l. ping_fields flags (no_ping_flags, addrs) >>= λ (fl, addrs').
    pure (record fl { ping_flags = flags }, addrs')

-- The length, the version and the type of a ping are constants here.
pub record Ping : Type 0 where
  pub flags : PingFlags
  pub reply_count : ℕ
  pub ping_replies : List PingReplyFlags

unfoldable pub read_ping : Reader Ping
read_ping = read_ping_flags new_address_refs >>= λ (fl, addrs). read_uint16 >>= λ rc.
    read_ping_replies rc addrs >>= λ replies.
    pure (record { flags = fl; reply_count = rc; ping_replies = replies })

abbrev pub is_ts_only : Ping → Bool
is_ts_only p = isset p.flags.pf 4

abbrev pub is_ts_and_addr : Ping → Bool
is_ts_and_addr p = ltb 0 (length p.flags.ts)

abbrev pub flag_names : List String
flag_names = "v4rr" ∷ "spoof" ∷ "payload" ∷ "tsonly" ∷ "tsandaddr" ∷ "icmpsum" ∷ "dl" ∷ "8" ∷ []

-- The names of the bits that are set, from bit `i` on.
unfoldable pub strings_loop : ℕ → ℕ → List String → List String
strings_loop pf i [] = []
strings_loop pf i (name ∷ names) =
    let rest = strings_loop pf (i + 1) names in if isset pf (i + 1) then name ∷ rest else rest

unfoldable pub strings : ℕ → List String
strings pf = strings_loop pf 0 flag_names
