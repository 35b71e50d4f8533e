-- ===== src/Warts/PingReply.antt =====
-- warts/ping.go: the replies of a ping. Fields that no reader sets are left at zero.
use reverse_traceroute_publi.Base.{ℕ, zero, suc, List, [], ◌∷◌, ◌==◌}
use reverse_traceroute_publi.Warts.Reader.{
  Reader, failed, bad, pure, ◌>>=◌, when◌run◌otherwise◌, Timeval, read_uint8, read_uint16,
  read_uint32, read_one, read_time_val, convert_timeval,
}
use reverse_traceroute_publi.Warts.Flags.{get_flags}
use reverse_traceroute_publi.Warts.Address.{Address, no_address, AddressRefs, read_address}
use reverse_traceroute_publi.Warts.Hop.{no_time, skip_length}

pub record V4Rr : Type 0 where
  pub addrs : List Address

pub record V4Ts : Type 0 where
  pub addrs : List Address
  pub time_stamps : List ℕ

pub record TsReply : Type 0 where
  pub o_timestamp : ℕ
  pub r_timestamp : ℕ
  pub t_timestamp : ℕ

abbrev pub no_ts_reply : TsReply
no_ts_reply = record { o_timestamp = 0; r_timestamp = 0; t_timestamp = 0 }

pub record PingReplyFlags : Type 0 where
  pub dst_id : ℕ
  pub flags : ℕ
  pub reply_ttl : ℕ
  pub reply_size : ℕ
  pub icmp : ℕ
  pub rtt : Timeval
  pub probe_id : ℕ
  pub reply_ipid : ℕ
  pub probe_ipid : ℕ
  pub reply_proto : ℕ
  pub tcp_flags : ℕ
  pub addr : Address
  pub v4_rr : V4Rr
  pub v4_ts : V4Ts
  pub reply_ipid32 : ℕ
  pub tx : Timeval
  pub ts_reply : TsReply
  pub reply_flags : List ℕ

abbrev pub no_reply : PingReplyFlags
no_reply = record {
  dst_id = 0;
  flags = 0;
  reply_ttl = 0;
  reply_size = 0;
  icmp = 0;
  rtt = no_time;
  probe_id = 0;
  reply_ipid = 0;
  probe_ipid = 0;
  reply_proto = 0;
  tcp_flags = 0;
  addr = no_address;
  v4_rr = record { addrs = [] };
  v4_ts = record { addrs = []; time_stamps = [] };
  reply_ipid32 = 0;
  tx = no_time;
  ts_reply = no_ts_reply;
  reply_flags = [];
}

unfoldable pub read_ts_reply : Reader TsReply
read_ts_reply = read_uint32 >>= λ o. read_uint32 >>= λ r.
    read_uint32 >>= λ t. pure (record { o_timestamp = o; r_timestamp = r; t_timestamp = t })

-- The numbers, and the addresses, one after another.
unfoldable pub read_time_stamps : ℕ → Reader (List ℕ)
read_time_stamps zero = pure []
read_time_stamps (suc n) = read_uint32 >>= λ t. read_time_stamps n >>= λ ts. pure (t ∷ ts)

unfoldable pub read_addresses : ℕ → AddressRefs → Reader (List Address × AddressRefs)
read_addresses zero addrs = pure ([], addrs)
read_addresses (suc n) addrs = read_address addrs >>= λ (a, addrs').
    read_addresses n addrs' >>= λ (as', addrs2). pure (a ∷ as', addrs2)

unfoldable pub read_v4_ts : AddressRefs → Reader (V4Ts × AddressRefs)
read_v4_ts addrs = read_uint8 >>= λ tsc. read_uint8 >>= λ ipc. read_time_stamps tsc >>= λ ts.
    read_addresses ipc addrs >>= λ (as', addrs').
    pure (record { addrs = as'; time_stamps = ts }, addrs')

unfoldable pub read_v4_rr : AddressRefs → Reader (V4Rr × AddressRefs)
read_v4_rr addrs = read_uint8 >>= λ count.
    read_addresses count addrs >>= λ (as', addrs'). pure (record { addrs = as' }, addrs')

-- One flag of a reply.
unfoldable pub reply_field :
    ℕ → PingReplyFlags × AddressRefs → Reader (PingReplyFlags × AddressRefs)
reply_field flag (pr, addrs) =
    when flag == 1
    run (read_uint32 >>= λ v. pure (record pr { dst_id = v }, addrs))
    otherwise when flag == 2
    run (read_uint8 >>= λ v. pure (record pr { flags = v }, addrs))
    otherwise when flag == 3
    run (read_uint8 >>= λ v. pure (record pr { reply_ttl = v }, addrs))
    otherwise when flag == 4
    run (read_uint16 >>= λ v. pure (record pr { reply_size = v }, addrs))
    otherwise when flag == 5
    run (read_uint16 >>= λ v. pure (record pr { icmp = v }, addrs))
    otherwise when flag == 6
    run (read_uint32 >>= λ v. pure (record pr { rtt = convert_timeval v }, addrs))
    otherwise when flag == 7
    run (read_uint16 >>= λ v. pure (record pr { probe_id = v }, addrs))
    otherwise when flag == 8
    run (read_uint16 >>= λ v. pure (record pr { reply_ipid = v }, addrs))
    otherwise when flag == 9
    run (read_uint16 >>= λ v. pure (record pr { probe_ipid = v }, addrs))
    otherwise when flag == 10
    run (read_uint8 >>= λ v. pure (record pr { reply_proto = v }, addrs))
    otherwise when flag == 11
    run (read_uint8 >>= λ v. pure (record pr { tcp_flags = v }, addrs))
    otherwise when flag == 12
    run (read_address addrs >>= λ (v, addrs'). pure (record pr { addr = v }, addrs'))
    otherwise when flag == 13
    run (read_v4_rr addrs >>= λ (v, addrs'). pure (record pr { v4_rr = v }, addrs'))
    otherwise when flag == 14
    run (read_v4_ts addrs >>= λ (v, addrs'). pure (record pr { v4_ts = v }, addrs'))
    otherwise when flag == 15
    run (read_uint32 >>= λ v. pure (record pr { reply_ipid32 = v }, addrs))
    otherwise when flag == 16
    run (read_time_val >>= λ v. pure (record pr { tx = v }, addrs))
    otherwise when flag == 17
    run (read_ts_reply >>= λ v. pure (record pr { ts_reply = v }, addrs))
    otherwise failed bad

unfoldable pub reply_fields :
    List ℕ → PingReplyFlags × AddressRefs → Reader (PingReplyFlags × AddressRefs)
reply_fields [] pr = pure pr
reply_fields (flag ∷ flags) pr = reply_field flag pr >>= reply_fields flags

unfoldable pub read_ping_reply_flags : AddressRefs → Reader (PingReplyFlags × AddressRefs)
read_ping_reply_flags addrs = read_one >>= λ first. get_flags first >>= λ flags.
    skip_length flags >>= λ l. reply_fields flags (no_reply, addrs) >>= λ (pr, addrs').
    pure (record pr { reply_flags = flags }, addrs')

unfoldable pub read_ping_replies : ℕ → AddressRefs → Reader (List PingReplyFlags)
read_ping_replies zero addrs = pure []
read_ping_replies (suc count) addrs = read_ping_reply_flags addrs >>= λ (prf, addrs').
    read_ping_replies count addrs' >>= λ prfs. pure (prf ∷ prfs)
