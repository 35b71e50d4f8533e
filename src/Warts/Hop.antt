-- ===== src/Warts/Hop.antt =====
-- warts/traceroute.go: the readers of a hop. Fields that no reader sets are left at zero.
use reverse_traceroute_publi.Base.{ℕ, zero, suc, List, [], ◌∷◌, ◌++◌, ◌==◌}
use reverse_traceroute_publi.Warts.Reader.{
  Reader, failed, bad, pure, ◌>>=◌, when◌run◌otherwise◌, Timeval, read_uint8, read_uint16,
  read_uint32, read_one, convert_timeval,
}
use reverse_traceroute_publi.Warts.Flags.{get_flags}
use reverse_traceroute_publi.Warts.Address.{
  Address, no_address, AddressRefs, read_referenced_address, read_address,
}
use reverse_traceroute_publi.Warts.Icmp.{IcmpExtensionList, read_icmp_extension_list}

abbrev pub no_time : Timeval
no_time = record { sec = 0; usec = 0 }

pub record TracerouteHop : Type 0 where
  pub p_length : ℕ
  pub hop_addr : Address
  pub probe_ttl : ℕ
  pub reply_ttl : ℕ
  pub flags : ℕ
  pub probe_id : ℕ
  pub rtt : Timeval
  pub icmp_type_code : ℕ
  pub probe_size : ℕ
  pub reply_size : ℕ
  pub ipid : ℕ
  pub to_s : ℕ
  pub next_hop_mtu : ℕ
  pub quoted_ip_length : ℕ
  pub quoted_ttl : ℕ
  pub tcp_flags : ℕ
  pub quotes_to_s : ℕ
  pub icmp_ext : IcmpExtensionList
  pub address : Address

abbrev pub no_hop : TracerouteHop
no_hop = record {
  p_length = 0;
  hop_addr = no_address;
  probe_ttl = 0;
  reply_ttl = 0;
  flags = 0;
  probe_id = 0;
  rtt = no_time;
  icmp_type_code = 0;
  probe_size = 0;
  reply_size = 0;
  ipid = 0;
  to_s = 0;
  next_hop_mtu = 0;
  quoted_ip_length = 0;
  quoted_ttl = 0;
  tcp_flags = 0;
  quotes_to_s = 0;
  icmp_ext = record { list_length = 0; extensions = [] };
  address = no_address;
}

-- One flag of a hop.
unfoldable pub hop_field : ℕ → TracerouteHop × AddressRefs → Reader (TracerouteHop × AddressRefs)
hop_field flag (th, addrs) =
    when flag == 1
    run (read_referenced_address addrs >>= λ v. pure (record th { hop_addr = v }, addrs))
    otherwise when flag == 2
    run (read_uint8 >>= λ v. pure (record th { probe_ttl = v }, addrs))
    otherwise when flag == 3
    run (read_uint8 >>= λ v. pure (record th { reply_ttl = v }, addrs))
    otherwise when flag == 4
    run (read_uint8 >>= λ v. pure (record th { flags = v }, addrs))
    otherwise when flag == 5
    run (read_uint8 >>= λ v. pure (record th { probe_id = v }, addrs))
    otherwise when flag == 6
    run (read_uint32 >>= λ v. pure (record th { rtt = convert_timeval v }, addrs))
    otherwise when flag == 7
    run (read_uint16 >>= λ v. pure (record th { icmp_type_code = v }, addrs))
    otherwise when flag == 8
    run (read_uint16 >>= λ v. pure (record th { probe_size = v }, addrs))
    otherwise when flag == 9
    run (read_uint16 >>= λ v. pure (record th { reply_size = v }, addrs))
    otherwise when flag == 10
    run (read_uint16 >>= λ v. pure (record th { ipid = v }, addrs))
    otherwise when flag == 11
    run (read_uint8 >>= λ v. pure (record th { to_s = v }, addrs))
    otherwise when flag == 12
    run (read_uint16 >>= λ v. pure (record th { next_hop_mtu = v }, addrs))
    otherwise when flag == 13
    run (read_uint16 >>= λ v. pure (record th { quoted_ip_length = v }, addrs))
    otherwise when flag == 14
    run (read_uint8 >>= λ v. pure (record th { quoted_ttl = v }, addrs))
    otherwise when flag == 15
    run (read_uint8 >>= λ v. pure (record th { tcp_flags = v }, addrs))
    otherwise when flag == 16
    run (read_uint8 >>= λ v. pure (record th { quotes_to_s = v }, addrs))
    otherwise when flag == 17
    run (read_icmp_extension_list >>= λ v. pure (record th { icmp_ext = v }, addrs))
    otherwise when flag == 18
    run (read_address addrs >>= λ (v, addrs'). pure (record th { address = v }, addrs'))
    otherwise failed bad

unfoldable pub hop_fields :
    List ℕ → TracerouteHop × AddressRefs → Reader (TracerouteHop × AddressRefs)
hop_fields [] th = pure th
hop_fields (flag ∷ flags) th = hop_field flag th >>= hop_fields flags

-- The length of the flags is read where there are any.
unfoldable pub skip_length : List ℕ → Reader ℕ
skip_length [] = pure 0
skip_length (flag ∷ flags) = read_uint16

unfoldable pub read_traceroute_hop : AddressRefs → Reader (TracerouteHop × AddressRefs)
read_traceroute_hop addrs = read_one >>= λ first.
    get_flags first >>= λ flags. skip_length flags >>= λ l. hop_fields flags (no_hop, addrs)

unfoldable pub read_traceroute_hops :
    ℕ → AddressRefs → List TracerouteHop → Reader (List TracerouteHop)
read_traceroute_hops zero addrs ret = pure ret
read_traceroute_hops (suc count) addrs ret =
    read_traceroute_hop addrs >>= λ (th, addrs'). read_traceroute_hops count addrs' (ret ++ th ∷ [])
