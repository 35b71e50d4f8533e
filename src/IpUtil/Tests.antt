-- ===== src/IpUtil/Tests.antt =====
-- 10.1.2.3 and back.
use native.Mathlib.Omega.{arith}
use reverse_traceroute_publi.Base.{ℕ, ◌+◌, ◌*◌, ◌^◌, ◌≡◌, refl, Option, none, some, List, ok}
use reverse_traceroute_publi.IpUtil.{
  Ip, int32_to_ip_string, ip_string_to_int32, ip_to_int32, int32_to_ip,
}
use reverse_traceroute_publi.IpUtil.RoundTrip.{
  ip_string_to_int32-int32_to_ip_string, ip_to_int32-int32_to_ip, swap_bytes,
}

abbrev address : ℕ
address = 10 * 2 ^ 24 + 1 * 2 ^ 16 + 2 * 2 ^ 8 + 3

abbrev no_ipv6 : List ℕ → Option Ip
no_ipv6 s = none

address_text : int32_to_ip_string address ≡ "10.1.2.3"
unfolding int32_to_ip_string
address_text = refl

ip_string_to_int32-int32_to_ip_string_example :
    ip_string_to_int32 no_ipv6 (int32_to_ip_string address) ≡ some (ok address)
ip_string_to_int32-int32_to_ip_string_example =
    ip_string_to_int32-int32_to_ip_string no_ipv6 address (omega arith)

ip_to_int32-int32_to_ip_example :
    (ip_to_int32 (int32_to_ip address) ≡ ok (swap_bytes address))
    × (swap_bytes (swap_bytes address) ≡ address)
ip_to_int32-int32_to_ip_example = ip_to_int32-int32_to_ip address (omega arith)
