-- ===== src/IpUtil.antt =====
-- util/util.go: the conversions between an IPv4 address as a uint32, a text and a net.IP.
-- `net.IP` is Go's: an address in 4-byte form, or 16 bytes that are no IPv4 address. A text that
-- `net.ParseIP` reads as IPv6, by a colon before any dot, is read by the argument `parse_ipv6`.
-- A mask and a shift take a byte, `x / 2 ^ k % 256`; an `|=` of bytes at disjoint places adds.
mod RoundTrip
mod Tests
use Prim.Native.String.{◌++◌}
use reverse_traceroute_publi.Base.{
  ℕ, zero, suc, ◌+◌, ◌-◌, ◌*◌, ◌/◌, ◌%◌, ◌^◌, String, Bool, true, false, ◌&&◌, Option, none, some,
  List, [], ◌∷◌, Run, ok, panic, codes, if◌then◌else◌, ltb, leb, ◌==◌,
}

pub data Ip : Type 0 where
  ipv4 : ℕ → ℕ → ℕ → ℕ → Ip
  ipv6 : List ℕ → Ip

-- A decimal digit as text.
unfoldable pub digit_text : ℕ → String
digit_text zero = "0"
digit_text (suc zero) = "1"
digit_text (suc (suc zero)) = "2"
digit_text (suc (suc (suc zero))) = "3"
digit_text (suc (suc (suc (suc zero)))) = "4"
digit_text (suc (suc (suc (suc (suc zero))))) = "5"
digit_text (suc (suc (suc (suc (suc (suc zero)))))) = "6"
digit_text (suc (suc (suc (suc (suc (suc (suc zero))))))) = "7"
digit_text (suc (suc (suc (suc (suc (suc (suc (suc zero)))))))) = "8"
digit_text d = "9"

-- A byte in decimal, as `IP.String` writes it.
byte_text : ℕ → String
unfolding digit_text
byte_text b =
    if ltb b 10
    then digit_text b
    else if ltb b 100
    then digit_text (b / 10) ++ digit_text (b % 10)
    else digit_text (b / 100) ++ (digit_text (b / 10 % 10) ++ digit_text (b % 10))

-- `IP.String` of an IPv4 address.
ip_text : ℕ → ℕ → ℕ → ℕ → String
unfolding byte_text
ip_text a b c d =
    byte_text a ++ ("." ++ (byte_text b ++ ("." ++ (byte_text c ++ ("." ++ byte_text d)))))

-- net.dtoi: the number at the front of the text, with what follows it. `seen` says that a digit
-- has been read; 0xffffff is the limit of the loop.
unfoldable pub dtoi : ℕ → Bool → List ℕ → Option (ℕ × List ℕ)
dtoi n seen [] = if seen then some (n, []) else none
dtoi n seen (c ∷ s) =
    let next = dtoi (n * 10 + (c - b'0')) true s in
    if leb b'0' c && leb c b'9'
    then if leb 0xffffff (n * 10 + (c - b'0')) then none else next
    else if seen
    then some (n, c ∷ s)
    else none

-- One round of net.parseIPv4: a number that fits a byte.
parse_byte : List ℕ → Option (ℕ × List ℕ)
unfolding dtoi
parse_byte s = elim (dtoi 0 false s) [
  | some (n, rest) ↦ if ltb 0xff n then none else some (n, rest)
  | none ↦ none
]

-- The same after the dot that stands before the second and the later numbers.
parse_dot_byte : List ℕ → Option (ℕ × List ℕ)
unfolding parse_byte
parse_dot_byte [] = none
parse_dot_byte (c ∷ s) = if c == b'.' then parse_byte s else none

infixl 5 ◌>>=◌
abbrev ◌>>=◌ {ℓ κ} : {A : Type ℓ} {B : Type κ} → Option A → (A → Option B) → Option B
some a >>= f = f a
none >>= f = none

-- net.parseIPv4.
unfoldable pub parse_ipv4 : List ℕ → Option Ip
unfolding parse_dot_byte
parse_ipv4 s = do
  (a, s₁) ← parse_byte s
  (b, s₂) ← parse_dot_byte s₁
  (c, s₃) ← parse_dot_byte s₂
  (d, s₄) ← parse_dot_byte s₃
  elim s₄ [ [] ↦ some (ipv4 a b c d) | _ ∷ _ ↦ none ]

-- net.ParseIP decides by the first dot or colon.
first_separator : List ℕ → Option ℕ
first_separator [] = none
first_separator (c ∷ s) =
    if c == b'.' then some b'.' else if c == b':' then some b':' else first_separator s

unfoldable pub parse_ip : (List ℕ → Option Ip) → String → Option Ip
unfolding first_separator parse_ipv4
parse_ip parse_ipv6 s = elim (first_separator (codes s)) [
  | some c ↦ if c == b'.' then parse_ipv4 (codes s) else parse_ipv6 (codes s)
  | none ↦ none
]

-- The tests on the range never fail for a uint32, and net.IPv4 never returns nil.
unfoldable pub int32_to_ip_string : ℕ → String
unfolding ip_text
int32_to_ip_string ip =
    ip_text (ip / 2 ^ 24 % 256) (ip / 2 ^ 16 % 256) (ip / 2 ^ 8 % 256) (ip % 256)

-- `none` is the error for a text that is no address. Indexing the nil that To4 returns for an
-- address that is not IPv4 panics.
unfoldable pub ip_to_int32 : Ip → Run ℕ
ip_to_int32 (ipv4 a b c d) = ok (a * 2 ^ 24 + b * 2 ^ 16 + c * 2 ^ 8 + d)
ip_to_int32 (ipv6 bytes) = panic

unfoldable pub ip_string_to_int32 : (List ℕ → Option Ip) → String → Option (Run ℕ)
unfolding parse_ip
ip_string_to_int32 parse_ipv6 ips = elim (parse_ip parse_ipv6 ips) [
  | some ip ↦ some (ip_to_int32 ip)
  | none ↦ none
]

unfoldable pub int32_to_ip : ℕ → Ip
int32_to_ip ip = ipv4 (ip % 256) (ip / 2 ^ 8 % 256) (ip / 2 ^ 16 % 256) (ip / 2 ^ 24 % 256)
