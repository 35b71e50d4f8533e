-- ===== src/IpUtil/RoundTrip.antt =====
-- An address survives the way through its text.
use Prim.Native.Char.{code}
use Prim.Native.String.{String}
use Prim.Native.String
use mathlib.Core.List.{append-nil}
use text.Mathlib.TextLemmas.{cons-append, nil-append}
use reverse_traceroute_publi.Base.{
  ℕ, ◌+◌, ◌-◌, ◌*◌, ◌/◌, ◌%◌, ◌^◌, ◌<◌, ◌≡◌, refl, ap, ◌∙◌, Bool, true, false, Option, some, List,
  [], ◌∷◌, ◌++◌, ok, codes, arith, if◌then◌else◌, ltb, Bool-cases, inl, inr, zero, suc, ◌&&◌, leb,
}
use reverse_traceroute_publi.IpUtil.{
  Ip, ipv4, digit_text, byte_text, ip_text, dtoi, parse_byte, parse_dot_byte, parse_ipv4,
  first_separator, parse_ip, int32_to_ip_string, ip_to_int32, ip_string_to_int32, int32_to_ip,
}

codes-append : (s t : String) → codes (String.◌++◌ s t) ≡ codes s ++ codes t
codes-append String.[] t = rw nil-append
codes-append (String.◌∷◌ c s) t =
    ap codes (cons-append c s t) ∙ ap (◌∷◌ (code c)) (codes-append s t)

digit_codes : (d : ℕ) → d < 10 → codes (digit_text d) ≡ (b'0' + d) ∷ []
unfolding digit_text
digit_codes zero h = refl
digit_codes (suc zero) h = refl
digit_codes (suc (suc zero)) h = refl
digit_codes (suc (suc (suc zero))) h = refl
digit_codes (suc (suc (suc (suc zero)))) h = refl
digit_codes (suc (suc (suc (suc (suc zero))))) h = refl
digit_codes (suc (suc (suc (suc (suc (suc zero)))))) h = refl
digit_codes (suc (suc (suc (suc (suc (suc (suc zero))))))) h = refl
digit_codes (suc (suc (suc (suc (suc (suc (suc (suc zero)))))))) h = refl
digit_codes (suc (suc (suc (suc (suc (suc (suc (suc (suc zero))))))))) h = refl
digit_codes (suc (suc (suc (suc (suc (suc (suc (suc (suc (suc d)))))))))) h = absurd (omega arith)

-- What follows a number is not a digit.
abbrev Stops : List ℕ → Type 0
Stops [] = Unit
Stops (c ∷ s) = leb b'0' c && leb c b'9' ≡ false

dtoi-Stops : (n : ℕ) (rest : List ℕ) → Stops rest → dtoi n true rest ≡ some (n, rest)
unfolding dtoi
dtoi-Stops n [] h = refl
dtoi-Stops n (c ∷ rest) h = rw h

dtoi_digit :
    (n d : ℕ) (seen : Bool) (s : List ℕ)
    → d < 10
    → n < 1000
    → dtoi n seen ((b'0' + d) ∷ s) ≡ dtoi (n * 10 + d) true s
unfolding dtoi
dtoi_digit n d seen s h k =
    let value : n * 10 + (b'0' + d - b'0') ≡ n * 10 + d = omega arith in rw value (ground arith)

-- The digits of a byte.
abbrev byte_digits : ℕ → List ℕ
byte_digits b =
    if ltb b 10
    then (b'0' + b) ∷ []
    else if ltb b 100
    then (b'0' + b / 10) ∷ (b'0' + b % 10) ∷ []
    else (b'0' + b / 100) ∷ (b'0' + b / 10 % 10) ∷ (b'0' + b % 10) ∷ []

byte_codes : (b : ℕ) → b < 256 → codes (byte_text b) ≡ byte_digits b
unfolding byte_text
byte_codes b h = elim (Bool-cases (ltb b 10)) [
  | inl one ↦ rw one (digit_codes b (ground arith))
  | inr more ↦ elim (Bool-cases (ltb b 100)) [
    | inl two ↦
        rw (more, two, codes-append, digit_codes (b / 10) (ground arith))
          (ap (◌∷◌ (b'0' + b / 10)) (digit_codes (b % 10) (omega arith)))
    | inr three ↦
        rw (more, three, codes-append, digit_codes (b / 100) (omega arith), codes-append)
          (rw (digit_codes (b / 10 % 10) (omega arith), digit_codes (b % 10) (omega arith)))
  ]
]

dtoi-byte_digits :
    (b : ℕ) (rest : List ℕ)
    → b < 256
    → Stops rest
    → dtoi 0 false (byte_digits b ++ rest) ≡ some (b, rest)
dtoi-byte_digits b rest h stops =
    let q = b / 10 in
    let p = b / 100 in
    let r = b / 10 % 10 in
    let one_digit = dtoi_digit 0 b false rest in
    let two_digits = dtoi_digit 0 q false ((b'0' + b % 10) ∷ rest) in
    let second = dtoi_digit (0 * 10 + q) (b % 10) true rest in
    let three_digits = dtoi_digit 0 p false ((b'0' + r) ∷ (b'0' + b % 10) ∷ rest) in
    let middle = dtoi_digit (0 * 10 + p) r true ((b'0' + b % 10) ∷ rest) in
    let last = dtoi_digit ((0 * 10 + p) * 10 + r) (b % 10) true rest in
    elim (Bool-cases (ltb b 10)) [
      | inl one ↦
          rw (one, one_digit (ground arith) (omega arith), dtoi-Stops _ rest stops) (ground arith)
      | inr more ↦ elim (Bool-cases (ltb b 100)) [
        | inl two ↦
            rw
              (
                more,
                two,
                two_digits (ground arith) (omega arith),
                second (omega arith) (omega arith),
                dtoi-Stops _ rest stops,
              )
              (ground arith)
        | inr three ↦
            rw
              (
                more,
                three,
                three_digits (omega arith) (omega arith),
                middle (omega arith) (omega arith),
                last (omega arith) (omega arith),
                dtoi-Stops _ rest stops,
              )
              (ground arith)
      ]
    ]

parse_byte-byte_text :
    (b : ℕ) (rest : List ℕ)
    → b < 256
    → Stops rest
    → parse_byte (codes (byte_text b) ++ rest) ≡ some (b, rest)
unfolding parse_byte
parse_byte-byte_text b rest h stops =
    rw (byte_codes b h) (ground (arith, dtoi-byte_digits b rest h stops))

ip_codes :
    (a b c d : ℕ)
    → codes (ip_text a b c d)
      ≡ codes (byte_text a)
        ++ (b'.'
            ∷ (codes (byte_text b)
                ++ (b'.' ∷ (codes (byte_text c) ++ (b'.' ∷ (codes (byte_text d) ++ []))))))
unfolding ip_text
ip_codes a b c d = simp (codes-append, append-nil)

module _ (a b c d : ℕ) (ha : a < 256) (hb : b < 256) (hc : c < 256) (hd : d < 256) where
  parse_ipv4-ip_text : parse_ipv4 (codes (ip_text a b c d)) ≡ some (ipv4 a b c d)
  unfolding parse_ipv4 parse_dot_byte
  parse_ipv4-ip_text = rw (
    ip_codes,
    parse_byte-byte_text a _ ha refl,
    parse_byte-byte_text b _ hb refl,
    parse_byte-byte_text c _ hc refl,
    parse_byte-byte_text d [] hd tt,
  )

  first_separator-ip_text : first_separator (codes (ip_text a b c d)) ≡ some b'.'
  unfolding first_separator
  first_separator-ip_text = rw (ip_codes, byte_codes a ha) (ground arith)

-- The text of an address is read as the same address.
pub parse_ip-int32_to_ip_string :
    (parse_ipv6 : List ℕ → Option Ip) (ip : ℕ)
    → parse_ip parse_ipv6 (int32_to_ip_string ip)
      ≡ some (ipv4 (ip / 2 ^ 24 % 256) (ip / 2 ^ 16 % 256) (ip / 2 ^ 8 % 256) (ip % 256))
unfolding parse_ip int32_to_ip_string
parse_ip-int32_to_ip_string parse_ipv6 ip =
    let a = ip / 2 ^ 24 % 256 in
    let b = ip / 2 ^ 16 % 256 in
    let c = ip / 2 ^ 8 % 256 in
    let d = ip % 256 in
    rw (
      first_separator-ip_text a b c d (omega arith) (omega arith) (omega arith) (omega arith),
      parse_ipv4-ip_text a b c d (omega arith) (omega arith) (omega arith) (omega arith),
      parse_ip,
    )

-- IPStringToInt32 reads back an address of 32 bits that Int32ToIPString printed.
pub ip_string_to_int32-int32_to_ip_string :
    (parse_ipv6 : List ℕ → Option Ip) (ip : ℕ)
    → ip < 2 ^ 32
    → ip_string_to_int32 parse_ipv6 (int32_to_ip_string ip) ≡ some (ok ip)
unfolding ip_string_to_int32 ip_to_int32
ip_string_to_int32-int32_to_ip_string parse_ipv6 ip h =
    rw (parse_ip-int32_to_ip_string parse_ipv6 ip, ip_string_to_int32) (ground arith)

-- The address with its four bytes in the opposite order.
pub swap_bytes : ℕ → ℕ
swap_bytes ip =
    ip % 256 * 2 ^ 24 + ip / 2 ^ 8 % 256 * 2 ^ 16 + ip / 2 ^ 16 % 256 * 2 ^ 8 + ip / 2 ^ 24 % 256

-- IPtoInt32 after Int32ToIP reverses the four bytes of an address of 32 bits, and twice that is
-- the address.
pub ip_to_int32-int32_to_ip :
    (ip : ℕ)
    → ip < 2 ^ 32
    → (ip_to_int32 (int32_to_ip ip) ≡ ok (swap_bytes ip)) × (swap_bytes (swap_bytes ip) ≡ ip)
unfolding ip_to_int32 int32_to_ip swap_bytes
ip_to_int32-int32_to_ip ip h = (refl, omega arith)
