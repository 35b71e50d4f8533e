-- ===== src/Controller/Numbers.antt =====
-- fmt.Sprintf of a uint32: %d, which has ten digits at most, and %08x.
use Prim.Native.String.{◌++◌}
use reverse_traceroute_publi.Base.{ℕ, zero, suc, ◌/◌, ◌%◌, String, if◌then◌else◌, ltb}
use reverse_traceroute_publi.IpUtil.{digit_text}

unfoldable pub digits : ℕ → ℕ → String
digits zero n = ""
digits (suc fuel) n =
    let front = digits fuel (n / 10) in
    if ltb n 10 then digit_text n else front ++ digit_text (n % 10)

abbrev pub decimal : ℕ → String
decimal n = digits 10 n

unfoldable pub hex_digit : ℕ → String
hex_digit d =
    if ltb d 10
    then digit_text d
    else if ltb d 11
    then "a"
    else if ltb d 12
    then "b"
    else if ltb d 13
    then "c"
    else if ltb d 14
    then "d"
    else if ltb d 15
    then "e"
    else "f"

unfoldable pub hex_digits : ℕ → ℕ → String
hex_digits zero n = ""
hex_digits (suc places) n = hex_digits places (n / 16) ++ hex_digit (n % 16)

abbrev pub hex8 : ℕ → String
hex8 n = hex_digits 8 n
