-- ===== src/UuEncode/Group.antt =====
-- Three bytes and their four characters.
use reverse_traceroute_publi.Base.{
  ℕ, ◌+◌, ◌*◌, ◌/◌, ◌%◌, ◌<◌, ◌≡◌, refl, true, false, some, [], ◌∷◌, arith, ◌==◌,
}
use reverse_traceroute_publi.UuEncode.{enc, in_range, six_bits, uudecode_bytes}

-- Six bits survive the way through their character, which is not the line feed.
pub enc_lem :
    (v : ℕ) → v < 64 → (in_range (enc v) ≡ true) × (six_bits (enc v) ≡ v) × ((enc v == 10) ≡ false)
unfolding enc in_range six_bits
enc_lem v h = ground arith

-- A group is decoded to the bytes that were encoded.
pub uudecode_bytes-enc :
    (a b c : ℕ)
    → a < 256
    → b < 256
    → c < 256
    → uudecode_bytes
        (enc (a / 4))
        (enc (a % 4 * 16 + b / 16))
        (enc (b % 16 * 4 + c / 64))
        (enc (c % 64))
      ≡ some (a ∷ b ∷ c ∷ [])
unfolding uudecode_bytes
uudecode_bytes-enc a b c ha hb hc =
    let (i, v, _) = enc_lem (a / 4) (omega arith) in
    let (j, w, _) = enc_lem (a % 4 * 16 + b / 16) (omega arith) in
    let (k, x, _) = enc_lem (b % 16 * 4 + c / 64) (omega arith) in
    let (l, y, _) = enc_lem (c % 64) (omega arith) in
    let first : a / 4 * 4 + (a % 4 * 16 + b / 16) / 16 ≡ a = omega arith in
    let second : (a % 4 * 16 + b / 16) * 16 % 256 + (b % 16 * 4 + c / 64) / 4 ≡ b = omega arith in
    let third : (b % 16 * 4 + c / 64) * 64 % 256 + c % 64 ≡ c = omega arith in
    rw (i, j, k, l, v, w, x, y, first, second, third) refl
