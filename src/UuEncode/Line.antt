-- ===== src/UuEncode/Line.antt =====
-- One line of an encoding: the groups, then the length before them.
use mathlib.Core.List.{append_assoc}
use reverse_traceroute_publi.Base.{
  ℕ, suc, ◌+◌, ◌-◌, ◌*◌, ◌/◌, ◌%◌, ◌≤◌, ◌<◌, ◌≡◌, refl, ap, ◌∙◌, Bool, true, false, ◌&&◌, some,
  List, [], ◌∷◌, ◌++◌, length, take, replicate, Run, ok, arith, if◌then◌else◌, ltb, ◌==◌,
}
use reverse_traceroute_publi.UuEncode.{
  Runtime, enc, uuencode_bytes, encode_groups, uuencode_line, in_range, decode_groups,
  uudecode_line,
}
use reverse_traceroute_publi.UuEncode.Group.{enc_lem, uudecode_bytes-enc}

abbrev pub AllBytes : List ℕ → Type 0
AllBytes [] = Unit
AllBytes (a ∷ e) = (a < 256) × AllBytes e

-- No line feed.
abbrev pub NoFeed : List ℕ → Type 0
NoFeed [] = Unit
NoFeed (b ∷ l) = ((b == 10) ≡ false) × NoFeed l

-- The number of groups of `n` bytes.
abbrev groups_of : ℕ → ℕ
groups_of n = (if ltb 0 (n % 3) then n + (3 - n % 3) else n) / 3

abbrev pad : ℕ → List ℕ
pad n = replicate (if ltb 0 (n % 3) then 3 - n % 3 else 0) 0

group-NoFeed :
    (a b c : ℕ) (r : List ℕ)
    → a < 256
    → b < 256
    → c < 256
    → NoFeed r
    → NoFeed (uuencode_bytes a b c ++ r)
unfolding uuencode_bytes
group-NoFeed a b c r ha hb hc n = (
  (enc_lem (a / 4) (omega arith)).2,
  (
    (enc_lem (a % 4 * 16 + b / 16) (omega arith)).2,
    ((enc_lem (b % 16 * 4 + c / 64) (omega arith)).2, ((enc_lem (c % 64) (omega arith)).2, n)),
  ),
)

group-decoded :
    (a b c : ℕ) (r e behind : List ℕ)
    → a < 256
    → b < 256
    → c < 256
    → decode_groups behind r ≡ ok (some e)
    → decode_groups behind (uuencode_bytes a b c ++ r) ≡ ok (some (a ∷ b ∷ c ∷ e))
unfolding decode_groups uuencode_bytes
group-decoded a b c r e behind ha hb hc h =
    rw (decode_groups, uudecode_bytes-enc a b c ha hb hc, h) refl

-- The groups are encoded; decoded they are the bytes with the padding.
abbrev Decoded : List ℕ → Run (List ℕ) → Type 0
Decoded e g =
    (r : List ℕ) × (g ≡ ok r)
    × NoFeed r
    × ((behind : List ℕ) → decode_groups behind r ≡ ok (some (e ++ pad (length e))))

encode_groups-Decoded :
    (e : List ℕ)
    → AllBytes e
    → Decoded e (encode_groups true (groups_of (length e)) (e ++ replicate (length e % 3) 0))
unfolding encode_groups decode_groups
encode_groups-Decoded [] h = ([], refl, tt, λ behind. refl)
encode_groups-Decoded (a ∷ []) (ha, h) = (
  uuencode_bytes a 0 0 ++ [],
  refl,
  group-NoFeed a 0 0 [] ha (omega arith) (omega arith) tt,
  λ behind. group-decoded a 0 0 [] [] behind ha (omega arith) (omega arith) refl,
)
encode_groups-Decoded (a ∷ b ∷ []) (ha, (hb, h)) = (
  uuencode_bytes a b 0 ++ [],
  refl,
  group-NoFeed a b 0 [] ha hb (omega arith) tt,
  λ behind. group-decoded a b 0 [] [] behind ha hb (omega arith) refl,
)
encode_groups-Decoded (a ∷ b ∷ c ∷ e) (ha, (hb, (hc, h))) =
    let (r, at, n, back) = encode_groups-Decoded e h in
    let count : groups_of (suc (suc (suc (length e)))) ≡ suc (groups_of (length e)) =
      ground arith in
    let rest : suc (suc (suc (length e))) % 3 ≡ length e % 3 = omega arith in
    (
      uuencode_bytes a b c ++ r,
      ap (λ k. encode_groups true k (a ∷ b ∷ c ∷ e ++ replicate (suc (suc (suc (length e))) % 3) 0))
            count
          ∙ ap
              (λ k.
                encode_groups true (suc (groups_of (length e))) (a ∷ b ∷ c ∷ e ++ replicate k 0))
              rest
          ∙ rw at refl,
      group-NoFeed a b c r ha hb hc n,
      λ behind. rw rest (group-decoded a b c r (e ++ pad (length e)) behind ha hb hc (back behind)),
    )

-- A full line is read back, whatever stands behind it.
take-append : (e z : List ℕ) → take (length e) (e ++ z) ≡ e
take-append [] z = refl
take-append (a ∷ e) z = ap (◌∷◌ a) (take-append e z)

length_byte : (n : ℕ) → 0 < n → n ≤ 45 → ((enc n + 224) % 256 ≡ n) × ((enc n == 96) ≡ false)
unfolding enc
length_byte n some_byte le = ground arith

and_false : (b : Bool) → (b && false) ≡ false
and_false true = refl
and_false false = refl

uudecode_line-full :
    (behind r e s : List ℕ) (h : ℕ)
    → (h == 96) ≡ false
    → (h + 224) % 256 ≡ length e
    → decode_groups behind r ≡ ok (some (e ++ s))
    → uudecode_line behind h r ≡ ok (some e)
unfolding uudecode_line
uudecode_line-full behind r e s h no_end len_b back =
    let cut : take (length e) ((e ++ s) ++ replicate (length e) 0) ≡ e =
      rw (append_assoc e s (replicate (length e) 0))
        (take-append e (s ++ replicate (length e) 0)) in
    rw (uudecode_line, no_end, and_false (length r == 0), back, len_b, cut) refl

-- A line of up to 45 bytes, with its length before it: it has no line feed, and is read back.
pub uuencode_line-NoFeed :
    (go : Runtime) (e : List ℕ)
    → ((n : ℕ) → go.has_room n ≡ true)
    → AllBytes e
    → 0 < length e
    → length e ≤ 45
    → (h : ℕ) × (r : List ℕ) × (uuencode_line go e ≡ ok (h ∷ r))
      × NoFeed (h ∷ r)
      × (in_range h ≡ true)
      × ((behind : List ℕ) → uudecode_line behind h r ≡ ok (some e))
unfolding uuencode_line
uuencode_line-NoFeed go e room bytes some_byte le =
    let (r, at, n, back) = encode_groups-Decoded e bytes in
    let size : length e % 256 ≡ length e = omega arith in
    let (ranged, _, line) = enc_lem (length e) (omega arith) in
    let (len_b, not_end) = length_byte (length e) some_byte le in
    (
      enc (length e % 256),
      r,
      rw (room (length e), at) refl,
      rw size (line, n),
      rw size ranged,
      λ behind.
          ap (λ k. uudecode_line behind (enc k) r) size
          ∙ uudecode_line-full behind r e (pad (length e)) (enc (length e)) not_end len_b
              (back behind),
    )
