-- ===== src/UuEncode.antt =====
-- uuencode/uuencode.go and uuencode/uudecode.go: uuencoded bytes. A byte is a natural number below
-- 256; the shifts and masks are products, quotients and remainders by powers of two, and an `|` of
-- two parts that share no bit is a sum. A line is cut from a slice, and both sides read past the
-- end of a slice, into its array; what stands there is up to the Go runtime.
pub mod Group
pub mod Line
pub mod RoundTrip
mod Tests
use reverse_traceroute_publi.Base.{
  ℕ, zero, suc, ◌+◌, ◌-◌, ◌*◌, ◌/◌, ◌%◌, Bool, ◌&&◌, ◌||◌, Option, none, some, List, [], ◌∷◌, ◌++◌,
  length, take, drop, replicate, Run, ok, panic, ◌>>=◌, if◌then◌else◌, ltb, ◌==◌,
}

-- `has_room n`: append moves a full slice of `n` bytes into an array of at least n + 2, with zeros
-- behind. `limits_split`: the array of a slice that bytes.Split returns ends with the slice.
pub record Runtime : Type 0 where
  pub has_room : ℕ → Bool
  pub limits_split : Bool

unfoldable pub enc : ℕ → ℕ
enc b = if b == 0 then 96 else (b + 32) % 256

unfoldable pub uuencode_bytes : ℕ → ℕ → ℕ → List ℕ
uuencode_bytes a b c =
    enc (a / 4) ∷ enc (a % 4 * 16 + b / 16) ∷ enc (b % 16 * 4 + c / 64) ∷ enc (c % 64) ∷ []

-- The loop over the groups of `local`; the last group may lack one byte.
unfoldable pub encode_groups : Bool → ℕ → List ℕ → Run (List ℕ)
encode_groups room zero local = ok []
encode_groups room (suc n) (a ∷ b ∷ c ∷ local) =
    encode_groups room n local >>= λ r. ok (uuencode_bytes a b c ++ r)
encode_groups room (suc n) (a ∷ b ∷ []) =
    let rest = encode_groups room n [] >>= λ r. ok (uuencode_bytes a b 0 ++ r) in
    if room then rest else panic
encode_groups room (suc n) (a ∷ []) = panic
encode_groups room (suc n) [] = panic

-- `local` is padded with as many zeros as there are bytes that fill no group.
unfoldable pub uuencode_line : Runtime → List ℕ → Run (List ℕ)
uuencode_line go e =
    let remain = length e % 3 in
    let uselen = if ltb 0 remain then length e + (3 - remain) else length e in
    encode_groups (go.has_room (length e)) (uselen / 3) (e ++ replicate remain 0) >>= λ groups.
    ok (enc (length e % 256) ∷ groups)

-- The loop that reads 45 bytes at a time, on fuel; `none` is that the fuel ran out.
unfoldable pub uuencode_loop : ℕ → Runtime → List ℕ → List ℕ → Option (Run (List ℕ))
uuencode_loop zero go p results = none
uuencode_loop (suc fuel) go p results = elim (uuencode_line go (take 45 p)) [
  | ok encl ↦
      let rest = uuencode_loop fuel go (drop 45 p) (results ++ encl ++ 10 ∷ []) in
      if length p == 0 then some (ok (results ++ 96 ∷ 10 ∷ [])) else rest
  | panic ↦ if length p == 0 then some (ok (results ++ 96 ∷ 10 ∷ [])) else some panic
]

unfoldable pub uuencode : Runtime → List ℕ → Option (Run (List ℕ))
uuencode go p = uuencode_loop (suc (length p)) go p []

-- In the range of the characters of an encoding.
unfoldable pub in_range : ℕ → Bool
in_range b = ltb 31 b && ltb b 97

unfoldable pub six_bits : ℕ → ℕ
six_bits b = (b - 32) % 64

-- `none` is ErrorInvalidByte.
unfoldable pub uudecode_bytes : ℕ → ℕ → ℕ → ℕ → Option (List ℕ)
unfolding six_bits
uudecode_bytes a b c d =
    if in_range a && in_range b && (in_range c && in_range d)
    then some (
        (six_bits a * 4 + six_bits b / 16)
        ∷ (six_bits b * 16 % 256 + six_bits c / 4)
        ∷ (six_bits c * 64 % 256 + six_bits d)
        ∷ [])
    else none

-- A group that lacks bytes reads on in the array behind the line.
decode_rest : List ℕ → Run (Option (List ℕ))
decode_rest (a ∷ b ∷ c ∷ d ∷ e) = ok (uudecode_bytes a b c d)
decode_rest e = panic

unfoldable pub decode_groups : List ℕ → List ℕ → Run (Option (List ℕ))
unfolding decode_rest
decode_groups behind [] = ok (some [])
decode_groups behind (a ∷ b ∷ c ∷ d ∷ e) =
    let rest = decode_groups behind e in
    elim (uudecode_bytes a b c d) [
      | none ↦ ok none
      | some s ↦ rest >>= λ r. ok (elim r [ some t ↦ some (s ++ t) | none ↦ none ])
    ]
decode_groups behind (a ∷ b ∷ c ∷ []) = decode_rest (a ∷ b ∷ c ∷ behind)
decode_groups behind (a ∷ b ∷ []) = decode_rest (a ∷ b ∷ behind)
decode_groups behind (a ∷ []) = decode_rest (a ∷ behind)

-- The result is cut to its length, or reads on in its array of zeros. The line that ends the
-- encoding has no bytes.
unfoldable pub uudecode_line : List ℕ → ℕ → List ℕ → Run (Option (List ℕ))
uudecode_line behind h e =
    let len_b = (h + 224) % 256 in
    let decoded = decode_groups behind e >>= λ r.
    ok (elim r [ some s ↦ some (take len_b (s ++ replicate len_b 0)) | none ↦ none ]) in
    if length e == 0 && h == 96 then ok (some []) else decoded

-- bytes.Split at a line feed: each line, and what stands behind it.
unfoldable pub split_lines : List ℕ → List ℕ → List (List ℕ × List ℕ)
split_lines line [] = (line, []) ∷ []
split_lines line (b ∷ e) =
    let this = (line, b ∷ e) ∷ split_lines [] e in
    let longer = split_lines (line ++ b ∷ []) e in if b == 10 then this else longer

unfoldable pub decode_lines : Runtime → List (List ℕ × List ℕ) → List ℕ → Run (Option (List ℕ))
decode_lines go [] result = ok (some result)
decode_lines go (([], behind) ∷ lines) result = ok (some result)
decode_lines go ((h ∷ e, behind) ∷ lines) result =
    let next = λ (ue : List ℕ). decode_lines go lines (result ++ ue) in
    let this = uudecode_line (if go.limits_split then [] else behind) h e >>= λ r. elim r [
      | some ue ↦ next ue
      | none ↦ ok none
    ] in
    if in_range h then this else ok (some result)

unfoldable pub uudecode : Runtime → List ℕ → Run (Option (List ℕ))
uudecode go e = decode_lines go (split_lines [] e) []
