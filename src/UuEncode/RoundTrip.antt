-- ===== src/UuEncode/RoundTrip.antt =====
-- What is uuencoded is read back.
use mathlib.Core.List.{append_assoc, append-nil}
use reverse_traceroute_publi.Base.{
  ℕ, zero, suc, ◌<◌, ◌≡◌, refl, sym, ap, ◌∙◌, true, false, some, List, [], ◌∷◌, ◌++◌, length,
  length-take, length-drop, take, drop, take-append-drop, ok, arith, if◌then◌else◌, ◌==◌,
}
use reverse_traceroute_publi.UuEncode.{
  Runtime, in_range, encode_groups, uuencode_line, uuencode_loop, uuencode, uudecode_line,
  split_lines, decode_lines, uudecode,
}
use reverse_traceroute_publi.UuEncode.Line.{AllBytes, NoFeed, uuencode_line-NoFeed}

take-AllBytes : (n : ℕ) (p : List ℕ) → AllBytes p → AllBytes (take n p)
take-AllBytes zero p h = tt
take-AllBytes (suc n) [] h = tt
take-AllBytes (suc n) (a ∷ p) (b, h) = (b, take-AllBytes n p h)

drop-AllBytes : (n : ℕ) (p : List ℕ) → AllBytes p → AllBytes (drop n p)
drop-AllBytes zero p h = h
drop-AllBytes (suc n) [] h = tt
drop-AllBytes (suc n) (a ∷ p) (b, h) = drop-AllBytes n p h

-- A line is split off at its line feed.
split_lines-NoFeed :
    (line l rest : List ℕ)
    → NoFeed l
    → split_lines line (l ++ 10 ∷ rest) ≡ (line ++ l, 10 ∷ rest) ∷ split_lines [] rest
unfolding split_lines
split_lines-NoFeed line [] rest h =
    ap (λ k. (k, 10 ∷ rest) ∷ split_lines [] rest) (sym (append-nil line))
split_lines-NoFeed line (b ∷ l) rest (other, h) = rw other (
    split_lines-NoFeed (line ++ b ∷ []) l rest h
    ∙ ap (λ k. (k, 10 ∷ rest) ∷ split_lines [] rest) (append_assoc line (b ∷ []) l))

-- An encoding that is read as `p`.
abbrev ReadBack : Runtime → List ℕ → List ℕ → Type 0
ReadBack go out p =
    (result : List ℕ) → decode_lines go (split_lines [] out) result ≡ ok (some (result ++ p))

nothing-ReadBack : (go : Runtime) → ReadBack go (96 ∷ 10 ∷ []) []
unfolding decode_lines split_lines in_range uudecode_line
nothing-ReadBack go result = refl

line-ReadBack :
    (go : Runtime) (h : ℕ) (r e out p : List ℕ)
    → NoFeed (h ∷ r)
    → in_range h ≡ true
    → ((behind : List ℕ) → uudecode_line behind h r ≡ ok (some e))
    → ReadBack go out p
    → ReadBack go ((h ∷ r) ++ 10 ∷ out) (e ++ p)
unfolding decode_lines
line-ReadBack go h r e out p feed ranged back rest result =
    ap (λ lines. decode_lines go lines result) (split_lines-NoFeed [] (h ∷ r) out feed)
    ∙ rw (decode_lines, ranged, back (if go.limits_split then [] else 10 ∷ out))
        (rest (result ++ e) ∙ ap (λ l. ok (some l)) (append_assoc result e p))

uuencode_loop-line :
    (fuel : ℕ) (go : Runtime) (b : ℕ) (p results encl : List ℕ)
    → uuencode_line go (take 45 (b ∷ p)) ≡ ok encl
    → uuencode_loop (suc fuel) go (b ∷ p) results
      ≡ uuencode_loop fuel go (drop 45 (b ∷ p)) (results ++ encl ++ 10 ∷ [])
unfolding uuencode_loop
uuencode_loop-line fuel go b p results encl h =
    let more : (length (b ∷ p) == 0) ≡ false = ground arith in rw (uuencode_loop, h, more) refl

regroup :
    (results encl out : List ℕ)
    → (results ++ encl ++ 10 ∷ []) ++ out ≡ results ++ (encl ++ 10 ∷ out)
regroup results encl out =
    append_assoc (results ++ encl) (10 ∷ []) out ∙ append_assoc results encl (10 ∷ out)

uuencode_loop-ReadBack :
    (fuel : ℕ) (go : Runtime) (p results : List ℕ)
    → ((n : ℕ) → go.has_room n ≡ true)
    → AllBytes p
    → length p < fuel
    → (out : List ℕ) × (uuencode_loop fuel go p results ≡ some (ok (results ++ out)))
      × ReadBack go out p
unfolding uuencode_loop uuencode_line encode_groups
uuencode_loop-ReadBack zero go p results room bytes lt = absurd (omega arith)
uuencode_loop-ReadBack (suc fuel) go [] results room bytes lt =
    (96 ∷ 10 ∷ [], refl, nothing-ReadBack go)
uuencode_loop-ReadBack (suc fuel) go (b ∷ p) results room bytes lt =
    let e = take 45 (b ∷ p) in
    let (h, r, at, feed, ranged, back) =
      uuencode_line-NoFeed go e room (take-AllBytes 45 (b ∷ p) bytes)
        (omega (arith, length-take 45 (b ∷ p))) (omega (arith, length-take 45 (b ∷ p))) in
    let (out, same, rest) =
      uuencode_loop-ReadBack fuel go (drop 45 (b ∷ p)) (results ++ (h ∷ r) ++ 10 ∷ []) room
        (drop-AllBytes 45 (b ∷ p) bytes) (omega (arith, length-drop 45 (b ∷ p))) in
    (
      (h ∷ r) ++ 10 ∷ out,
      uuencode_loop-line fuel go b p results (h ∷ r) at
          ∙ same
          ∙ ap (λ l. some (ok l)) (regroup results (h ∷ r) out),
      λ result.
          line-ReadBack go h r e out (drop 45 (b ∷ p)) feed ranged back rest result
          ∙ ap (λ l. ok (some (result ++ l))) (take-append-drop 45 (b ∷ p)),
    )

-- Where the runtime leaves room behind a slice that append moved, UUEncode returns on every list
-- of bytes, and UUDecode of what it returns gives the bytes back.
pub uudecode-uuencode :
    (go : Runtime) (p : List ℕ)
    → ((n : ℕ) → go.has_room n ≡ true)
    → AllBytes p
    → (out : List ℕ) × (uuencode go p ≡ some (ok out)) × (uudecode go out ≡ ok (some p))
unfolding uuencode uudecode
uudecode-uuencode go p room bytes =
    let (out, same, back) =
      uuencode_loop-ReadBack (suc (length p)) go p [] room bytes (omega arith) in
    (out, same, back [])
