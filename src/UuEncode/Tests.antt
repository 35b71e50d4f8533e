-- ===== src/UuEncode/Tests.antt =====
-- The encodings of uuencode_test.go.
use native.Mathlib.Omega.{arith}
use reverse_traceroute_publi.Base.{ℕ, ◌≡◌, refl, true, false, some, List, [], ◌∷◌, ok, codes}
use reverse_traceroute_publi.UuEncode.{Runtime, uuencode, uudecode}
use reverse_traceroute_publi.UuEncode.Line.{AllBytes}
use reverse_traceroute_publi.UuEncode.RoundTrip.{uudecode-uuencode}

abbrev roomy : Runtime
roomy = record { has_room = λ n. true; limits_split = false }

abbrev short : List ℕ
short = codes "short test"

short_encoded : uuencode roomy short ≡ some (ok (codes "*<VAO<G0@=&5S=```\n`\n"))
unfolding uuencode reverse_traceroute_publi.UuEncode.uuencode_loop
    reverse_traceroute_publi.UuEncode.uuencode_line reverse_traceroute_publi.UuEncode.encode_groups
    reverse_traceroute_publi.UuEncode.enc reverse_traceroute_publi.UuEncode.uuencode_bytes
short_encoded = refl

abbrev bytes : List ℕ
bytes = 115 ∷ 0 ∷ 255 ∷ 10 ∷ []

bytes-AllBytes : AllBytes bytes
bytes-AllBytes = (omega arith, (omega arith, (omega arith, (omega arith, tt))))

uudecode-uuencode_example :
    (out : List ℕ) × (uuencode roomy bytes ≡ some (ok out)) × (uudecode roomy out ≡ ok (some bytes))
uudecode-uuencode_example = uudecode-uuencode roomy bytes (λ n. refl) bytes-AllBytes
