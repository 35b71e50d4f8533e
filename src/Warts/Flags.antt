-- ===== src/Warts/Flags.antt =====
-- warts/flags.go: the flags of a record. A byte holds seven, and its highest bit says that another
-- byte follows. The flags are numbered on 8 bits.
use reverse_traceroute_publi.Base.{ℕ, zero, suc, ◌+◌, ◌*◌, ◌%◌, List, [], ◌∷◌, ◌++◌, if◌then◌else◌}
use reverse_traceroute_publi.Warts.Reader.{Reader, got, failed, eof, isset}

-- The flags of a byte, from its bit `i` on; `n` bits are left.
unfoldable pub byte_flags : ℕ → ℕ → ℕ → ℕ → List ℕ
byte_flags check byte_num i zero = []
byte_flags check byte_num i (suc n) =
    let rest = byte_flags check byte_num (i + 1) n in
    if isset check i then (i + 7 * ((byte_num + 255) % 256)) % 256 ∷ rest else rest

-- The number of the byte counts on 8 bits: from 255 on it is 0, and 0 - 1 is 255.
abbrev pub next_byte : ℕ → ℕ
next_byte byte_num = (byte_num + 1) % 256

-- What the flags so far and those of this byte are.
abbrev pub with_byte : List ℕ → ℕ → ℕ → List ℕ
with_byte ret check byte_num = ret ++ byte_flags check byte_num 1 7

unfoldable pub flags_loop : List ℕ → ℕ → ℕ → Reader (List ℕ)
flags_loop ret check byte_num [] =
    if isset check 8 then failed eof [] else got (with_byte ret check byte_num) []
flags_loop ret check byte_num (next ∷ buf) =
    let more = flags_loop (with_byte ret check byte_num) next (next_byte byte_num) buf in
    if isset check 8 then more else got (with_byte ret check byte_num) (next ∷ buf)

unfoldable pub get_flags : ℕ → Reader (List ℕ)
get_flags first buf = flags_loop [] first 1 buf
