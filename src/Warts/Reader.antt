-- ===== src/Warts/Reader.antt =====
-- warts/utils.go: the reads from a bytes.Buffer, which holds the bytes that are left. A Read that
-- finds fewer bytes than it asks for takes them all. A text is its bytes.
use reverse_traceroute_publi.Base.{
  ℕ, ◌+◌, ◌-◌, ◌*◌, ◌/◌, ◌%◌, ◌^◌, Bool, List, [], ◌∷◌, ◌++◌, length, take, drop, if◌then◌else◌,
  ltb, ◌==◌,
}

-- io.EOF, which the loop of Parse tells from the other errors.
pub data ReadError : Type 0 where
  eof bad : ReadError

pub data Reading (A : Type 0) : Type 0 where
  got : A → List ℕ → Reading A
  failed : ReadError → List ℕ → Reading A

abbrev pub Reader : Type 0 → Type 0
Reader A = List ℕ → Reading A

module _ {A : Type 0} where
  abbrev pub pure : A → Reader A
  pure a buf = got a buf

  unfoldable pub and_then : {B : Type 0} → Reading A → (A → Reader B) → Reading B
  and_then (got a rest) f = f a rest
  and_then (failed e rest) f = failed e rest

infixl 5 ◌>>=◌
abbrev pub ◌>>=◌ : {A B : Type 0} → Reader A → (A → Reader B) → Reader B
(m >>= f) buf = and_then (m buf) f

-- One case of a switch, and the cases behind it.
infix 0 when◌run◌otherwise◌
unfoldable pub when◌run◌otherwise◌ : {A : Type 0} → Bool → Reader A → Reader A → Reader A
when c run r otherwise s = if c then r else s

-- An error of Read is passed on as it is (`eof`), or the count is wrong (`bad`).
unfoldable pub read : ℕ → Reader (List ℕ)
read n [] = if n == 0 then got [] [] else failed eof []
read n (b ∷ buf) =
    if ltb (length (b ∷ buf)) n then failed bad [] else got (take n (b ∷ buf)) (drop n (b ∷ buf))

-- An error that is wrapped by fmt.Errorf.
unfoldable pub wrapped : {A : Type 0} → Reading A → Reading A
wrapped (got a rest) = got a rest
wrapped (failed e rest) = failed bad rest

-- The bytes of a number, the highest first.
unfoldable pub be_number : ℕ → List ℕ → ℕ
be_number n [] = n
be_number n (b ∷ bs) = be_number (n * 256 + b) bs

unfoldable pub read_uint8 : Reader ℕ
read_uint8 buf = wrapped (and_then (read 1 buf) (λ bs. pure (be_number 0 bs)))

unfoldable pub read_uint16 : Reader ℕ
read_uint16 buf = wrapped (and_then (read 2 buf) (λ bs. pure (be_number 0 bs)))

unfoldable pub read_uint32 : Reader ℕ
read_uint32 buf = wrapped (and_then (read 4 buf) (λ bs. pure (be_number 0 bs)))

-- readOne, and readBytes.
unfoldable pub read_one : Reader ℕ
read_one buf = and_then (read 1 buf) (λ bs. pure (be_number 0 bs))

abbrev pub read_bytes : ℕ → Reader (List ℕ)
read_bytes n = read n

-- getString: up to a zero byte.
unfoldable pub get_string : List ℕ → Reader (List ℕ)
get_string text [] = failed eof []
get_string text (b ∷ buf) =
    let rest = get_string (text ++ b ∷ []) buf in if b == 0 then got text buf else rest

pub record Timeval : Type 0 where
  pub sec : ℕ
  pub usec : ℕ

unfoldable pub read_time_val : Reader Timeval
read_time_val = read_uint32 >>= λ s. read_uint32 >>= λ u. pure (record { sec = s; usec = u })

-- convertTimeval.
unfoldable pub convert_timeval : ℕ → Timeval
convert_timeval val = record { sec = val / 1000000; usec = val % 1000000 }

unfoldable pub isset : ℕ → ℕ → Bool
isset val pos = val / 2 ^ (pos - 1) % 2 == 1

unfoldable pub slice_to_uint64 : List ℕ → ℕ
slice_to_uint64 bs = if ltb 8 (length bs) then 0 else be_number 0 bs
