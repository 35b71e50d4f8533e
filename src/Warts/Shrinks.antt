-- ===== src/Warts/Shrinks.antt =====
-- How many bytes the readers leave (warts/utils.go).
use reverse_traceroute_publi.Base.{
  ℕ, zero, suc, ◌<◌, ◌≤◌, ◌≡◌, Bool, true, false, List, [], ◌∷◌, ◌++◌, length, drop, ltb, ◌==◌,
  arith, Bool-cases, inl, inr,
}
use reverse_traceroute_publi.Warts.Reader.{
  Reader, Reading, got, failed, pure, and_then, ◌>>=◌, when◌run◌otherwise◌, read, wrapped,
  read_uint8, read_uint16, read_uint32, read_one, read_time_val, get_string, ReadError,
}

-- Less than `n` bytes are left, or there is an error.
unfoldable pub Below : {A : Type 0} → ℕ → Reading A → Type 0
Below n (got a rest) = length rest < n
Below n (failed e rest) = Unit

pub length-drop : (k : ℕ) (xs : List ℕ) → length (drop k xs) ≤ length xs
length-drop zero xs = omega arith
length-drop (suc k) [] = omega arith
length-drop (suc k) (x ∷ xs) = let rest = length-drop k xs in omega arith

pub and_then-Below :
    {A B : Type 0} (n : ℕ) (m : Reading A) (f : A → Reader B)
    → Below n m
    → ((a : A) (rest : List ℕ) → length rest < n → Below n (f a rest))
    → Below n (and_then m f)
unfolding Below and_then
and_then-Below n (got a rest) f h then_f = then_f a rest h
and_then-Below n (failed e rest) f h then_f = tt

pub pure-Below :
    {A : Type 0} (n : ℕ) (a : A) (rest : List ℕ) → length rest < n → Below n (pure a rest)
unfolding Below
pure-Below n a rest h = h

pub wrapped-Below : {A : Type 0} (n : ℕ) (m : Reading A) → Below n m → Below n (wrapped m)
unfolding Below wrapped
wrapped-Below n (got a rest) h = h
wrapped-Below n (failed e rest) h = tt

pub read-Below : (n k : ℕ) (buf : List ℕ) → length buf < n → Below n (read k buf)
unfolding Below read
read-Below n k [] h = elim (Bool-cases (k == 0)) [ inl e ↦ rw e h | inr e ↦ rw e tt ]
read-Below n k (b ∷ buf) h =
    let shorter = length-drop k (b ∷ buf) in
    elim (Bool-cases (ltb (length (b ∷ buf)) k)) [ inl e ↦ rw e tt | inr e ↦ rw e (omega arith) ]

-- A read that asks for bytes takes some.
pub read_some-Below : (k : ℕ) (buf : List ℕ) → Below (length buf) (read (suc k) buf)
unfolding Below read
read_some-Below k [] = let some_byte : (suc k == 0) ≡ false = ground arith in rw some_byte tt
read_some-Below k (b ∷ buf) =
    let shorter = length-drop k buf in
    elim (Bool-cases (ltb (length (b ∷ buf)) (suc k))) [
      | inl e ↦ rw e tt
      | inr e ↦ rw e (omega arith)
    ]

pub record Shrinks {A : Type 0} (r : Reader A) : Type 0 where
  pub shrink : (n : ℕ) (buf : List ℕ) → length buf < n → Below n (r buf)

pub pure-Shrinks : {A : Type 0} {a : A} → Shrinks (pure a)
pure-Shrinks = record { shrink = λ n buf. pure-Below n _ buf }

pub failed-Shrinks : {A : Type 0} {e : ReadError} → Shrinks {A = A} (failed e)
unfolding Below
failed-Shrinks = record { shrink = λ n buf h. tt }

pub bind-Shrinks :
    {A B : Type 0} {m : Reader A} {f : A → Reader B}
    → Shrinks m
    → ((a : A) → Shrinks (f a))
    → Shrinks (m >>= f)
bind-Shrinks first then_f = record {
  shrink =
      λ n buf h. and_then-Below n _ _ (first.shrink n buf h) (λ a rest. (then_f a).shrink n rest);
}

infix 0 test◌reads◌next◌
pub test◌reads◌next◌ :
    {A : Type 0} {r s : Reader A} (c : Bool)
    → Shrinks r
    → Shrinks s
    → Shrinks (when c run r otherwise s)
unfolding when◌run◌otherwise◌
test true reads first next others = first
test false reads first next others = others

-- A value that is read and stored.
pub stored :
    {A B : Type 0} {m : Reader A} (store : A → B) → Shrinks m → Shrinks (m >>= λ v. pure (store v))
stored store shrinks = bind-Shrinks shrinks (λ v. pure-Shrinks)

pub wrapped-Shrinks : {A : Type 0} {m : Reader A} → Shrinks m → Shrinks (λ buf. wrapped (m buf))
wrapped-Shrinks inner = record { shrink = λ n buf h. wrapped-Below n _ (inner.shrink n buf h) }

pub read-Shrinks : (k : ℕ) → Shrinks (read k)
read-Shrinks k = record { shrink = λ n. read-Below n k }

pub read_uint8-Shrinks : Shrinks read_uint8
unfolding read_uint8
read_uint8-Shrinks = wrapped-Shrinks (bind-Shrinks (read-Shrinks _) (λ bs. pure-Shrinks))

pub read_uint16-Shrinks : Shrinks read_uint16
unfolding read_uint16
read_uint16-Shrinks = wrapped-Shrinks (bind-Shrinks (read-Shrinks _) (λ bs. pure-Shrinks))

pub read_uint32-Shrinks : Shrinks read_uint32
unfolding read_uint32
read_uint32-Shrinks = wrapped-Shrinks (bind-Shrinks (read-Shrinks _) (λ bs. pure-Shrinks))

pub read_one-Shrinks : Shrinks read_one
unfolding read_one
read_one-Shrinks = bind-Shrinks (read-Shrinks _) (λ bs. pure-Shrinks)

pub read_time_val-Shrinks : Shrinks read_time_val
unfolding read_time_val
read_time_val-Shrinks =
    bind-Shrinks read_uint32-Shrinks (λ s. bind-Shrinks read_uint32-Shrinks (λ u. pure-Shrinks))

get_string-Below :
    (text : List ℕ) (n : ℕ) (buf : List ℕ) → length buf < n → Below n (get_string text buf)
unfolding get_string Below
get_string-Below text n [] h = tt
get_string-Below text n (b ∷ buf) h =
    let rest = get_string-Below (text ++ b ∷ []) n buf (omega arith) in
    elim (Bool-cases (b == 0)) [ inl e ↦ rw e (omega arith) | inr e ↦ rw e rest ]

pub get_string-Shrinks : (text : List ℕ) → Shrinks (get_string text)
get_string-Shrinks text = record { shrink = get_string-Below text }
