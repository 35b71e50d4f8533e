-- ===== src/Warts/RoundTrip.antt =====
-- Lists as the warts format writes them (warts/list.go), and reading them back.
use mathlib.Core.List.{append-nil, append_assoc}
use reverse_traceroute_publi.Base.{
  ℕ, ◌/◌, ◌%◌, ◌^◌, ◌<◌, ◌≡◌, refl, sym, ap, ◌∙◌, true, false, List, [], ◌∷◌, ◌++◌, length,
  length-append, take, drop, ltb, ◌==◌, arith,
}
use reverse_traceroute_publi.Warts.Reader.{
  Reader, Reading, got, and_then, wrapped, read, be_number, read_uint16, read_uint32, get_string,
  isset,
}
use reverse_traceroute_publi.Warts.Records.{
  WartsList, ListFlags, no_list_flags, after_monitor, read_monitor, after_description, read_texts,
  after_list_flag, list_of, read_list_flags, read_list,
}

-- A text has no zero byte.
abbrev pub IsText : List ℕ → Type 0
IsText [] = Unit
IsText (b ∷ bs) = (0 < b) × IsText bs

-- The bytes of a number of 16 and of 32 bits.
abbrev pub be16 : ℕ → List ℕ
be16 n = n / 256 ∷ n % 256 ∷ []

abbrev pub be32 : ℕ → List ℕ
be32 n = n / 256 ^ 3 ∷ n / 256 ^ 2 % 256 ∷ n / 256 % 256 ∷ n % 256 ∷ []

be16-number : (n : ℕ) → be_number 0 (be16 n) ≡ n
unfolding be_number
be16-number n = omega arith

be32-number : (n : ℕ) → be_number 0 (be32 n) ≡ n
unfolding be_number
be32-number n = omega arith

take-length : (xs rest : List ℕ) → take (length xs) (xs ++ rest) ≡ xs
take-length [] rest = refl
take-length (x ∷ xs) rest = ap (◌∷◌ x) (take-length xs rest)

drop-length : (xs rest : List ℕ) → drop (length xs) (xs ++ rest) ≡ rest
drop-length [] rest = refl
drop-length (x ∷ xs) rest = drop-length xs rest

read-all :
    (x : ℕ) (xs rest : List ℕ) → read (length (x ∷ xs)) ((x ∷ xs) ++ rest) ≡ got (x ∷ xs) rest
unfolding read
read-all x xs rest =
    let enough : ltb (length (x ∷ (xs ++ rest))) (length (x ∷ xs)) ≡ false =
      ground (arith, length-append xs rest) in
    rw enough (rw (take-length xs rest, drop-length xs rest) refl)

pub get_string-text :
    (text s rest : List ℕ) → IsText s → get_string text (s ++ 0 ∷ rest) ≡ got (text ++ s) rest
unfolding get_string
get_string-text text [] rest h = ap (λ t. got t rest) (sym (append-nil text))
get_string-text text (b ∷ s) rest (pos, h) =
    let some_byte : (b == 0) ≡ false = ground arith in
    rw some_byte (
      get_string-text (text ++ b ∷ []) s rest h
      ∙ ap (λ t. got t rest) (append_assoc text (b ∷ []) s))

read_uint16-number : (n : ℕ) (rest : List ℕ) → read_uint16 (be16 n ++ rest) ≡ got n rest
unfolding read_uint16 wrapped and_then
read_uint16-number n rest = rw (read-all (n / 256) (n % 256 ∷ []) rest, be16-number n) refl

read_uint32-number : (n : ℕ) (rest : List ℕ) → read_uint32 (be32 n ++ rest) ≡ got n rest
unfolding read_uint32 wrapped and_then
read_uint32-number n rest =
    rw
      (
        read-all (n / 256 ^ 3) (n / 256 ^ 2 % 256 ∷ n / 256 % 256 ∷ n % 256 ∷ []) rest,
        be32-number n,
      )
      refl

-- A list as it is written before `rest`: the ids, the name, the byte of flags, the length of what
-- follows, and both texts, each with a zero byte at its end.
abbrev pub write_list : WartsList → List ℕ → List ℕ
write_list l rest =
    be32 l.list_id
    ++ (be32 l.c_list_id
        ++ (l.list_name
            ++ (0
                ∷ (3
                    ∷ (be16 l.p_length
                        ++ (l.description ++ (0 ∷ (l.monitor_name ++ (0 ∷ rest)))))))))

step :
    {A B : Type 0} {m : Reading A} {a : A} {rest : List ℕ} (f : A → Reader B)
    → m ≡ got a rest
    → and_then m f ≡ f a rest
unfolding and_then
step f e = ap (λ r. and_then r f) e

-- Both texts of the flags.
read_texts-both :
    (desc mon rest : List ℕ) (lf : ListFlags)
    → IsText desc
    → IsText mon
    → read_texts true true lf (desc ++ (0 ∷ (mon ++ (0 ∷ rest))))
      ≡ got (record lf { description = desc; monitor_name = mon }) rest
unfolding read_texts read_monitor after_description after_monitor
read_texts-both desc mon rest lf d m =
    ap (after_description true lf) (get_string-text [] desc (mon ++ (0 ∷ rest)) d)
    ∙ ap (after_monitor (record lf { description = desc })) (get_string-text [] mon rest m)

read_list_flags-both :
    (n : ℕ) (desc mon rest : List ℕ)
    → IsText desc
    → IsText mon
    → read_list_flags (3 ∷ (be16 n ++ (desc ++ (0 ∷ (mon ++ (0 ∷ rest))))))
      ≡ got (record { flags_length = n; description = desc; monitor_name = mon }) rest
unfolding read_list_flags after_list_flag wrapped and_then be_number isset
read_list_flags-both n desc mon rest d m =
    let texts = desc ++ (0 ∷ (mon ++ (0 ∷ rest))) in
    ap (λ r. and_then (wrapped r) (λ first. after_list_flag (be_number 0 first)))
      (read-all 3 [] (be16 n ++ texts))
    ∙ (step (λ l. read_texts true true (record no_list_flags { flags_length = l }))
          (read_uint16-number n texts)
        ∙ read_texts-both desc mon rest (record no_list_flags { flags_length = n }) d m)

number_at-be32 :
    (a b : ℕ) (flags : ListFlags) (name : List ℕ)
    → list_of (be32 a ++ be32 b) name flags ≡ record {
      list_id = a;
      c_list_id = b;
      list_name = name;
      p_length = flags.flags_length;
      description = flags.description;
      monitor_name = flags.monitor_name;
    }
number_at-be32 a b flags name = rw (be32-number a, be32-number b) refl

-- readList reads back a list that is written with both flags and texts without a zero byte, and
-- leaves what follows.
pub read_list-write_list :
    (l : WartsList) (rest : List ℕ)
    → IsText l.list_name
    → IsText l.description
    → IsText l.monitor_name
    → read_list (write_list l rest) ≡ got l rest
unfolding read_list
read_list-write_list l rest n d m =
    let texts = l.description ++ (0 ∷ (l.monitor_name ++ (0 ∷ rest))) in
    let flags : ListFlags = record {
      flags_length = l.p_length;
      description = l.description;
      monitor_name = l.monitor_name;
    } in
    let after_name = 3 ∷ (be16 l.p_length ++ texts) in
    step _ (
      read-all (l.list_id / 256 ^ 3) (drop 1 (be32 l.list_id) ++ be32 l.c_list_id)
        (l.list_name ++ (0 ∷ after_name)))
    ∙ (step _ (get_string-text [] l.list_name after_name n)
        ∙ (step _ (read_list_flags-both l.p_length l.description l.monitor_name rest d m)
            ∙ ap (λ written. got written rest)
                (number_at-be32 l.list_id l.c_list_id flags l.list_name)))
