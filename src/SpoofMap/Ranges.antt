-- ===== src/SpoofMap/Ranges.antt =====
-- What Go promises of a range over a map.
use reverse_traceroute_publi.Base.{ℕ, ◌≡◌, ap, true, none, some, List, [], ◌∷◌, arith, ◌==◌}
use reverse_traceroute_publi.SpoofMap.{find}

-- No key stands twice.
abbrev pub HasUniqueKeys : {V : Type 0} → List (ℕ × V) → Type 0
HasUniqueKeys [] = Unit
HasUniqueKeys ((k, v) ∷ m) = (find m k ≡ none) × HasUniqueKeys m

-- What Go promises of a range over a map: each entry once.
abbrev pub RangesOnce : {V : Type 0} → (List (ℕ × V) → List (ℕ × V)) → List (ℕ × V) → Type 0
RangesOnce order m = HasUniqueKeys (order m) × ((k : ℕ) → find (order m) k ≡ find m k)

pub some_inj : {A : Type 0} (a b : A) → some a ≡ some b → a ≡ b
some_inj a b h = ap (λ o. elim o [ some x ↦ x | none ↦ a ]) h

pub nowhere : {A : Type 0} (a : A) → ¬ (none ≡ some a)
nowhere a h = ground arith

pub key : (a b : ℕ) → (a == b) ≡ true → a ≡ b
key a b h = ground arith
