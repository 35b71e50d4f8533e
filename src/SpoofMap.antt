-- ===== src/SpoofMap.antt =====
-- spoofmap/spoofMap.go: the spoofed probes that wait for an answer. `S` and `P` are dm.Spoof and
-- dm.Probe with the fields that are read; times are nanoseconds, and `order` is how Go ranges over
-- the map.
pub mod Entries
pub mod Ranges
pub mod Cleaning
pub mod Sending
mod Tests
use reverse_traceroute_publi.Base.{
  ℕ, suc, ◌+◌, ◌-◌, ◌*◌, ◌^◌, Bool, true, false, ◌&&◌, Option, none, some, List, [], ◌∷◌, ◌++◌,
  if◌then◌else◌, ltb, ◌==◌,
}

pub data SpoofError : Type 0 where
  id_in_use spoof_not_found : SpoofError

pub record Spoof (S P : Type 0) : Type 0 where
  pub probe : Option P
  pub t : ℕ
  pub spoof : S

-- A Go map with numbers as keys.
module _ {V : Type 0} where
  unfoldable pub find : List (ℕ × V) → ℕ → Option V
  find [] k = none
  find ((j, v) ∷ m) k = if j == k then some v else find m k

  unfoldable pub put : List (ℕ × V) → ℕ → V → List (ℕ × V)
  put [] k v = (k, v) ∷ []
  put ((j, w) ∷ m) k v = if j == k then (k, v) ∷ m else (j, w) ∷ put m k v

  unfoldable pub remove : List (ℕ × V) → ℕ → List (ℕ × V)
  remove [] k = []
  remove ((j, w) ∷ m) k = if j == k then remove m k else (j, w) ∷ remove m k

abbrev pub minute : ℕ
minute = 60 * 10 ^ 9

-- time.Since(t) > time.Second*60.
unfoldable pub is_old : ℕ → ℕ → Bool
is_old now t = ltb minute (now - t)

module _ {S P : Type 0} (spoof_id : S → ℕ) where
  unfoldable pub register : ℕ → List (ℕ × Spoof S P) → S → List (ℕ × Spoof S P) × Option SpoofError
  register now spoofs sp =
      let added = put spoofs (spoof_id sp) (record { probe = none; t = now; spoof = sp }) in
      elim (find spoofs (spoof_id sp)) [
        | some spf ↦ if is_old now spf.t then (added, none) else (spoofs, some id_in_use)
        | none ↦ (added, none)
      ]

module _ {S P : Type 0} (probe_id : P → ℕ) where
  unfoldable pub receive : List (ℕ × Spoof S P) → P → List (ℕ × Spoof S P) × Option SpoofError
  receive spoofs p = elim (find spoofs (probe_id p)) [
    | some sp ↦ (put spoofs (probe_id p) (record sp { probe = some p }), none)
    | none ↦ (spoofs, some spoof_not_found)
  ]

module _ {P : Type 0} (sender_ip : P → ℕ) where
  -- The probes to send, under the address that each is sent to.
  unfoldable pub file_probe : List (ℕ × List P) → P → List (ℕ × List P)
  file_probe dests p = elim (find dests (sender_ip p)) [
    | some probes ↦ put dests (sender_ip p) (probes ++ p ∷ [])
    | none ↦ put dests (sender_ip p) (p ∷ [])
  ]

module _ {S P : Type 0} (sender_ip : P → ℕ) where
  -- The loop of sendSpoofs, over the entries of the map in the order of the range.
  unfoldable pub collect :
      List (ℕ × Spoof S P)
      → List (ℕ × Spoof S P)
      → List (ℕ × List P)
      → List (ℕ × Spoof S P) × List (ℕ × List P)
  collect [] spoofs dests = (spoofs, dests)
  collect ((id, sp) ∷ entries) spoofs dests = elim sp.probe [
    | some p ↦ collect entries (remove spoofs id) (file_probe sender_ip dests p)
    | none ↦ collect entries spoofs dests
  ]

  -- One tick: what is left, and what is sent. A probe whose sending fails is not kept.
  unfoldable pub send_round :
      (List (ℕ × Spoof S P) → List (ℕ × Spoof S P))
      → List (ℕ × Spoof S P)
      → List (ℕ × Spoof S P) × List (ℕ × List P)
  send_round order spoofs = collect (order spoofs) spoofs []

module _ {S P : Type 0} where
  -- The loop of cleanOld: `count` entries have been looked at, and it breaks off at 10000.
  unfoldable pub clean_loop :
      ℕ → ℕ → List (ℕ × Spoof S P) → List (ℕ × Spoof S P) → List (ℕ × Spoof S P)
  clean_loop now count [] spoofs = spoofs
  clean_loop now count ((id, sp) ∷ entries) spoofs =
      let left = if is_old now sp.t then remove spoofs id else spoofs in
      let rest = clean_loop now (suc count) entries left in
      if suc count == 10000 then left else rest

  unfoldable pub clean_round :
      (List (ℕ × Spoof S P) → List (ℕ × Spoof S P))
      → ℕ
      → List (ℕ × Spoof S P)
      → List (ℕ × Spoof S P)
  clean_round order now spoofs = clean_loop now 0 (order spoofs) spoofs
