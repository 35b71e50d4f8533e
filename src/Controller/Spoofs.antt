-- ===== src/Controller/Spoofs.antt =====
-- controller/spoofmap.go: the groups of spoofed probes that wait for an answer. A group has a
-- channel; its number is its place in `channels`. `P` is dm.Probe. The goroutine that waits for
-- the kill of a group is the step `clean`.
pub mod Counts
pub mod Safe
use reverse_traceroute_publi.Base.{
  ℕ, suc, ◌+◌, ◌≡◌, ◌≢◌, Bool, true, false, ◌&&◌, Option, none, some, List, [], ◌∷◌, ◌++◌, length,
  set, get_elem?, if◌then◌else◌, ◌==◌, Run, ok, panic,
}
use reverse_traceroute_publi.SpoofMap.{find, put, remove}

-- The count of the code is `size` less `sends`. `received` is all that was ever sent on the
-- channel.
pub record Channel (P : Type 0) : Type 0 where
  pub ids : List ℕ
  pub size : ℕ
  pub sends : ℕ
  pub received : List P
  pub closed : Bool
  pub killed : Bool

pub record Groups (P : Type 0) : Type 0 where
  pub sm : List (ℕ × ℕ)
  pub channels : List (Channel P)

unfoldable pub put_all : List (ℕ × ℕ) → List ℕ → ℕ → List (ℕ × ℕ)
put_all sm [] c = sm
put_all sm (id ∷ ids) c = put_all (put sm id c) ids c

unfoldable pub remove_all : List (ℕ × ℕ) → List ℕ → List (ℕ × ℕ)
remove_all sm [] = sm
remove_all sm (id ∷ ids) = remove_all (remove sm id) ids

abbrev pub Absent : ℕ → List ℕ → Type 0
Absent id [] = Unit
Absent id (j ∷ ids) = (j ≢ id) × Absent id ids

-- None of the ids is in use or stands twice.
abbrev pub Free : List (ℕ × ℕ) → List ℕ → Type 0
Free sm [] = Unit
Free sm (id ∷ ids) = (find sm id ≡ none) × Absent id ids × Free sm ids

module _ {P : Type 0} where
  abbrev pub new_channel : List ℕ → Channel P
  new_channel ids = record {
    ids = ids;
    size = length ids;
    sends = 0;
    received = [];
    closed = false;
    killed = false;
  }

  unfoldable pub add : Groups P → List ℕ → Groups P
  add g ids = record {
    sm = put_all g.sm ids (length g.channels);
    channels = g.channels ++ new_channel ids ∷ [];
  }

  abbrev pub counted : Channel P → Channel P
  counted ch = record ch { sends = suc ch.sends }

  abbrev pub delivered : Channel P → P → Channel P
  delivered ch p = record (counted ch) {
    received = ch.received ++ p ∷ [];
    closed = suc ch.sends == ch.size;
  }

  -- `quits` is the choice of the select where the group is killed too.
  unfoldable pub send : Channel P → P → Bool → Run (Channel P)
  send ch p quits =
      if ch.killed && quits
      then ok (counted ch)
      else if ch.closed
      then panic
      else ok (delivered ch p)

  -- close(kill).
  abbrev pub kill : Groups P → ℕ → Channel P → Groups P
  kill g c ch = record g { channels = set g.channels c (record ch { killed = true }) }

  abbrev pub clean : Groups P → Channel P → Groups P
  clean g ch = record g { sm = remove_all g.sm ch.ids }

module _ {P : Type 0} (probe_id : P → ℕ) where
  -- What Notify does with the channel that it found.
  unfoldable pub notify_channel : Groups P → P → Bool → ℕ → Option (Channel P) → Run (Groups P)
  notify_channel g p quits c none = panic
  notify_channel g p quits c (some ch) = elim (send ch p quits) [
    | panic ↦ panic
    | ok ch' ↦ ok (record { sm = remove g.sm (probe_id p); channels = set g.channels c ch' })
  ]

  unfoldable pub notify : Groups P → P → Bool → Run (Groups P)
  notify g p quits = elim (find g.sm (probe_id p)) [
    | none ↦ ok g
    | some c ↦ notify_channel g p quits c (get_elem? g.channels c)
  ]

  -- What happens to the map: the ids of a new group are not in use.
  pub data Step (g : Groups P) : Groups P → Type 0 where
    adding : (ids : List ℕ) → ids ≢ [] → Free g.sm ids → Step g (add g ids)
    notifying : (p : P) (quits : Bool) (g' : Groups P) → notify g p quits ≡ ok g' → Step g g'
    killing : (c : ℕ) (ch : Channel P) → get_elem? g.channels c ≡ some ch → Step g (kill g c ch)
    cleaning :
        (c : ℕ) (ch : Channel P)
        → get_elem? g.channels c ≡ some ch
        → ch.killed ≡ true
        → Step g (clean g ch)

  pub data Reach : Groups P → Type 0 where
    start : Reach (record { sm = []; channels = [] })
    later : {g g' : Groups P} → Reach g → Step g g' → Reach g'
