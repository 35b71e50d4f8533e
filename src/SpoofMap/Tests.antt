-- ===== src/SpoofMap/Tests.antt =====
-- One spoof, from its registration to the sending of its probe. A spoof is its id; a probe is its
-- id with the address of its sender.
use reverse_traceroute_publi.Base.{
  ℕ, ◌≡◌, ◌≢◌, ◌⊎◌, ◌*◌, refl, true, false, none, some, List, [], ◌∷◌,
}
use reverse_traceroute_publi.SpoofMap.{
  id_in_use, Spoof, find, is_old, minute, register, receive, send_round, clean_round,
}
use reverse_traceroute_publi.SpoofMap.Entries.{registered, receive-register, register-refused}
use reverse_traceroute_publi.SpoofMap.Ranges.{RangesOnce}
use reverse_traceroute_publi.SpoofMap.Cleaning.{clean_round-find}
use reverse_traceroute_publi.SpoofMap.Sending.{Filed, send_round-Filed}

abbrev own_id : ℕ → ℕ
own_id id = id

abbrev of_probe : ℕ × ℕ → ℕ
of_probe p = p.0

abbrev sender_of : ℕ × ℕ → ℕ
sender_of p = p.1

abbrev Spoofs : Type 0
Spoofs = List (ℕ × Spoof ℕ (ℕ × ℕ))

abbrev none_yet : Spoofs
none_yet = []

free : (register own_id 5 none_yet 7).1 ≡ none
unfolding register find
free = refl

receive-register_example :
    let spoofs' = (register own_id 5 none_yet 7).0 in
    ((receive of_probe spoofs' (7, 99)).1 ≡ none)
    × (find (receive of_probe spoofs' (7, 99)).0 7
        ≡ some (record (registered own_id of_probe 5 7) { probe = some (7, 99) }))
    × ((other : ℕ)
        → other ≢ 7
        → find (receive of_probe spoofs' (7, 99)).0 other ≡ find none_yet other)
receive-register_example = receive-register own_id of_probe 5 none_yet 7 (7, 99) refl free

young : is_old 100 5 ≡ false
unfolding is_old
young = refl

register-refused_example :
    register own_id 100 (register own_id 5 none_yet 7).0 7
    ≡ ((register own_id 5 none_yet 7).0, some id_in_use)
register-refused_example = register-refused own_id of_probe 5 100 none_yet 7 7 refl free young

abbrev answered : Spoof ℕ (ℕ × ℕ)
answered = record { probe = some (7, 99); t = 5; spoof = 7 }

abbrev waiting : Spoofs
waiting = (7, answered) ∷ (8, record { probe = none; t = 6; spoof = 8 }) ∷ []

abbrev in_order : Spoofs → Spoofs
in_order m = m

waiting-RangesOnce : RangesOnce in_order waiting
unfolding find
waiting-RangesOnce = ((refl, (refl, tt)), λ k. refl)

found_7 : find waiting 7 ≡ some answered
unfolding find
found_7 = refl

send_round-Filed_example :
    (find (send_round sender_of in_order waiting).0 7 ≡ none)
    × Filed (send_round sender_of in_order waiting).1 99 (7, 99)
send_round-Filed_example =
    send_round-Filed sender_of in_order waiting 7 answered (7, 99) waiting-RangesOnce found_7 refl

clean_round-find_example :
    (find (clean_round in_order (100 * minute) waiting) 7 ≡ find waiting 7)
    ⊎ ((find (clean_round in_order (100 * minute) waiting) 7 ≡ none)
        × (sp : Spoof ℕ (ℕ × ℕ)) × (find waiting 7 ≡ some sp)
        × (is_old (100 * minute) sp.t ≡ true))
clean_round-find_example = clean_round-find in_order (100 * minute) waiting 7 waiting-RangesOnce
