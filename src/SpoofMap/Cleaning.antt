-- ===== src/SpoofMap/Cleaning.antt =====
-- A round of cleanOld.
use reverse_traceroute_publi.Base.{
  ℕ, suc, ◌≡◌, ◌⊎◌, inl, inr, refl, sym, ap, ◌∙◌, true, Option, none, some, List, [], ◌∷◌, arith,
  if◌then◌else◌, ◌==◌, Bool-cases,
}
use reverse_traceroute_publi.SpoofMap.{Spoof, find, remove, is_old, clean_loop, clean_round}
use reverse_traceroute_publi.SpoofMap.Entries.{find-remove}
use reverse_traceroute_publi.SpoofMap.Ranges.{HasUniqueKeys, RangesOnce, key}

module _ {S P : Type 0} where
  -- What the loop over `entries` may do to the entry of `k`: leave it, or remove it as old.
  abbrev Cleaned : ℕ → List (ℕ × Spoof S P) → Option (Spoof S P) → ℕ → Option (Spoof S P) → Type 0
  Cleaned now entries before k after =
      (after ≡ before)
      ⊎ ((after ≡ none) × (sp : Spoof S P) × (find entries k ≡ some sp) × (is_old now sp.t ≡ true))

  clean_step :
      (now id : ℕ) (sp : Spoof S P) (entries spoofs : List (ℕ × Spoof S P)) (k : ℕ)
      (after : Option (Spoof S P))
      → find entries id ≡ none
      → Cleaned now entries (find (if is_old now sp.t then remove spoofs id else spoofs) k) k after
      → Cleaned now ((id, sp) ∷ entries) (find spoofs k) k after
  unfolding find
  clean_step now id sp entries spoofs k after fresh c = elim (Bool-cases (id == k)) [
    | inl same ↦ elim (Bool-cases (is_old now sp.t)) [
      | inl old ↦ inr (
        elim c [
          | inl e ↦ e ∙ rw old (find-remove spoofs id k ∙ rw same refl)
          | inr (gone, sp', listed, _) ↦ gone
        ],
        sp,
        rw same refl,
        old,
      )
      | inr young ↦ elim c [
        | inl e ↦ inl (e ∙ rw young refl)
        | inr (gone, sp', listed, _) ↦ absurd (ground (arith, ap (find entries) (key id k same)))
      ]
    ]
    | inr other ↦ elim c [
      | inl e ↦ inl (
          e ∙ (elim (Bool-cases (is_old now sp.t)) [
            | inl old ↦ rw old (find-remove spoofs id k ∙ rw other refl)
            | inr young ↦ rw young refl
          ]))
      | inr (gone, sp', listed, old) ↦ inr (gone, sp', rw other listed, old)
    ]
  ]

  clean_loop-find :
      (now count : ℕ) (entries spoofs : List (ℕ × Spoof S P)) (k : ℕ)
      → HasUniqueKeys entries
      → Cleaned now entries (find spoofs k) k (find (clean_loop now count entries spoofs) k)
  unfolding clean_loop
  clean_loop-find now count [] spoofs k u = inl refl
  clean_loop-find now count ((id, sp) ∷ entries) spoofs k (fresh, u) =
      let left = if is_old now sp.t then remove spoofs id else spoofs in
      clean_step now id sp entries spoofs k _ fresh (elim (Bool-cases (suc count == 10000)) [
        | inl full ↦ rw full (inl refl)
        | inr going_on ↦ rw going_on (clean_loop-find now (suc count) entries left k u)
      ])

  -- Where the range visits each entry once, a round of cleanOld leaves an entry as it is, or
  -- removes it, and then it was older than a minute.
  pub clean_round-find :
      (order : List (ℕ × Spoof S P) → List (ℕ × Spoof S P)) (now : ℕ)
      (spoofs : List (ℕ × Spoof S P)) (k : ℕ)
      → RangesOnce order spoofs
      → (find (clean_round order now spoofs) k ≡ find spoofs k)
        ⊎ ((find (clean_round order now spoofs) k ≡ none)
            × (sp : Spoof S P) × (find spoofs k ≡ some sp)
            × (is_old now sp.t ≡ true))
  unfolding clean_round
  clean_round-find order now spoofs k (u, entries) =
      elim (clean_loop-find now 0 (order spoofs) spoofs k u) [
        | inl e ↦ inl e
        | inr (gone, sp, listed, old) ↦ inr (gone, sp, sym (entries k) ∙ listed, old)
      ]
