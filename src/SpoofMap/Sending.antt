-- ===== src/SpoofMap/Sending.antt =====
-- A tick of sendSpoofs.
use mathlib.Core.Path.{subst}
use mathlib.Core.List.{Mem, mem-cons_self, mem-append_left, mem-append_right}
use reverse_traceroute_publi.Base.{
  ℕ, ◌≡◌, ◌≢◌, inl, inr, refl, sym, ap, ◌∙◌, Bool, true, false, Option, none, some, List, [], ◌∷◌,
  ◌++◌, arith, if◌then◌else◌, ◌==◌, Option-cases, Bool-cases,
}
use reverse_traceroute_publi.SpoofMap.{Spoof, find, remove, file_probe, collect, send_round}
use reverse_traceroute_publi.SpoofMap.Entries.{find-put_same, find-put_other, find-remove}
use reverse_traceroute_publi.SpoofMap.Ranges.{HasUniqueKeys, RangesOnce, some_inj, nowhere, key}

module _ {S P : Type 0} where
  -- Whether an entry holds a probe to send.
  abbrev pub waits : Option (Spoof S P) → Bool
  waits none = false
  waits (some sp) = elim sp.probe [ some p ↦ true | none ↦ false ]

  collect-find :
      (sender_ip : P → ℕ) (entries spoofs : List (ℕ × Spoof S P)) (dests : List (ℕ × List P))
      (k : ℕ)
      → HasUniqueKeys entries
      → find (collect sender_ip entries spoofs dests).0 k
        ≡ (if waits (find entries k) then none else find spoofs k)
  unfolding collect find
  collect-find sender_ip [] spoofs dests k u = refl
  collect-find sender_ip ((id, sp) ∷ entries) spoofs dests k (fresh, u) =
      elim (Option-cases sp.probe) [
        | inl quiet ↦
            let rest = collect-find sender_ip entries spoofs dests k u in
            elim (Bool-cases (id == k)) [
              | inl same ↦
                  let gone = ap (find entries) (sym (key id k same)) ∙ fresh in
                  rw quiet (rest ∙ rw (gone, same) refl)
              | inr other ↦ rw quiet (rest ∙ rw other refl)
            ]
        | inr (p, answered) ↦
            let filed = file_probe sender_ip dests p in
            let rest = collect-find sender_ip entries (remove spoofs id) filed k u in
            let removed = find-remove spoofs id k in
            elim (Bool-cases (id == k)) [
              | inl same ↦
                  let gone = ap (find entries) (sym (key id k same)) ∙ fresh in
                  rw answered (rest ∙ rw (gone, same) (removed ∙ rw same refl))
              | inr other ↦
                  let left : find (remove spoofs id) k ≡ find spoofs k = removed ∙ rw other refl in
                  rw answered (rest ∙ rw (other, left) refl)
            ]
      ]

  -- Where the range visits each entry once, a tick of sendSpoofs removes the entries that hold a
  -- probe, and leaves every other entry as it is.
  send_round-find :
      (sender_ip : P → ℕ) (order : List (ℕ × Spoof S P) → List (ℕ × Spoof S P))
      (spoofs : List (ℕ × Spoof S P)) (k : ℕ)
      → RangesOnce order spoofs
      → find (send_round sender_ip order spoofs).0 k
        ≡ (if waits (find spoofs k) then none else find spoofs k)
  unfolding send_round
  send_round-find sender_ip order spoofs k (u, entries) =
      collect-find sender_ip (order spoofs) spoofs [] k u ∙ rw (entries k) refl

-- The probe is filed under the address.
abbrev pub Filed : {P : Type 0} → List (ℕ × List P) → ℕ → P → Type 0
Filed {P} dests ip p = (probes : List P) × (find dests ip ≡ some probes) × Mem p probes

module _ {P : Type 0} (sender_ip : P → ℕ) where
  file_probe-Filed :
      (dests : List (ℕ × List P)) (p : P) → Filed (file_probe sender_ip dests p) (sender_ip p) p
  unfolding file_probe
  file_probe-Filed dests p = elim (Option-cases (find dests (sender_ip p))) [
    | inl first ↦ (
      p ∷ [],
      rw (file_probe, first) (find-put_same dests (sender_ip p) (p ∷ []) (sender_ip p) refl),
      mem-cons_self,
    )
    | inr (probes, more) ↦ (
      probes ++ p ∷ [],
      rw (file_probe, more)
          (find-put_same dests (sender_ip p) (probes ++ p ∷ []) (sender_ip p) refl),
      mem-append_right probes mem-cons_self,
    )
  ]

  -- What is filed stays filed.
  file_probe-kept :
      (dests : List (ℕ × List P)) (p : P) (ip : ℕ) (q : P)
      → Filed dests ip q
      → Filed (file_probe sender_ip dests p) ip q
  unfolding file_probe
  file_probe-kept dests p ip q (filed, at, member) =
      elim (Option-cases (find dests (sender_ip p))) [
        | inl first ↦ (
          filed,
          rw (file_probe, first)
              (find-put_other dests (sender_ip p) (p ∷ []) ip
                  (λ e. nowhere filed (sym first ∙ (ap (find dests) e ∙ at)))
                ∙ at),
          member,
        )
        | inr (probes, more) ↦ elim (Bool-cases (sender_ip p == ip)) [
          | inl same ↦
              let e = key (sender_ip p) ip same in
              (
                probes ++ p ∷ [],
                rw (file_probe, more) (find-put_same dests (sender_ip p) (probes ++ p ∷ []) ip e),
                mem-append_left (p ∷ []) (
                    subst (Mem q)
                      (some_inj filed probes (sym at ∙ (sym (ap (find dests) e) ∙ more))) member),
              )
          | inr other ↦ (
            filed,
            rw (file_probe, more)
                (find-put_other dests (sender_ip p) (probes ++ p ∷ []) ip (apart_of other) ∙ at),
            member,
          )
        ]
      ]
    where
      apart_of : {a b : ℕ} → (a == b) ≡ false → a ≢ b
      apart_of h e = ground arith

  module _ {S : Type 0} where
    collect-kept :
        (entries spoofs : List (ℕ × Spoof S P)) (dests : List (ℕ × List P)) (ip : ℕ) (q : P)
        → Filed dests ip q
        → Filed (collect sender_ip entries spoofs dests).1 ip q
    unfolding collect
    collect-kept [] spoofs dests ip q h = h
    collect-kept ((id, sp) ∷ entries) spoofs dests ip q h = elim (Option-cases sp.probe) [
      | inl quiet ↦ rw quiet (collect-kept entries spoofs dests ip q h)
      | inr (p, answered) ↦ rw answered (
          collect-kept entries (remove spoofs id) (file_probe sender_ip dests p) ip q
            (file_probe-kept dests p ip q h))
    ]

    collect-Filed :
        (entries spoofs : List (ℕ × Spoof S P)) (dests : List (ℕ × List P)) (k : ℕ) (sp : Spoof S P)
        (p : P)
        → find entries k ≡ some sp
        → sp.probe ≡ some p
        → Filed (collect sender_ip entries spoofs dests).1 (sender_ip p) p
    unfolding collect find
    collect-Filed [] spoofs dests k sp p listed answered = absurd (nowhere sp listed)
    collect-Filed ((id, sp') ∷ entries) spoofs dests k sp p listed answered =
        elim (Bool-cases (id == k)) [
          | inl same ↦
              let e = some_inj sp' sp (rw same at listed) in
              let here : sp'.probe ≡ some p = ap (λ x. x.probe) e ∙ answered in
              rw here (
                collect-kept entries (remove spoofs id) (file_probe sender_ip dests p) (sender_ip p)
                  p (file_probe-Filed dests p))
          | inr other ↦
              let later = rw other at listed in
              elim (Option-cases sp'.probe) [
                | inl quiet ↦ rw quiet (collect-Filed entries spoofs dests k sp p later answered)
                | inr (p', has) ↦ rw has (
                    collect-Filed entries (remove spoofs id) (file_probe sender_ip dests p') k sp p
                      later answered)
              ]
        ]

    -- Where the range visits each entry once, a tick of sendSpoofs removes an entry that holds a
    -- probe, and the probe is among those sent to its sender's address.
    pub send_round-Filed :
        (order : List (ℕ × Spoof S P) → List (ℕ × Spoof S P)) (spoofs : List (ℕ × Spoof S P))
        (k : ℕ) (sp : Spoof S P) (p : P)
        → RangesOnce order spoofs
        → find spoofs k ≡ some sp
        → sp.probe ≡ some p
        → (find (send_round sender_ip order spoofs).0 k ≡ none)
          × Filed (send_round sender_ip order spoofs).1 (sender_ip p) p
    unfolding send_round
    send_round-Filed order spoofs k sp p (u, entries) listed answered = (
      send_round-find sender_ip order spoofs k (u, entries) ∙ rw (listed, waits, answered) refl,
      collect-Filed (order spoofs) spoofs [] k sp p (entries k ∙ listed) answered,
    )
