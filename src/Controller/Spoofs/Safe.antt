-- ===== src/Controller/Spoofs/Safe.antt =====
-- Notify in a state that can be reached.
use reverse_traceroute_publi.Base.{
  ℕ, suc, ◌+◌, ◌≤◌, ◌≡◌, ◌≢◌, refl, sym, inl, inr, Bool, true, false, ◌&&◌, none, some, List,
  length, set, get_elem?, if◌then◌else◌, ◌==◌, arith, Bool-cases, Option-cases, ok, panic,
}
use reverse_traceroute_publi.SpoofMap.{find, remove}
use reverse_traceroute_publi.Controller.Spoofs.{
  Channel, Groups, Free, put_all, new_channel, add, counted, delivered, send, notify_channel,
  notify, Step, adding, notifying, killing, cleaning, Reach, start, later,
}
use reverse_traceroute_publi.Controller.Spoofs.Counts.{
  count, count-remove_le, count-remove_found, count-remove_all_le, count-put_all, get_elem?-set,
  get_elem?-set_none, get_elem?-append, get_elem?-append_none, get_elem?-length,
}

module _ {P : Type 0} where
  -- With `n` ids waiting: the sends to come fit the size, and a channel is closed at the last one.
  pub record Fits (n : ℕ) (ch : Channel P) : Type 0 where
    pub room : n + ch.sends ≤ ch.size
    pub last : ch.closed ≡ true → ch.sends ≡ ch.size

  pub record AllFit (g : Groups P) : Type 0 where
    pub fits : (c : ℕ) (ch : Channel P) → get_elem? g.channels c ≡ some ch → Fits (count g.sm c) ch
    pub known : (c : ℕ) → get_elem? g.channels c ≡ none → count g.sm c ≡ 0

  Fits-le : (m n : ℕ) (ch : Channel P) → m ≤ n → Fits n ch → Fits m ch
  Fits-le m n ch h fit = record { room = omega (arith, fit.room); last = fit.last }

  -- What a send does to a channel with an id that waits.
  send-Fits :
      (n : ℕ) (ch : Channel P) (p : P) (quits : Bool)
      → Fits (suc n) ch
      → (ch' : Channel P) × (send ch p quits ≡ ok ch') × Fits n ch'
  unfolding send
  send-Fits n ch p quits fit =
      let open_yet : ch.closed ≡ false = elim (Bool-cases ch.closed) [
        | inl closed ↦ absurd (omega (arith, fit.room, fit.last closed))
        | inr yet ↦ yet
      ] in
      elim (Bool-cases (ch.killed && quits)) [
        | inl out ↦ (
          counted ch,
          rw out refl,
          record { room = omega (arith, fit.room); last = λ e. absurd (grind arith) },
        )
        | inr sent ↦ (
          delivered ch p,
          rw (sent, open_yet) refl,
          record { room = omega (arith, fit.room); last = λ e. grind arith },
        )
      ]

  set-AllFit :
      (g : Groups P) (sm : List (ℕ × ℕ)) (c : ℕ) (ch : Channel P)
      → AllFit g
      → ((c' : ℕ) → count sm c' ≤ count g.sm c')
      → Fits (count sm c) ch
      → AllFit (record { sm = sm; channels = set g.channels c ch })
  set-AllFit g sm c ch all fewer fit = record {
    fits = λ c' ch' at. elim (get_elem?-set g.channels c c' ch ch' at) [
      | inl (same, is) ↦ rw (sym same, sym is) fit
      | inr (other, before) ↦ Fits-le _ _ ch' (fewer c') (all.fits c' ch' before)
    ];
    known =
        λ c' out. omega (arith, fewer c', all.known c' (get_elem?-set_none g.channels c c' ch out));
  }

  add-AllFit : (g : Groups P) (ids : List ℕ) → Free g.sm ids → AllFit g → AllFit (add g ids)
  unfolding add
  add-AllFit g ids free all = record {
    fits = λ c ch at. elim (get_elem?-append g.channels (new_channel ids) c ch at) [
      | inl (here, is) ↦ rw (sym is) (new_fits c here)
      | inr (other, before) ↦ Fits-le _ _ ch (same c other) (all.fits c ch before)
    ];
    known = λ c out.
        let (other, before) = get_elem?-append_none g.channels (new_channel ids) c out in
        omega (arith, same c other, all.known c before);
  }
    where
      counted_ids :
          (c : ℕ)
          → count (put_all g.sm ids (length g.channels)) c
            ≡ (if length g.channels == c then count g.sm c + length ids else count g.sm c)
      counted_ids c = count-put_all ids g.sm (length g.channels) c free

      same :
          (c : ℕ)
          → c ≢ length g.channels
          → count (put_all g.sm ids (length g.channels)) c ≤ count g.sm c
      same c other = ground (arith, counted_ids c)

      new_fits :
          (c : ℕ)
          → c ≡ length g.channels
          → Fits (count (put_all g.sm ids (length g.channels)) c) (new_channel ids)
      new_fits c here = record {
        room = ground (arith, counted_ids c, all.known c (rw here (get_elem?-length g.channels)));
        last = λ e. grind arith;
      }

module _ {P : Type 0} (probe_id : P → ℕ) where
  -- A notification of an id that waits.
  notify-found :
      (g : Groups P) (p : P) (quits : Bool) (c : ℕ)
      → AllFit g
      → find g.sm (probe_id p) ≡ some c
      → (g' : Groups P) × (notify probe_id g p quits ≡ ok g') × AllFit g'
  unfolding notify notify_channel
  notify-found g p quits c all waits =
      let fewer = count-remove_found g.sm (probe_id p) c waits in
      elim (Option-cases (get_elem? g.channels c)) [
        | inl out ↦ absurd (omega (arith, fewer, all.known c out))
        | inr (ch, at) ↦
            let (ch', sent, fit) =
              send-Fits (count (remove g.sm (probe_id p)) c) ch p quits
                (Fits-le _ _ ch fewer (all.fits c ch at)) in
            (
              record { sm = remove g.sm (probe_id p); channels = set g.channels c ch' },
              rw (notify, waits, notify_channel, at, sent) refl,
              set-AllFit g _ c ch' all (λ c'. count-remove_le g.sm (probe_id p) c') fit,
            )
      ]

  notify-returns :
      (g : Groups P) (p : P) (quits : Bool)
      → AllFit g
      → (g' : Groups P) × (notify probe_id g p quits ≡ ok g') × AllFit g'
  unfolding notify
  notify-returns g p quits all = elim (Option-cases (find g.sm (probe_id p))) [
    | inl free ↦ (g, rw (notify, free) refl, all)
    | inr (c, waits) ↦ notify-found g p quits c all waits
  ]

  Step-AllFit : {g g' : Groups P} → Step probe_id g g' → AllFit g → AllFit g'
  Step-AllFit (adding ids _ free) all = add-AllFit _ ids free all
  Step-AllFit {g} (notifying p quits g' returned) all =
      let (g2, now, fit) = notify-returns g p quits all in
      let same : g2 ≡ g' = cc in rw (sym same) fit
  Step-AllFit {g} (killing c ch at) all =
      let fit = all.fits c ch at in
      set-AllFit g g.sm c _ all (λ c'. omega arith) (record { room = fit.room; last = fit.last })
  Step-AllFit {g} (cleaning c ch at killed) all = record {
    fits = λ c' ch' there.
        Fits-le _ _ ch' (count-remove_all_le ch.ids g.sm c') (all.fits c' ch' there);
    known = λ c' out. omega (arith, count-remove_all_le ch.ids g.sm c', all.known c' out);
  }

  Reach-AllFit : {g : Groups P} → Reach probe_id g → AllFit g
  unfolding count
  Reach-AllFit start = record { fits = λ c ch at. grind arith; known = λ c out. refl }
  Reach-AllFit (later r st) = Step-AllFit st (Reach-AllFit r)

  -- In every state that Add, Notify, the kill of a group and its goroutine can reach, where the
  -- ids of a new group are not in use and differ, Notify does not panic: it finds its channel,
  -- and sends on none that is closed.
  pub notify-Reach :
      (g : Groups P) (p : P) (quits : Bool) → Reach probe_id g → notify probe_id g p quits ≢ panic
  notify-Reach g p quits r =
      let (g', returned, all) = notify-returns g p quits (Reach-AllFit r) in λ e. cc
