-- ===== src/Server/Open.antt =====
-- The channels that are open in a state that can be reached.
use reverse_traceroute_publi.Base.{
  Run-cases, ok-eq, append-before, append-last, set-at, set-other, ℕ, ◌+◌, ◌%◌, ◌^◌, ◌≡◌, ◌≢◌, refl,
  sym, ap, ◌∙◌, ◌⊎◌, inl, inr, Bool, true, false, none, some, List, [], ◌∷◌, ◌++◌, length, set,
  get_elem?, ◌==◌, ok, panic, arith, Bool-cases, Option-cases,
}
use reverse_traceroute_publi.SpoofMap.{find, put, remove}
use reverse_traceroute_publi.SpoofMap.Entries.{find-put, find-remove}
use reverse_traceroute_publi.Revtr.{Revtr}
use reverse_traceroute_publi.Controller.Spoofs.Counts.{get_elem?-set, get_elem?-append}
use reverse_traceroute_publi.Server.{failed, given, id_error}
use reverse_traceroute_publi.Server.Verified.{given-eq}
use reverse_traceroute_publi.Server.Running.{
  Channel, RevtrOutput, Phase, asking, passed, looping, over, Job, State, file, start_revtr, go_on,
  close_channel, ask, launch, finish, Step, adding, starting, asking_next, launching, finishing,
  Reach, start, later,
}

-- A channel was made for the id.
abbrev MadeFor : List Channel → ℕ → ℕ → Bool → Type 0
MadeFor channels oc id closed = get_elem? channels oc ≡ some (record { id = id; closed = closed })

record AllOpen (s : State) : Type 0 where
  listed :
      (id : ℕ) (out : RevtrOutput)
      → find s.revtrs id ≡ some out
      → MadeFor s.channels out.oc id false
  started :
      (k : ℕ) (job : Job)
      → get_elem? s.jobs k ≡ some job
      → (closed : Bool) × MadeFor s.channels job.out.oc job.id closed

find-put-cases :
    {V : Type 0} (m : List (ℕ × V)) (k : ℕ) (v : V) (k' : ℕ) (u : V)
    → find (put m k v) k' ≡ some u
    → ((k ≡ k') × (v ≡ u)) ⊎ (find m k' ≡ some u)
find-put-cases m k v k' u e = ground (arith, find-put m k v k')

find-remove-cases :
    {V : Type 0} (m : List (ℕ × V)) (k k' : ℕ) (u : V)
    → find (remove m k) k' ≡ some u
    → (k ≢ k') × (find m k' ≡ some u)
find-remove-cases m k k' u e = ground (arith, find-remove m k k')

-- A job that goes on stays with its channel.
go_on-AllOpen :
    (s : State) (k : ℕ) (job : Job) (phase : Phase)
    → get_elem? s.jobs k ≡ some job
    → AllOpen s
    → AllOpen (go_on s k job phase)
go_on-AllOpen s k job phase at all = record {
  listed = all.listed;
  started = λ k' job' at'.
      elim (get_elem?-set s.jobs k k' (record job { phase = phase }) job' at') [
        | inl (same, is) ↦ rw (sym is) (all.started k job at)
        | inr (other, before) ↦ all.started k' job' before
      ];
}

start_revtr-AllOpen : (s : State) (id : ℕ) → AllOpen s → AllOpen (start_revtr s id).0
unfolding start_revtr
start_revtr-AllOpen s id all = elim (Option-cases (find s.revtrs id)) [
  | inl missing ↦
      let same : start_revtr s id ≡ (s, failed (id_error id)) = rw (start_revtr, missing) refl in
      rw same all
  | inr (out, filed) ↦
      let job : Job = record { id = id; out = out; phase = asking } in
      let same : start_revtr s id ≡ (record s { jobs = s.jobs ++ job ∷ [] }, given out.oc) =
        rw (start_revtr, filed) refl in
      rw same (record {
        listed = all.listed;
        started = λ k job' at. elim (get_elem?-append s.jobs job k job' at) [
          | inl (last, is) ↦ rw (sym is) (false, all.listed id out filed)
          | inr (other, before) ↦ all.started k job' before
        ];
      })
]

file-AllOpen : (s : State) (rt : Revtr) → AllOpen s → AllOpen (file s rt).0
unfolding file
file-AllOpen s rt all =
    let id = (s.next_id + 1) % 2 ^ 32 in
    let made : Channel = record { id = id; closed = false } in
    record {
      listed = λ id' out at.
          elim (find-put-cases s.revtrs id (record { rt = rt; oc = length s.channels }) id' out
            at) [
              | inl (same, is) ↦ rw (sym is, sym same) (append-last s.channels made)
              | inr before ↦ append-before s.channels made out.oc _ (all.listed id' out before)
            ];
      started = λ k job at.
          let (closed, was) = all.started k job at in
          (closed, append-before s.channels made job.out.oc _ was);
    }

Made-id :
    (channels : List Channel) (oc oc' id id' : ℕ) (b b' : Bool)
    → MadeFor channels oc id b
    → MadeFor channels oc' id' b'
    → oc ≡ oc'
    → id ≡ id'
Made-id channels oc oc' id id' b b' made made' same = cc

-- Closing a channel leaves every channel with its id.
set-Made :
    (channels : List Channel) (oc oc' id id' : ℕ) (b b' : Bool)
    → MadeFor channels oc id b
    → MadeFor channels oc' id' b'
    → (closed : Bool) × MadeFor (set channels oc (record { id = id; closed = true })) oc' id' closed
set-Made channels oc oc' id id' b b' made made' = elim (Bool-cases (oc == oc')) [
  | inl same ↦
      let eq : oc ≡ oc' = grind arith in
      let ids = Made-id channels oc oc' id id' b b' made made' eq in
      (true, rw (sym eq, sym ids) (set-at channels oc _ _ made))
  | inr other ↦ (
    b',
    rw (set-other channels oc oc' (record { id = id; closed = true }) (λ e. grind arith)) made',
  )
]

-- The close of a channel that was made for the id.
close_channel-made :
    (channels channels' : List Channel) (oc id : ℕ) (closed : Bool)
    → MadeFor channels oc id closed
    → close_channel channels oc ≡ ok channels'
    → channels' ≡ set channels oc (record { id = id; closed = true })
unfolding close_channel
close_channel-made channels channels' oc id true made e =
    let no : close_channel channels oc ≡ panic = rw (close_channel, made) refl in cc
close_channel-made channels channels' oc id false made e =
    let yes : close_channel channels oc ≡ ok (set channels oc (record { id = id; closed = true })) =
      rw (close_channel, made) refl in
    cc

-- Where the channel of a job is closed and its id deleted.
closed-AllOpen :
    (s : State) (k : ℕ) (job : Job) (closed : Bool) (channels : List Channel)
    → MadeFor s.channels job.out.oc job.id closed
    → channels ≡ set s.channels job.out.oc (record { id = job.id; closed = true })
    → AllOpen s
    → AllOpen (record s {
      revtrs = remove s.revtrs job.id;
      running = remove s.running job.id;
      channels = channels;
    })
closed-AllOpen s k job closed channels made is all =
    let shut : Channel = record { id = job.id; closed = true } in
    rw is (record {
      listed = λ id out at.
          let (other, before) = find-remove-cases s.revtrs job.id id out at in
          let was = all.listed id out before in
          rw
            (set-other s.channels job.out.oc out.oc shut (λ same.
              other (Made-id s.channels job.out.oc out.oc job.id id closed false made was same)))
            was;
      started = λ k' job' at.
          let (closed', was) = all.started k' job' at in
          set-Made s.channels job.out.oc job'.out.oc job.id job'.id closed closed' made was;
    })

finish-AllOpen :
    (s s' : State) (k : ℕ) (job : Job)
    → get_elem? s.jobs k ≡ some job
    → finish s k job ≡ ok s'
    → AllOpen s
    → AllOpen s'
unfolding finish
finish-AllOpen s s' k job at e all = elim (Run-cases (close_channel s.channels job.out.oc)) [
  | inl shut ↦ let no : finish s k job ≡ panic = rw (finish, shut) refl in cc
  | inr (channels, done) ↦
      let (closed, made) = all.started k job at in
      let left : State = record s {
        revtrs = remove s.revtrs job.id;
        running = remove s.running job.id;
        channels = channels;
      } in
      let yes : finish s k job ≡ ok (go_on left k job over) = rw (finish, done) refl in
      let same : go_on left k job over ≡ s' = ok-eq _ _ (sym yes ∙ e) in
      rw (sym same) (
        go_on-AllOpen left k job over at (
          closed-AllOpen s k job closed channels made
            (close_channel-made s.channels channels job.out.oc job.id closed made done) all))
]

ask-AllOpen :
    (s : State) (k : ℕ) (job : Job)
    → get_elem? s.jobs k ≡ some job
    → AllOpen s
    → AllOpen (ask s k job)
unfolding ask
ask-AllOpen s k job at all = elim (Option-cases (find s.running job.id)) [
  | inl missing ↦
      let same : ask s k job ≡ go_on s k job passed = rw (ask, missing) refl in
      rw same (go_on-AllOpen s k job passed at all)
  | inr (it, runs) ↦
      let same : ask s k job ≡ go_on s k job over = rw (ask, runs) refl in
      rw same (go_on-AllOpen s k job over at all)
]

launch-AllOpen :
    (s : State) (k : ℕ) (job : Job)
    → get_elem? s.jobs k ≡ some job
    → AllOpen s
    → AllOpen (launch s k job)
unfolding launch
launch-AllOpen s k job at all =
    go_on-AllOpen (record s { running = put s.running job.id k }) k job looping at
      (record { listed = all.listed; started = all.started })

Step-AllOpen : (s s' : State) → Step s s' → AllOpen s → AllOpen s'
Step-AllOpen s _ (adding rt) all = file-AllOpen s rt all
Step-AllOpen s _ (starting id) all = start_revtr-AllOpen s id all
Step-AllOpen s _ (asking_next k job at phase) all = ask-AllOpen s k job at all
Step-AllOpen s _ (launching k job at phase) all = launch-AllOpen s k job at all
Step-AllOpen s s' (finishing k job _ at phase e) all = finish-AllOpen s s' k job at e all

none_found : {A : Type 0} {a : A} → none ≡ some a → ⊥
unfolding find
none_found e = cc

Reach-AllOpen : (s : State) → Reach s → AllOpen s
unfolding find
Reach-AllOpen _ start = record {
  listed = λ id out at. absurd (none_found at);
  started = λ k job at. absurd (none_found at);
}
Reach-AllOpen s (later {s = before} h step) = Step-AllOpen before s step (Reach-AllOpen before h)

-- In every state that AddRevtr, StartRevtr and its goroutines can reach without a panic, the
-- channel that StartRevtr returns was made for that id and is not closed.
pub start_revtr-Reach :
    (s : State) (id oc : ℕ)
    → Reach s
    → (start_revtr s id).1 ≡ given oc
    → get_elem? (start_revtr s id).0.channels oc ≡ some (record { id = id; closed = false })
unfolding start_revtr
start_revtr-Reach s id oc h e = elim (Option-cases (find s.revtrs id)) [
  | inl missing ↦
      let no : start_revtr s id ≡ (s, failed (id_error id)) = rw (start_revtr, missing) refl in cc
  | inr (out, filed) ↦
      let same : start_revtr s id ≡ (
        record s { jobs = s.jobs ++ record { id = id; out = out; phase = asking } ∷ [] },
        given out.oc,
      ) =
        rw (start_revtr, filed) refl in
      let ocs : out.oc ≡ oc = given-eq _ _ (sym (ap (λ r. r.1) same) ∙ e) in
      rw (same, sym ocs) ((Reach-AllOpen s h).listed id out filed)
]
