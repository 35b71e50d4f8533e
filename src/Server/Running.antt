-- ===== src/Server/Running.antt =====
-- revtr/server/server.go: AddRevtr and StartRevtr, and the maps and channels of a revtrServer. A channel is its
-- place in `channels`; what is sent on it is left out. The goroutine of a StartRevtr is a job.
use reverse_traceroute_publi.Base.{
  ℕ, ◌+◌, ◌%◌, ◌^◌, ◌≡◌, Bool, true, false, none, some, List, [], ◌∷◌, ◌++◌, length, set, get_elem?,
  if◌then◌else◌, Run, ok, panic,
}
use reverse_traceroute_publi.SpoofMap.{find, put, remove}
use reverse_traceroute_publi.Revtr.{Revtr, Callbacks, create_reverse_traceroute}
use reverse_traceroute_publi.Server.{
  Measurement, id_error, Answer, failed, given, Calls, verify_addrs,
}

-- A channel of statuses, with the id for which it was made.
pub record Channel : Type 0 where
  pub id : ℕ
  pub closed : Bool

-- revtrOutput.
pub record RevtrOutput : Type 0 where
  pub rt : Revtr
  pub oc : ℕ

-- Where a goroutine of StartRevtr is: before its test of `running`, between the test and the call of Run,
-- in the loop over what Run gives, or at its end.
pub data Phase : Type 0 where
  asking passed looping over : Phase

pub record Job : Type 0 where
  pub id : ℕ
  pub out : RevtrOutput
  pub phase : Phase

-- A run in `running` is known by its job.
pub record State : Type 0 where
  pub next_id : ℕ
  pub revtrs : List (ℕ × RevtrOutput)
  pub running : List (ℕ × ℕ)
  pub channels : List Channel
  pub jobs : List Job

abbrev pub initial : State
initial = record { next_id = 0; revtrs = []; running = []; channels = []; jobs = [] }

abbrev all_set : Callbacks
all_set = record { has_on_add = true; has_on_reach = true; has_on_fail = true }

-- What AddRevtr files under a new id.
unfoldable pub file : State → Revtr → State × ℕ
file s rt =
    let id = (s.next_id + 1) % 2 ^ 32 in
    (
      record s {
        next_id = id;
        revtrs = put s.revtrs id (record { rt = rt; oc = length s.channels });
        channels = s.channels ++ record { id = id; closed = false } ∷ [];
      },
      id,
    )

unfoldable pub add_revtr :
    {W V : Type 0} → Calls W V → Measurement → State → W → W × State × Answer ℕ
add_revtr calls rtm s w =
    let (w1, vps) = calls.get_vps w in
    elim vps [
      | failed f ↦ (w1, s, failed f)
      | given points ↦
          let (w2, addrs) = verify_addrs calls rtm.src rtm.dst points w1 in
          elim addrs [
            | failed f ↦ (w2, s, failed f)
            | given sd ↦
                let (s1, id) =
                  file s
                    (create_reverse_traceroute calls.env all_set rtm.backoff_endhost sd.0 sd.1) in
                (w2, s1, given id)
          ]
    ]

-- The channel of the revtr; its goroutine is started.
unfoldable pub start_revtr : State → ℕ → State × Answer ℕ
start_revtr s id = elim (find s.revtrs id) [
  | none ↦ (s, failed (id_error id))
  | some rt ↦
      (record s { jobs = s.jobs ++ record { id = id; out = rt; phase = asking } ∷ [] }, given rt.oc)
]

-- The job `k` goes on.
abbrev pub go_on : State → ℕ → Job → Phase → State
go_on s k job phase = record s { jobs = set s.jobs k (record job { phase = phase }) }

-- close of a channel.
unfoldable pub close_channel : List Channel → ℕ → Run (List Channel)
close_channel channels oc = elim (get_elem? channels oc) [
  | none ↦ panic
  | some ch ↦ if ch.closed then panic else ok (set channels oc (record ch { closed = true }))
]

-- The test of `running`, which is not under the lock.
unfoldable pub ask : State → ℕ → Job → State
ask s k job = elim (find s.running job.id) [
  | some it ↦ go_on s k job over
  | none ↦ go_on s k job passed
]

-- The call of Run, which starts the reverse traceroute.
unfoldable pub launch : State → ℕ → Job → State
launch s k job = go_on (record s { running = put s.running job.id k }) k job looping

-- The round of the loop for the one reverse traceroute that Run was given.
unfoldable pub finish : State → ℕ → Job → Run State
finish s k job = elim (close_channel s.channels job.out.oc) [
  | panic ↦ panic
  | ok channels ↦ ok (
      go_on
        (record s {
          revtrs = remove s.revtrs job.id;
          running = remove s.running job.id;
          channels = channels;
        })
        k job over)
]

pub data Step (s : State) : State → Type 0 where
  adding : (rt : Revtr) → Step s (file s rt).0
  starting : (id : ℕ) → Step s (start_revtr s id).0
  asking_next :
      (k : ℕ) (job : Job)
      → get_elem? s.jobs k ≡ some job
      → job.phase ≡ asking
      → Step s (ask s k job)
  launching :
      (k : ℕ) (job : Job)
      → get_elem? s.jobs k ≡ some job
      → job.phase ≡ passed
      → Step s (launch s k job)
  finishing :
      (k : ℕ) (job : Job) (s' : State)
      → get_elem? s.jobs k ≡ some job
      → job.phase ≡ looping
      → finish s k job ≡ ok s'
      → Step s s'

pub data Reach : State → Type 0 where
  start : Reach initial
  later : {s s' : State} → Reach s → Step s s' → Reach s'
