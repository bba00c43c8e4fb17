-- ===== src/Engine/Control/Restart.antt =====
-- What `Recover` guarantees after a restart of the coordinator.
use virmill.Prelude.{
  ℕ, String, true, false, some, List, [], ◌∷◌, ◌≡◌, ◌⊎◌, inl, inr, refl, arith, str_eq, eq_iff,
  contains, keep, if◌then◌else◌, Bool-cases, ◌∙◌,
}
use virmill.Prelude.Table.{Table, lookup}
use virmill.Domain.Error.{ok, fail, Code, ◌>>=◌, Result-cases}
use virmill.Domain.Job.{Job, State, terminal, recovery_required}
use virmill.Store.Db.{Db, pending_jobs, unresolved, values}
use virmill.Store.Write.{gives_up_locks}
use virmill.Store.Write.Effects.{update_job-Updated, update_job-rows}
use virmill.Store.Invariant.{IsSound}
use virmill.Engine.Run.{moved_to}
use virmill.Engine.Control.{transition, recover_jobs, recover, restarted}

-- The job as `Recover` leaves it
pending_state :
    (j : Job)
    → (moved_to j recovery_required (some (fail Code.recovery_required))).state ≡ recovery_required
unfolding moved_to
pending_state j = refl

pending_id :
    (j : Job) → (moved_to j recovery_required (some (fail Code.recovery_required))).id ≡ j.id
unfolding moved_to
pending_id j = refl

module _ (j : Job) (message : String) (now : ℕ) (db db' : Db)
    (h : transition j recovery_required (some (fail Code.recovery_required)) message now db
      ≡ ok db') where
  interrupted_locks : db'.locks ≡ db.locks
  unfolding transition gives_up_locks
  interrupted_locks =
      ground (arith, (update_job-Updated _ message now db db' h).locks, pending_state j)

  interrupted_rows :
      (k : String) (row : Job)
      → lookup k db'.jobs ≡ some row
      → (terminal row.state ≡ true) ⊎ ((lookup k db.jobs ≡ some row) × (str_eq j.id k ≡ false))
  unfolding transition terminal
  interrupted_rows k row l =
      let j' = moved_to j recovery_required (some (fail Code.recovery_required)) in
      ground (arith, update_job-rows j' message now db db' k h, pending_state j, pending_id j)

-- The identifiers of the jobs that are written
pending_ids : List Job → List String
pending_ids [] = []
pending_ids (j ∷ js) = if terminal j.state then pending_ids js else j.id ∷ pending_ids js

recover_jobs_skip :
    (j : Job) (js : List Job) (now : ℕ) (db : Db)
    → terminal j.state ≡ true
    → recover_jobs (j ∷ js) now db ≡ recover_jobs js now db
unfolding recover_jobs
recover_jobs_skip j js now db t = rw t

recover_jobs_write :
    (j : Job) (js : List Job) (now : ℕ) (db : Db)
    → terminal j.state ≡ false
    → recover_jobs (j ∷ js) now db ≡ (
        transition j recovery_required (some (fail Code.recovery_required)) restarted now db
        >>= recover_jobs js now)
unfolding recover_jobs
recover_jobs_write j js now db t = rw t

recover_jobs_locks :
    (js : List Job) (now : ℕ) (db db' : Db) → recover_jobs js now db ≡ ok db' → db'.locks ≡ db.locks
recover_jobs_locks [] now db db' h = unfold recover_jobs in ground arith
recover_jobs_locks (j ∷ js) now db db' h = elim (Bool-cases (terminal j.state)) [
  | inl t ↦ recover_jobs_locks js now db db' (rw (recover_jobs_skip j js now db t) at h)
  | inr t ↦
      elim (Result-cases
        (transition j recovery_required (some (fail Code.recovery_required)) restarted now db)) [
          | inl (db1, e) ↦
              recover_jobs_locks js now db1 db'
                (ground (arith, recover_jobs_write j js now db t, e))
              ∙ interrupted_locks j restarted now db db1 e
          | inr (x, e) ↦ ground (arith, recover_jobs_write j js now db t, e)
        ]
]

recover_jobs_rows :
    (js : List Job) (now : ℕ) (db db' : Db) (k : String) (row : Job)
    → recover_jobs js now db ≡ ok db'
    → lookup k db'.jobs ≡ some row
    → (terminal row.state ≡ true)
      ⊎ ((lookup k db.jobs ≡ some row) × (contains (pending_ids js) k ≡ false))
unfolding pending_ids
recover_jobs_rows [] now db db' k row h l = unfold recover_jobs in ground arith
recover_jobs_rows (j ∷ js) now db db' k row h l = elim (Bool-cases (terminal j.state)) [
  | inl t ↦
      rw t (recover_jobs_rows js now db db' k row (rw (recover_jobs_skip j js now db t) at h) l)
  | inr t ↦
      elim (Result-cases
        (transition j recovery_required (some (fail Code.recovery_required)) restarted now db)) [
          | inl (db1, e) ↦ ground (
            arith,
            t,
            recover_jobs_rows js now db1 db' k row
                (ground (arith, recover_jobs_write j js now db t, e)) l,
            interrupted_rows j restarted now db db1 e k row,
          )
          | inr (x, e) ↦ ground (arith, recover_jobs_write j js now db t, e)
        ]
]

unresolved_of_pending : (s : State) → terminal s ≡ false → unresolved false s ≡ true
unfolding unresolved terminal
unresolved_of_pending s t = ground arith

-- Each job that is not terminal is among those that are read.
pending_read :
    (k : String) (row : Job) (t : Table Job)
    → lookup k t ≡ some row
    → row.id ≡ k
    → terminal row.state ≡ false
    → contains (pending_ids (keep (λ j. unresolved false j.state) (values t))) k ≡ true
unfolding lookup values pending_ids
pending_read k row [] l same nt = cc
pending_read k row ((i, j) ∷ t) l same nt =
    ground
      (arith, pending_read k row t, eq_iff i k, eq_iff j.id k, unresolved_of_pending row.state nt)

module _ (now : ℕ) (db db' : Db) (h : recover now db ≡ ok db') where
  -- A `Recover` that succeeds gives up no lock and takes none.
  pub locks-recover : db'.locks ≡ db.locks
  unfolding recover
  locks-recover = recover_jobs_locks (pending_jobs db) now db db' h

  -- After a `Recover` that succeeds in a sound journal every job is in a terminal state: none is
  -- taken for running.
  pub recover-terminal :
      IsSound db
      → (k : String) (row : Job) → lookup k db'.jobs ≡ some row
      → terminal row.state ≡ true
  unfolding recover
  recover-terminal s k row l = elim (recover_jobs_rows (pending_jobs db) now db db' k row h l) [
    | inl t ↦ t
    | inr (same, missed) ↦ elim (Bool-cases (terminal row.state)) [
      | inl t ↦ t
      | inr t ↦
          unfold pending_jobs in
          ground (arith, pending_read k row db.jobs same (s.job_ids k row same) t)
    ]
  ]
