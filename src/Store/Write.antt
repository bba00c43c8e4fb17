-- ===== src/Store/Write.antt =====
-- The transactions of internal/store: `Accept` and `Update` of store.go, `AcceptRecovery` of
-- recovery_accept.go. A transaction that fails is rolled back, so an error comes with no database.
pub mod Effects
use virmill.Prelude.{
  ℕ, zero, suc, ◌+◌, String, Bool, true, false, not, ◌&&◌, ◌||◌, Option, none, some, List, [], ◌∷◌,
  ◌++◌, ==_iff, contains, every, str_eq, ◌==◌, if◌then◌else◌,
}
use virmill.Prelude.Table.{Table, lookup, insert, update}
use virmill.Domain.Error.{
  Err, Result, ok, err, or_err, plain, no_rows, constraint, ◌>>=◌, ◌>>◌, fail, Code,
}
use virmill.Domain.Job.{
  Job, Event, State, Severity, info, warning, partial, queued, recovery_required, interrupted,
  terminal,
}
use virmill.Domain.Plan.{Plan}
use virmill.Store.Locks.{Locks, acquire, release, reassign, held}
use virmill.Store.Db.{Db, DedupRow, PlanRow, last_seq}

abbrev pub new_job : String → String → ℕ → String → Job
new_job id plan_id now recovery_of = record {
  id = id;
  plan_id = plan_id;
  state = queued;
  step = 0;
  created_at = now;
  error = none;
  cancel_requested = false;
  recovery_of = recovery_of;
  recovery_operation_id = "";
}

-- `INSERT INTO jobs`: the primary key, and the reference to a plan
unfoldable pub insert_job : Job → Db → Result Db
insert_job j db = elim (lookup j.plan_id db.plans) [
  | none ↦ err constraint
  | some _ ↦ elim (insert j.id j db.jobs) [
    | none ↦ err constraint
    | some jobs ↦ ok (record db { jobs = jobs })
  ]
]

-- `INSERT INTO locks` for each resource of a plan
unfoldable pub insert_locks : String → List String → Db → Result Db
insert_locks id resources db = elim (acquire id resources db.locks) [
  | none ↦ err (fail Code.resource_busy)
  | some locks ↦ ok (record db { locks = locks })
]

-- `INSERT INTO dedup`
unfoldable pub insert_dedup : String → String → Job → Db → Result Db
insert_dedup key digest j db =
    elim (insert key (record { request_digest = digest; job_id = j.id; created_at = j.created_at })
      db.dedup) [ none ↦ err constraint | some dedup ↦ ok (record db { dedup = dedup }) ]

-- `Accept`; `id` is the fresh identifier and `now` the time.
unfoldable pub accept : Plan → String → String → String → ℕ → Db → Result (Job × Db)
unfolding insert_job insert_locks insert_dedup
accept p key digest id now db =
    let j = new_job id p.id now "" in
    do
      with_job ← insert_job j db
      with_locks ← insert_locks j.id p.resource_ids with_job
      with_key ← insert_dedup key digest j with_locks
      ok (j, with_key)

-- The states in which a job's locks are given up
unfoldable pub gives_up_locks : State → Bool
unfolding terminal
gives_up_locks recovery_required = false
gives_up_locks s = terminal s

abbrev pub severity_of : Job → Severity
severity_of j = elim j.error [ none ↦ info | some _ ↦ Severity.error ]

-- `INSERT INTO events` with the next sequence number of the job
unfoldable pub append_event : Job → Severity → String → ℕ → Db → Db
append_event j severity message now db = record db {
  events =
      db.events
      ++ record {
        operation_id = j.id;
        seq = last_seq j.id db.events + 1;
        at = now;
        phase = j.state;
        severity = severity;
        message = message;
      }
        ∷ [];
}

-- `Update`: the cancellation flag of the row is kept, and the event is written with the job.
unfoldable pub update_job : Job → String → ℕ → Db → Result Db
unfolding gives_up_locks append_event
update_job j message now db = elim (lookup j.id db.jobs) [
  | none ↦ err no_rows
  | some old ↦
      let j' = record j { cancel_requested = j.cancel_requested || old.cancel_requested } in
      let db' =
        append_event j' (severity_of j') message now
          (record db { jobs = update j'.id j' db.jobs }) in
      ok (if gives_up_locks j'.state then record db' { locks = release j'.id db'.locks } else db')
]
