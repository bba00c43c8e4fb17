-- ===== src/Store/Db.antt =====
-- The schema and the queries of internal/store/store.go and recovery.go. A row's JSON body is the
-- value that it encodes. A list keeps the order of the rows' insertion, which is that of `rowid`.
use mathlib.Core.List.{reverse}
use virmill.Prelude.{
  ℕ, String, Bool, true, false, ◌&&◌, Option, none, some, List, [], ◌∷◌, ltb, leb, take, keep,
  str_eq, if◌then◌else◌,
}
use virmill.Prelude.Table.{Table, lookup, insert}
use virmill.Domain.Error.{Result, ok, err, or_err, no_rows, constraint, fail, Code}
use virmill.Domain.Job.{Job, Event, State, succeeded, failed, partial, canceled}
use virmill.Domain.Plan.{Plan}
use virmill.Store.Locks.{Locks}

pub record PlanRow : Type 0 where
  pub digest : String
  pub body : Plan
  pub input : String

pub record DedupRow : Type 0 where
  pub request_digest : String
  pub job_id : String
  pub created_at : ℕ

pub record MetadataRecord : Type 0 where
  pub kind : String
  pub id : String
  pub body : String

pub record Db : Type 0 where
  pub plans : Table PlanRow
  pub jobs : Table Job
  pub dedup : Table DedupRow
  pub locks : Locks
  pub events : List Event
  pub metadata : List MetadataRecord

abbrev pub empty : Db
empty = record { plans = []; jobs = []; dedup = []; locks = []; events = []; metadata = [] }

-- `SavePlan`
unfoldable pub save_plan : Plan → String → Db → Result Db
save_plan p input db =
    elim (insert p.id (record { digest = p.digest; body = p; input = input }) db.plans) [
      | none ↦ err constraint
      | some plans ↦ ok (record db { plans = plans })
    ]

-- `Plan`
unfoldable pub plan : String → Db → Result (Plan × String)
plan id db = elim (lookup id db.plans) [ none ↦ err no_rows | some row ↦ ok (row.body, row.input) ]

-- `Job`
unfoldable pub job : String → Db → Result Job
job id db = or_err (lookup id db.jobs) no_rows

-- `Dedup`: `none` is a key that was never used.
unfoldable pub find_dedup : String → String → Db → Result (Option Job)
find_dedup key digest db = elim (lookup key db.dedup) [
  | none ↦ ok none
  | some row ↦
      if str_eq row.request_digest digest
      then elim (lookup row.job_id db.jobs) [ none ↦ err no_rows | some j ↦ ok (some j) ]
      else err (fail Code.idempotency_conflict)
]

unfoldable pub values : Table Job → List Job
values [] = []
values ((_, j) ∷ t) = j ∷ values t

-- `Jobs`: the newest first, a thousand at most.
unfoldable pub recent_jobs : Db → List Job
unfolding values
recent_jobs db = take 1000 (reverse (values db.jobs))

-- `WHERE state NOT IN (…)` of `jobsForRecovery`
unfoldable pub unresolved : Bool → State → Bool
unresolved include_partial succeeded = false
unresolved include_partial failed = false
unresolved include_partial canceled = false
unresolved include_partial partial = include_partial
unresolved include_partial _ = true

unfoldable pub jobs_for_recovery : Bool → Db → List Job
unfolding values unresolved
jobs_for_recovery include_partial db =
    keep (λ j. unresolved include_partial j.state) (values db.jobs)

-- `PendingJobs` and `StorageReferenceJobs`
unfoldable pub pending_jobs : Db → List Job
unfolding jobs_for_recovery
pending_jobs db = jobs_for_recovery false db

unfoldable pub storage_reference_jobs : Db → List Job
unfolding jobs_for_recovery
storage_reference_jobs db = jobs_for_recovery true db

-- `ResourceJobs`: the primary key leaves one row at most.
unfoldable pub resource_jobs : String → Db → List String
resource_jobs r db = elim (lookup r db.locks) [ none ↦ [] | some o ↦ o ∷ [] ]

-- `MAX(seq)` with one more row, if that is of the job
unfoldable pub or_later : String → Event → ℕ → ℕ
or_later id e n = if str_eq e.operation_id id then (if ltb n e.seq then e.seq else n) else n

-- `COALESCE(MAX(seq),0)` over the events of a job
unfoldable pub last_seq : String → List Event → ℕ
last_seq id [] = 0
last_seq id (e ∷ es) = or_later id e (last_seq id es)

-- `ORDER BY seq`
unfoldable pub place : Event → List Event → List Event
place e [] = e ∷ []
place e (f ∷ fs) = let rest = place e fs in if leb e.seq f.seq then e ∷ f ∷ fs else f ∷ rest

unfoldable pub order_by_seq : List Event → List Event
order_by_seq [] = []
order_by_seq (e ∷ es) = place e (order_by_seq es)

unfoldable pub events_of : String → List Event → List Event
events_of id = keep (λ e. str_eq e.operation_id id)

-- `Events`, at a cursor that is not negative: what follows the cursor, a thousand at most.
unfoldable pub events_after : String → ℕ → Db → List Event
unfolding place order_by_seq
events_after id after db =
    take 1000 (order_by_seq (keep (λ e. str_eq e.operation_id id && ltb after e.seq) db.events))
