-- ===== src/Store/Write/Effects.antt =====
-- What each successful transaction of `Accept` and `Update` does to each table.
use virmill.Prelude.{
  ℕ, String, ◌≡◌, ◌≢◌, Option, none, some, arith, ◌||◌, if◌then◌else◌, str_eq, eq_iff,
}
use virmill.Prelude.Table.{insert, lookup, update, lookup-update}
use virmill.Domain.Error.{ok}
use virmill.Domain.Job.{Job}
use virmill.Domain.Plan.{Plan}
use virmill.Store.Locks.{acquire, release}
use virmill.Store.Db.{Db}
use virmill.Store.Write.{
  new_job, insert_job, insert_locks, insert_dedup, accept, update_job, gives_up_locks, severity_of,
  append_event,
}

pub record Accepted (p : Plan) (key digest id : String) (now : ℕ) (db : Db) (j : Job) (db' : Db)
    : Type 0 where
  pub job : j ≡ new_job id p.id now ""
  pub planned : lookup p.id db.plans ≢ none
  pub fresh_id : lookup id db.jobs ≡ none
  pub jobs : insert id (new_job id p.id now "") db.jobs ≡ some db'.jobs
  pub locks : acquire id p.resource_ids db.locks ≡ some db'.locks
  pub dedup :
      insert key (record { request_digest = digest; job_id = id; created_at = now }) db.dedup
      ≡ some db'.dedup
  pub plans : db'.plans ≡ db.plans
  pub events : db'.events ≡ db.events
  pub metadata : db'.metadata ≡ db.metadata

pub accept-Accepted :
    (p : Plan) (key digest id : String) (now : ℕ) (db : Db) {j : Job} {db' : Db}
    → accept p key digest id now db ≡ ok (j, db')
    → Accepted p key digest id now db j db'
unfolding accept insert_job insert_locks insert_dedup insert
accept-Accepted p key digest id now db h = ground arith

abbrev pub merged : Job → Job → Job
merged j old = record j { cancel_requested = j.cancel_requested || old.cancel_requested }

-- What `Update` leaves, given the job's old row.
pub record Updated (j : Job) (message : String) (now : ℕ) (db : Db) (old : Job) (db' : Db)
    : Type 0 where
  pub row : lookup j.id db.jobs ≡ some old
  pub jobs : db'.jobs ≡ update j.id (merged j old) db.jobs
  pub locks : db'.locks ≡ (if gives_up_locks j.state then release j.id db.locks else db.locks)
  pub events : db'.events ≡ (append_event j (severity_of j) message now db).events
  pub plans : db'.plans ≡ db.plans
  pub dedup : db'.dedup ≡ db.dedup
  pub metadata : db'.metadata ≡ db.metadata

abbrev pub found : Option Job → Job → Job
found none d = d
found (some j) d = j

pub update_job-Updated :
    (j : Job) (message : String) (now : ℕ) (db db' : Db)
    → update_job j message now db ≡ ok db'
    → Updated j message now db (found (lookup j.id db.jobs) j) db'
unfolding update_job append_event
update_job-Updated j message now db db' h = ground arith

-- The jobs after `Update`: the job's row is written, with the cancellation flag of either.
pub update_job-rows :
    (j : Job) (message : String) (now : ℕ) (db db' : Db) (k : String)
    → update_job j message now db ≡ ok db'
    → lookup k db'.jobs ≡ (
        if str_eq j.id k then some (merged j (found (lookup j.id db.jobs) j)) else lookup k db.jobs)
update_job-rows j message now db db' k h =
    let u = update_job-Updated j message now db db' h in
    ground (
      arith,
      u.jobs,
      u.row,
      lookup-update k j.id (merged j (found (lookup j.id db.jobs) j)) db.jobs,
      eq_iff j.id k,
    )
