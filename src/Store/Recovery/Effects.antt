-- ===== src/Store/Recovery/Effects.antt =====
-- What a successful `AcceptRecovery` has checked, and does to each table.
use virmill.Prelude.{
  ℕ, String, ◌≡◌, ◌≢◌, true, Option, none, some, [], ◌∷◌, ◌++◌, arith, contains, every,
}
use virmill.Prelude.Table.{insert, lookup, update}
use virmill.Domain.Error.{ok}
use virmill.Domain.Job.{Job, partial, warning}
use virmill.Domain.Plan.{Plan}
use virmill.Store.Locks.{held}
use virmill.Store.Db.{Db, PlanRow}
use virmill.Store.Write.{new_job, insert_job, insert_dedup, append_event}
use virmill.Store.Recovery.{
  accept_recovery, may_recover, check_prior, check_held, transfer, distinct, retire_parent,
  handed_over,
}

abbrev pub retired : Job → String → Job
retired parent child = record parent { state = partial; recovery_operation_id = child }

pub record Recovered (p : Plan) (key digest parent_id id : String) (now : ℕ) (db : Db)
    (parent : Job) (prior : PlanRow) (child : Job) (db' : Db) : Type 0 where
  pub born : child ≡ new_job id p.id now parent_id
  pub parent_row : lookup parent_id db.jobs ≡ some parent
  pub prior_row : lookup parent.plan_id db.plans ≡ some prior
  pub allowed : may_recover parent prior.body p ≡ true
  pub prior_held : check_prior parent_id p.resource_ids prior.body.resource_ids db.locks ≡ ok tt
  pub all_kept : every (contains p.resource_ids) (held parent_id db.locks) ≡ true
  pub planned : lookup p.id db.plans ≢ none
  pub fresh : lookup id db.jobs ≡ none
  pub jobs :
      db'.jobs
      ≡ update parent.id (retired parent id) (db.jobs ++ (id, new_job id p.id now parent_id) ∷ [])
  pub locks :
      transfer id parent_id (held parent_id db.locks) (distinct p.resource_ids) db.locks
      ≡ some db'.locks
  pub dedup :
      insert key (record { request_digest = digest; job_id = id; created_at = now }) db.dedup
      ≡ some db'.dedup
  pub events :
      db'.events ≡ (append_event (retired parent id) warning (handed_over id) now db).events
  pub plans : db'.plans ≡ db.plans
  pub metadata : db'.metadata ≡ db.metadata

abbrev pub found_job : Option Job → Job → Job
found_job none d = d
found_job (some j) d = j

abbrev pub found_plan : Option PlanRow → PlanRow → PlanRow
found_plan none d = d
found_plan (some r) d = r

abbrev pub blank : Plan → PlanRow
blank p = record { digest = ""; body = p; input = "" }

pub accept_recovery-Recovered :
    (p : Plan) (key digest parent_id id : String) (now : ℕ) (db : Db) {child : Job} {db' : Db}
    → accept_recovery p key digest parent_id id now db ≡ ok (child, db')
    → let parent = found_job (lookup parent_id db.jobs) child in
      let prior = found_plan (lookup parent.plan_id db.plans) (blank p) in
      Recovered p key digest parent_id id now db parent prior child db'
unfolding accept_recovery insert_job insert_dedup check_held retire_parent append_event insert
accept_recovery-Recovered p key digest parent_id id now db h = ground arith
