-- ===== src/Store/Exclusion.antt =====
-- What callers of internal/store rely on: exclusive locks, idempotency keys, and updates that lose
-- no request to cancel.
use virmill.Prelude.{
  ℕ, String, ◌≡◌, ◌≢◌, true, none, some, arith, str_eq, eq_iff, if◌then◌else◌, contains,
  Option-cases, inl, inr,
}
use virmill.Prelude.Table.{lookup, insert, lookup-insert, insert-fresh}
use virmill.Domain.Error.{ok, err, fail, Code}
use virmill.Domain.Job.{Job}
use virmill.Domain.Plan.{Plan}
use virmill.Store.Locks.{acquire, released, lookup-release}
use virmill.Store.Locks.Laws.{lookup-acquire, acquire-free}
use virmill.Store.Db.{Db, find_dedup, DedupRow}
use virmill.Store.Write.{accept, insert_job, insert_locks, insert_dedup, update_job, gives_up_locks}
use virmill.Store.Write.Effects.{accept-Accepted, Updated, update_job-Updated, merged}
use virmill.Store.Invariant.{IsSound, updated_jobs}

module _ (p : Plan) (key digest id : String) (now : ℕ) (db : Db) where
  -- An accepted plan had each of its resources free and now holds it; other locks are unchanged.
  pub accept-exclusive :
      (j : Job) (db' : Db) (r : String)
      → accept p key digest id now db ≡ ok (j, db')
      → ((if contains p.resource_ids r then lookup r db.locks else none) ≡ none)
        × (lookup r db'.locks ≡ (if contains p.resource_ids r then some id else lookup r db.locks))
  accept-exclusive j db' r h =
      let a = accept-Accepted p key digest id now db h in
      ground (
        arith,
        lookup-acquire id r p.resource_ids db.locks db'.locks a.locks,
        acquire-free id r p.resource_ids db.locks db'.locks a.locks,
      )

  acquire-busy :
      (r o : String)
      → contains p.resource_ids r ≡ true
      → lookup r db.locks ≡ some o
      → acquire id p.resource_ids db.locks ≡ none
  acquire-busy r o c l = elim (Option-cases (acquire id p.resource_ids db.locks)) [
    | inl e ↦ e
    | inr (t, e) ↦ ground (arith, acquire-free id r p.resource_ids db.locks t e c)
  ]

  -- A plan that is stored, of which a resource is locked, is refused as busy under a fresh
  -- identifier, whoever holds the lock.
  pub accept-busy :
      (r o : String)
      → lookup p.id db.plans ≢ none
      → lookup id db.jobs ≡ none
      → contains p.resource_ids r ≡ true
      → lookup r db.locks ≡ some o
      → accept p key digest id now db ≡ err (fail Code.resource_busy)
  unfolding accept insert_job insert_locks insert_dedup insert
  accept-busy r o known fresh c l = ground (arith, acquire-busy r o c l)

  -- After a plan is accepted, the same request with its key finds the job, and any other request
  -- with that key is a conflict.
  pub find_dedup-accept :
      (j : Job) (db' : Db) (request : String)
      → accept p key digest id now db ≡ ok (j, db')
      → find_dedup key request db'
        ≡ (if str_eq digest request then ok (some j) else err (fail Code.idempotency_conflict))
  unfolding find_dedup
  find_dedup-accept j db' request h =
      let a = accept-Accepted p key digest id now db h in
      ground (
        arith,
        a.job,
        lookup-insert key key _ db.dedup db'.dedup a.dedup,
        eq_iff key key,
        lookup-insert id id _ db.jobs db'.jobs a.jobs,
        eq_iff id id,
      )

  -- A key is accepted once.
  pub accept-key_once :
      (j : Job) (db' : Db) (row : DedupRow)
      → accept p key digest id now db ≡ ok (j, db')
      → lookup key db.dedup ≢ some row
  accept-key_once j db' row h e =
      let a = accept-Accepted p key digest id now db h in
      ground (arith, insert-fresh key _ db.dedup db'.dedup a.dedup)

module _ (j old : Job) (message : String) (now : ℕ) (db db' : Db)
    (row : lookup j.id db.jobs ≡ some old) (h : update_job j message now db ≡ ok db') where
  updated : Updated j message now db old db'
  updated = rw row at (update_job-Updated j message now db db' h)

  -- In a sound journal an `Update` of a job, under the plan that it has, writes the job with the
  -- cancellation flag of either, and no other job.
  pub update_job-jobs :
      (s : IsSound db)
      → j.plan_id ≡ old.plan_id
      → (k : String)
      → lookup k db'.jobs ≡ (if str_eq j.id k then some (merged j old) else lookup k db.jobs)
  update_job-jobs s same k = updated_jobs j message now db old db' updated s same k

  -- In a sound journal `Update` gives up the job's locks exactly in the states that end it with
  -- nothing to recover, and no other locks.
  pub update_job-locks :
      (s : IsSound db) (r : String)
      → lookup r db'.locks
        ≡ (if gives_up_locks j.state then released j.id (lookup r db.locks) else lookup r db.locks)
  update_job-locks s r = ground (arith, updated.locks, lookup-release r j.id db.locks s.lock_keys)
