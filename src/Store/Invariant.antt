-- ===== src/Store/Invariant.antt =====
-- The invariant of the journal, kept by every transaction of internal/store.
use virmill.Prelude.{
  ℕ, String, ◌≡◌, ◌≢◌, Bool, true, false, Option, none, some, arith, str_eq, eq_iff, if◌then◌else◌,
  Bool-cases, inl, inr, ◌⊎◌,
}
use virmill.Prelude.Table.{
  IsTable, lookup, insert, lookup-insert, lookup-update, IsTable-insert, IsTable-update,
}
use virmill.Domain.Error.{ok}
use virmill.Domain.Job.{Job}
use virmill.Domain.Plan.{Plan}
use virmill.Store.Locks.{lookup-release}
use virmill.Store.Locks.Laws.{lookup-acquire, IsTable-acquire, IsTable-release}
use virmill.Store.Db.{Db, DedupRow, empty, save_plan}
use virmill.Store.Write.{gives_up_locks, new_job, accept, update_job}
use virmill.Store.Write.Effects.{Accepted, accept-Accepted, Updated, update_job-Updated, merged}

-- A job that may own a lock: it is there, and its state does not give locks up.
abbrev pub holds : Option Job → Bool
holds none = false
holds (some j) = if gives_up_locks j.state then false else true

pub record IsSound (db : Db) : Type 0 where
  pub plan_keys : IsTable db.plans
  pub job_keys : IsTable db.jobs
  pub dedup_keys : IsTable db.dedup
  pub lock_keys : IsTable db.locks
  pub job_ids : (k : String) (j : Job) → lookup k db.jobs ≡ some j → j.id ≡ k
  pub job_plans :
      (k : String) (j : Job) → lookup k db.jobs ≡ some j → lookup j.plan_id db.plans ≢ none
  pub dedup_jobs :
      (k : String) (r : DedupRow) → lookup k db.dedup ≡ some r → lookup r.job_id db.jobs ≢ none
  pub lock_holders : (r o : String) → lookup r db.locks ≡ some o → holds (lookup o db.jobs) ≡ true

pub empty-IsSound : IsSound empty
unfolding lookup
empty-IsSound = record {
  plan_keys = tt;
  job_keys = tt;
  dedup_keys = tt;
  lock_keys = tt;
  job_ids = λ k j h. cc;
  job_plans = λ k j h. cc;
  dedup_jobs = λ k r h. cc;
  lock_holders = λ r o h. cc;
}

module _ (p : Plan) (input : String) (db db' : Db) (saved : save_plan p input db ≡ ok db')
    (s : IsSound db) where
  saved_plans :
      insert p.id (record { digest = p.digest; body = p; input = input }) db.plans ≡ some db'.plans
  unfolding save_plan
  saved_plans = ground (arith, saved)

  saved_rest : (db'.jobs ≡ db.jobs) × (db'.dedup ≡ db.dedup) × (db'.locks ≡ db.locks)
  unfolding save_plan
  saved_rest = ground (arith, saved)

  pub save_plan-IsSound : IsSound db'
  save_plan-IsSound = record {
    plan_keys = IsTable-insert p.id _ db.plans db'.plans saved_plans s.plan_keys;
    job_keys = rw saved_rest.0 s.job_keys;
    dedup_keys = rw saved_rest.1 s.dedup_keys;
    lock_keys = rw saved_rest.2 s.lock_keys;
    job_ids = λ k j h. ground (arith, saved_rest, s.job_ids k j);
    job_plans = λ k j h. ground (
      arith,
      saved_rest,
      s.job_plans k j,
      lookup-insert j.plan_id p.id _ db.plans db'.plans saved_plans,
    );
    dedup_jobs = λ k r h. ground (arith, saved_rest, s.dedup_jobs k r);
    lock_holders = λ r o h. ground (arith, saved_rest, s.lock_holders r o);
  }

module _ (p : Plan) (key digest id : String) (now : ℕ) (db db' : Db) (j : Job)
    (a : Accepted p key digest id now db j db') (s : IsSound db) where
  accepted_jobs :
      (k : String)
      → lookup k db'.jobs
        ≡ (if str_eq id k then some (new_job id p.id now "") else lookup k db.jobs)
  accepted_jobs k = lookup-insert k id _ db.jobs db'.jobs a.jobs

  Accepted-IsSound : IsSound db'
  unfolding gives_up_locks
  Accepted-IsSound = record {
    plan_keys = rw a.plans s.plan_keys;
    job_keys = IsTable-insert id _ db.jobs db'.jobs a.jobs s.job_keys;
    dedup_keys = IsTable-insert key _ db.dedup db'.dedup a.dedup s.dedup_keys;
    lock_keys = IsTable-acquire id p.resource_ids db.locks db'.locks a.locks s.lock_keys;
    job_ids = λ k k_job h. ground (arith, accepted_jobs k, eq_iff id k, s.job_ids k k_job);
    job_plans = λ k k_job h. ground (arith, accepted_jobs k, eq_iff id k, s.job_plans k k_job);
    dedup_jobs = λ k r h. ground (
      arith,
      lookup-insert k key _ db.dedup db'.dedup a.dedup,
      s.dedup_jobs k r,
      accepted_jobs r.job_id,
      eq_iff id r.job_id,
      eq_iff id id,
    );
    lock_holders = λ r o h. ground (
      arith,
      lookup-acquire id r p.resource_ids db.locks db'.locks a.locks,
      accepted_jobs o,
      eq_iff id o,
      eq_iff id id,
      s.lock_holders r o,
    );
  }

pub accept-IsSound :
    (p : Plan) (key digest id : String) (now : ℕ) (db db' : Db) (j : Job)
    → accept p key digest id now db ≡ ok (j, db')
    → IsSound db
    → IsSound db'
accept-IsSound p key digest id now db db' j h s =
    Accepted-IsSound p key digest id now db db' j (accept-Accepted p key digest id now db h) s

module _ (j : Job) (message : String) (now : ℕ) (db : Db) (old : Job) (db' : Db)
    (u : Updated j message now db old db') (s : IsSound db)
    (same_plan : j.plan_id ≡ old.plan_id) where
  pub updated_jobs :
      (k : String)
      → lookup k db'.jobs ≡ (if str_eq j.id k then some (merged j old) else lookup k db.jobs)
  updated_jobs k =
      ground (arith, u.jobs, u.row, lookup-update k j.id (merged j old) db.jobs, eq_iff j.id k)

  updated_locks :
      (r o : String)
      → lookup r db'.locks ≡ some o
      → (lookup r db.locks ≡ some o) × ((gives_up_locks j.state ≡ false) ⊎ (o ≢ j.id))
  updated_locks r o h =
      ground (arith, u.locks, lookup-release r j.id db.locks s.lock_keys, eq_iff o j.id)

  updated_lock_keys : IsTable db'.locks
  updated_lock_keys = elim (Bool-cases (gives_up_locks j.state)) [
    | inl e ↦ rw u.locks (rw e (IsTable-release j.id db.locks s.lock_keys))
    | inr e ↦ rw u.locks (rw e s.lock_keys)
  ]

  Updated-IsSound : IsSound db'
  Updated-IsSound = record {
    plan_keys = rw u.plans s.plan_keys;
    job_keys = rw u.jobs (IsTable-update j.id (merged j old) db.jobs s.job_keys);
    dedup_keys = rw u.dedup s.dedup_keys;
    lock_keys = updated_lock_keys;
    job_ids = λ k k_job h. ground (arith, updated_jobs k, eq_iff j.id k, s.job_ids k k_job);
    job_plans = λ k k_job h. ground (
      arith,
      u.plans,
      u.row,
      same_plan,
      updated_jobs k,
      eq_iff j.id k,
      s.job_plans k k_job,
      s.job_plans j.id old,
    );
    dedup_jobs = λ k r h. ground (arith, u.dedup, s.dedup_jobs k r, updated_jobs r.job_id);
    lock_holders = λ r o h.
        ground (arith, updated_locks r o h, updated_jobs o, s.lock_holders r o, eq_iff j.id o);
  }

pub update_job-IsSound :
    (j old : Job) (message : String) (now : ℕ) (db db' : Db)
    → lookup j.id db.jobs ≡ some old
    → j.plan_id ≡ old.plan_id
    → update_job j message now db ≡ ok db'
    → IsSound db
    → IsSound db'
update_job-IsSound j old message now db db' row same h s =
    let u : Updated j message now db old db' =
      rw row at (update_job-Updated j message now db db' h) in
    Updated-IsSound j message now db old db' u s same
