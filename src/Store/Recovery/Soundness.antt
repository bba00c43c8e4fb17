-- ===== src/Store/Recovery/Soundness.antt =====
-- An accepted recovery keeps the journal's invariant, and takes every lock of its parent.
use virmill.Prelude.{
  ℕ, String, ◌≡◌, ◌≢◌, true, none, some, List, [], ◌∷◌, ◌++◌, arith, str_eq, eq_iff, if◌then◌else◌,
  contains, every,
}
use virmill.Prelude.Table.{
  lookup, lookup-insert, lookup-update, lookup-append, IsTable-insert, IsTable-append,
  IsTable-update,
}
use virmill.Domain.Error.{ok}
use virmill.Domain.Job.{Job}
use virmill.Domain.Plan.{Plan}
use virmill.Store.Locks.{held}
use virmill.Store.Locks.Laws.{contains-held, taken}
use virmill.Store.Db.{Db, PlanRow, find_dedup}
use virmill.Store.Write.{gives_up_locks, new_job}
use virmill.Store.Invariant.{IsSound}
use virmill.Store.Recovery.{accept_recovery, distinct}
use virmill.Store.Recovery.Transfer.{
  Agrees, contains-distinct, distinct-IsDistinct, lookup-transfer, IsTable-transfer,
}
use virmill.Store.Recovery.Effects.{
  Recovered, retired, accept_recovery-Recovered, found_job, found_plan, blank,
}

contains_of_every :
    (q : String) (rs xs : List String)
    → every (contains rs) xs ≡ true
    → contains xs q ≡ true
    → contains rs q ≡ true
contains_of_every q rs [] e c = cc
contains_of_every q rs (x ∷ xs) e c = ground (arith, contains_of_every q rs xs, eq_iff x q)

module _ (p : Plan) (key digest parent_id id : String) (now : ℕ) (db : Db) (parent : Job)
    (prior : PlanRow) (child : Job) (db' : Db)
    (r : Recovered p key digest parent_id id now db parent prior child db') (s : IsSound db) where
  parent_ids : parent.id ≡ parent_id
  parent_ids = s.job_ids parent_id parent r.parent_row

  pub recovered_jobs :
      (k : String)
      → lookup k db'.jobs ≡ (
          if str_eq parent_id k
          then some (retired parent id)
          else if str_eq id k
          then some (new_job id p.id now parent_id)
          else lookup k db.jobs)
  recovered_jobs k = ground (
    arith,
    r.jobs,
    r.fresh,
    r.parent_row,
    parent_ids,
    eq_iff parent_id k,
    eq_iff parent.id k,
    eq_iff id k,
    lookup-append k id (new_job id p.id now parent_id) db.jobs,
    lookup-update k parent.id (retired parent id)
        (db.jobs ++ (id, new_job id p.id now parent_id) ∷ []),
  )

  owned-Agrees : Agrees parent_id (held parent_id db.locks) (distinct p.resource_ids) db.locks
  owned-Agrees q c = contains-held parent_id q db.locks s.lock_keys

  -- Every resource of the recovery belongs to the child, and no other lock changed.
  pub recovered_locks :
      (q : String) → lookup q db'.locks ≡ taken id p.resource_ids q (lookup q db.locks)
  recovered_locks q = rw (← contains-distinct q p.resource_ids) (
      lookup-transfer id parent_id (held parent_id db.locks) q (distinct p.resource_ids) db.locks
        db'.locks (distinct-IsDistinct p.resource_ids) owned-Agrees r.locks)

  -- The parent holds nothing any more.
  pub parent_holds_none : (q : String) → lookup q db'.locks ≢ some parent_id
  parent_holds_none q h = ground (
    arith,
    recovered_locks q,
    contains-held parent_id q db.locks s.lock_keys,
    r.all_kept,
    r.fresh,
    r.parent_row,
    contains_of_every q p.resource_ids (held parent_id db.locks),
    eq_iff parent_id parent_id,
    eq_iff id parent_id,
  )

  Recovered-IsSound : IsSound db'
  unfolding gives_up_locks
  Recovered-IsSound = record {
    plan_keys = rw r.plans s.plan_keys;
    job_keys =
        rw r.jobs (IsTable-update parent.id _ _ (IsTable-append id _ db.jobs r.fresh s.job_keys));
    dedup_keys = IsTable-insert key _ db.dedup db'.dedup r.dedup s.dedup_keys;
    lock_keys =
        IsTable-transfer id parent_id _ (distinct p.resource_ids) db.locks db'.locks r.locks
          s.lock_keys;
    job_ids = λ k j h.
        ground
          (arith, recovered_jobs k, parent_ids, eq_iff parent_id k, eq_iff id k, s.job_ids k j);
    job_plans = λ k j h. ground (
      arith,
      r.plans,
      r.planned,
      recovered_jobs k,
      eq_iff parent_id k,
      eq_iff id k,
      r.prior_row,
      s.job_plans k j,
    );
    dedup_jobs = λ k d h. ground (
      arith,
      lookup-insert k key _ db.dedup db'.dedup r.dedup,
      s.dedup_jobs k d,
      recovered_jobs d.job_id,
      eq_iff id d.job_id,
      eq_iff id id,
      recovered_jobs id,
    );
    lock_holders = λ q o h. ground (
      arith,
      recovered_locks q,
      parent_holds_none q,
      recovered_jobs o,
      eq_iff parent_id o,
      eq_iff id o,
      eq_iff id id,
      s.lock_holders q o,
    );
  }

module _ (p : Plan) (key digest parent_id id : String) (now : ℕ) (db db' : Db) (child : Job)
    (accepted : accept_recovery p key digest parent_id id now db ≡ ok (child, db'))
    (s : IsSound db) where
  effects :
      let parent = found_job (lookup parent_id db.jobs) child in
      Recovered p key digest parent_id id now db parent
        (found_plan (lookup parent.plan_id db.plans) (blank p))
        child
        db'
  effects = accept_recovery-Recovered p key digest parent_id id now db accepted

  -- An accepted recovery keeps the invariant of the journal.
  pub accept_recovery-IsSound : IsSound db'
  accept_recovery-IsSound =
      Recovered-IsSound p key digest parent_id id now db _ _ child db' effects s

  -- A recovery accepted in a sound journal moves the locks in one step: the child holds each resource of its plan, any
  -- other lock has the owner that it had, and the parent, which is there, holds none.
  pub accept_recovery-locks :
      (q : String)
      → (lookup q db'.locks ≡ taken id p.resource_ids q (lookup q db.locks))
        × (lookup q db'.locks ≢ some parent_id)
        × (lookup parent_id db.jobs ≢ none)
  accept_recovery-locks q = (
    recovered_locks p key digest parent_id id now db _ _ child db' effects s q,
    parent_holds_none p key digest parent_id id now db _ _ child db' effects s q,
    ground (arith, effects.parent_row),
  )

  -- After a recovery accepted in a sound journal the parent is partial and names its recovery; the
  -- child is queued and names its parent.
  pub accept_recovery-jobs :
      (parent : Job)
      → lookup parent_id db.jobs ≡ some parent
      → (lookup parent_id db'.jobs ≡ some (retired parent id))
        × (lookup id db'.jobs ≡ some (new_job id p.id now parent_id))
        × (child ≡ new_job id p.id now parent_id)
  accept_recovery-jobs parent row = (
    ground (
      arith,
      recovered_jobs p key digest parent_id id now db _ _ child db' effects s parent_id,
      eq_iff parent_id parent_id,
    ),
    ground (
      arith,
      recovered_jobs p key digest parent_id id now db _ _ child db' effects s id,
      eq_iff parent_id id,
      eq_iff id id,
      effects.fresh,
    ),
    effects.born,
  )

  -- The recovery's idempotency key finds the child.
  pub find_dedup-recovery : find_dedup key digest db' ≡ ok (some child)
  unfolding find_dedup
  find_dedup-recovery = ground (
    arith,
    effects.born,
    lookup-insert key key _ db.dedup db'.dedup effects.dedup,
    eq_iff key key,
    eq_iff digest digest,
    recovered_jobs p key digest parent_id id now db _ _ child db' effects s id,
    eq_iff parent_id id,
    eq_iff id id,
    effects.fresh,
    effects.parent_row,
  )
