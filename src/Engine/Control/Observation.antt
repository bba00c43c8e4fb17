-- ===== src/Engine/Control/Observation.antt =====
-- What a reconciled job has proved.
use virmill.Prelude.{
  ℕ, ◌+◌, String, Bool, true, false, ◌||◌, refl, str_eq, if◌then◌else◌, none, some, ◌≡◌, ◌≢◌, inl,
  inr, arith, eq_iff, length, get_elem?, Option-cases, ap, ◌∙◌,
}
use virmill.Prelude.Table.{lookup}
use virmill.Domain.Error.{Result, ok, err}
use virmill.Domain.Job.{Job, succeeded}
use virmill.Domain.Plan.{Step}
use virmill.Store.Db.{Db, PlanRow}
use virmill.Store.Locks.{released}
use virmill.Store.Write.{update_job, gives_up_locks}
use virmill.Store.Write.Effects.{update_job-rows}
use virmill.Store.Invariant.{IsSound}
use virmill.Store.Recovery.{recoverable}
use virmill.Store.Exclusion.{update_job-locks}
use virmill.Engine.Run.{moved_to}
use virmill.Engine.Apply.{Services, Handler, plan_digest}
use virmill.Engine.Control.{reconcile_job}

abbrev pub completed : Job → Job
completed row = record row { error = none; state = succeeded }

-- The interrupted job `row` was observed complete by its own workflow, under its own plan.
pub record Observed (svc : Services) (row : Job) (p : PlanRow) (h : Handler) (step : Step) (db : Db)
    : Type 0 where
  pub uncertain : recoverable row.state ≡ true
  pub planned : lookup row.plan_id db.plans ≡ some p
  pub plan_unchanged : plan_digest svc p.body ≡ ok p.body.digest
  pub input_unchanged : svc.hash_input p.input ≡ ok p.body.input_digest
  pub known : svc.handlers p.body.operation ≡ some h
  pub at : get_elem? p.body.steps row.step ≡ some step
  pub last : row.step + 1 ≡ length p.body.steps
  pub complete : h.confirmation db p.body p.input step ≡ ok true

||_same : (b : Bool) → (b || b) ≡ b
||_same true = refl
||_same false = refl

abbrev value : Result String → String
value (ok x) = x
value (err e) = ""

module _ (svc : Services) (id : String) (now : ℕ) (db db' : Db) (done row : Job)
    (found : lookup id db.jobs ≡ some row) (h : reconcile_job svc id now db ≡ ok (done, db')) where
  reconcile_planned : lookup row.plan_id db.plans ≢ none
  unfolding reconcile_job
  reconcile_planned e = ground arith

  module _ (p : PlanRow) (planned : lookup row.plan_id db.plans ≡ some p) where
    reconcile_known : svc.handlers p.body.operation ≢ none
    unfolding reconcile_job
    reconcile_known e = ground arith

    reconcile_at : get_elem? p.body.steps row.step ≢ none
    unfolding reconcile_job
    reconcile_at e = ground arith

    reconcile_parts :
        (w : Handler) (step : Step)
        → svc.handlers p.body.operation ≡ some w
        → get_elem? p.body.steps row.step ≡ some step
        → Observed svc row p w step db
          × (done ≡ completed row)
          × (update_job
                (completed row)
                "Recovered by observing the original intended effect; no replay"
                now
                db
              ≡ ok db')
    unfolding reconcile_job moved_to
    reconcile_parts w step known at = ground (
      arith,
      eq_iff (value (svc.hash_plan (record p.body { digest = "" }))) p.body.digest,
      eq_iff (value (svc.hash_input p.input)) p.body.input_digest,
    )

  reconcile_locks :
      IsSound db
      → update_job
          (completed row)
          "Recovered by observing the original intended effect; no replay"
          now
          db
        ≡ ok db'
      → (r : String) → lookup r db'.locks ≡ released id (lookup r db.locks)
  unfolding gives_up_locks
  reconcile_locks s wrote r =
      let same = s.job_ids id row found in
      ground (
        arith,
        same,
        update_job-locks (completed row) row
            "Recovered by observing the original intended effect; no replay" now db db'
            (ap (λ k. lookup k db.jobs) same ∙ found) wrote s r,
      )

  reconcile_jobs :
      IsSound db
      → update_job
          (completed row)
          "Recovered by observing the original intended effect; no replay"
          now
          db
        ≡ ok db'
      → (k : String)
      → lookup k db'.jobs ≡ (if str_eq id k then some (completed row) else lookup k db.jobs)
  reconcile_jobs s wrote k =
      let rows =
        update_job-rows (completed row)
          "Recovered by observing the original intended effect; no replay" now db db' k wrote in
      ground (arith, rows, s.job_ids id row found, found, ||_same row.cancel_requested)

  -- In a sound journal a job is reconciled only if it was interrupted, its plan and input are
  -- unchanged, the interrupted step is the last and its workflow observes it complete; it is then
  -- stored as succeeded, as it is returned, no other job is changed, and its locks and no others are
  -- given up.
  pub reconcile_job-Observed :
      IsSound db
      → (p : PlanRow) × (w : Handler) × (step : Step) × Observed svc row p w step db
        × (done ≡ completed row)
        × ((k : String)
            → lookup k db'.jobs ≡ (if str_eq id k then some (completed row) else lookup k db.jobs))
        × ((r : String) → lookup r db'.locks ≡ released id (lookup r db.locks))
  reconcile_job-Observed s = elim (Option-cases (lookup row.plan_id db.plans)) [
    | inl e ↦ absurd (reconcile_planned e)
    | inr (p, planned) ↦ elim (Option-cases (svc.handlers p.body.operation)) [
      | inl e ↦ absurd (reconcile_known p planned e)
      | inr (w, known) ↦ elim (Option-cases (get_elem? p.body.steps row.step)) [
        | inl e ↦ absurd (reconcile_at p planned e)
        | inr (step, at) ↦
            let (seen, same, wrote) = reconcile_parts p planned w step known at in
            (p, w, step, seen, same, reconcile_jobs s wrote, reconcile_locks s wrote)
      ]
    ]
  ]
