-- ===== src/Engine/Control.antt =====
-- `Engine.Cancel`, `Engine.Reconcile` and `Engine.Recover` of internal/operations/engine.go, each
-- under the engine's mutex.
pub mod Observation
pub mod Cancellation
pub mod Restart
use virmill.Prelude.{
  ℕ, ◌+◌, ◌-◌, String, Bool, true, false, not, ◌&&◌, Option, none, some, List, [], ◌∷◌, ltb, ◌==◌,
  str_eq, if◌then◌else◌, get_elem?, length,
}
use virmill.Domain.Error.{Err, Result, ok, err, or_err, fail, Code, plain, ◌>>=◌, ◌>>◌}
use virmill.Domain.Job.{Job, State, terminal, succeeded, recovery_required}
use virmill.Domain.Plan.{Plan, Step}
use virmill.Store.Db.{Db, job, plan, pending_jobs}
use virmill.Store.Write.{update_job}
use virmill.Store.Recovery.{recoverable}
use virmill.Engine.Apply.{Services, Handler, guard, invalid_input, plan_digest}
use virmill.Engine.Run.{moved_to}

-- `transition`
unfoldable pub transition : Job → State → Option Err → String → ℕ → Db → Result Db
unfolding moved_to
transition j state e message now db = update_job (moved_to j state e) message now db

-- `Cancel`
unfoldable pub cancel : String → ℕ → Db → Result (Job × Db)
unfolding job
cancel id now db = do
  j ← job id db
  guard (not (terminal j.state)) invalid_input
  let j' = record j { cancel_requested = true }
  db' ← update_job j' "Cancellation requested; active step must reach a safe boundary" now db
  ok (j', db')

-- The digest is `expected`; any other, or none, is a changed source.
unfoldable pub same_digest : Result String → String → Result (Unit {0})
same_digest (ok d) expected = guard (str_eq d expected) (fail Code.source_changed)
same_digest (err _) expected = err (fail Code.source_changed)

-- The step that the journal names
unfoldable pub journal_step : Job → Plan → Result Step
journal_step j p = or_err (get_elem? p.steps j.step) plain

unfoldable pub confirmed : Result Bool → Result (Unit {0})
confirmed (err e) = err e
confirmed (ok b) = guard b (fail Code.recovery_required)

-- `Reconcile`: the handler observes the step that was interrupted, and executes nothing.
unfoldable pub reconcile_job : Services → String → ℕ → Db → Result (Job × Db)
unfolding job plan same_digest journal_step confirmed transition recoverable plan_digest
reconcile_job svc id now db = do
  j ← job id db
  guard (recoverable j.state) invalid_input
  (p, input) ← plan j.plan_id db
  same_digest (plan_digest svc p) p.digest
  same_digest (svc.hash_input input) p.input_digest
  h ← or_err (svc.handlers p.operation) (fail Code.not_implemented)
  step ← journal_step j p
  confirmed (h.confirmation db p input step)
  guard (j.step + 1 == length p.steps) (fail Code.recovery_required)
  let done = record j { error = none; state = succeeded }
  db' ←
      transition done succeeded none
        "Recovered by observing the original intended effect; no replay" now db
  ok (done, db')

abbrev pub restarted : String
restarted = "Coordinator restarted; effects require observation before continuation"

-- The loop of `Recover` over the jobs that were pending
unfoldable pub recover_jobs : List Job → ℕ → Db → Result Db
unfolding transition
recover_jobs [] now db = ok db
recover_jobs (j ∷ js) now db =
    if terminal j.state
    then recover_jobs js now db
    else transition j recovery_required (some (fail Code.recovery_required)) restarted now db
      >>= recover_jobs js now

-- `Recover`, at the start of the coordinator
unfoldable pub recover : ℕ → Db → Result Db
unfolding recover_jobs
recover now db = recover_jobs (pending_jobs db) now db
