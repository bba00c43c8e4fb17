-- ===== src/Engine/Tests.antt =====
-- The theorems on runs and on the calls that cancel, observe and restart: a job that runs, one that
-- fails, and one that is canceled, observed or found after a restart
use virmill.Prelude.{
  if◌then◌else◌, str_eq, ℕ, ◌<◌, String, ◌≡◌, ◌⊎◌, refl, true, false, none, some, List, [], ◌∷◌,
  ◌++◌, length,
}
use virmill.Prelude.Table.{lookup, update}
use virmill.Domain.Error.{ok, Code, plain}
use virmill.Domain.Job.{
  Job, Severity, info, queued, terminal, succeeded, failed, running, validating, verifying,
  recovery_required,
}
use virmill.Domain.Plan.{Step}
use virmill.Store.Locks.{released, release}
use virmill.Store.Db.{Db, PlanRow, job, last_seq, or_later, pending_jobs}
use virmill.Store.Write.{update_job, gives_up_locks}
use virmill.Store.Reach.{here}
use virmill.Engine.Apply.{Handler}
use virmill.Engine.Run.{
  Env, Run, Call, wrote, validate, execute, reconcile, done, raised, run, run_step, begin,
  begin_row, begin_job, stopped, advance, revalidate, revalidate_answer, perform, perform_answer,
  confirm, confirm_answer, finish, stop_failed,
}
use virmill.Engine.Run.Stages.{rules_of}
use virmill.Engine.Run.Safety.{start, run-follows, run-execute, run-succeeded, run-failed_effect}
use virmill.Engine.Run.Success.{IsCalm, run-succeeds}
use virmill.Engine.Protocol.{follows}
use virmill.Engine.Protocol.History.{whole}
use virmill.Engine.Control.{cancel, recover, reconcile_job, restarted}
use virmill.Engine.Control.Restart.{recover-terminal}
use virmill.Engine.Control.Cancellation.{cancel-begin}
use virmill.Engine.Control.Observation.{Observed, completed, reconcile_job-Observed}
use virmill.Samples.{plain_services, a_step, first_job, accepted_db, stuck_job, stuck_db}
use virmill.Store.Runs.{accepted_db-IsSound, stuck_db-IsSound}

-- Nothing fails and nobody else writes.
abbrev calm : Env
calm = record {
  validation = λ t. none;
  outcome = λ t. done;
  confirmation = λ t. ok true;
  retains = false;
  meanwhile = λ t db. db;
  readable = λ t. true;
  commits = λ t. true;
  now = λ t. 7;
}

-- The effect fails, and the handler vouches that it was not done.
abbrev failing : Env
failing = record calm { outcome = λ t. raised false true plain }

abbrev steps : List Step
steps = a_step "start" ∷ []

calm-IsCalm : IsCalm calm
calm-IsCalm = record {
  reads = λ t. refl;
  writes = λ t. refl;
  alone = λ t db. refl;
  valid = λ t. refl;
  effective = λ t. refl;
  confirmed = λ t. refl;
}

run-follows_example :
    follows (rules_of calm first_job 1) (run calm steps 0 first_job (start accepted_db)).trace
    ≡ true
run-follows_example = run-follows calm steps first_job accepted_db

abbrev intent : List Call
intent = wrote running ∷ validate 0 none ∷ wrote validating ∷ []

calm_trace : (run calm steps 0 first_job (start accepted_db)).trace ≡ wrote succeeded ∷ whole 1
unfolding run run_step begin begin_row job lookup begin_job advance update_job revalidate
    revalidate_answer update perform perform_answer confirm confirm_answer finish
calm_trace = refl

failing_trace :
    (run failing steps 0 first_job (start accepted_db)).trace
    ≡ wrote failed ∷ execute 0 (raised false true plain) ∷ intent
unfolding run run_step begin begin_row job lookup begin_job advance update_job revalidate
    revalidate_answer update perform perform_answer stop_failed finish
failing_trace = refl

run-execute_example :
    (intent ≡ wrote running ∷ validate 0 none ∷ wrote validating ∷ whole 0) × (0 < 1)
run-execute_example =
    run-execute calm steps first_job accepted_db
      (wrote succeeded ∷ reconcile 0 (ok true) ∷ wrote verifying ∷ []) intent 0 done calm_trace

run-succeeded_example : whole 1 ≡ whole (length steps)
run-succeeded_example = run-succeeded calm steps first_job accepted_db (whole 1) calm_trace

run-failed_effect_example :
    (first_job.recovery_of ≡ "") × ((false ≡ true) ⊎ ((true ≡ true) × ◌≡◌ {A = ℕ} 0 0))
unfolding gives_up_locks
run-failed_effect_example =
    run-failed_effect failing steps first_job accepted_db failed 0 false true plain intent
      failing_trace refl

run-succeeds_example :
    (last : Job) × (lookup "j1" (run calm steps 0 first_job (start accepted_db)).db.jobs
      ≡ some last)
    × (last.state ≡ succeeded)
unfolding lookup
run-succeeds_example = run-succeeds calm steps first_job first_job accepted_db calm-IsCalm refl refl

-- The journal after a restart
abbrev restarted_db : Db
restarted_db = record accepted_db {
  jobs =
      (
        "j1",
        record first_job {
          state = recovery_required;
          error = some (record { code = Code.recovery_required; operation_id = "j1" });
        },
      )
      ∷ [];
  events =
      record {
        operation_id = "j1";
        seq = 1;
        at = 8;
        phase = recovery_required;
        severity = Severity.error;
        message = restarted;
      }
      ∷ [];
}

recover_ran : recover 8 accepted_db ≡ ok restarted_db
unfolding recover pending_jobs lookup update last_seq or_later terminal update_job
recover_ran = refl

recover-terminal_example : terminal recovery_required ≡ true
unfolding lookup
recover-terminal_example =
    recover-terminal 8 accepted_db restarted_db recover_ran accepted_db-IsSound "j1"
      (record first_job {
        state = recovery_required;
        error = some (record { code = Code.recovery_required; operation_id = "j1" });
      })
      refl

-- The journal after a request to cancel
abbrev canceled_job : Job
canceled_job = record first_job { cancel_requested = true }

abbrev canceled_db : Db
canceled_db = record accepted_db {
  jobs = ("j1", canceled_job) ∷ [];
  events =
      record {
        operation_id = "j1";
        seq = 1;
        at = 6;
        phase = queued;
        severity = info;
        message = "Cancellation requested; active step must reach a safe boundary";
      }
      ∷ [];
}

cancel_ran : cancel "j1" 6 accepted_db ≡ ok (canceled_job, canceled_db)
unfolding cancel terminal lookup update_job update last_seq or_later
cancel_ran = refl

cancel-begin_example : (st' : Run) × (begin calm 0 first_job (start canceled_db) ≡ stopped st')
cancel-begin_example =
    cancel-begin "j1" 6 0 accepted_db canceled_db first_job canceled_job calm (start canceled_db)
      accepted_db-IsSound cancel_ran refl here

-- The journal after the stuck job is reconciled
abbrev observed_db : Db
observed_db = record stuck_db {
  jobs = ("j1", record stuck_job { state = succeeded }) ∷ [];
  locks = [];
  events =
      stuck_db.events
      ++ record {
        operation_id = "j1";
        seq = 2;
        at = 8;
        phase = succeeded;
        severity = info;
        message = "Recovered by observing the original intended effect; no replay";
      }
        ∷ [];
}

reconcile_ran : reconcile_job plain_services "j1" 8 stuck_db ≡ ok (completed stuck_job, observed_db)
unfolding reconcile_job lookup update_job update last_seq or_later release
reconcile_ran = refl

reconcile_job-Observed_example :
    (p : PlanRow) × (w : Handler) × (step : Step) × Observed plain_services stuck_job p w step
      stuck_db
    × (completed stuck_job ≡ completed stuck_job)
    × ((k : String)
        → lookup k observed_db.jobs
          ≡ (if str_eq "j1" k then some (completed stuck_job) else lookup k stuck_db.jobs))
    × ((r : String) → lookup r observed_db.locks ≡ released "j1" (lookup r stuck_db.locks))
unfolding lookup
reconcile_job-Observed_example =
    reconcile_job-Observed plain_services "j1" 8 stuck_db observed_db (completed stuck_job)
      stuck_job refl reconcile_ran stuck_db-IsSound
