-- ===== src/Engine/Run.antt =====
-- `Engine.run` and `Engine.transition` of internal/operations/engine.go: an accepted job's goroutine.
-- The calls that it makes are kept in a trace, the newest first. What it does not decide is an
-- `Env`: the handler's answers, the other goroutines, and whether the database can be used.
pub mod Refinement
pub mod Parts
pub mod Safety
pub mod Success
pub mod Stages
use Prim.Native.String.{◌++◌}
use virmill.Prelude.{
  ℕ, zero, suc, ◌+◌, String, Bool, true, false, not, ◌&&◌, ◌||◌, Option, none, some, List, [], ◌∷◌,
  ltb, ◌==◌, str_eq, if◌then◌else◌,
}
use virmill.Domain.Error.{Err, Code, Result, ok, err, fail, storage}
use virmill.Domain.Job.{
  Job, JobError, State, validating, running, verifying, succeeded, failed, canceled,
  recovery_required,
}
use virmill.Domain.Plan.{Step}
use virmill.Store.Db.{Db, job}
use virmill.Store.Write.{update_job}

-- What `Execute` returns. Of an error the engine asks whether it is `ErrCanceledSafely` and whether
-- it is `ErrNotDone`.
pub data Outcome : Type 0 where
  done : Outcome
  raised : (canceled_safely not_done : Bool) → Err → Outcome

pub data Call : Type 0 where
  wrote : State → Call
  unwritten : Call
  validate : ℕ → Option Err → Call
  execute : ℕ → Outcome → Call
  reconcile : ℕ → Result Bool → Call

pub record Env : Type 0 where
  pub validation : List Call → Option Err
  pub outcome : List Call → Outcome
  pub confirmation : List Call → Result Bool
  pub retains : Bool
  pub meanwhile : List Call → Db → Db
  pub readable : List Call → Bool
  pub commits : List Call → Bool
  pub now : List Call → ℕ

pub record Run : Type 0 where
  pub db : Db
  pub trace : List Call

unfoldable pub job_error : String → Err → JobError
job_error id (fail c) = record { code = c; operation_id = id }
job_error id _ = record { code = Code.operation_failed; operation_id = id }

-- The job of `transition`: no error leaves the one that is there.
unfoldable pub moved_to : Job → State → Option Err → Job
unfolding job_error
moved_to j state none = record j { state = state }
moved_to j state (some e) = record j { state = state; error = some (job_error j.id e) }

-- What others did up to here.
unfoldable pub resume : Env → Run → Run
resume env st = record st { db = env.meanwhile st.trace st.db }

-- The write of `transition`; the flag says whether it returned no error.
unfoldable pub persist : Env → Job → String → Run → Run × Bool
persist env j message st =
    let refused = record st { trace = unwritten ∷ st.trace } in
    if env.commits st.trace
    then elim (update_job j message (env.now st.trace) st.db) [
      | ok db' ↦ (record { db = db'; trace = wrote j.state ∷ st.trace }, true)
      | err _ ↦ (refused, false)
    ]
    else (refused, false)

-- A transition after which the goroutine returns.
unfoldable pub finish : Env → Job → State → Option Err → String → Run → Run
unfolding moved_to persist
finish env j state e message st = (persist env (moved_to j state e) message st).0

-- A part of a step ends the goroutine, or goes on.
pub data Progress : Type 0 where
  stopped : Run → Progress
  going : Job → Run → Progress

-- A transition after which the goroutine goes on if it was written.
unfoldable pub advance : Env → Job → State → String → Run → Progress
unfolding moved_to persist
advance env j state message st =
    let (st', written) = persist env (moved_to j state none) message st in
    if written then going (moved_to j state none) st' else stopped st'

unfoldable pub retain_partial : Env → ℕ → Bool
retain_partial env i = env.retains && ltb 0 i

-- Does a stop keep the locks, because an effect may stand?
unfoldable pub keeps_effects : Env → ℕ → Job → Bool
unfolding retain_partial
keeps_effects env i j = not (str_eq j.recovery_of "") || retain_partial env i

abbrev pub review : Option Err
review = some (fail Code.recovery_required)

-- The stop at a requested cancellation
unfoldable pub stop_canceled : Env → ℕ → Job → Run → Run
stop_canceled env i j st =
    if keeps_effects env i j
    then finish env j recovery_required review
        "Recovery canceled; inherited uncertain resources remain locked" st
    else finish env j canceled none "Canceled at a safe step boundary" st

-- The flag is the job's cancellation, as just read.
unfoldable pub begin_job : Env → ℕ → Job → Run → Bool → Progress
begin_job env i j st true = stopped (stop_canceled env i j st)
begin_job env i j st false = advance env j validating "Rechecking preconditions before effect" st

unfoldable pub begin_row : Env → ℕ → Job → Run → Result Job → Progress
begin_row env i j st (err _) = stopped st
begin_row env i j st (ok row) =
    begin_job env i (record j { cancel_requested = row.cancel_requested; step = i }) st
      row.cancel_requested

-- Under the engine's mutex: the cancellation flag is read, and the intent to validate is written.
unfoldable pub begin : Env → ℕ → Job → Run → Progress
begin env i j st0 =
    let st = resume env st0 in
    begin_row env i j st (if env.readable st.trace then job j.id st.db else err storage)

-- The stop at a failed validation
unfoldable pub stop_invalid : Env → ℕ → Job → Err → Run → Run
stop_invalid env i j e st =
    if keeps_effects env i j
    then finish env j recovery_required (some e)
        "Recovery preconditions failed; inherited resources remain locked" st
    else finish env j failed (some e) "Preconditions failed; no new step effect" st

unfoldable pub revalidate_answer : Env → Step → ℕ → Job → Run → Option Err → Progress
revalidate_answer env step i j st (some e) = stopped (stop_invalid env i j e st)
revalidate_answer env step i j st none =
    advance env j running ("Intent persisted: " ++ step.action) st

unfoldable pub revalidate : Env → Step → ℕ → Job → Run → Progress
revalidate env step i j st =
    let answer = env.validation st.trace in
    revalidate_answer env step i j (resume env (record st { trace = validate i answer ∷ st.trace }))
      answer

-- The stop at a failed effect: `ErrCanceledSafely` and `ErrNotDone` vouch that nothing stands.
unfoldable pub stop_failed : Env → ℕ → Job → Bool → Bool → Err → Run → Run
stop_failed env i j safely not_done e st =
    if safely && str_eq j.recovery_of ""
    then finish env j canceled none
        "Canceled at a verified safe boundary; no published effect remains" st
    else if not_done && str_eq j.recovery_of "" && (i == 0)
    then finish env j failed (some e) "Step did not take effect; nothing unsafe remains" st
    else finish env j recovery_required (some e)
        "Step may have taken effect; reconcile before any retry" st

unfoldable pub perform_answer : Env → ℕ → Job → Run → Outcome → Progress
perform_answer env i j st (raised safely not_done e) =
    stopped (stop_failed env i j safely not_done e st)
perform_answer env i j st done =
    advance env j verifying "Effect returned; verifying observed state" st

unfoldable pub perform : Env → ℕ → Job → Run → Progress
perform env i j st =
    let answer = env.outcome st.trace in
    perform_answer env i j (resume env (record st { trace = execute i answer ∷ st.trace })) answer

unfoldable pub confirm_answer : Env → Job → Run → Result Bool → Progress
confirm_answer env j st (err e) =
    stopped (finish env j recovery_required (some e) "Effect was not proven complete" st)
confirm_answer env j st (ok false) =
    stopped (finish env j recovery_required review "Effect was not proven complete" st)
confirm_answer env j st (ok true) = going j st

unfoldable pub confirm : Env → ℕ → Job → Run → Progress
confirm env i j st =
    let answer = env.confirmation st.trace in
    confirm_answer env j (resume env (record st { trace = reconcile i answer ∷ st.trace })) answer

-- The body of the loop returns, or the loop goes on.
infixl 5 ◌>>=◌
abbrev pub ◌>>=◌ : Progress → (Job → Run → Progress) → Progress
stopped st >>= f = stopped st
going j st >>= f = f j st

unfoldable pub run_step : Env → Step → ℕ → Job → Run → Progress
run_step env step i j st =
    begin env i j st >>= revalidate env step i >>= perform env i >>= confirm env i

-- The loop returns, or goes on to the next round.
abbrev pub resolve : Progress → (Job → Run → Run) → Run
resolve (stopped st) f = st
resolve (going j st) f = f j st

-- `run`, from step `i` on with the steps that are left.
unfoldable pub run : Env → List Step → ℕ → Job → Run → Run
unfolding resume
run env [] i j st = finish env j succeeded none "All completion predicates verified" (resume env st)
run env (step ∷ steps) i j st = resolve (run_step env step i j st) (run env steps (i + 1))
