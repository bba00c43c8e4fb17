-- ===== src/Domain/Job.antt =====
-- Jobs and their events of internal/domain/domain.go. The strings of `Job.State` are the
-- constructors of `State`; times are nanoseconds since an epoch.
use virmill.Prelude.{ℕ, String, Bool, true, false, Option}
use virmill.Domain.Error.{Code}

pub data State : Type 0 where
  queued validating running verifying : State
  succeeded failed partial canceled recovery_required interrupted : State

unfoldable pub terminal : State → Bool
terminal succeeded = true
terminal failed = true
terminal partial = true
terminal canceled = true
terminal recovery_required = true
terminal _ = false

-- The error that a job's record keeps.
pub record JobError : Type 0 where
  pub code : Code
  pub operation_id : String

pub record Job : Type 0 where
  pub id : String
  pub plan_id : String
  pub state : State
  pub step : ℕ
  pub created_at : ℕ
  pub error : Option JobError
  pub cancel_requested : Bool
  pub recovery_of : String
  pub recovery_operation_id : String

pub data Severity : Type 0 where
  info warning error : Severity

pub record Event : Type 0 where
  pub operation_id : String
  pub seq : ℕ
  pub at : ℕ
  pub phase : State
  pub severity : Severity
  pub message : String
