-- ===== src/Domain/Plan.antt =====
-- Plans of internal/domain/domain.go, without the fields that are only shown (`Risks` and
-- `Review` apart, which the digest covers).
use virmill.Prelude.{ℕ, String, Bool, List}
use virmill.Prelude.Table.{Table}

pub record Grant : Type 0 where
  pub operation : String
  pub resource_id : String

pub record Step : Type 0 where
  pub id : String
  pub action : String
  pub preconditions : List String
  pub idempotency : String
  pub compensation : String
  pub reconciliation : String
  pub completion_predicate : String

pub record Estimates : Type 0 where
  pub additional_bytes : ℕ
  pub requires_downtime : Bool
  pub notes : String

pub record Plan : Type 0 where
  pub api_version : String
  pub id : String
  pub created_at : ℕ
  pub expires_at : ℕ
  pub actor_uid : ℕ
  pub connection_id : String
  pub operation : String
  pub resource_ids : List String
  pub input_digest : String
  pub digest : String
  pub before : Table String
  pub required_grants : List Grant
  pub acknowledgements : List String
  pub risks : List String
  pub steps : List Step
  pub estimates : Estimates
  pub review : Table String
