-- ===== src/Engine/Apply.antt =====
-- `Engine.Plan` and `Engine.Apply` of internal/operations/engine.go.
pub mod Replay
pub mod Authority
use Prim.Native.String.{len}
use virmill.Prelude.{
  ℕ, ◌+◌, ◌*◌, String, Bool, true, false, not, ◌&&◌, ◌||◌, Option, none, some, List, [], ◌∷◌, map,
  ltb, ◌==◌, str_eq, if◌then◌else◌, contains, every, sort,
}
use virmill.Prelude.Table.{Table, lookup}
use virmill.Domain.Error.{Err, Result, ok, err, or_err, fail, Code, ◌>>=◌, ◌>>◌}
use virmill.Domain.Job.{Job}
use virmill.Domain.Plan.{Plan, Step, Estimates, Grant}
use virmill.Store.Db.{Db, save_plan, plan, find_dedup}
use virmill.Store.Write.{accept}
use virmill.Store.Recovery.{accept_recovery}

pub record ApplyRequest : Type 0 where
  pub plan_id : String
  pub plan_digest : String
  pub idempotency_key : String
  pub acknowledgements : List String

-- A workflow's `Handler`, with the interfaces that it may implement besides. It reads the journal
-- and what is outside.
pub record Handler : Type 0 where
  pub validation : Db → Plan → String → Option Err
  pub reviewer : Option (Db → Plan → String → Result (Table String))
  pub estimator : Option (Db → Plan → String → Result Estimates)
  pub recovery_parent : Option (Db → Plan → String → Result String)
  pub confirmation : Db → Plan → String → Step → Result Bool

-- The workflows, and the digests: of a request with its actor, of a plan, and of an input, which is
-- first put in canonical form and must decode.
pub record Services : Type 0 where
  pub handlers : String → Option Handler
  pub canonical : String → Result String
  pub hash_request : ℕ → ApplyRequest → Result String
  pub hash_plan : Plan → Result String
  pub decode_input : String → Option Err
  pub hash_input : String → Result String

abbrev pub guard : Bool → Err → Result (Unit {0})
guard true e = ok tt
guard false e = err e

abbrev pub unless_err : Option Err → Result (Unit {0})
unless_err none = ok tt
unless_err (some e) = err e

abbrev pub invalid_input : Err
invalid_input = fail Code.invalid_input

-- `PlanDigest`: the digest of all of the plan but its `planDigest`.
unfoldable pub plan_digest : Services → Plan → Result String
plan_digest svc p = svc.hash_plan (record p { digest = "" })

abbrev pub is_empty {ℓ} : {A : Type ℓ} → List A → Bool
is_empty [] = true
is_empty (_ ∷ _) = false

-- Fifteen minutes, in nanoseconds
abbrev pub plan_lifetime : ℕ
plan_lifetime = 15 * 60 * 1_000_000_000

-- What the caller asks of `Plan`.
pub record PlanRequest : Type 0 where
  pub uid : ℕ
  pub connection : String
  pub operation : String
  pub resources : List String
  pub before : Table String
  pub input : String
  pub steps : List Step
  pub acknowledgements : List String
  pub risks : List String

abbrev pub no_estimates : Estimates
no_estimates = record { additional_bytes = 0; requires_downtime = false; notes = "" }

unfoldable pub draft : PlanRequest → String → String → ℕ → Plan
draft q input_digest id now = record {
  api_version = "virmill/v1";
  id = id;
  created_at = now;
  expires_at = now + plan_lifetime;
  actor_uid = q.uid;
  connection_id = q.connection;
  operation = q.operation;
  resource_ids = sort q.resources;
  input_digest = input_digest;
  digest = "";
  before = q.before;
  required_grants =
      map (λ r. record { operation = q.operation; resource_id = r }) (sort q.resources);
  acknowledgements = q.acknowledgements;
  risks = q.risks;
  steps = q.steps;
  estimates = no_estimates;
  review = [];
}

unfoldable pub add_review : Handler → Db → String → Plan → Result Plan
add_review h db input p = elim h.reviewer [
  | none ↦ ok p
  | some review ↦ do shown ← review db p input; ok (record p { review = shown })
]

unfoldable pub add_estimates : Handler → Db → String → Plan → Result Plan
add_estimates h db input p = elim h.estimator [
  | none ↦ ok p
  | some estimate ↦ do estimates ← estimate db p input; ok (record p { estimates = estimates })
]

-- `Plan`; `id` is the fresh identifier.
unfoldable pub make_plan : Services → PlanRequest → String → ℕ → Db → Result (Plan × Db)
unfolding draft add_review add_estimates plan_digest
make_plan svc q id now db = do
  h ← or_err (svc.handlers q.operation) (fail Code.not_implemented)
  input ← svc.canonical q.input
  input_digest ← svc.hash_input q.input
  let p = draft q input_digest id now
  guard (not (is_empty q.steps)) invalid_input
  unless_err (h.validation db p input)
  reviewed ← add_review h db input p
  estimated ← add_estimates h db input reviewed
  digest ← plan_digest svc estimated
  let final = record estimated { digest = digest }
  db' ← save_plan final input db
  ok (final, db')

-- What `Apply` returns: the job, the journal, and whether a goroutine was started.
pub record Applied : Type 0 where
  pub job : Job
  pub db : Db
  pub started : Bool

-- The plan is the one that was reviewed, it is unchanged, and it has not expired.
unfoldable pub is_current : Plan → ApplyRequest → String → ℕ → Bool
is_current p r computed now =
    str_eq p.digest r.plan_digest && str_eq p.digest computed && ltb now p.expires_at

unfoldable pub check_input : Services → Plan → String → Result (Unit {0})
check_input svc p input = do
  unless_err (svc.decode_input input)
  elim (svc.hash_input input) [
    | ok d ↦ guard (str_eq d p.input_digest) (fail Code.source_changed)
    | err _ ↦ err (fail Code.source_changed)
  ]

unfoldable pub accept_with :
    Handler → Plan → String → String → String → String → ℕ → Db → Result (Job × Db)
accept_with h p input key digest id now db = elim h.recovery_parent [
  | none ↦ accept p key digest id now db
  | some parent_of ↦ do parent ← parent_of db p input; accept_recovery p key digest parent id now db
]

-- `Apply` of a request whose key is new
unfoldable pub apply_new : Services → ℕ → ApplyRequest → String → String → ℕ → Db → Result Applied
unfolding is_current check_input accept_with plan_digest plan
apply_new svc uid r request id now db = do
  (p, input) ← plan r.plan_id db
  guard (p.actor_uid == uid) (fail Code.permission_denied)
  computed ← plan_digest svc p
  guard (is_current p r computed now) (fail Code.stale_plan)
  check_input svc p input
  guard (every (contains r.acknowledgements) p.acknowledgements) (fail Code.permission_required)
  h ← or_err (svc.handlers p.operation) (fail Code.not_implemented)
  unless_err (h.validation db p input)
  (j, db') ← accept_with h p input r.idempotency_key request id now db
  ok (record { job = j; db = db'; started = true })

unfoldable pub key_fits : String → Bool
key_fits key = not (str_eq key "") && not (ltb 128 (len key))

unfoldable pub apply : Services → ℕ → ApplyRequest → String → ℕ → Db → Result Applied
unfolding key_fits
apply svc uid r0 id now db =
    let r = record r0 { acknowledgements = sort r0.acknowledgements } in
    do
      guard (key_fits r.idempotency_key) invalid_input
      request ← svc.hash_request uid r
      found ← find_dedup r.idempotency_key request db
      elim found [
        | some j ↦ ok (record { job = j; db = db; started = false })
        | none ↦ apply_new svc uid r request id now db
      ]
