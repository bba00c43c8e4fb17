-- ===== src/Engine/Apply/Authority.antt =====
-- What an accepted request has proved: whose plan it is, that it is the reviewed one, and that it
-- is acknowledged and valid.
use virmill.Prelude.{
  ℕ, ◌<◌, String, true, false, none, some, ◌≡◌, ◌≢◌, arith, eq_iff, contains, every, sort, ◌⊎◌, inl,
  inr, Bool-cases, Option-cases,
}
use virmill.Prelude.Table.{lookup}
use virmill.Domain.Error.{Result, ok, err, Result-cases}
use virmill.Domain.Job.{Job}
use virmill.Domain.Plan.{Plan}
use virmill.Store.Db.{Db, PlanRow, find_dedup}
use virmill.Store.Reach.{Step, accepted, recovered}
use virmill.Engine.Apply.{
  ApplyRequest, Handler, Services, Applied, apply, apply_new, accept_with, plan_digest, key_fits,
}

-- The request `r` of `uid` may start the plan of `row`.
pub record Authorized (svc : Services) (uid : ℕ) (r : ApplyRequest) (input : String) (p : Plan)
    (h : Handler) (now : ℕ) (db : Db) : Type 0 where
  pub actor : p.actor_uid ≡ uid
  pub reviewed : p.digest ≡ r.plan_digest
  pub unchanged : plan_digest svc p ≡ ok p.digest
  pub unexpired : now < p.expires_at
  pub same_input : svc.hash_input input ≡ ok p.input_digest
  pub acknowledged : every (contains r.acknowledgements) p.acknowledgements ≡ true
  pub known : svc.handlers p.operation ≡ some h
  pub valid : h.validation db p input ≡ none

abbrev value : Result String → String
value (ok x) = x
value (err e) = ""

authorized :
    (svc : Services) (uid : ℕ) (r : ApplyRequest) (request id : String) (now : ℕ) (db : Db)
    (row : PlanRow) (h : Handler) (a : Applied)
    → lookup r.plan_id db.plans ≡ some row
    → svc.handlers row.body.operation ≡ some h
    → apply_new svc uid r request id now db ≡ ok a
    → Authorized svc uid r row.input row.body h now db
      × (accept_with h row.body row.input r.idempotency_key request id now db ≡ ok (a.job, a.db))
      × (a.started ≡ true)
unfolding apply_new
authorized svc uid r request id now db row h a found known ran = ground (
  arith,
  eq_iff row.body.digest r.plan_digest,
  eq_iff row.body.digest (value (svc.hash_plan (record row.body { digest = "" }))),
  eq_iff (value (svc.hash_input row.input)) row.body.input_digest,
)

apply_new_planned :
    (svc : Services) (uid : ℕ) (r : ApplyRequest) (request id : String) (now : ℕ) (db : Db)
    (a : Applied)
    → apply_new svc uid r request id now db ≡ ok a
    → lookup r.plan_id db.plans ≢ none
unfolding apply_new
apply_new_planned svc uid r request id now db a ran e = ground arith

apply_new_known :
    (svc : Services) (uid : ℕ) (r : ApplyRequest) (request id : String) (now : ℕ) (db : Db)
    (row : PlanRow) (a : Applied)
    → lookup r.plan_id db.plans ≡ some row
    → apply_new svc uid r request id now db ≡ ok a
    → svc.handlers row.body.operation ≢ none
unfolding apply_new
apply_new_known svc uid r request id now db row a found ran e = ground arith

-- The request with its acknowledgements in order
abbrev pub sorted : ApplyRequest → ApplyRequest
sorted r = record r { acknowledgements = sort r.acknowledgements }

-- How a job was started: the key was new, and the stored plan was authorized and accepted.
pub record Started (svc : Services) (uid : ℕ) (r : ApplyRequest) (id : String) (now : ℕ) (db : Db)
    (a : Applied) : Type 0 where
  pub request : String
  pub row : PlanRow
  pub handler : Handler
  pub key : key_fits r.idempotency_key ≡ true
  pub hashed : svc.hash_request uid (sorted r) ≡ ok request
  pub new_key : find_dedup r.idempotency_key request db ≡ ok none
  pub stored : lookup r.plan_id db.plans ≡ some row
  pub authority : Authorized svc uid (sorted r) row.input row.body handler now db
  pub accepted :
      accept_with handler row.body row.input r.idempotency_key request id now db ≡ ok (a.job, a.db)

-- What `apply` has done before it looks for the plan.
record Entered (svc : Services) (uid : ℕ) (r : ApplyRequest) (id request : String) (now : ℕ)
    (db : Db) (a : Applied) : Type 0 where
  key : key_fits r.idempotency_key ≡ true
  hashed : svc.hash_request uid (sorted r) ≡ ok request
  new_key : find_dedup r.idempotency_key request db ≡ ok none
  ran : apply_new svc uid (sorted r) request id now db ≡ ok a

apply-Entered :
    (svc : Services) (uid : ℕ) (r : ApplyRequest) (id : String) (now : ℕ) (db : Db) (a : Applied)
    → apply svc uid r id now db ≡ ok a
    → a.started ≡ true
    → Entered svc uid r id (value (svc.hash_request uid (sorted r))) now db a
unfolding apply
apply-Entered svc uid r id now db a h s = ground arith

-- A request starts a job only if its key is new, its plan is stored, and the plan is the actor's
-- and the reviewed one, unchanged and unexpired, with its input unchanged, every acknowledgement
-- given, and its workflow finding it valid; `Accept` or `AcceptRecovery` then made the job.
pub apply-Started :
    (svc : Services) (uid : ℕ) (r : ApplyRequest) (id : String) (now : ℕ) (db : Db) (a : Applied)
    → apply svc uid r id now db ≡ ok a
    → a.started ≡ true
    → Started svc uid r id now db a
apply-Started svc uid r id now db a h s =
    let e = apply-Entered svc uid r id now db a h s in
    let request = value (svc.hash_request uid (sorted r)) in
    elim (Option-cases (lookup r.plan_id db.plans)) [
      | inl none_stored ↦
          absurd (apply_new_planned svc uid (sorted r) request id now db a e.ran none_stored)
      | inr (row, found) ↦ elim (Option-cases (svc.handlers row.body.operation)) [
        | inl unknown ↦
            absurd (apply_new_known svc uid (sorted r) request id now db row a found e.ran unknown)
        | inr (handler, known) ↦
            let (authority, made, started) =
              authorized svc uid (sorted r) request id now db row handler a found known e.ran in
            record {
              request = request;
              row = row;
              handler = handler;
              key = e.key;
              hashed = e.hashed;
              new_key = e.new_key;
              stored = found;
              authority = authority;
              accepted = made;
            }
      ]
    ]

accept_with-Step :
    (h : Handler) (p : Plan) (input key digest id : String) (now : ℕ) (db : Db) (j : Job) (db' : Db)
    → accept_with h p input key digest id now db ≡ ok (j, db')
    → Step db db'
accept_with-Step h p input key digest id now db j db' made = elim (Option-cases h.recovery_parent) [
  | inl e ↦ accepted p key digest id now j (unfold accept_with in ground arith)
  | inr (parent_of, e) ↦ elim (Result-cases (parent_of db p input)) [
    | inl (parent, q) ↦ recovered p key digest parent id now j (unfold accept_with in ground arith)
    | inr (x, q) ↦ unfold accept_with in ground arith
  ]
]

apply_repeated :
    (svc : Services) (uid : ℕ) (r : ApplyRequest) (id : String) (now : ℕ) (db : Db) (a : Applied)
    → apply svc uid r id now db ≡ ok a
    → a.started ≡ false
    → a.db ≡ db
unfolding apply apply_new
apply_repeated svc uid r id now db a h s = ground arith

-- The journal after an `apply` that succeeds: unchanged, or one transaction later.
pub apply-Step :
    (svc : Services) (uid : ℕ) (r : ApplyRequest) (id : String) (now : ℕ) (db : Db) (a : Applied)
    → apply svc uid r id now db ≡ ok a
    → (a.db ≡ db) ⊎ Step db a.db
apply-Step svc uid r id now db a h = elim (Bool-cases a.started) [
  | inl s ↦
      let w = apply-Started svc uid r id now db a h s in
      inr (
        accept_with-Step w.handler w.row.body w.row.input r.idempotency_key w.request id now db
          a.job a.db w.accepted)
  | inr s ↦ inl (apply_repeated svc uid r id now db a h s)
]
