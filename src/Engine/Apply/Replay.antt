-- ===== src/Engine/Apply/Replay.antt =====
-- Requests that are repeated, and plans that are applied as they were made.
use virmill.Prelude.{
  ℕ, ◌<◌, String, true, false, none, some, ◌≡◌, arith, eq_iff, contains, every, lt→ltb, ==_iff, inl,
  inr, Option-cases,
}
use virmill.Prelude.Table.{lookup, lookup-insert}
use virmill.Domain.Error.{ok, Result-cases}
use virmill.Domain.Job.{Job}
use virmill.Domain.Plan.{Plan}
use virmill.Store.Db.{Db, find_dedup, save_plan}
use virmill.Store.Write.{accept}
use virmill.Store.Invariant.{IsSound, accept-IsSound}
use virmill.Store.Reach.{Reach}
use virmill.Store.Keys.{find_dedup-Reach}
use virmill.Store.Exclusion.{find_dedup-accept}
use virmill.Store.Recovery.Soundness.{find_dedup-recovery, accept_recovery-IsSound}
use virmill.Engine.Apply.{
  ApplyRequest, PlanRequest, Handler, Services, Applied, apply, apply_new, accept_with, plan_digest,
  key_fits, make_plan,
}
use virmill.Engine.Apply.Authority.{sorted, apply-Started}

accept_with-dedup :
    (h : Handler) (p : Plan) (input key digest id : String) (now : ℕ) (db : Db) (j : Job) (db' : Db)
    → accept_with h p input key digest id now db ≡ ok (j, db')
    → IsSound db
    → find_dedup key digest db' ≡ ok (some j)
accept_with-dedup h p input key digest id now db j db' made s =
    elim (Option-cases h.recovery_parent) [
      | inl e ↦ ground (
        arith,
        find_dedup-accept p key digest id now db j db' digest (unfold accept_with in ground arith),
        eq_iff digest digest,
      )
      | inr (parent_of, e) ↦ elim (Result-cases (parent_of db p input)) [
        | inl (parent, q) ↦
            find_dedup-recovery p key digest parent id now db db' j
              (unfold accept_with in ground arith) s
        | inr (x, q) ↦ unfold accept_with in ground arith
      ]
    ]

accept_with-IsSound :
    (h : Handler) (p : Plan) (input key digest id : String) (now : ℕ) (db : Db) (j : Job) (db' : Db)
    → accept_with h p input key digest id now db ≡ ok (j, db')
    → IsSound db
    → IsSound db'
accept_with-IsSound h p input key digest id now db j db' made s =
    elim (Option-cases h.recovery_parent) [
      | inl e ↦ accept-IsSound p key digest id now db db' j (unfold accept_with in ground arith) s
      | inr (parent_of, e) ↦ elim (Result-cases (parent_of db p input)) [
        | inl (parent, q) ↦
            accept_recovery-IsSound p key digest parent id now db db' j
              (unfold accept_with in ground arith) s
        | inr (x, q) ↦ unfold accept_with in ground arith
      ]
    ]

-- In a sound journal a request that started a job stores it, and starts no other: repeated at any
-- later time with any fresh identifier, whatever transactions follow in between, it returns this job
-- as it is stored then, changes nothing and starts nothing.
pub apply-again :
    (svc : Services) (uid : ℕ) (r : ApplyRequest) (id id' : String) (now now' : ℕ) (db : Db)
    (a : Applied) (later : Db)
    → IsSound db
    → apply svc uid r id now db ≡ ok a
    → a.started ≡ true
    → Reach a.db later
    → (lookup a.job.id a.db.jobs ≡ some a.job)
      × ((j : Job) × (lookup a.job.id later.jobs ≡ some j)
          × (apply svc uid r id' now' later ≡ ok (record { job = j; db = later; started = false })))
unfolding apply
apply-again svc uid r id id' now now' db a later s h st reach =
    let w = apply-Started svc uid r id now db a h st in
    let key = r.idempotency_key in
    let sound =
      accept_with-IsSound w.handler w.row.body w.row.input key w.request id now db a.job a.db
        w.accepted s in
    let bound =
      accept_with-dedup w.handler w.row.body w.row.input key w.request id now db a.job a.db
        w.accepted s in
    let (stored, (j, there, found)) =
      find_dedup-Reach key w.request a.db later a.job sound bound reach in
    (stored, (j, there, ground (arith, w.key, w.hashed, found)))

-- A stored plan as `Plan` left it
record Made (svc : Services) (q : PlanRequest) (id : String) (now : ℕ) (p : Plan) (input : String)
    (db' : Db) : Type 0 where
  name : p.id ≡ id
  actor : p.actor_uid ≡ q.uid
  operation : p.operation ≡ q.operation
  digest : plan_digest svc p ≡ ok p.digest
  hashed : svc.hash_input q.input ≡ ok p.input_digest
  row : lookup id db'.plans ≡ some (record { digest = p.digest; body = p; input = input })

made_row :
    (p : Plan) (input : String) (db db' : Db)
    → save_plan p input db ≡ ok db'
    → lookup p.id db'.plans ≡ some (record { digest = p.digest; body = p; input = input })
unfolding save_plan
made_row p input db db' h = ground (
  arith,
  lookup-insert p.id p.id (record { digest = p.digest; body = p; input = input }) db.plans
      db'.plans,
  eq_iff p.id p.id,
)

make_plan-Made :
    (svc : Services) (q : PlanRequest) (id : String) (now : ℕ) (p : Plan) (input : String)
    (db db' : Db)
    → svc.canonical q.input ≡ ok input
    → make_plan svc q id now db ≡ ok (p, db')
    → Made svc q id now p input db'
unfolding make_plan
make_plan-Made svc q id now p input db db' c h = record {
  name = ground arith;
  actor = ground arith;
  operation = ground arith;
  digest = ground arith;
  hashed = ground arith;
  row = ground (arith, made_row p input db db');
}

module _ (svc : Services) (q : PlanRequest) (id : String) (now : ℕ) (p : Plan) (input : String)
    (db db1 db2 : Db) (canonical : svc.canonical q.input ≡ ok input)
    (made : make_plan svc q id now db ≡ ok (p, db1)) (r : ApplyRequest) (request job_id : String)
    (later : ℕ) (h : Handler) (j : Job) where
  -- A plan that `Plan` made is accepted as it was reviewed: the actor applies it with its digest and
  -- its acknowledgements, under a new key, before it expires; the stored input decodes and has the
  -- digest of the input; the workflow is no recovery and finds the plan valid; and `Accept` succeeds.
  pub apply-make_plan :
      r.plan_id ≡ p.id
      → r.plan_digest ≡ p.digest
      → every (contains (sorted r).acknowledgements) p.acknowledgements ≡ true
      → key_fits r.idempotency_key ≡ true
      → svc.hash_request q.uid (sorted r) ≡ ok request
      → find_dedup r.idempotency_key request db1 ≡ ok none
      → later < p.expires_at
      → svc.decode_input input ≡ none
      → svc.hash_input input ≡ svc.hash_input q.input
      → svc.handlers q.operation ≡ some h
      → h.validation db1 p input ≡ none
      → h.recovery_parent ≡ none
      → accept p r.idempotency_key request job_id later db1 ≡ ok (j, db2)
      → apply svc q.uid r job_id later db1 ≡ ok (record { job = j; db = db2; started = true })
  unfolding apply apply_new
  apply-make_plan named digest acks key hashed new_key time decoded same handler valid kind
        accepted =
      let m = make_plan-Made svc q id now p input db db1 canonical made in
      ground (
        arith,
        m.name,
        m.actor,
        m.operation,
        m.digest,
        m.hashed,
        m.row,
        eq_iff p.digest r.plan_digest,
        eq_iff p.digest p.digest,
        eq_iff p.input_digest p.input_digest,
        ==_iff p.actor_uid q.uid,
        lt→ltb later p.expires_at,
      )
