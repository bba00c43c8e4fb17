-- ===== src/Store/Keys.antt =====
-- The idempotency keys of internal/store: no transaction forgets the job of a key.
use virmill.Prelude.{String, ◌≡◌, sym, subst, some, arith, eq_iff, Option-cases, inl, inr}
use virmill.Prelude.Table.{lookup, insert, lookup-insert, insert-fresh}
use virmill.Domain.Error.{ok}
use virmill.Domain.Job.{Job}
use virmill.Domain.Plan.{Plan}
use virmill.Store.Db.{Db, DedupRow, save_plan, find_dedup}
use virmill.Store.Write.Effects.{accept-Accepted, update_job-Updated}
use virmill.Store.Recovery.Effects.{accept_recovery-Recovered}
use virmill.Store.Invariant.{IsSound}
use virmill.Store.Reach.{Step, saved, accepted, updated, recovered, Reach, here, next, Step-IsSound}

saved_dedup :
    (p : Plan) (input : String) (db db' : Db) → save_plan p input db ≡ ok db' → db'.dedup ≡ db.dedup
unfolding save_plan
saved_dedup p input db db' h = ground arith

-- A key that is inserted is none of those that are there.
inserted_dedup :
    (key k : String) (new row : DedupRow) (db db' : Db)
    → insert k new db.dedup ≡ some db'.dedup
    → lookup key db.dedup ≡ some row
    → lookup key db'.dedup ≡ some row
inserted_dedup key k new row db db' h l = ground (
  arith,
  lookup-insert key k new db.dedup db'.dedup h,
  insert-fresh k new db.dedup db'.dedup h,
  eq_iff k key,
)

pub Step-dedup :
    (key : String) (row : DedupRow) (db db' : Db)
    → Step db db'
    → lookup key db.dedup ≡ some row
    → lookup key db'.dedup ≡ some row
Step-dedup key row db db' (saved p input h) l = rw (saved_dedup p input db db' h) l
Step-dedup key row db db' (accepted p k digest id now j h) l =
    inserted_dedup key k _ row db db' (accept-Accepted p k digest id now db h).dedup l
Step-dedup key row db db' (updated j old message now there same h) l =
    rw ((update_job-Updated j message now db db' h).dedup) l
Step-dedup key row db db' (recovered p k digest parent id now j h) l =
    inserted_dedup key k _ row db db'
      (accept_recovery-Recovered p k digest parent id now db h).dedup l

pub Reach-dedup :
    (key : String) (row : DedupRow) (db db' : Db)
    → Reach db db'
    → IsSound db
    → lookup key db.dedup ≡ some row
    → IsSound db' × (lookup key db'.dedup ≡ some row)
Reach-dedup key row db db' here s l = (s, l)
Reach-dedup key row db db' (next {db = mid} r st) s l =
    let (s', l') = Reach-dedup key row db mid r s l in
    (Step-IsSound mid db' st s', Step-dedup key row mid db' st l')

-- A key that finds a job has a row for the request, and the row names the job.
find_dedup-row :
    (key digest : String) (db : Db) (j : Job)
    → IsSound db
    → find_dedup key digest db ≡ ok (some j)
    → (row : DedupRow) × (lookup key db.dedup ≡ some row)
      × (row.request_digest ≡ digest)
      × (lookup row.job_id db.jobs ≡ some j)
      × (j.id ≡ row.job_id)
unfolding find_dedup
find_dedup-row key digest db j s h = elim (Option-cases (lookup key db.dedup)) [
  | inl e ↦ ground arith
  | inr (row, e) ↦ elim (Option-cases (lookup row.job_id db.jobs)) [
    | inl n ↦ ground arith
    | inr (k, l) ↦
        let there : lookup row.job_id db.jobs ≡ some j = ground arith in
        (
          row,
          e,
          ground (arith, eq_iff row.request_digest digest),
          there,
          s.job_ids row.job_id j there,
        )
  ]
]

-- Whatever transactions follow, the key finds the same job for the same request.
pub find_dedup-Reach :
    (key digest : String) (db db' : Db) (j : Job)
    → IsSound db
    → find_dedup key digest db ≡ ok (some j)
    → Reach db db'
    → (lookup j.id db.jobs ≡ some j)
      × ((k : Job) × (lookup j.id db'.jobs ≡ some k) × (find_dedup key digest db' ≡ ok (some k)))
unfolding find_dedup
find_dedup-Reach key digest db db' j s h r =
    let (row, bound, same, there, named) = find_dedup-row key digest db j s h in
    let (s', bound') = Reach-dedup key row db db' r s bound in
    (
      subst (λ n. lookup n db.jobs ≡ some j) (sym named) there,
      elim (Option-cases (lookup row.job_id db'.jobs)) [
        | inl n ↦ absurd (s'.dedup_jobs key row bound' n)
        | inr (k, l) ↦ (
          k,
          subst (λ n. lookup n db'.jobs ≡ some k) (sym named) l,
          ground (arith, eq_iff row.request_digest digest),
        )
      ],
    )
