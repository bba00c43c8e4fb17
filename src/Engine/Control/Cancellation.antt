-- ===== src/Engine/Control/Cancellation.antt =====
-- A request to cancel is never lost, and stops the job before its next step.
use virmill.Prelude.{
  ℕ, String, Bool, true, false, Option, none, some, ◌≡◌, inl, inr, refl, arith, eq_iff, Bool-cases,
  Option-cases,
}
use virmill.Prelude.Table.{lookup, lookup-insert}
use virmill.Domain.Error.{ok}
use virmill.Domain.Job.{Job}
use virmill.Domain.Plan.{Plan}
use virmill.Store.Db.{Db, save_plan, job}
use virmill.Store.Write.{update_job}
use virmill.Store.Write.Effects.{accept-Accepted, update_job-rows}
use virmill.Store.Recovery.Effects.{accept_recovery-Recovered}
use virmill.Store.Recovery.Soundness.{recovered_jobs}
use virmill.Store.Invariant.{IsSound, update_job-IsSound}
use virmill.Store.Reach.{Step, saved, accepted, updated, recovered, Reach, here, next, Step-IsSound}
use virmill.Engine.Run.{Env, Run, begin, begin_row, begin_job, stop_canceled, stopped, resume}
use virmill.Engine.Control.{cancel}

-- The job is there, and its cancellation is requested.
abbrev pub flagged : Option Job → Bool
flagged none = false
flagged (some j) = j.cancel_requested

saved_jobs :
    (p : Plan) (input : String) (db db' : Db) → save_plan p input db ≡ ok db' → db'.jobs ≡ db.jobs
unfolding save_plan
saved_jobs p input db db' h = ground arith

pub Step-flagged :
    (id : String) (db db' : Db)
    → Step db db'
    → IsSound db
    → flagged (lookup id db.jobs) ≡ true
    → flagged (lookup id db'.jobs) ≡ true
Step-flagged id db db' (saved p input h) s f = ground (arith, saved_jobs p input db db' h)
Step-flagged id db db' (accepted p key digest i now j h) s f =
    let a = accept-Accepted p key digest i now db h in
    ground (arith, lookup-insert id i _ db.jobs db'.jobs a.jobs, a.fresh_id, eq_iff i id)
Step-flagged id db db' (updated j old message now row same h) s f =
    ground (arith, update_job-rows j message now db db' id h, row, eq_iff j.id id)
Step-flagged id db db' (recovered p key digest parent i now j h) s f =
    let r = accept_recovery-Recovered p key digest parent i now db h in
    ground (
      arith,
      recovered_jobs p key digest parent i now db _ _ j db' r s id,
      r.parent_row,
      r.fresh,
      eq_iff parent id,
      eq_iff i id,
    )

Reach-flagged :
    (id : String) (db db' : Db)
    → Reach db db'
    → IsSound db
    → flagged (lookup id db.jobs) ≡ true
    → IsSound db' × (flagged (lookup id db'.jobs) ≡ true)
Reach-flagged id db db' here s f = (s, f)
Reach-flagged id db db' (next {db = mid} r st) s f =
    let (s', f') = Reach-flagged id db mid r s f in
    (Step-IsSound mid db' st s', Step-flagged id mid db' st s' f')

-- What a successful `Cancel` wrote
abbrev canceling : Job → Job
canceling old = record old { cancel_requested = true }

abbrev requested : String
requested = "Cancellation requested; active step must reach a safe boundary"

cancel_inv :
    (id : String) (now : ℕ) (db db' : Db) (j : Job)
    → cancel id now db ≡ ok (j, db')
    → (old : Job) × (lookup id db.jobs ≡ some old)
      × (update_job (canceling old) requested now db ≡ ok db')
unfolding cancel
cancel_inv id now db db' j h = elim (Option-cases (lookup id db.jobs)) [
  | inl e ↦ ground arith
  | inr (old, e) ↦ (old, e, ground arith)
]

pub cancel-flagged :
    (id : String) (now : ℕ) (db db' : Db) (j : Job)
    → IsSound db
    → cancel id now db ≡ ok (j, db')
    → IsSound db' × (flagged (lookup id db'.jobs) ≡ true)
cancel-flagged id now db db' j s h =
    let (old, row, w) = cancel_inv id now db db' j h in
    let same = s.job_ids id old row in
    (
      update_job-IsSound (canceling old) old requested now db db' (rw same row) refl w s,
      ground (
        arith,
        update_job-rows (canceling old) requested now db db' id w,
        same,
        eq_iff old.id id,
      ),
    )

begin-flagged :
    (env : Env) (i : ℕ) (j : Job) (st : Run)
    → flagged (lookup j.id (env.meanwhile st.trace st.db).jobs) ≡ true
    → (st' : Run) × (begin env i j st ≡ stopped st')
unfolding begin begin_row begin_job resume job
begin-flagged env i j st f = elim (Bool-cases (env.readable st.trace)) [
  | inl e ↦ elim (Option-cases (lookup j.id (env.meanwhile st.trace st.db).jobs)) [
    | inl l ↦ ground arith
    | inr (row, l) ↦ (
      stop_canceled env i (record j { cancel_requested = row.cancel_requested; step = i })
          (record { db = env.meanwhile st.trace st.db; trace = st.trace }),
      ground arith,
    )
  ]
  | inr e ↦ (record { db = env.meanwhile st.trace st.db; trace = st.trace }, ground arith)
]

-- After a `Cancel` that succeeded in a sound journal, whatever transactions follow, the run of the
-- job starts no further step: its next round stops before it validates anything.
pub cancel-begin :
    (id : String) (now i : ℕ) (db db1 : Db) (j row : Job) (env : Env) (st : Run)
    → IsSound db
    → cancel id now db ≡ ok (row, db1)
    → j.id ≡ id
    → Reach db1 (env.meanwhile st.trace st.db)
    → (st' : Run) × (begin env i j st ≡ stopped st')
cancel-begin id now i db db1 j row env st s h same r =
    let (s1, f1) = cancel-flagged id now db db1 row s h in
    let (s2, f2) = Reach-flagged id db1 (env.meanwhile st.trace st.db) r s1 f1 in
    begin-flagged env i j st (rw same f2)
