-- ===== src/Engine/Run/Success.antt =====
-- A run whose handler succeeds and that nobody disturbs ends succeeded: the engine itself never
-- blocks a job.
use Prim.Native.String.{◌++◌}
use mathlib.Core.Path.{subst}
use virmill.Prelude.{
  ℕ, ◌+◌, String, true, false, ◌||◌, none, some, List, [], ◌∷◌, ◌≡◌, ◌≢◌, refl, inl, inr, arith,
  eq_iff, ◌∙◌, sym,
}
use virmill.Prelude.Table.{lookup, lookup-update}
use virmill.Domain.Error.{Err, ok, err, Result-cases}
use virmill.Domain.Plan.{Step}
use virmill.Domain.Job.{Job, State, succeeded, validating, running, verifying}
use virmill.Store.Db.{Db, job}
use virmill.Store.Write.{update_job}
use virmill.Store.Write.Effects.{update_job-Updated}
use virmill.Engine.Run.{
  Env, Run, Call, wrote, validate, execute, reconcile, done, persist, moved_to, finish, advance,
  begin, begin_row, begin_job, revalidate, revalidate_answer, perform, perform_answer, confirm,
  confirm_answer, Progress, going, resume, run_step, run, ◌>>=◌,
}
use virmill.Engine.Run.Refinement.{whole_step}
use virmill.Engine.Run.Safety.{start}

-- The database works, no other goroutine writes, and the handler succeeds in everything.
pub record IsCalm (env : Env) : Type 0 where
  pub reads : (t : List Call) → env.readable t ≡ true
  pub writes : (t : List Call) → env.commits t ≡ true
  pub alone : (t : List Call) (db : Db) → env.meanwhile t db ≡ db
  pub valid : (t : List Call) → env.validation t ≡ none
  pub effective : (t : List Call) → env.outcome t ≡ done
  pub confirmed : (t : List Call) → env.confirmation t ≡ ok true

-- The journal has the job, and nobody has asked to cancel it.
pub record IsLive (id : String) (db : Db) : Type 0 where
  pub row : Job
  pub present : lookup id db.jobs ≡ some row
  pub wanted : row.cancel_requested ≡ false

update_job-total :
    (j row : Job) (message : String) (now : ℕ) (db : Db) (e : Err)
    → lookup j.id db.jobs ≡ some row
    → update_job j message now db ≢ err e
unfolding update_job
update_job-total j row message now db e l h = ground arith

-- What a write of the job leaves in its row.
abbrev pub stored : Job → Job → Job
stored j row = record j { cancel_requested = j.cancel_requested || row.cancel_requested }

update_job-live :
    (j row : Job) (message : String) (now : ℕ) (db : Db)
    → lookup j.id db.jobs ≡ some row
    → (db' : Db) × (update_job j message now db ≡ ok db')
      × (lookup j.id db'.jobs ≡ some (stored j row))
update_job-live j row message now db l = elim (Result-cases (update_job j message now db)) [
  | inl (db', h) ↦
      let u = update_job-Updated j message now db db' h in
      (
        db',
        h,
        ground (arith, u.jobs, lookup-update j.id j.id (stored j row) db.jobs, eq_iff j.id j.id),
      )
  | inr (e, h) ↦ absurd (update_job-total j row message now db e l h)
]

module _ (env : Env) (calm : IsCalm env) where
  persist-calm :
      (j row : Job) (message : String) (st : Run)
      → lookup j.id st.db.jobs ≡ some row
      → (st' : Run) × (persist env j message st ≡ (st', true))
        × (st'.trace ≡ wrote j.state ∷ st.trace)
        × (lookup j.id st'.db.jobs ≡ some (stored j row))
  unfolding persist
  persist-calm j row message st l =
      let (db', h, l') = update_job-live j row message (env.now st.trace) st.db l in
      (
        record { db = db'; trace = wrote j.state ∷ st.trace },
        ground (arith, calm.writes st.trace),
        refl,
        l',
      )

  resume-calm : (st : Run) → resume env st ≡ st
  unfolding resume
  resume-calm st = ground (arith, calm.alone st.trace st.db)

  -- A part of a step in a calm environment goes on with the job in the journal.
  record Goes (j : Job) (t : List Call) (m : Progress) : Type 0 where
    job' : Job
    st' : Run
    goes : m ≡ going job' st'
    id : job'.id ≡ j.id
    flag : job'.cancel_requested ≡ false
    trace : st'.trace ≡ t
    live : IsLive j.id st'.db

  advance-calm :
      (j : Job) (s : State) (message : String) (st : Run)
      → j.cancel_requested ≡ false
      → IsLive j.id st.db
      → Goes j (wrote s ∷ st.trace) (advance env j s message st)
  unfolding advance moved_to
  advance-calm j s message st f live =
      let (st', h, t, l) = persist-calm (record j { state = s }) live.row message st live.present in
      record {
        job' = record j { state = s };
        st' = st';
        goes = ground (arith, h);
        id = refl;
        flag = f;
        trace = t;
        live = record {
          row = stored (record j { state = s }) live.row;
          present = l;
          wanted = ground (arith, live.wanted);
        };
      }

  begin_ready :
      (i : ℕ) (j : Job) (st : Run) (live : IsLive j.id st.db)
      → begin env i j st
        ≡ advance env
            (record j { cancel_requested = false; step = i })
            validating
            "Rechecking preconditions before effect"
            st
  unfolding begin begin_row begin_job job
  begin_ready i j st live =
      ground (arith, resume-calm st, calm.reads st.trace, live.present, live.wanted)

  begin-calm :
      (i : ℕ) (j : Job) (st : Run)
      → IsLive j.id st.db
      → Goes j (wrote validating ∷ st.trace) (begin env i j st)
  begin-calm i j st live =
      let g =
        advance-calm (record j { cancel_requested = false; step = i }) validating
          "Rechecking preconditions before effect" st refl live in
      record {
        job' = g.job';
        st' = g.st';
        goes = begin_ready i j st live ∙ g.goes;
        id = g.id;
        flag = g.flag;
        trace = g.trace;
        live = g.live;
      }

  revalidate-calm :
      (step : Step) (i : ℕ) (j : Job) (st : Run)
      → j.cancel_requested ≡ false
      → IsLive j.id st.db
      → Goes j (wrote running ∷ validate i none ∷ st.trace) (revalidate env step i j st)
  unfolding revalidate revalidate_answer
  revalidate-calm step i j st f live =
      rw calm.valid
        (rw resume-calm (advance-calm j running ("Intent persisted: " ++ step.action) _ f live))

  perform-calm :
      (i : ℕ) (j : Job) (st : Run)
      → j.cancel_requested ≡ false
      → IsLive j.id st.db
      → Goes j (wrote verifying ∷ execute i done ∷ st.trace) (perform env i j st)
  unfolding perform perform_answer
  perform-calm i j st f live = rw calm.effective (
      rw resume-calm
        (advance-calm j verifying "Effect returned; verifying observed state" _ f live))

  confirm-calm :
      (i : ℕ) (j : Job) (st : Run)
      → j.cancel_requested ≡ false
      → IsLive j.id st.db
      → Goes j (reconcile i (ok true) ∷ st.trace) (confirm env i j st)
  unfolding confirm confirm_answer
  confirm-calm i j st f live = rw calm.confirmed (
      rw resume-calm (record {
        job' = j;
        st' = record { db = st.db; trace = reconcile i (ok true) ∷ st.trace };
        goes = refl;
        id = refl;
        flag = f;
        trace = refl;
        live = live;
      }))

  bind-calm :
      (j : Job) (t u : List Call) (m : Progress) (f : Job → Run → Progress)
      → Goes j t m
      → ((j' : Job) (st' : Run)
          → j'.id ≡ j.id
          → j'.cancel_requested ≡ false
          → st'.trace ≡ t
          → IsLive j'.id st'.db
          → Goes j' u (f j' st'))
      → Goes j u (m >>= f)
  bind-calm j t u m f g rest =
      let r = rest g.job' g.st' g.id g.flag g.trace (rw g.id g.live) in
      record {
        job' = r.job';
        st' = r.st';
        goes = rw g.goes r.goes;
        id = r.id ∙ g.id;
        flag = r.flag;
        trace = r.trace;
        live = rw g.id at r.live;
      }

  run_step-calm :
      (step : Step) (i : ℕ) (j : Job) (st : Run)
      → IsLive j.id st.db
      → Goes j (whole_step i st.trace) (run_step env step i j st)
  unfolding run_step
  run_step-calm step i j st live =
      bind-calm j _ _ (begin env i j st >>= revalidate env step i >>= perform env i) (confirm env i)
        (bind-calm j _ _ (begin env i j st >>= revalidate env step i) (perform env i)
          (bind-calm j _ _ (begin env i j st) (revalidate env step i) (begin-calm i j st live)
            (λ j' st' same f t l.
              subst
                (λ u. Goes j' (wrote running ∷ validate i none ∷ u) (revalidate env step i j' st'))
                t (revalidate-calm step i j' st' f l)))
          (λ j' st' same f t l.
            subst (λ u. Goes j' (wrote verifying ∷ execute i done ∷ u) (perform env i j' st')) t
              (perform-calm i j' st' f l)))
        (λ j' st' same f t l.
          subst (λ u. Goes j' (reconcile i (ok true) ∷ u) (confirm env i j' st')) t
            (confirm-calm i j' st' f l))

  finish-calm :
      (j : Job) (message : String) (st : Run)
      → IsLive j.id st.db
      → (row : Job) × (lookup j.id (finish env j succeeded none message st).db.jobs ≡ some row)
        × (row.state ≡ succeeded)
  unfolding finish moved_to
  finish-calm j message st live =
      let (st', h, t, l) =
        persist-calm (record j { state = succeeded }) live.row message st live.present in
      (stored (record j { state = succeeded }) live.row, ground (arith, h, l), refl)

  run-calm :
      (steps : List Step) (i : ℕ) (j : Job) (st : Run)
      → IsLive j.id st.db
      → (row : Job) × (lookup j.id (run env steps i j st).db.jobs ≡ some row)
        × (row.state ≡ succeeded)
  unfolding run
  run-calm [] i j st live =
      subst
        (λ u.
          (row : Job) × (lookup j.id
              (finish env j succeeded none "All completion predicates verified" u).db.jobs
            ≡ some row)
          × (row.state ≡ succeeded))
        (sym (resume-calm st)) (finish-calm j "All completion predicates verified" st live)
  run-calm (step ∷ steps) i j st live =
      let g = run_step-calm step i j st live in
      let (row, l, s) = run-calm steps (i + 1) g.job' g.st' (rw g.id g.live) in
      (row, ground (arith, g.goes, g.id, l), s)

-- With a working database, nobody else writing and a handler that succeeds, the run of a live job
-- that nobody canceled ends with the job stored as succeeded, however many steps it has.
pub run-succeeds :
    (env : Env) (steps : List Step) (j row : Job) (db : Db)
    → IsCalm env
    → lookup j.id db.jobs ≡ some row
    → row.cancel_requested ≡ false
    → (last : Job) × (lookup j.id (run env steps 0 j (start db)).db.jobs ≡ some last)
      × (last.state ≡ succeeded)
run-succeeds env steps j row db calm l w =
    run-calm env calm steps 0 j (start db) (record { row = row; present = l; wanted = w })
