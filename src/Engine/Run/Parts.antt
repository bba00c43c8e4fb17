-- ===== src/Engine/Run/Parts.antt =====
-- Each part of a step of `Engine.run`: where it stops or goes on, and what it has called by then
use Prim.Native.String.{◌++◌}
use mathlib.Core.Path.{subst}
use virmill.Prelude.{ℕ, String, Bool, true, false, Option, none, some, List, ◌∷◌, ◌≡◌, arith}
use virmill.Domain.Error.{Err, Result, ok, err}
use virmill.Domain.Plan.{Step}
use virmill.Domain.Job.{Job, State, validating, running, verifying}
use virmill.Engine.Run.{
  Env, Run, Call, wrote, validate, execute, reconcile, Outcome, done, raised, begin_row, begin_job,
  revalidate_answer, perform_answer, confirm_answer, Progress, stopped, going, advance,
}
use virmill.Engine.Run.Stages.{
  rules_of, follows-cons, advance-going, follows-advance, follows-finish, follows-stop_canceled,
  follows-stop_invalid, follows-stop_failed, may-between,
}
use virmill.Engine.Protocol.{Rules, boundary, follows, may}

-- What a part of a step passes on: a trace within the protocol that ends in the call `c` over `t`,
-- and the same job.
pub record Passed (p : Rules) (j : Job) (c : Call) (t : List Call) (j' : Job) (st : Run)
    : Type 0 where
  pub trace : st.trace ≡ c ∷ t
  pub kind : j'.recovery_of ≡ j.recovery_of
  pub id : j'.id ≡ j.id
  pub within : follows p st.trace ≡ true

-- A part of a step either ends within the protocol, or passes `c` over `t` on.
pub record Part (p : Rules) (j : Job) (c : Call) (t : List Call) (m : Progress) : Type 0 where
  pub ended : (st' : Run) → m ≡ stopped st' → follows p st'.trace ≡ true
  pub passed : (j' : Job) (st' : Run) → m ≡ going j' st' → Passed p j c t j' st'

pub stopped-Part :
    (p : Rules) (j : Job) (c : Call) (t : List Call) (st : Run)
    → follows p st.trace ≡ true
    → Part p j c t (stopped st)
stopped-Part p j c t st f = record { ended = λ st' h. ground arith; passed = λ j' st' h. cc }

module _ (p : Rules) (env : Env) (j : Job) (st : Run) (f : follows p st.trace ≡ true) where
  pub advance-Part :
      (s : State) (message : String)
      → may p (wrote s) st.trace ≡ true
      → Part p j (wrote s) st.trace (advance env j s message st)
  advance-Part s message m = record {
    ended = λ st' h. follows-advance p env j st f s message st' h;
    passed = λ j' st' h.
        let (q, k, same) = advance-going env j s message st h in
        record {
          trace = q;
          kind = k;
          id = same;
          within = follows-cons p (wrote s) st.trace _ m f q;
        };
  }

module _ (env : Env) (i n : ℕ) (j : Job) (st : Run) where
  abbrev pub p : Rules
  p = rules_of env j n

  module _ (f : follows p st.trace ≡ true) where
    begin_job-Part :
        boundary st.trace ≡ some i
        → (cancel : Bool) → Part p j (wrote validating) st.trace (begin_job env i j st cancel)
    unfolding begin_job
    begin_job-Part b true = stopped-Part p j _ _ _ (follows-stop_canceled env i n j st f b)
    begin_job-Part b false =
        advance-Part p env j st f validating _ (may-between p (wrote validating) st.trace i b)

    pub revalidate_answer-Part :
        (step : Step) (answer : Option Err) (t : List Call)
        → st.trace ≡ validate i answer ∷ t
        → Part p j (wrote running) (validate i none ∷ t) (revalidate_answer env step i j st answer)
    unfolding revalidate_answer
    revalidate_answer-Part step (some e) t q =
        stopped-Part p j _ _ _ (follows-stop_invalid env i n j st f e t q)
    revalidate_answer-Part step none t q =
        subst (λ u. Part p j (wrote running) u (revalidate_answer env step i j st none)) q
          (advance-Part p env j st f running ("Intent persisted: " ++ step.action) (rw q))

    pub perform_answer-Part :
        (answer : Outcome) (t : List Call)
        → st.trace ≡ execute i answer ∷ t
        → Part p j (wrote verifying) (execute i done ∷ t) (perform_answer env i j st answer)
    unfolding perform_answer
    perform_answer-Part (raised safely not_done e) t q =
        stopped-Part p j _ _ _ (follows-stop_failed env i n j st f safely not_done e t q)
    perform_answer-Part done t q =
        subst (λ u. Part p j (wrote verifying) u (perform_answer env i j st done)) q
          (advance-Part p env j st f verifying "Effect returned; verifying observed state" (rw q))

    pub confirm_answer-Part :
        (answer : Result Bool) (t : List Call)
        → st.trace ≡ reconcile i answer ∷ t
        → Part p j (reconcile i (ok true)) t (confirm_answer env j st answer)
    unfolding confirm_answer
    confirm_answer-Part (err e) t q =
        stopped-Part p j _ _ _ (follows-finish p env j st f _ _ _ (rw q))
    confirm_answer-Part (ok false) t q =
        stopped-Part p j _ _ _ (follows-finish p env j st f _ _ _ (rw q))
    confirm_answer-Part (ok true) t q = record {
      ended = λ st' h. cc;
      passed = λ j' st' h. record {
        trace = ground arith;
        kind = ground arith;
        id = ground arith;
        within = ground arith;
      };
    }

module _ (env : Env) (i n : ℕ) (j : Job) (st : Run) where
  pub begin_row-Part :
      follows (rules_of env j n) st.trace ≡ true
      → boundary st.trace ≡ some i
      → (row : Result Job)
      → Part (rules_of env j n) j (wrote validating) st.trace (begin_row env i j st row)
  unfolding begin_row
  begin_row-Part f b (err e) = stopped-Part _ j _ _ st f
  begin_row-Part f b (ok row) =
      let j1 = record j { cancel_requested = row.cancel_requested; step = i } in
      let part = begin_job-Part env i n j1 st f b row.cancel_requested in
      record {
        ended = part.ended;
        passed = λ j' st' h.
            let q = part.passed j' st' h in
            record { trace = q.trace; kind = q.kind; id = q.id; within = q.within };
      }
