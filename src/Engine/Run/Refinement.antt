-- ===== src/Engine/Run/Refinement.antt =====
-- `Engine.run` follows the protocol, whatever the handler answers and whatever else happens.
use mathlib.Core.Path.{subst}
use virmill.Prelude.{
  ℕ, ◌+◌, ◌<◌, true, not, none, some, List, [], ◌∷◌, ◌≡◌, refl, arith, str_eq, lt→ltb, ==_iff,
  length, ◌∙◌, ap,
}
use virmill.Domain.Error.{ok}
use virmill.Domain.Plan.{Step}
use virmill.Domain.Job.{Job, validating, running, verifying, succeeded}
use virmill.Engine.Run.{
  Env, Run, Call, wrote, validate, execute, reconcile, done, begin, revalidate, perform, confirm,
  Progress, stopped, going, resume, run_step, run, resolve, ◌>>=◌,
}
use virmill.Engine.Run.Stages.{rules_of, follows-cons, follows-finish, may-between}
use virmill.Engine.Protocol.{Rules, boundary, follows}
-- What a part of a step passes on: a trace within the protocol that ends in the call `c` over `t`,
-- and the same job.
use virmill.Engine.Run.Parts.{
  Passed, Part, stopped-Part, begin_row-Part, revalidate_answer-Part, perform_answer-Part,
  confirm_answer-Part,
}

-- A part for a job of the same kind is a part for the job.
module _ (env : Env) (n : ℕ) (j j' : Job) (kind : j'.recovery_of ≡ j.recovery_of)
    (id : j'.id ≡ j.id) where
  rules_same : rules_of env j' n ≡ rules_of env j n
  rules_same =
      ap (λ r. record { recovery = not (str_eq r ""); retains = env.retains; steps = n }) kind

  follows_same :
      (t : List Call) → follows (rules_of env j n) t ≡ true → follows (rules_of env j' n) t ≡ true
  follows_same t f = rw rules_same f

  Part-same :
      (c : Call) (t : List Call) (m : Progress)
      → Part (rules_of env j' n) j' c t m
      → Part (rules_of env j n) j c t m
  Part-same c t m part = record {
    ended = λ st' h. rw (← rules_same) (part.ended st' h);
    passed = λ j'' st' h.
        let q = part.passed j'' st' h in
        record {
          trace = q.trace;
          kind = q.kind ∙ kind;
          id = q.id ∙ id;
          within = rw (← rules_same) q.within;
        };
  }

bind-Part :
    (p : Rules) (j : Job) (c d : Call) (t u : List Call) (m : Progress) (f : Job → Run → Progress)
    → Part p j c t m
    → ((j' : Job) (st' : Run) → Passed p j c t j' st' → Part p j d u (f j' st'))
    → Part p j d u (m >>= f)
bind-Part p j c d t u (stopped st) f part rest = stopped-Part p j d u st (part.ended st refl)
bind-Part p j c d t u (going j' st') f part rest = rest j' st' (part.passed j' st' refl)

module _ (env : Env) (i n : ℕ) (j : Job) (st : Run)
    (f : follows (rules_of env j n) st.trace ≡ true) where
  begin-Part :
      boundary st.trace ≡ some i
      → Part (rules_of env j n) j (wrote validating) st.trace (begin env i j st)
  unfolding begin resume
  begin-Part b = begin_row-Part env i n j (resume env st) f b _

  revalidate-Part :
      (step : Step) (t : List Call)
      → st.trace ≡ wrote validating ∷ t
      → boundary t ≡ some i
      → i < n
      → Part
          (rules_of env j n)
          j
          (wrote running)
          (validate i none ∷ st.trace)
          (revalidate env step i j st)
  unfolding revalidate resume
  revalidate-Part step t q b lt =
      let answer = env.validation st.trace in
      revalidate_answer-Part env i n j
        (resume env (record st { trace = validate i answer ∷ st.trace }))
        (follows-cons (rules_of env j n) (validate i answer) st.trace _
          (rw q (ground (arith, lt→ltb i n))) f refl)
        step answer st.trace refl

  perform-Part :
      (k : ℕ) (t : List Call)
      → st.trace ≡ wrote running ∷ validate k none ∷ t
      → k ≡ i
      → Part (rules_of env j n) j (wrote verifying) (execute i done ∷ st.trace) (perform env i j st)
  unfolding perform resume
  perform-Part k t q same =
      let answer = env.outcome st.trace in
      perform_answer-Part env i n j (resume env (record st { trace = execute i answer ∷ st.trace }))
        (follows-cons (rules_of env j n) (execute i answer) st.trace _ (rw q (ground arith)) f refl)
        answer st.trace refl

  confirm-Part :
      (t : List Call)
      → st.trace ≡ wrote verifying ∷ execute i done ∷ t
      → Part (rules_of env j n) j (reconcile i (ok true)) st.trace (confirm env i j st)
  unfolding confirm resume
  confirm-Part t q =
      let answer = env.confirmation st.trace in
      confirm_answer-Part env i n j
        (resume env (record st { trace = reconcile i answer ∷ st.trace }))
        (follows-cons (rules_of env j n) (reconcile i answer) st.trace _ (rw q (ground arith)) f
          refl)
        answer st.trace refl

-- The calls of a whole step over what was before it, the newest first
abbrev pub whole_step : ℕ → List Call → List Call
whole_step i t =
    reconcile i (ok true)
    ∷ wrote verifying
    ∷ execute i done
    ∷ wrote running
    ∷ validate i none
    ∷ wrote validating
    ∷ t

module _ (env : Env) (step : Step) (i n : ℕ) (j : Job) (st : Run)
    (f : follows (rules_of env j n) st.trace ≡ true) (b : boundary st.trace ≡ some i)
    (lt : i < n) where
  abbrev rules : Rules
  rules = rules_of env j n

  abbrev begun : List Call
  begun = wrote validating ∷ st.trace

  abbrev validated : List Call
  validated = wrote running ∷ validate i none ∷ begun

  abbrev performed : List Call
  performed = wrote verifying ∷ execute i done ∷ validated

  to_running :
      Part rules j
        (wrote running)
        (validate i none ∷ begun)
        (begin env i j st >>= revalidate env step i)
  to_running =
      bind-Part rules j _ _ _ _ (begin env i j st) (revalidate env step i)
        (begin-Part env i n j st f b)
        λ j' st' q.
          subst
            (λ u. Part rules j (wrote running) (validate i none ∷ u) (revalidate env step i j' st'))
            q.trace
            (Part-same env n j j' q.kind q.id _ _ _ (
              revalidate-Part env i n j' st'
                (follows_same env n j j' q.kind q.id st'.trace q.within) step st.trace q.trace b
                lt))

  to_verifying :
      Part rules j
        (wrote verifying)
        (execute i done ∷ validated)
        (begin env i j st >>= revalidate env step i >>= perform env i)
  to_verifying =
      bind-Part rules j _ _ _ _ (begin env i j st >>= revalidate env step i) (perform env i)
        to_running
        λ j' st' q.
          subst (λ u. Part rules j (wrote verifying) (execute i done ∷ u) (perform env i j' st'))
            q.trace
            (Part-same env n j j' q.kind q.id _ _ _ (
              perform-Part env i n j' st' (follows_same env n j j' q.kind q.id st'.trace q.within) i
                begun q.trace refl))

  run_step-Part : Part rules j (reconcile i (ok true)) performed (run_step env step i j st)
  unfolding run_step
  run_step-Part =
      bind-Part rules j _ _ _ _ (begin env i j st >>= revalidate env step i >>= perform env i)
        (confirm env i) to_verifying
        λ j' st' q.
          subst (λ u. Part rules j (reconcile i (ok true)) u (confirm env i j' st')) q.trace
            (Part-same env n j j' q.kind q.id _ _ _ (
              confirm-Part env i n j' st' (follows_same env n j j' q.kind q.id st'.trace q.within)
                validated q.trace))

follows-resolve :
    (p : Rules) (j : Job) (c : Call) (t : List Call) (m : Progress) (k : Job → Run → Run)
    → Part p j c t m
    → ((j' : Job) (st' : Run) → Passed p j c t j' st' → follows p (k j' st').trace ≡ true)
    → follows p (resolve m k).trace ≡ true
follows-resolve p j c t (stopped st) k part rest = part.ended st refl
follows-resolve p j c t (going j' st') k part rest = rest j' st' (part.passed j' st' refl)

pub follows-run :
    (env : Env) (steps : List Step) (i n : ℕ) (j : Job) (st : Run)
    → follows (rules_of env j n) st.trace ≡ true
    → boundary st.trace ≡ some i
    → n ≡ i + length steps
    → follows (rules_of env j n) (run env steps i j st).trace ≡ true
unfolding run
follows-run env [] i n j st f b e =
    unfold resume in
    follows-finish (rules_of env j n) env j (resume env st) f succeeded none _
      (may-between (rules_of env j n) (wrote succeeded) st.trace i b ∙ (==_iff i n).1 (omega arith))
follows-run env (step ∷ steps) i n j st f b e =
    follows-resolve (rules_of env j n) j _ _ (run_step env step i j st) (run env steps (i + 1))
      (run_step-Part env step i n j st f b (omega arith))
      (λ j' st' q. rw (← rules_same env n j j' q.kind q.id) (
        follows-run env steps (i + 1) n j' st'
          (follows_same env n j j' q.kind q.id st'.trace q.within) (rw q.trace) (omega arith)))
