-- ===== src/Engine/Run/Stages.antt =====
-- Each part of a step of `Engine.run` follows the protocol.
use virmill.Prelude.{
  ◌∙◌, ap, Option-cases, Bool-cases, inl, inr, ℕ, String, Bool, true, not, ◌&&◌, Option, none, some,
  List, ◌∷◌, ◌==◌, ◌≡◌, refl, ◌⊎◌, arith, str_eq, if◌then◌else◌,
}
use virmill.Domain.Error.{Err}
use virmill.Domain.Job.{Job, State, canceled, recovery_required}
use virmill.Engine.Run.{
  Env, Run, stop_canceled, stop_invalid, stop_failed, Call, wrote, unwritten, validate, execute,
  raised, moved_to, persist, finish, advance, keeps_effects, stopped, going,
}
use virmill.Engine.Protocol.{Rules, keeps, boundary, follows, may, between}

-- The protocol of a job with `n` steps
abbrev pub rules_of : Env → Job → ℕ → Rules
rules_of env j n = record {
  recovery = not (str_eq j.recovery_of "");
  retains = env.retains;
  steps = n;
}

pub trace-persist :
    (env : Env) (j : Job) (message : String) (st : Run)
    → (persist env j message st).0.trace
      ≡ (if (persist env j message st).1 then wrote j.state else unwritten) ∷ st.trace
unfolding persist
trace-persist env j message st = ground arith

state-moved_to : (j : Job) (s : State) (e : Option Err) → (moved_to j s e).state ≡ s
unfolding moved_to
state-moved_to j s e = ground arith

-- A last transition adds one call.

pub trace-finish :
    (env : Env) (j : Job) (s : State) (e : Option Err) (message : String) (st : Run)
    → ((finish env j s e message st).trace ≡ wrote s ∷ st.trace)
      ⊎ ((finish env j s e message st).trace ≡ unwritten ∷ st.trace)
unfolding finish
trace-finish env j s e message st =
    ground (arith, trace-persist env (moved_to j s e) message st, state-moved_to j s e)

-- A transition on the way adds one call, and leaves the job's identity alone.
pub advance-going :
    (env : Env) (j : Job) (s : State) (message : String) (st : Run) {j' : Job} {st' : Run}
    → advance env j s message st ≡ going j' st'
    → (st'.trace ≡ wrote s ∷ st.trace) × (j'.recovery_of ≡ j.recovery_of) × (j'.id ≡ j.id)
unfolding advance moved_to
advance-going env j s message st h =
    ground (arith, trace-persist env (moved_to j s none) message st)

pub advance-stopped :
    (env : Env) (j : Job) (s : State) (message : String) (st : Run) {st' : Run}
    → advance env j s message st ≡ stopped st'
    → st'.trace ≡ unwritten ∷ st.trace
unfolding advance moved_to
advance-stopped env j s message st h =
    ground (arith, trace-persist env (moved_to j s none) message st)

may-unwritten : (p : Rules) (t : List Call) → may p unwritten t ≡ true
may-unwritten p t = elim (Option-cases (boundary t)) [
  | inl e ↦ rw (e, may)
  | inr (i, e) ↦ rw (e, may)
]

-- A call that the protocol allows keeps a trace within it.
pub follows-cons :
    (p : Rules) (c : Call) (t t' : List Call)
    → may p c t ≡ true
    → follows p t ≡ true
    → t' ≡ c ∷ t
    → follows p t' ≡ true
follows-cons p c t t' m f e = rw e (rw m f)

module _ (p : Rules) (env : Env) (j : Job) (st : Run) (f : follows p st.trace ≡ true) where
  pub follows-finish :
      (s : State) (e : Option Err) (message : String)
      → may p (wrote s) st.trace ≡ true
      → follows p (finish env j s e message st).trace ≡ true
  follows-finish s e message m = elim (trace-finish env j s e message st) [
    | inl q ↦ follows-cons p (wrote s) st.trace _ m f q
    | inr q ↦ follows-cons p unwritten st.trace _ (may-unwritten p st.trace) f q
  ]

  pub follows-advance :
      (s : State) (message : String) (st' : Run)
      → advance env j s message st ≡ stopped st'
      → follows p st'.trace ≡ true
  follows-advance s message st' h =
      follows-cons p unwritten st.trace _ (may-unwritten p st.trace) f
        (advance-stopped env j s message st h)

-- Where the protocol stands between two steps.
pub may-between :
    (p : Rules) (c : Call) (t : List Call) (i : ℕ) → boundary t ≡ some i → may p c t ≡ between p i c
may-between p c t i e = rw (e, may)

keeps-rules_of :
    (env : Env) (i n : ℕ) (j : Job) → keeps (rules_of env j n) i ≡ keeps_effects env i j
unfolding keeps_effects
keeps-rules_of env i n j = refl

module _ (env : Env) (i n : ℕ) (j : Job) (st : Run)
    (f : follows (rules_of env j n) st.trace ≡ true) where
  abbrev p : Rules
  p = rules_of env j n

  pub follows-stop_canceled :
      boundary st.trace ≡ some i → follows p (stop_canceled env i j st).trace ≡ true
  unfolding stop_canceled
  follows-stop_canceled b = elim (Bool-cases (keeps_effects env i j)) [
    | inl e ↦ rw e (
        follows-finish p env j st f _ _ _ (
          ground (
            arith,
            may-between p (wrote recovery_required) st.trace i b,
            keeps-rules_of env i n j,
          )))
    | inr e ↦ rw e (
        follows-finish p env j st f _ _ _
          (ground (arith, may-between p (wrote canceled) st.trace i b, keeps-rules_of env i n j)))
  ]

  pub follows-stop_invalid :
      (e : Err) (t : List Call)
      → st.trace ≡ validate i (some e) ∷ t
      → follows p (stop_invalid env i j e st).trace ≡ true
  unfolding stop_invalid
  follows-stop_invalid e t q = elim (Bool-cases (keeps_effects env i j)) [
    | inl k ↦ rw k (follows-finish p env j st f _ _ _ (rw q (keeps-rules_of env i n j ∙ k)))
    | inr k ↦
        rw k (follows-finish p env j st f _ _ _ (rw q (ap not (keeps-rules_of env i n j ∙ k))))
  ]

  pub follows-stop_failed :
      (safely not_done : Bool) (e : Err) (t : List Call)
      → st.trace ≡ execute i (raised safely not_done e) ∷ t
      → follows p (stop_failed env i j safely not_done e st).trace ≡ true
  unfolding stop_failed
  follows-stop_failed safely not_done e t q =
      elim (Bool-cases (safely && str_eq j.recovery_of "")) [
        | inl a ↦ rw a (follows-finish p env j st f _ _ _ (rw q (ground (arith))))
        | inr a ↦ elim (Bool-cases (not_done && str_eq j.recovery_of "" && (i == 0))) [
          | inl b ↦ rw (a, b) (follows-finish p env j st f _ _ _ (rw q (ground (arith))))
          | inr b ↦ rw (a, b) (follows-finish p env j st f _ _ _ (rw q (ground (arith))))
        ]
      ]
