-- ===== src/Engine/Run/Safety.antt =====
-- What the protocol gives for a run of an accepted job from its first step.
use mathlib.Core.Path.{subst}
use virmill.Prelude.{
  ℕ, ◌<◌, Bool, true, none, List, [], ◌∷◌, ◌++◌, ◌≡◌, ◌⊎◌, refl, length, arith, eq_iff,
}
use virmill.Domain.Error.{Err}
use virmill.Domain.Plan.{Step}
use virmill.Domain.Job.{Job, State, succeeded, validating, running}
use virmill.Store.Db.{Db}
use virmill.Store.Write.{gives_up_locks}
use virmill.Engine.Run.{Env, Run, Call, wrote, validate, execute, Outcome, raised, run}
use virmill.Engine.Run.Stages.{rules_of}
use virmill.Engine.Run.Refinement.{follows-run}
use virmill.Engine.Protocol.{follows}
use virmill.Engine.Protocol.History.{
  whole, follows_later, execute-whole, succeeded-whole, failed_effect,
}

-- A goroutine starts with the journal as it is, and no call made.
abbrev pub start : Db → Run
start db = record { db = db; trace = [] }

module _ (env : Env) (steps : List Step) (j : Job) (db : Db) where
  -- Whatever the handler answers, whatever other goroutines write, and whenever the database fails,
  -- the calls of a run follow the protocol of its job.
  pub run-follows :
      follows (rules_of env j (length steps)) (run env steps 0 j (start db)).trace ≡ true
  run-follows = follows-run env steps 0 (length steps) j (start db) refl refl (omega arith)

  traced :
      {t : List Call}
      → (run env steps 0 j (start db)).trace ≡ t
      → follows (rules_of env j (length steps)) t ≡ true
  traced e = subst (λ u. follows (rules_of env j (length steps)) u ≡ true) e run-follows

  -- Where a run executes step `i`, the calls before it are exactly: each earlier step validated,
  -- executed once and confirmed, then step `i` validated and its intent written.
  pub run-execute :
      (later t : List Call) (i : ℕ) (o : Outcome)
      → (run env steps 0 j (start db)).trace ≡ later ++ execute i o ∷ t
      → (t ≡ wrote running ∷ validate i none ∷ wrote validating ∷ whole i) × (i < length steps)
  run-execute later t i o e =
      execute-whole (rules_of env j (length steps)) i o t
        (follows_later (rules_of env j (length steps)) later (execute i o ∷ t) (traced e))

  -- A run that records success has validated, executed once and confirmed each step, in order.
  pub run-succeeded :
      (t : List Call)
      → (run env steps 0 j (start db)).trace ≡ wrote succeeded ∷ t
      → t ≡ whole (length steps)
  run-succeeded t e = succeeded-whole (rules_of env j (length steps)) t (traced e)

  -- After a failed effect a run gives the locks up only if the job is no recovery and the handler
  -- vouches for it: canceled safely, or not done at the first step.
  pub run-failed_effect :
      (s : State) (i : ℕ) (safely not_done : Bool) (e : Err) (t : List Call)
      → (run env steps 0 j (start db)).trace ≡ wrote s ∷ execute i (raised safely not_done e) ∷ t
      → gives_up_locks s ≡ true
      → (j.recovery_of ≡ "") × ((safely ≡ true) ⊎ ((not_done ≡ true) × (i ≡ 0)))
  run-failed_effect s i safely not_done e t h g =
      let (kind, vouched) =
        failed_effect (rules_of env j (length steps)) s i safely not_done e t (traced h) g in
      (ground (arith, kind, eq_iff j.recovery_of ""), vouched)
