-- ===== src/Engine/Protocol.antt =====
-- The order in which an accepted job may call its handler and write its state: what `Engine.run`
-- promises, said of the trace alone. A trace has the newest call first.
pub mod History
use virmill.Prelude.{
  ℕ, zero, suc, ◌+◌, Bool, true, false, not, ◌&&◌, ◌||◌, Option, none, some, List, [], ◌∷◌, ltb,
  ◌==◌, ◌≡◌, length,
}
use virmill.Domain.Error.{Err, Result, ok, err}
use virmill.Domain.Job.{
  State, validating, running, verifying, succeeded, failed, canceled, recovery_required,
}
use virmill.Engine.Run.{Call, wrote, unwritten, validate, execute, reconcile, Outcome, done, raised}

-- Is the job a recovery, does its workflow keep completed effects, and how many steps has it?
pub record Rules : Type 0 where
  pub recovery : Bool
  pub retains : Bool
  pub steps : ℕ

-- Locks are kept at step `i`, because an effect of before may stand.
abbrev pub keeps : Rules → ℕ → Bool
keeps p i = p.recovery || (p.retains && ltb 0 i)

-- The number of steps that are confirmed, between two steps.
abbrev pub boundary : List Call → Option ℕ
boundary [] = some 0
boundary (reconcile k (ok true) ∷ t) = some (k + 1)
boundary _ = none

-- What may come between two steps, after `i` of them
abbrev pub between : Rules → ℕ → Call → Bool
between p i (wrote validating) = true
between p i (wrote canceled) = not (keeps p i)
between p i (wrote recovery_required) = keeps p i
between p i (wrote succeeded) = i == p.steps
between p i unwritten = true
between p i _ = false

-- The state that a failed effect may leave: only where the handler vouches for it are locks given up.
abbrev pub settles : Rules → ℕ → Bool → Bool → State → Bool
settles p i safely not_done canceled = safely && not p.recovery
settles p i safely not_done failed =
    not (safely && not p.recovery) && not_done && not p.recovery && (i == 0)
settles p i safely not_done recovery_required =
    not (safely && not p.recovery) && not (not_done && not p.recovery && (i == 0))
settles p i safely not_done _ = false

abbrev is_at : ℕ → Option ℕ → Bool
is_at i none = false
is_at i (some k) = k == i

-- What may come within a step
abbrev pub inside : Rules → Call → List Call → Bool
inside p (validate i a) (wrote validating ∷ t) = is_at i (boundary t) && ltb i p.steps
inside p (wrote running) (validate i none ∷ t) = true
inside p (wrote failed) (validate i (some e) ∷ t) = not (keeps p i)
inside p (wrote recovery_required) (validate i (some e) ∷ t) = keeps p i
inside p (execute i o) (wrote running ∷ validate k none ∷ t) = k == i
inside p (wrote verifying) (execute i done ∷ t) = true
inside p (wrote s) (execute i (raised safely not_done e) ∷ t) = settles p i safely not_done s
inside p (reconcile i a) (wrote verifying ∷ execute k done ∷ t) = k == i
inside p (wrote recovery_required) (reconcile i (ok false) ∷ t) = true
inside p (wrote recovery_required) (reconcile i (err e) ∷ t) = true
inside p unwritten t = true
inside p _ _ = false

abbrev pub may : Rules → Call → List Call → Bool
may p c t = elim (boundary t) [ some i ↦ between p i c | none ↦ inside p c t ]

abbrev pub follows : Rules → List Call → Bool
follows p [] = true
follows p (c ∷ t) = may p c t && follows p t
