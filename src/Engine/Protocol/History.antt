-- ===== src/Engine/Protocol/History.antt =====
-- What a trace within the protocol tells of the past.
use mathlib.Core.Path.{subst}
use virmill.Prelude.{
  ℕ, zero, suc, ◌<◌, Bool, true, false, ◌&&◌, Option, none, some, List, [], ◌∷◌, ◌++◌, ◌≡◌, arith,
  drop, ◌⊎◌,
}
use virmill.Domain.Error.{Err, Result, ok}
use virmill.Domain.Job.{State, validating, running, verifying, succeeded}
use virmill.Store.Write.{gives_up_locks}
use virmill.Engine.Run.{Call, wrote, validate, execute, reconcile, Outcome, done, raised}
use virmill.Engine.Protocol.{Rules, boundary, follows, may}

reconcile_inv :
    (p : Rules) (k : ℕ) (a : Result Bool) (t : List Call)
    → may p (reconcile k a) t ≡ true
    → t ≡ wrote verifying ∷ execute k done ∷ drop 2 t
reconcile_inv p k a (wrote verifying ∷ execute k' done ∷ t) m = ground arith
reconcile_inv p k a t m = ground arith

execute_inv :
    (p : Rules) (k : ℕ) (o : Outcome) (t : List Call)
    → may p (execute k o) t ≡ true
    → t ≡ wrote running ∷ validate k none ∷ drop 2 t
execute_inv p k o (wrote running ∷ validate k' none ∷ t) m = ground arith
execute_inv p k o t m = ground arith

validate_inv :
    (p : Rules) (k : ℕ) (a : Option Err) (t : List Call)
    → may p (validate k a) t ≡ true
    → (t ≡ wrote validating ∷ drop 1 t) × (boundary (drop 1 t) ≡ some k) × (k < p.steps)
validate_inv p k a (wrote validating ∷ t) m = ground arith
validate_inv p k a t m = ground arith

boundary_inv :
    (t : List Call) (i : ℕ) → boundary t ≡ some (suc i) → t ≡ reconcile i (ok true) ∷ drop 1 t
boundary_inv (reconcile k (ok true) ∷ t) i b = ground arith
boundary_inv t i b = ground arith

boundary_start : (t : List Call) → boundary t ≡ some 0 → t ≡ []
boundary_start (reconcile k (ok true) ∷ t) b = ground arith
boundary_start t b = ground arith

-- The trace of `i` whole steps, the newest call first
abbrev pub whole : ℕ → List Call
whole zero = []
whole (suc i) =
    reconcile i (ok true)
    ∷ wrote verifying
    ∷ execute i done
    ∷ wrote running
    ∷ validate i none
    ∷ wrote validating
    ∷ whole i

&&_left : (a b : Bool) → (a && b) ≡ true → a ≡ true
&&_left a b h = ground arith

&&_right : (a b : Bool) → (a && b) ≡ true → b ≡ true
&&_right a b h = ground arith

module _ (p : Rules) where
  follows_head : (c : Call) (t : List Call) → follows p (c ∷ t) ≡ true → may p c t ≡ true
  follows_head c t f = &&_left (may p c t) (follows p t) f

  pub follows_tail : (c : Call) (t : List Call) → follows p (c ∷ t) ≡ true → follows p t ≡ true
  follows_tail c t f = &&_right (may p c t) (follows p t) f

  follows_by : {t u : List Call} → t ≡ u → follows p t ≡ true → follows p u ≡ true
  follows_by e f = subst (λ v. follows p v ≡ true) e f

  -- Under an effect stand the intent, the validation, and whole steps up to a boundary.
  under_execute :
      (i : ℕ) (o : Outcome) (t : List Call)
      → follows p (execute i o ∷ t) ≡ true
      → (u : List Call) × (t ≡ wrote running ∷ validate i none ∷ wrote validating ∷ u)
        × (follows p u ≡ true)
        × (boundary u ≡ some i)
        × (i < p.steps)
  under_execute i o t f =
      let e1 = execute_inv p i o t (follows_head (execute i o) t f) in
      let f1 : follows p (wrote running ∷ validate i none ∷ drop 2 t) ≡ true =
        follows_by e1 (follows_tail (execute i o) t f) in
      let f2 = follows_tail (wrote running) (validate i none ∷ drop 2 t) f1 in
      let (e2, b, lt) =
        validate_inv p i none (drop 2 t) (follows_head (validate i none) (drop 2 t) f2) in
      let f3 : follows p (wrote validating ∷ drop 1 (drop 2 t)) ≡ true =
        follows_by e2 (follows_tail (validate i none) (drop 2 t) f2) in
      (drop 1 (drop 2 t), cc, follows_tail (wrote validating) (drop 1 (drop 2 t)) f3, b, lt)

  -- A trace within the protocol that stands between two steps is the trace of whole steps.
  pub boundary-whole :
      (i : ℕ) (t : List Call) → follows p t ≡ true → boundary t ≡ some i → t ≡ whole i
  boundary-whole zero t f b = boundary_start t b
  boundary-whole (suc i) t f b =
      let e1 = boundary_inv t i b in
      let f1 : follows p (reconcile i (ok true) ∷ drop 1 t) ≡ true = follows_by e1 f in
      let e2 =
        reconcile_inv p i (ok true) (drop 1 t)
          (follows_head (reconcile i (ok true)) (drop 1 t) f1) in
      let f2 : follows p (wrote verifying ∷ execute i done ∷ drop 2 (drop 1 t)) ≡ true =
        follows_by e2 (follows_tail (reconcile i (ok true)) (drop 1 t) f1) in
      let f3 = follows_tail (wrote verifying) (execute i done ∷ drop 2 (drop 1 t)) f2 in
      let (u, e3, f4, b', lt) = under_execute i done (drop 2 (drop 1 t)) f3 in
      cc (boundary-whole i u f4 b')

  -- What came before an effect.
  pub execute-whole :
      (i : ℕ) (o : Outcome) (t : List Call)
      → follows p (execute i o ∷ t) ≡ true
      → (t ≡ wrote running ∷ validate i none ∷ wrote validating ∷ whole i) × (i < p.steps)
  execute-whole i o t f =
      let (u, e, f', b, lt) = under_execute i o t f in (cc (boundary-whole i u f' b), lt)

  pub follows_later : (later t : List Call) → follows p (later ++ t) ≡ true → follows p t ≡ true
  follows_later [] t f = f
  follows_later (c ∷ later) t f = follows_later later t (follows_tail c (later ++ t) f)

  succeeded_inv : (t : List Call) → may p (wrote succeeded) t ≡ true → boundary t ≡ some p.steps
  succeeded_inv (reconcile k (ok true) ∷ t) m = ground arith
  succeeded_inv (execute k (raised a b e) ∷ t) m = ground arith
  succeeded_inv t m = ground arith

  pub succeeded-whole : (t : List Call) → follows p (wrote succeeded ∷ t) ≡ true → t ≡ whole p.steps
  succeeded-whole t f =
      boundary-whole p.steps t (follows_tail (wrote succeeded) t f)
        (succeeded_inv t (follows_head (wrote succeeded) t f))

  -- After a failed effect, locks are given up only where the handler vouches for it.
  pub failed_effect :
      (s : State) (i : ℕ) (safely not_done : Bool) (e : Err) (t : List Call)
      → follows p (wrote s ∷ execute i (raised safely not_done e) ∷ t) ≡ true
      → gives_up_locks s ≡ true
      → (p.recovery ≡ false) × ((safely ≡ true) ⊎ ((not_done ≡ true) × (i ≡ 0)))
  unfolding gives_up_locks
  failed_effect s i safely not_done e t f g =
      ground (arith, follows_head (wrote s) (execute i (raised safely not_done e) ∷ t) f)
