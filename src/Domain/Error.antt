-- ===== src/Domain/Error.antt =====
-- Errors of internal/domain/domain.go. Of an error the code is kept and the text is not. An
-- operation that may fail returns a `Result`.
use virmill.Prelude.{
  Bool, true, false, if◌then◌else◌, ℕ, String, ◌≡◌, refl, ◌⊎◌, inl, inr, Option, none, some,
}

-- The codes that the modelled code raises or tells apart; any other is `other`.
pub data Code : Type 0 where
  invalid_input unsupported_capability not_implemented : Code
  permission_required permission_denied : Code
  stale_plan resource_busy idempotency_conflict : Code
  partial_apply recovery_required wait_timeout client_interrupted : Code
  source_changed operation_failed cidr_conflict : Code
  other : String → Code

-- `fail` is a `*domain.Error`; the others are plain errors: a query without a row, a refused
-- constraint of the database, a fault of the storage, and `errors.New`.
pub data Err : Type 0 where
  fail : Code → Err
  no_rows constraint storage plain : Err

-- A Go call's value or its error
pub data Result {ℓ} (V : Type ℓ) : Type ℓ where
  err : Err → Result V
  ok : V → Result V

-- `if err != nil { return err }`
infixl 5 ◌>>◌ ◌>>=◌
abbrev pub ◌>>=◌ {ℓ κ} : {V : Type ℓ} {W : Type κ} → Result V → (V → Result W) → Result W
r >>= next = elim r [ err e ↦ err e | ok v ↦ next v ]

abbrev pub ◌>>◌ {ℓ} : {W : Type ℓ} → Result (Unit {0}) → Result W → Result W
check >> rest = check >>= λ done. rest

-- An absent value is the error `e`.
abbrev pub or_err {ℓ} : {A : Type ℓ} → Option A → Err → Result A
or_err none e = err e
or_err (some a) e = ok a

-- To split on a computed result and keep the equation.
pub Result-cases {ℓ} :
    {A : Type ℓ} (r : Result A) → ((a : A) × (r ≡ ok a)) ⊎ ((e : Err) × (r ≡ err e))
Result-cases (ok a) = inl (a, refl)
Result-cases (err e) = inr (e, refl)

pub ok_inj {ℓ} : {A : Type ℓ} (a b : A) → ok a ≡ ok b → a ≡ b
ok_inj a b h = cc

pub err≢ok {ℓ} : {A : Type ℓ} (e : Err) (a : A) → err e ≡ ok a → ⊥
err≢ok e a h = absurd cc

-- A call that returns has had the value of the call before.
pub bind_ok {ℓ κ} :
    {A : Type ℓ} {B : Type κ} (r : Result A) (next : A → Result B) (b : B)
    → (r >>= next) ≡ ok b
    → (a : A) × (r ≡ ok a) × (next a ≡ ok b)
bind_ok (ok a) next b h = (a, refl, h)
bind_ok (err e) next b h = absurd (err≢ok e b h)

pub then_ok {ℓ} :
    {B : Type ℓ} (check : Result (Unit {0})) (next : Result B) (b : B)
    → (check >> next) ≡ ok b
    → (check ≡ ok tt) × (next ≡ ok b)
then_ok (ok tt) next b h = (refl, h)
then_ok (err e) next b h = absurd (err≢ok e b h)

-- A guard that did not return
pub guard_ok {ℓ} :
    {A : Type ℓ} (b : Bool) (e : Err) (r : Result A) (a : A)
    → (if b then err e else r) ≡ ok a
    → (b ≡ false) × (r ≡ ok a)
guard_ok true e r a h = absurd (err≢ok e a h)
guard_ok false e r a h = (refl, h)

pub require_ok {ℓ} :
    {A : Type ℓ} (b : Bool) (e : Err) (r : Result A) (a : A)
    → (if b then r else err e) ≡ ok a
    → (b ≡ true) × (r ≡ ok a)
require_ok true e r a h = (refl, h)
require_ok false e r a h = absurd (err≢ok e a h)

code_exit : Code → ℕ
code_exit Code.invalid_input = 2
code_exit Code.unsupported_capability = 3
code_exit Code.not_implemented = 3
code_exit Code.permission_required = 4
code_exit Code.permission_denied = 4
code_exit Code.stale_plan = 5
code_exit Code.resource_busy = 5
code_exit Code.idempotency_conflict = 5
code_exit Code.partial_apply = 6
code_exit Code.recovery_required = 6
code_exit Code.wait_timeout = 7
code_exit Code.client_interrupted = 130
code_exit _ = 1

-- `ExitCode`; no error is `none`.
unfoldable pub exit_code : Option Err → ℕ
unfolding code_exit
exit_code none = 0
exit_code (some (fail c)) = code_exit c
exit_code (some _) = 1
