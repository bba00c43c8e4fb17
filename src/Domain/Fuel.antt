-- ===== src/Domain/Fuel.antt =====
-- A recursion on fuel returns `none` where the fuel runs out, and a result elsewhere.
use virmill.Prelude.{Option, none, some, ◌≡◌, ◌≢◌, refl}
use virmill.Domain.Error.{Err, Result, ok, err}

-- `if err != nil { return err }` behind such a call
abbrev pub and_then {ℓ κ} :
    {A : Type ℓ} {B : Type κ} → Option (Result A) → (A → Option (Result B)) → Option (Result B)
and_then none next = none
and_then (some (err e)) next = some (err e)
and_then (some (ok a)) next = next a

pub some_ok {ℓ} : {A : Type ℓ} (a b : A) → some (ok a) ≡ some (ok b) → a ≡ b
some_ok a b h = cc

pub some_err {ℓ} : {A : Type ℓ} (e : Err) (a : A) → some (err e) ≡ some (ok a) → ⊥
some_err e a h = absurd cc

module _ {ℓ κ} {A : Type ℓ} {B : Type κ} where
  pub and_then_ok :
      (o : Option (Result A)) (next : A → Option (Result B)) (b : B)
      → and_then o next ≡ some (ok b)
      → (a : A) × (o ≡ some (ok a)) × (next a ≡ some (ok b))
  and_then_ok none next b h = absurd cc
  and_then_ok (some (err e)) next b h = absurd (some_err e b h)
  and_then_ok (some (ok a)) next b h = (a, refl, h)

  pub and_then-ends :
      (o : Option (Result A)) (next : A → Option (Result B))
      → o ≢ none
      → ((a : A) → o ≡ some (ok a) → next a ≢ none)
      → and_then o next ≢ none
  and_then-ends none next h n e = h refl
  and_then-ends (some (err x)) next h n e = absurd cc
  and_then-ends (some (ok a)) next h n e = n a refl e
