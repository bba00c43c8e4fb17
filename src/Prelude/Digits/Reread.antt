-- ===== src/Prelude/Digits/Reread.antt =====
-- A number that is printed is read back.
use Prim.Native.Nat.{ℕ, zero, suc, ◌+◌, ◌-◌, ◌*◌, ◌/◌, ◌%◌, ◌≤◌, ◌<◌}
use mathlib.Core.Path.{◌≡◌, refl, ap, ◌∙◌}
use mathlib.Core.Logic.{inl, inr}
use mathlib.Core.Bool.{true, false}
use mathlib.Core.Option.{some}
use mathlib.Core.List.{List, [], ◌∷◌}
use native.Mathlib.Omega.{arith}
use virmill.Prelude.Tests.{ltb, leb, ◌==◌, Bool-cases}
use virmill.Prelude.Digits.{is_digit, more_digits, decimal, print_decimal}

-- The greatest number of as many digits, and one more
abbrev pub below_digits : ℕ → ℕ
below_digits zero = 1
below_digits (suc f) = 10 * below_digits f

-- The text does not go on with a digit.
abbrev pub Stops : List ℕ → Type 0
Stops [] = Unit
Stops (c ∷ cs) = is_digit c ≡ false

more_digits-stop : (max n : ℕ) (acc : List ℕ) → Stops acc → more_digits max n acc ≡ some (n, acc)
unfolding more_digits
more_digits-stop max n [] h = refl
more_digits-stop max n (c ∷ cs) h = rw h refl

decimal-digit :
    (max n : ℕ) (cs : List ℕ)
    → n < 10
    → 0 < n
    → decimal max ((b'0' + n) ∷ cs) ≡ more_digits max n cs
unfolding decimal
decimal-digit max n cs t p =
    let digit : is_digit (b'0' + n) ≡ true = ground (arith, t) in
    let positive : (b'0' + n == b'0') ≡ false = ground (arith, p) in
    let value : (b'0' + n) - b'0' ≡ n = omega arith in rw (digit, positive, value) refl

more_digits-digit :
    (max k d : ℕ) (cs : List ℕ)
    → d < 10
    → k * 10 + d ≤ max
    → more_digits max k ((b'0' + d) ∷ cs) ≡ more_digits max (k * 10 + d) cs
unfolding more_digits
more_digits-digit max k d cs t m =
    let digit : is_digit (b'0' + d) ≡ true = ground (arith, t) in
    let value : k * 10 + ((b'0' + d) - b'0') ≡ k * 10 + d = omega arith in
    let fits : leb (k * 10 + d) max ≡ true = ground (arith, m) in rw (digit, value, fits) refl

decimal-print :
    (fuel max n : ℕ) (acc : List ℕ)
    → n < below_digits fuel
    → 0 < n
    → n ≤ max
    → decimal max (print_decimal fuel n acc) ≡ more_digits max n acc
unfolding print_decimal
decimal-print zero max n acc b p m = absurd (omega arith)
decimal-print (suc fuel) max n acc b p m = elim (Bool-cases (ltb n 10)) [
  | inl small ↦ rw small (decimal-digit max n acc (ground arith) p)
  | inr big ↦
      let ten : 10 ≤ n = ground arith in
      let whole : n / 10 * 10 + n % 10 ≡ n = omega arith in
      let above =
        decimal-print fuel max (n / 10) ((b'0' + n % 10) ∷ acc) (omega arith) (omega arith)
          (omega arith) in
      let last = more_digits-digit max (n / 10) (n % 10) acc (omega arith) (omega arith) in
      rw big (above ∙ last ∙ ap (λ k. more_digits max k acc) whole)
]

zero_text : (max : ℕ) (acc : List ℕ) → Stops acc → decimal max (b'0' ∷ acc) ≡ some (0, acc)
unfolding decimal
zero_text max [] h = refl
zero_text max (c ∷ cs) h = rw h refl

-- A number that is printed in front of a text is read back, and what follows it is left.
pub decimal-print_decimal :
    (fuel max n : ℕ) (acc : List ℕ)
    → n < below_digits (suc fuel)
    → n ≤ max
    → Stops acc
    → decimal max (print_decimal (suc fuel) n acc) ≡ some (n, acc)
unfolding print_decimal
decimal-print_decimal fuel max zero acc b m h = zero_text max acc h
decimal-print_decimal fuel max (suc n) acc b m h =
    decimal-print (suc fuel) max (suc n) acc b (omega arith) m ∙ more_digits-stop max (suc n) acc h
