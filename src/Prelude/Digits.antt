-- ===== src/Prelude/Digits.antt =====
-- Texts as code points, and decimal numbers at their front, read and printed
pub mod Reread
use Prim.Native.Nat.{ℕ, zero, suc, ◌+◌, ◌-◌, ◌*◌, ◌/◌, ◌%◌}
use Prim.Native.String.{String}
use Prim.Native.Char.{code}
use mathlib.Core.Bool.{Bool, not, ◌&&◌}
use mathlib.Core.Option.{Option, none, some}
use mathlib.Core.List.{List, [], ◌∷◌}
use virmill.Prelude.Tests.{ltb, leb, ◌==◌, if◌then◌else◌}

-- The code points of a text
abbrev pub codes : String → List ℕ
codes String.[] = []
codes (String.◌∷◌ c s) = code c ∷ codes s

abbrev pub is_digit : ℕ → Bool
is_digit c = leb b'0' c && leb c b'9'

-- The digits at the front of a text, of value at most `max`, after the number `n` so far.
more_digits : ℕ → ℕ → List ℕ → Option (ℕ × List ℕ)
more_digits max n [] = some (n, [])
more_digits max n (c ∷ cs) =
    let m = n * 10 + (c - b'0') in
    let rest = more_digits max m cs in
    if is_digit c then (if leb m max then rest else none) else some (n, c ∷ cs)

-- A decimal number at the front, at most `max` and with no leading zero
unfoldable pub decimal : ℕ → List ℕ → Option (ℕ × List ℕ)
unfolding more_digits
decimal max [] = none
decimal max (c ∷ cs) =
    let rest = more_digits max (c - b'0') cs in
    let alone : Option (ℕ × List ℕ) = elim cs [
      | [] ↦ some (0, [])
      | d ∷ ds ↦ if is_digit d then none else some (0, d ∷ ds)
    ] in
    if not (is_digit c) then none else if c == b'0' then alone else rest

-- The digits of a number in front of a text, with fuel for as many digits
unfoldable pub print_decimal : ℕ → ℕ → List ℕ → List ℕ
print_decimal zero n acc = acc
print_decimal (suc fuel) n acc =
    let rest = print_decimal fuel (n / 10) ((b'0' + n % 10) ∷ acc) in
    if ltb n 10 then (b'0' + n) ∷ acc else rest
