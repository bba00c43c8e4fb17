-- ===== src/Prelude/Pattern.antt =====
-- Regular expressions of a fixed length, `regexp.MatchString` between `^` and `$`, and hexadecimal
-- texts, `hex.DecodeString`
use Prim.Native.Nat.{ℕ, zero, suc, ◌+◌, ◌-◌, ◌*◌}
use mathlib.Core.Bool.{Bool, true, false, ◌&&◌, ◌||◌}
use mathlib.Core.Option.{Option, none, some}
use mathlib.Core.List.{List, [], ◌∷◌}
use virmill.Prelude.Tests.{leb, ◌==◌, if◌then◌else◌}

abbrev pub Pattern : Type 0
Pattern = List (ℕ → Bool)

-- A text fits a pattern if it is as long and each of its code points is in the class at its place.
unfoldable pub fits : Pattern → List ℕ → Bool
fits [] [] = true
fits (class ∷ rest) (c ∷ cs) = class c && fits rest cs
fits _ _ = false

abbrev pub times : ℕ → (ℕ → Bool) → Pattern → Pattern
times zero class rest = rest
times (suc n) class rest = class ∷ times n class rest

-- `[0-9a-f]`
abbrev pub is_hex : ℕ → Bool
is_hex c = (leb b'0' c && leb c b'9') || (leb b'a' c && leb c b'f')

-- Five groups of hexadecimal digits, the third and the fourth with a class for their first
abbrev pub five_groups : (ℕ → Bool) → (ℕ → Bool) → Pattern
five_groups third fourth = times 8 is_hex (
    times 1 (λ c. c == b'-')
      (times 4 is_hex (
        times 1 (λ c. c == b'-')
          (times 1 third (
            times 3 is_hex (
              times 1 (λ c. c == b'-')
                (times 1 fourth
                  (times 3 is_hex (times 1 (λ c. c == b'-') (times 12 is_hex []))))))))))

-- The value of a hexadecimal digit
digit_of : ℕ → Option ℕ
digit_of c =
    if leb b'0' c && leb c b'9'
    then some (c - b'0')
    else if leb b'a' c && leb c b'f'
    then some (c - b'a' + 10)
    else if leb b'A' c && leb c b'F'
    then some (c - b'A' + 10)
    else none

joined : Option ℕ → Option ℕ → Option (List ℕ) → Option (List ℕ)
joined (some h) (some l) (some bs) = some ((h * 16 + l) ∷ bs)
joined _ _ _ = none

-- `hex.DecodeString`; the error is `none`.
unfoldable pub hex_decode : List ℕ → Option (List ℕ)
unfolding digit_of joined
hex_decode [] = some []
hex_decode (c ∷ []) = none
hex_decode (c ∷ d ∷ cs) = joined (digit_of c) (digit_of d) (hex_decode cs)
