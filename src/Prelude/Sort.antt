-- ===== src/Prelude/Sort.antt =====
-- `sort.Strings`: the order of texts by their bytes.
use Prim.Native.Nat.{Ordering}
use Prim.Native.String.{String, compare}
use mathlib.Core.Path.{◌≡◌, refl}
use mathlib.Core.Bool.{Bool, true, false, ◌||◌}
use mathlib.Core.List.{List, [], ◌∷◌}
use native.Mathlib.Omega.{arith}
use text.Mathlib.Text.{◌==◌}
use virmill.Prelude.Tests.{if◌then◌else◌}
use virmill.Prelude.Lists.{contains}

str_leb : String → String → Bool
str_leb a b = elim (compare a b) [ Ordering.gt ↦ false | _ ↦ true ]

place : String → List String → List String
place a [] = a ∷ []
place a (b ∷ bs) = let rest = place a bs in if str_leb a b then a ∷ b ∷ bs else b ∷ rest

unfoldable pub sort : List String → List String
unfolding place str_leb
sort [] = []
sort (a ∷ as') = place a (sort as')

||_swap : (a b c : Bool) → (a || (b || c)) ≡ (b || (a || c))
||_swap true true c = refl
||_swap true false c = refl
||_swap false b c = refl

contains-place :
    (q a : String) (bs : List String) → contains (place a bs) q ≡ (a == q || contains bs q)
unfolding place
contains-place q a [] = refl
contains-place q a (b ∷ bs) =
    ground (arith, contains-place q a bs, ||_swap (a == q) (b == q) (contains bs q))

-- Sorting keeps the set of the texts.
pub contains-sort : (q : String) (as' : List String) → contains (sort as') q ≡ contains as' q
unfolding sort
contains-sort q [] = refl
contains-sort q (a ∷ as') = ground (arith, contains-place q a (sort as'), contains-sort q as')
