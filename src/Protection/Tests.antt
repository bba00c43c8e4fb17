-- ===== src/Protection/Tests.antt =====
-- The minutes of a schedule, at two terms
use virmill.Prelude.{◌≡◌, ◌↔◌, refl, true, false, some, [], ◌∷◌, arith}
use virmill.Prelude.Digits.{codes}
use virmill.Protection.Cron.{PolicyField, Bounds, parse_field, is_set, split}
use virmill.Protection.Cron.Selection.{Selected, parse_field-is_set}

abbrev minutes : Bounds
minutes = record { low = 0; high = 59; names = [] }

abbrev twice : PolicyField
twice = record { bits = 5 ∷ 10 ∷ 30 ∷ 50 ∷ []; star = false }

parsed : parse_field (codes "5,10-59/20") minutes ≡ some twice
unfolding parse_field
parsed = refl

parse_field-is_set_example :
    (is_set twice 30 ≡ true) ↔ Selected minutes (split b',' (codes "5,10-59/20")) 30
parse_field-is_set_example =
    parse_field-is_set (codes "5,10-59/20") minutes twice 30 (omega arith, omega arith) parsed
