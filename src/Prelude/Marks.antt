-- ===== src/Prelude/Marks.antt =====
-- The marks of a depth-first search over a table: 1 on the path, 2 done.
use Prim.Native.Nat.{ℕ, ◌+◌, ◌≤◌, ◌<◌}
use Prim.Native.String.{String}
use mathlib.Core.Path.{◌≡◌, sym, subst, ◌∙◌}
use mathlib.Core.Logic.{◌≢◌, inl, inr}
use mathlib.Core.Bool.{false, ◌||◌}
use mathlib.Core.Option.{some}
use mathlib.Core.List.{[], ◌∷◌}
use native.Mathlib.Omega.{arith}
use text.Mathlib.Text.{◌==◌ as str_eq}
use text.Mathlib.TextEquality.{eq_iff}
use virmill.Prelude.Tests.{if◌then◌else◌, ◌==◌, Bool-cases}
use virmill.Prelude.Lists.{length}
use virmill.Prelude.Table.{Table, lookup}

abbrev pub Seen : Type 0
Seen = String → ℕ

abbrev pub mark : String → ℕ → Seen → Seen
mark id n seen j = if str_eq id j then n else seen j

pub mark-same : (id : String) (n : ℕ) (seen : Seen) → mark id n seen id ≡ n
mark-same id n seen = ground (arith, eq_iff id id)

pub mark-other :
    (id j : String) (n : ℕ) (seen : Seen) → str_eq j id ≡ false → mark id n seen j ≡ seen j
mark-other id j n seen h = ground (arith, eq_iff id j, eq_iff j id)

-- What is done stays done under a mark of what is not.
pub mark-keeps : (id j : String) (seen : Seen) → seen id ≢ 2 → seen j ≡ 2 → mark id 1 seen j ≡ 2
mark-keeps id j seen n e = elim (Bool-cases (str_eq j id)) [
  | inl t ↦ let same : j ≡ id = (eq_iff j id).0 t in absurd (n (subst (λ x. seen x ≡ 2) same e))
  | inr f ↦ mark-other id j 1 seen f ∙ e
]

pub mark_done-keeps : (id j : String) (seen : Seen) → seen j ≡ 2 → mark id 2 seen j ≡ 2
mark_done-keeps id j seen e = ground arith

module _ {ℓ} {V : Type ℓ} where
  -- The rows whose keys are not marked
  unfoldable pub open_rows : Seen → Table V → ℕ
  open_rows seen [] = 0
  open_rows seen ((id, v) ∷ g) =
      if seen id == 1 || seen id == 2 then open_rows seen g else open_rows seen g + 1

  pub open_rows-length : (seen : Seen) (g : Table V) → open_rows seen g ≤ length g
  unfolding open_rows
  open_rows-length seen [] = omega arith
  open_rows-length seen ((id, v) ∷ g) = ground (arith, open_rows-length seen g)

  -- A mark opens no row.
  pub open_rows-mark :
      (id : String) (seen : Seen) (g : Table V) → open_rows (mark id 1 seen) g ≤ open_rows seen g
  unfolding open_rows
  open_rows-mark id seen [] = omega arith
  open_rows-mark id seen ((j, v) ∷ g) = ground (arith, open_rows-mark id seen g)

  -- The mark of an open row closes it.
  pub open_rows-closed :
      (id : String) (v : V) (seen : Seen) (g : Table V)
      → lookup id g ≡ some v
      → seen id ≢ 1
      → seen id ≢ 2
      → open_rows (mark id 1 seen) g < open_rows seen g
  unfolding open_rows lookup
  open_rows-closed id v seen [] h n m = absurd cc
  open_rows-closed id v seen ((j, w) ∷ g) h n m = elim (Bool-cases (str_eq j id)) [
    | inl e ↦
        let same : j ≡ id = (eq_iff j id).0 e in
        let le = open_rows-mark id seen g in
        let marked : mark id 1 seen j ≡ 1 = rw same (mark-same id 1 seen) in
        let fresh : seen j ≢ 1 = subst (λ x. seen x ≢ 1) (sym same) n in
        let fresh2 : seen j ≢ 2 = subst (λ x. seen x ≢ 2) (sym same) m in
        rw marked (ground (arith, le, fresh, fresh2))
    | inr e ↦
        let other : mark id 1 seen j ≡ seen j = mark-other id j 1 seen e in
        let less = open_rows-closed id v seen g (rw e at h) n m in rw other (ground (arith, less))
  ]

  -- More marks leave no more rows open.
  pub open_rows-grown :
      (seen seen' : Seen) (g : Table V)
      → ((j : String) → seen j ≡ 1 → seen' j ≡ 1)
      → ((j : String) → seen j ≡ 2 → seen' j ≡ 2)
      → open_rows seen' g ≤ open_rows seen g
  unfolding open_rows
  open_rows-grown seen seen' [] one two = omega arith
  open_rows-grown seen seen' ((j, v) ∷ g) one two =
      ground (arith, open_rows-grown seen seen' g one two, one j, two j)
