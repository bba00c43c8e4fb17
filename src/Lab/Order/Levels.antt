-- ===== src/Lab/Order/Levels.antt =====
-- A graph of internal/app/lab/validate.go without a cycle has an order.
use virmill.Prelude.{
  ℕ, zero, suc, ◌+◌, ◌<◌, String, true, ◌≡◌, refl, sym, ◌∙◌, Option, none, some, List, [], ◌∷◌,
  ◌==◌, str_eq, eq_iff, length, contains, contains-sort, sort, arith, inl, inr, Bool-cases,
  Option-cases,
}
use virmill.Prelude.Table.{lookup}
use virmill.Domain.Error.{Err, Result, ok, err}
use virmill.Domain.Fuel.{and_then}
use virmill.Lab.Order.{
  Graph, Progress, Step, enter_path, leave_path, visit_each, visit_machine, visit, keys, unvisited,
  order_of,
}
use virmill.Lab.Order.Marks.{visit-Grown, order_of-ends}

abbrev pub Refused : Option (Result Progress) → Type 0
Refused o = (e : Err) × (o ≡ some (err e))

and_then-Refused :
    (o : Option (Result Progress)) (next : Progress → Option (Result Progress))
    → Refused (and_then o next)
    → ((p : Progress) → o ≡ some (ok p) → ¬ Refused (next p))
    → Refused o
and_then-Refused none next r n = absurd cc
and_then-Refused (some (err e)) next r n = (e, refl)
and_then-Refused (some (ok p)) next r n = absurd (n p refl r)

module _ (g : Graph) (level : String → ℕ) where
  -- Each machine is above those that it depends on, which are machines.
  abbrev pub IsLevelled : Type 0
  IsLevelled =
      (id d : String) (deps : List String)
      → lookup id g ≡ some deps
      → contains deps d ≡ true
      → (level d < level id) × ((below : List String) × (lookup d g ≡ some below))

  -- The path is above the machine.
  abbrev IsBelow : Progress → String → Type 0
  IsBelow p id = (j : String) → p.seen j ≡ 1 → level id < level j

  abbrev Accepts : ℕ → Type 0
  Accepts fuel =
      (p : Progress) (id : String) (deps : List String)
      → lookup id g ≡ some deps
      → IsBelow p id
      → ¬ Refused (visit fuel g p id)

  visit_each-Accepts :
      (fuel : ℕ) (ds : List String) (p : Progress)
      → Accepts fuel
      → ((d : String)
          → contains ds d ≡ true
          → IsBelow p d × ((below : List String) × (lookup d g ≡ some below)))
      → ¬ Refused (visit_each (visit fuel g) ds p)
  unfolding visit_each
  visit_each-Accepts fuel [] p a k (e, r) = absurd cc
  visit_each-Accepts fuel (d ∷ ds) p a k r =
      let (under, (below, there)) = k d (ground (arith, eq_iff d d)) in
      a p d below there under (
        and_then-Refused (visit fuel g p d) (λ q. visit_each (visit fuel g) ds q) r
          λ q e.
            let grown = visit-Grown fuel g p q d e in
            visit_each-Accepts fuel ds q a λ j c.
              let old = k j (ground arith) in (λ i one. old.0 i ((grown.path i).0 one), old.1))

  visit_machine-Accepts :
      (step : Step) (p : Progress) (id : String) (deps : List String)
      → ¬ Refused (visit_each step (sort deps) (enter_path id p))
      → ¬ Refused (visit_machine step p id (some deps))
  unfolding visit_machine
  visit_machine-Accepts step p id deps n r = n (
      and_then-Refused (visit_each step (sort deps) (enter_path id p))
        (λ q. some (ok (leave_path id q))) r
        λ q e s. let no : some (ok (leave_path id q)) ≡ some (err s.0) = s.1 in absurd cc)

  visit-Accepts : IsLevelled → (fuel : ℕ) → Accepts fuel
  unfolding visit
  visit-Accepts l zero p id deps there under (e, r) = absurd cc
  visit-Accepts l (suc fuel) p id deps there under r = elim (Bool-cases (p.seen id == 1)) [
    | inl one ↦ let self = under id (ground arith) in absurd (omega arith)
    | inr one ↦ elim (Bool-cases (p.seen id == 2)) [
      | inl two ↦ let no : some (ok p) ≡ some (err r.0) = rw (one, two) at r.1 in absurd cc
      | inr two ↦
          visit_machine-Accepts (visit fuel g) p id deps
            (visit_each-Accepts fuel (sort deps) (enter_path id p) (visit-Accepts l fuel) λ d c.
              let (less, known) = l id d deps there (sym (contains-sort d deps) ∙ c) in
              (λ j m. ground (arith, under j, less, eq_iff id j), known))
            (r.0, rw (one, two, there) at r.1)
    ]
  ]

  keys-lookup :
      (t : Graph) (id : String)
      → contains (keys t) id ≡ true
      → (deps : List String) × (lookup id t ≡ some deps)
  unfolding lookup
  keys-lookup [] id c = absurd cc
  keys-lookup ((j, deps) ∷ t) id c = elim (Bool-cases (str_eq j id)) [
    | inl same ↦ (deps, rw same refl)
    | inr other ↦ let (below, there) = keys-lookup t id (rw other at c) in (below, rw other there)
  ]

  -- A graph with levels has an order.
  pub order_of-accepts : IsLevelled → (p : Progress) × (order_of g ≡ some (ok p))
  unfolding order_of
  order_of-accepts l = elim (Option-cases (order_of g)) [
    | inl n ↦ absurd (order_of-ends g n)
    | inr (ok p, e) ↦ (p, e)
    | inr (err x, e) ↦ absurd (
        visit_each-Accepts (length g + 1) (sort (keys g)) unvisited (visit-Accepts l (length g + 1))
          (λ d c.
            (λ j one. absurd (omega arith), keys-lookup g d (sym (contains-sort d (keys g)) ∙ c)))
          (x, e))
  ]
