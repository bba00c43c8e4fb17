-- ===== src/Lab/Order/Marks.antt =====
-- The marks that a visit of internal/app/lab/validate.go leaves, and its fuel, which is enough
use virmill.Prelude.{
  ℕ, zero, suc, ◌+◌, ◌<◌, String, ◌≡◌, ◌≢◌, ◌↔◌, ◌⊎◌, refl, Option, none, some, List, [], ◌∷◌, ◌==◌,
  eq_iff, length, sort, arith, inl, inr, Bool-cases, subst,
}
use virmill.Prelude.Table.{lookup}
use virmill.Prelude.Marks.{
  open_rows, open_rows-length, open_rows-closed, open_rows-grown, mark-keeps, mark_done-keeps,
}
use virmill.Domain.Error.{ok, err, plain}
use virmill.Domain.Fuel.{and_then_ok, and_then-ends, some_ok, some_err}
use virmill.Lab.Order.{
  Graph, Progress, Step, enter_path, leave_path, visit_each, visit_machine, visit, keys, unvisited,
  order_of,
}

-- Between two visits the path is the same, and what is done stays done.
pub record Grown (p q : Progress) : Type 0 where
  pub path : (j : String) → (q.seen j ≡ 1) ↔ (p.seen j ≡ 1)
  pub keeps : (j : String) → p.seen j ≡ 2 → q.seen j ≡ 2

Grown-refl : (p : Progress) → Grown p p
Grown-refl p = record { path = λ j. (λ e. e, λ e. e); keeps = λ j e. e }

Grown-trans : (p q r : Progress) → Grown p q → Grown q r → Grown p r
Grown-trans p q r a b = record {
  path = λ j. (λ e. (a.path j).0 ((b.path j).0 e), λ e. (b.path j).1 ((a.path j).1 e));
  keeps = λ j e. b.keeps j (a.keeps j e);
}

abbrev pub IsGrowing : Step → Type 0
IsGrowing step = (p q : Progress) (d : String) → step p d ≡ some (ok q) → Grown p q

pub visit_each-Grown :
    (step : Step) (ds : List String) (p q : Progress)
    → IsGrowing step
    → visit_each step ds p ≡ some (ok q)
    → Grown p q
unfolding visit_each
visit_each-Grown step [] p q s h = subst (Grown p) (some_ok p q h) (Grown-refl p)
visit_each-Grown step (d ∷ ds) p q s h =
    let (r, first, rest) = and_then_ok (step p d) (λ r. visit_each step ds r) q h in
    Grown-trans p r q (s p r d first) (visit_each-Grown step ds r q s rest)

-- A machine that was not on the path enters it, and leaves it done.
leave_path-Grown :
    (id : String) (p q : Progress)
    → p.seen id ≢ 1
    → p.seen id ≢ 2
    → Grown (enter_path id p) q
    → Grown p (leave_path id q)
leave_path-Grown id p q one two h = record {
  path = λ j. ground (arith, h.path j, eq_iff id j, one);
  keeps = λ j e. mark_done-keeps id j q.seen (h.keeps j (mark-keeps id j p.seen two e));
}

pub visit_machine-enters :
    (step : Step) (p q : Progress) (id : String) (o : Option (List String))
    → visit_machine step p id o ≡ some (ok q)
    → (deps : List String) × (r : Progress) × (o ≡ some deps)
      × (visit_each step (sort deps) (enter_path id p) ≡ some (ok r))
      × (leave_path id r ≡ q)
unfolding visit_machine
visit_machine-enters step p q id none h = absurd (some_err plain q h)
visit_machine-enters step p q id (some deps) h =
    let (r, first, rest) =
      and_then_ok (visit_each step (sort deps) (enter_path id p)) (λ r. some (ok (leave_path id r)))
        q h in
    (deps, r, refl, first, some_ok (leave_path id r) q rest)

-- A visit that ends found the machine done, or entered it.
abbrev pub Visits : ℕ → Graph → Progress → String → Progress → Type 0
Visits fuel g p id q =
    ((p.seen id ≡ 2) × (p ≡ q))
    ⊎ ((p.seen id ≢ 1)
        × (p.seen id ≢ 2)
        × ((deps : List String) × (r : Progress) × (lookup id g ≡ some deps)
            × (visit_each (visit fuel g) (sort deps) (enter_path id p) ≡ some (ok r))
            × (leave_path id r ≡ q)))

pub visit-Visits :
    (fuel : ℕ) (g : Graph) (p q : Progress) (id : String)
    → visit (suc fuel) g p id ≡ some (ok q)
    → Visits fuel g p id q
unfolding visit
visit-Visits fuel g p q id h = elim (Bool-cases (p.seen id == 1)) [
  | inl one ↦ absurd (some_err plain q (rw one at h))
  | inr one ↦ elim (Bool-cases (p.seen id == 2)) [
    | inl two ↦ inl (ground arith, some_ok p q (rw (one, two) at h))
    | inr two ↦ inr (
      ground arith,
      ground arith,
      visit_machine-enters (visit fuel g) p q id (lookup id g) (rw (one, two) at h),
    )
  ]
]

pub visit-Grown : (fuel : ℕ) (g : Graph) → IsGrowing (visit fuel g)
unfolding visit
visit-Grown zero g p q id h = absurd cc
visit-Grown (suc fuel) g p q id h = elim (visit-Visits fuel g p q id h) [
  | inl (two, same) ↦ subst (Grown p) same (Grown-refl p)
  | inr (one, two, (deps, r, there, below, made)) ↦ subst (Grown p) made (
      leave_path-Grown id p r one two (
        visit_each-Grown (visit fuel g) (sort deps) (enter_path id p) r (visit-Grown fuel g) below))
]

visit_each-ends :
    (fuel : ℕ) (g : Graph) (ds : List String) (p : Progress)
    → ((q : Progress) (d : String) → open_rows q.seen g < fuel → visit fuel g q d ≢ none)
    → open_rows p.seen g < fuel
    → visit_each (visit fuel g) ds p ≢ none
unfolding visit_each
visit_each-ends fuel g [] p s h = λ e. absurd cc
visit_each-ends fuel g (d ∷ ds) p s h =
    and_then-ends (visit fuel g p d) (λ q. visit_each (visit fuel g) ds q) (s p d h)
      λ q e.
        let grown = visit-Grown fuel g p q d e in
        let fewer = open_rows-grown p.seen q.seen g (λ j one. (grown.path j).1 one) grown.keeps in
        visit_each-ends fuel g ds q s (omega arith)

visit_machine-ends :
    (step : Step) (p : Progress) (id : String) (o : Option (List String))
    → ((deps : List String) → o ≡ some deps → visit_each step (sort deps) (enter_path id p) ≢ none)
    → visit_machine step p id o ≢ none
unfolding visit_machine
visit_machine-ends step p id none h = λ e. absurd cc
visit_machine-ends step p id (some deps) h =
    and_then-ends (visit_each step (sort deps) (enter_path id p)) (λ q. some (ok (leave_path id q)))
      (h deps refl) λ q e n. absurd cc

-- A visit with more fuel than there are open machines ends.
pub visit-ends :
    (fuel : ℕ) (g : Graph) (p : Progress) (id : String)
    → open_rows p.seen g < fuel
    → visit fuel g p id ≢ none
unfolding visit
visit-ends zero g p id h e = absurd (omega arith)
visit-ends (suc fuel) g p id h e = elim (Bool-cases (p.seen id == 1)) [
  | inl one ↦ let no : some (err plain) ≡ none = rw one at e in absurd cc
  | inr one ↦ elim (Bool-cases (p.seen id == 2)) [
    | inl two ↦ let no : some (ok p) ≡ none = rw (one, two) at e in absurd cc
    | inr two ↦
        visit_machine-ends (visit fuel g) p id (lookup id g)
          (λ deps there.
            let fewer = open_rows-closed id deps p.seen g there (ground arith) (ground arith) in
            visit_each-ends fuel g (sort deps) (enter_path id p) (λ q d. visit-ends fuel g q d)
              (omega arith))
          (rw (one, two) at e)
  ]
]

-- The search for an order ends.
pub order_of-ends : (g : Graph) → order_of g ≢ none
unfolding order_of
order_of-ends g =
    let few = open_rows-length unvisited.seen g in
    visit_each-ends (length g + 1) g (sort (keys g)) unvisited
      (λ q d. visit-ends (length g + 1) g q d) (omega arith)
