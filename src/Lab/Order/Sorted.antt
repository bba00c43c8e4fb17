-- ===== src/Lab/Order/Sorted.antt =====
-- The order that internal/app/lab/validate.go finds is one of the dependencies.
use mathlib.Core.List.{append-nil, append_assoc}
use virmill.Prelude.{
  ℕ, zero, suc, ◌+◌, String, true, false, ◌||◌, ◌≡◌, ◌≢◌, ◌↔◌, refl, sym, ◌∙◌, subst, some, List,
  [], ◌∷◌, ◌++◌, eq_iff, length, contains, contains-sort, sort, arith, inl, inr,
}
use virmill.Prelude.Table.{lookup}
use virmill.Prelude.Marks.{mark-same}
use virmill.Domain.Error.{ok}
use virmill.Domain.Fuel.{and_then_ok, some_ok}
use virmill.Lab.Order.{
  Graph, Progress, Step, enter_path, leave_path, visit_each, visit, keys, unvisited, order_of,
}
use virmill.Lab.Order.Marks.{IsGrowing, visit_each-Grown, visit-Visits, visit-Grown}

-- A machine of the graph whose dependencies are all in the list
abbrev pub IsReady : Graph → List String → String → Type 0
IsReady g before id =
    (deps : List String) × (lookup id g ≡ some deps)
    × ((d : String) → contains deps d ≡ true → contains before d ≡ true)

-- Each machine comes once, and behind its dependencies.
abbrev pub Follows : Graph → List String → List String → Type 0
Follows g before [] = Unit
Follows g before (id ∷ rest) =
    (contains before id ≡ false) × IsReady g before id × Follows g (before ++ id ∷ []) rest

contains-append :
    (xs ys : List String) (q : String) → contains (xs ++ ys) q ≡ (contains xs q || contains ys q)
contains-append [] ys q = refl
contains-append (x ∷ xs) ys q = ground (arith, contains-append xs ys q)

Follows-append :
    (g : Graph) (before xs : List String) (id : String)
    → Follows g before xs
    → contains (before ++ xs) id ≡ false
    → IsReady g (before ++ xs) id
    → Follows g before (xs ++ id ∷ [])
Follows-append g before [] id f n r = (
  subst (λ l. contains l id ≡ false) (append-nil before) n,
  subst (λ l. IsReady g l id) (append-nil before) r,
  tt,
)
Follows-append g before (x ∷ xs) id f n r =
    let shift : before ++ x ∷ xs ≡ (before ++ x ∷ []) ++ xs =
      sym (append_assoc before (x ∷ []) xs) in
    (
      f.0,
      f.1,
      Follows-append g (before ++ x ∷ []) xs id f.2 (subst (λ l. contains l id ≡ false) shift n)
          (subst (λ l. IsReady g l id) shift r),
    )

module _ (g : Graph) where
  -- The order so far has what is done.
  record IsOrdered (p : Progress) : Type 0 where
    pub follows : Follows g [] p.order
    pub listed : (j : String) → (p.seen j ≡ 2) ↔ (contains p.order j ≡ true)

  enter_path-IsOrdered :
      (id : String) (p : Progress) → p.seen id ≢ 2 → IsOrdered p → IsOrdered (enter_path id p)
  enter_path-IsOrdered id p n h = record {
    follows = h.follows;
    listed = λ j. ground (arith, h.listed j, eq_iff id j);
  }

  leave_path-IsOrdered :
      (id : String) (p : Progress)
      → p.seen id ≢ 2
      → IsReady g p.order id
      → IsOrdered p
      → IsOrdered (leave_path id p)
  leave_path-IsOrdered id p n r h = record {
    follows = Follows-append g [] p.order id h.follows (ground (arith, h.listed id)) r;
    listed = λ j. ground (arith, h.listed j, eq_iff id j, contains-append p.order (id ∷ []) j);
  }

  abbrev Orders : Step → Type 0
  Orders step =
      (p q : Progress) (d : String)
      → IsOrdered p
      → step p d ≡ some (ok q)
      → IsOrdered q × (q.seen d ≡ 2)

  visit_each-Orders :
      (step : Step) (ds : List String) (p q : Progress)
      → IsGrowing step
      → Orders step
      → IsOrdered p
      → visit_each step ds p ≡ some (ok q)
      → IsOrdered q × ((d : String) → contains ds d ≡ true → q.seen d ≡ 2)
  unfolding visit_each
  visit_each-Orders step [] p q s o h e = (subst IsOrdered (some_ok p q e) h, λ d c. absurd cc)
  visit_each-Orders step (d ∷ ds) p q s o h e =
      let (r, first, rest) = and_then_ok (step p d) (λ r. visit_each step ds r) q e in
      let here = o p r d h first in
      let later = visit_each-Orders step ds r q s o here.0 rest in
      let grown = visit_each-Grown step ds r q s rest in
      (later.0, λ j c. ground (arith, here.1, later.1 j, grown.keeps j, eq_iff d j))

  visit-Orders : (fuel : ℕ) → Orders (visit fuel g)
  unfolding visit
  visit-Orders zero p q id h e = absurd cc
  visit-Orders (suc fuel) p q id h e = elim (visit-Visits fuel g p q id e) [
    | inl (two, same) ↦ (subst IsOrdered same h, subst (λ r. r.seen id ≡ 2) same two)
    | inr (one, two, (deps, r, there, below, made)) ↦
        let entered = enter_path-IsOrdered id p two h in
        let (ordered, all) =
          visit_each-Orders (visit fuel g) (sort deps) (enter_path id p) r (visit-Grown fuel g)
            (visit-Orders fuel) entered below in
        let grown =
          visit_each-Grown (visit fuel g) (sort deps) (enter_path id p) r (visit-Grown fuel g)
            below in
        let grey : r.seen id ≡ 1 = (grown.path id).1 (mark-same id 1 p.seen) in
        let ready : IsReady g r.order id =
          (deps, there, λ d c. (ordered.listed d).0 (all d (contains-sort d deps ∙ c))) in
        (
          subst IsOrdered made (leave_path-IsOrdered id r (omega arith) ready ordered),
          subst (λ s. s.seen id ≡ 2) made (mark-same id 2 r.seen),
        )
  ]

  -- An order that is found has each machine once, behind its dependencies, which are all machines.
  pub order_of-Follows :
      (p : Progress)
      → order_of g ≡ some (ok p)
      → Follows g [] p.order
        × ((j : String) → contains (keys g) j ≡ true → contains p.order j ≡ true)
  unfolding order_of
  order_of-Follows p h =
      let start : IsOrdered unvisited = record {
        follows = tt;
        listed = λ j. (λ e. absurd (omega arith), λ c. absurd cc);
      } in
      let (ordered, all) =
        visit_each-Orders (visit (length g + 1) g) (sort (keys g)) unvisited p
          (visit-Grown (length g + 1) g) (visit-Orders (length g + 1)) start h in
      (ordered.follows, λ j c. (ordered.listed j).0 (all j (contains-sort j (keys g) ∙ c)))
