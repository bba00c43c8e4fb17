-- ===== src/Storage/Graph/Visit.antt =====
-- The fuel of `Validate` of internal/app/storage/graph.go is enough.
use virmill.Prelude.{
  ℕ, zero, suc, ◌+◌, ◌<◌, String, ◌≡◌, ◌≢◌, refl, Option, none, some, [], ◌∷◌, ◌==◌, str_eq, length,
  arith, inl, inr, Bool-cases, Option-cases,
}
use virmill.Prelude.Table.{lookup}
use virmill.Prelude.Marks.{Seen, mark, open_rows, open_rows-length, open_rows-closed}
use virmill.Domain.Error.{Result, ok, err, plain}
use virmill.Storage.Graph.{Volume, Graph, done, backs, visit_volume, visit, visit_all, validate}

done-ends : (id : String) (o : Option (Result Seen)) → o ≢ none → done id o ≢ none
done-ends id none h e = h refl
done-ends id (some (err x)) h e = absurd cc
done-ends id (some (ok seen)) h e = absurd cc

visit_volume-ends :
    (g : Graph) (seen : Seen) (id : String) (v : Volume) (above : String → Option (Result Seen))
    → ((p : String) → above p ≢ none)
    → visit_volume g seen id (some v) above ≢ none
visit_volume-ends g seen id v above h =
    let up = done-ends id (above v.parent) (h v.parent) in
    elim (Bool-cases (str_eq id v.id)) [
      | inl a ↦ elim (Bool-cases (str_eq v.parent "")) [
        | inl b ↦ rw (a, b) (λ e. absurd cc)
        | inr b ↦ elim (Bool-cases (backs (lookup v.parent g))) [
          | inl c ↦ rw (a, b, c) up
          | inr c ↦ rw (a, b, c) (λ e. absurd cc)
        ]
      ]
      | inr a ↦ rw a (λ e. absurd cc)
    ]

-- A visit with more fuel than there are open volumes ends.
visit-ends :
    (fuel : ℕ) (g : Graph) (seen : Seen) (id : String)
    → open_rows seen g < fuel
    → visit fuel g seen id ≢ none
unfolding visit
visit-ends zero g seen id h e = absurd (omega arith)
visit-ends (suc fuel) g seen id h e = elim (Bool-cases (seen id == 1)) [
  | inl one ↦ let no : some (err plain) ≡ none = rw one at e in absurd cc
  | inr one ↦ elim (Bool-cases (seen id == 2)) [
    | inl two ↦ let no : some (ok seen) ≡ none = rw (one, two) at e in absurd cc
    | inr two ↦ elim (Option-cases (lookup id g)) [
      | inl gone ↦ let no : some (err plain) ≡ none = rw (one, two, gone) at e in absurd cc
      | inr (v, there) ↦
          let fewer = open_rows-closed id v seen g there (ground arith) (ground arith) in
          visit_volume-ends g seen id v (visit fuel g (mark id 1 seen))
            (λ p. visit-ends fuel g (mark id 1 seen) p (omega arith)) (rw (one, two, there) at e)
    ]
  ]
]

visit_all-ends :
    (fuel : ℕ) (g : Graph) (seen : Seen) (rest : Graph)
    → length g < fuel
    → visit_all fuel g seen rest ≢ none
unfolding visit_all
visit_all-ends fuel g seen [] h e = absurd cc
visit_all-ends fuel g seen ((id, v) ∷ rest) h e =
    let few = open_rows-length seen g in
    elim (Option-cases (visit fuel g seen id)) [
      | inl n ↦ visit-ends fuel g seen id (omega arith) n
      | inr (err x, y) ↦ let no : some (err x) ≡ none = rw y at e in absurd cc
      | inr (ok seen', y) ↦ visit_all-ends fuel g seen' rest h (rw y at e)
    ]

-- The validation of a graph ends.
pub validate-ends : (g : Graph) → validate g ≢ none
unfolding validate
validate-ends g = visit_all-ends (length g + 1) g (λ id. 0) g (omega arith)
