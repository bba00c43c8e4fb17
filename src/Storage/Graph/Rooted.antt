-- ===== src/Storage/Graph/Rooted.antt =====
-- What `Validate` and `DeletionCandidates` of internal/app/storage/graph.go let through
use virmill.Prelude.{
  ℕ, zero, suc, ◌+◌, String, true, ◌≡◌, ◌≢◌, ◌⊎◌, refl, sym, ◌∙◌, subst, Option, none, some, [],
  ◌∷◌, ◌==◌, str_eq, eq_iff, length, arith, inl, inr, Bool-cases, Option-cases,
}
use virmill.Prelude.Table.{lookup}
use virmill.Prelude.Marks.{Seen, mark, mark-same, mark-other, mark-keeps, mark_done-keeps}
use virmill.Domain.Fuel.{some_ok, some_err}
use virmill.Domain.Error.{Result, ok, err, plain}
use virmill.Storage.Graph.{Volume, Graph, done, backs, visit_volume, visit, visit_all, validate}

-- A volume whose chain of parents ends, over volumes that are known and immutable
pub data Rooted (g : Graph) : String → Type 0 where
  root : (id : String) (v : Volume) → lookup id g ≡ some v → v.id ≡ id → v.parent ≡ "" → Rooted g id
  based :
      (id : String) (v p : Volume)
      → lookup id g ≡ some v
      → v.id ≡ id
      → lookup v.parent g ≡ some p
      → p.immutable ≡ true
      → Rooted g v.parent
      → Rooted g id

backs-some :
    (o : Option Volume) → backs o ≡ true → (p : Volume) × (o ≡ some p) × (p.immutable ≡ true)
backs-some none h = absurd cc
backs-some (some p) h = (p, refl, h)

-- A visit that ends has visited the parent, where there is one.
abbrev Ends : Graph → Seen → String → Volume → (String → Option (Result Seen)) → Seen → Type 0
Ends g seen id v above seen' =
    ((v.parent ≡ "") × (mark id 2 (mark id 1 seen) ≡ seen'))
    ⊎ ((backs (lookup v.parent g) ≡ true)
        × ((s : Seen) × (above v.parent ≡ some (ok s)) × (mark id 2 s ≡ seen')))

done_ok :
    (id : String) (o : Option (Result Seen)) (seen' : Seen)
    → done id o ≡ some (ok seen')
    → (s : Seen) × (o ≡ some (ok s)) × (mark id 2 s ≡ seen')
done_ok id none seen' h = absurd cc
done_ok id (some (err e)) seen' h = absurd cc
done_ok id (some (ok s)) seen' h = (s, refl, some_ok (mark id 2 s) seen' h)

visit_volume-Ends :
    (g : Graph) (seen : Seen) (id : String) (v : Volume) (above : String → Option (Result Seen))
    (seen' : Seen)
    → visit_volume g seen id (some v) above ≡ some (ok seen')
    → (v.id ≡ id) × Ends g seen id v above seen'
visit_volume-Ends g seen id v above seen' h = elim (Bool-cases (str_eq id v.id)) [
  | inl a ↦
      let named : v.id ≡ id = sym ((eq_iff id v.id).0 a) in
      elim (Bool-cases (str_eq v.parent "")) [
        | inl b ↦ (named, inl ((eq_iff v.parent "").0 b, some_ok _ seen' (rw (a, b) at h)))
        | inr b ↦ elim (Bool-cases (backs (lookup v.parent g))) [
          | inl c ↦ (named, inr (c, done_ok id (above v.parent) seen' (rw (a, b, c) at h)))
          | inr c ↦ absurd (some_err plain seen' (rw (a, b, c) at h))
        ]
      ]
  | inr a ↦ absurd (some_err plain seen' (rw a at h))
]

module _ (g : Graph) where
  -- What is done is rooted.
  abbrev IsSound : Seen → Type 0
  IsSound seen = (j : String) → seen j ≡ 2 → Rooted g j

  record Visited (seen : Seen) (id : String) (seen' : Seen) : Type 0 where
    pub sound : IsSound seen'
    pub there : seen' id ≡ 2
    pub keeps : (j : String) → seen j ≡ 2 → seen' j ≡ 2

  mark-IsSound : (id : String) (seen : Seen) → IsSound seen → Rooted g id → IsSound (mark id 2 seen)
  mark-IsSound id seen s r j e = elim (Bool-cases (str_eq j id)) [
    | inl t ↦ let same : j ≡ id = (eq_iff j id).0 t in subst (Rooted g) (sym same) r
    | inr f ↦ s j (sym (mark-other id j 2 seen f) ∙ e)
  ]

  mark_path-IsSound : (id : String) (seen : Seen) → IsSound seen → IsSound (mark id 1 seen)
  mark_path-IsSound id seen s j e = elim (Bool-cases (str_eq j id)) [
    | inl t ↦
        let same : j ≡ id = (eq_iff j id).0 t in
        let one : mark id 1 seen j ≡ 1 = rw same (mark-same id 1 seen) in absurd (omega arith)
    | inr f ↦ s j (sym (mark-other id j 1 seen f) ∙ e)
  ]

  -- The end of a visit
  mark-Visited :
      (id : String) (seen before : Seen)
      → IsSound before
      → ((j : String) → seen j ≡ 2 → before j ≡ 2)
      → Rooted g id
      → Visited seen id (mark id 2 before)
  mark-Visited id seen before s k r = record {
    sound = mark-IsSound id before s r;
    there = mark-same id 2 before;
    keeps = λ j e. mark_done-keeps id j before (k j e);
  }

  visit-Visited :
      (fuel : ℕ) (seen seen' : Seen) (id : String)
      → IsSound seen
      → visit fuel g seen id ≡ some (ok seen')
      → Visited seen id seen'
  unfolding visit
  visit-Visited zero seen seen' id s e = absurd cc
  visit-Visited (suc fuel) seen seen' id s e = elim (Bool-cases (seen id == 1)) [
    | inl one ↦ absurd (some_err plain seen' (rw one at e))
    | inr one ↦ elim (Bool-cases (seen id == 2)) [
      | inl two ↦
          let here : seen ≡ seen' = some_ok seen seen' (rw (one, two) at e) in
          subst (Visited seen id) here
            (record { sound = s; there = ground arith; keeps = λ j k. k })
      | inr two ↦ elim (Option-cases (lookup id g)) [
        | inl gone ↦ absurd (some_err plain seen' (rw (one, two, gone) at e))
        | inr (v, there) ↦
            let fresh : seen id ≢ 2 = ground arith in
            let ends =
              visit_volume-Ends g seen id v (visit fuel g (mark id 1 seen)) seen'
                (rw (one, two, there) at e) in
            elim ends.1 [
              | inl (top, made) ↦ subst (Visited seen id) made (
                  mark-Visited id seen (mark id 1 seen) (mark_path-IsSound id seen s)
                    (λ j k. mark-keeps id j seen fresh k) (root id v there ends.0 top))
              | inr (imm, (s1, up, made)) ↦
                  let parent =
                    visit-Visited fuel (mark id 1 seen) s1 v.parent (mark_path-IsSound id seen s)
                      up in
                  subst (Visited seen id) made (
                    mark-Visited id seen s1 parent.sound
                      (λ j k. parent.keeps j (mark-keeps id j seen fresh k))
                      (based id v (backs-some _ imm).0 there ends.0 (backs-some _ imm).1
                        (backs-some _ imm).2 (parent.sound v.parent parent.there)))
            ]
      ]
    ]
  ]

  visit_all-Rooted :
      (fuel : ℕ) (seen seen' : Seen) (rest : Graph) (id : String) (v : Volume)
      → IsSound seen
      → visit_all fuel g seen rest ≡ some (ok seen')
      → lookup id rest ≡ some v
      → Rooted g id
  unfolding visit_all lookup
  visit_all-Rooted fuel seen seen' [] id v s e l = absurd cc
  visit_all-Rooted fuel seen seen' ((j, w) ∷ rest) id v s e l =
      elim (Option-cases (visit fuel g seen j)) [
        | inl n ↦ let no : none ≡ some (ok seen') = rw n at e in absurd cc
        | inr (err x, n) ↦ let no : some (err x) ≡ some (ok seen') = rw n at e in absurd cc
        | inr (ok s1, n) ↦
            let first = visit-Visited fuel seen s1 j s n in
            elim (Bool-cases (str_eq j id)) [
              | inl t ↦ subst (Rooted g) ((eq_iff j id).0 t) (first.sound j first.there)
              | inr f ↦ visit_all-Rooted fuel s1 seen' rest id v first.sound (rw n at e) (rw f at l)
            ]
      ]

-- Each volume of a valid graph has its own identity, and a chain of parents that ends, over
-- volumes that are known and immutable.
pub validate-Rooted :
    (g : Graph) (seen : Seen) (id : String) (v : Volume)
    → validate g ≡ some (ok seen)
    → lookup id g ≡ some v
    → Rooted g id
unfolding validate
validate-Rooted g seen id v h l =
    visit_all-Rooted g (length g + 1) (λ j. 0) seen g id v (λ j e. absurd (omega arith)) h l
