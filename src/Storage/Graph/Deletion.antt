-- ===== src/Storage/Graph/Deletion.antt =====
-- The candidates of `DeletionCandidates` of internal/app/storage/graph.go
use virmill.Prelude.{
  not-true, String, true, false, not, ◌&&◌, ◌||◌, ◌≡◌, ◌≢◌, ◌⊎◌, refl, sym, ◌∙◌, subst, none, some,
  List, [], ◌∷◌, str_eq, eq_iff, if◌then◌else◌, arith, inl, inr, Bool-cases, Option-cases, contains,
  contains-sort, sort, both,
}
use virmill.Prelude.Table.{IsTable, lookup}
use virmill.Domain.Error.{ok, err, plain, ◌>>=◌, bind_ok, then_ok, ok_inj, guard_ok}
use virmill.Storage.Graph.{
  Volume, Graph, validate, referenced, unreferenced, deletion_candidates, add_used, add_parent,
}
use virmill.Storage.Graph.Rooted.{Rooted, root, based, validate-Rooted}

-- What the first loop has noted of a volume
record Noted (ids : List String) (w : Volume) : Type 0 where
  pub certain : w.uncertain ≡ false
  pub parent : (str_eq w.parent "" || contains ids w.parent) ≡ true
  pub used : (w.references ≡ []) ⊎ (contains ids w.id ≡ true)

contains-add_parent :
    (p id : String) (ids : List String)
    → contains ids id ≡ true
    → contains (add_parent p ids) id ≡ true
contains-add_parent p id ids h = ground arith

contains-add_used :
    (j id : String) (rs ids : List String)
    → contains ids id ≡ true
    → contains (add_used j rs ids) id ≡ true
contains-add_used j id [] ids h = h
contains-add_used j id (r ∷ rs) ids h = ground arith

used-add_used :
    (j : String) (rs ids : List String) → (rs ≡ []) ⊎ (contains (add_used j rs ids) j ≡ true)
used-add_used j [] ids = inl refl
used-add_used j (r ∷ rs) ids = inr (ground (arith, eq_iff j j))

parent-add_parent :
    (p : String) (ids : List String) → (str_eq p "" || contains (add_parent p ids) p) ≡ true
parent-add_parent p ids = ground (arith, eq_iff p p)

parent-add :
    (q p j : String) (rs ids : List String)
    → (str_eq q "" || contains ids q) ≡ true
    → (str_eq q "" || contains (add_parent p (add_used j rs ids)) q) ≡ true
parent-add q p j rs ids h = elim (Bool-cases (str_eq q "")) [
  | inl e ↦ rw e refl
  | inr e ↦
      let there : contains ids q ≡ true = rw e at h in
      rw e (contains-add_parent p q _ (contains-add_used j q rs ids there))
]

Noted-add :
    (j p : String) (rs ids : List String) (w : Volume)
    → Noted ids w
    → Noted (add_parent p (add_used j rs ids)) w
Noted-add j p rs ids w n = record {
  certain = n.certain;
  parent = parent-add w.parent p j rs ids n.parent;
  used = elim n.used [
    | inl e ↦ inl e
    | inr e ↦ inr (contains-add_parent p w.id _ (contains-add_used j w.id rs ids e))
  ];
}

Noted-head :
    (v : Volume) (ids : List String)
    → v.uncertain ≡ false
    → Noted (add_parent v.parent (add_used v.id v.references ids)) v
Noted-head v ids u = record {
  certain = u;
  parent = parent-add_parent v.parent (add_used v.id v.references ids);
  used = elim (used-add_used v.id v.references ids) [
    | inl e ↦ inl e
    | inr e ↦ inr (contains-add_parent v.parent v.id _ e)
  ];
}

referenced-Noted :
    (g : Graph) (ids : List String) (j : String) (w : Volume)
    → referenced g ≡ ok ids
    → lookup j g ≡ some w
    → Noted ids w
unfolding referenced lookup
referenced-Noted [] ids j w h l = absurd cc
referenced-Noted ((i, v) ∷ g) ids j w h l =
    let a = then_ok (if v.uncertain then err plain else ok tt) _ ids h in
    let b =
      bind_ok (referenced g) (λ rest. ok (add_parent v.parent (add_used v.id v.references rest)))
        ids a.1 in
    let made = ok_inj (add_parent v.parent (add_used v.id v.references b.0)) ids b.2 in
    let u = guard_ok v.uncertain plain (ok tt) tt a.0 in
    subst (λ x. Noted x w) made
      (elim (Bool-cases (str_eq i j)) [
        | inl t ↦
            let same : some v ≡ some w = rw t at l in
            let here : v ≡ w = cc in
            subst (Noted (add_parent v.parent (add_used v.id v.references b.0))) here
              (Noted-head v b.0 u.0)
        | inr f ↦
            Noted-add v.id v.parent v.references b.0 w (referenced-Noted g b.0 j w b.1 (rw f at l))
      ])

clash :
    (ids : List String) (a b : String) → a ≡ b → contains ids a ≡ true → contains ids b ≡ false → ⊥
clash ids a b e h k =
    let no : contains ids b ≡ true = subst (λ x. contains ids x ≡ true) e h in absurd cc

apart :
    (ids : List String) (p id : String)
    → (str_eq p "" || contains ids p) ≡ true
    → contains ids id ≡ false
    → (p ≡ "") ⊎ (p ≢ id)
apart ids p id h k = elim (Bool-cases (str_eq p "")) [
  | inl e ↦ inl ((eq_iff p "").0 e)
  | inr e ↦ inr (λ same. clash ids p id same (rw e at h) k)
]

unreferenced-lookup :
    (ids : List String) (g : Graph) (id : String)
    → IsTable g
    → contains (unreferenced ids g) id ≡ true
    → (contains ids id ≡ false)
      × ((v : Volume) × (lookup id g ≡ some v) × (v.ownership ≡ "managed"))
unfolding unreferenced lookup
unreferenced-lookup ids [] id t h = absurd cc
unreferenced-lookup ids ((j, w) ∷ g) id t h =
    let kept = not (contains ids j) && str_eq w.ownership "managed" in
    elim (Bool-cases (str_eq j id)) [
      | inl e ↦ elim (Bool-cases (not (contains ids j) && str_eq w.ownership "managed")) [
        | inl k ↦
            let parts = both (not (contains ids j)) (str_eq w.ownership "managed") k in
            let same : j ≡ id = (eq_iff j id).0 e in
            let free : contains ids id ≡ false =
              subst (λ x. contains ids x ≡ false) same (not-true _ parts.0) in
            (free, (w, rw e refl, (eq_iff w.ownership "managed").0 parts.1))
        | inr k ↦
            let rest = unreferenced-lookup ids g id t.1 (rw k at h) in
            let gone = subst (λ x. lookup x g ≡ none) ((eq_iff j id).0 e) t.0 in
            let no : none ≡ some rest.1.0 = sym gone ∙ rest.1.1 in absurd cc
      ]
      | inr e ↦
          let later : contains (unreferenced ids g) id ≡ true = ground arith in
          let rest = unreferenced-lookup ids g id t.1 later in
          (rest.0, (rest.1.0, rw e rest.1.1, rest.1.2))
    ]

-- A candidate: a managed volume that nothing refers to and that backs no volume
pub record Deletable (g : Graph) (id : String) : Type 0 where
  pub volume : Volume
  pub there : lookup id g ≡ some volume
  pub managed : volume.ownership ≡ "managed"
  pub unused : volume.references ≡ []
  pub no_parent :
      (j : String) (w : Volume) → lookup j g ≡ some w → (w.parent ≡ "") ⊎ (w.parent ≢ id)
  pub certain : (j : String) (w : Volume) → lookup j g ≡ some w → w.uncertain ≡ false

Rooted-id : (g : Graph) (id : String) (v : Volume) → Rooted g id → lookup id g ≡ some v → v.id ≡ id
Rooted-id g id v (root _ u l e p) k = let same : u ≡ v = cc in subst (λ x. x.id ≡ id) same e
Rooted-id g id v (based _ u w l e b i r) k = let same : u ≡ v = cc in subst (λ x. x.id ≡ id) same e

-- In a graph with distinct keys each candidate for deletion is a managed volume without references
-- that is the parent of no volume, and no volume is uncertain.
pub deletion_candidates-Deletable :
    (g : Graph) (out : List String) (id : String)
    → IsTable g
    → deletion_candidates g ≡ some (ok out)
    → contains out id ≡ true
    → Deletable g id
unfolding deletion_candidates
deletion_candidates-Deletable g out id t h c = elim (Option-cases (validate g)) [
  | inl n ↦ let no : none ≡ some (ok out) = rw (deletion_candidates, n) at h in absurd cc
  | inr (err x, n) ↦
      let no : some (err x) ≡ some (ok out) = rw (deletion_candidates, n) at h in absurd cc
  | inr (ok seen, n) ↦
      let k : some (referenced g >>= λ ids. ok (sort (unreferenced ids g))) ≡ some (ok out) =
        rw (deletion_candidates, n) at h in
      let run : (referenced g >>= λ ids. ok (sort (unreferenced ids g))) ≡ ok out = cc in
      let r = bind_ok (referenced g) (λ ids. ok (sort (unreferenced ids g))) out run in
      let sorted = ok_inj (sort (unreferenced r.0 g)) out r.2 in
      let listed =
        sym (contains-sort id (unreferenced r.0 g))
        ∙ subst (λ o. contains o id ≡ true) (sym sorted) c in
      let u = unreferenced-lookup r.0 g id t listed in
      let v = u.1.0 in
      let rooted = validate-Rooted g seen id v n u.1.1 in
      let note =
        λ (j : String) (w : Volume) (l : lookup j g ≡ some w). referenced-Noted g r.0 j w r.1 l in
      record {
        volume = v;
        there = u.1.1;
        managed = u.1.2;
        unused = elim (note id v u.1.1).used [
          | inl e ↦ e
          | inr e ↦ absurd (clash r.0 v.id id (Rooted-id g id v rooted u.1.1) e u.0)
        ];
        no_parent = λ j w l. apart r.0 w.parent id (note j w l).parent u.0;
        certain = λ j w l. (note j w l).certain;
      }
]
