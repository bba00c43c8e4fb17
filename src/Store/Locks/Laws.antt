-- ===== src/Store/Locks/Laws.antt =====
-- What acquiring and releasing does to the owner of each resource.
use virmill.Prelude.{
  String, ◌≡◌, refl, Bool, true, false, Option, none, some, List, [], ◌∷◌, arith, str_eq, eq_iff,
  contains, if◌then◌else◌, Option-cases, inl, inr,
}
use virmill.Prelude.Table.{IsTable, lookup, insert, lookup-insert, insert-fresh, IsTable-insert}
use virmill.Store.Locks.{
  Locks, acquire, release, reassign, held, lookup-release_absent, lookup-reassign,
}

-- What acquiring a resource makes of its owner.
abbrev pub taken : String → List String → String → Option String → Option String
taken job rs q old = if contains rs q then some job else old

abbrev pub owns : String → Option String → Bool
owns job none = false
owns job (some o) = str_eq o job

acquire-insert :
    (job r : String) (rs : List String) (t u : Locks)
    → insert r job t ≡ some u
    → acquire job (r ∷ rs) t ≡ acquire job rs u
unfolding acquire
acquire-insert job r rs t u e = rw (e, acquire)

acquire_refused :
    (job r : String) (rs : List String) (t : Locks)
    → insert r job t ≡ none
    → acquire job (r ∷ rs) t ≡ none
unfolding acquire
acquire_refused job r rs t e = rw (e, acquire)

acquire_nil : (job : String) (t t' : Locks) → acquire job [] t ≡ some t' → t' ≡ t
unfolding acquire
acquire_nil job t t' h = ground arith

pub lookup-acquire :
    (job q : String) (rs : List String) (t t' : Locks)
    → acquire job rs t ≡ some t'
    → lookup q t' ≡ taken job rs q (lookup q t)
lookup-acquire job q [] t t' h = rw (acquire_nil job t t' h)
lookup-acquire job q (r ∷ rs) t t' h = elim (Option-cases (insert r job t)) [
  | inl e ↦ ground (arith, acquire_refused job r rs t e)
  | inr (u, e) ↦ ground (
    arith,
    acquire-insert job r rs t u e,
    lookup-acquire job q rs u t',
    lookup-insert q r job t u,
    eq_iff r q,
  )
]

pub IsTable-acquire :
    (job : String) (rs : List String) (t t' : Locks)
    → acquire job rs t ≡ some t'
    → IsTable t
    → IsTable t'
IsTable-acquire job [] t t' h d = rw (acquire_nil job t t' h) d
IsTable-acquire job (r ∷ rs) t t' h d = elim (Option-cases (insert r job t)) [
  | inl e ↦ ground (arith, acquire_refused job r rs t e)
  | inr (u, e) ↦
      IsTable-acquire job rs u t' (ground (arith, acquire-insert job r rs t u e))
        (IsTable-insert r job t u e d)
]

-- An acquired resource was free.
pub acquire-free :
    (job q : String) (rs : List String) (t t' : Locks)
    → acquire job rs t ≡ some t'
    → contains rs q ≡ true
    → lookup q t ≡ none
acquire-free job q [] t t' h c = ground arith
acquire-free job q (r ∷ rs) t t' h c = elim (Option-cases (insert r job t)) [
  | inl e ↦ ground (arith, acquire_refused job r rs t e)
  | inr (u, e) ↦ ground (
    arith,
    acquire-insert job r rs t u e,
    acquire-free job q rs u t',
    lookup-insert q r job t u,
    insert-fresh r job t u e,
    eq_iff r q,
  )
]

pub IsTable-release : (job : String) (t : Locks) → IsTable t → IsTable (release job t)
unfolding release
IsTable-release job [] d = tt
IsTable-release job ((r, o) ∷ t) d =
    elim (str_eq o job) as (λ b. IsTable (if b then release job t else (r, o) ∷ release job t)) [
      | true ↦ IsTable-release job t d.1
      | false ↦ (lookup-release_absent r job t d.0, IsTable-release job t d.1)
    ]

reassign_absent :
    (q new r old : String) (t : Locks) → lookup q t ≡ none → lookup q (reassign new r old t) ≡ none
reassign_absent q new r old t h = ground (arith, lookup-reassign q new r old t)

-- A row of `reassign`: the owner may change, the resource does not.
new_owner : String → String → String → String → String → String
new_owner new r old q o = if str_eq q r then (if str_eq o old then new else o) else o

reassign_cons :
    (new r old q o : String) (t : Locks)
    → reassign new r old ((q, o) ∷ t) ≡ (q, new_owner new r old q o) ∷ reassign new r old t
unfolding reassign new_owner
reassign_cons new r old q o t = ground arith

pub IsTable-reassign : (new r old : String) (t : Locks) → IsTable t → IsTable (reassign new r old t)
IsTable-reassign new r old [] d = unfold reassign in tt
IsTable-reassign new r old ((q, o) ∷ t) d =
    rw reassign_cons (reassign_absent q new r old t d.0, IsTable-reassign new r old t d.1)

-- `held` lists the resources that a job owns, and no others.
pub contains-held :
    (job q : String) (t : Locks) → IsTable t → contains (held job t) q ≡ owns job (lookup q t)
unfolding held lookup
contains-held job q [] d = refl
contains-held job q ((r, o) ∷ t) d =
    ground (arith, contains-held job q t d.1, eq_iff r q, eq_iff o job, d.0)
