-- ===== src/Store/Locks.antt =====
-- The table `locks` of internal/store/store.go: a resource, and the job that holds it.
pub mod Laws
use virmill.Prelude.{
  String, ◌≡◌, refl, Bool, true, false, Option, none, some, List, [], ◌∷◌, ◌++◌, arith, str_eq,
  eq_iff, if◌then◌else◌, ◌||◌,
}
use virmill.Prelude.Table.{Table, IsTable, lookup, insert}

abbrev pub Locks : Type 0
Locks = Table String

-- `INSERT INTO locks` for each resource; the first one that is held refuses.
unfoldable pub acquire : String → List String → Locks → Option Locks
acquire job [] t = some t
acquire job (r ∷ rs) t = elim (insert r job t) [ none ↦ none | some t' ↦ acquire job rs t' ]

-- `DELETE FROM locks WHERE job_id=?`
unfoldable pub release : String → Locks → Locks
release job [] = []
release job ((r, o) ∷ t) = let rest = release job t in if str_eq o job then rest else (r, o) ∷ rest

-- `SELECT resource FROM locks WHERE job_id=?`
unfoldable pub held : String → Locks → List String
held job [] = []
held job ((r, o) ∷ t) = let rest = held job t in if str_eq o job then r ∷ rest else rest

-- `UPDATE locks SET job_id=? WHERE resource=? AND job_id=?`
unfoldable pub reassign : String → String → String → Locks → Locks
reassign new r old [] = []
reassign new r old ((q, o) ∷ t) =
    (if str_eq q r then (if str_eq o old then (q, new) else (q, o)) else (q, o))
    ∷ reassign new r old t

-- What a release leaves of a lock.
abbrev pub released : String → Option String → Option String
released job none = none
released job (some o) = if str_eq o job then none else some o

-- What a reassignment makes of the owner of its resource.
abbrev pub moved : String → String → Option String → Option String
moved new old none = none
moved new old (some o) = if str_eq o old then some new else some o

lookup-release_absent :
    (q job : String) (t : Locks) → lookup q t ≡ none → lookup q (release job t) ≡ none
unfolding lookup release
lookup-release_absent q job [] h = refl
lookup-release_absent q job ((r, o) ∷ t) h =
    ground (arith, lookup-release_absent q job t, eq_iff r q, eq_iff o job)

pub lookup-release :
    (q job : String) (t : Locks) → IsTable t → lookup q (release job t) ≡ released job (lookup q t)
unfolding lookup release
lookup-release q job [] d = refl
lookup-release q job ((r, o) ∷ t) d =
    ground (
      arith,
      lookup-release q job t d.1,
      lookup-release_absent r job t d.0,
      eq_iff r q,
      eq_iff o job,
    )

pub lookup-reassign :
    (q new r old : String) (t : Locks)
    → lookup q (reassign new r old t)
      ≡ (if str_eq r q then moved new old (lookup q t) else lookup q t)
unfolding lookup reassign
lookup-reassign q new r old [] = ground arith
lookup-reassign q new r old ((s, o) ∷ t) =
    ground (arith, lookup-reassign q new r old t, eq_iff s q, eq_iff r q, eq_iff s r, eq_iff o old)
