-- ===== src/Storage/Graph.antt =====
-- internal/app/storage/graph.go. A graph is the table of its volumes, in the order in which the map
-- is walked; the errors are plain. The visit takes fuel and is `none` where it runs out.
pub mod Visit
pub mod Rooted
pub mod Deletion
use virmill.Prelude.{
  ℕ, zero, suc, ◌+◌, String, Bool, true, false, not, ◌&&◌, ◌||◌, Option, none, some, List, [], ◌∷◌,
  ◌==◌, str_eq, if◌then◌else◌, length, contains, sort,
}
use virmill.Prelude.Table.{Table, lookup}
use virmill.Prelude.Marks.{Seen, mark}
use virmill.Domain.Fuel.{and_then}
use virmill.Domain.Error.{Result, ok, err, plain, ◌>>◌, ◌>>=◌}

pub record Volume : Type 0 where
  pub id : String
  pub parent : String
  pub immutable : Bool
  pub ownership : String
  pub references : List String
  pub uncertain : Bool

abbrev pub Graph : Type 0
Graph = Table Volume

abbrev pub backs : Option Volume → Bool
backs none = false
backs (some p) = p.immutable

abbrev pub done : String → Option (Result Seen) → Option (Result Seen)
done id none = none
done id (some (err e)) = some (err e)
done id (some (ok seen)) = some (ok (mark id 2 seen))

-- `visit` of a volume that is there, where `above` is the visit of its parent
abbrev pub visit_volume :
    Graph → Seen → String → Option Volume → (String → Option (Result Seen)) → Option (Result Seen)
visit_volume g seen id none above = some (err plain)
visit_volume g seen id (some v) above =
    if not (str_eq id v.id)
    then some (err plain)
    else if str_eq v.parent ""
    then some (ok (mark id 2 (mark id 1 seen)))
    else if not (backs (lookup v.parent g))
    then some (err plain)
    else done id (above v.parent)

-- `visit`
unfoldable pub visit : ℕ → Graph → Seen → String → Option (Result Seen)
unfolding lookup
visit zero g seen id = none
visit (suc fuel) g seen id =
    if seen id == 1
    then some (err plain)
    else if seen id == 2
    then some (ok seen)
    else visit_volume g seen id (lookup id g) (visit fuel g (mark id 1 seen))

-- The loop of `Validate`
unfoldable pub visit_all : ℕ → Graph → Seen → Graph → Option (Result Seen)
unfolding visit
visit_all fuel g seen [] = some (ok seen)
visit_all fuel g seen ((id, v) ∷ rest) =
    and_then (visit fuel g seen id) λ seen'. visit_all fuel g seen' rest

-- `Validate`, with fuel for every volume and one more
unfoldable pub validate : Graph → Option (Result Seen)
unfolding visit_all
validate g = visit_all (length g + 1) g (λ id. 0) g

abbrev pub add_used : String → List String → List String → List String
add_used id [] ids = ids
add_used id (r ∷ rs) ids = id ∷ ids

abbrev pub add_parent : String → List String → List String
add_parent parent ids = if str_eq parent "" then ids else parent ∷ ids

-- The first loop of `DeletionCandidates`
unfoldable pub referenced : Graph → Result (List String)
referenced [] = ok []
referenced ((id, v) ∷ rest) =
    (if v.uncertain then err plain else ok tt)
    >> (referenced rest >>= λ ids. ok (add_parent v.parent (add_used v.id v.references ids)))

-- The second one
unfoldable pub unreferenced : List String → Graph → List String
unreferenced ids [] = []
unreferenced ids ((id, v) ∷ rest) =
    let out = unreferenced ids rest in
    if not (contains ids id) && str_eq v.ownership "managed" then id ∷ out else out

-- `DeletionCandidates` once the graph is validated
abbrev pub collect : Graph → Option (Result Seen) → Option (Result (List String))
collect g none = none
collect g (some (err e)) = some (err e)
collect g (some (ok seen)) = some (referenced g >>= λ ids. ok (sort (unreferenced ids g)))

-- `DeletionCandidates`
unfoldable pub deletion_candidates : Graph → Option (Result (List String))
unfolding validate referenced unreferenced
deletion_candidates g = collect g (validate g)
