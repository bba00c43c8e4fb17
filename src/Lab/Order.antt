-- ===== src/Lab/Order.antt =====
-- The order of the machines in `Validate` of internal/app/lab/validate.go. A graph has the
-- dependencies of each machine. The visit takes fuel and is `none` where it runs out.
pub mod Marks
pub mod Sorted
pub mod Levels
use virmill.Prelude.{
  ℕ, zero, suc, ◌+◌, String, Option, none, some, List, [], ◌∷◌, ◌++◌, ◌==◌, if◌then◌else◌, length,
  sort,
}
use virmill.Prelude.Table.{Table, lookup}
use virmill.Prelude.Marks.{Seen, mark}
use virmill.Domain.Error.{Result, ok, err, plain}
use virmill.Domain.Fuel.{and_then}

abbrev pub Graph : Type 0
Graph = Table (List String)

-- `state` and `out.Order`
pub record Progress : Type 0 where
  pub seen : Seen
  pub order : List String

abbrev pub Step : Type 0
Step = Progress → String → Option (Result Progress)

abbrev pub enter_path : String → Progress → Progress
enter_path id p = record p { seen = mark id 1 p.seen }

abbrev pub leave_path : String → Progress → Progress
leave_path id p = record p { seen = mark id 2 p.seen; order = p.order ++ id ∷ [] }

-- A loop of visits
unfoldable pub visit_each : Step → List String → Progress → Option (Result Progress)
visit_each step [] p = some (ok p)
visit_each step (d ∷ ds) p = and_then (step p d) λ q. visit_each step ds q

unfoldable pub visit_machine :
    Step → Progress → String → Option (List String) → Option (Result Progress)
unfolding visit_each
visit_machine step p id none = some (err plain)
visit_machine step p id (some deps) =
    and_then (visit_each step (sort deps) (enter_path id p)) λ q. some (ok (leave_path id q))

-- `visit`
unfoldable pub visit : ℕ → Graph → Step
unfolding lookup visit_machine
visit zero g p id = none
visit (suc fuel) g p id =
    if p.seen id == 1
    then some (err plain)
    else if p.seen id == 2
    then some (ok p)
    else visit_machine (visit fuel g) p id (lookup id g)

abbrev pub keys : Graph → List String
keys [] = []
keys ((id, deps) ∷ g) = id ∷ keys g

abbrev pub unvisited : Progress
unvisited = record { seen = λ id. 0; order = [] }

-- The visits of all machines, with fuel for every one and one more
unfoldable pub order_of : Graph → Option (Result Progress)
unfolding visit visit_each
order_of g = visit_each (visit (length g + 1) g) (sort (keys g)) unvisited
