-- ===== src/Storage/Tests.antt =====
-- Runs of internal/app/storage/graph.go: an overlay over an immutable base, and a cycle.
use virmill.Prelude.{String, true, false, ◌≡◌, ◌≢◌, refl, none, some, [], ◌∷◌, sort}
use virmill.Prelude.Table.{IsTable, lookup}
use virmill.Prelude.Marks.{Seen, mark}
use virmill.Domain.Error.{ok, err, plain}
use virmill.Storage.Graph.{Volume, Graph, validate, deletion_candidates}
use virmill.Storage.Graph.Visit.{validate-ends}
use virmill.Storage.Graph.Rooted.{Rooted, validate-Rooted}
use virmill.Storage.Graph.Deletion.{Deletable, deletion_candidates-Deletable}

abbrev volume : String → String → Volume
volume id parent = record {
  id = id;
  parent = parent;
  immutable = true;
  ownership = "managed";
  references = [];
  uncertain = false;
}

abbrev overlay : Graph
overlay = ("top", volume "top" "base") ∷ ("base", volume "base" "") ∷ []

abbrev cycle : Graph
cycle = ("a", volume "a" "b") ∷ ("b", volume "b" "a") ∷ []

abbrev overlay_seen : Seen
overlay_seen = mark "top" 2 (mark "base" 2 (mark "base" 1 (mark "top" 1 (λ id. 0))))

overlay-IsTable : IsTable overlay
unfolding lookup
overlay-IsTable = (refl, (refl, tt))

overlay_valid : validate overlay ≡ some (ok overlay_seen)
unfolding validate
overlay_valid = refl

cycle_refused : validate cycle ≡ some (err plain)
unfolding validate
cycle_refused = refl

overlay_candidates : deletion_candidates overlay ≡ some (ok ("top" ∷ []))
unfolding deletion_candidates sort
overlay_candidates = refl

validate-ends_example : validate cycle ≢ none
validate-ends_example = validate-ends cycle

validate-Rooted_example : Rooted overlay "top"
unfolding lookup
validate-Rooted_example =
    validate-Rooted overlay overlay_seen "top" (volume "top" "base") overlay_valid refl

deletion_candidates-Deletable_example : Deletable overlay "top"
deletion_candidates-Deletable_example =
    deletion_candidates-Deletable overlay ("top" ∷ []) "top" overlay-IsTable overlay_candidates refl
