-- ===== src/Engine/RequestTests.antt =====
-- The theorems on requests, on the first plan of the samples and on a plan that is made
use virmill.Prelude.{◌≡◌, refl, true, false, some, List, [], ◌∷◌, sort}
use virmill.Prelude.Table.{lookup, insert}
use virmill.Domain.Error.{ok}
use virmill.Domain.Plan.{Plan, Step}
use virmill.Store.Locks.{acquire}
use virmill.Store.Db.{Db, empty, save_plan, find_dedup}
use virmill.Store.Write.{accept}
use virmill.Engine.Apply.{
  ApplyRequest, Applied, PlanRequest, apply, apply_new, make_plan, plan_lifetime,
}
use virmill.Engine.Apply.Authority.{Started, apply-Started}
use virmill.Engine.Apply.Replay.{apply-again}
use virmill.Samples.{
  plain_services, a_step, first_plan, first_job, planned, accepted_db, stuck_job, stuck_db,
}
use virmill.Store.Runs.{planned-IsSound, update_ran}
use virmill.Store.Reach.{Reach, here, next, updated}
use virmill.Domain.Job.{Job}

abbrev steps : List Step
steps = a_step "start" ∷ []

abbrev request : ApplyRequest
request = record {
  plan_id = "p1";
  plan_digest = "d";
  idempotency_key = "k1";
  acknowledgements = [];
}

abbrev applied : Applied
applied = record { job = first_job; db = accepted_db; started = true }

apply_ran : apply plain_services 1000 request "j1" 5 planned ≡ ok applied
unfolding apply apply_new find_dedup lookup accept insert acquire sort
apply_ran = refl

apply-Started_example : Started plain_services 1000 request "j1" 5 planned applied
apply-Started_example =
    apply-Started plain_services 1000 request "j1" 5 planned applied apply_ran refl

-- The job has run since then.
since : Reach accepted_db stuck_db
unfolding lookup
since = next here (updated stuck_job first_job "Step may have taken effect" 7 refl refl update_ran)

apply-again_example :
    (lookup "j1" accepted_db.jobs ≡ some first_job)
    × ((j : Job) × (lookup "j1" stuck_db.jobs ≡ some j)
        × (apply plain_services 1000 request "j7" 60 stuck_db
            ≡ ok (record { job = j; db = stuck_db; started = false })))
apply-again_example =
    apply-again plain_services 1000 request "j1" "j7" 5 60 planned applied stuck_db planned-IsSound
      apply_ran refl since

abbrev plan_request : PlanRequest
plan_request = record {
  uid = 1000;
  connection = "local";
  operation = "vm.start";
  resources = "disk" ∷ [];
  before = [];
  input = "{}";
  steps = steps;
  acknowledgements = [];
  risks = [];
}

abbrev made_plan : Plan
made_plan = record first_plan {
  expires_at = plan_lifetime;
  required_grants = record { operation = "vm.start"; resource_id = "disk" } ∷ [];
}

abbrev made_db : Db
made_db = record empty {
  plans = ("p1", record { digest = "d"; body = made_plan; input = "{}" }) ∷ [];
}

abbrev made_accepted : Db
made_accepted = record accepted_db { plans = made_db.plans }

make_plan_ran : make_plan plain_services plan_request "p1" 0 empty ≡ ok (made_plan, made_db)
unfolding make_plan sort save_plan insert lookup
make_plan_ran = refl
