-- ===== src/Samples.antt =====
-- Plans and journals that the tests run on
use virmill.Prelude.{true, none, some, String, List, [], ◌∷◌, false}
use virmill.Domain.Error.{ok}
use virmill.Domain.Job.{Job, recovery_required, partial, info, warning}
use virmill.Domain.Plan.{Plan, Step}
use virmill.Engine.Apply.{Handler, Services}
use virmill.Store.Db.{Db, empty}
use virmill.Store.Write.{new_job}
use virmill.Store.Recovery.{handed_over}

abbrev pub a_step : String → Step
a_step action = record {
  id = action;
  action = action;
  preconditions = [];
  idempotency = "";
  compensation = "";
  reconciliation = "";
  completion_predicate = "";
}

abbrev pub a_plan : String → List String → Plan
a_plan id resources = record {
  api_version = "virmill/v1";
  id = id;
  created_at = 0;
  expires_at = 100;
  actor_uid = 1000;
  connection_id = "local";
  operation = "vm.start";
  resource_ids = resources;
  input_digest = "i";
  digest = "d";
  before = [];
  required_grants = [];
  acknowledgements = [];
  risks = [];
  steps = a_step "start" ∷ [];
  estimates = record { additional_bytes = 0; requires_downtime = false; notes = "" };
  review = [];
}

-- A plan on one disk, and its recovery
abbrev pub first_plan : Plan
first_plan = a_plan "p1" ("disk" ∷ [])

abbrev pub recovery_plan : Plan
recovery_plan = a_plan "p2" ("disk" ∷ "net" ∷ [])

abbrev pub first_job : Job
first_job = new_job "j1" "p1" 5 ""

abbrev pub child_job : Job
child_job = new_job "j2" "p2" 9 "j1"

-- The journal with both plans, then with a job of the first
abbrev pub planned : Db
planned = record empty {
  plans =
      ("p1", record { digest = "d"; body = first_plan; input = "{}" })
      ∷ ("p2", record { digest = "d"; body = recovery_plan; input = "{}" })
      ∷ [];
}

abbrev pub accepted_db : Db
accepted_db = record planned {
  jobs = ("j1", first_job) ∷ [];
  dedup = ("k1", record { request_digest = "r1"; job_id = "j1"; created_at = 5 }) ∷ [];
  locks = ("disk", "j1") ∷ [];
}

-- The job needs recovery.
abbrev pub stuck_job : Job
stuck_job = record first_job { state = recovery_required }

abbrev pub stuck_db : Db
stuck_db = record accepted_db {
  jobs = ("j1", stuck_job) ∷ [];
  events =
      record {
        operation_id = "j1";
        seq = 1;
        at = 7;
        phase = recovery_required;
        severity = info;
        message = "Step may have taken effect";
      }
      ∷ [];
}

-- The recovery was accepted.
abbrev pub recovered_db : Db
recovered_db = record stuck_db {
  jobs =
      ("j1", record stuck_job { state = partial; recovery_operation_id = "j2" })
      ∷ ("j2", child_job)
      ∷ [];
  dedup =
      ("k1", record { request_digest = "r1"; job_id = "j1"; created_at = 5 })
      ∷ ("k2", record { request_digest = "r2"; job_id = "j2"; created_at = 9 })
      ∷ [];
  locks = ("disk", "j2") ∷ ("net", "j2") ∷ [];
  events =
      record {
        operation_id = "j1";
        seq = 1;
        at = 7;
        phase = recovery_required;
        severity = info;
        message = "Step may have taken effect";
      }
      ∷ record {
        operation_id = "j1";
        seq = 2;
        at = 9;
        phase = partial;
        severity = warning;
        message = handed_over "j2";
      }
      ∷ [];
}

-- A workflow that finds everything valid and complete
abbrev pub quiet : Handler
quiet = record {
  validation = λ db p input. none;
  reviewer = none;
  estimator = none;
  recovery_parent = none;
  confirmation = λ db p input step. ok true;
}

abbrev pub plain_services : Services
plain_services = record {
  handlers = λ operation. some quiet;
  canonical = λ input. ok input;
  hash_request = λ uid r. ok "r1";
  hash_plan = λ p. ok "d";
  decode_input = λ input. none;
  hash_input = λ input. ok "i";
}
