-- ===== src/GuestSetup/Tests.antt =====
-- A run of the first stage of a recipe, internal/guestsetup/stages.go
use Prim.Native.String.{len}
use virmill.Prelude.{
  ◌≤◌, String, Bool, true, false, ◌≡◌, ◌⊎◌, refl, none, some, [], ◌∷◌, arith, str_eq, eq_iff,
  if◌then◌else◌,
}
use virmill.Prelude.Table.{lookup}
use virmill.Domain.Error.{ok}
use virmill.Domain.Job.{Job, State}
use virmill.Domain.Plan.{Plan, Step}
use virmill.Store.Db.{empty}
use virmill.Samples.{first_plan}
use virmill.GuestSetup.Receipt.{SshResult, pos, digest_fits}
use virmill.GuestSetup.Stages.{FrozenInput, StageRecord, Codec}
use virmill.Prelude.Pattern.{fits}
use virmill.Network.Prefix.{same_codes}
use virmill.Prelude.{ap, subst}
use virmill.GuestSetup.Checks.{boundary}
use virmill.GuestSetup.Execute.{
  World, read_back, finished, Surroundings, execute, reconcile, intent_record,
}
use virmill.GuestSetup.Execute.Once.{execute-twice, Named}
use virmill.GuestSetup.Execute.Fits.{with_receipt}
use virmill.GuestSetup.Execute.Confirmed.{reconcile-execute}

abbrev zeros : String
zeros = "0000000000000000000000000000000000000000000000000000000000000000"

abbrev job_uuid : String
job_uuid = "11111111-1111-4111-8111-111111111111"

abbrev first_step : Step
first_step = record {
  id = "readiness";
  action = "guest recipe readiness";
  preconditions = [];
  idempotency = "";
  compensation = "";
  reconciliation = "";
  completion_predicate = "";
}

abbrev recipe_plan : Plan
recipe_plan = record first_plan { steps = first_step ∷ [] }

abbrev recipe_job : Job
recipe_job = record {
  id = job_uuid;
  plan_id = first_plan.id;
  state = State.running;
  step = 0;
  created_at = 3;
  error = none;
  cancel_requested = false;
  recovery_of = "";
  recovery_operation_id = "";
}

abbrev frozen : FrozenInput
frozen = record {
  resource = record {
    provider_id = "libvirt";
    connection_id = "qemu:///system";
    kind = "vm";
    uuid = job_uuid;
  };
  recipe = record {
    privilege = "user";
    timeout_seconds = 30;
    check = "true";
    apply = "true";
    verify = "true";
  };
  script_sha256 = [];
  target = record {
    address = "10.1.0.3";
    port = 22;
    user = "admin";
    identity_file = "id";
    known_hosts_file = "known";
    identity_sha256 = zeros;
    known_hosts_sha256 = zeros;
  };
  arguments = [];
  tool_sha256 = zeros;
}

-- The user 1000
abbrev ready : SshResult
ready = record { exit_code = pos 0; stdout = b'1' ∷ b'0' ∷ b'0' ∷ b'0' ∷ b'\n' ∷ []; stderr = [] }

abbrev around : Surroundings
around = record {
  began = 5;
  ended = 6;
  before_intent = ok recipe_job;
  before_run = ok recipe_job;
  behind = ok recipe_job;
  answer = finished ready;
}

abbrev no_codec : Codec
no_codec = record {
  hash = λ text. zeros;
  digest_texts = λ texts. zeros;
  digest_target = λ target. zeros;
  encode = λ r. "";
  decode = λ text. none;
}

abbrev is_intent : StageRecord → String
is_intent r = elim r.receipt [
  | none ↦ "intent"
  | some _ ↦ if r.intent.run_planned then "run" else "skip"
]

-- A codec of the three records that an execution of the step may store
abbrev small_codec : Codec
unfolding intent_record with_receipt
small_codec = record no_codec {
  encode = is_intent;
  decode = λ text.
      if str_eq text "intent"
      then some (intent_record no_codec recipe_plan frozen recipe_job "readiness" around true)
      else if str_eq text "run"
      then some (with_receipt no_codec recipe_plan frozen recipe_job "readiness" around true)
      else some (with_receipt no_codec recipe_plan frozen recipe_job "readiness" around false);
}

abbrev world : World
world = record { db = record empty { jobs = (job_uuid, recipe_job) ∷ [] }; calls = [] }

world-Named : Named world.db
unfolding lookup
world-Named k j h = ground (arith, eq_iff job_uuid k)

zeros_fit : digest_fits zeros ≡ true
unfolding fits
zeros_fit = refl

after-Named : Named (execute small_codec job_uuid recipe_plan frozen first_step around world).1.db
unfolding execute fits read_back small_codec same_codes lookup
after-Named k j h = world-Named k j h

execute-twice_example :
    ((execute small_codec job_uuid recipe_plan frozen first_step around world).1.calls ≡ [])
    ⊎ ((execute no_codec job_uuid recipe_plan frozen first_step around
          (execute small_codec job_uuid recipe_plan frozen first_step around world).1).1.calls
        ≡ (execute small_codec job_uuid recipe_plan frozen first_step around world).1.calls)
execute-twice_example =
    execute-twice small_codec no_codec job_uuid recipe_plan recipe_plan frozen frozen first_step
      first_step around around world
      (execute small_codec job_uuid recipe_plan frozen first_step around world).1 world-Named
      after-Named refl (λ n. n)

executed : (execute small_codec job_uuid recipe_plan frozen first_step around world).0 ≡ ok tt
unfolding execute fits read_back small_codec same_codes
executed = refl

only_job : (j : Job) → lookup job_uuid world.db.jobs ≡ some j → recipe_job ≡ j
unfolding lookup
only_job j h = cc

small_records :
    (j : Job) (run : Bool)
    → lookup job_uuid world.db.jobs ≡ some j
    → len
        (small_codec.encode (with_receipt small_codec recipe_plan frozen j "readiness" around run))
      ≤ 16384
unfolding small_codec
small_records j true h = omega arith
small_records j false h = omega arith

decoded_records :
    (j : Job) (run : Bool)
    → lookup job_uuid world.db.jobs ≡ some j
    → small_codec.decode
        (small_codec.encode (with_receipt small_codec recipe_plan frozen j "readiness" around run))
      ≡ some (with_receipt small_codec recipe_plan frozen j "readiness" around run)
unfolding small_codec
decoded_records j true h =
    ap (λ k. some (with_receipt no_codec recipe_plan frozen k "readiness" around true))
      (only_job j h)
decoded_records j false h =
    ap (λ k. some (with_receipt no_codec recipe_plan frozen k "readiness" around false))
      (only_job j h)

reconcile-execute_example :
    reconcile small_codec job_uuid recipe_plan frozen first_step
      (ok recipe_job)
      (ok recipe_job)
      (execute small_codec job_uuid recipe_plan frozen first_step around world).1.db
    ≡ ok true
unfolding boundary small_codec
reconcile-execute_example =
    reconcile-execute small_codec job_uuid recipe_plan frozen first_step around world
      (λ text. zeros_fit) (omega arith)
      (λ j h. subst (λ k. k.created_at ≤ 5) (only_job j h) (omega arith)) (omega arith)
      small_records decoded_records (ok recipe_job) (ok recipe_job) executed refl refl
