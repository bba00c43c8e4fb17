-- ===== src/GuestSetup/Stages.antt =====
-- The stages of a recipe in internal/guestsetup/stages.go, which the journal keeps as records of
-- their intents and receipts. `Codec` has the digests and the JSON of the standard library. Of a
-- recipe the fields are left out that only `decodeInput` reads. Canceled contexts are left out.
use Prim.Native.String.{len, ◌++◌ as append}
use virmill.Prelude.{
  ℕ, String, Bool, true, false, not, ◌&&◌, Option, none, some, List, [], ◌∷◌, ◌++◌, ltb, ◌==◌,
  str_eq, if◌then◌else◌, get_elem?,
}
use virmill.Prelude.Table.{Table, lookup}
use virmill.Domain.Error.{Err, Result, ok, err, fail, Code, ◌>>=◌}
use virmill.Domain.Job.{Job}
use virmill.Domain.Plan.{Plan}
use virmill.Store.Db.{Db}
use virmill.Store.Metadata.{metadata_bytes}
use virmill.GuestSetup.Receipt.{
  Stamp, is_utc, is_before, StageReceipt, stage_names, completed, valid_receipt,
}

pub record ResourceKey : Type 0 where
  pub provider_id : String
  pub connection_id : String
  pub kind : String
  pub uuid : String

pub record Target : Type 0 where
  pub address : String
  pub port : ℕ
  pub user : String
  pub identity_file : String
  pub known_hosts_file : String
  pub identity_sha256 : String
  pub known_hosts_sha256 : String

pub record Recipe : Type 0 where
  pub privilege : String
  pub timeout_seconds : ℕ
  pub check : String
  pub apply : String
  pub verify : String

pub record FrozenInput : Type 0 where
  pub resource : ResourceKey
  pub recipe : Recipe
  pub script_sha256 : Table String
  pub target : Target
  pub arguments : List String
  pub tool_sha256 : String

pub record StageIntent : Type 0 where
  pub version : ℕ
  pub operation_id : String
  pub plan_id : String
  pub plan_digest : String
  pub input_digest : String
  pub resource : ResourceKey
  pub stage : String
  pub script_sha256 : String
  pub arguments_sha256 : String
  pub target_sha256 : String
  pub ssh_sha256 : String
  pub run_planned : Bool
  pub created_at : Stamp

pub record StageRecord : Type 0 where
  pub intent : StageIntent
  pub receipt : Option StageReceipt

pub record StageResult : Type 0 where
  pub stage : String
  pub intent : Option StageIntent
  pub receipt : Option StageReceipt
  pub complete : Bool
  pub effect_unknown : Bool

pub record Codec : Type 0 where
  pub hash : List ℕ → String
  pub digest_texts : List String → String
  pub digest_target : Target → String
  pub encode : StageRecord → String
  pub decode : String → Option StageRecord

abbrev pub stage_kind : String
stage_kind = "guest-recipe-stage-v1"

abbrev pub record_id : Job → String → String
record_id j name = append (append j.id ":") name

abbrev pub recovery : Err
recovery = fail Code.recovery_required

-- A missing key of a Go map reads as the empty text.
abbrev pub or_empty : Option String → String
or_empty none = ""
or_empty (some s) = s

abbrev pub same_key : ResourceKey → ResourceKey → Bool
same_key a b =
    str_eq a.provider_id b.provider_id
    && str_eq a.connection_id b.connection_id
    && str_eq a.kind b.kind
    && str_eq a.uuid b.uuid

abbrev pub same_bool : Bool → Bool → Bool
same_bool true b = b
same_bool false b = not b

-- `reflect.DeepEqual` of two intents with the same time
unfoldable pub same_intent : StageIntent → StageIntent → Bool
same_intent a b =
    a.version == b.version
    && str_eq a.operation_id b.operation_id
    && str_eq a.plan_id b.plan_id
    && str_eq a.plan_digest b.plan_digest
    && str_eq a.input_digest b.input_digest
    && same_key a.resource b.resource
    && str_eq a.stage b.stage
    && str_eq a.script_sha256 b.script_sha256
    && str_eq a.arguments_sha256 b.arguments_sha256
    && str_eq a.target_sha256 b.target_sha256
    && str_eq a.ssh_sha256 b.ssh_sha256
    && same_bool a.run_planned b.run_planned

-- The outcome of the second stage, where it was needless to apply the recipe
abbrev pub configured_receipt : Option StageReceipt → Bool
configured_receipt none = false
configured_receipt (some r) = str_eq r.outcome "already-configured"

abbrev pub configured_row : Option StageResult → Bool
configured_row none = false
configured_row (some row) = configured_receipt row.receipt

-- `run`
abbrev pub runs : String → List StageResult → Bool
runs name rows = not (str_eq name "apply" && configured_row (get_elem? rows 1))

abbrev pub finished_in_time : Stamp → Option StageReceipt → Bool
finished_in_time created none = true
finished_in_time created (some r) = not (is_before r.finished_at created)

abbrev pub blank_row : String → StageResult
blank_row name = record {
  stage = name;
  intent = none;
  receipt = none;
  complete = false;
  effect_unknown = false;
}

abbrev pub lacks_receipt : Option StageReceipt → Bool
lacks_receipt none = true
lacks_receipt (some r) = false

unfoldable pub row_of : String → Bool → StageRecord → StageResult
unfolding completed
row_of name run rec = record {
  stage = name;
  intent = some rec.intent;
  receipt = rec.receipt;
  complete = completed name rec.receipt;
  effect_unknown = run && lacks_receipt rec.receipt;
}

module _ (codec : Codec) (p : Plan) (input : FrozenInput) (j : Job) where
  -- `intent`
  unfoldable pub make_intent : String → Bool → Stamp → StageIntent
  unfolding lookup
  make_intent name run created = record {
    version = 1;
    operation_id = j.id;
    plan_id = p.id;
    plan_digest = p.digest;
    input_digest = p.input_digest;
    resource = input.resource;
    stage = name;
    script_sha256 = or_empty (lookup name input.script_sha256);
    arguments_sha256 = codec.digest_texts (if str_eq name "readiness" then [] else input.arguments);
    target_sha256 = codec.digest_target input.target;
    ssh_sha256 = input.tool_sha256;
    run_planned = run;
    created_at = created;
  }

  unfoldable pub record_fits : String → Bool → StageRecord → Bool
  unfolding same_intent make_intent valid_receipt
  record_fits name run rec =
      same_intent (make_intent name run rec.intent.created_at) rec.intent
      && is_utc rec.intent.created_at
      && not (ltb rec.intent.created_at.nanos j.created_at)
      && valid_receipt codec.hash name run rec.receipt
      && finished_in_time rec.intent.created_at rec.receipt

  unfoldable pub check_record : String → Bool → Option StageRecord → Result StageResult
  unfolding record_fits row_of
  check_record name run none = err recovery
  check_record name run (some rec) =
      if record_fits name run rec then ok (row_of name run rec) else err recovery

  -- The body of the loop: the rows so far, whether the last of them is complete, and the record
  unfoldable pub read_stage : String → List StageResult → Bool → Option String → Result StageResult
  unfolding check_record
  read_stage name rows prior none = ok (blank_row name)
  read_stage name rows prior (some body) =
      if not prior
      then err recovery
      else if ltb 16384 (len body)
      then err recovery
      else check_record name (runs name rows) (codec.decode body)

  unfoldable pub load : Db → List String → List StageResult → Bool → Result (List StageResult)
  unfolding read_stage metadata_bytes
  load db [] rows prior = ok rows
  load db (name ∷ names) rows prior =
      read_stage name rows prior (metadata_bytes stage_kind (record_id j name) db) >>= λ row.
      load db names (rows ++ row ∷ []) row.complete

  -- `stages`
  unfoldable pub stages : Db → Result (List StageResult)
  unfolding load stage_names
  stages db = load db stage_names [] true
