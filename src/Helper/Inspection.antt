-- ===== src/Helper/Inspection.antt =====
-- `ValidateAuxiliaryInspection` of internal/helper/auxiliary.go: the answer to a request that
-- inspects confidential state. The digest of the fields that are bound is a parameter.
pub mod Answer
use virmill.Prelude.{
  ℕ, String, ◌≤◌, ◌<◌, Bool, true, false, not, ◌&&◌, ◌||◌, ◌≡◌, refl, Option, none, some, List, [],
  ◌∷◌, ltb, ◌==◌, str_eq, if◌then◌else◌, length, arith, both, inl, inr, Option-cases, ==_iff,
  eq_iff, not-true,
}
use virmill.Domain.Error.{Result, Code, fail, ok, err, ◌>>=◌}
use virmill.Helper.Request.{
  Request, Services, AuxiliaryRequest, AuxiliaryInventory, AuxiliaryMember,
}
use virmill.Helper.Network.{is_some}
use virmill.Helper.Auxiliary.{
  max_auxiliary_members, max_auxiliary_payload_bytes, names_machine, auxiliary_absolute_path,
  listed, sum_sizes, totals,
}

pub record AuxiliaryArtifact : Type 0 where
  pub format : String
  pub size : ℕ
  pub sha256 : String
  pub inventory_digest : String
  pub member_sha256 : List (String × String)

pub record AuxiliaryResponse : Type 0 where
  pub version : ℕ
  pub job_id : String
  pub binding : String
  pub stage : String
  pub inventory : Option AuxiliaryInventory
  pub artifact : Option AuxiliaryArtifact

-- The fields of a request that an answer is bound to
pub record Binding : Type 0 where
  pub actor : ℕ
  pub operation : String
  pub resource : String
  pub root : String
  pub plan : String
  pub job : String
  pub key : String
  pub auxiliary : Option AuxiliaryRequest

-- `AuxiliaryBinding`, where `digest` is `operations.Digest`
unfoldable pub auxiliary_binding : (Binding → Result String) → Request → Result String
auxiliary_binding digest r = digest (record {
  actor = r.actor_uid;
  operation = r.operation;
  resource = r.resource_id;
  root = r.root_id;
  plan = r.plan_digest;
  job = r.job_id;
  key = r.key_id;
  auxiliary = r.auxiliary;
})

-- The guard on the request
abbrev pub inspects : Request → AuxiliaryRequest → Bool
inspects r a =
    str_eq r.operation "state.auxiliary"
    && str_eq r.mode "inspect"
    && not (is_some r.access)
    && a.version == 1
    && not (is_some a.expected)

-- The guard on the response
abbrev pub answers : Request → AuxiliaryResponse → String → Bool
answers r response binding =
    response.version == 1
    && str_eq response.job_id r.job_id
    && str_eq response.binding binding
    && str_eq response.stage "inspected"
    && not (is_some response.artifact)

-- The guard on its inventory
abbrev pub reported : Services → Request → AuxiliaryRequest → AuxiliaryInventory → Bool
reported svc r a i =
    i.version == 1
    && names_machine i.resource r.resource_id
    && str_eq i.fingerprint a.fingerprint
    && str_eq i.layout_vm_id r.resource_id
    && str_eq i.root.id r.root_id
    && auxiliary_absolute_path svc i.root.path
    && is_some i.directories
    && is_some i.members

-- The bounds on its inventory
abbrev pub payload_fits : AuxiliaryInventory → Bool
payload_fits i =
    not (ltb 128 (length (listed i.directories)))
    && not (length (listed i.members) == 0)
    && not (ltb max_auxiliary_members (length (listed i.members)))
    && not (ltb max_auxiliary_payload_bytes i.total_bytes)
    && totals (sum_sizes max_auxiliary_payload_bytes 0 (listed i.members)) i.total_bytes

unfoldable pub check_inventory :
    Services → Request → AuxiliaryRequest → Option AuxiliaryInventory → Result (Unit {0})
unfolding sum_sizes
check_inventory svc r a none = err (fail Code.recovery_required)
check_inventory svc r a (some i) =
    if reported svc r a i && payload_fits i then ok tt else err (fail Code.recovery_required)

unfoldable pub check_answer :
    Services → Request → AuxiliaryRequest → AuxiliaryResponse → String → Result (Unit {0})
unfolding check_inventory
check_answer svc r a response binding =
    if answers r response binding
    then check_inventory svc r a response.inventory
    else err (fail Code.recovery_required)

-- The checks on a request with this auxiliary part, and on the answer
unfoldable pub inspection :
    Services
    → (Binding → Result String)
    → Request
    → AuxiliaryResponse
    → Option AuxiliaryRequest
    → Result (Unit {0})
unfolding auxiliary_binding check_answer
inspection svc digest r response none = err (fail Code.recovery_required)
inspection svc digest r response (some a) =
    if not (inspects r a)
    then err (fail Code.recovery_required)
    else (auxiliary_binding digest r >>= λ binding. check_answer svc r a response binding)

-- `ValidateAuxiliaryInspection`
unfoldable pub validate_inspection :
    Services → (Binding → Result String) → Request → Option AuxiliaryResponse → Result (Unit {0})
unfolding inspection
validate_inspection svc digest r none = err (fail Code.recovery_required)
validate_inspection svc digest r (some response) = inspection svc digest r response r.auxiliary
