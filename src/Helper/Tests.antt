-- ===== src/Helper/Tests.antt =====
-- Runs of `Authorize` of internal/helper/authorization.go: user 1000 asks for the rules of a new
-- network, and for the capture of a machine's confidential state.
use virmill.Prelude.{ℕ, String, true, false, ◌≡◌, refl, none, some, [], ◌∷◌, ◌==◌, length}
use virmill.Prelude.Table.{lookup}
use virmill.Helper.Auxiliary.{auxiliary_absolute_path}
use virmill.Helper.Inspection.{AuxiliaryResponse, Binding, validate_inspection}
use virmill.Helper.Inspection.Answer.{Answered, validate_inspection-Answered}
use virmill.Domain.Error.{Result, ok, err, plain}
use virmill.Network.Managed.{NetworkDefinition}
use virmill.Helper.Request.{
  Request, Policy, Services, NetworkRequest, NetworkPermission, AuxiliaryPermission,
  AuxiliaryFileState, AuxiliaryRoot, AuxiliaryMember, ResourceKey, AuxiliaryInventory,
  AuxiliaryRequest,
}
use virmill.Helper.Authorization.{authorize}
use virmill.Helper.Authorization.Grant.{Granted, authorize-Granted}
use virmill.Helper.Authorization.Networks.{Served, authorize-Served}
use virmill.Helper.Authorization.Confidential.{Bounded, authorize-Bounded}

abbrev services : Services
services = record {
  clean = λ s. s;
  is_control = λ c. c == 10;
  is_format = λ c. c == 173;
  canonical = λ r. some [];
  verify = λ key message signature. length signature == 1;
}

abbrev machine : String
machine = "00000000-0000-4000-8000-000000000001"

abbrev job : String
job = "00000000-0000-4000-8000-000000000002"

abbrev definition : NetworkDefinition
definition = record {
  uuid = machine;
  name = "virmill-00000000-0000-4000-8000-000000000001";
  bridge = "vm000000000000";
  type = "lab";
  ipv4_cidr = "10.20.30.0/24";
  dhcp_enabled = true;
  advertise_default_route = false;
  ipv6_mode = "disabled";
  host_access = "services-only";
  egress = "none";
}

abbrev permission : NetworkPermission
permission = record { actor_uid = 1000; key_id = "k"; resource_id = machine }

abbrev capture : AuxiliaryPermission
capture = record {
  actor_uid = 1000;
  key_id = "k";
  resource_id = machine;
  root_id = "r";
  state_uid = 107;
  state_gid = 107;
  max_bytes = 4096;
  max_members = 2;
  allow_capture = true;
}

abbrev policy : Policy
policy = record {
  api_version = "virmill/v1";
  keys = ("k", "0000000000000000000000000000000000000000000000000000000000000000") ∷ [];
  roots = ("r", "/var/lib/state") ∷ [];
  actors = 1000 ∷ [];
  auxiliary = capture ∷ [];
  networks = [];
  protected_networks = permission ∷ [];
}

abbrev network : NetworkRequest
network = record { version = 2; definition = definition }

abbrev request : Request
request = record {
  api_version = "virmill/v1";
  actor_uid = 1000;
  operation = "network.policy-filter";
  resource_id = machine;
  root_id = "";
  plan_digest = "0000000000000000000000000000000000000000000000000000000000000000";
  job_id = job;
  expires_at = 600_000_000_000;
  key_id = "k";
  signature = "a7";
  mode = "check";
  access = none;
  auxiliary = none;
  network = some network;
}

abbrev state : ℕ → AuxiliaryFileState
state size = record {
  generation = "1";
  size = size;
  modified = "";
  changed = "";
  links = 1;
  mode = 0;
  uid = 107;
  gid = 107;
  acl = "";
  selinux = "";
}

abbrev root : AuxiliaryRoot
root = record { id = "r"; path = "/var/lib/state"; state = state 0 }

abbrev member : AuxiliaryMember
member = record { id = "nvram"; kind = "nvram"; relative_path = "vars.fd"; state = state 1000 }

abbrev key : ResourceKey
key = record {
  provider_id = "libvirt";
  connection_id = "qemu:///system";
  kind = "vm";
  uuid = machine;
}

abbrev inventory : AuxiliaryInventory
inventory = record {
  version = 1;
  resource = key;
  fingerprint = "0000000000000000000000000000000000000000000000000000000000000000";
  layout_vm_id = machine;
  root = root;
  directories = some [];
  members = some (member ∷ []);
  total_bytes = 1000;
  tpm_lock = none;
}

abbrev auxiliary : AuxiliaryRequest
auxiliary = record {
  version = 1;
  fingerprint = "0000000000000000000000000000000000000000000000000000000000000000";
  expected = some inventory;
}

abbrev confidential : Request
confidential = record request {
  operation = "state.auxiliary";
  root_id = "r";
  mode = "capture";
  auxiliary = some auxiliary;
  network = none;
}

network_authorized : authorize services 1000 request policy 0 ≡ ok tt
unfolding authorize lookup
network_authorized = refl

capture_authorized : authorize services 1000 confidential policy 0 ≡ ok tt
unfolding authorize lookup
capture_authorized = refl

expired : authorize services 1000 confidential policy 600_000_000_000 ≡ err plain
unfolding authorize lookup
expired = refl

authorize-Granted_example : Granted services 1000 confidential policy 0
authorize-Granted_example = authorize-Granted services 1000 confidential policy 0 capture_authorized

authorize-Served_example :
    (n : NetworkRequest) × (request.network ≡ some n) × Served request policy n
authorize-Served_example = authorize-Served services 1000 request policy 0 network_authorized refl

authorize-Bounded_example : Bounded confidential policy inventory
authorize-Bounded_example =
    authorize-Bounded services 1000 confidential policy 0 auxiliary inventory capture_authorized
      refl refl refl

abbrev asked : Request
asked = record confidential {
  mode = "inspect";
  auxiliary = some (record auxiliary { expected = none });
}

abbrev answer : AuxiliaryResponse
answer = record {
  version = 1;
  job_id = job;
  binding = machine;
  stage = "inspected";
  inventory = some inventory;
  artifact = none;
}

-- A digest that is the name of the resource
abbrev digest : Binding → Result String
digest b = ok b.resource

answered : validate_inspection services digest asked (some answer) ≡ ok tt
unfolding validate_inspection auxiliary_absolute_path
answered = refl

validate_inspection-Answered_example : Answered digest asked answer
validate_inspection-Answered_example =
    validate_inspection-Answered services digest asked answer answered
