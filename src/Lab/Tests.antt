-- ===== src/Lab/Tests.antt =====
-- Runs of internal/app/lab/validate.go: a server on a protected network, and a router that depends on
-- it and joins the network to another.
use Prim.Native.String.{◌++◌ as append}
use virmill.Prelude.{
  String, true, false, ◌≡◌, refl, Option, some, List, [], ◌∷◌, All, sort, arith, contains, ◌<◌, ℕ,
  str_eq, if◌then◌else◌, eq_iff, Bool-cases, inl, inr, subst,
}
use virmill.Prelude.Table.{IsTable, lookup}
use virmill.Prelude.Digits.{decimal}
use virmill.Domain.Error.{ok, err, plain}
use virmill.Network.Prefix.{parse_prefix, masked}
use virmill.Network.Config.{overlaps, overlaps_any}
use virmill.Network.Intent.{Spec}
use virmill.Network.Nics.{Address, Nic, address_of, validate_nics, dual_homed, unverified}
use virmill.Lab.Order.{Progress, order_of, keys}
use virmill.Lab.Order.Sorted.{Follows}
use virmill.Lab.Order.Levels.{order_of-accepts}
use virmill.Lab.Definition.{Vm, Definition, Report, validate}
use virmill.Lab.Definition.Accepted.{nets_of, graph_of}
use virmill.Lab.Definition.Valid.{SafeMachine, validate-Follows, validate-Safe}

-- An address of IPv4, parsed as a prefix of one address
abbrev parse_ip4 : String → Option Address
parse_ip4 s = address_of (parse_prefix (append s "/32"))

abbrev nic : String → String → String → Nic
nic id network address = record {
  id = id;
  network_ref = network;
  default_route = str_eq network "uplink";
  ipv4 = record { mode = "static"; address = address; gateway = ""; dns = "10.1.0.1" ∷ [] };
}

abbrev guest : List Nic → Vm
guest nics = record {
  source_type = "image";
  template_ref = "";
  nics = nics;
  disks = "root" ∷ [];
  firmware_mode = "uefi";
  secure_boot = true;
}

abbrev protected_net : Spec
protected_net = record {
  kind = "lab";
  bridge_ref = "";
  ipv4 =
      some (record { cidr = "10.1.0.0/24"; dhcp_enabled = true; advertise_default_route = false });
  ipv6_mode = "";
  host_access = "allow";
  egress = "none";
}

abbrev uplink : Spec
uplink = record {
  kind = "nat";
  bridge_ref = "";
  ipv4 =
      some (record { cidr = "10.2.0.0/24"; dhcp_enabled = true; advertise_default_route = true });
  ipv6_mode = "";
  host_access = "allow";
  egress = "any";
}

abbrev router_nics : List Nic
router_nics = nic "in" "core" "10.1.0.2/24" ∷ nic "out" "uplink" "10.2.0.2/24" ∷ []

abbrev two_machines : Definition
two_machines = record {
  networks =
      record { id = "core"; spec = some protected_net }
      ∷ record { id = "uplink"; spec = some uplink }
      ∷ [];
  machines =
      record { id = "router"; spec = guest router_nics; depends_on = "server" ∷ [] }
      ∷ record {
        id = "server";
        spec = guest (nic "eth" "core" "10.1.0.3/24" ∷ []);
        depends_on = [];
      }
      ∷ [];
}

abbrev two_report : Report
two_report = record {
  valid = true;
  order = "server" ∷ "router" ∷ [];
  warnings = dual_homed ∷ unverified ∷ unverified ∷ [];
  host_preflight = "not-run";
}

two_valid : validate parse_ip4 two_machines ≡ some (ok two_report)
unfolding validate sort decimal overlaps_any overlaps
two_valid = refl

abbrev two_warned : List String
two_warned = dual_homed ∷ unverified ∷ []

router_valid :
    validate_nics parse_ip4 (some (nets_of two_machines.networks)) router_nics ≡ ok two_warned
unfolding validate_nics lookup decimal parse_prefix masked overlaps_any overlaps
router_valid = refl

-- Two machines that depend on each other
cycle_refused : order_of (("a", "b" ∷ []) ∷ ("b", "a" ∷ []) ∷ []) ≡ some (err plain)
unfolding order_of sort
cycle_refused = refl

validate-Follows_example :
    IsTable (graph_of two_machines.machines)
    × Follows (graph_of two_machines.machines) [] two_report.order
    × ((id : String)
        → contains (keys (graph_of two_machines.machines)) id ≡ true
        → contains two_report.order id ≡ true)
validate-Follows_example = validate-Follows parse_ip4 two_machines two_report two_valid

validate-Safe_example :
    All
      (SafeMachine parse_ip4 (nets_of two_machines.networks) two_report.warnings)
      two_machines.machines
validate-Safe_example = validate-Safe parse_ip4 two_machines two_report two_valid

abbrev depth : String → ℕ
depth id = if str_eq id "router" then 1 else 0

two_levels :
    (id d : String) (deps : List String)
    → lookup id (graph_of two_machines.machines) ≡ some deps
    → contains deps d ≡ true
    → (depth d < depth id)
      × ((below : List String) × (lookup d (graph_of two_machines.machines) ≡ some below))
unfolding lookup
two_levels id d deps l c = elim (Bool-cases (str_eq "router" id)) [
  | inl router ↦
      let named : "router" ≡ id = (eq_iff "router" id).0 router in
      let on : "server" ∷ [] ≡ deps = ground arith in
      let below : "server" ≡ d = ground (arith, eq_iff "server" d) in
      (
        subst (λ x. depth d < depth x) named (subst (λ x. depth x < 1) below (omega arith)),
        ([], subst (λ x. lookup x (graph_of two_machines.machines) ≡ some []) below refl),
      )
  | inr other ↦ absurd (ground arith)
]

order_of-accepts_example :
    (p : Progress) × (order_of (graph_of two_machines.machines) ≡ some (ok p))
order_of-accepts_example = order_of-accepts (graph_of two_machines.machines) depth two_levels
