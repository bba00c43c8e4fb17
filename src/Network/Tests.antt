-- ===== src/Network/Tests.antt =====
-- The theorems on the search for a subnet, at a declaration with one small pool
use virmill.Prelude.{true, false, some, ◌≡◌, refl, [], ◌∷◌, arith, ◌+◌, ◌<◌, ◌≤◌}
use virmill.Prelude.Digits.{decimal}
use virmill.Network.Intent.{Spec, validate}
use virmill.Network.Managed.{NetworkDefinition, validate_definition, addresses}
use virmill.Network.Managed.Bounds.{Private, valid-Private, addresses-bounds}
use virmill.Domain.Error.{ok, err, fail, Code}
use virmill.Network.Prefix.{Prefix4, v4, parse_prefix, private_prefix, span, size_of}
use virmill.Network.Config.{AllocationRange, AllocationConfig, validate_config}
use virmill.Network.Allocation.{allocate, align_up}
use virmill.Network.Allocation.Search.{First, Candidate}
use virmill.Network.Allocation.FirstFit.{Unused, allocate-First, allocate_conflict}

-- Two subnets of 30 bits
abbrev pool_range : AllocationRange
pool_range = record { cidr = "10.0.0.0/29"; prefix_length = 30 }

abbrev small : AllocationConfig
small = record { version = 1; ranges = pool_range ∷ []; planned = [] }

-- The first is reserved.
abbrev reserved : AllocationConfig
reserved = record small { planned = record { id = "lab"; cidr = "10.0.0.1/32" } ∷ [] }

abbrev second : Prefix4
second = record { addr = 167772164; bits = 30 }

allocated : allocate reserved [] ≡ ok second
unfolding allocate validate_config align_up private_prefix
allocated = refl

exhausted : allocate reserved (v4 second ∷ []) ≡ err (fail Code.cidr_conflict)
unfolding allocate validate_config align_up private_prefix
exhausted = refl

allocate-First_example : First (Unused reserved []) (pool_range ∷ []) second
allocate-First_example = allocate-First reserved [] second allocated

second_fits : Candidate pool_range 167772164
unfolding span parse_prefix
second_fits = ((41943041, refl), omega arith, omega arith)

allocate_conflict_example : ¬ Unused reserved (v4 second ∷ []) 167772164 (size_of 30)
allocate_conflict_example =
    allocate_conflict reserved (v4 second ∷ []) 0 167772164 pool_range exhausted refl second_fits

-- A lab that serves addresses and no route
abbrev lab : Spec
lab = record {
  kind = "lab";
  bridge_ref = "";
  ipv4 =
      some (record { cidr = "10.1.0.0/24"; dhcp_enabled = true; advertise_default_route = false });
  ipv6_mode = "";
  host_access = "allow";
  egress = "none";
}

lab_valid : validate lab ≡ true
unfolding validate decimal
lab_valid = refl

abbrev guests : Spec
guests = record lab {
  kind = "guest-only";
  host_access = "deny";
  ipv4 = some (record { cidr = "auto"; dhcp_enabled = false; advertise_default_route = false });
}

guests_valid : validate guests ≡ true
unfolding validate decimal
guests_valid = refl

abbrev managed : NetworkDefinition
managed = record {
  uuid = "00000000-0000-4000-8000-000000000001";
  name = "virmill-00000000-0000-4000-8000-000000000001";
  bridge = "vm000000000000";
  type = "nat";
  ipv4_cidr = "10.20.30.0/24";
  dhcp_enabled = true;
  advertise_default_route = true;
  ipv6_mode = "disabled";
  host_access = "allow";
  egress = "any";
}

abbrev managed_prefix : Prefix4
managed_prefix = record { addr = 169_090_560; bits = 24 }

managed_valid : validate_definition managed ≡ ok tt
unfolding validate_definition
managed_valid = refl

managed_parsed : parse_prefix managed.ipv4_cidr ≡ some managed_prefix
unfolding parse_prefix
managed_parsed = refl

valid-Private_example : Private 169_090_570
valid-Private_example =
    valid-Private managed managed_prefix 169_090_570 managed_valid managed_parsed (omega arith)
      (omega arith)

addresses-bounds_example :
    (managed_prefix.addr < (addresses managed_prefix).bridge)
    × ((addresses managed_prefix).bridge < (addresses managed_prefix).first)
    × ((addresses managed_prefix).first ≤ (addresses managed_prefix).last)
    × ((addresses managed_prefix).last + 1 < managed_prefix.addr + size_of managed_prefix.bits)
addresses-bounds_example = addresses-bounds managed managed_prefix managed_valid managed_parsed
