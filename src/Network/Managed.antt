-- ===== src/Network/Managed.antt =====
-- `NetworkDefinition` of internal/domain/network_creation.go, and `Validate` with the addresses of
-- internal/backend/networkxml/network.go. An address is its number.
pub mod Bounds
use virmill.Prelude.{
  ℕ, String, ◌+◌, ◌-◌, ◌^◌, ◌%◌, Bool, true, false, not, ◌&&◌, ◌||◌, Option, none, some, List, [],
  ◌∷◌, ◌++◌, leb, ◌==◌, str_eq, if◌then◌else◌, take, keep,
}
use virmill.Prelude.Digits.{codes}
use virmill.Prelude.Pattern.{fits, five_groups, is_hex}
use virmill.Domain.Error.{Result, ok, err, fail, Code}
use virmill.Network.Prefix.{Prefix4, mask_to, masked, parse_prefix, show_prefix, same_codes}

pub record NetworkDefinition : Type 0 where
  pub uuid : String
  pub name : String
  pub bridge : String
  pub type : String
  pub ipv4_cidr : String
  pub dhcp_enabled : Bool
  pub advertise_default_route : Bool
  pub ipv6_mode : String
  pub host_access : String
  pub egress : String

-- `PolicyVersion`; zero is no supported family.
unfoldable pub policy_version : NetworkDefinition → ℕ
policy_version d =
    let routed = str_eq d.type "nat" || str_eq d.type "lab" in
    if routed && str_eq d.host_access "allow"
    then 1
    else if routed && str_eq d.host_access "services-only"
    then 2
    else if str_eq d.type "guest-only" && str_eq d.host_access "deny"
    then 2
    else 0

-- `uuidPattern`, and not the zero identifier
unfoldable pub canonical_uuid : String → Bool
unfolding fits
canonical_uuid id =
    fits (five_groups is_hex is_hex) (codes id)
    && not (str_eq id "00000000-0000-0000-0000-000000000000")

-- The name and the bridge that the identifier reserves
unfoldable pub names_fit : NetworkDefinition → Bool
unfolding same_codes
names_fit d =
    same_codes (codes d.name) (codes "virmill-" ++ codes d.uuid)
    && same_codes (codes d.bridge)
        (codes "vm" ++ take 12 (keep (λ c. not (c == b'-')) (codes d.uuid)))

-- 10.0.0.0/8, 172.16.0.0/12 and 192.168.0.0/16
abbrev pub scopes : List Prefix4
scopes =
    record { addr = 167_772_160; bits = 8 }
    ∷ record { addr = 2_886_729_728; bits = 12 }
    ∷ record { addr = 3_232_235_520; bits = 16 }
    ∷ []

unfoldable pub in_scopes : Prefix4 → List Prefix4 → Bool
in_scopes p [] = false
in_scopes p (r ∷ rs) = (leb r.bits p.bits && mask_to p.addr r.bits == r.addr) || in_scopes p rs

-- The checks on the subnet
unfoldable pub subnet_fits : String → Option Prefix4 → Bool
unfolding masked show_prefix same_codes in_scopes
subnet_fits cidr none = false
subnet_fits cidr (some p) =
    leb 8 p.bits
    && leb p.bits 30
    && (masked p).addr == p.addr
    && same_codes (show_prefix p) (codes cidr)
    && in_scopes p scopes

-- The switch over the type
unfoldable pub profile_fits : NetworkDefinition → Bool
profile_fits d =
    if str_eq d.type "nat"
    then str_eq d.egress "any"
      && (if d.dhcp_enabled then d.advertise_default_route else not d.advertise_default_route)
    else if str_eq d.type "lab"
    then str_eq d.egress "none" && not d.advertise_default_route
    else if str_eq d.type "guest-only"
    then str_eq d.egress "none" && not d.dhcp_enabled && not d.advertise_default_route
    else false

-- `Validate`
unfoldable pub validate_definition : NetworkDefinition → Result (Unit {0})
unfolding policy_version canonical_uuid names_fit parse_prefix subnet_fits profile_fits
validate_definition d =
    if not (canonical_uuid d.uuid)
    then err (fail Code.invalid_input)
    else if not (names_fit d)
    then err (fail Code.invalid_input)
    else if (not (str_eq d.ipv4_cidr "") || not (str_eq d.type "guest-only"))
        && not (subnet_fits d.ipv4_cidr (parse_prefix d.ipv4_cidr))
    then err (fail Code.invalid_input)
    else if not (str_eq d.ipv6_mode "disabled") || policy_version d == 0
    then err (fail Code.unsupported_capability)
    else if not (profile_fits d)
    then err (fail Code.unsupported_capability)
    else ok tt

-- `addresses`: the bridge and the first and the last address that DHCP may lease
pub record Addresses : Type 0 where
  pub bridge : ℕ
  pub first : ℕ
  pub last : ℕ

abbrev wrap : ℕ → ℕ
wrap n = n % 2 ^ 32

unfoldable pub addresses : Prefix4 → Addresses
addresses p = record {
  bridge = wrap (p.addr + 1);
  first = wrap (p.addr + 2);
  last = wrap (p.addr + 2 ^ (32 - p.bits) + 2 ^ 32 - 2);
}
