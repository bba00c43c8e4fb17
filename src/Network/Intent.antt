-- ===== src/Network/Intent.antt =====
-- `Validate` of internal/app/network/intent.go. An error is `none`, since only its text differs.
pub mod Isolation
use virmill.Prelude.{
  ℕ, String, Bool, true, false, not, ◌&&◌, ◌||◌, Option, none, some, ltb, ◌==◌, str_eq,
  if◌then◌else◌,
}
use virmill.Network.Prefix.{Prefix4, parse_prefix, masked}

pub record Ipv4 : Type 0 where
  pub cidr : String
  pub dhcp_enabled : Bool
  pub advertise_default_route : Bool

pub record Spec : Type 0 where
  pub kind : String
  pub bridge_ref : String
  pub ipv4 : Option Ipv4
  pub ipv6_mode : String
  pub host_access : String
  pub egress : String

unfoldable pub known_kind : String → Bool
known_kind t = str_eq t "nat" || str_eq t "lab" || str_eq t "bridge" || str_eq t "guest-only"

-- A canonical IPv4 subnet with room for hosts
unfoldable pub usable : Option Prefix4 → Bool
unfolding masked
usable none = false
usable (some p) = p.addr == (masked p).addr && not (ltb 30 p.bits)

-- The checks on the declared addressing
unfoldable pub ipv4_fits : String → Ipv4 → Bool
unfolding usable parse_prefix
ipv4_fits kind a =
    not ((str_eq kind "guest-only" || str_eq kind "bridge") && a.dhcp_enabled)
    && not ((str_eq kind "lab" || str_eq kind "guest-only") && a.advertise_default_route)
    && (str_eq a.cidr "auto" || usable (parse_prefix a.cidr))

unfoldable pub ipv4_check : String → Option Ipv4 → Bool
unfolding ipv4_fits
ipv4_check kind none = true
ipv4_check kind (some a) = ipv4_fits kind a

-- `Validate`; `true` is no error.
unfoldable pub validate : Spec → Bool
unfolding known_kind ipv4_check
validate s =
    if not (known_kind s.kind)
    then false
    else if str_eq s.kind "bridge"
        && (str_eq s.bridge_ref ""
            || not (str_eq s.host_access "allow")
            || not (str_eq s.egress "any"))
    then false
    else if str_eq s.kind "guest-only"
        && (not (str_eq s.host_access "deny") || not (str_eq s.egress "none"))
    then false
    else if str_eq s.kind "lab" && not (str_eq s.egress "none")
    then false
    else ipv4_check s.kind s.ipv4
