-- ===== src/Network/Nics.antt =====
-- `ValidateNICs` of internal/app/network/intent.go. A network without IPv4 addresses of its own has
-- the subnet "auto"; one that is not IPv4 is refused by `Validate`, and counts as not parsed here.
-- netip.ParseAddr is a parameter. RouteMetric is left out: no check reads it.
pub mod Attach
pub mod Safe
use virmill.Prelude.{
  ℕ, ◌+◌, String, Bool, true, false, not, ◌&&◌, ◌||◌, Option, none, some, List, [], ◌∷◌, ◌++◌, ltb,
  ◌==◌, str_eq, if◌then◌else◌, contains, every,
}
use virmill.Prelude.Table.{Table, lookup}
use virmill.Domain.Error.{Result, ok, err, plain, ◌>>=◌}
use virmill.Network.Prefix.{Prefix4, parse_prefix, masked, mask_to}
use virmill.Network.Config.{overlaps_any}
use virmill.Network.Intent.{Ipv4, Spec}
use virmill.Network.Intent.Isolation.{is_protected}

-- An address that parses: an IPv4 address by its number, or any other
pub data Address : Type 0 where
  ip4 : ℕ → Address
  ip6 : Address

pub record NicIpv4 : Type 0 where
  pub mode : String
  pub address : String
  pub gateway : String
  pub dns : List String

pub record Nic : Type 0 where
  pub id : String
  pub network_ref : String
  pub default_route : Bool
  pub ipv4 : NicIpv4

-- The variables of the loop, the attached subnets with the last first
pub record Scan : Type 0 where
  pub seen : List String
  pub defaults : ℕ
  pub attached : List Prefix4
  pub protected : Bool
  pub external : Bool

-- `Prefix.Contains`
abbrev pub holds : Prefix4 → Option Address → Bool
holds p none = false
holds p (some ip6) = false
holds p (some (ip4 n)) = mask_to n p.bits == mask_to p.addr p.bits

abbrev pub is_address : Option Address → Bool
is_address none = false
is_address (some a) = true

abbrev pub address_of : Option Prefix4 → Option Address
address_of none = none
address_of (some p) = some (ip4 p.addr)

abbrev pub is_external : Spec → Bool
is_external s = str_eq s.kind "nat" || str_eq s.kind "bridge"

-- The subnet of a network that a NIC selects
abbrev pub attach_subnet : Nic → Scan → Option Prefix4 → Result Scan
attach_subnet n st none = err plain
attach_subnet n st (some p) =
    if overlaps_any p st.attached
    then err plain
    else if str_eq n.ipv4.mode "static" && not (holds p (address_of (parse_prefix n.ipv4.address)))
    then err plain
    else ok (record st { attached = p ∷ st.attached })

abbrev pub attach_ipv4 : Nic → Scan → Option Ipv4 → Result Scan
attach_ipv4 n st none = ok st
attach_ipv4 n st (some a) =
    if str_eq a.cidr "auto" then ok st else attach_subnet n st (parse_prefix a.cidr)

abbrev pub attach_network : Nic → Scan → Option Spec → Result Scan
attach_network n st none = err plain
attach_network n st (some s) =
    if is_protected s && n.default_route
    then err plain
    else attach_ipv4 n
        (record st {
          protected = st.protected || is_protected s;
          external = st.external || is_external s;
        })
        s.ipv4

-- `nets != nil`
abbrev pub attach : Option (Table Spec) → Nic → Scan → Result Scan
attach none n st = ok st
attach (some nets) n st = attach_network n st (lookup n.network_ref nets)

abbrev pub count_nic : Nic → Scan → Scan
count_nic n st = record st {
  seen = n.id ∷ st.seen;
  defaults = if n.default_route then st.defaults + 1 else st.defaults;
}

abbrev pub dual_homed : String
dual_homed = "DUAL_HOMED_GUEST: guest forwarding can bypass the protected segment boundary"

abbrev pub unverified : String
unverified = "guest-routing-unverified: intent validation is not observed guest routing"

abbrev pub no_nics : Scan
no_nics = record { seen = []; defaults = 0; attached = []; protected = false; external = false }

-- What follows the loop
abbrev pub warnings : Scan → Result (List String)
warnings st =
    if ltb 1 st.defaults
    then err plain
    else ok ((if st.protected && st.external then dual_homed ∷ [] else []) ++ unverified ∷ [])

module _ (parse_addr : String → Option Address) where
  abbrev pub static_fits : NicIpv4 → Option Prefix4 → Bool
  static_fits a none = false
  static_fits a (some p) =
      not (p.addr == (masked p).addr) && (str_eq a.gateway "" || holds p (parse_addr a.gateway))

  -- The checks on a NIC of its own
  unfoldable pub nic_fits : List String → Nic → Bool
  nic_fits seen n =
      not (contains seen n.id || str_eq n.id "")
      && not (not (str_eq n.ipv4.gateway "") && not n.default_route)
      && not (n.default_route && str_eq n.ipv4.mode "none")
      && (not (str_eq n.ipv4.mode "static") || static_fits n.ipv4 (parse_prefix n.ipv4.address))
      && every (λ d. is_address (parse_addr d)) n.ipv4.dns

  -- The loop
  unfoldable pub scan_nics : Option (Table Spec) → List Nic → Scan → Result Scan
  unfolding nic_fits
  scan_nics nets [] st = ok st
  scan_nics nets (n ∷ ns) st =
      if nic_fits st.seen n
      then (attach nets n (count_nic n st) >>= λ st'. scan_nics nets ns st')
      else err plain

  -- `ValidateNICs`
  unfoldable pub validate_nics : Option (Table Spec) → List Nic → Result (List String)
  unfolding scan_nics
  validate_nics nets nics = scan_nics nets nics no_nics >>= warnings
