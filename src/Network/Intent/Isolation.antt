-- ===== src/Network/Intent/Isolation.antt =====
-- A protected network, a lab or one of guests only, is isolated if its intent is valid.
use virmill.Prelude.{
  String, Bool, true, false, ◌||◌, Option, none, some, ◌≡◌, refl, arith, str_eq, eq_iff,
}
use virmill.Network.Intent.{Ipv4, Spec, known_kind, ipv4_fits, ipv4_check, validate}

-- A guest in the network gets no way out of it.
abbrev pub is_protected : Spec → Bool
is_protected s = str_eq s.kind "lab" || str_eq s.kind "guest-only"

abbrev pub advertises : Option Ipv4 → Bool
advertises none = false
advertises (some a) = a.advertise_default_route

abbrev pub serves : Option Ipv4 → Bool
serves none = false
serves (some a) = a.dhcp_enabled

protected_ipv4 :
    (kind : String) (a : Option Ipv4)
    → ipv4_check kind a ≡ true
    → (str_eq kind "lab" || str_eq kind "guest-only") ≡ true
    → advertises a ≡ false
unfolding ipv4_check ipv4_fits
protected_ipv4 kind none h p = refl
protected_ipv4 kind (some a) h p = ground arith

-- A valid protected network has no egress, and its DHCP advertises no default route.
pub validate_protected :
    (s : Spec)
    → validate s ≡ true
    → is_protected s ≡ true
    → (s.egress ≡ "none") × (advertises s.ipv4 ≡ false)
unfolding validate known_kind
validate_protected s h p = ground (
  arith,
  protected_ipv4 s.kind s.ipv4,
  eq_iff s.egress "none",
  eq_iff s.kind "lab",
  eq_iff s.kind "guest-only",
)

guest_only_ipv4 : (a : Option Ipv4) → ipv4_check "guest-only" a ≡ true → serves a ≡ false
unfolding ipv4_check ipv4_fits
guest_only_ipv4 none h = refl
guest_only_ipv4 (some a) h = ground arith

-- A valid network of guests only denies the host access, and no DHCP of the host serves it.
pub validate_guest_only :
    (s : Spec)
    → validate s ≡ true
    → s.kind ≡ "guest-only"
    → (s.host_access ≡ "deny") × (serves s.ipv4 ≡ false)
unfolding validate known_kind
validate_guest_only s h k =
    ground (arith, guest_only_ipv4 s.ipv4, eq_iff s.host_access "deny", eq_iff s.kind "guest-only")
