-- ===== src/Helper/Network.antt =====
-- internal/helper/network.go: the authority of a request for a network policy.
use virmill.Prelude.{
  ℕ, String, Bool, true, false, not, ◌&&◌, ◌||◌, Option, none, some, List, [], ◌∷◌, ◌==◌, str_eq,
  if◌then◌else◌,
}
use virmill.Domain.Error.{Result, ok, err, plain}
use virmill.Network.Managed.{policy_version, validate_definition}
use virmill.Helper.Request.{Request, Policy, NetworkRequest, NetworkPermission}

abbrev pub is_some {ℓ} : {A : Type ℓ} → Option A → Bool
is_some none = false
is_some (some a) = true

-- `networkOperation`
abbrev pub network_operation : ℕ → String
network_operation version =
    if version == 1
    then "network.ipv6-filter"
    else if version == 2
    then "network.policy-filter"
    else ""

abbrev pub succeeds {ℓ} : {A : Type ℓ} → Result A → Bool
succeeds (ok a) = true
succeeds (err e) = false

-- The first guard of `authorizeNetwork`
unfoldable pub network_fits : Request → NetworkRequest → Bool
unfolding policy_version validate_definition
network_fits r n =
    not (str_eq (network_operation n.version) "")
    && str_eq r.operation (network_operation n.version)
    && policy_version n.definition == n.version
    && not (is_some r.access)
    && not (is_some r.auxiliary)
    && str_eq r.root_id ""
    && (str_eq r.mode "check" || str_eq r.mode "apply" || str_eq r.mode "observe")
    && str_eq n.definition.uuid r.resource_id
    && succeeds (validate_definition n.definition)

abbrev pub permits : Request → NetworkPermission → Bool
permits r g =
    g.actor_uid == r.actor_uid && str_eq g.key_id r.key_id && str_eq g.resource_id r.resource_id

unfoldable pub any_permits : Request → List NetworkPermission → Bool
any_permits r [] = false
any_permits r (g ∷ gs) = permits r g || any_permits r gs

abbrev pub grants_for : Policy → ℕ → List NetworkPermission
grants_for p version = if version == 2 then p.protected_networks else p.networks

-- `authorizeNetwork`
unfoldable pub authorize_network : Request → Policy → Result (Unit {0})
unfolding network_fits any_permits
authorize_network r p = elim r.network [
  | none ↦ err plain
  | some n ↦
      if not (network_fits r n)
      then err plain
      else if any_permits r (grants_for p n.version)
      then ok tt
      else err plain
]
