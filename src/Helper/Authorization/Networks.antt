-- ===== src/Helper/Authorization/Networks.antt =====
-- What a request for a network policy has that `Authorize` of internal/helper/authorization.go
-- lets through
use virmill.Prelude.{
  not-true, not-false, ℕ, true, false, not, ◌||◌, ◌≡◌, refl, some, List, [], ◌∷◌, ◌==◌, str_eq,
  both, ==_iff, eq_iff, In, In-later, inl, inr, Bool-cases, Option-cases, zero,
}
use virmill.Domain.Error.{Result, ok, err, plain, err≢ok, guard_ok, require_ok}
use virmill.Network.Managed.{policy_version, validate_definition}
use virmill.Helper.Request.{Request, Policy, Services, NetworkRequest, NetworkPermission}
use virmill.Helper.Network.{
  is_some, network_operation, succeeds, network_fits, permits, any_permits, grants_for,
  authorize_network,
}
use virmill.Helper.Authorization.{is_network, authorize_operation, authorize}
use virmill.Helper.Authorization.Grant.{authorize-Granted}

-- A permission of the policy that names the actor, the key and the network
pub record Permitted (r : Request) (gs : List NetworkPermission) : Type 0 where
  pub permission : NetworkPermission
  pub listed : In permission gs
  pub actor : permission.actor_uid ≡ r.actor_uid
  pub key : permission.key_id ≡ r.key_id
  pub resource : permission.resource_id ≡ r.resource_id

permits-Permitted :
    (r : Request) (g : NetworkPermission) (gs : List NetworkPermission)
    → In g gs
    → permits r g ≡ true
    → Permitted r gs
permits-Permitted r g gs i h =
    let a = both _ (str_eq g.resource_id r.resource_id) h in
    let b = both (g.actor_uid == r.actor_uid) (str_eq g.key_id r.key_id) a.0 in
    record {
      permission = g;
      listed = i;
      actor = (==_iff _ _).0 b.0;
      key = (eq_iff _ _).0 b.1;
      resource = (eq_iff _ _).0 a.1;
    }

any_permits-Permitted :
    (r : Request) (gs : List NetworkPermission) → any_permits r gs ≡ true → Permitted r gs
unfolding any_permits
any_permits-Permitted r [] h = absurd cc
any_permits-Permitted r (g ∷ gs) h = elim (Bool-cases (permits r g)) [
  | inl e ↦ permits-Permitted r g (g ∷ gs) (record { place = zero; found = refl }) e
  | inr e ↦
      let rest = any_permits-Permitted r gs (rw e at h) in
      record {
        permission = rest.permission;
        listed = In-later rest.permission g gs rest.listed;
        actor = rest.actor;
        key = rest.key;
        resource = rest.resource;
      }
]

-- The one request for a network that is served
pub record Served (r : Request) (p : Policy) (n : NetworkRequest) : Type 0 where
  pub operation : r.operation ≡ network_operation n.version
  pub family : policy_version n.definition ≡ n.version
  pub network : n.definition.uuid ≡ r.resource_id
  pub definition : validate_definition n.definition ≡ ok tt
  pub no_access : is_some r.access ≡ false
  pub no_auxiliary : is_some r.auxiliary ≡ false
  pub no_root : r.root_id ≡ ""
  pub permitted : Permitted r (grants_for p n.version)

succeeds-ok : (r : Result (Unit {0})) → succeeds r ≡ true → r ≡ ok tt
succeeds-ok (ok tt) h = refl
succeeds-ok (err e) h = absurd cc

network_fits-Served :
    (r : Request) (p : Policy) (n : NetworkRequest)
    → network_fits r n ≡ true
    → any_permits r (grants_for p n.version) ≡ true
    → Served r p n
unfolding network_fits
network_fits-Served r p n h k =
    let a = both _ (succeeds (validate_definition n.definition)) h in
    let b = both _ (str_eq n.definition.uuid r.resource_id) a.0 in
    let c =
      both _ (str_eq r.mode "check" || str_eq r.mode "apply" || str_eq r.mode "observe") b.0 in
    let d = both _ (str_eq r.root_id "") c.0 in
    let e = both _ (not (is_some r.auxiliary)) d.0 in
    let f = both _ (not (is_some r.access)) e.0 in
    let g = both _ (policy_version n.definition == n.version) f.0 in
    let o = both _ (str_eq r.operation (network_operation n.version)) g.0 in
    record {
      operation = (eq_iff _ _).0 o.1;
      family = (==_iff _ _).0 g.1;
      network = (eq_iff _ _).0 b.1;
      definition = succeeds-ok _ a.1;
      no_access = not-true _ f.1;
      no_auxiliary = not-true _ e.1;
      no_root = (eq_iff _ _).0 d.1;
      permitted = any_permits-Permitted r (grants_for p n.version) k;
    }

authorize_network-Served :
    (r : Request) (p : Policy)
    → authorize_network r p ≡ ok tt
    → (n : NetworkRequest) × (r.network ≡ some n) × Served r p n
unfolding authorize_network
authorize_network-Served r p h = elim (Option-cases r.network) [
  | inl e ↦ absurd (err≢ok plain tt (rw e at h))
  | inr (n, e) ↦
      let k = guard_ok (not (network_fits r n)) plain _ tt (rw e at h) in
      let g = require_ok (any_permits r (grants_for p n.version)) plain (ok tt) tt k.1 in
      (n, e, network_fits-Served r p n (not-false _ k.0) g.0)
]

-- A request for a network policy that is authorized carries a valid definition of the network that
-- it names, of the policy family of its operation, and no other authority; a permission of the
-- policy for this family names its actor, its key and the network.
pub authorize-Served :
    (svc : Services) (peer : ℕ) (r : Request) (p : Policy) (now : ℕ)
    → authorize svc peer r p now ≡ ok tt
    → is_network r ≡ true
    → (n : NetworkRequest) × (r.network ≡ some n) × Served r p n
unfolding authorize_operation
authorize-Served svc peer r p now h is =
    let g = authorize-Granted svc peer r p now h in
    authorize_network-Served r p (rw is at g.operation)
