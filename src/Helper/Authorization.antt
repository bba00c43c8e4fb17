-- ===== src/Helper/Authorization.antt =====
-- `Authorize` of internal/helper/authorization.go.
pub mod Grant
pub mod Networks
pub mod Confidential
use virmill.Prelude.{
  ℕ, String, ◌-◌, ◌*◌, Bool, true, false, not, ◌&&◌, ◌||◌, Option, none, some, List, [], ◌∷◌, ltb,
  leb, ◌==◌, str_eq, if◌then◌else◌, length,
}
use virmill.Prelude.Digits.{codes}
use virmill.Prelude.Pattern.{fits, five_groups, is_hex, hex_decode}
use virmill.Domain.Error.{Result, ok, err, plain, ◌>>◌}
use virmill.Helper.Request.{
  Request, Policy, Services, AccessRequest, AuxiliaryRequest, NetworkRequest, ManagedFileVolume,
}
use virmill.Helper.Network.{is_some, authorize_network}
use virmill.Helper.Auxiliary.{auxiliary_id, text_at, authorize_auxiliary}

-- `uuid`: the version is 4, the variant one of 8, 9, a and b.
unfoldable pub uuid : String → Bool
unfolding fits
uuid s =
    fits (five_groups (λ c. c == b'4') (λ c. c == b'8' || c == b'9' || c == b'a' || c == b'b'))
      (codes s)

unfoldable pub listed_actor : ℕ → List ℕ → Bool
listed_actor peer [] = false
listed_actor peer (u ∷ us) = u == peer || listed_actor peer us

-- The groups rise strictly, and none is undefined.
unfoldable pub groups_rise : List ℕ → Bool
groups_rise [] = true
groups_rise (g ∷ []) = not (g == 0xffff_ffff)
groups_rise (g ∷ h ∷ gs) = not (g == 0xffff_ffff) && ltb g h && groups_rise (h ∷ gs)

-- The guards on a request to grant or to revoke read access
unfoldable pub access_fits : Request → AccessRequest → Bool
unfolding uuid groups_rise
access_fits r a =
    (str_eq r.mode "check" || str_eq r.mode "apply" || str_eq r.mode "observe")
    && str_eq a.mapping.vm_id r.resource_id
    && uuid a.mapping.pool_id
    && (not (str_eq r.operation "storage.grant-read") || str_eq a.original_grant_job_id "")
    && (not (str_eq r.operation "storage.revoke-read")
        || (uuid a.original_grant_job_id && not (str_eq a.original_grant_job_id r.job_id)))
    && not (length a.actor_groups == 0 || ltb 4096 (length a.actor_groups))
    && groups_rise a.actor_groups

-- A test that the code returns an error without
abbrev pub require : Bool → Result (Unit {0})
require true = ok tt
require false = err plain

abbrev pub is_network : Request → Bool
is_network r =
    str_eq r.operation "network.ipv6-filter" || str_eq r.operation "network.policy-filter"

abbrev pub is_access : Request → Bool
is_access r = str_eq r.operation "storage.grant-read" || str_eq r.operation "storage.revoke-read"

-- The switch over the operation
unfoldable pub authorize_operation : Services → Request → Policy → Result (Unit {0})
unfolding authorize_network authorize_auxiliary access_fits
authorize_operation svc r p =
    if is_network r
    then authorize_network r p
    else if str_eq r.operation "state.auxiliary"
    then (if is_some r.network then err plain else authorize_auxiliary svc r p)
    else if str_eq r.operation "storage.prepare-directory"
    then require (
        str_eq r.mode ""
        && not (is_some r.access)
        && not (is_some r.auxiliary)
        && not (is_some r.network))
    else if is_access r
    then (if is_some r.network || is_some r.auxiliary
        then err plain
        else elim r.access [ none ↦ err plain | some a ↦ require (access_fits r a) ])
    else err plain

abbrev pub decodes_to : ℕ → Option (List ℕ) → Bool
decodes_to n none = false
decodes_to n (some b) = length b == n

-- Fifteen minutes
abbrev pub grant_lifetime : ℕ
grant_lifetime = 15 * 60 * 1_000_000_000

-- `SignedBytes`
unfoldable pub signed_bytes : Services → Request → Option (List ℕ)
signed_bytes svc r = svc.canonical (record r { signature = "" })

-- The key, the signature and the message that are there are verified.
abbrev pub verified : Services → Option (List ℕ) → Option (List ℕ) → Option (List ℕ) → Bool
verified svc (some key) (some signature) (some message) =
    length key == 32 && svc.verify key message signature
verified svc _ _ _ = false

-- The checks behind the switch
unfoldable pub authorize_grant : Services → Request → Policy → ℕ → Result (Unit {0})
unfolding auxiliary_id uuid hex_decode text_at signed_bytes
authorize_grant svc r p now =
    require (
      ((str_eq r.operation "state.auxiliary" && auxiliary_id r.resource_id) || uuid r.resource_id)
      && uuid r.job_id)
    >> require (decodes_to 32 (hex_decode (codes r.plan_digest)))
    >> require (ltb now r.expires_at && leb (r.expires_at - now) grant_lifetime)
    >> require (is_network r || not (str_eq (text_at r.root_id p.roots) ""))
    >> require (
        verified svc (hex_decode (codes (text_at r.key_id p.keys))) (hex_decode (codes r.signature))
          (signed_bytes svc r))

-- `Authorize`
unfoldable pub authorize : Services → ℕ → Request → Policy → ℕ → Result (Unit {0})
unfolding listed_actor authorize_operation authorize_grant
authorize svc peer r p now =
    require (str_eq r.api_version "virmill/v1" && str_eq p.api_version "virmill/v1")
    >> require (r.actor_uid == peer && not (peer == 0))
    >> require (listed_actor peer p.actors)
    >> authorize_operation svc r p
    >> authorize_grant svc r p now
