-- ===== src/Helper/Authorization/Grant.antt =====
-- What any request has that `Authorize` of internal/helper/authorization.go lets through
use virmill.Prelude.{
  if◌then◌else◌, In, In-later, [], ◌∷◌, inl, inr, Bool-cases, zero, ℕ, ◌+◌, ◌-◌, ◌≤◌, ◌<◌, Bool,
  true, false, not, ◌&&◌, ◌||◌, ◌≡◌, ◌≢◌, refl, Option, some, List, ltb, leb, ◌==◌, str_eq, length,
  arith, both, ltb→lt, leb→le, ==_iff,
}
use virmill.Prelude.Digits.{codes}
use virmill.Prelude.Pattern.{hex_decode}
use virmill.Domain.Error.{Result, err, ok, plain, then_ok, err≢ok}
use virmill.Helper.Request.{Request, Policy, Services}
use virmill.Helper.Auxiliary.{text_at}
use virmill.Helper.Authorization.{
  require, is_network, is_access, listed_actor, authorize_operation, authorize_grant, authorize,
  verified, signed_bytes, grant_lifetime,
}

pub require-true : (b : Bool) → require b ≡ ok tt → b ≡ true
require-true true h = refl
require-true false h = absurd (err≢ok plain tt h)

-- A signature by a key of the policy, over the request without its signature
pub record Signed (svc : Services) (r : Request) (p : Policy) : Type 0 where
  pub key : List ℕ
  pub message : List ℕ
  pub signature : List ℕ
  pub trusted : hex_decode (codes (text_at r.key_id p.keys)) ≡ some key
  pub sized : length key ≡ 32
  pub given : hex_decode (codes r.signature) ≡ some signature
  pub covers : signed_bytes svc r ≡ some message
  pub valid : svc.verify key message signature ≡ true

pub record Granted (svc : Services) (peer : ℕ) (r : Request) (p : Policy) (now : ℕ) : Type 0 where
  pub actor : r.actor_uid ≡ peer
  pub not_root : peer ≢ 0
  pub listed : In peer p.actors
  pub operation : authorize_operation svc r p ≡ ok tt
  pub known :
      (is_network r
        || str_eq r.operation "state.auxiliary"
        || str_eq r.operation "storage.prepare-directory"
        || is_access r)
      ≡ true
  pub live : now < r.expires_at
  pub short : r.expires_at ≤ now + grant_lifetime
  pub rooted : is_network r ≡ false → str_eq (text_at r.root_id p.roots) "" ≡ false
  pub signed : Signed svc r p

one_of :
    (a b c d : Bool) (w x y z : Result (Unit {0}))
    → (if a then w else if b then x else if c then y else if d then z else err plain) ≡ ok tt
    → (a || b || c || d) ≡ true
one_of true b c d w x y z h = refl
one_of false true c d w x y z h = refl
one_of false false true d w x y z h = refl
one_of false false false true w x y z h = refl
one_of false false false false w x y z h = absurd (err≢ok plain tt h)

authorize_operation-known :
    (svc : Services) (r : Request) (p : Policy)
    → authorize_operation svc r p ≡ ok tt
    → (is_network r
        || str_eq r.operation "state.auxiliary"
        || str_eq r.operation "storage.prepare-directory"
        || is_access r)
      ≡ true
unfolding authorize_operation
authorize_operation-known svc r p h =
    one_of (is_network r) (str_eq r.operation "state.auxiliary")
      (str_eq r.operation "storage.prepare-directory") (is_access r) _ _ _ _ h

listed_actor-In : (peer : ℕ) (us : List ℕ) → listed_actor peer us ≡ true → In peer us
unfolding listed_actor
listed_actor-In peer [] h = absurd cc
listed_actor-In peer (u ∷ us) h = elim (Bool-cases (u == peer)) [
  | inl e ↦
      let same : u ≡ peer = (==_iff u peer).0 e in record { place = zero; found = rw same refl }
  | inr e ↦ In-later peer u us (listed_actor-In peer us (rw e at h))
]

nonzero : (n : ℕ) → not (n == 0) ≡ true → n ≢ 0
nonzero n h z = ground arith

either : (a b : Bool) → (a || not b) ≡ true → a ≡ false → b ≡ false
either a b h k = ground arith

verified-Signed :
    (svc : Services) (r : Request) (p : Policy) (k s m : Option (List ℕ))
    → hex_decode (codes (text_at r.key_id p.keys)) ≡ k
    → hex_decode (codes r.signature) ≡ s
    → signed_bytes svc r ≡ m
    → verified svc k s m ≡ true
    → Signed svc r p
verified-Signed svc r p (some k) (some s) (some m) ek es em h =
    let parts = both (length k == 32) (svc.verify k m s) h in
    record {
      key = k;
      message = m;
      signature = s;
      trusted = ek;
      sized = (==_iff _ _).0 parts.0;
      given = es;
      covers = em;
      valid = parts.1;
    }
verified-Signed svc r p _ _ _ ek es em h = absurd cc

-- A request that is authorized comes from a peer other than root that the policy lists, in its own
-- name; its operation is one of those served; it is live for 15 minutes at most; a key of the
-- policy signs it; and its storage root is approved unless it is for a network.
pub authorize-Granted :
    (svc : Services) (peer : ℕ) (r : Request) (p : Policy) (now : ℕ)
    → authorize svc peer r p now ≡ ok tt
    → Granted svc peer r p now
unfolding authorize authorize_grant
authorize-Granted svc peer r p now h =
    let a = then_ok _ (authorize_grant svc r p now) tt h in
    let b = then_ok _ (authorize_operation svc r p) tt a.0 in
    let c = then_ok _ (require (listed_actor peer p.actors)) tt b.0 in
    let d = then_ok _ (require (r.actor_uid == peer && not (peer == 0))) tt c.0 in
    let who = both (r.actor_uid == peer) (not (peer == 0)) (require-true _ d.1) in
    let g =
      then_ok _
        (require (
          verified svc (hex_decode (codes (text_at r.key_id p.keys)))
            (hex_decode (codes r.signature)) (signed_bytes svc r)))
        tt a.1 in
    let f =
      then_ok _ (require (is_network r || not (str_eq (text_at r.root_id p.roots) ""))) tt g.0 in
    let e =
      then_ok _ (require (ltb now r.expires_at && leb (r.expires_at - now) grant_lifetime)) tt
        f.0 in
    let live =
      both (ltb now r.expires_at) (leb (r.expires_at - now) grant_lifetime) (require-true _ e.1) in
    let short = leb→le _ _ live.1 in
    let start = ltb→lt _ _ live.0 in
    record {
      actor = (==_iff _ _).0 who.0;
      not_root = nonzero peer who.1;
      listed = listed_actor-In peer p.actors (require-true _ c.1);
      operation = b.1;
      known = authorize_operation-known svc r p b.1;
      live = start;
      short = omega arith;
      rooted = either _ _ (require-true _ f.1);
      signed = verified-Signed svc r p _ _ _ refl refl refl (require-true _ g.1);
    }
