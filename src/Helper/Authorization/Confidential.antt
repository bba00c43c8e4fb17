-- ===== src/Helper/Authorization/Confidential.antt =====
-- What a request for a machine's confidential state has that `Authorize` of
-- internal/helper/authorization.go lets through
use virmill.Prelude.{
  eq_iff, not-false, ℕ, ◌+◌, ◌-◌, ◌^◌, ◌≤◌, ◌<◌, Bool, true, false, not, ◌&&◌, ◌||◌, ◌≡◌, refl, ap,
  none, some, List, [], ◌∷◌, ltb, ◌==◌, str_eq, length, arith, both, ==_iff, if◌then◌else◌, In,
  In-later, inl, inr, Bool-cases, Option-cases, zero, subst,
}
use virmill.Domain.Error.{ok, err, plain, err≢ok, ok_inj, bind_ok, guard_ok, require_ok}
use virmill.Helper.Request.{
  Request, Policy, Services, AuxiliaryRequest, AuxiliaryPermission, AuxiliaryInventory,
  AuxiliaryMember,
}
use virmill.Helper.Network.{is_some}
use virmill.Helper.Auxiliary.{
  max_auxiliary_members, max_auxiliary_payload_bytes, matches, selected, permission_fits,
  one_permission, auxiliary_policy, add64, sub64, sum_sizes, listed, inventory_bounded,
  expected_bounded, authorize_auxiliary, mode_fits, auxiliary_id, auxiliary_digest, counts_fit,
  totals, auxiliary_absolute_path, text_at,
}
use virmill.Helper.Authorization.{authorize_operation, authorize}
use virmill.Helper.Authorization.Grant.{authorize-Granted}

-- The sizes of the members, added up without a bound
unfoldable pub total_size : List AuxiliaryMember → ℕ
total_size [] = 0
total_size (m ∷ ms) = m.state.size + total_size ms

-- The loop over the members does not wrap around.
pub sum_sizes-total_size :
    (max total t : ℕ) (ms : List AuxiliaryMember)
    → max < 2 ^ 64
    → total ≤ max
    → sum_sizes max total ms ≡ some t
    → (t ≡ total + total_size ms) × (t ≤ max)
unfolding sum_sizes total_size
sum_sizes-total_size max total t [] b le h = let same : total ≡ t = cc in (omega arith, omega arith)
sum_sizes-total_size max total t (m ∷ ms) b le h =
    elim (Bool-cases (ltb (sub64 max total) m.state.size)) [
      | inl e ↦ let no : none ≡ some t = rw e at h in absurd cc
      | inr e ↦
          let small : m.state.size ≤ max - total = ground arith in
          let exact : add64 total m.state.size ≡ total + m.state.size = omega arith in
          let rest =
            sum_sizes-total_size max (add64 total m.state.size) t ms b (omega arith) (rw e at h) in
          let eq = rest.0 in (omega arith, rest.1)
    ]

selected-In :
    (r : Request) (g : AuxiliaryPermission) (hs gs : List AuxiliaryPermission)
    → selected r gs ≡ g ∷ hs
    → In g gs × (matches r g ≡ true)
unfolding selected
selected-In r g hs [] h = absurd cc
selected-In r g hs (k ∷ gs) h = elim (Bool-cases (matches r k)) [
  | inl e ↦
      let same : k ∷ selected r gs ≡ g ∷ hs = rw e at h in
      let here : k ≡ g = cc in
      subst (λ x. In x (k ∷ gs) × (matches r x ≡ true)) here
        (record { place = zero; found = refl }, e)
  | inr e ↦ let rest = selected-In r g hs gs (rw e at h) in (In-later g k gs rest.0, rest.1)
]

-- A permission of the policy that fits the request
record Permission (svc : Services) (p : Policy) (r : Request) (g : AuxiliaryPermission)
    : Type 0 where
  pub among : In g p.auxiliary
  pub exact : matches r g ≡ true
  pub fits : permission_fits svc p r g ≡ true

one_permission-ok :
    (svc : Services) (p : Policy) (r : Request) (gs : List AuxiliaryPermission)
    (g : AuxiliaryPermission)
    → one_permission svc p r gs ≡ ok g
    → (gs ≡ g ∷ []) × (permission_fits svc p r g ≡ true)
unfolding one_permission
one_permission-ok svc p r [] g h = absurd (err≢ok plain g h)
one_permission-ok svc p r (x ∷ []) g h =
    let a = guard_ok (not (permission_fits svc p r x)) plain _ g h in
    let b = guard_ok (not (str_eq r.mode "inspect") && not x.allow_capture) plain (ok x) g a.1 in
    let same = ok_inj x g b.1 in
    (ap (λ y. y ∷ []) same, subst (λ y. permission_fits svc p r y ≡ true) same (not-false _ a.0))
one_permission-ok svc p r (x ∷ y ∷ gs) g h = absurd (err≢ok plain g h)

auxiliary_policy-Permission :
    (svc : Services) (p : Policy) (r : Request) (g : AuxiliaryPermission)
    → auxiliary_policy svc p r ≡ ok g
    → Permission svc p r g
unfolding auxiliary_policy
auxiliary_policy-Permission svc p r g h =
    let a = guard_ok (ltb 1024 (length p.auxiliary)) plain _ g h in
    let b = one_permission-ok svc p r (selected r p.auxiliary) g a.1 in
    let c = selected-In r g [] p.auxiliary b.0 in record { among = c.0; exact = c.1; fits = b.1 }

-- The inventory that is carried is bounded by a permission of the policy for the request.
pub record Bounded (r : Request) (p : Policy) (i : AuxiliaryInventory) : Type 0 where
  pub permission : AuxiliaryPermission
  pub among : In permission p.auxiliary
  pub actor : permission.actor_uid ≡ r.actor_uid
  pub key : permission.key_id ≡ r.key_id
  pub resource : permission.resource_id ≡ r.resource_id
  pub root : permission.root_id ≡ r.root_id
  pub some_members : 0 < length (listed i.members)
  pub few_members : length (listed i.members) ≤ permission.max_members
  pub most_members : permission.max_members ≤ max_auxiliary_members
  pub total : i.total_bytes ≡ total_size (listed i.members)
  pub small : i.total_bytes ≤ permission.max_bytes
  pub most : permission.max_bytes ≤ max_auxiliary_payload_bytes

at_most : (m b : ℕ) → not (m == 0 || ltb b m) ≡ true → m ≤ b
at_most m b h = ground arith

permission_fits-bounds :
    (svc : Services) (p : Policy) (r : Request) (g : AuxiliaryPermission)
    → permission_fits svc p r g ≡ true
    → (g.max_bytes ≤ max_auxiliary_payload_bytes) × (g.max_members ≤ max_auxiliary_members)
unfolding permission_fits
permission_fits-bounds svc p r g h =
    let a = both _ (auxiliary_absolute_path svc (text_at r.root_id p.roots)) h in
    let b = both _ (auxiliary_id g.resource_id) a.0 in
    let c = both _ (not (g.max_members == 0 || ltb max_auxiliary_members g.max_members)) b.0 in
    let d = both _ (not (g.max_bytes == 0 || ltb max_auxiliary_payload_bytes g.max_bytes)) c.0 in
    (at_most g.max_bytes _ d.1, at_most g.max_members _ c.1)

counted :
    (m most total bytes : ℕ) (b : Bool)
    → not (m == 0 || ltb most m || b || ltb bytes total) ≡ true
    → (0 < m) × (m ≤ most) × (total ≤ bytes)
counted m most total bytes b h = (ground arith, ground arith, ground arith)

inventory_bounded-Bounded :
    (svc : Services) (r : Request) (p : Policy) (g : AuxiliaryPermission) (i : AuxiliaryInventory)
    → Permission svc p r g
    → inventory_bounded g i ≡ true
    → Bounded r p i
unfolding inventory_bounded
inventory_bounded-Bounded svc r p g i q h =
    let max = permission_fits-bounds svc p r g q.fits in
    let a =
      both (counts_fit g i) (totals (sum_sizes g.max_bytes 0 (listed i.members)) i.total_bytes) h in
    let f = both _ (str_eq g.root_id r.root_id) q.exact in
    let d = both _ (str_eq g.resource_id r.resource_id) f.0 in
    let b = both (g.actor_uid == r.actor_uid) (str_eq g.key_id r.key_id) d.0 in
    let c = counted (length (listed i.members)) g.max_members i.total_bytes g.max_bytes _ a.0 in
    elim (Option-cases (sum_sizes g.max_bytes 0 (listed i.members))) [
      | inl e ↦ let no : false ≡ true = rw e at a.1 in absurd cc
      | inr (t, e) ↦
          let exact : (t == i.total_bytes) ≡ true = rw e at a.1 in
          let same = (==_iff t i.total_bytes).0 exact in
          let s =
            sum_sizes-total_size g.max_bytes 0 t (listed i.members) (omega arith) (omega arith) e in
          let eq = s.0 in
          record {
            permission = g;
            among = q.among;
            actor = (==_iff _ _).0 b.0;
            key = (eq_iff _ _).0 b.1;
            resource = (eq_iff _ _).0 d.1;
            root = (eq_iff _ _).0 f.1;
            some_members = c.0;
            few_members = c.1;
            most_members = max.1;
            total = omega arith;
            small = c.2;
            most = max.0;
          }
    ]

authorize_auxiliary-Bounded :
    (svc : Services) (r : Request) (p : Policy) (a : AuxiliaryRequest) (i : AuxiliaryInventory)
    → authorize_auxiliary svc r p ≡ ok tt
    → r.auxiliary ≡ some a
    → a.expected ≡ some i
    → Bounded r p i
unfolding authorize_auxiliary expected_bounded
authorize_auxiliary-Bounded svc r p a i h e x =
    let k =
      guard_ok
        (is_some r.access
          || not (a.version == 1)
          || not (auxiliary_id r.resource_id)
          || not (auxiliary_digest a.fingerprint))
        plain _ tt (rw e at h) in
    let m = guard_ok (not (mode_fits p r a)) plain _ tt k.1 in
    let g =
      bind_ok (auxiliary_policy svc p r)
        (λ g. if expected_bounded g a.expected then ok tt else err plain) tt m.1 in
    let b = require_ok (expected_bounded g.0 a.expected) plain (ok tt) tt g.2 in
    inventory_bounded-Bounded svc r p g.0 i (auxiliary_policy-Permission svc p r g.0 g.1)
      (rw x at b.0)

-- A request for confidential state that is authorized and carries an inventory: a permission of
-- the policy names its actor, key, machine and root; the inventory has a member, and no more of
-- them than the permission, at most 128, allows; its total is the sum of their sizes and within
-- the permission's bound, which is at most 255 MiB.
pub authorize-Bounded :
    (svc : Services) (peer : ℕ) (r : Request) (p : Policy) (now : ℕ) (a : AuxiliaryRequest)
    (i : AuxiliaryInventory)
    → authorize svc peer r p now ≡ ok tt
    → r.operation ≡ "state.auxiliary"
    → r.auxiliary ≡ some a
    → a.expected ≡ some i
    → Bounded r p i
unfolding authorize_operation
authorize-Bounded svc peer r p now a i h o e x =
    let g = authorize-Granted svc peer r p now h in
    let k = guard_ok (is_some r.network) plain _ tt (rw o at g.operation) in
    authorize_auxiliary-Bounded svc r p a i k.1 e x
