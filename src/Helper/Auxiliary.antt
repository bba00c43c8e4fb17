-- ===== src/Helper/Auxiliary.antt =====
-- internal/helper/auxiliary.go: the authority of a request for a machine's confidential state.
-- A text is valid UTF-8. An unsigned number of 64 bits wraps around.
use Prim.Native.String.{len}
use virmill.Prelude.{
  ℕ, String, ◌+◌, ◌-◌, ◌%◌, ◌^◌, ◌*◌, Bool, true, false, not, ◌&&◌, ◌||◌, Option, none, some, List,
  [], ◌∷◌, ltb, ◌==◌, str_eq, if◌then◌else◌, length, every,
}
use virmill.Prelude.Table.{Table, lookup}
use virmill.Prelude.Digits.{codes}
use virmill.Prelude.Pattern.{fits, five_groups, is_hex, hex_decode}
use virmill.Domain.Error.{Result, ok, err, plain, ◌>>=◌}
use virmill.Helper.Request.{
  Request, Policy, Services, AuxiliaryRequest, AuxiliaryPermission, AuxiliaryInventory, ResourceKey,
  AuxiliaryMember,
}
use virmill.Helper.Network.{is_some}

abbrev pub max_auxiliary_members : ℕ
max_auxiliary_members = 128

-- 255 MiB
abbrev pub max_auxiliary_payload_bytes : ℕ
max_auxiliary_payload_bytes = 255 * 2 ^ 20

abbrev pub undefined_uid : ℕ
undefined_uid = 2 ^ 32 - 1

-- `auxiliaryID`
unfoldable pub auxiliary_id : String → Bool
unfolding fits
auxiliary_id s =
    fits (five_groups is_hex is_hex) (codes s)
    && not (str_eq s "00000000-0000-0000-0000-000000000000")

-- `auxiliaryDigest`: the hexadecimal digits of 32 bytes, none of them a capital
unfoldable pub auxiliary_digest : String → Bool
unfolding hex_decode
auxiliary_digest s = elim (hex_decode (codes s)) [
  | none ↦ false
  | some b ↦ length b == 32 && every is_hex (codes s)
]

starts_with_slash : List ℕ → Bool
starts_with_slash [] = false
starts_with_slash (c ∷ cs) = c == b'/'

-- `auxiliaryAbsolutePath`
unfoldable pub auxiliary_absolute_path : Services → String → Bool
unfolding starts_with_slash
auxiliary_absolute_path svc s =
    not (str_eq s "/" || ltb 4096 (len s))
    && starts_with_slash (codes s)
    && str_eq (svc.clean s) s
    && every (λ c. not (c == b'\\' || svc.is_control c || svc.is_format c)) (codes s)

-- A map of texts, with the empty text for a missing key
unfoldable pub text_at : String → Table String → String
text_at key t = elim (lookup key t) [ none ↦ "" | some v ↦ v ]

abbrev pub matches : Request → AuxiliaryPermission → Bool
matches r g =
    g.actor_uid == r.actor_uid
    && str_eq g.key_id r.key_id
    && str_eq g.resource_id r.resource_id
    && str_eq g.root_id r.root_id

-- The matching permissions, of which the last is selected
unfoldable pub selected : Request → List AuxiliaryPermission → List AuxiliaryPermission
selected r [] = []
selected r (g ∷ gs) = let rest = selected r gs in if matches r g then g ∷ rest else rest

-- The bounds on the one permission
unfoldable pub permission_fits : Services → Policy → Request → AuxiliaryPermission → Bool
unfolding auxiliary_id auxiliary_absolute_path text_at
permission_fits svc p r g =
    not (g.actor_uid == 0 || g.state_uid == undefined_uid || g.state_gid == undefined_uid)
    && not (g.max_bytes == 0 || ltb max_auxiliary_payload_bytes g.max_bytes)
    && not (g.max_members == 0 || ltb max_auxiliary_members g.max_members)
    && auxiliary_id g.resource_id
    && auxiliary_absolute_path svc (text_at r.root_id p.roots)

unfoldable pub one_permission :
    Services → Policy → Request → List AuxiliaryPermission → Result AuxiliaryPermission
unfolding permission_fits
one_permission svc p r (g ∷ []) =
    if not (permission_fits svc p r g)
    then err plain
    else if not (str_eq r.mode "inspect") && not g.allow_capture
    then err plain
    else ok g
one_permission svc p r _ = err plain

-- `auxiliaryPolicy`
unfoldable pub auxiliary_policy : Services → Policy → Request → Result AuxiliaryPermission
unfolding selected one_permission
auxiliary_policy svc p r =
    if ltb 1024 (length p.auxiliary)
    then err plain
    else one_permission svc p r (selected r p.auxiliary)

-- The resource that the inventory of a native machine names
abbrev pub names_machine : ResourceKey → String → Bool
names_machine k id =
    str_eq k.provider_id "libvirt"
    && str_eq k.connection_id "qemu:///system"
    && str_eq k.kind "vm"
    && str_eq k.uuid id

-- The guard on the inventory of a capture
unfoldable pub inventory_fits : Policy → Request → AuxiliaryRequest → AuxiliaryInventory → Bool
unfolding text_at
inventory_fits p r a i =
    i.version == 1
    && names_machine i.resource r.resource_id
    && str_eq i.fingerprint a.fingerprint
    && str_eq i.layout_vm_id r.resource_id
    && str_eq i.root.id r.root_id
    && str_eq i.root.path (text_at r.root_id p.roots)
    && is_some i.members
    && is_some i.directories

-- The switch over the mode
unfoldable pub mode_fits : Policy → Request → AuxiliaryRequest → Bool
unfolding inventory_fits
mode_fits p r a =
    if str_eq r.mode "inspect"
    then not (is_some a.expected)
    else if str_eq r.mode "capture" || str_eq r.mode "observe"
    then elim a.expected [ none ↦ false | some i ↦ inventory_fits p r a i ]
    else false

abbrev pub add64 : ℕ → ℕ → ℕ
add64 a b = (a + b) % 2 ^ 64

abbrev pub sub64 : ℕ → ℕ → ℕ
sub64 a b = (a + 2 ^ 64 - b) % 2 ^ 64

-- The loop over the members: their total size, or `none` where it exceeds the bound
unfoldable pub sum_sizes : ℕ → ℕ → List AuxiliaryMember → Option ℕ
sum_sizes max total [] = some total
sum_sizes max total (m ∷ ms) =
    let rest = sum_sizes max (add64 total m.state.size) ms in
    if ltb (sub64 max total) m.state.size then none else rest

abbrev pub listed {ℓ} : {A : Type ℓ} → Option (List A) → List A
listed none = []
listed (some xs) = xs

-- The bounds on the inventory
abbrev pub counts_fit : AuxiliaryPermission → AuxiliaryInventory → Bool
counts_fit g i = not (
    length (listed i.members) == 0
    || ltb g.max_members (length (listed i.members))
    || ltb 128 (length (listed i.directories))
    || ltb g.max_bytes i.total_bytes)

abbrev pub totals : Option ℕ → ℕ → Bool
totals none declared = false
totals (some total) declared = total == declared

unfoldable pub inventory_bounded : AuxiliaryPermission → AuxiliaryInventory → Bool
unfolding sum_sizes
inventory_bounded g i =
    counts_fit g i && totals (sum_sizes g.max_bytes 0 (listed i.members)) i.total_bytes

unfoldable pub expected_bounded : AuxiliaryPermission → Option AuxiliaryInventory → Bool
unfolding inventory_bounded
expected_bounded g none = true
expected_bounded g (some i) = inventory_bounded g i

-- `authorizeAuxiliary`
unfoldable pub authorize_auxiliary : Services → Request → Policy → Result (Unit {0})
unfolding auxiliary_id auxiliary_digest mode_fits auxiliary_policy expected_bounded
authorize_auxiliary svc r p = elim r.auxiliary [
  | none ↦ err plain
  | some a ↦
      if is_some r.access
        || not (a.version == 1)
        || not (auxiliary_id r.resource_id)
        || not (auxiliary_digest a.fingerprint)
      then err plain
      else if not (mode_fits p r a)
      then err plain
      else (auxiliary_policy svc p r >>= λ g.
          if expected_bounded g a.expected then ok tt else err plain)
]
