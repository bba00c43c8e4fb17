-- ===== src/FileAccess/Acl/Grant.antt =====
-- `GrantRead` of internal/backend/fileaccess/acl_linux.go. A mode is a number; `/` and `%` take
-- its three bits for the owner, the group and others.
use virmill.Prelude.{
  ℕ, ◌/◌, ◌%◌, Bool, true, false, not, ◌&&◌, ◌||◌, List, [], ◌∷◌, ◌++◌, map, ltb, ◌==◌,
  if◌then◌else◌, length, every,
}
use Prim.Native.Nat.{bit_and, bit_or}
use virmill.Domain.Error.{Result, err, ok, plain, ◌>>=◌}
use virmill.FileAccess.Acl.{
  Entry, user_object, named_user, group_object, named_group, mask_entry, other_entry, undefined_id,
  maximum_entries, decode, encode, allowed,
}
use virmill.FileAccess.Acl.Lookup.{sort_entries}

abbrev pub owner_bits : ℕ → ℕ
owner_bits mode = mode / 64 % 8

abbrev pub group_bits : ℕ → ℕ
group_bits mode = mode / 8 % 8

abbrev pub other_bits : ℕ → ℕ
other_bits mode = mode % 8

-- The entries of the file: those of its mode where it has no list
unfoldable pub entries_of : List ℕ → ℕ → Result (List Entry)
entries_of [] mode = ok (
    record { tag = user_object; permissions = owner_bits mode; id = undefined_id }
    ∷ record { tag = group_object; permissions = group_bits mode; id = undefined_id }
    ∷ record { tag = other_entry; permissions = other_bits mode; id = undefined_id }
    ∷ [])
entries_of (b ∷ raw) mode = decode (b ∷ raw)

-- The switch of the loop that compares the entries with the mode
abbrev pub mode_fits : ℕ → Entry → Bool
mode_fits mode e =
    if e.tag == user_object
    then e.permissions == owner_bits mode
    else if e.tag == other_entry
    then e.permissions == other_bits mode
    else if e.tag == mask_entry
    then e.permissions == group_bits mode
    else true

abbrev pub group_fits : ℕ → Entry → Bool
group_fits mode e = not (e.tag == group_object && not (e.permissions == group_bits mode))

unfoldable pub has_mask : List Entry → Bool
has_mask [] = false
has_mask (e ∷ es) = e.tag == mask_entry || has_mask es

-- The rights that the actor has, one by one
unfoldable pub prior_rights : List Entry → ℕ → ℕ → ℕ → List ℕ → ℕ
prior_rights es owner group actor groups =
    let may = allowed es owner group actor groups in
    bit_or (bit_or (if may 1 then 1 else 0) (if may 2 then 2 else 0)) (if may 4 then 4 else 0)

unfoldable pub found : ℕ → List Entry → Bool
found actor [] = false
found actor (e ∷ es) = (e.tag == named_user && e.id == actor) || found actor es

-- The body of the loop that changes the entries
abbrev pub changed_permissions : ℕ → ℕ → ℕ → ℕ → ℕ → ℕ → ℕ
changed_permissions old_mask wanted actor tag id permissions =
    if tag == mask_entry
    then bit_or old_mask wanted
    else if tag == named_user && id == actor
    then wanted
    else if tag == named_user || tag == group_object || tag == named_group
    then bit_and permissions old_mask
    else permissions

abbrev pub changed : ℕ → ℕ → ℕ → Entry → Entry
changed old_mask wanted actor e = record {
  tag = e.tag;
  permissions = changed_permissions old_mask wanted actor e.tag e.id e.permissions;
  id = e.id;
}

-- The entries that are appended where there was none for the actor and no mask
abbrev pub added : ℕ → ℕ → ℕ → Bool → Bool → List Entry
added old_mask wanted actor true true = []
added old_mask wanted actor true false =
    record { tag = mask_entry; permissions = bit_or old_mask wanted; id = undefined_id } ∷ []
added old_mask wanted actor false true =
    record { tag = named_user; permissions = wanted; id = actor } ∷ []
added old_mask wanted actor false false =
    record { tag = named_user; permissions = wanted; id = actor }
    ∷ record { tag = mask_entry; permissions = bit_or old_mask wanted; id = undefined_id }
    ∷ []

-- The entries with the grant, before they are sorted
unfoldable pub granted : ℕ → ℕ → ℕ → List Entry → List Entry
unfolding found has_mask
granted old_mask wanted actor es =
    map (changed old_mask wanted actor) es
    ++ added old_mask wanted actor (found actor es) (has_mask es)

-- `==` on truth values
abbrev pub same : Bool → Bool → Bool
same a b = if a then b else not b

-- The guards on the entries and the groups
abbrev pub groups_fit : List ℕ → Bool
groups_fit groups = not (ltb 4096 (length groups)) && every (λ g. not (g == undefined_id)) groups

abbrev pub entries_fit : ℕ → List Entry → Bool
entries_fit mode es = every (mode_fits mode) es && (has_mask es || every (group_fits mode) es)

-- `GrantRead` once the entries are known
unfoldable pub grant_entries : List Entry → ℕ → ℕ → ℕ → ℕ → List ℕ → Result (List ℕ)
unfolding has_mask prior_rights granted
grant_entries es mode owner group actor groups =
    let prior = prior_rights es owner group actor groups in
    let wanted = bit_or prior 4 in
    let after = granted (group_bits mode) wanted actor es in
    let out = encode (sort_entries after) in
    if not (entries_fit mode es)
    then err plain
    else if not (groups_fit groups)
    then err plain
    else if not (same (bit_and prior 3 == 3) (allowed es owner group actor groups 3))
    then err plain
    else if ltb maximum_entries (length after)
    then err plain
    else (decode out >>= λ read_back. ok out)

unfoldable pub grant_read : List ℕ → ℕ → ℕ → ℕ → ℕ → List ℕ → Result (List ℕ)
unfolding entries_of grant_entries
grant_read raw mode owner group actor groups =
    if actor == 0 || actor == undefined_id || actor == owner
    then err plain
    else if not (mode / 512 % 8 == 0)
    then err plain
    else (entries_of raw mode >>= λ es. grant_entries es mode owner group actor groups)
