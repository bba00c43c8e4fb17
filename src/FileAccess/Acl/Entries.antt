-- ===== src/FileAccess/Acl/Entries.antt =====
-- The entries that `GrantRead` of internal/backend/fileaccess/acl_linux.go starts from
use virmill.Prelude.{ℕ, ◌<◌, Bool, true, ◌≡◌, refl, subst, List, [], ◌∷◌, All, arith}
use virmill.Domain.Error.{ok, ok_inj}
use virmill.FileAccess.Acl.{Entry, user_object, group_object, other_entry, undefined_id}
use virmill.FileAccess.Acl.Canonical.{Ascending, count, IsAcl}
use virmill.FileAccess.Acl.Decoding.{encode-decode}
use virmill.FileAccess.Acl.Grant.{group_bits, owner_bits, other_bits, entries_of, same}

pub same-≡ : (a b : Bool) → same a b ≡ true → a ≡ b
same-≡ a b h = ground arith

-- The entries of a mode are a canonical access list,
abbrev mode_entries : ℕ → List Entry
mode_entries mode =
    record { tag = user_object; permissions = owner_bits mode; id = undefined_id }
    ∷ record { tag = group_object; permissions = group_bits mode; id = undefined_id }
    ∷ record { tag = other_entry; permissions = other_bits mode; id = undefined_id }
    ∷ []

mode_entries-IsAcl : (mode : ℕ) → IsAcl (mode_entries mode)
unfolding Ascending count
mode_entries-IsAcl mode = record {
  entries = (
    (omega arith, omega arith, refl, refl),
    ((omega arith, omega arith, refl, refl), ((omega arith, omega arith, refl, refl), tt)),
  );
  order = (refl, (refl, (refl, tt)));
  owner_once = refl;
  group_once = refl;
  other_once = refl;
  masked = λ h. absurd (omega arith);
  bounded = omega arith;
}

-- as are those of a list that is read.
pub entries_of-IsAcl :
    (raw : List ℕ) (mode : ℕ) (es : List Entry)
    → All (λ b. b < 256) raw
    → entries_of raw mode ≡ ok es
    → IsAcl es
unfolding entries_of
entries_of-IsAcl [] mode es b h =
    subst IsAcl (ok_inj (mode_entries mode) es h) (mode_entries-IsAcl mode)
entries_of-IsAcl (x ∷ raw) mode es b h = (encode-decode (x ∷ raw) es b h).0
