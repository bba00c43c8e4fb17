-- ===== src/FileAccess/Acl/Canonical.antt =====
-- The access lists that internal/backend/fileaccess/acl_linux.go accepts, described without
-- reference to its loop.
use virmill.Prelude.{
  ℕ, ◌+◌, ◌≤◌, ◌<◌, Bool, true, ◌&&◌, ◌||◌, ◌≡◌, List, [], ◌∷◌, ltb, ◌==◌, if◌then◌else◌, All,
  length,
}
use virmill.FileAccess.Acl.{
  Entry, user_object, named_user, group_object, named_group, mask_entry, other_entry, undefined_id,
  maximum_entries, is_base, is_named,
}

-- An entry with permission bits only, of a known tag, with an identifier exactly if the tag is
-- that of a named one
abbrev pub IsEntry : Entry → Type 0
IsEntry e =
    (e.permissions ≤ 7)
    × (e.id ≤ undefined_id)
    × ((is_base e.tag || is_named e.tag) ≡ true)
    × (is_base e.tag ≡ (e.id == undefined_id))

-- The order by tag and then by identifier
abbrev pub precedes : ℕ → ℕ → Entry → Bool
precedes tag id e = ltb tag e.tag || (tag == e.tag && ltb id e.id)

-- Strictly increasing in that order
unfoldable pub Ascending : ℕ → ℕ → List Entry → Type 0
Ascending tag id [] = Unit
Ascending tag id (e ∷ es) = (precedes tag id e ≡ true) × Ascending e.tag e.id es

-- The number of entries with the tag
unfoldable pub count : ℕ → List Entry → ℕ
count t [] = 0
count t (e ∷ es) = if t == e.tag then count t es + 1 else count t es

-- A complete access list in its canonical order
pub record IsAcl (es : List Entry) : Type 0 where
  pub entries : All IsEntry es
  pub order : Ascending 0 0 es
  pub owner_once : count user_object es ≡ 1
  pub group_once : count group_object es ≡ 1
  pub other_once : count other_entry es ≡ 1
  pub masked : 0 < count named_user es + count named_group es → count mask_entry es ≡ 1
  pub bounded : length es ≤ maximum_entries
