-- ===== src/FileAccess/Acl/Changed.antt =====
-- What the entries that `GrantRead` of internal/backend/fileaccess/acl_linux.go makes hold
use virmill.Prelude.{
  ℕ, ◌≤◌, ◌<◌, Bool, true, false, ◌≡◌, ◌≢◌, refl, none, some, List, [], ◌∷◌, ◌++◌, map, All, arith,
}
use Prim.Native.Nat.{bit_and, bit_or}
use virmill.FileAccess.Acl.{Entry, user_object, named_user, mask_entry, other_entry, undefined_id}
use virmill.FileAccess.Acl.Canonical.{IsEntry}
use virmill.FileAccess.Acl.Lookup.{lookup, lookup-append}
use virmill.FileAccess.Acl.Bits.{bit_and_le, bit_or_le}
use virmill.FileAccess.Acl.Grant.{changed_permissions, changed, found, has_mask, added, granted}

-- The old mask, the rights wanted, and the actor
module _ (old w a : ℕ) where
  lookup-changed :
      (t i : ℕ) (es : List Entry)
      → lookup t i (map (changed old w a) es)
        ≡ elim (lookup t i es) [ none ↦ none | some p ↦ some (changed_permissions old w a t i p) ]
  unfolding lookup
  lookup-changed t i [] = refl
  lookup-changed t i (e ∷ es) = ground (arith, lookup-changed t i es)

  found-lookup :
      (es : List Entry)
      → found a es ≡ elim (lookup named_user a es) [ none ↦ false | some p ↦ true ]
  unfolding lookup found
  found-lookup [] = refl
  found-lookup (e ∷ es) = ground (arith, found-lookup es)

  pub has_mask-lookup :
      (es : List Entry)
      → All IsEntry es
      → has_mask es ≡ elim (lookup mask_entry undefined_id es) [ none ↦ false | some p ↦ true ]
  unfolding lookup has_mask
  has_mask-lookup [] v = refl
  has_mask-lookup (e ∷ es) v = let valid = v.0 in ground (arith, has_mask-lookup es v.1)

  changed-IsEntry : (e : Entry) → old ≤ 7 → w ≤ 7 → IsEntry e → IsEntry (changed old w a e)
  changed-IsEntry e lo lw v =
      let b = bit_and_le e.permissions old v.0 lo in
      let c = bit_or_le old w lo lw in (ground (arith, b, c), v.1, v.2, v.3)

  map-IsEntry :
      (es : List Entry) → old ≤ 7 → w ≤ 7 → All IsEntry es → All IsEntry (map (changed old w a) es)
  map-IsEntry [] lo lw v = tt
  map-IsEntry (e ∷ es) lo lw v = (changed-IsEntry e lo lw v.0, map-IsEntry es lo lw v.1)

  All-append : (P : Entry → Type 0) (es ds : List Entry) → All P es → All P ds → All P (es ++ ds)
  All-append P [] ds h k = k
  All-append P (e ∷ es) ds h k = (h.0, All-append P es ds h.1 k)

  added-IsEntry :
      (n m : Bool) → old ≤ 7 → w ≤ 7 → a < undefined_id → All IsEntry (added old w a n m)
  added-IsEntry true true lo lw la = tt
  added-IsEntry true false lo lw la = ((bit_or_le old w lo lw, omega arith, refl, refl), tt)
  added-IsEntry false true lo lw la = ((lw, omega arith, refl, ground arith), tt)
  added-IsEntry false false lo lw la = (
    (lw, omega arith, refl, ground arith),
    ((bit_or_le old w lo lw, omega arith, refl, refl), tt),
  )

  pub granted-IsEntry :
      (es : List Entry)
      → old ≤ 7
      → w ≤ 7
      → a < undefined_id
      → All IsEntry es
      → All IsEntry (granted old w a es)
  unfolding granted
  granted-IsEntry es lo lw la v =
      All-append IsEntry (map (changed old w a) es) (added old w a (found a es) (has_mask es))
        (map-IsEntry es lo lw v) (added-IsEntry (found a es) (has_mask es) lo lw la)

  lookup-granted :
      (t i : ℕ) (es : List Entry)
      → lookup t i (granted old w a es) ≡ elim (lookup t i es) [
        | none ↦ lookup t i (added old w a (found a es) (has_mask es))
        | some p ↦ some (changed_permissions old w a t i p)
      ]
  unfolding granted
  lookup-granted t i es = ground (
    arith,
    lookup-append t i (map (changed old w a) es) (added old w a (found a es) (has_mask es)),
    lookup-changed t i es,
  )

  -- The owner's bits and those of others stay.
  pub user-granted :
      (es : List Entry)
      → lookup user_object undefined_id (granted old w a es) ≡ lookup user_object undefined_id es
  unfolding lookup
  user-granted es = ground (arith, lookup-granted user_object undefined_id es)

  pub other-granted :
      (es : List Entry)
      → lookup other_entry undefined_id (granted old w a es) ≡ lookup other_entry undefined_id es
  unfolding lookup
  other-granted es = ground (arith, lookup-granted other_entry undefined_id es)

  pub mask-granted :
      (es : List Entry)
      → All IsEntry es
      → lookup mask_entry undefined_id (granted old w a es) ≡ some (bit_or old w)
  unfolding lookup
  mask-granted es v =
      ground (arith, lookup-granted mask_entry undefined_id es, has_mask-lookup es v)

  pub actor-granted : (es : List Entry) → lookup named_user a (granted old w a es) ≡ some w
  unfolding lookup
  actor-granted es = ground (arith, lookup-granted named_user a es, found-lookup es)

  pub named-granted :
      (u : ℕ) (es : List Entry)
      → u ≢ a
      → lookup named_user u (granted old w a es)
        ≡ elim (lookup named_user u es) [ none ↦ none | some p ↦ some (bit_and p old) ]
  unfolding lookup
  named-granted u es n = ground (arith, lookup-granted named_user u es)
