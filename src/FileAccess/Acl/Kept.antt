-- ===== src/FileAccess/Acl/Kept.antt =====
-- The rights after `GrantRead` of internal/backend/fileaccess/acl_linux.go: the actor's, and those
-- of anyone else.
use virmill.Prelude.{
  ℕ, ◌≤◌, Bool, true, false, ◌&&◌, ◌||◌, ◌≡◌, ◌≢◌, refl, none, some, List, [], ◌∷◌, ◌++◌, map, ◌==◌,
  All, arith, inl, inr, Bool-cases, Option-cases, every, subst, ◌∙◌,
}
use Prim.Native.Nat.{bit_and, bit_or}
use virmill.FileAccess.Acl.{
  Entry, user_object, named_user, group_object, named_group, mask_entry, other_entry, undefined_id,
  grants, group_matched, group_granted,
}
use virmill.FileAccess.Acl.Canonical.{IsEntry, count, IsAcl}
use virmill.FileAccess.Acl.Lookup.{
  lookup, sort_entries, lookup-sort_entries, group_matched-sort_entries, group_granted-sort_entries,
}
use virmill.FileAccess.Acl.Rights.{mask_of, has_rights}
use virmill.FileAccess.Acl.Bits.{bit_and-bit_or, bit_and-new_mask, bit_and_seven, bit_and_self}
use virmill.FileAccess.Acl.Grant.{
  changed, found, has_mask, added, granted, mode_fits, group_fits, entries_fit, group_bits,
}
use virmill.FileAccess.Acl.Changed.{
  user-granted, other-granted, mask-granted, actor-granted, named-granted, has_mask-lookup,
}

-- An entry under the mask gives the same under the new one.
abbrev pub IsKept : ℕ → ℕ → ℕ → ℕ → ℕ → Type 0
IsKept m old w t p =
    (t == named_user || t == group_object || t == named_group) ≡ true
    → bit_and (bit_and p old) (bit_or old w) ≡ bit_and p m

abbrev Keeps : ℕ → ℕ → ℕ → Entry → Type 0
Keeps m old w e = IsKept m old w e.tag e.permissions

lookup-Keeps :
    (m old w t i p : ℕ) (es : List Entry)
    → All (Keeps m old w) es
    → lookup t i es ≡ some p
    → IsKept m old w t p
unfolding lookup
lookup-Keeps m old w t i p [] k h = absurd cc
lookup-Keeps m old w t i p (e ∷ es) k h = elim (Bool-cases (e.tag == t && e.id == i)) [
  | inl b ↦
      let found_here : some e.permissions ≡ some p = rw b at h in
      let tags : e.tag ≡ t = ground arith in
      let bits : e.permissions ≡ p = cc in
      subst (λ u. IsKept m old w t u) bits (subst (λ u. IsKept m old w u e.permissions) tags k.0)
  | inr b ↦ lookup-Keeps m old w t i p es k.1 (rw b at h)
]

-- The mask is the mode's.
mask-mode :
    (mode p : ℕ) (es : List Entry)
    → every (mode_fits mode) es ≡ true
    → lookup mask_entry undefined_id es ≡ some p
    → p ≡ group_bits mode
unfolding lookup
mask-mode mode p [] f h = absurd cc
mask-mode mode p (e ∷ es) f h = ground (arith, mask-mode mode p es)

same_mask :
    (old w : ℕ) (es : List Entry) → old ≤ 7 → w ≤ 7 → All IsEntry es → All (Keeps old old w) es
same_mask old w [] lo lw v = tt
same_mask old w (e ∷ es) lo lw v =
    (λ h. bit_and-bit_or e.permissions old w v.0.0 lo lw, same_mask old w es lo lw v.1)

no_mask :
    (mode w : ℕ) (es : List Entry)
    → w ≤ 7
    → All IsEntry es
    → count named_user es ≡ 0
    → count named_group es ≡ 0
    → every (group_fits mode) es ≡ true
    → All (Keeps 7 (group_bits mode) w) es
unfolding count
no_mask mode w [] lw v n g f = tt
no_mask mode w (e ∷ es) lw v n g f = (
  λ h.
      let small : group_bits mode ≤ 7 = omega arith in
      let bits : e.permissions ≡ group_bits mode = ground arith in
      let under = bit_and-bit_or e.permissions (group_bits mode) w v.0.0 small lw in
      let full = bit_and_seven e.permissions v.0.0 in
      let self = bit_and_self e.permissions v.0.0 in cc,
  no_mask mode w es lw v.1 (ground arith) (ground arith) (ground arith),
)

count-mask : (es : List Entry) → has_mask es ≡ false → count mask_entry es ≡ 0
unfolding has_mask count
count-mask [] h = refl
count-mask (e ∷ es) h = ground (arith, count-mask es)

-- The entries keep what they give.
pub entries-Keeps :
    (mode w : ℕ) (es : List Entry)
    → w ≤ 7
    → IsAcl es
    → entries_fit mode es ≡ true
    → All (Keeps (mask_of es) (group_bits mode) w) es
entries-Keeps mode w es lw v f =
    let present = has_mask-lookup 0 0 0 es v.entries in
    elim (Option-cases (lookup mask_entry undefined_id es)) [
      | inl n ↦
          let none_there : has_mask es ≡ false = rw n at present in
          let zero_masks = count-mask es none_there in
          let implied = v.masked in
          let seven : 7 ≡ mask_of es = rw n refl in
          subst (λ m. All (Keeps m (group_bits mode) w) es) seven
            (no_mask mode w es lw v.entries (ground arith) (ground arith) (ground arith))
      | inr (p, l) ↦
          let bits = mask-mode mode p es (ground arith) l in
          let mask : group_bits mode ≡ mask_of es = rw (l, bits) refl in
          subst (λ m. All (Keeps m (group_bits mode) w) es) mask
            (same_mask (group_bits mode) w es (omega arith) lw v.entries)
    ]

-- What the matching groups grant
group_granted-append :
    (m old w a group : ℕ) (groups : List ℕ) (r : ℕ) (n k : Bool) (es : List Entry)
    → All (Keeps m old w) es
    → group_granted (bit_or old w) group groups r (map (changed old w a) es ++ added old w a n k)
      ≡ group_granted m group groups r es
unfolding group_granted
group_granted-append m old w a group groups r true true [] kept = refl
group_granted-append m old w a group groups r true false [] kept = refl
group_granted-append m old w a group groups r false true [] kept = refl
group_granted-append m old w a group groups r false false [] kept = refl
group_granted-append m old w a group groups r n k (e ∷ es) kept =
    ground (arith, kept.0, group_granted-append m old w a group groups r n k es kept.1)

group_matched-append :
    (old w a group : ℕ) (groups : List ℕ) (n k : Bool) (es : List Entry)
    → group_matched group groups (map (changed old w a) es ++ added old w a n k)
      ≡ group_matched group groups es
unfolding group_matched
group_matched-append old w a group groups true true [] = refl
group_matched-append old w a group groups true false [] = refl
group_matched-append old w a group groups false true [] = refl
group_matched-append old w a group groups false false [] = refl
group_matched-append old w a group groups n k (e ∷ es) =
    ground (arith, group_matched-append old w a group groups n k es)

module _ (mode w a : ℕ) (es : List Entry) (lw : w ≤ 7) (v : IsAcl es) where
  abbrev pub made : List Entry
  made = granted (group_bits mode) w a es

  mask-made : lookup mask_entry undefined_id (sort_entries made) ≡ some (bit_or (group_bits mode) w)
  mask-made =
      lookup-sort_entries mask_entry undefined_id made
      ∙ mask-granted (group_bits mode) w a es v.entries

  -- What the others' classes hold
  named-made :
      (u : ℕ)
      → u ≢ a
      → lookup named_user u (sort_entries made) ≡ elim (lookup named_user u es) [
        | none ↦ none
        | some p ↦ some (bit_and p (group_bits mode))
      ]
  named-made u n =
      lookup-sort_entries named_user u made ∙ named-granted (group_bits mode) w a u es n

  group_granted-made :
      (group : ℕ) (groups : List ℕ) (r : ℕ)
      → entries_fit mode es ≡ true
      → group_granted (bit_or (group_bits mode) w) group groups r (sort_entries made)
        ≡ group_granted (mask_of es) group groups r es
  unfolding granted
  group_granted-made group groups r f =
      group_granted-sort_entries _ group groups r made
      ∙ group_granted-append (mask_of es) (group_bits mode) w a group groups r (found a es)
          (has_mask es) es (entries-Keeps mode w es lw v f)

  group_matched-made :
      (group : ℕ) (groups : List ℕ)
      → group_matched group groups (sort_entries made) ≡ group_matched group groups es
  unfolding granted
  group_matched-made group groups =
      group_matched-sort_entries group groups made
      ∙ group_matched-append (group_bits mode) w a group groups (found a es) (has_mask es) es

  -- After the grant, anyone but the actor has the rights from before.
  pub others_kept :
      (owner group u : ℕ) (groups : List ℕ) (r : ℕ)
      → entries_fit mode es ≡ true
      → u ≢ a
      → has_rights (sort_entries made) owner group u groups r ≡ has_rights es owner group u groups r
  others_kept owner group u groups r f n =
      let user =
        lookup-sort_entries user_object undefined_id made ∙ user-granted (group_bits mode) w a es in
      let other =
        lookup-sort_entries other_entry undefined_id made
        ∙ other-granted (group_bits mode) w a es in
      elim (Bool-cases (u == owner)) [
        | inl e ↦ rw (e, user) refl
        | inr e ↦
            rw
              (
                e,
                other,
                mask-made,
                named-made u n,
                group_granted-made group groups r f,
                group_matched-made group groups,
              )
              (elim (Option-cases (lookup named_user u es)) [
                | inl l ↦ rw l refl
                | inr (p, l) ↦
                    let kept =
                      lookup-Keeps (mask_of es) (group_bits mode) w named_user u p es
                        (entries-Keeps mode w es lw v f) l refl in
                    rw (l, kept) refl
              ])
      ]

  -- After the grant, the actor has what was wanted.
  pub actor_rights :
      (owner group : ℕ) (groups : List ℕ) (r : ℕ)
      → a ≢ owner
      → has_rights (sort_entries made) owner group a groups r ≡ grants w r
  actor_rights owner group groups r n =
      let differs : (a == owner) ≡ false = ground arith in
      let named = lookup-sort_entries named_user a made ∙ actor-granted (group_bits mode) w a es in
      rw (differs, named, mask-made, bit_and-new_mask w (group_bits mode) lw (omega arith)) refl
