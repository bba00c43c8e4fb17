-- ===== src/FileAccess/Acl/Rights.antt =====
-- The rights that an access list gives, by the entries of its classes alone: `allowed` of
-- internal/backend/fileaccess/acl_linux.go agrees with them.
use virmill.Prelude.{
  ℕ, Bool, true, false, ◌≡◌, ◌≢◌, refl, Option, none, some, List, [], ◌∷◌, ◌==◌, All, arith, inl,
  inr, Bool-cases, Option-cases,
}
use Prim.Native.Nat.{bit_and}
use virmill.FileAccess.Acl.{
  Entry, user_object, named_user, mask_entry, other_entry, undefined_id, mask_from, other_from,
  grants, user_answer, group_answer, allowed,
}
use virmill.FileAccess.Acl.Canonical.{IsEntry, Ascending, count, IsAcl}
use virmill.FileAccess.Acl.Lookup.{lookup, lookup-Ascending, count-Ascending}

abbrev pub or_else : ℕ → Option ℕ → ℕ
or_else n none = n
or_else n (some p) = p

abbrev pub mask_of : List Entry → ℕ
mask_of es = or_else 7 (lookup mask_entry undefined_id es)

-- The owner has the owner's bits, a named user the bits of the entry under the mask.
abbrev pub by_class : Bool → ℕ → Option ℕ → ℕ → Bool → ℕ → Bool
by_class true bits named mask rest requested = grants bits requested
by_class false bits (some p) mask rest requested = grants (bit_and p mask) requested
by_class false bits none mask rest requested = rest

-- Anyone else has what one of the matching groups grants under the mask or, without one, the bits
-- of others.
abbrev pub has_rights : List Entry → ℕ → ℕ → ℕ → List ℕ → ℕ → Bool
has_rights es owner group actor groups requested =
    by_class (actor == owner) (or_else 0 (lookup user_object undefined_id es))
      (lookup named_user actor es) (mask_of es)
      (group_answer (mask_of es) (or_else 0 (lookup other_entry undefined_id es)) group groups
        requested es)
      requested

-- The last entry of a tag without identifiers is the only one.
mask_from-lookup :
    (t i m : ℕ) (es : List Entry)
    → All IsEntry es
    → Ascending t i es
    → mask_from m es ≡ or_else m (lookup mask_entry undefined_id es)
unfolding mask_from lookup Ascending
mask_from-lookup t i m [] v o = refl
mask_from-lookup t i m (e ∷ es) v o =
    let none_left = lookup-Ascending e.tag e.id mask_entry undefined_id es o.1 in
    let valid = v.0 in
    ground (
      arith,
      none_left,
      mask_from-lookup e.tag e.id m es v.1 o.1,
      mask_from-lookup e.tag e.id e.permissions es v.1 o.1,
    )

other_from-lookup :
    (t i m : ℕ) (es : List Entry)
    → All IsEntry es
    → Ascending t i es
    → other_from m es ≡ or_else m (lookup other_entry undefined_id es)
unfolding other_from lookup Ascending
other_from-lookup t i m [] v o = refl
other_from-lookup t i m (e ∷ es) v o =
    let none_left = lookup-Ascending e.tag e.id other_entry undefined_id es o.1 in
    let valid = v.0 in
    ground (
      arith,
      none_left,
      other_from-lookup e.tag e.id m es v.1 o.1,
      other_from-lookup e.tag e.id e.permissions es v.1 o.1,
    )

user_answer-other :
    (mask owner actor r : ℕ) (es : List Entry)
    → actor ≢ owner
    → user_answer mask owner actor r es ≡ elim (lookup named_user actor es) [
      | none ↦ none
      | some p ↦ some (grants (bit_and p mask) r)
    ]
unfolding user_answer lookup
user_answer-other mask owner actor r [] n = refl
user_answer-other mask owner actor r (e ∷ es) n =
    ground (arith, user_answer-other mask owner actor r es n)

-- The owner's entry stands first.
user_answer-owner :
    (t i mask owner r : ℕ) (es : List Entry)
    → All IsEntry es
    → Ascending t i es
    → count user_object es ≡ 1
    → user_answer mask owner owner r es
      ≡ some (grants (or_else 0 (lookup user_object undefined_id es)) r)
unfolding user_answer lookup Ascending count
user_answer-owner t i mask owner r [] v o c = absurd (omega arith)
user_answer-owner t i mask owner r (e ∷ es) v o c =
    let gone = count-Ascending e.tag e.id user_object es o.1 in
    let valid = v.0 in
    let first : e.tag ≡ user_object = ground (arith, gone) in ground (arith, gone)

-- `allowed` gives what the classes have.
pub allowed-has_rights :
    (es : List Entry) (owner group actor : ℕ) (groups : List ℕ) (requested : ℕ)
    → IsAcl es
    → requested ≢ 0
    → allowed es owner group actor groups requested
      ≡ has_rights es owner group actor groups requested
unfolding allowed
allowed-has_rights es owner group actor groups requested h n =
    let m = mask_from-lookup 0 0 7 es h.entries h.order in
    let o = other_from-lookup 0 0 0 es h.entries h.order in
    let positive : (requested == 0) ≡ false = ground arith in
    rw (positive, m, o)
      (elim (Bool-cases (actor == owner)) [
        | inl e ↦
            let same : owner ≡ actor = ground arith in
            let first =
              user_answer-owner 0 0 (mask_of es) actor requested es h.entries h.order
                h.owner_once in
            rw (e, same, first) refl
        | inr e ↦
            rw (e, user_answer-other (mask_of es) owner actor requested es (ground arith))
              (elim (Option-cases (lookup named_user actor es)) [
                | inl l ↦ rw l refl
                | inr (p, l) ↦ rw l refl
              ])
      ])

-- The empty request is allowed.
pub allowed_zero :
    (es : List Entry) (owner group actor : ℕ) (groups : List ℕ)
    → allowed es owner group actor groups 0 ≡ true
unfolding allowed
allowed_zero es owner group actor groups = refl
