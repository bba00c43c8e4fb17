-- ===== src/FileAccess/Acl/Lookup.antt =====
-- The entry for a tag and an identifier in an access list of
-- internal/backend/fileaccess/acl_linux.go, and the sort by both
use virmill.Prelude.{
  ℕ, ◌≤◌, ◌<◌, Bool, true, false, not, ◌&&◌, ◌||◌, ◌≡◌, refl, Option, none, some, List, [], ◌∷◌,
  ◌++◌, ltb, ◌==◌, if◌then◌else◌, All, arith, length, ◌+◌,
}
use virmill.FileAccess.Acl.{Entry, group_matched, group_granted}
use virmill.FileAccess.Acl.Canonical.{precedes, Ascending, count}

-- The permissions of the first entry with the tag and the identifier
unfoldable pub lookup : ℕ → ℕ → List Entry → Option ℕ
lookup t i [] = none
lookup t i (e ∷ es) = if e.tag == t && e.id == i then some e.permissions else lookup t i es

place : Entry → List Entry → List Entry
place e [] = e ∷ []
place e (d ∷ es) = let rest = place e es in if precedes d.tag d.id e then d ∷ rest else e ∷ d ∷ es

-- `sort.Slice` by the tag and then by the identifier
unfoldable pub sort_entries : List Entry → List Entry
unfolding place
sort_entries [] = []
sort_entries (e ∷ es) = place e (sort_entries es)

lookup-place :
    (t i : ℕ) (e : Entry) (es : List Entry) → lookup t i (place e es) ≡ lookup t i (e ∷ es)
unfolding place lookup
lookup-place t i e [] = refl
lookup-place t i e (d ∷ es) = ground (arith, lookup-place t i e es)

-- The sort keeps what is found,
pub lookup-sort_entries : (t i : ℕ) (es : List Entry) → lookup t i (sort_entries es) ≡ lookup t i es
unfolding sort_entries lookup
lookup-sort_entries t i [] = refl
lookup-sort_entries t i (e ∷ es) =
    ground (arith, lookup-place t i e (sort_entries es), lookup-sort_entries t i es)

||_swap : (a b c : Bool) → (a || (b || c)) ≡ (b || (a || c))
||_swap a b c = ground arith

group_matched-place :
    (group : ℕ) (groups : List ℕ) (e : Entry) (es : List Entry)
    → group_matched group groups (place e es) ≡ group_matched group groups (e ∷ es)
unfolding place group_matched
group_matched-place group groups e [] = refl
group_matched-place group groups e (d ∷ es) = ground (arith, group_matched-place group groups e es)

-- the matching entries,
pub group_matched-sort_entries :
    (group : ℕ) (groups : List ℕ) (es : List Entry)
    → group_matched group groups (sort_entries es) ≡ group_matched group groups es
unfolding sort_entries group_matched
group_matched-sort_entries group groups [] = refl
group_matched-sort_entries group groups (e ∷ es) =
    rw
      (
        group_matched-place group groups e (sort_entries es),
        group_matched-sort_entries group groups es,
      )
      refl

group_granted-place :
    (mask group : ℕ) (groups : List ℕ) (r : ℕ) (e : Entry) (es : List Entry)
    → group_granted mask group groups r (place e es) ≡ group_granted mask group groups r (e ∷ es)
unfolding place group_granted
group_granted-place mask group groups r e [] = refl
group_granted-place mask group groups r e (d ∷ es) =
    ground (arith, group_granted-place mask group groups r e es)

-- and what they grant.
pub group_granted-sort_entries :
    (mask group : ℕ) (groups : List ℕ) (r : ℕ) (es : List Entry)
    → group_granted mask group groups r (sort_entries es) ≡ group_granted mask group groups r es
unfolding sort_entries group_granted
group_granted-sort_entries mask group groups r [] = refl
group_granted-sort_entries mask group groups r (e ∷ es) =
    rw
      (
        group_granted-place mask group groups r e (sort_entries es),
        group_granted-sort_entries mask group groups r es,
      )
      refl

All-place : (P : Entry → Type 0) (e : Entry) (es : List Entry) → P e → All P es → All P (place e es)
unfolding place
All-place P e [] p h = (p, tt)
All-place P e (d ∷ es) p h =
    elim (precedes d.tag d.id e) as (λ b. All P (if b then d ∷ place e es else e ∷ d ∷ es)) [
      | true ↦ (h.0, All-place P e es p h.1)
      | false ↦ (p, h)
    ]

pub All-sort_entries : (P : Entry → Type 0) (es : List Entry) → All P es → All P (sort_entries es)
unfolding sort_entries
All-sort_entries P [] h = tt
All-sort_entries P (e ∷ es) h = All-place P e (sort_entries es) h.0 (All-sort_entries P es h.1)

length-place : (e : Entry) (es : List Entry) → length (place e es) ≡ length es + 1
unfolding place
length-place e [] = refl
length-place e (d ∷ es) = ground (arith, length-place e es)

pub length-sort_entries : (es : List Entry) → length (sort_entries es) ≡ length es
unfolding sort_entries
length-sort_entries [] = refl
length-sort_entries (e ∷ es) =
    ground (arith, length-place e (sort_entries es), length-sort_entries es)

pub lookup-append :
    (t i : ℕ) (es ds : List Entry)
    → lookup t i (es ++ ds) ≡ elim (lookup t i es) [ none ↦ lookup t i ds | some p ↦ some p ]
unfolding lookup
lookup-append t i [] ds = refl
lookup-append t i (e ∷ es) ds = ground (arith, lookup-append t i es ds)

-- What is not above the bound of an ascending list is not in it.
pub lookup-Ascending :
    (t i tag id : ℕ) (es : List Entry)
    → Ascending t i es
    → (ltb tag t || (tag == t && not (ltb i id))) ≡ true
    → lookup tag id es ≡ none
unfolding lookup Ascending
lookup-Ascending t i tag id [] o h = refl
lookup-Ascending t i tag id (e ∷ es) o h =
    let p = o.0 in ground (arith, lookup-Ascending e.tag e.id tag id es o.1 (ground arith))

pub count-Ascending :
    (t i tag : ℕ) (es : List Entry) → Ascending t i es → tag < t → count tag es ≡ 0
unfolding count Ascending
count-Ascending t i tag [] o h = refl
count-Ascending t i tag (e ∷ es) o h =
    let p = o.0 in
    let le : t ≤ e.tag = ground arith in
    ground (arith, count-Ascending e.tag e.id tag es o.1 (omega arith))
