-- ===== src/Network/Allocation/Pools.antt =====
-- The pools of a validated declaration: the subnets fit in them, and their starts are aligned.
use native.Mathlib.Nat.{mul_assoc, one-le-pow, pow-succ'}
use Prim.Native.String.{String}
use virmill.Prelude.Digits.{codes}
use virmill.Prelude.{
  ℕ, zero, suc, ◌+◌, ◌-◌, ◌*◌, ◌/◌, ◌^◌, ◌≤◌, ◌<◌, true, ◌&&◌, Option, none, some, List, [], ◌∷◌,
  inl, inr, not, ◌||◌, contains, ◌≡◌, sym, ap, ◌∙◌, arith, ltb, ◌==◌, length, All, Bool-cases,
  Option-cases,
}
use virmill.Domain.Error.{Err, ok, err, Result-cases}
use virmill.Network.Prefix.{
  Prefix4, Interval, span, size_of, parse_prefix, private_prefix, canonical, masked, same_codes,
  show_prefix, is_private,
}
use virmill.Network.Config.{
  AllocationRange, AllocationConfig, validate_config, check_ranges, bad_shape, PlannedAllocation,
  allocation_id, check_planned, invalid, length_fits, overlaps_any,
}
use virmill.Network.Allocation.{parsed}
use virmill.Network.Allocation.Scan.{IsAligned}

abbrev pub pool : AllocationRange → Interval
pool r = span (parsed (parse_prefix r.cidr))

-- The subnets of a range are no larger than its pool.
abbrev pub IsFit : AllocationRange → Type 0
IsFit r = ((parsed (parse_prefix r.cidr)).bits ≤ r.prefix_length) × (r.prefix_length ≤ 32)

pow_split : (k l : ℕ) → IsAligned (2 ^ k) (2 ^ (l + k))
pow_split k zero = (1, let same : 0 + k ≡ k = omega arith in ap (λ j. 2 ^ j) same ∙ omega arith)
pow_split k (suc l) =
    let (m, e) = pow_split k l in
    (
      2 * m,
      let same : suc l + k ≡ suc (l + k) = omega arith in
          ap (λ j. 2 ^ j) same
          ∙ pow-succ' 2 (l + k)
          ∙ ap (λ j. 2 * j) e
          ∙ sym (mul_assoc 2 m (2 ^ k)),
    )

pub pool-IsAligned :
    (r : AllocationRange) → IsFit r → IsAligned (size_of r.prefix_length) (pool r).start
unfolding span
pool-IsAligned r fit =
    let p = parsed (parse_prefix r.cidr) in
    let (m, e) = pow_split (32 - r.prefix_length) (r.prefix_length - p.bits) in
    let split : r.prefix_length - p.bits + (32 - r.prefix_length) ≡ 32 - p.bits =
      omega (arith, fit) in
    (
      p.addr / size_of p.bits * m,
      ap (λ j. p.addr / size_of p.bits * j) (ap (λ j. 2 ^ j) (sym split) ∙ e)
          ∙ sym (mul_assoc (p.addr / size_of p.bits) m (size_of r.prefix_length)),
    )

pub size_pos : (bits : ℕ) → 0 < size_of bits
size_pos bits = one-le-pow (32 - bits) 2 (omega arith)

canonical-same :
    (raw : String) (p : Prefix4) (o : Option Prefix4) → canonical raw o ≡ some p → o ≡ some p
unfolding canonical
canonical-same raw p none h = h
canonical-same raw p (some q) h =
    elim (Bool-cases
      ((masked q).addr == q.addr && same_codes (show_prefix q) (codes raw) && is_private q)) [
        | inl g ↦ rw g at h
        | inr g ↦ let no : none ≡ some p = rw g at h in absurd cc
      ]

private_prefix-parse_prefix :
    (raw : String) (p : Prefix4) → private_prefix raw ≡ some p → parse_prefix raw ≡ some p
unfolding private_prefix
private_prefix-parse_prefix raw p e = elim (Bool-cases (ltb 18 (length (codes raw)))) [
  | inl g ↦ let no : none ≡ some p = rw g at e in absurd cc
  | inr g ↦ canonical-same raw p (parse_prefix raw) (rw g at e)
]

length_fits-IsFit :
    (r : AllocationRange) (p : Prefix4)
    → length_fits r p ≡ true
    → (p.bits ≤ r.prefix_length) × (r.prefix_length ≤ 32)
unfolding length_fits
length_fits-IsFit r p h = ground arith

check_ranges-fits :
    (rs : List AllocationRange) (prior : List Prefix4)
    → check_ranges rs prior ≡ ok tt
    → All IsFit rs
unfolding check_ranges
check_ranges-fits [] prior e = tt
check_ranges-fits (r ∷ rs) prior e = elim (Option-cases (private_prefix r.cidr)) [
  | inl n ↦ let no : err _ ≡ ok tt = rw (n, check_ranges) at e in absurd cc
  | inr (p, n) ↦
      let known : parse_prefix r.cidr ≡ some p = private_prefix-parse_prefix r.cidr p n in
      elim (Bool-cases (length_fits r p)) [
        | inr g ↦ let no : err _ ≡ ok tt = rw (n, check_ranges, g) at e in absurd cc
        | inl g ↦ elim (Bool-cases (overlaps_any p prior)) [
          | inl o ↦ let no : err _ ≡ ok tt = rw (n, check_ranges, g, o) at e in absurd cc
          | inr o ↦ (
            (rw known (length_fits-IsFit r p g)),
            check_ranges-fits rs (p ∷ prior) (rw (n, check_ranges, g, o) at e),
          )
        ]
      ]
]

pub validate_config-fits : (c : AllocationConfig) → validate_config c ≡ ok tt → All IsFit c.ranges
unfolding validate_config
validate_config-fits c e = elim (Bool-cases (bad_shape c)) [
  | inl g ↦ let no : err _ ≡ ok tt = rw (g, validate_config) at e in absurd cc
  | inr g ↦ elim (Result-cases (check_ranges c.ranges [])) [
    | inl (u, h) ↦ check_ranges-fits c.ranges [] h
    | inr (x, h) ↦ let no : err x ≡ ok tt = rw (g, validate_config, h) at e in absurd cc
  ]
]

-- The only error of the validation
check_ranges-error :
    (rs : List AllocationRange) (prior : List Prefix4) (x : Err)
    → check_ranges rs prior ≡ err x
    → x ≡ invalid
unfolding check_ranges
check_ranges-error [] prior x e = absurd cc
check_ranges-error (r ∷ rs) prior x e = elim (Option-cases (private_prefix r.cidr)) [
  | inl n ↦ let same : err invalid ≡ err x = rw (n, check_ranges) at e in cc
  | inr (p, n) ↦ elim (Bool-cases (length_fits r p)) [
    | inr g ↦ let same : err invalid ≡ err x = rw (n, check_ranges, g) at e in cc
    | inl g ↦ elim (Bool-cases (overlaps_any p prior)) [
      | inl o ↦ let same : err invalid ≡ err x = rw (n, check_ranges, g, o) at e in cc
      | inr o ↦ check_ranges-error rs (p ∷ prior) x (rw (n, check_ranges, g, o) at e)
    ]
  ]
]

check_planned-error :
    (ps : List PlannedAllocation) (ids : List String) (x : Err)
    → check_planned ps ids ≡ err x
    → x ≡ invalid
unfolding check_planned
check_planned-error [] ids x e = absurd cc
check_planned-error (p ∷ ps) ids x e =
    elim (Bool-cases (not (allocation_id p.id) || contains ids p.id)) [
      | inl g ↦ let same : err invalid ≡ err x = rw (check_planned, g) at e in cc
      | inr g ↦ elim (Option-cases (private_prefix p.cidr)) [
        | inl n ↦ let same : err invalid ≡ err x = rw (check_planned, g, n) at e in cc
        | inr (q, n) ↦ check_planned-error ps (p.id ∷ ids) x (rw (check_planned, g, n) at e)
      ]
    ]

pub validate_config-error :
    (c : AllocationConfig) (x : Err) → validate_config c ≡ err x → x ≡ invalid
unfolding validate_config
validate_config-error c x e = elim (Bool-cases (bad_shape c)) [
  | inl g ↦ let same : err invalid ≡ err x = rw (g, validate_config) at e in cc
  | inr g ↦ elim (Result-cases (check_ranges c.ranges [])) [
    | inl (u, h) ↦ check_planned-error c.planned [] x (rw (g, validate_config, h) at e)
    | inr (y, h) ↦
        let same : err y ≡ err x = rw (g, validate_config, h) at e in
        let ih = check_ranges-error c.ranges [] y h in cc
  ]
]
