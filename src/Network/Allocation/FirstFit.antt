-- ===== src/Network/Allocation/FirstFit.antt =====
-- `AllocateConfigured` yields the first free subnet of the first range that has one.
use virmill.Prelude.{
  ℕ, ◌<◌, some, List, [], ◌∷◌, ◌++◌, ◌⊎◌, inl, inr, ◌≡◌, ◌↔◌, refl, sym, ◌∙◌, ltb, All, Bool-cases,
  length, get_elem?, All-get,
}
use virmill.Domain.Error.{Err, Result, ok, err, fail, Code, Result-cases}
use virmill.Network.Prefix.{
  Prefix4, Prefix, v4, v6, mapped, invalid, Interval, span, size_of, parse_prefix,
}
use virmill.Network.Allocation.Pools.{validate_config-fits, validate_config-error}
use virmill.Network.Config.{AllocationRange, PlannedAllocation, AllocationConfig, validate_config}
use virmill.Network.Allocation.{
  parsed, occupied_spans, planned_spans, sort_spans, merge_spans, allocate_ranges, allocate,
}
use virmill.Network.Allocation.Free.{
  IsFree, Apart, Ascending, sort_spans-IsFree, sort_spans-Ascending, merge_spans-IsFree,
  merge_spans-Ascending,
}
use virmill.Network.Allocation.Search.{
  Candidate, First, NoneFree, allocate_ranges-First, allocate_ranges-NoneFree,
}

-- An observed prefix that leaves a subnet free
abbrev pub Clear : ℕ → ℕ → Prefix → Type 0
Clear a size (v4 p) = Apart a size (span p)
Clear a size v6 = Unit
Clear a size mapped = Unit
Clear a size invalid = Unit

-- A subnet that no observed and no planned prefix meets
abbrev pub Unused : AllocationConfig → List Prefix → ℕ → ℕ → Type 0
Unused c occupied a size =
    All (Clear a size) occupied
    × All (λ q. Apart a size (span (parsed (parse_prefix q.cidr)))) c.planned

occupied_spans-IsFree :
    (a size : ℕ) (ps : List Prefix) (ss : List Interval)
    → occupied_spans ps ≡ ok ss
    → All (Clear a size) ps ↔ IsFree a size ss
unfolding occupied_spans
occupied_spans-IsFree a size [] ss e = let same : [] ≡ ss = cc in rw (sym same) (λ h. h, λ h. h)
occupied_spans-IsFree a size (v4 p ∷ ps) ss e = elim (Result-cases (occupied_spans ps)) [
  | inl (rest, n) ↦
      let same : ok (span p ∷ rest) ≡ ok ss = rw (n, occupied_spans) at e in
      let ih = occupied_spans-IsFree a size ps rest n in
      let eq : span p ∷ rest ≡ ss = cc in rw (sym eq) (λ h. (h.0, ih.0 h.1), λ h. (h.0, ih.1 h.1))
  | inr (x, n) ↦ let no : err x ≡ ok ss = rw (n, occupied_spans) at e in absurd cc
]
occupied_spans-IsFree a size (v6 ∷ ps) ss e =
    let ih = occupied_spans-IsFree a size ps ss e in (λ h. ih.0 h.1, λ h. (tt, ih.1 h))
occupied_spans-IsFree a size (mapped ∷ ps) ss e = absurd cc
occupied_spans-IsFree a size (invalid ∷ ps) ss e = absurd cc

planned_spans-IsFree :
    (a size : ℕ) (ps : List PlannedAllocation)
    → All (λ q. Apart a size (span (parsed (parse_prefix q.cidr)))) ps
      ↔ IsFree a size (planned_spans ps)
unfolding planned_spans
planned_spans-IsFree a size [] = (λ h. h, λ h. h)
planned_spans-IsFree a size (p ∷ ps) =
    let ih = planned_spans-IsFree a size ps in (λ h. (h.0, ih.0 h.1), λ h. (h.0, ih.1 h.1))

All-append :
    (a size : ℕ) (xs ys : List Interval)
    → (IsFree a size xs × IsFree a size ys) ↔ IsFree a size (xs ++ ys)
All-append a size [] ys = (λ h. h.1, λ h. (tt, h))
All-append a size (x ∷ xs) ys =
    let ih = All-append a size xs ys in
    (λ h. (h.0.0, ih.0 (h.0.1, h.1)), λ h. let w = ih.1 h.1 in ((h.0, w.0), w.1))

-- A subnet meets none of the merged intervals exactly if it is unused.
merged-covers :
    (c : AllocationConfig) (occupied : List Prefix) (spans : List Interval)
    → occupied_spans occupied ≡ ok spans
    → (a size : ℕ) → 0 < size
    → Unused c occupied a size
      ↔ IsFree a size (merge_spans (sort_spans (spans ++ planned_spans c.planned)))
merged-covers c occupied spans e a size pos =
    let all = spans ++ planned_spans c.planned in
    let o = occupied_spans-IsFree a size occupied spans e in
    let p = planned_spans-IsFree a size c.planned in
    let j = All-append a size spans (planned_spans c.planned) in
    let s = sort_spans-IsFree a size all in
    let m = merge_spans-IsFree a size pos (sort_spans all) (sort_spans-Ascending all) in
    (λ h. m.0 (s.0 (j.0 (o.0 h.0, p.0 h.1))), λ h. let w = j.1 (s.1 (m.1 h)) in (o.1 w.0, p.1 w.1))

-- What an allocation that is not refused was computed from
abbrev Searched : AllocationConfig → List Prefix → Result Prefix4 → Type 0
Searched c occupied r =
    (validate_config c ≡ ok tt)
    × (spans : List Interval) × (occupied_spans occupied ≡ ok spans)
    × (allocate_ranges c.ranges (merge_spans (sort_spans (spans ++ planned_spans c.planned))) ≡ r)

occupied_spans-error :
    (ps : List Prefix) (x : Err) → occupied_spans ps ≡ err x → x ≡ fail Code.invalid_input
unfolding occupied_spans
occupied_spans-error [] x e = absurd cc
occupied_spans-error (v4 p ∷ ps) x e = elim (Result-cases (occupied_spans ps)) [
  | inl (rest, n) ↦ let no : ok (span p ∷ rest) ≡ err x = rw (n, occupied_spans) at e in absurd cc
  | inr (y, n) ↦
      let same : err y ≡ err x = rw (n, occupied_spans) at e in
      let ih = occupied_spans-error ps y n in cc
]
occupied_spans-error (v6 ∷ ps) x e = occupied_spans-error ps x e
occupied_spans-error (mapped ∷ ps) x e = cc
occupied_spans-error (invalid ∷ ps) x e = cc

ascends :
    (spans : List Interval) (planned : List PlannedAllocation)
    → Ascending 0 (merge_spans (sort_spans (spans ++ planned_spans planned)))
ascends spans planned =
    merge_spans-Ascending _ (sort_spans-Ascending (spans ++ planned_spans planned))

-- The input is refused as invalid, or the search answers.
allocate-cases :
    (c : AllocationConfig) (occupied : List Prefix)
    → (allocate c occupied ≡ err (fail Code.invalid_input))
      ⊎ Searched c occupied (allocate c occupied)
unfolding allocate
allocate-cases c occupied = elim (Result-cases (validate_config c)) [
  | inr (x, v) ↦ let bad = validate_config-error c x v in inl (rw (v, bad) refl)
  | inl (u, v) ↦ elim (Bool-cases (ltb 65536 (length occupied))) [
    | inl g ↦ inl (rw (v, g) refl)
    | inr g ↦ elim (Result-cases (occupied_spans occupied)) [
      | inr (x, o) ↦ let bad = occupied_spans-error occupied x o in inl (rw (v, g, o, bad) refl)
      | inl (spans, o) ↦ inr (v, spans, o, rw (v, g, o) refl)
    ]
  ]
]

module _ (c : AllocationConfig) (occupied : List Prefix) where
  -- An allocated prefix has its range's length, is aligned and inside the range's pool, meets no
  -- observed and no planned prefix, is the first such subnet of its range, and no earlier range
  -- has one.
  pub allocate-First :
      (p : Prefix4) → allocate c occupied ≡ ok p → First (Unused c occupied) c.ranges p
  allocate-First p e = elim (allocate-cases c occupied) [
    | inl bad ↦ absurd cc
    | inr (v, spans, o, found) ↦
        allocate_ranges-First (Unused c occupied) _ (ascends spans c.planned)
          (merged-covers c occupied spans o) c.ranges p (validate_config-fits c v) (found ∙ e)
  ]

  none_free :
      allocate c occupied ≡ err (fail Code.cidr_conflict)
      → All (NoneFree (Unused c occupied)) c.ranges
  none_free e = elim (allocate-cases c occupied) [
    | inl bad ↦ absurd cc
    | inr (v, spans, o, found) ↦
        allocate_ranges-NoneFree (Unused c occupied) _ (ascends spans c.planned)
          (merged-covers c occupied spans o) c.ranges (fail Code.cidr_conflict)
          (validate_config-fits c v) (found ∙ e)
  ]

  -- An allocation that reports a conflict of prefixes leaves no subnet of any range unused.
  pub allocate_conflict :
      (i a : ℕ) (r : AllocationRange)
      → allocate c occupied ≡ err (fail Code.cidr_conflict)
      → get_elem? c.ranges i ≡ some r
      → Candidate r a
      → ¬ Unused c occupied a (size_of r.prefix_length)
  allocate_conflict i a r e at fits free =
      All-get (NoneFree (Unused c occupied)) c.ranges i r (none_free e) at a fits free
