-- ===== src/Network/Allocation/Search.antt =====
-- The search through the ranges, over any list of intervals that covers what is not free
use virmill.Prelude.{
  ℕ, ◌+◌, ◌≤◌, ◌<◌, none, some, List, [], ◌∷◌, inl, inr, ◌≡◌, ◌↔◌, refl, subst, arith, leb, All,
  Bool-cases, Option-cases, leb→le,
}
use virmill.Domain.Error.{Err, ok, err}
use virmill.Network.Prefix.{Prefix4, Interval, size_of}
use virmill.Network.Allocation.Pools.{pool, IsFit, pool-IsAligned, size_pos}
use virmill.Network.Config.{AllocationRange}
use virmill.Network.Allocation.{drop_passed, scan, allocate_range, allocate_ranges}
use virmill.Network.Allocation.Free.{IsFree, Ascending}
use virmill.Network.Allocation.Scan.{
  IsAligned, Least, scan-Least, drop_passed-IsFree, drop_passed-Ascending,
}

-- A subnet of the range
abbrev pub Candidate : AllocationRange → ℕ → Type 0
Candidate r a =
    IsAligned (size_of r.prefix_length) a
    × ((pool r).start ≤ a)
    × (a + size_of r.prefix_length ≤ (pool r).stop)

-- The first free subnet of a range, where `Free a size` says which are free
abbrev pub Best : (ℕ → ℕ → Type 0) → AllocationRange → Prefix4 → Type 0
Best Free r p =
    (p.bits ≡ r.prefix_length)
    × Candidate r p.addr
    × Free p.addr (size_of r.prefix_length)
    × ((a : ℕ) → Candidate r a → Free a (size_of r.prefix_length) → p.addr ≤ a)

-- No subnet of the range is free.
abbrev pub NoneFree : (ℕ → ℕ → Type 0) → AllocationRange → Type 0
NoneFree Free r = (a : ℕ) → Candidate r a → Free a (size_of r.prefix_length) → ⊥

-- The first free subnet of the first range that has one
pub data First (Free : ℕ → ℕ → Type 0) : List AllocationRange → Prefix4 → Type 0 where
  here :
      (r : AllocationRange) (rs : List AllocationRange) (p : Prefix4)
      → Best Free r p
      → First Free (r ∷ rs) p
  later :
      (r : AllocationRange) (rs : List AllocationRange) (p : Prefix4)
      → NoneFree Free r
      → First Free rs p
      → First Free (r ∷ rs) p

-- Where the search in one range ends
abbrev stops : AllocationRange → List Interval → ℕ
stops r bs =
    scan (pool r).stop (size_of r.prefix_length) (pool r).start (drop_passed (pool r).start bs)

stops-Least :
    (r : AllocationRange) (bs : List Interval)
    → IsFit r
    → Ascending 0 bs
    → Least
        (pool r).stop
        (size_of r.prefix_length)
        (pool r).start
        (drop_passed (pool r).start bs)
        (stops r bs)
stops-Least r bs fit asc =
    scan-Least (pool r).stop (size_of r.prefix_length) (size_pos r.prefix_length) (pool r).start 0 _
      (pool-IsAligned r fit) (drop_passed-Ascending (pool r).start 0 bs asc)

-- The search in one range, where `bs` covers what is not free
module _ (Free : ℕ → ℕ → Type 0) (bs : List Interval) (asc : Ascending 0 bs)
    (covers : (a size : ℕ) → 0 < size → Free a size ↔ IsFree a size bs) where
  Free-passed :
      (r : AllocationRange) (a : ℕ)
      → (pool r).start ≤ a
      → Free a (size_of r.prefix_length)
        ↔ IsFree a (size_of r.prefix_length) (drop_passed (pool r).start bs)
  Free-passed r a le =
      let c = covers a (size_of r.prefix_length) (size_pos r.prefix_length) in
      let d = drop_passed-IsFree (pool r).start a (size_of r.prefix_length) bs le in
      (λ h. d.0 (c.0 h), λ h. c.1 (d.1 h))

  stops-Best :
      (r : AllocationRange)
      → IsFit r
      → stops r bs + size_of r.prefix_length ≤ (pool r).stop
      → Best Free r (record { addr = stops r bs; bits = r.prefix_length })
  stops-Best r fit le =
      let w = stops-Least r bs fit asc in
      (
        refl,
        (w.aligned, w.from, le),
        (Free-passed r (stops r bs) w.from).1 (w.free le),
        λ a c fr. w.first a c.0 c.1 c.2 ((Free-passed r a c.1).0 fr),
      )

  allocate_range-Best :
      (r : AllocationRange) (p : Prefix4) → IsFit r → allocate_range r bs ≡ some p → Best Free r p
  unfolding allocate_range
  allocate_range-Best r p fit e =
      elim (Bool-cases (leb (stops r bs + size_of r.prefix_length) (pool r).stop)) [
        | inl g ↦
            let same : some (record { addr = stops r bs; bits = r.prefix_length }) ≡ some p =
              rw g at e in
            let ep : record { addr = stops r bs; bits = r.prefix_length } ≡ p = cc in
            subst (Best Free r) ep (stops-Best r fit (leb→le _ _ g))
        | inr g ↦ let no : none ≡ some p = rw g at e in absurd cc
      ]

  allocate_range-NoneFree :
      (r : AllocationRange) → IsFit r → allocate_range r bs ≡ none → NoneFree Free r
  unfolding allocate_range
  allocate_range-NoneFree r fit e a c fr =
      let w = stops-Least r bs fit asc in
      let fr' = (Free-passed r a c.1).0 fr in
      elim (Bool-cases (leb (stops r bs + size_of r.prefix_length) (pool r).stop)) [
        | inl g ↦
            let no : some (record { addr = stops r bs; bits = r.prefix_length }) ≡ none =
              rw g at e in
            absurd cc
        | inr g ↦ let low = w.first a c.0 c.1 c.2 fr' in ground arith
      ]

  pub allocate_ranges-First :
      (rs : List AllocationRange) (p : Prefix4)
      → All IsFit rs
      → allocate_ranges rs bs ≡ ok p
      → First Free rs p
  unfolding allocate_ranges
  allocate_ranges-First [] p fits e = absurd cc
  allocate_ranges-First (r ∷ rs) p fits e = elim (Option-cases (allocate_range r bs)) [
    | inl n ↦
        later r rs p (allocate_range-NoneFree r fits.0 n)
          (allocate_ranges-First rs p fits.1 (rw (n, allocate_ranges) at e))
    | inr (q, n) ↦
        let same : ok q ≡ ok p = rw (n, allocate_ranges) at e in
        here r rs p (allocate_range-Best r p fits.0 cc)
  ]

  pub allocate_ranges-NoneFree :
      (rs : List AllocationRange) (x : Err)
      → All IsFit rs
      → allocate_ranges rs bs ≡ err x
      → All (NoneFree Free) rs
  unfolding allocate_ranges
  allocate_ranges-NoneFree [] x fits e = tt
  allocate_ranges-NoneFree (r ∷ rs) x fits e = elim (Option-cases (allocate_range r bs)) [
    | inl n ↦ (
      allocate_range-NoneFree r fits.0 n,
      allocate_ranges-NoneFree rs x fits.1 (rw (n, allocate_ranges) at e),
    )
    | inr (q, n) ↦ let no : ok q ≡ err x = rw (n, allocate_ranges) at e in absurd cc
  ]
