-- ===== src/Network/Allocation.antt =====
-- `AllocateConfigured` of internal/app/network/allocation.go. Its checks for a canceled context,
-- which end it with the context's error, are left out.
pub mod Scan
pub mod Free
pub mod FirstFit
pub mod Search
pub mod Pools
use virmill.Prelude.{
  ℕ, ◌+◌, ◌-◌, ◌*◌, ◌/◌, Bool, true, false, ◌&&◌, ◌||◌, Option, none, some, List, [], ◌∷◌, ◌++◌,
  ltb, leb, ◌==◌, length, if◌then◌else◌,
}
use virmill.Domain.Error.{Err, Result, ok, err, fail, Code, ◌>>=◌, ◌>>◌}
use virmill.Network.Prefix.{
  Prefix4, Prefix, v4, v6, mapped, invalid, Interval, parse_prefix, span, size_of,
}
use virmill.Network.Config.{AllocationConfig, AllocationRange, PlannedAllocation, validate_config}

-- The occupied intervals; an invalid or IPv4-mapped prefix is refused, and IPv6 is passed over.
unfoldable pub occupied_spans : List Prefix → Result (List Interval)
occupied_spans [] = ok []
occupied_spans (v4 p ∷ ps) = do rest ← occupied_spans ps; ok (span p ∷ rest)
occupied_spans (v6 ∷ ps) = occupied_spans ps
occupied_spans (mapped ∷ ps) = err (fail Code.invalid_input)
occupied_spans (invalid ∷ ps) = err (fail Code.invalid_input)

-- The prefix of a text that was validated
abbrev pub zero_prefix : Prefix4
zero_prefix = record { addr = 0; bits = 0 }

abbrev pub parsed : Option Prefix4 → Prefix4
parsed none = zero_prefix
parsed (some p) = p

unfoldable pub planned_spans : List PlannedAllocation → List Interval
planned_spans [] = []
planned_spans (p ∷ ps) = span (parsed (parse_prefix p.cidr)) ∷ planned_spans ps

-- The order of `sort.Slice`
unfoldable pub before : Interval → Interval → Bool
before a b = if a.start == b.start then ltb a.stop b.stop else ltb a.start b.start

place : Interval → List Interval → List Interval
place s [] = s ∷ []
place s (t ∷ ts) = let rest = place s ts in if before t s then t ∷ rest else s ∷ t ∷ ts

unfoldable pub sort_spans : List Interval → List Interval
unfolding before place
sort_spans [] = []
sort_spans (s ∷ ss) = place s (sort_spans ss)

abbrev widen : Interval → ℕ → Interval
widen a stop = record a { stop = if ltb a.stop stop then stop else a.stop }

-- The merging loop, with the last interval so far
merge_from : Interval → List Interval → List Interval
merge_from cur [] = cur ∷ []
merge_from cur (s ∷ ss) =
    let joined = merge_from (widen cur s.stop) ss in
    let apart = cur ∷ merge_from s ss in if leb s.start cur.stop then joined else apart

unfoldable pub merge_spans : List Interval → List Interval
unfolding merge_from
merge_spans [] = []
merge_spans (s ∷ ss) = merge_from s ss

-- `sort.Search` finds the first interval that ends behind the cursor.
pub drop_passed : ℕ → List Interval → List Interval
drop_passed cursor [] = []
drop_passed cursor (b ∷ bs) =
    let rest = drop_passed cursor bs in if ltb cursor b.stop then b ∷ bs else rest

-- The least multiple of `size`, a power of two, that is not below `n`: `(n+size-1) & ^(size-1)`
unfoldable pub align_up : ℕ → ℕ → ℕ
align_up n size = (n + size - 1) / size * size

-- The loop over the occupied intervals
unfoldable pub scan : ℕ → ℕ → ℕ → List Interval → ℕ
scan pool_stop size cursor [] = cursor
scan pool_stop size cursor (busy ∷ rest) =
    let skipped = scan pool_stop size cursor rest in
    let next = align_up busy.stop size in
    let jumped = scan pool_stop size next rest in
    if leb busy.stop cursor
    then skipped
    else if leb pool_stop busy.start || leb (cursor + size) busy.start
    then cursor
    else if ltb pool_stop (next + size)
    then next
    else jumped

-- The first free subnet of a range
unfoldable pub allocate_range : AllocationRange → List Interval → Option Prefix4
unfolding drop_passed scan
allocate_range r merged =
    let pool = span (parsed (parse_prefix r.cidr)) in
    let size = size_of r.prefix_length in
    let cursor = scan pool.stop size pool.start (drop_passed pool.start merged) in
    if leb (cursor + size) pool.stop
    then some (record { addr = cursor; bits = r.prefix_length })
    else none

unfoldable pub allocate_ranges : List AllocationRange → List Interval → Result Prefix4
unfolding allocate_range
allocate_ranges [] merged = err (fail Code.cidr_conflict)
allocate_ranges (r ∷ rs) merged =
    let rest = allocate_ranges rs merged in
    elim (allocate_range r merged) [ none ↦ rest | some p ↦ ok p ]

-- `AllocateConfigured`
unfoldable pub allocate : AllocationConfig → List Prefix → Result Prefix4
unfolding occupied_spans planned_spans sort_spans merge_spans allocate_ranges
allocate c occupied = do
  validate_config c
  (if ltb 65536 (length occupied) then err (fail Code.invalid_input) else ok tt)
  spans ← occupied_spans occupied
  allocate_ranges c.ranges (merge_spans (sort_spans (spans ++ planned_spans c.planned)))
