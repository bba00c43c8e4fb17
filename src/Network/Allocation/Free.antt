-- ===== src/Network/Allocation/Free.antt =====
-- Sorting and merging the occupied intervals changes neither which subnets are free nor, of the
-- merged list, that its starts ascend.
use virmill.Prelude.{
  ℕ, ◌+◌, ◌≤◌, ◌<◌, true, false, List, [], ◌∷◌, ◌⊎◌, inl, inr, ◌≡◌, ◌↔◌, arith, leb, All,
  Bool-cases, leb→le,
}
use virmill.Network.Prefix.{Interval}
use virmill.Network.Allocation.{before, place, sort_spans, merge_from, merge_spans, widen}

-- The addresses `a` to `a + size` meet no interval of the list.
abbrev pub Apart : ℕ → ℕ → Interval → Type 0
Apart a size b = (b.stop ≤ a) ⊎ (a + size ≤ b.start)

abbrev pub IsFree : ℕ → ℕ → List Interval → Type 0
IsFree a size = All (Apart a size)

abbrev pub Ascending : ℕ → List Interval → Type 0
Ascending lo [] = Unit
Ascending lo (b ∷ bs) = (lo ≤ b.start) × Ascending b.start bs

pub Ascending-mono : (lo hi : ℕ) (bs : List Interval) → lo ≤ hi → Ascending hi bs → Ascending lo bs
Ascending-mono lo hi [] le h = tt
Ascending-mono lo hi (b ∷ bs) le h = (omega (arith, h.0), h.1)

module _ (a size : ℕ) where
  place-IsFree :
      (s : Interval) (ts : List Interval) → IsFree a size (s ∷ ts) → IsFree a size (place s ts)
  unfolding place
  place-IsFree s [] h = h
  place-IsFree s (t ∷ ts) h = elim (Bool-cases (before t s)) [
    | inl e ↦ rw e (h.1.0, place-IsFree s ts (h.0, h.1.1))
    | inr e ↦ rw e h
  ]

  IsFree-of_place :
      (s : Interval) (ts : List Interval) → IsFree a size (place s ts) → IsFree a size (s ∷ ts)
  unfolding place
  IsFree-of_place s [] h = h
  IsFree-of_place s (t ∷ ts) h = elim (Bool-cases (before t s)) [
    | inl e ↦
        let (q, r) : IsFree a size (t ∷ place s ts) = rw e at h in
        let w = IsFree-of_place s ts r in (w.0, (q, w.1))
    | inr e ↦ rw e at h
  ]

  pub sort_spans-IsFree : (ss : List Interval) → IsFree a size ss ↔ IsFree a size (sort_spans ss)
  unfolding sort_spans
  sort_spans-IsFree [] = (λ h. h, λ h. h)
  sort_spans-IsFree (s ∷ ss) =
      let ih = sort_spans-IsFree ss in
      (
        λ h. place-IsFree s (sort_spans ss) (h.0, ih.0 h.1),
        λ h. let w = IsFree-of_place s (sort_spans ss) h in (w.0, ih.1 w.1),
      )

before_start : (t s : Interval) → before t s ≡ true → t.start ≤ s.start
unfolding before
before_start t s h = ground arith

not_before_start : (t s : Interval) → before t s ≡ false → s.start ≤ t.start
unfolding before
not_before_start t s h = ground arith

place-Ascending :
    (lo : ℕ) (s : Interval) (ts : List Interval)
    → lo ≤ s.start
    → Ascending lo ts
    → Ascending lo (place s ts)
unfolding place
place-Ascending lo s [] le h = (le, tt)
place-Ascending lo s (t ∷ ts) le h = elim (Bool-cases (before t s)) [
  | inl e ↦ rw e (h.0, place-Ascending t.start s ts (before_start t s e) h.1)
  | inr e ↦ rw e (le, (not_before_start t s e, h.1))
]

pub sort_spans-Ascending : (ss : List Interval) → Ascending 0 (sort_spans ss)
unfolding sort_spans
sort_spans-Ascending [] = tt
sort_spans-Ascending (s ∷ ss) =
    place-Ascending 0 s (sort_spans ss) (omega arith) (sort_spans-Ascending ss)

merge_from-Ascending :
    (lo : ℕ) (cur : Interval) (ss : List Interval)
    → lo ≤ cur.start
    → Ascending cur.start ss
    → Ascending lo (merge_from cur ss)
unfolding merge_from
merge_from-Ascending lo cur [] le h = (le, tt)
merge_from-Ascending lo cur (s ∷ ss) le h = elim (Bool-cases (leb s.start cur.stop)) [
  | inl e ↦ rw e (
      merge_from-Ascending lo (widen cur s.stop) ss le
        (Ascending-mono cur.start s.start ss h.0 h.1))
  | inr e ↦ rw e (le, merge_from-Ascending cur.start s ss h.0 h.1)
]

pub merge_spans-Ascending : (ss : List Interval) → Ascending 0 ss → Ascending 0 (merge_spans ss)
unfolding merge_spans
merge_spans-Ascending [] h = tt
merge_spans-Ascending (s ∷ ss) h = merge_from-Ascending 0 s ss h.0 h.1

module _ (a size : ℕ) (some_address : 0 < size) where
  widen-Apart :
      (cur s : Interval)
      → cur.start ≤ s.start
      → s.start ≤ cur.stop
      → Apart a size (widen cur s.stop) ↔ (Apart a size cur × Apart a size s)
  widen-Apart cur s lo touch = (λ h. (ground arith, ground arith), λ h. ground arith)

  merge_from-IsFree :
      (cur : Interval) (ss : List Interval)
      → Ascending cur.start ss
      → IsFree a size (cur ∷ ss) ↔ IsFree a size (merge_from cur ss)
  unfolding merge_from
  merge_from-IsFree cur [] asc = (λ h. h, λ h. h)
  merge_from-IsFree cur (s ∷ ss) asc = elim (Bool-cases (leb s.start cur.stop)) [
    | inl e ↦
        let ih =
          merge_from-IsFree (widen cur s.stop) ss
            (Ascending-mono cur.start s.start ss asc.0 asc.1) in
        let w = widen-Apart cur s asc.0 (leb→le _ _ e) in
        rw e (
          λ h. ih.0 (w.1 (h.0, h.1.0), h.1.1),
          λ h. let q = ih.1 h in let (c, d) = w.0 q.0 in (c, (d, q.1)),
        )
    | inr e ↦
        let ih = merge_from-IsFree s ss asc.1 in rw e (λ h. (h.0, ih.0 h.1), λ h. (h.0, ih.1 h.1))
  ]

  -- A subnet is free of the merged intervals exactly if it is free of the occupied ones.
  pub merge_spans-IsFree :
      (ss : List Interval) → Ascending 0 ss → IsFree a size ss ↔ IsFree a size (merge_spans ss)
  unfolding merge_spans
  merge_spans-IsFree [] asc = (λ h. h, λ h. h)
  merge_spans-IsFree (s ∷ ss) asc = merge_from-IsFree s ss asc.1
