-- ===== src/Network/Allocation/Scan.antt =====
-- The search in one pool finds the first aligned subnet that is free, if there is one.
use native.Mathlib.Nat.{div-add-mod', mod-lt, div-lt_iff_lt-mul, mul-le-mul_right, suc-mul}
use virmill.Prelude.{
  ℕ, suc, ◌+◌, ◌-◌, ◌*◌, ◌/◌, ◌≤◌, ◌<◌, ◌||◌, List, [], ◌∷◌, inl, inr, ◌≡◌, ◌↔◌, refl, arith, ltb,
  leb, Bool-cases, leb→le,
}
use virmill.Network.Prefix.{Interval}
use virmill.Network.Allocation.{align_up, scan, drop_passed}
use virmill.Network.Allocation.Free.{IsFree, Ascending, Ascending-mono}

-- A multiple of the size
abbrev pub IsAligned : ℕ → ℕ → Type 0
IsAligned size a = (m : ℕ) × (a ≡ m * size)

align_up-IsAligned : (n size : ℕ) → IsAligned size (align_up n size)
unfolding align_up
align_up-IsAligned n size = ((n + size - 1) / size, refl)

le-align_up : (n size : ℕ) → 0 < size → n ≤ align_up n size
unfolding align_up
le-align_up n size h =
    let e = div-add-mod' (n + size - 1) size in
    let l = mod-lt (n + size - 1) h in omega (arith, e, l, h)

align_up_least : (n size a : ℕ) → IsAligned size a → 0 < size → n ≤ a → align_up n size ≤ a
unfolding align_up
align_up_least n size a (m, e) h le =
    let below : suc m * size ≡ m * size + size = suc-mul m size in
    let q : (n + size - 1) / size < suc m =
      (div-lt_iff_lt-mul h).1 (omega (arith, below, e, h, le)) in
    let r : (n + size - 1) / size * size ≤ m * size = mul-le-mul_right size (omega (arith, q)) in
    rw e r

-- What starts behind a subnet leaves it free.
Ascending-IsFree :
    (a size lo : ℕ) (bs : List Interval) → a + size ≤ lo → Ascending lo bs → IsFree a size bs
Ascending-IsFree a size lo [] le h = tt
Ascending-IsFree a size lo (b ∷ bs) le h =
    (inr (omega (arith, le, h.0)), Ascending-IsFree a size b.start bs (omega (arith, le, h.0)) h.1)

-- `k` is the least aligned address from `cursor` on where a subnet ends before `pool_stop` and is
-- free; there is none if the subnet at `k` ends later.
pub record Least (pool_stop size cursor : ℕ) (bs : List Interval) (k : ℕ) : Type 0 where
  pub from : cursor ≤ k
  pub aligned : IsAligned size k
  pub free : k + size ≤ pool_stop → IsFree k size bs
  pub first :
      (a : ℕ) → IsAligned size a → cursor ≤ a → a + size ≤ pool_stop → IsFree a size bs → k ≤ a

module _ (pool_stop size : ℕ) (some_address : 0 < size) where
  pub scan-Least :
      (cursor lo : ℕ) (bs : List Interval)
      → IsAligned size cursor
      → Ascending lo bs
      → Least pool_stop size cursor bs (scan pool_stop size cursor bs)
  unfolding scan
  scan-Least cursor lo [] al asc = record {
    from = omega arith;
    aligned = al;
    free = λ h. tt;
    first = λ a m le fits fr. le;
  }
  scan-Least cursor lo (b ∷ bs) al asc =
      let next = align_up b.stop size in
      let beyond : b.stop ≤ next = le-align_up b.stop size some_address in
      let rest = scan-Least cursor b.start bs al asc.1 in
      let later = scan-Least next b.start bs (align_up-IsAligned b.stop size) asc.1 in
      let jump : (a : ℕ) → IsAligned size a → b.stop ≤ a → next ≤ a =
        λ a m. align_up_least b.stop size a m some_address in
      elim (Bool-cases (leb b.stop cursor)) [
        | inl e ↦ rw e (record {
          from = rest.from;
          aligned = rest.aligned;
          free = λ h. (inl (omega (arith, leb→le _ _ e, rest.from)), rest.free h);
          first = λ a m le fits fr. rest.first a m le fits fr.1;
        })
        | inr e ↦ rw e (elim (Bool-cases (leb pool_stop b.start || leb (cursor + size) b.start)) [
          | inl f ↦ rw f (record {
            from = omega arith;
            aligned = al;
            free = λ h.
                let away : cursor + size ≤ b.start = ground arith in
                (inr away, Ascending-IsFree cursor size b.start bs away asc.1);
            first = λ a m le fits fr. le;
          })
          | inr f ↦ rw f (elim (Bool-cases (ltb pool_stop (next + size))) [
            | inl g ↦ rw g (record {
              from = ground arith;
              aligned = align_up-IsAligned b.stop size;
              free = λ h. absurd (ground (arith, h, g));
              first = λ a m le fits fr. jump a m (ground (arith, fr.0, e, f, le));
            })
            | inr g ↦ rw g (record {
              from = let l = later.from in ground arith;
              aligned = later.aligned;
              free = λ h. let l = later.from in (inl (omega (arith, l, beyond)), later.free h);
              first = λ a m le fits fr.
                  later.first a m (jump a m (ground (arith, fr.0, e, f, le))) fits fr.1;
            })
          ])
        ])
      ]

-- The intervals that `sort.Search` passes over
pub drop_passed-Ascending :
    (cursor lo : ℕ) (bs : List Interval) → Ascending lo bs → Ascending lo (drop_passed cursor bs)
unfolding drop_passed
drop_passed-Ascending cursor lo [] asc = tt
drop_passed-Ascending cursor lo (b ∷ bs) asc = elim (Bool-cases (ltb cursor b.stop)) [
  | inl e ↦ rw e asc
  | inr e ↦ rw e (Ascending-mono lo b.start _ asc.0 (drop_passed-Ascending cursor b.start bs asc.1))
]

pub drop_passed-IsFree :
    (cursor a size : ℕ) (bs : List Interval)
    → cursor ≤ a
    → IsFree a size bs ↔ IsFree a size (drop_passed cursor bs)
unfolding drop_passed
drop_passed-IsFree cursor a size [] le = (λ h. h, λ h. h)
drop_passed-IsFree cursor a size (b ∷ bs) le = elim (Bool-cases (ltb cursor b.stop)) [
  | inl e ↦ rw e (λ h. h, λ h. h)
  | inr e ↦
      let ih = drop_passed-IsFree cursor a size bs le in
      rw e (λ h. ih.0 h.1, λ h. (inl (ground arith), ih.1 h))
]
