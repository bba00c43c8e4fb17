-- ===== src/Protection/Cron/Field.antt =====
-- What a parsed field of a schedule selects
use virmill.Prelude.{
  ℕ, zero, suc, ◌+◌, ◌-◌, ◌*◌, ◌≤◌, ◌<◌, Bool, true, false, none, some, List, [], ◌∷◌, ◌≡◌, inl,
  inr, ◌∙◌, subst, arith, ltb, ◌==◌, length, Option-cases, Bool-cases,
}
use virmill.Protection.Cron.{
  has, split, Bounds, Term, named, parse_number, parse_step, parse_range, parse_body, parse_pieces,
  marks, term_bits, is_star, has_step,
}

module _ (high step : ℕ) (moves : 0 < step) where
  -- A value is marked if it is some number of steps behind the first and not above `high`.
  marks-has :
      (fuel value k : ℕ)
      → high < value + fuel
      → value + k * step ≤ high
      → has (value + k * step) (marks fuel value high step) ≡ true
  unfolding marks
  marks-has zero value k f h = absurd (omega (arith, f, h))
  marks-has (suc fuel) value zero f h = ground arith
  marks-has (suc fuel) value (suc k) f h =
      let e : value + suc k * step ≡ value + step + k * step = grind arith in
      let ih = marks-has fuel (value + step) k (omega (arith, f, moves)) (omega (arith, e, h)) in
      ground (arith, ih, e)

  -- What is marked is some number of steps behind the first, and not above `high`.
  has-marks :
      (fuel value w : ℕ)
      → value ≤ high
      → has w (marks fuel value high step) ≡ true
      → (k : ℕ) × (w ≡ value + k * step) × (w ≤ high)
  unfolding marks
  has-marks zero value w le h = absurd cc
  has-marks (suc fuel) value w le h = elim (Bool-cases (value == w)) [
    | inl e ↦ (0, ground arith, ground arith)
    | inr e ↦ elim (Bool-cases (ltb (high - value) step)) [
      | inl l ↦ ground arith
      | inr l ↦
          let (k, same, below) = has-marks fuel (value + step) w (ground arith) (ground arith) in
          let at : value + step + k * step ≡ value + suc k * step = grind arith in
          (suc k, same ∙ at, below)
    ]
  ]

-- The values of a term: from its low bound in its steps, up to its high bound
pub term_bits-has :
    (t : Term) (k : ℕ)
    → 0 < t.step
    → t.low + k * t.step ≤ t.high
    → has (t.low + k * t.step) (term_bits t) ≡ true
unfolding term_bits
term_bits-has t k moves h =
    marks-has t.high t.step moves (suc (t.high - t.low)) t.low k (omega arith) h

pub has-term_bits :
    (t : Term) (w : ℕ)
    → 0 < t.step
    → t.low ≤ t.high
    → has w (term_bits t) ≡ true
    → (k : ℕ) × (w ≡ t.low + k * t.step) × (w ≤ t.high)
unfolding term_bits
has-term_bits t w moves le h = has-marks t.high t.step moves (suc (t.high - t.low)) t.low w le h

-- A term within its field
pub record IsWithin (b : Bounds) (t : Term) : Type 0 where
  pub above : b.low ≤ t.low
  pub order : t.low ≤ t.high
  pub below : t.high ≤ b.high
  pub moves : 0 < t.step

-- The names of a field stand for its values from the first on.
abbrev pub IsNamed : Bounds → Type 0
IsNamed b = (b.low + length b.names ≤ b.high + 1) × (b.low ≤ b.high)

named-bounds :
    (names : List (List ℕ)) (n m : ℕ) (value : List ℕ)
    → named names n value ≡ some m
    → (n ≤ m) × (m < n + length names)
unfolding named
named-bounds [] n m value e = absurd cc
named-bounds (x ∷ xs) n m value e = let ih = named-bounds xs (n + 1) m value in ground (arith, ih)

parse_number-bounds :
    (b : Bounds) (value : List ℕ) (n : ℕ)
    → IsNamed b
    → parse_number b value ≡ some n
    → (b.low ≤ n) × (n ≤ b.high)
unfolding parse_number
parse_number-bounds b value n fits e = elim (Option-cases (named b.names b.low value)) [
  | inr (m, h) ↦ let r = named-bounds b.names b.low m value h in ground (arith, r, fits)
  | inl h ↦ ground arith
]

parse_range-bounds :
    (b : Bounds) (stepped : Bool) (parts : List (List ℕ)) (lo hi : ℕ)
    → IsNamed b
    → parse_range b stepped parts ≡ some (lo, hi)
    → (b.low ≤ lo) × (lo ≤ hi) × (hi ≤ b.high)
unfolding parse_range
parse_range-bounds b stepped [] lo hi fits e = absurd cc
parse_range-bounds b stepped (x ∷ []) lo hi fits e = elim (Option-cases (parse_number b x)) [
  | inl h ↦ ground arith
  | inr (n, h) ↦ let r = parse_number-bounds b x n fits h in ground (arith, r)
]
parse_range-bounds b stepped (x ∷ y ∷ []) lo hi fits e = elim (Option-cases (parse_number b x)) [
  | inl h ↦ ground arith
  | inr (n, h) ↦ elim (Option-cases (parse_number b y)) [
    | inl g ↦ ground arith
    | inr (m, g) ↦
        let r = parse_number-bounds b x n fits h in
        let q = parse_number-bounds b y m fits g in ground (arith, r, q)
  ]
]
parse_range-bounds b stepped (x ∷ y ∷ z ∷ zs) lo hi fits e = absurd cc

parse_step-moves : (ts : List (List ℕ)) (n : ℕ) → parse_step ts ≡ some n → 0 < n
unfolding parse_step
parse_step-moves [] n e = ground arith
parse_step-moves (t ∷ []) n e = ground arith
parse_step-moves (t ∷ u ∷ ts) n e = absurd cc

parse_body-IsWithin :
    (b : Bounds) (body : List ℕ) (step : ℕ) (stepped : Bool) (t : Term)
    → IsNamed b
    → 0 < step
    → parse_body b body step stepped ≡ some t
    → IsWithin b t
unfolding parse_body
parse_body-IsWithin b body step stepped t fits moves e = elim (Bool-cases (is_star body)) [
  | inl s ↦
      let same : some (record { low = b.low; high = b.high; step = step; star = true }) ≡ some t =
        rw (s, parse_body) at e in
      let eq : record { low = b.low; high = b.high; step = step; star = true } ≡ t = cc in
      subst (IsWithin b) eq
        (record { above = omega arith; order = fits.1; below = omega arith; moves = moves })
  | inr s ↦ elim (Option-cases (parse_range b stepped (split b'-' body))) [
    | inl r ↦ let nothing : none ≡ some t = rw (s, parse_body, r) at e in absurd cc
    | inr ((lo, hi), r) ↦
        let same : some (record { low = lo; high = hi; step = step; star = false }) ≡ some t =
          rw (s, parse_body, r) at e in
        let eq : record { low = lo; high = hi; step = step; star = false } ≡ t = cc in
        let (above, order, below) = parse_range-bounds b stepped (split b'-' body) lo hi fits r in
        subst (IsWithin b) eq
          (record { above = above; order = order; below = below; moves = moves })
  ]
]

pub parse_pieces-IsWithin :
    (b : Bounds) (ps : List (List ℕ)) (t : Term)
    → IsNamed b
    → parse_pieces b ps ≡ some t
    → IsWithin b t
unfolding parse_pieces
parse_pieces-IsWithin b [] t fits e = absurd cc
parse_pieces-IsWithin b ([] ∷ ss) t fits e = absurd cc
parse_pieces-IsWithin b ((c ∷ cs) ∷ ss) t fits e = elim (Option-cases (parse_step ss)) [
  | inl s ↦ let nothing : none ≡ some t = rw (parse_pieces, s) at e in absurd cc
  | inr (step, s) ↦
      parse_body-IsWithin b (c ∷ cs) step (has_step ss) t fits (parse_step-moves ss step s)
        (rw (parse_pieces, s) at e)
]
