-- ===== src/Protection/Cron.antt =====
-- `parsePolicyField` and `dayMatches` of internal/app/protection/policy.go. The bits of a field's
-- mask are listed; an error is `none`, since only its text differs. The text is ASCII, which
-- `parsePolicyCron` checks before.
pub mod Field
pub mod Selection
use virmill.Prelude.{
  ℕ, zero, suc, ◌+◌, ◌-◌, ◌*◌, ◌^◌, ◌≤◌, ◌<◌, Bool, true, false, not, ◌&&◌, ◌||◌, Option, none,
  some, List, [], ◌∷◌, ◌++◌, ltb, leb, ◌==◌, length, every, if◌then◌else◌,
}

pub record PolicyField : Type 0 where
  pub bits : List ℕ
  pub star : Bool

abbrev pub has : ℕ → List ℕ → Bool
has v [] = false
has v (w ∷ ws) = w == v || has v ws

-- `contains`
unfoldable pub is_set : PolicyField → ℕ → Bool
is_set f value = has value f.bits

-- `strings.Split` at one character
unfoldable pub split : ℕ → List ℕ → List (List ℕ)
split sep [] = [] ∷ []
split sep (c ∷ cs) = elim (split sep cs) [
  | [] ↦ (c ∷ []) ∷ []
  | t ∷ ts ↦ if c == sep then [] ∷ t ∷ ts else (c ∷ t) ∷ ts
]

abbrev is_digit : ℕ → Bool
is_digit c = leb b'0' c && leb c b'9'

-- The value of digits, behind the number so far
value_of : ℕ → List ℕ → ℕ
value_of n [] = n
value_of n (c ∷ cs) = value_of (n * 10 + (c - b'0')) cs

-- `strconv.Atoi` of a text of digits, which may be out of its range
digits : List ℕ → Option ℕ
unfolding value_of
digits [] = none
digits (c ∷ cs) =
    let n = value_of 0 (c ∷ cs) in
    if every is_digit (c ∷ cs) && ltb n (2 ^ 63) then some n else none

abbrev upper : ℕ → ℕ
upper c = if leb b'a' c && leb c b'z' then c - 32 else c

-- `strings.EqualFold`, on ASCII
equal_fold : List ℕ → List ℕ → Bool
equal_fold [] [] = true
equal_fold (a ∷ s) (b ∷ t) = upper a == upper b && equal_fold s t
equal_fold _ _ = false

-- The number that a name stands for, from `n` on
named : List (List ℕ) → ℕ → List ℕ → Option ℕ
unfolding equal_fold
named [] n value = none
named (name ∷ names) n value =
    let rest = named names (n + 1) value in if equal_fold value name then some n else rest

-- The bounds and the names of a field
pub record Bounds : Type 0 where
  pub low : ℕ
  pub high : ℕ
  pub names : List (List ℕ)

unfoldable pub in_bounds : Bounds → ℕ → Option ℕ
in_bounds b n = if leb b.low n && leb n b.high then some n else none

-- `parseNumber`
unfoldable pub parse_number : Bounds → List ℕ → Option ℕ
unfolding named digits in_bounds
parse_number b value = elim (named b.names b.low value) [
  | some n ↦ some n
  | none ↦ elim (digits value) [ none ↦ none | some n ↦ in_bounds b n ]
]

-- A term: from `low` to `high` in steps, and whether it is a star
pub record Term : Type 0 where
  pub low : ℕ
  pub high : ℕ
  pub step : ℕ
  pub star : Bool

unfoldable pub parse_step : List (List ℕ) → Option ℕ
unfolding digits
parse_step [] = some 1
parse_step (text ∷ []) = elim (digits text) [
  | none ↦ none
  | some n ↦ if ltb n 1 then none else some n
]
parse_step (_ ∷ _ ∷ _) = none

-- A range, or a number alone, which runs to the upper bound if there is a step
unfoldable pub parse_range : Bounds → Bool → List (List ℕ) → Option (ℕ × ℕ)
unfolding parse_number
parse_range b stepped (lo ∷ []) = elim (parse_number b lo) [
  | none ↦ none
  | some n ↦ some (n, if stepped then b.high else n)
]
parse_range b stepped (lo ∷ hi ∷ []) = elim (parse_number b lo) [
  | none ↦ none
  | some n ↦ elim (parse_number b hi) [
    | none ↦ none
    | some m ↦ if ltb m n then none else some (n, m)
  ]
]
parse_range b stepped _ = none

abbrev has_step : List (List ℕ) → Bool
has_step [] = false
has_step (_ ∷ _) = true

abbrev is_star : List ℕ → Bool
is_star (c ∷ []) = c == b'*'
is_star _ = false

-- The part before the step
unfoldable pub parse_body : Bounds → List ℕ → ℕ → Bool → Option Term
unfolding split parse_range
parse_body b body step stepped =
    let whole : Option Term =
      some (record { low = b.low; high = b.high; step = step; star = true }) in
    let part : Option Term = elim (parse_range b stepped (split b'-' body)) [
      | none ↦ none
      | some (lo, hi) ↦ some (record { low = lo; high = hi; step = step; star = false })
    ] in
    if is_star body then whole else part

unfoldable pub parse_pieces : Bounds → List (List ℕ) → Option Term
unfolding parse_step parse_body
parse_pieces b [] = none
parse_pieces b ([] ∷ steps) = none
parse_pieces b ((c ∷ cs) ∷ steps) = elim (parse_step steps) [
  | none ↦ none
  | some step ↦ parse_body b (c ∷ cs) step (has_step steps)
]

-- The loop over a term's values; `fuel` is the number of values that are left at most.
unfoldable pub marks : ℕ → ℕ → ℕ → ℕ → List ℕ
marks zero value high step = []
marks (suc fuel) value high step =
    let rest = marks fuel (value + step) high step in
    value ∷ (if ltb (high - value) step then [] else rest)

unfoldable pub term_bits : Term → List ℕ
unfolding marks
term_bits t = marks (suc (t.high - t.low)) t.low t.high t.step

-- The loop over the terms
unfoldable pub parse_terms : Bounds → List (List ℕ) → Option PolicyField
unfolding parse_pieces term_bits split
parse_terms b [] = some (record { bits = []; star = false })
parse_terms b (t ∷ ts) =
    let rest = parse_terms b ts in
    elim (parse_pieces b (split b'/' t)) [
      | none ↦ none
      | some term ↦ elim rest [
        | none ↦ none
        | some f ↦ some (record { bits = term_bits term ++ f.bits; star = term.star || f.star })
      ]
    ]

-- `parsePolicyField`
unfoldable pub parse_field : List ℕ → Bounds → Option PolicyField
unfolding split parse_terms
parse_field text b =
    if ltb 64 (length (split b',' text)) then none else parse_terms b (split b',' text)

-- `dayMatches`
unfoldable pub day_matches : PolicyField → PolicyField → ℕ → ℕ → Bool
unfolding is_set
day_matches day weekday d w =
    if day.star || weekday.star
    then is_set day d && is_set weekday w
    else is_set day d || is_set weekday w
