-- ===== src/Protection/Cron/Selection.antt =====
-- A parsed field of a schedule selects the values of its terms and no other.
use virmill.Prelude.{
  ℕ, zero, suc, ◌+◌, ◌*◌, ◌≤◌, true, false, ◌||◌, none, some, List, [], ◌∷◌, ◌++◌, ◌≡◌, ◌↔◌, ap,
  inl, inr, refl, ◌∙◌, sym, subst, get_elem?, arith, ltb, length, Option-cases, Bool-cases,
}
use virmill.Protection.Cron.{
  PolicyField, has, is_set, split, Bounds, Term, parse_pieces, term_bits, parse_terms, parse_field,
}
use virmill.Protection.Cron.Field.{
  IsNamed, IsWithin, parse_pieces-IsWithin, term_bits-has, has-term_bits,
}

has-append : (w : ℕ) (xs ys : List ℕ) → has w (xs ++ ys) ≡ (has w xs || has w ys)
has-append w [] ys = refl
has-append w (x ∷ xs) ys = ground (arith, has-append w xs ys)

-- A value that a parsed list of terms selects stands in one of its terms.
pub record Selected (b : Bounds) (terms : List (List ℕ)) (w : ℕ) : Type 0 where
  pub index : ℕ
  pub text : List ℕ
  pub term : Term
  pub steps : ℕ
  pub at : get_elem? terms index ≡ some text
  pub parsed : parse_pieces b (split b'/' text) ≡ some term
  pub within : IsWithin b term
  pub value : w ≡ term.low + steps * term.step
  pub below : w ≤ term.high

joined : Term → PolicyField → PolicyField
joined t f = record { bits = term_bits t ++ f.bits; star = t.star || f.star }

parse_terms_inv :
    (b : Bounds) (t : List ℕ) (ts : List (List ℕ)) (f : PolicyField)
    → parse_terms b (t ∷ ts) ≡ some f
    → (first : Term) × (g : PolicyField) × (parse_pieces b (split b'/' t) ≡ some first)
      × (parse_terms b ts ≡ some g)
      × (f.bits ≡ term_bits first ++ g.bits)
unfolding parse_terms joined
parse_terms_inv b t ts f e = elim (Option-cases (parse_pieces b (split b'/' t))) [
  | inl p ↦ let nothing : none ≡ some f = rw (parse_terms, p) at e in absurd cc
  | inr (first, p) ↦ elim (Option-cases (parse_terms b ts)) [
    | inl r ↦ let nothing : none ≡ some f = rw (parse_terms, p, r) at e in absurd cc
    | inr (g, r) ↦
        let same : some (joined first g) ≡ some f = rw (parse_terms, p, r) at e in
        let eq : f ≡ joined first g = cc in
        let bits : PolicyField → List ℕ = λ k. k.bits in (first, g, p, r, ap bits eq)
  ]
]

parse_terms-Selected :
    (b : Bounds) (ts : List (List ℕ)) (f : PolicyField) (w : ℕ)
    → IsNamed b
    → parse_terms b ts ≡ some f
    → has w f.bits ≡ true
    → Selected b ts w
unfolding parse_terms
parse_terms-Selected b [] f w fits e h =
    let eq : record { bits = []; star = false } ≡ f = cc in
    let none_set : has w [] ≡ true = subst (λ g. has w g.bits ≡ true) (sym eq) h in absurd cc
parse_terms-Selected b (t ∷ ts) f w fits e h =
    let (term, g, p, r, bits) = parse_terms_inv b t ts f e in
    let either : has w (term_bits term ++ g.bits) ≡ true = subst (λ l. has w l ≡ true) bits h in
    elim (Bool-cases (has w (term_bits term))) [
      | inl here ↦
          let within = parse_pieces-IsWithin b (split b'/' t) term fits p in
          let (k, value, below) = has-term_bits term w within.moves within.order here in
          record {
            index = 0;
            text = t;
            term = term;
            steps = k;
            at = refl;
            parsed = p;
            within = within;
            value = value;
            below = below;
          }
      | inr later ↦
          let o =
            parse_terms-Selected b ts g w fits r
              (ground (arith, has-append w (term_bits term) g.bits)) in
          record {
            index = suc o.index;
            text = o.text;
            term = o.term;
            steps = o.steps;
            at = o.at;
            parsed = o.parsed;
            within = o.within;
            value = o.value;
            below = o.below;
          }
    ]

terms-selects :
    (b : Bounds) (ts : List (List ℕ)) (f : PolicyField) (w i : ℕ) (x : List ℕ) (term : Term)
    → parse_terms b ts ≡ some f
    → get_elem? ts i ≡ some x
    → parse_pieces b (split b'/' x) ≡ some term
    → has w (term_bits term) ≡ true
    → has w f.bits ≡ true
terms-selects b [] f w i x term e at p h = absurd cc
terms-selects b (t ∷ ts) f w zero x term e at p h =
    let (first, g, q, r, bits) = parse_terms_inv b t ts f e in
    let same : t ≡ x = cc in
    let pick : some first ≡ some term = sym q ∙ ap (λ y. parse_pieces b (split b'/' y)) same ∙ p in
    let eq : first ≡ term = cc in
    ground (arith, has-append w (term_bits first) g.bits, ap term_bits eq, h, bits)
terms-selects b (t ∷ ts) f w (suc i) x term e at p h =
    let (first, g, q, r, bits) = parse_terms_inv b t ts f e in
    let rest = terms-selects b ts g w i x term r at p h in
    ground (arith, has-append w (term_bits first) g.bits, rest, bits)

-- The values that the mask of a parsed field selects are those of its terms, each within the bounds
-- of the field: from the low bound of a term in its steps, up to its high bound. The names of the
-- field stand for its first values.
pub parse_field-is_set :
    (text : List ℕ) (b : Bounds) (f : PolicyField) (w : ℕ)
    → IsNamed b
    → parse_field text b ≡ some f
    → (is_set f w ≡ true) ↔ Selected b (split b',' text) w
unfolding parse_field is_set
parse_field-is_set text b f w fits e = elim (Bool-cases (ltb 64 (length (split b',' text)))) [
  | inl l ↦ let nothing : none ≡ some f = rw (parse_field, l) at e in absurd cc
  | inr l ↦
      let parsed : parse_terms b (split b',' text) ≡ some f = rw (parse_field, l) at e in
      (
        λ h. parse_terms-Selected b (split b',' text) f w fits parsed h,
        λ s. terms-selects b (split b',' text) f w s.index s.text s.term parsed s.at s.parsed (
            subst (λ v. has v (term_bits s.term) ≡ true) (sym s.value)
              (term_bits-has s.term s.steps s.within.moves
                (subst (λ v. v ≤ s.term.high) s.value s.below))),
      )
]
