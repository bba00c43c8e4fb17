-- ===== src/Update/Version/Printed.antt =====
-- A version that internal/update/version.go prints is one that it parses.
use virmill.Prelude.{
  ℕ, zero, suc, ◌+◌, ◌/◌, ◌%◌, ◌≤◌, ◌<◌, String, false, ◌≡◌, refl, ◌∙◌, ap, Option, some, List, [],
  ◌∷◌, ◌==◌, ltb, arith, Bool-cases, inl, inr,
}
use virmill.Prelude.Digits.{codes, print_decimal}
use virmill.Prelude.Digits.Reread.{Stops, decimal-print_decimal}
use virmill.Update.Version.{
  Version, number, dot, positive_end, beta_suffix, from_number, parse_text, parse_version,
  prerelease, release_text, beta_text, show_version,
}

-- The numbers of a version have nine digits at most.
pub record IsShort (v : Version) : Type 0 where
  pub major : v.major ≤ 999999999
  pub minor : v.minor ≤ 999999999
  pub patch : v.patch ≤ 999999999
  pub beta : v.beta ≤ 999999999

number-print {ℓ} :
    {A : Type ℓ} (n : ℕ) (rest : List ℕ) (next : ℕ → List ℕ → Option A)
    → n ≤ 999999999
    → Stops rest
    → number (print_decimal 20 n rest) next ≡ next n rest
unfolding number
number-print n rest next m h =
    rw (decimal-print_decimal 19 999999999 n rest (omega arith) m h, number) refl

positive : (n : ℕ) → 0 < n → positive_end n [] ≡ some n
unfolding positive_end
positive zero h = absurd (omega arith)
positive (suc n) h = refl

beta_suffix-text :
    (v : Version)
    → 0 < v.beta
    → v.beta ≤ 999999999
    → beta_suffix (beta_text "-beta." v) ≡ some v.beta
unfolding beta_suffix beta_text
beta_suffix-text v p m = number-print v.beta [] positive_end m tt ∙ positive v.beta p

-- Behind the optional `v`
from_number-text :
    (v : Version) (rest : List ℕ) (beta : ℕ)
    → IsShort v
    → Stops rest
    → beta_suffix rest ≡ some beta
    → from_number (release_text v rest) ≡ some (record v { beta = beta })
unfolding from_number release_text dot
from_number-text v rest beta h stops e =
    number-print v.major _ _ h.major refl
    ∙ number-print v.minor _ _ h.minor refl
    ∙ number-print v.patch rest _ h.patch stops
    ∙ rw e refl

-- A text that starts with another character than `v`
abbrev Plain : List ℕ → Type 0
Plain [] = ⊥
Plain (c ∷ cs) = (c == b'v') ≡ false

print_more-Plain :
    (fuel n c : ℕ) (cs : List ℕ) → (c == b'v') ≡ false → Plain (print_decimal fuel n (c ∷ cs))
unfolding print_decimal
print_more-Plain zero n c cs h = h
print_more-Plain (suc fuel) n c cs h = elim (Bool-cases (ltb n 10)) [
  | inl small ↦ rw small (ground (arith, small))
  | inr big ↦ rw big (print_more-Plain fuel (n / 10) (b'0' + n % 10) (c ∷ cs) (ground arith))
]

print-Plain : (fuel n : ℕ) (cs : List ℕ) → Plain (print_decimal (suc fuel) n cs)
unfolding print_decimal
print-Plain fuel n cs = elim (Bool-cases (ltb n 10)) [
  | inl small ↦ rw small (ground (arith, small))
  | inr big ↦ rw big (print_more-Plain fuel (n / 10) (b'0' + n % 10) cs (ground arith))
]

parse_text-from_number : (cs : List ℕ) → Plain cs → parse_text cs ≡ from_number cs
unfolding parse_text
parse_text-from_number [] h = absurd h
parse_text-from_number (c ∷ cs) h = rw h refl

parse_release :
    (v : Version) (rest : List ℕ) (beta : ℕ)
    → IsShort v
    → Stops rest
    → beta_suffix rest ≡ some beta
    → parse_text (release_text v rest) ≡ some (record v { beta = beta })
unfolding release_text
parse_release v rest beta h stops e =
    parse_text-from_number (release_text v rest) (print-Plain 19 v.major _)
    ∙ from_number-text v rest beta h stops e

-- A version that is printed, with numbers of nine digits at most, is parsed as it was.
pub parse_version-show_version :
    (v : Version) (s : String) → IsShort v → codes s ≡ show_version v → parse_version s ≡ some v
unfolding parse_version show_version prerelease beta_text beta_suffix
parse_version-show_version v s h e = elim (Bool-cases (ltb 0 v.beta)) [
  | inl t ↦
      let text : codes s ≡ release_text v (beta_text "-beta." v) = rw t at e in
      ap parse_text text
      ∙ parse_release v (beta_text "-beta." v) v.beta h refl
          (beta_suffix-text v (ground arith) h.beta)
  | inr f ↦
      let text : codes s ≡ release_text v [] = rw f at e in
      let released : 0 ≡ v.beta = ground arith in
      ap parse_text text
      ∙ parse_release v [] 0 h tt refl
      ∙ ap (λ n. some (record v { beta = n })) released
]
