-- ===== src/Update/Version.antt =====
-- Versions of internal/update/version.go
pub mod Order
pub mod Printed
use virmill.Prelude.Digits.{codes, decimal, print_decimal}
use virmill.Prelude.{
  ℕ, zero, suc, ◌-◌, ◌^◌, String, Bool, true, false, not, Option, none, some, List, [], ◌∷◌, ◌++◌,
  ltb, ◌==◌, if◌then◌else◌,
}

pub record Version : Type 0 where
  pub major : ℕ
  pub minor : ℕ
  pub patch : ℕ
  pub beta : ℕ

-- A number of nine digits at most, then the rest of the pattern
number {ℓ} : {A : Type ℓ} → List ℕ → (ℕ → List ℕ → Option A) → Option A
number cs next = elim (decimal 999_999_999 cs) [ none ↦ none | some (n, rest) ↦ next n rest ]

dot {ℓ} : {A : Type ℓ} → List ℕ → (List ℕ → Option A) → Option A
dot [] next = none
dot (c ∷ cs) next = if c == b'.' then next cs else none

-- What follows a text at the front
after_text : List ℕ → List ℕ → Option (List ℕ)
after_text [] cs = some cs
after_text (t ∷ ts) [] = none
after_text (t ∷ ts) (c ∷ cs) = let rest = after_text ts cs in if t == c then rest else none

-- The end of the text behind a number that is not zero
positive_end : ℕ → List ℕ → Option ℕ
positive_end zero rest = none
positive_end (suc n) [] = some (suc n)
positive_end (suc n) (_ ∷ _) = none

-- The optional `-beta.N` at the end
beta_suffix : List ℕ → Option ℕ
unfolding number after_text positive_end
beta_suffix [] = some 0
beta_suffix (c ∷ cs) = elim (after_text (codes "-beta.") (c ∷ cs)) [
  | none ↦ none
  | some rest ↦ number rest positive_end
]

-- The pattern behind the optional `v`
from_number : List ℕ → Option Version
unfolding number dot beta_suffix
from_number cs = number cs λ major r1. dot r1 λ r2. number r2 λ minor r3. dot r3 λ r4.
    number r4 λ patch r5. elim (beta_suffix r5) [
      | none ↦ none
      | some beta ↦ some (record { major = major; minor = minor; patch = patch; beta = beta })
    ]

parse_text : List ℕ → Option Version
unfolding from_number
parse_text [] = none
parse_text (c ∷ cs) = if c == b'v' then from_number cs else from_number (c ∷ cs)

-- `ParseVersion`
unfoldable pub parse_version : String → Option Version
unfolding parse_text
parse_version s = parse_text (codes s)

-- `Prerelease`
unfoldable pub prerelease : Version → Bool
prerelease v = ltb 0 v.beta

-- A release sorts after its betas.
unfoldable pub rank : Version → ℕ
rank v = if v.beta == 0 then 2 ^ 63 - 1 else v.beta

-- `Less`
unfoldable pub less : Version → Version → Bool
unfolding rank
less v o =
    if v.major == o.major
    then if v.minor == o.minor
      then if v.patch == o.patch then ltb (rank v) (rank o) else ltb v.patch o.patch
      else ltb v.minor o.minor
    else ltb v.major o.major

-- `base`, in front of a text; the components are below 10 ^ 20.
release_text : Version → List ℕ → List ℕ
release_text v rest =
    print_decimal 20 v.major
      (b'.' ∷ print_decimal 20 v.minor (b'.' ∷ print_decimal 20 v.patch rest))

beta_text : String → Version → List ℕ
beta_text mark v = codes mark ++ print_decimal 20 v.beta []

-- `String`
unfoldable pub show_version : Version → List ℕ
unfolding release_text beta_text prerelease
show_version v = if prerelease v then release_text v (beta_text "-beta." v) else release_text v []

-- `rpmVersion`: the version and the release
unfoldable pub rpm_version : Version → Option (List ℕ × List ℕ)
unfolding release_text beta_text prerelease
rpm_version v = if prerelease v then some (release_text v [], beta_text "0.beta." v) else none

-- `debVersion`
unfoldable pub deb_version : Version → Option (List ℕ)
unfolding release_text beta_text prerelease
deb_version v = if prerelease v then some (release_text v (beta_text "~beta." v)) else none
