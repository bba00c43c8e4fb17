-- ===== src/Network/Prefix.antt =====
-- What internal/app/network uses of the standard library's netip.Prefix, with
-- `allocationPrivatePrefix` and `allocationSpan` of allocation.go. An IPv4 address is its number.
use Prim.Native.String.{String}
use virmill.Prelude.Digits.{codes, decimal}
use virmill.Prelude.{
  ℕ, ◌+◌, ◌-◌, ◌*◌, ◌/◌, ◌%◌, ◌^◌, Bool, true, false, ◌&&◌, ◌||◌, Option, none, some, List, [], ◌∷◌,
  ◌++◌, ltb, leb, ◌==◌, length, if◌then◌else◌,
}

pub record Prefix4 : Type 0 where
  pub addr : ℕ
  pub bits : ℕ

-- Any prefix that is observed. Of an IPv6 prefix only its kind matters.
pub data Prefix : Type 0 where
  v4 : Prefix4 → Prefix
  v6 mapped invalid : Prefix

-- The octet, and the separator behind it
octet : ℕ → List ℕ → Option (ℕ × List ℕ)
octet separator cs = elim (decimal 255 cs) [
  | none ↦ none
  | some (n, []) ↦ none
  | some (n, d ∷ rest) ↦ if d == separator then some (n, rest) else none
]

after {ℓ} : {A : Type ℓ} → Option (ℕ × List ℕ) → (ℕ → List ℕ → Option A) → Option A
after none f = none
after (some (n, rest)) f = f n rest

whole_number : ℕ → List ℕ → Option Prefix4
whole_number addr cs = elim (decimal 32 cs) [
  | none ↦ none
  | some (n, []) ↦ some (record { addr = addr; bits = n })
  | some (n, _ ∷ _) ↦ none
]

-- `netip.ParsePrefix`, where it yields an IPv4 prefix
unfoldable pub parse_prefix : String → Option Prefix4
unfolding decimal octet after whole_number
parse_prefix raw = after (octet b'.' (codes raw)) λ a r1. after (octet b'.' r1) λ b r2.
    after (octet b'.' r2)
      λ c r3. after (octet b'/' r3) λ d r4. whole_number (((a * 256 + b) * 256 + c) * 256 + d) r4

-- The number of addresses, and the prefix without its host bits
abbrev pub size_of : ℕ → ℕ
size_of bits = 2 ^ (32 - bits)

abbrev pub mask_to : ℕ → ℕ → ℕ
mask_to addr bits = addr / size_of bits * size_of bits

unfoldable pub masked : Prefix4 → Prefix4
masked p = record p { addr = mask_to p.addr p.bits }

digit : ℕ → ℕ
digit n = b'0' + n % 10

-- An octet in decimal
show_octet : ℕ → List ℕ
unfolding digit
show_octet n =
    (if leb 100 n then digit (n / 100) ∷ [] else [])
    ++ (if leb 10 n then digit (n / 10) ∷ [] else [])
    ++ digit n ∷ []

-- `Prefix.String`
unfoldable pub show_prefix : Prefix4 → List ℕ
unfolding show_octet
show_prefix p =
    show_octet (p.addr / 16777216)
    ++ b'.'
      ∷ (show_octet (p.addr / 65536 % 256)
          ++ b'.'
            ∷ (show_octet (p.addr / 256 % 256)
                ++ b'.' ∷ (show_octet (p.addr % 256) ++ b'/' ∷ show_octet p.bits)))

unfoldable pub same_codes : List ℕ → List ℕ → Bool
same_codes [] [] = true
same_codes (a ∷ as') (b ∷ bs) = a == b && same_codes as' bs
same_codes _ _ = false

-- The three private ranges of RFC 1918
unfoldable pub is_private : Prefix4 → Bool
is_private p =
    let a0 = p.addr / 16777216 in
    let a1 = p.addr / 65536 % 256 in
    (a0 == 10 && leb 8 p.bits)
    || (a0 == 172 && leb 16 a1 && leb a1 31 && leb 12 p.bits)
    || (a0 == 192 && a1 == 168 && leb 16 p.bits)

-- The checks on the parsed prefix
unfoldable pub canonical : String → Option Prefix4 → Option Prefix4
unfolding masked show_prefix is_private same_codes
canonical raw none = none
canonical raw (some p) =
    if (masked p).addr == p.addr && same_codes (show_prefix p) (codes raw) && is_private p
    then some p
    else none

-- `allocationPrivatePrefix`: a canonical private prefix
unfoldable pub private_prefix : String → Option Prefix4
unfolding parse_prefix canonical
private_prefix raw = if ltb 18 (length (codes raw)) then none else canonical raw (parse_prefix raw)

-- Half open: `end` is the first address behind it.
pub record Interval : Type 0 where
  pub start : ℕ
  pub stop : ℕ

-- `allocationSpan`
unfoldable pub span : Prefix4 → Interval
span p = record { start = mask_to p.addr p.bits; stop = mask_to p.addr p.bits + size_of p.bits }
