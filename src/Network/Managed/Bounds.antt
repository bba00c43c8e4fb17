-- ===== src/Network/Managed/Bounds.antt =====
-- The addresses of a managed network, of internal/backend/networkxml/network.go, lie in its subnet.
use virmill.Prelude.{
  ℕ, String, ◌+◌, ◌-◌, ◌*◌, ◌/◌, ◌^◌, ◌≤◌, ◌<◌, Bool, true, false, not, ◌&&◌, ◌||◌, ◌≡◌, ◌⊎◌, refl,
  some, none, leb, ◌==◌, str_eq, arith, inl, inr, sym, ◌∙◌, subst, eq_iff, Bool-cases, both, leb→le,
  ==_iff,
}
use virmill.Prelude.Finite.{all_below, all_below-at}
use virmill.Prelude.Digits.{codes}
use virmill.Domain.Error.{ok, guard_ok}
use virmill.Network.Prefix.{
  Prefix4, size_of, mask_to, masked, parse_prefix, show_prefix, same_codes,
}
use virmill.Network.Managed.{
  NetworkDefinition, validate_definition, canonical_uuid, names_fit, subnet_fits, in_scopes, scopes,
  addresses,
}

-- The subnets of /8 to /30 have between 4 and 2 ^ 24 addresses.
abbrev sized : ℕ → Bool
sized bits =
    not (leb 8 bits && leb bits 30) || (leb 4 (size_of bits) && leb (size_of bits) 16_777_216)

sized_table : all_below 31 sized ≡ true
unfolding all_below
sized_table = refl

size_of_bounds :
    (bits : ℕ) → 8 ≤ bits → bits ≤ 30 → (4 ≤ size_of bits) × (size_of bits ≤ 16_777_216)
size_of_bounds bits lo hi =
    let h = all_below-at 31 sized bits sized_table (omega arith) in (ground arith, ground arith)

-- An aligned block that starts below a multiple of its size ends at or below it.
block_end : (k s n e : ℕ) → e ≡ n * s → k * s < e → k * s + s ≤ e
block_end k s n e h lt = let below : k < n = grind arith in grind arith

-- Between two numbers
abbrev pub Within : ℕ → ℕ → ℕ → Type 0
Within lo hi a = (lo ≤ a) × (a < hi)

-- 10.0.0.0/8, 172.16.0.0/12 and 192.168.0.0/16
abbrev pub Private : ℕ → Type 0
Private a =
    Within (10 * 16_777_216) (11 * 16_777_216) a
    ⊎ Within (2753 * 1_048_576) (2754 * 1_048_576) a
    ⊎ Within (49_320 * 65_536) (49_321 * 65_536) a

in_scopes_lem :
    (p : Prefix4)
    → in_scopes p scopes ≡ true
    → ((8 ≤ p.bits) × Within (10 * 16_777_216) (11 * 16_777_216) p.addr)
      ⊎ ((12 ≤ p.bits) × Within (2753 * 1_048_576) (2754 * 1_048_576) p.addr)
      ⊎ ((16 ≤ p.bits) × Within (49_320 * 65_536) (49_321 * 65_536) p.addr)
unfolding in_scopes
in_scopes_lem p h = ground arith

-- A shorter prefix has a multiple of the addresses of a longer one.
abbrev divides : ℕ → ℕ → Bool
divides r bits = not (leb r bits) || size_of bits * 2 ^ (bits - r) == size_of r

divides_table : all_below 31 (λ b. divides 8 b && divides 12 b && divides 16 b) ≡ true
unfolding all_below
divides_table = refl

multiple :
    (bits c : ℕ)
    → bits ≤ 30
    → (8 ≤ bits → c * 16_777_216 ≡ c * 2 ^ (bits - 8) * size_of bits)
      × (12 ≤ bits → c * 1_048_576 ≡ c * 2 ^ (bits - 12) * size_of bits)
      × (16 ≤ bits → c * 65_536 ≡ c * 2 ^ (bits - 16) * size_of bits)
multiple bits c hi =
    let h =
      all_below-at 31 (λ b. divides 8 b && divides 12 b && divides 16 b) bits divides_table
        (omega arith) in
    (
      λ le. let e : size_of bits * 2 ^ (bits - 8) ≡ 16_777_216 = ground arith in grind arith,
      λ le. let e : size_of bits * 2 ^ (bits - 12) ≡ 1_048_576 = ground arith in grind arith,
      λ le. let e : size_of bits * 2 ^ (bits - 16) ≡ 65_536 = ground arith in grind arith,
    )

-- A block whose start lies between the two ends where one may lie within them
block_fits :
    (k s n lo e addr a : ℕ)
    → e ≡ n * s
    → k * s ≡ addr
    → Within lo e addr
    → addr ≤ a
    → a < addr + s
    → Within lo e a
block_fits k s n lo e addr a h m w ge lt =
    let start : k * s < e = rw m w.1 in
    let end = block_end k s n e h start in
    let stop : addr + s ≤ e = rw m at end in (omega arith, omega arith)

subnet-Private :
    (p : Prefix4) (a : ℕ)
    → p.bits ≤ 30
    → mask_to p.addr p.bits ≡ p.addr
    → in_scopes p scopes ≡ true
    → p.addr ≤ a
    → a < p.addr + size_of p.bits
    → Private a
subnet-Private p a hi m h ge lt =
    let k = p.addr / size_of p.bits in
    let s = size_of p.bits in
    elim (in_scopes_lem p h) [
      | inl (b, w) ↦
          inl
            (block_fits k s _ _ (11 * 16_777_216) p.addr a ((multiple p.bits 11 hi).0 b) m w ge lt)
      | inr (inl (b, w)) ↦ inr (
          inl (
            block_fits k s _ _ (2754 * 1_048_576) p.addr a ((multiple p.bits 2754 hi).1 b) m w ge
              lt))
      | inr (inr (b, w)) ↦ inr (
          inr (
            block_fits k s _ _ (49_321 * 65_536) p.addr a ((multiple p.bits 49_321 hi).2 b) m w ge
              lt))
    ]

empty_prefix : parse_prefix "" ≡ none
unfolding parse_prefix
empty_prefix = refl

refuse : (a b c : Bool) → a ≡ false → ((not a || b) && not c) ≡ false → c ≡ true
refuse a b c h k = ground arith

-- What a subnet that fits has
record Fit (p : Prefix4) : Type 0 where
  pub low : 8 ≤ p.bits
  pub high : p.bits ≤ 30
  pub aligned : mask_to p.addr p.bits ≡ p.addr
  pub scoped : in_scopes p scopes ≡ true

subnet_fits-Fit : (cidr : String) (p : Prefix4) → subnet_fits cidr (some p) ≡ true → Fit p
unfolding subnet_fits masked
subnet_fits-Fit cidr p h =
    let d = both _ (in_scopes p scopes) h in
    let c = both _ (same_codes (show_prefix p) (codes cidr)) d.0 in
    let b = both _ (mask_to p.addr p.bits == p.addr) c.0 in
    let a = both (leb 8 p.bits) (leb p.bits 30) b.0 in
    record {
      low = leb→le 8 p.bits a.0;
      high = leb→le p.bits 30 a.1;
      aligned = (==_iff _ _).0 b.1;
      scoped = d.1;
    }

parsed-named : (cidr : String) (p : Prefix4) → parse_prefix cidr ≡ some p → str_eq cidr "" ≡ false
parsed-named cidr p e = elim (Bool-cases (str_eq cidr "")) [
  | inl t ↦
      let same : cidr ≡ "" = (eq_iff cidr "").0 t in
      let n : none ≡ some p = sym empty_prefix ∙ subst (λ c. parse_prefix c ≡ some p) same e in
      absurd cc
  | inr f ↦ f
]

-- What a valid definition has for its subnet
valid-Fit :
    (d : NetworkDefinition) (p : Prefix4)
    → validate_definition d ≡ ok tt
    → parse_prefix d.ipv4_cidr ≡ some p
    → Fit p
unfolding validate_definition
valid-Fit d p h e =
    let first = guard_ok (not (canonical_uuid d.uuid)) _ _ tt h in
    let second = guard_ok (not (names_fit d)) _ _ tt first.1 in
    let third =
      guard_ok
        ((not (str_eq d.ipv4_cidr "") || not (str_eq d.type "guest-only"))
          && not (subnet_fits d.ipv4_cidr (parse_prefix d.ipv4_cidr)))
        _ _ tt second.1 in
    subnet_fits-Fit d.ipv4_cidr p (refuse _ _ _ (parsed-named d.ipv4_cidr p e) (rw e at third.0))

-- The subnet of a valid definition lies in a private range.
pub valid-Private :
    (d : NetworkDefinition) (p : Prefix4) (a : ℕ)
    → validate_definition d ≡ ok tt
    → parse_prefix d.ipv4_cidr ≡ some p
    → p.addr ≤ a
    → a < p.addr + size_of p.bits
    → Private a
valid-Private d p a h e ge lt =
    let f = valid-Fit d p h e in subnet-Private p a f.high f.aligned f.scoped ge lt

-- The addresses that a valid definition gives: the bridge's, and behind it those to lease, all
-- within the subnet, none of them its first or its last.
pub addresses-bounds :
    (d : NetworkDefinition) (p : Prefix4)
    → validate_definition d ≡ ok tt
    → parse_prefix d.ipv4_cidr ≡ some p
    → (p.addr < (addresses p).bridge)
      × ((addresses p).bridge < (addresses p).first)
      × ((addresses p).first ≤ (addresses p).last)
      × ((addresses p).last + 1 < p.addr + size_of p.bits)
unfolding addresses
addresses-bounds d p h e =
    let f = valid-Fit d p h e in
    let b = size_of_bounds p.bits f.low f.high in
    let low : p.addr < 49_321 * 65_536 = elim (in_scopes_lem p f.scoped) [
      | inl (x, w) ↦ omega arith
      | inr (inl (x, w)) ↦ omega arith
      | inr (inr (x, w)) ↦ omega arith
    ] in
    (omega arith, omega arith, omega arith, omega arith)
