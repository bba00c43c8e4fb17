-- ===== src/FileAccess/Acl/Bits.antt =====
-- The three permission bits that internal/backend/fileaccess/acl_linux.go combines, by tables
use virmill.Prelude.{
  ℕ, ◌≤◌, Bool, true, false, ◌&&◌, ◌≡◌, refl, leb, ◌==◌, if◌then◌else◌, arith, ==_iff, leb→le,
}
use Prim.Native.Nat.{bit_and, bit_or}
use virmill.Prelude.Finite.{all_below, all_below-at}
use virmill.FileAccess.Acl.{grants}

all_triples : (ℕ → ℕ → ℕ → Bool) → Bool
unfolding all_below
all_triples p = all_below 8 (λ x. all_below 8 (λ y. all_below 8 (λ z. p x y z)))

all_triples-at :
    (p : ℕ → ℕ → ℕ → Bool) (x y z : ℕ)
    → all_triples p ≡ true
    → x ≤ 7
    → y ≤ 7
    → z ≤ 7
    → p x y z ≡ true
unfolding all_triples
all_triples-at p x y z h a b c =
    let hx =
      all_below-at 8 (λ u. all_below 8 (λ v. all_below 8 (λ w. p u v w))) x h (omega arith) in
    let hy = all_below-at 8 (λ v. all_below 8 (λ w. p x v w)) y hx (omega arith) in
    all_below-at 8 (λ w. p x y w) z hy (omega arith)

abbrev small_and : ℕ → ℕ → ℕ → Bool
small_and x y z = leb (bit_and x y) 7

abbrev small_or : ℕ → ℕ → ℕ → Bool
small_or x y z = leb (bit_or x y) 7

abbrev kept_by_mask : ℕ → ℕ → ℕ → Bool
kept_by_mask x y z = bit_and (bit_and x y) (bit_or y z) == bit_and x y

abbrev in_new_mask : ℕ → ℕ → ℕ → Bool
in_new_mask x y z = bit_and x (bit_or y x) == x

abbrev full_mask : ℕ → ℕ → ℕ → Bool
full_mask x y z = bit_and x 7 == x && bit_and x x == x

small_and_table : all_triples small_and ≡ true
unfolding all_triples
small_and_table = refl

small_or_table : all_triples small_or ≡ true
unfolding all_triples
small_or_table = refl

kept_by_mask_table : all_triples kept_by_mask ≡ true
unfolding all_triples
kept_by_mask_table = refl

in_new_mask_table : all_triples in_new_mask ≡ true
unfolding all_triples
in_new_mask_table = refl

full_mask_table : all_triples full_mask ≡ true
unfolding all_triples
full_mask_table = refl

pub bit_and_le : (x y : ℕ) → x ≤ 7 → y ≤ 7 → bit_and x y ≤ 7
bit_and_le x y a b = leb→le _ 7 (all_triples-at small_and x y 0 small_and_table a b (omega arith))

pub bit_or_le : (x y : ℕ) → x ≤ 7 → y ≤ 7 → bit_or x y ≤ 7
bit_or_le x y a b = leb→le _ 7 (all_triples-at small_or x y 0 small_or_table a b (omega arith))

-- Bits under the old mask are under the new one, which adds to it.
pub bit_and-bit_or :
    (x y z : ℕ) → x ≤ 7 → y ≤ 7 → z ≤ 7 → bit_and (bit_and x y) (bit_or y z) ≡ bit_and x y
bit_and-bit_or x y z a b c =
    (==_iff _ _).0 (all_triples-at kept_by_mask x y z kept_by_mask_table a b c)

pub bit_and-new_mask : (x y : ℕ) → x ≤ 7 → y ≤ 7 → bit_and x (bit_or y x) ≡ x
bit_and-new_mask x y a b =
    (==_iff _ _).0 (all_triples-at in_new_mask x y 0 in_new_mask_table a b (omega arith))

pub bit_and_seven : (x : ℕ) → x ≤ 7 → bit_and x 7 ≡ x
bit_and_seven x a =
    let h = all_triples-at full_mask x 0 0 full_mask_table a (omega arith) (omega arith) in
    ground arith

pub bit_and_self : (x : ℕ) → x ≤ 7 → bit_and x x ≡ x
bit_and_self x a =
    let h = all_triples-at full_mask x 0 0 full_mask_table a (omega arith) (omega arith) in
    ground arith

-- The right `r` where it is given
abbrev pub right : Bool → ℕ → ℕ
right b r = if b then r else 0

abbrev pub rights_of : Bool → Bool → Bool → ℕ
rights_of a b c = bit_or (bit_or (right a 1) (right b 2)) (right c 4)

pub rights_of_le : (a b c : Bool) → rights_of a b c ≤ 7
rights_of_le true true true = omega arith
rights_of_le true true false = omega arith
rights_of_le true false true = omega arith
rights_of_le true false false = omega arith
rights_of_le false true true = omega arith
rights_of_le false true false = omega arith
rights_of_le false false true = omega arith
rights_of_le false false false = omega arith

-- Read access is added to the rights,
pub grants_read : (a b c : Bool) → grants (bit_or (rights_of a b c) 4) 4 ≡ true
grants_read true true true = refl
grants_read true true false = refl
grants_read true false true = refl
grants_read true false false = refl
grants_read false true true = refl
grants_read false true false = refl
grants_read false false true = refl
grants_read false false false = refl

-- and the others stay.
pub grants_kept :
    (a b c : Bool)
    → (grants (bit_or (rights_of a b c) 4) 1 ≡ a)
      × (grants (bit_or (rights_of a b c) 4) 2 ≡ b)
      × (grants (bit_or (rights_of a b c) 4) 3 ≡ (bit_and (rights_of a b c) 3 == 3))
grants_kept true true true = (refl, refl, refl)
grants_kept true true false = (refl, refl, refl)
grants_kept true false true = (refl, refl, refl)
grants_kept true false false = (refl, refl, refl)
grants_kept false true true = (refl, refl, refl)
grants_kept false true false = (refl, refl, refl)
grants_kept false false true = (refl, refl, refl)
grants_kept false false false = (refl, refl, refl)
