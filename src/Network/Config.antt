-- ===== src/Network/Config.antt =====
-- The declaration of internal/app/network/allocation.go and its validation.
use Prim.Native.String.{String, len}
use virmill.Prelude.{
  ℕ, Bool, true, false, not, ◌&&◌, ◌||◌, none, some, List, [], ◌∷◌, ltb, leb, ◌==◌, length,
  contains, if◌then◌else◌,
}
use virmill.Domain.Error.{Err, Result, ok, err, fail, Code, ◌>>◌}
use virmill.Network.Prefix.{Prefix4, private_prefix, span}
use virmill.Prelude.Digits.{codes}

pub record AllocationRange : Type 0 where
  pub cidr : String
  pub prefix_length : ℕ

pub record PlannedAllocation : Type 0 where
  pub id : String
  pub cidr : String

pub record AllocationConfig : Type 0 where
  pub version : ℕ
  pub ranges : List AllocationRange
  pub planned : List PlannedAllocation

-- `DefaultAllocationConfig`
unfoldable pub default_config : AllocationConfig
default_config = record {
  version = 1;
  ranges =
      record { cidr = "10.0.0.0/8"; prefix_length = 24 }
      ∷ record { cidr = "172.16.0.0/12"; prefix_length = 24 }
      ∷ record { cidr = "192.168.0.0/16"; prefix_length = 24 }
      ∷ [];
  planned = [];
}

abbrev is_alnum : ℕ → Bool
is_alnum c = (leb b'A' c && leb c b'Z') || (leb b'a' c && leb c b'z') || (leb b'0' c && leb c b'9')

abbrev is_mark : ℕ → Bool
is_mark c = c == b'_' || c == b'.' || c == b':' || c == b'-'

rest_fits : List ℕ → Bool
rest_fits [] = true
rest_fits (c ∷ cs) = (is_alnum c || is_mark c) && rest_fits cs

id_fits : List ℕ → Bool
id_fits [] = false
id_fits (c ∷ cs) = is_alnum c && rest_fits cs

-- `allocationID`
unfoldable pub allocation_id : String → Bool
unfolding rest_fits id_fits
allocation_id id = not (ltb 128 (len id)) && id_fits (codes id)

-- `Prefix.Overlaps` of two prefixes
unfoldable pub overlaps : Prefix4 → Prefix4 → Bool
unfolding span
overlaps p q = ltb (span p).start (span q).stop && ltb (span q).start (span p).stop

unfoldable pub overlaps_any : Prefix4 → List Prefix4 → Bool
overlaps_any p [] = false
overlaps_any p (q ∷ qs) = overlaps p q || overlaps_any p qs

abbrev pub invalid : Err
invalid = fail Code.invalid_input

-- The bounds on the subnets of a pool
unfoldable pub length_fits : AllocationRange → Prefix4 → Bool
length_fits r p =
    not (ltb r.prefix_length 8) && not (ltb r.prefix_length p.bits) && not (ltb 30 r.prefix_length)

-- The loop over the ranges, with the pools so far
unfoldable pub check_ranges : List AllocationRange → List Prefix4 → Result (Unit {0})
unfolding overlaps overlaps_any length_fits
check_ranges [] prior = ok tt
check_ranges (r ∷ rs) prior = elim (private_prefix r.cidr) [
  | none ↦ err invalid
  | some p ↦
      let rest = check_ranges rs (p ∷ prior) in
      if length_fits r p then (if overlaps_any p prior then err invalid else rest) else err invalid
]

-- The loop over the reservations, with the identifiers so far
unfoldable pub check_planned : List PlannedAllocation → List String → Result (Unit {0})
unfolding allocation_id
check_planned [] ids = ok tt
check_planned (p ∷ ps) ids =
    let rest = check_planned ps (p.id ∷ ids) in
    if not (allocation_id p.id) || contains ids p.id
    then err invalid
    else elim (private_prefix p.cidr) [ none ↦ err invalid | some _ ↦ rest ]

-- The version and the numbers of ranges and reservations
unfoldable pub bad_shape : AllocationConfig → Bool
bad_shape c =
    not (c.version == 1)
    || ltb (length c.ranges) 1
    || ltb 16 (length c.ranges)
    || ltb 256 (length c.planned)

-- `ValidateAllocationConfig`
unfoldable pub validate_config : AllocationConfig → Result (Unit {0})
unfolding bad_shape check_ranges check_planned
validate_config c =
    if bad_shape c then err invalid else do check_ranges c.ranges []; check_planned c.planned []
