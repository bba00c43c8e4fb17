-- ===== src/FileAccess/Acl.antt =====
-- internal/backend/fileaccess/acl_linux.go: the binary form of a POSIX access list, the access
-- check, and the grant of read access. Every error is plain, since only its text differs. A byte
-- slice is a list of numbers below 256.
pub mod Canonical
pub mod Coding
pub mod Decoding
pub mod Lookup
pub mod Rights
pub mod Bits
pub mod Reread
pub mod Grant
pub mod Entries
pub mod Changed
pub mod Kept
pub mod Access
use virmill.Prelude.{
  ℕ, ◌+◌, ◌-◌, ◌*◌, ◌/◌, ◌%◌, Bool, true, false, not, ◌&&◌, ◌||◌, Option, none, some, List, [], ◌∷◌,
  ◌++◌, map, ltb, leb, ◌==◌, if◌then◌else◌, length, drop, every,
}
use Prim.Native.Nat.{bit_and, bit_or}
use virmill.Domain.Error.{Result, err, ok, plain, ◌>>=◌}

abbrev pub acl_version : ℕ
acl_version = 2

abbrev pub user_object : ℕ
user_object = 0x01

abbrev pub named_user : ℕ
named_user = 0x02

abbrev pub group_object : ℕ
group_object = 0x04

abbrev pub named_group : ℕ
named_group = 0x08

abbrev pub mask_entry : ℕ
mask_entry = 0x10

abbrev pub other_entry : ℕ
other_entry = 0x20

abbrev pub undefined_id : ℕ
undefined_id = 0xffff_ffff

abbrev pub maximum_entries : ℕ
maximum_entries = 128

pub record Entry : Type 0 where
  pub tag : ℕ
  pub permissions : ℕ
  pub id : ℕ

-- What the loop of `decode` keeps between two entries
pub record Seen : Type 0 where
  pub counts : ℕ → ℕ
  pub last_tag : ℕ
  pub last_id : ℕ

abbrev pub nothing_seen : Seen
nothing_seen = record { counts = λ t. 0; last_tag = 0; last_id = 0 }

abbrev pub is_base : ℕ → Bool
is_base t = t == user_object || t == group_object || t == mask_entry || t == other_entry

abbrev pub is_named : ℕ → Bool
is_named t = t == named_user || t == named_group

-- The switch over the tag
abbrev pub tag_fits : Seen → Entry → Bool
tag_fits s e =
    if is_base e.tag
    then e.id == undefined_id && s.counts e.tag == 0
    else if is_named e.tag
    then not (e.id == undefined_id || (e.tag == s.last_tag && leb e.id s.last_id))
    else false

abbrev pub counted : ℕ → (ℕ → ℕ) → ℕ → ℕ
counted t counts u = if u == t then counts u + 1 else counts u

-- One round of the loop of `decode`, once the entry is read
unfoldable pub accept : Seen → Entry → Result Seen
accept s e =
    if ltb 7 e.permissions || not (tag_fits s e) || ltb e.tag s.last_tag
    then err plain
    else ok (record { counts = counted e.tag s.counts; last_tag = e.tag; last_id = e.id })

-- `binary.LittleEndian.Uint16` and `Uint32`
abbrev pub uint16 : ℕ → ℕ → ℕ
uint16 b0 b1 = b0 + b1 * 256

abbrev pub uint32 : ℕ → ℕ → ℕ → ℕ → ℕ
uint32 b0 b1 b2 b3 = b0 + b1 * 256 + b2 * 65_536 + b3 * 16_777_216

-- The loop of `decode` over the rest of the bytes
unfoldable pub read_entries : Seen → List ℕ → Result (Seen × List Entry)
read_entries s (t0 ∷ t1 ∷ p0 ∷ p1 ∷ i0 ∷ i1 ∷ i2 ∷ i3 ∷ raw) =
    let e : Entry = record {
      tag = uint16 t0 t1;
      permissions = uint16 p0 p1;
      id = uint32 i0 i1 i2 i3;
    } in
    accept s e >>= λ s'. read_entries s' raw >>= λ r. ok (r.0, e ∷ r.1)
read_entries s _ = ok (s, [])

abbrev pub version_of : List ℕ → ℕ
version_of (b0 ∷ b1 ∷ b2 ∷ b3 ∷ raw) = uint32 b0 b1 b2 b3
version_of _ = 0

-- The first guard of `decode`
abbrev pub header_fits : List ℕ → Bool
header_fits raw =
    not (ltb (length raw) 4)
    && (length raw - 4) % 8 == 0
    && not (ltb (4 + 8 * maximum_entries) (length raw))
    && version_of raw == acl_version

-- The guard of `decode` after its loop
abbrev pub complete : (ℕ → ℕ) → Bool
complete counts =
    counts user_object == 1
    && counts group_object == 1
    && counts other_entry == 1
    && not
        ((ltb 0 (counts named_user) || ltb 0 (counts named_group)) && not (counts mask_entry == 1))

unfoldable pub decode : List ℕ → Result (List Entry)
decode raw =
    if not (header_fits raw)
    then err plain
    else (read_entries nothing_seen (drop 4 raw) >>= λ r.
        if complete r.0.counts then ok r.1 else err plain)

-- `binary.LittleEndian.PutUint16` and `PutUint32`, in front of what follows
abbrev pub put16 : ℕ → List ℕ → List ℕ
put16 n raw = n % 256 ∷ n / 256 % 256 ∷ raw

abbrev pub put32 : ℕ → List ℕ → List ℕ
put32 n raw = n % 256 ∷ n / 256 % 256 ∷ n / 65_536 % 256 ∷ n / 16_777_216 % 256 ∷ raw

unfoldable pub encode_entries : List Entry → List ℕ
encode_entries [] = []
encode_entries (e ∷ es) = put16 e.tag (put16 e.permissions (put32 e.id (encode_entries es)))

unfoldable pub encode : List Entry → List ℕ
encode es = put32 acl_version (encode_entries es)

-- The first loop of `allowed`
unfoldable pub mask_from : ℕ → List Entry → ℕ
mask_from mask [] = mask
mask_from mask (e ∷ es) = mask_from (if e.tag == mask_entry then e.permissions else mask) es

unfoldable pub other_from : ℕ → List Entry → ℕ
other_from other [] = other
other_from other (e ∷ es) = other_from (if e.tag == other_entry then e.permissions else other) es

abbrev pub grants : ℕ → ℕ → Bool
grants permissions requested = bit_and permissions requested == requested

-- The second loop of `allowed`: the answer of the first entry that is for the actor
unfoldable pub user_answer : ℕ → ℕ → ℕ → ℕ → List Entry → Option Bool
user_answer mask owner actor requested [] = none
user_answer mask owner actor requested (e ∷ es) =
    if e.tag == user_object && actor == owner
    then some (grants e.permissions requested)
    else if e.tag == named_user && e.id == actor
    then some (grants (bit_and e.permissions mask) requested)
    else user_answer mask owner actor requested es

-- A map from numbers to `bool`, filled from a slice
abbrev pub has : List ℕ → ℕ → Bool
has [] id = false
has (g ∷ gs) id = g == id || has gs id

abbrev pub matching : ℕ → List ℕ → Entry → Bool
matching group groups e =
    (e.tag == group_object && has groups group) || (e.tag == named_group && has groups e.id)

-- The third loop of `allowed`: whether an entry matched, and whether one granted the request
unfoldable pub group_matched : ℕ → List ℕ → List Entry → Bool
group_matched group groups [] = false
group_matched group groups (e ∷ es) = matching group groups e || group_matched group groups es

unfoldable pub group_granted : ℕ → ℕ → List ℕ → ℕ → List Entry → Bool
group_granted mask group groups requested [] = false
group_granted mask group groups requested (e ∷ es) =
    (matching group groups e && grants (bit_and e.permissions mask) requested)
    || group_granted mask group groups requested es

abbrev pub group_answer : ℕ → ℕ → ℕ → List ℕ → ℕ → List Entry → Bool
group_answer mask other group groups requested es =
    group_granted mask group groups requested es
    || (not (group_matched group groups es) && grants other requested)

-- An answer where there is one
abbrev pub answer : Option Bool → Bool → Bool
answer (some b) rest = b
answer none rest = rest

unfoldable pub allowed : List Entry → ℕ → ℕ → ℕ → List ℕ → ℕ → Bool
allowed es owner group actor groups requested =
    let mask = mask_from 7 es in
    if requested == 0
    then true
    else answer (user_answer mask owner actor requested es)
        (group_answer mask (other_from 0 es) group groups requested es)
