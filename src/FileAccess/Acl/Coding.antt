-- ===== src/FileAccess/Acl/Coding.antt =====
-- What `decode` of internal/backend/fileaccess/acl_linux.go does with encoded entries
use virmill.Prelude.{ℕ, ◌+◌, ◌/◌, ◌%◌, ◌≤◌, ◌<◌, true, ◌≡◌, refl, ◌∙◌, List, [], ◌∷◌, All, arith}
use virmill.Domain.Error.{Result, ok, ◌>>=◌}
use virmill.FileAccess.Acl.{
  Entry, Seen, undefined_id, is_base, tag_fits, counted, accept, uint16, uint32, read_entries,
  encode_entries, nothing_seen,
}
use virmill.FileAccess.Acl.Canonical.{IsEntry, precedes, Ascending, count}

-- What the loop has counted: the last tag, and none above it. A base entry has no identifier.
pub record Fits (s : Seen) : Type 0 where
  pub last : 0 < s.last_tag → 0 < s.counts s.last_tag
  pub above : (t : ℕ) → s.last_tag < t → s.counts t ≡ 0
  pub unnamed : is_base s.last_tag ≡ true → s.last_id ≡ undefined_id

pub nothing_seen-Fits : Fits nothing_seen
nothing_seen-Fits = record {
  last = λ h. absurd (omega arith);
  above = λ t h. refl;
  unnamed = λ h. absurd cc;
}

-- The state after an entry
abbrev pub after : Seen → Entry → Seen
after s e = record { counts = counted e.tag s.counts; last_tag = e.tag; last_id = e.id }

counted-same : (t : ℕ) (c : ℕ → ℕ) → counted t c t ≡ c t + 1
counted-same t c = ground arith

counted-other : (t u : ℕ) (c : ℕ → ℕ) → t < u → counted t c u ≡ c u
counted-other t u c h = ground arith

pub after-Fits :
    (s : Seen) (e : Entry)
    → Fits s
    → s.last_tag ≤ e.tag
    → (is_base e.tag ≡ true → e.id ≡ undefined_id)
    → Fits (after s e)
after-Fits s e f le un = record {
  last = λ h. omega (arith, counted-same e.tag s.counts);
  above = λ t h. counted-other e.tag t s.counts h ∙ f.above t (omega arith);
  unnamed = un;
}

-- The loop accepts an entry exactly where the order has it.
tag_fits-precedes :
    (s : Seen) (e : Entry)
    → Fits s
    → IsEntry e
    → precedes s.last_tag s.last_id e ≡ true
    → tag_fits s e ≡ true
tag_fits-precedes s e f v p =
    let above = f.above e.tag in let un = f.unnamed in ground (arith, above, un)

pub precedes-tag_fits :
    (s : Seen) (e : Entry)
    → Fits s
    → tag_fits s e ≡ true
    → s.last_tag ≤ e.tag
    → precedes s.last_tag s.last_id e ≡ true
precedes-tag_fits s e f v p = let last = f.last in ground (arith, last)

accept-precedes :
    (s : Seen) (e : Entry)
    → Fits s
    → IsEntry e
    → precedes s.last_tag s.last_id e ≡ true
    → accept s e ≡ ok (after s e)
unfolding accept
accept-precedes s e f v p = ground (arith, tag_fits-precedes s e f v p)

-- What an accepted entry has passed
pub record Accepted (s : Seen) (e : Entry) (s' : Seen) : Type 0 where
  pub bits : e.permissions ≤ 7
  pub fits : tag_fits s e ≡ true
  pub rises : s.last_tag ≤ e.tag
  pub same : s' ≡ after s e

pub accept-Accepted : (s : Seen) (e : Entry) (s' : Seen) → accept s e ≡ ok s' → Accepted s e s'
unfolding accept
accept-Accepted s e s' h = record {
  bits = ground arith;
  fits = ground arith;
  rises = ground arith;
  same = ground arith;
}

pub tag_fits-IsEntry :
    (s : Seen) (e : Entry)
    → e.permissions ≤ 7
    → e.id ≤ undefined_id
    → tag_fits s e ≡ true
    → IsEntry e
tag_fits-IsEntry s e b i h = (b, i, ground arith, ground arith)

-- The state after a list of entries
abbrev pub final : Seen → List Entry → Seen
final s [] = s
final s (e ∷ es) = final (after s e) es

pub final-counts :
    (t : ℕ) (s : Seen) (es : List Entry) → (final s es).counts t ≡ s.counts t + count t es
unfolding count
final-counts t s [] = omega arith
final-counts t s (e ∷ es) = ground (arith, final-counts t (after s e) es)

pub IsEntry-unnamed : (e : Entry) → IsEntry e → is_base e.tag ≡ true → e.id ≡ undefined_id
IsEntry-unnamed e v h = ground arith

-- The entry of eight bytes
abbrev pub entry_of : ℕ → ℕ → ℕ → ℕ → ℕ → ℕ → ℕ → ℕ → Entry
entry_of t0 t1 p0 p1 i0 i1 i2 i3 = record {
  tag = uint16 t0 t1;
  permissions = uint16 p0 p1;
  id = uint32 i0 i1 i2 i3;
}

abbrev pub next : Seen → Entry → List ℕ → Result (Seen × List Entry)
next s e raw = accept s e >>= λ s'. read_entries s' raw >>= λ r. ok (r.0, e ∷ r.1)

pub read_entries-next :
    (s : Seen) (t0 t1 p0 p1 i0 i1 i2 i3 : ℕ) (raw : List ℕ)
    → read_entries s (t0 ∷ t1 ∷ p0 ∷ p1 ∷ i0 ∷ i1 ∷ i2 ∷ i3 ∷ raw)
      ≡ next s (entry_of t0 t1 p0 p1 i0 i1 i2 i3) raw
unfolding read_entries
read_entries-next s t0 t1 p0 p1 i0 i1 i2 i3 raw = refl

pub read_entries-none : (s : Seen) → read_entries s [] ≡ ok (s, [])
unfolding read_entries
read_entries-none s = refl

Entry-≡ : (d e : Entry) → d.tag ≡ e.tag → d.permissions ≡ e.permissions → d.id ≡ e.id → d ≡ e
Entry-≡ d e a b c = cc

-- The eight bytes of an entry
abbrev pub bytes_of : Entry → Entry
bytes_of e =
    entry_of (e.tag % 256) (e.tag / 256 % 256) (e.permissions % 256) (e.permissions / 256 % 256)
      (e.id % 256) (e.id / 256 % 256) (e.id / 65_536 % 256) (e.id / 16_777_216 % 256)

pub bytes_of-IsEntry : (e : Entry) → IsEntry e → bytes_of e ≡ e
bytes_of-IsEntry e v =
    let small : e.tag ≤ 32 = ground arith in
    Entry-≡ (bytes_of e) e (omega arith) (omega arith) (omega arith)

-- Entries in the order are read back as they were.
pub read_entries-encode_entries :
    (s : Seen) (es : List Entry)
    → Fits s
    → All IsEntry es
    → Ascending s.last_tag s.last_id es
    → read_entries s (encode_entries es) ≡ ok (final s es, es)
unfolding encode_entries Ascending
read_entries-encode_entries s [] f v o = read_entries-none s
read_entries-encode_entries s (e ∷ es) f v o =
    let le : s.last_tag ≤ e.tag = let p = o.0 in ground arith in
    let rest =
      read_entries-encode_entries (after s e) es (after-Fits s e f le (IsEntry-unnamed e v.0)) v.1
        o.1 in
    rw (read_entries-next, bytes_of-IsEntry e v.0, accept-precedes s e f v.0 o.0, rest) refl
