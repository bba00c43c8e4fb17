-- ===== src/FileAccess/Acl/Decoding.antt =====
-- `decode` and `encode` of internal/backend/fileaccess/acl_linux.go are inverse to each other.
use virmill.Prelude.{
  ℕ, ◌+◌, ◌*◌, ◌%◌, ◌≤◌, ◌<◌, true, not, ◌≡◌, refl, sym, subst, ap, List, [], ◌∷◌, if◌then◌else◌,
  All, length, drop, arith, All-drop,
}
use virmill.Domain.Error.{Result, err, ok, plain, ◌>>=◌, bind_ok, ok_inj, guard_ok, require_ok}
use virmill.FileAccess.Acl.{
  Entry, Seen, user_object, named_user, group_object, named_group, mask_entry, other_entry, accept,
  uint16, uint32, read_entries, header_fits, complete, decode, put16, put32, encode_entries, encode,
  nothing_seen,
}
use virmill.FileAccess.Acl.Canonical.{IsEntry, Ascending, count, IsAcl}
use virmill.FileAccess.Acl.Coding.{
  Fits, nothing_seen-Fits, after, final, final-counts, entry_of, next, read_entries-next,
  read_entries-encode_entries, read_entries-none, accept-Accepted, tag_fits-IsEntry,
  precedes-tag_fits, after-Fits, IsEntry-unnamed,
}

length-encode_entries : (es : List Entry) → length (encode_entries es) ≡ 8 * length es
unfolding encode_entries
length-encode_entries [] = refl
length-encode_entries (e ∷ es) = omega (arith, length-encode_entries es)

pub length-encode : (es : List Entry) → length (encode es) ≡ 8 * length es + 4
unfolding encode
length-encode es = omega (arith, length-encode_entries es)

abbrev counts_of : List Entry → ℕ → ℕ
counts_of es = (final nothing_seen es).counts

counts_of-count : (t : ℕ) (es : List Entry) → counts_of es t ≡ count t es
counts_of-count t es = omega (arith, final-counts t nothing_seen es)

header_fits-encode : (es : List Entry) → length es ≤ 128 → header_fits (encode es) ≡ true
unfolding encode
header_fits-encode es h = ground (arith, length-encode_entries es)

complete-IsAcl : (es : List Entry) → IsAcl es → complete (counts_of es) ≡ true
complete-IsAcl es h =
    let masked = h.masked in
    let a = h.owner_once in
    let b = h.group_once in let c = h.other_once in simp (counts_of-count) (ground arith)

-- A canonical access list is read back from its encoding.
pub decode-encode : (es : List Entry) → IsAcl es → decode (encode es) ≡ ok es
unfolding decode encode
decode-encode es h =
    rw
      (
        header_fits-encode es h.bounded,
        read_entries-encode_entries nothing_seen es nothing_seen-Fits h.entries h.order,
        complete-IsAcl es h,
      )
      refl

-- What the loop has read: entries in order, whose bytes it read
record Read (s : Seen) (raw : List ℕ) (s' : Seen) (es : List Entry) : Type 0 where
  pub state : s' ≡ final s es
  pub entries : All IsEntry es
  pub order : Ascending s.last_tag s.last_id es
  pub bytes : encode_entries es ≡ raw

-- An entry that is read has the bytes that were read.
entry_of-bytes :
    (t0 t1 p0 p1 i0 i1 i2 i3 : ℕ) (raw : List ℕ)
    → All (λ b. b < 256) (t0 ∷ t1 ∷ p0 ∷ p1 ∷ i0 ∷ i1 ∷ i2 ∷ i3 ∷ raw)
    → put16 (uint16 t0 t1) (put16 (uint16 p0 p1) (put32 (uint32 i0 i1 i2 i3) raw))
      ≡ t0 ∷ t1 ∷ p0 ∷ p1 ∷ i0 ∷ i1 ∷ i2 ∷ i3 ∷ raw
entry_of-bytes t0 t1 p0 p1 i0 i1 i2 i3 raw b = ground arith

-- The parts of a round of the loop
pub record Round (s : Seen) (e : Entry) (raw : List ℕ) (s' : Seen) (es : List Entry) : Type 0 where
  pub state : Seen
  pub rest : List Entry
  pub accepted : accept s e ≡ ok state
  pub rest_read : read_entries state raw ≡ ok (s', rest)
  pub all : es ≡ e ∷ rest

pub next-Round :
    (s : Seen) (e : Entry) (raw : List ℕ) (s' : Seen) (es : List Entry)
    → next s e raw ≡ ok (s', es)
    → Round s e raw s' es
next-Round s e raw s' es h =
    let a =
      bind_ok (accept s e) (λ s1. read_entries s1 raw >>= λ r. ok (r.0, e ∷ r.1)) (s', es) h in
    let b = bind_ok (read_entries a.0 raw) (λ r. ok (r.0, e ∷ r.1)) (s', es) a.2 in
    let same = ok_inj (b.0.0, e ∷ b.0.1) (s', es) b.2 in
    let left : b.0.0 ≡ s' = ap (λ p. p.0) same in
    record {
      state = a.0;
      rest = b.0.1;
      accepted = a.1;
      rest_read = subst (λ t. read_entries a.0 raw ≡ ok (t, b.0.1)) left b.1;
      all = sym (ap (λ p. p.1) same);
    }

-- The loop reads entries in order, and their bytes are those it read.
read_entries-Read :
    (s : Seen) (raw : List ℕ) (s' : Seen) (es : List Entry)
    → Fits s
    → All (λ b. b < 256) raw
    → length raw % 8 ≡ 0
    → read_entries s raw ≡ ok (s', es)
    → Read s raw s' es
unfolding encode_entries Ascending
read_entries-Read s [] s' es f b l h =
    let same = ok_inj (s, []) (s', es) (rw (read_entries-none s) at h) in
    subst (Read s [] s') (ap (λ p. p.1) same)
      (record { state = sym (ap (λ p. p.0) same); entries = tt; order = tt; bytes = refl })
read_entries-Read s (t0 ∷ t1 ∷ p0 ∷ p1 ∷ i0 ∷ i1 ∷ i2 ∷ i3 ∷ raw) s' es f b l h =
    let e = entry_of t0 t1 p0 p1 i0 i1 i2 i3 in
    let r = next-Round s e raw s' es (rw (read_entries-next s t0 t1 p0 p1 i0 i1 i2 i3 raw) at h) in
    let a = accept-Accepted s e r.state r.accepted in
    let v = tag_fits-IsEntry s e a.bits (ground arith) a.fits in
    let rest_read = subst (λ t. read_entries t raw ≡ ok (s', r.rest)) a.same r.rest_read in
    let tail =
      read_entries-Read (after s e) raw s' r.rest (after-Fits s e f a.rises (IsEntry-unnamed e v))
        (All-drop (λ b. b < 256) 8 (t0 ∷ t1 ∷ p0 ∷ p1 ∷ i0 ∷ i1 ∷ i2 ∷ i3 ∷ raw) b) (omega arith)
        rest_read in
    subst (Read s (t0 ∷ t1 ∷ p0 ∷ p1 ∷ i0 ∷ i1 ∷ i2 ∷ i3 ∷ raw) s') (sym r.all) (record {
      state = tail.state;
      entries = (v, tail.entries);
      order = (precedes-tag_fits s e f a.fits a.rises, tail.order);
      bytes = rw (tail.bytes) (entry_of-bytes t0 t1 p0 p1 i0 i1 i2 i3 raw b);
    })
read_entries-Read s _ s' es f b l h = absurd (ground arith)

-- The header's bytes
encode-header :
    (raw : List ℕ) (es : List Entry)
    → All (λ b. b < 256) raw
    → header_fits raw ≡ true
    → encode_entries es ≡ drop 4 raw
    → encode es ≡ raw
unfolding encode
encode-header (b0 ∷ b1 ∷ b2 ∷ b3 ∷ raw) es b h e = rw e (ground arith)
encode-header _ es b h e = absurd (ground arith)

header_fits-length :
    (raw : List ℕ)
    → header_fits raw ≡ true
    → (length (drop 4 raw) % 8 ≡ 0) × (length raw ≡ length (drop 4 raw) + 4) × (length raw ≤ 1028)
header_fits-length (b0 ∷ b1 ∷ b2 ∷ b3 ∷ raw) h = (ground arith, omega arith, ground arith)
header_fits-length _ h = absurd (ground arith)

complete-once :
    (es : List Entry)
    → complete (counts_of es) ≡ true
    → (count user_object es ≡ 1) × (count group_object es ≡ 1) × (count other_entry es ≡ 1)
complete-once es h =
    let g = simp (counts_of-count) at h in (ground arith, ground arith, ground arith)

complete-masked :
    (es : List Entry)
    → complete (counts_of es) ≡ true
    → 0 < count named_user es + count named_group es
    → count mask_entry es ≡ 1
complete-masked es h n = let g = simp (counts_of-count) at h in ground arith

-- What `decode` has passed
pub record Decoded (raw : List ℕ) (es : List Entry) : Type 0 where
  pub header : header_fits raw ≡ true
  pub state : Seen
  pub read : read_entries nothing_seen (drop 4 raw) ≡ ok (state, es)
  pub whole : complete state.counts ≡ true

pub decode-Decoded : (raw : List ℕ) (es : List Entry) → decode raw ≡ ok es → Decoded raw es
unfolding decode
decode-Decoded raw es h =
    let tail : Seen × List Entry → Result (List Entry) =
      λ r. if complete r.0.counts then ok r.1 else err plain in
    let start = read_entries nothing_seen (drop 4 raw) in
    let f = guard_ok (not (header_fits raw)) plain (start >>= tail) es h in
    let r = bind_ok start tail es f.1 in
    let w = require_ok (complete r.0.0.counts) plain (ok r.0.1) es r.2 in
    record {
      header = ground arith;
      state = r.0.0;
      read = subst (λ t. start ≡ ok (r.0.0, t)) (ok_inj r.0.1 es w.1) r.1;
      whole = w.0;
    }

-- What `decode` accepts of bytes below 256 is a canonical access list, and the bytes are its
-- encoding.
pub encode-decode :
    (raw : List ℕ) (es : List Entry)
    → All (λ b. b < 256) raw
    → decode raw ≡ ok es
    → IsAcl es × (encode es ≡ raw)
encode-decode raw es b h =
    let d = decode-Decoded raw es h in
    let f = header_fits-length raw d.header in
    let r =
      read_entries-Read nothing_seen (drop 4 raw) d.state es nothing_seen-Fits
        (All-drop (λ x. x < 256) 4 raw b) f.0 d.read in
    let whole = subst (λ s. complete s.counts ≡ true) r.state d.whole in
    let once = complete-once es whole in
    let size = length-encode_entries es in
    let same : length (drop 4 raw) ≡ length (encode_entries es) = ap length (sym r.bytes) in
    let acl : IsAcl es = record {
      entries = r.entries;
      order = r.order;
      owner_once = once.0;
      group_once = once.1;
      other_once = once.2;
      masked = complete-masked es whole;
      bounded = omega (arith, size, same, f.1, f.2);
    } in
    (acl, encode-header raw es b d.header r.bytes)
