-- ===== src/FileAccess/Acl/Reread.antt =====
-- What `decode` of internal/backend/fileaccess/acl_linux.go returns for encoded entries, where it
-- returns anything: these entries.
use virmill.Prelude.{◌<◌, ◌≡◌, sym, ◌∙◌, subst, ap, List, [], ◌∷◌, All, arith}
use virmill.Domain.Error.{ok, ok_inj}
use virmill.FileAccess.Acl.{Entry, Seen, read_entries, decode, encode_entries, encode, nothing_seen}
use virmill.FileAccess.Acl.Canonical.{IsEntry, IsAcl}
use virmill.FileAccess.Acl.Coding.{bytes_of-IsEntry, next, read_entries-next, read_entries-none}
use virmill.FileAccess.Acl.Decoding.{next-Round, decode-Decoded, encode-decode}

reread_entries :
    (s s' : Seen) (es ds : List Entry)
    → All IsEntry es
    → read_entries s (encode_entries es) ≡ ok (s', ds)
    → ds ≡ es
unfolding encode_entries
reread_entries s s' [] ds v h =
    sym (ap (λ p. p.1) (ok_inj (s, []) (s', ds) (rw (read_entries-none s) at h)))
reread_entries s s' (e ∷ es) ds v h =
    let k : next s e (encode_entries es) ≡ ok (s', ds) =
      rw (read_entries-next, bytes_of-IsEntry e v.0) at h in
    let r = next-Round s e (encode_entries es) s' ds k in
    r.all ∙ ap (λ t. e ∷ t) (reread_entries r.state s' es r.rest v.1 r.rest_read)

put_bytes : (es : List Entry) → All (λ b. b < 256) (encode_entries es)
unfolding encode_entries
put_bytes [] = tt
put_bytes (e ∷ es) =
    let rest = put_bytes es in
    (
      omega arith,
      (
        omega arith,
        (
          omega arith,
          (omega arith, (omega arith, (omega arith, (omega arith, (omega arith, rest))))),
        ),
      ),
    )

pub encode_bytes : (es : List Entry) → All (λ b. b < 256) (encode es)
unfolding encode
encode_bytes es =
    let rest = put_bytes es in (omega arith, (omega arith, (omega arith, (omega arith, rest))))

-- Encoded entries that `decode` accepts are a canonical access list, and it returns them.
pub reread :
    (es ds : List Entry) → All IsEntry es → decode (encode es) ≡ ok ds → (ds ≡ es) × IsAcl es
unfolding encode
reread es ds v h =
    let d = decode-Decoded (encode es) ds h in
    let same = reread_entries nothing_seen d.state es ds v d.read in
    (same, subst IsAcl same (encode-decode (encode es) ds (encode_bytes es) h).0)
