-- ===== src/FileAccess/Tests.antt =====
-- Runs of internal/backend/fileaccess/acl_linux.go: a file of mode 0640 whose owner is user 1000
-- and whose group is 1000; user 1001 of group 1001 asks for read access.
use virmill.Prelude.{ℕ, ◌+◌, ◌*◌, ◌≤◌, true, ◌≡◌, refl, List, [], ◌∷◌, arith, length}
use virmill.Domain.Error.{err, ok, plain}
use virmill.FileAccess.Acl.{
  Entry, user_object, named_user, group_object, mask_entry, other_entry, undefined_id,
  maximum_entries, decode, encode, allowed, encode_entries, read_entries, accept, user_answer,
  group_granted, group_matched, other_from,
}
use virmill.FileAccess.Acl.Canonical.{IsAcl, Ascending, count}
use virmill.FileAccess.Acl.Decoding.{decode-encode, encode-decode}
use virmill.FileAccess.Acl.Reread.{encode_bytes}
use virmill.FileAccess.Acl.Lookup.{sort_entries}
use virmill.FileAccess.Acl.Grant.{entries_of, grant_read}
use virmill.FileAccess.Acl.Access.{read_granted, others_rights_kept, actor_rights_kept}

abbrev entry : ℕ → ℕ → ℕ → Entry
entry t p i = record { tag = t; permissions = p; id = i }

abbrev before : List Entry
before =
    entry user_object 6 undefined_id
    ∷ entry group_object 4 undefined_id
    ∷ entry other_entry 0 undefined_id
    ∷ []

abbrev after : List Entry
after =
    entry user_object 6 undefined_id
    ∷ entry named_user 4 1001
    ∷ entry group_object 4 undefined_id
    ∷ entry mask_entry 4 undefined_id
    ∷ entry other_entry 0 undefined_id
    ∷ []

after-IsAcl : IsAcl after
unfolding Ascending count
after-IsAcl = record {
  entries = (
    (omega arith, omega arith, refl, refl),
    (
      (omega arith, omega arith, refl, refl),
      (
        (omega arith, omega arith, refl, refl),
        ((omega arith, omega arith, refl, refl), ((omega arith, omega arith, refl, refl), tt)),
      ),
    ),
  );
  order = (refl, (refl, (refl, (refl, (refl, tt)))));
  owner_once = refl;
  group_once = refl;
  other_once = refl;
  masked = λ h. refl;
  bounded = omega arith;
}

abbrev bytes : List ℕ
bytes = encode after

reads : decode bytes ≡ ok after
reads = decode-encode after after-IsAcl

unordered : decode (encode (entry other_entry 0 undefined_id ∷ before)) ≡ err plain
unfolding decode encode encode_entries read_entries accept
unordered = refl

grant : grant_read [] 416 1000 1000 1001 (1001 ∷ []) ≡ ok bytes
unfolding grant_read allowed user_answer group_granted group_matched other_from decode encode
    encode_entries sort_entries read_entries accept
grant = refl

decode-encode_example : decode (encode after) ≡ ok after
decode-encode_example = decode-encode after after-IsAcl

encode-decode_example : IsAcl after × (encode after ≡ bytes)
encode-decode_example = encode-decode bytes after (encode_bytes after) reads

read_granted_example :
    (made : List Entry) × (decode bytes ≡ ok made)
    × (length bytes ≤ 4 + 8 * maximum_entries)
    × (allowed made 1000 1000 1001 (1001 ∷ []) 4 ≡ true)
read_granted_example = read_granted [] 416 1000 1000 1001 (1001 ∷ []) bytes tt (omega arith) grant

others_rights_kept_example :
    allowed after 1000 1000 1002 (1000 ∷ []) 4 ≡ allowed before 1000 1000 1002 (1000 ∷ []) 4
unfolding entries_of
others_rights_kept_example =
    others_rights_kept [] 416 1000 1000 1001 (1001 ∷ []) bytes before after 1002 (1000 ∷ []) 4 tt
      (omega arith) grant refl reads (λ e. absurd (omega arith))

actor_rights_kept_example :
    allowed after 1000 1000 1001 (1001 ∷ []) 2 ≡ allowed before 1000 1000 1001 (1001 ∷ []) 2
unfolding entries_of
actor_rights_kept_example =
    actor_rights_kept [] 416 1000 1000 1001 (1001 ∷ []) bytes before after 2 tt (omega arith) grant
      refl reads (omega arith)
