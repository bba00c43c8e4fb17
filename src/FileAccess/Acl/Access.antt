-- ===== src/FileAccess/Acl/Access.antt =====
-- What the access list that `GrantRead` of internal/backend/fileaccess/acl_linux.go returns gives
use virmill.Prelude.{
  ℕ, zero, suc, ◌+◌, ◌*◌, ◌/◌, ◌%◌, ◌≤◌, ◌<◌, true, false, not, ◌||◌, ◌≡◌, ◌≢◌, sym, ◌∙◌, subst,
  List, ltb, ◌==◌, All, length, arith, inl, inr, Bool-cases,
}
use Prim.Native.Nat.{bit_and, bit_or}
use virmill.Domain.Error.{ok, plain, bind_ok, ok_inj, guard_ok}
use virmill.FileAccess.Acl.{Entry, undefined_id, maximum_entries, decode, encode, allowed, grants}
use virmill.FileAccess.Acl.Canonical.{IsEntry, IsAcl}
use virmill.FileAccess.Acl.Decoding.{length-encode}
use virmill.FileAccess.Acl.Reread.{reread}
use virmill.FileAccess.Acl.Lookup.{sort_entries, All-sort_entries}
use virmill.FileAccess.Acl.Rights.{allowed-has_rights, allowed_zero}
use virmill.FileAccess.Acl.Bits.{rights_of_le, bit_or_le, grants_read, grants_kept}
use virmill.FileAccess.Acl.Grant.{
  group_bits, entries_of, prior_rights, granted, entries_fit, groups_fit, same, grant_entries,
  grant_read,
}
use virmill.FileAccess.Acl.Entries.{same-≡, entries_of-IsAcl}
use virmill.FileAccess.Acl.Changed.{granted-IsEntry}
use virmill.FileAccess.Acl.Kept.{others_kept, actor_rights}

module _ (raw : List ℕ) (mode owner group actor : ℕ) (groups : List ℕ) (out : List ℕ) where
  abbrev wanted : List Entry → ℕ
  wanted es = bit_or (prior_rights es owner group actor groups) 4

  abbrev after_of : List Entry → List Entry
  after_of es = sort_entries (granted (group_bits mode) (wanted es) actor es)

  -- What a grant has passed
  record Passed : Type 0 where
    pub before : List Entry
    pub read : entries_of raw mode ≡ ok before
    pub actor_fits : (actor == 0 || actor == undefined_id || actor == owner) ≡ false
    pub fits : entries_fit mode before ≡ true
    pub rights :
        same
          (bit_and (prior_rights before owner group actor groups) 3 == 3)
          (allowed before owner group actor groups 3)
        ≡ true
    pub reread_list : List Entry
    pub decoded : decode (encode (after_of before)) ≡ ok reread_list
    pub result : encode (after_of before) ≡ out

  grant_read-Passed : grant_read raw mode owner group actor groups ≡ ok out → Passed
  unfolding grant_read grant_entries
  grant_read-Passed h =
      let start = guard_ok (actor == 0 || actor == undefined_id || actor == owner) plain _ out h in
      let mode_plain = guard_ok (not (mode / 512 % 8 == 0)) plain _ out start.1 in
      let b =
        bind_ok (entries_of raw mode) (λ es. grant_entries es mode owner group actor groups) out
          mode_plain.1 in
      let fits = guard_ok (not (entries_fit mode b.0)) plain _ out b.2 in
      let known = guard_ok (not (groups_fit groups)) plain _ out fits.1 in
      let kept =
        guard_ok
          (not (
            same (bit_and (prior_rights b.0 owner group actor groups) 3 == 3)
              (allowed b.0 owner group actor groups 3)))
          plain _ out known.1 in
      let few =
        guard_ok (ltb maximum_entries (length (granted (group_bits mode) (wanted b.0) actor b.0)))
          plain _ out kept.1 in
      let d =
        bind_ok (decode (encode (after_of b.0))) (λ read_back. ok (encode (after_of b.0))) out
          few.1 in
      record {
        before = b.0;
        read = b.1;
        actor_fits = start.0;
        fits = ground arith;
        rights = ground arith;
        reread_list = d.0;
        decoded = d.1;
        result = ok_inj (encode (after_of b.0)) out d.2;
      }

  -- What a grant has passed, with what follows for the list that it returns
  record Made : Type 0 where
    pub before : List Entry
    pub read : entries_of raw mode ≡ ok before
    pub before_acl : IsAcl before
    pub after_acl : IsAcl (after_of before)
    pub small : wanted before ≤ 7
    pub differs : actor ≢ owner
    pub fits : entries_fit mode before ≡ true
    pub rights :
        same
          (bit_and (prior_rights before owner group actor groups) 3 == 3)
          (allowed before owner group actor groups 3)
        ≡ true
    pub decoded : decode out ≡ ok (after_of before)
    pub size : length out ≤ 4 + 8 * maximum_entries

  wanted_le : (es : List Entry) → wanted es ≤ 7
  unfolding prior_rights
  wanted_le es =
      let may = allowed es owner group actor groups in
      bit_or_le _ 4 (rights_of_le (may 1) (may 2) (may 4)) (omega arith)

  grant_read-Made :
      All (λ b. b < 256) raw
      → actor ≤ undefined_id
      → grant_read raw mode owner group actor groups ≡ ok out
      → Made
  grant_read-Made bytes id h =
      let p = grant_read-Passed h in
      let before_acl = entries_of-IsAcl raw mode p.before bytes p.read in
      let actor_fits = p.actor_fits in
      let entries =
        All-sort_entries IsEntry (granted (group_bits mode) (wanted p.before) actor p.before) (
          granted-IsEntry (group_bits mode) (wanted p.before) actor p.before (omega arith)
            (wanted_le p.before) (ground arith) before_acl.entries) in
      let again = reread (after_of p.before) p.reread_list entries p.decoded in
      let count_bound = again.1.bounded in
      let long = length-encode (after_of p.before) in
      record {
        before = p.before;
        read = p.read;
        before_acl = before_acl;
        after_acl = again.1;
        small = wanted_le p.before;
        differs = ground arith;
        fits = p.fits;
        rights = p.rights;
        decoded =
            subst (λ o. decode o ≡ ok (after_of p.before)) p.result
              (subst (λ d. decode (encode (after_of p.before)) ≡ ok d) again.0 p.decoded);
        size = subst (λ o. length o ≤ 1028) p.result (omega arith);
      }

  -- What the actor has after the grant
  actor_has :
      (m : Made) (r : ℕ)
      → r ≢ 0
      → allowed (after_of m.before) owner group actor groups r ≡ grants (wanted m.before) r
  actor_has m r n =
      allowed-has_rights (after_of m.before) owner group actor groups r m.after_acl n
      ∙ actor_rights mode (wanted m.before) actor m.before m.small m.before_acl owner group groups r
          m.differs

  -- What anyone else has after the grant
  others_have :
      (m : Made) (u : ℕ) (us : List ℕ) (r : ℕ)
      → u ≢ actor
      → allowed (after_of m.before) owner group u us r ≡ allowed m.before owner group u us r
  others_have m u us r n = elim (Bool-cases (r == 0)) [
    | inl z ↦
        let e : r ≡ 0 = ground arith in
        rw e (
          allowed_zero (after_of m.before) owner group u us
          ∙ sym (allowed_zero m.before owner group u us))
    | inr z ↦
        let positive : r ≢ 0 = λ e. absurd (ground arith) in
        allowed-has_rights (after_of m.before) owner group u us r m.after_acl positive
        ∙ others_kept mode (wanted m.before) actor m.before m.small m.before_acl owner group u us r
            m.fits n
        ∙ sym (allowed-has_rights m.before owner group u us r m.before_acl positive)
  ]

  -- The actor's other rights
  actor_keeps :
      (m : Made) (r : ℕ)
      → r ≤ 3
      → allowed (after_of m.before) owner group actor groups r
        ≡ allowed m.before owner group actor groups r
  unfolding prior_rights
  actor_keeps m zero le =
      allowed_zero (after_of m.before) owner group actor groups
      ∙ sym (allowed_zero m.before owner group actor groups)
  actor_keeps m (suc zero) le =
      let may = allowed m.before owner group actor groups in
      actor_has m 1 (λ n. absurd (omega arith)) ∙ (grants_kept (may 1) (may 2) (may 4)).0
  actor_keeps m (suc (suc zero)) le =
      let may = allowed m.before owner group actor groups in
      actor_has m 2 (λ n. absurd (omega arith)) ∙ (grants_kept (may 1) (may 2) (may 4)).1
  actor_keeps m (suc (suc (suc zero))) le =
      let may = allowed m.before owner group actor groups in
      actor_has m 3 (λ n. absurd (omega arith))
      ∙ (grants_kept (may 1) (may 2) (may 4)).2
      ∙ same-≡ _ (may 3) m.rights
  actor_keeps m (suc (suc (suc (suc r)))) le = absurd (omega arith)

  -- A grant to an actor of 32 bits, over a list of bytes below 256, returns an access list that
  -- `decode` reads, in at most 1028 bytes, and that gives the actor read access.
  pub read_granted :
      All (λ b. b < 256) raw
      → actor ≤ undefined_id
      → grant_read raw mode owner group actor groups ≡ ok out
      → (after : List Entry) × (decode out ≡ ok after)
        × (length out ≤ 4 + 8 * maximum_entries)
        × (allowed after owner group actor groups 4 ≡ true)
  unfolding prior_rights
  read_granted bytes id h =
      let m = grant_read-Made bytes id h in
      let may = allowed m.before owner group actor groups in
      let read = actor_has m 4 (λ n. absurd (omega arith)) ∙ grants_read (may 1) (may 2) (may 4) in
      (after_of m.before, m.decoded, m.size, read)

  -- Whoever is not the actor is allowed after a grant, to an actor of 32 bits over bytes below 256,
  -- what was allowed before it, whatever the groups and the request.
  pub others_rights_kept :
      (before after : List Entry) (other : ℕ) (memberships : List ℕ) (requested : ℕ)
      → All (λ b. b < 256) raw
      → actor ≤ undefined_id
      → grant_read raw mode owner group actor groups ≡ ok out
      → entries_of raw mode ≡ ok before
      → decode out ≡ ok after
      → other ≢ actor
      → allowed after owner group other memberships requested
        ≡ allowed before owner group other memberships requested
  others_rights_kept before after other memberships requested bytes id h r d n =
      let m = grant_read-Made bytes id h in
      rw
        (
          ok_inj after (after_of m.before) (sym d ∙ m.decoded),
          ok_inj before m.before (sym r ∙ m.read),
        )
        (others_have m other memberships requested n)

  -- After a grant, to an actor of 32 bits over bytes below 256, the actor is allowed a request to
  -- write, to execute or both exactly where it was before.
  pub actor_rights_kept :
      (before after : List Entry) (requested : ℕ)
      → All (λ b. b < 256) raw
      → actor ≤ undefined_id
      → grant_read raw mode owner group actor groups ≡ ok out
      → entries_of raw mode ≡ ok before
      → decode out ≡ ok after
      → requested ≤ 3
      → allowed after owner group actor groups requested
        ≡ allowed before owner group actor groups requested
  actor_rights_kept before after requested bytes id h r d n =
      let m = grant_read-Made bytes id h in
      rw
        (
          ok_inj after (after_of m.before) (sym d ∙ m.decoded),
          ok_inj before m.before (sym r ∙ m.read),
        )
        (actor_keeps m requested n)
