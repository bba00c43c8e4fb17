-- ===== src/GuestSetup/Receipt/Valid.antt =====
-- A receipt that internal/guestsetup/stages.go makes of a run passes the check of those stored.
use virmill.Prelude.{
  ℕ, ◌+◌, ◌-◌, ◌*◌, ◌≤◌, ◌<◌, String, true, false, not, ◌&&◌, ◌||◌, ◌≡◌, refl, sym, subst, inl, inr,
  Option, none, some, List, [], ◌∷◌, ltb, ◌==◌, str_eq, eq_iff, length, arith, Bool-cases, contains,
}
use virmill.Network.Prefix.{same_codes}
use virmill.GuestSetup.Receipt.{
  Stamp, stamp, SshResult, is_code, stage_names, uid_line, parse_more, parse_uint, parse_line,
  line_of, max_uid, printed_uid, uid_of, ready_or_failed, outcome_of, digest_fits, in_range,
  received, skipped, bounds_fit, uid_fits, run_fits, valid_receipt,
}

parse_more-bound :
    (max n : ℕ) (cs : List ℕ) (m : ℕ) → n ≤ max → parse_more max n cs ≡ some m → m ≤ max
unfolding parse_more
parse_more-bound max n [] m h e = ground arith
parse_more-bound max n (c ∷ cs) m h e =
    ground (arith, parse_more-bound max (n * 10 + (c - b'0')) cs m)

parse_line-bound : (o : Option (List ℕ)) (m : ℕ) → parse_line o ≡ some m → m ≤ max_uid
unfolding parse_line parse_uint
parse_line-bound none m e = absurd cc
parse_line-bound (some []) m e = absurd cc
parse_line-bound (some (c ∷ cs)) m e = parse_more-bound max_uid 0 (c ∷ cs) m (omega arith) e

same_codes-≡ : (xs ys : List ℕ) → same_codes xs ys ≡ true → xs ≡ ys
unfolding same_codes
same_codes-≡ [] [] h = refl
same_codes-≡ (x ∷ xs) (y ∷ ys) h = ground (arith, same_codes-≡ xs ys)
same_codes-≡ [] (y ∷ ys) h = absurd cc
same_codes-≡ (x ∷ xs) [] h = absurd cc

printed_uid-line :
    (text : List ℕ) (o : Option ℕ) (n : ℕ)
    → printed_uid text o ≡ some n
    → (o ≡ some n) × (0 < n) × (uid_line n ≡ text)
printed_uid-line text none n e = absurd cc
printed_uid-line text (some m) n e =
    let (t, found) : (ltb 0 m && same_codes (uid_line m) text ≡ true) × (m ≡ n) = ground arith in
    ground (arith, same_codes-≡ (uid_line m) text)

-- What the user that is read from a result says of it
uid_of-found :
    (r : SshResult) (n : ℕ)
    → uid_of r ≡ some n
    → (is_code r.exit_code 0 ≡ true)
      × (length r.stderr ≡ 0)
      × (0 < n)
      × (n ≤ max_uid)
      × (uid_line n ≡ r.stdout)
unfolding uid_of
uid_of-found r n e =
    elim (Bool-cases (is_code r.exit_code 0 && length r.stderr == 0 && ltb 1 (length r.stdout))) [
      | inr f ↦ let none_found : none ≡ some n = rw f at e in absurd cc
      | inl t ↦
          let (found, least, line) =
            printed_uid-line r.stdout (parse_line (line_of r.stdout)) n (rw t at e) in
          let few = parse_line-bound (line_of r.stdout) n found in
          (ground arith, ground arith, least, few, line)
    ]

module _ (hash : List ℕ → String) (digests : (text : List ℕ) → digest_fits (hash text) ≡ true) where
  -- The first stage
  received-uid_fits :
      (r : SshResult) (now : Stamp) (o : Option ℕ)
      → uid_of r ≡ o
      → uid_fits hash
          (record (received hash "readiness" r now) { outcome = ready_or_failed o })
          r.exit_code
          o
        ≡ true
  unfolding received
  received-uid_fits r now none e = refl
  received-uid_fits r now (some n) e =
      let (code, quiet, least, few, line) = uid_of-found r n e in
      rw line (ground (arith, code, eq_iff (hash r.stdout) (hash r.stdout)))

  received-bounds :
      (name : String) (r : SshResult) (now : ℕ)
      → length r.stdout ≤ 1048576
      → length r.stderr ≤ 1048576
      → 0 < now
      → bounds_fit hash (received hash name r (stamp now)) ≡ true
  unfolding received
  received-bounds name r now a b t = ground (arith, digests r.stdout, digests r.stderr, a, b, t)

  empty_digest : (text : List ℕ) → (not (length text == 0) || str_eq (hash text) (hash [])) ≡ true
  empty_digest [] = ground (arith, eq_iff (hash []) (hash []))
  empty_digest (c ∷ cs) = ground arith

  received-run_fits :
      (name : String) (r : SshResult) (now : ℕ)
      → contains stage_names name ≡ true
      → in_range r.exit_code ≡ true
      → run_fits hash name (received hash name r (stamp now)) (some r.exit_code) ≡ true
  unfolding received stage_names
  received-run_fits name r now m c = elim (Bool-cases (str_eq name "readiness")) [
    | inl first ↦
        let same : "readiness" ≡ name = sym ((eq_iff name "readiness").0 first) in
        subst (λ x. run_fits hash x (received hash x r (stamp now)) (some r.exit_code) ≡ true) same
          (ground (
            arith,
            received-uid_fits r (stamp now) (uid_of r) refl,
            empty_digest r.stdout,
            empty_digest r.stderr,
            c,
          ))
    | inr later ↦ rw later (
        ground (
          arith,
          m,
          c,
          empty_digest r.stdout,
          empty_digest r.stderr,
          eq_iff name "check",
          eq_iff name "apply",
          eq_iff name "verify",
          eq_iff "check" name,
          eq_iff "apply" name,
          eq_iff "verify" name,
          eq_iff "readiness" name,
          eq_iff (outcome_of name r.exit_code) (outcome_of name r.exit_code),
        ))
  ]

  -- The receipt of a run passes the check of a stored one.
  pub received-valid_receipt :
      (name : String) (r : SshResult) (now : ℕ)
      → contains stage_names name ≡ true
      → in_range r.exit_code ≡ true
      → length r.stdout ≤ 1048576
      → length r.stderr ≤ 1048576
      → 0 < now
      → valid_receipt hash name true (some (received hash name r (stamp now))) ≡ true
  unfolding valid_receipt received
  received-valid_receipt name r now m c a b t =
      ground (arith, received-bounds name r now a b t, received-run_fits name r now m c)

  -- The receipt of a stage that was not run
  pub skipped-valid_receipt :
      (now : ℕ)
      → 0 < now
      → valid_receipt hash "apply" false (some (skipped hash (stamp now))) ≡ true
  unfolding valid_receipt skipped
  skipped-valid_receipt now t = ground (arith, digests [], eq_iff (hash []) (hash []))
