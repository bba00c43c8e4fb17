-- ===== src/GuestSetup/Execute/Cases.antt =====
-- The four stages of internal/guestsetup/stages.go, when the receipt of one of them is stored
use virmill.Prelude.{
  not-false, ℕ, ◌+◌, String, true, not, ◌≡◌, ◌⊎◌, sym, subst, inl, inr, none, some, List, str_eq,
  eq_iff, arith, Bool-cases,
}
use virmill.Domain.Error.{ok, guard_ok}
use virmill.Domain.Job.{Job}
use virmill.Domain.Plan.{Plan}
use virmill.Store.Db.{Db}
use virmill.GuestSetup.Receipt.{stage_names}
use virmill.GuestSetup.Stages.{
  FrozenInput, StageRecord, StageResult, Codec, recovery, record_id, runs,
}
use virmill.GuestSetup.Checks.{complete_before, check_rows, stage_number}
use virmill.GuestSetup.Execute.After.{
  Others, Confirms, after_first, after_second, after_third, after_fourth,
}
use virmill.GuestSetup.Execute.Journal.{entry}
use virmill.GuestSetup.Execute.Rows.{Four, rows_of, Kept}

abbrev pub Stage : String → ℕ → Type 0
Stage name i =
    ((name ≡ "readiness") × (i ≡ 0))
    ⊎ ((name ≡ "check") × (i ≡ 1))
    ⊎ ((name ≡ "apply") × (i ≡ 2))
    ⊎ ((name ≡ "verify") × (i ≡ 3))

some_number : (n i : ℕ) → some n ≡ some i → i ≡ n
some_number n i h = cc

pub stage_number-Stage : (name : String) (i : ℕ) → stage_number name ≡ some i → Stage name i
unfolding stage_number stage_names
stage_number-Stage name i h = elim (Bool-cases (str_eq name "readiness")) [
  | inl a ↦ inl ((eq_iff name _).0 a, some_number 0 i (rw a at h))
  | inr a ↦ elim (Bool-cases (str_eq name "check")) [
    | inl b ↦ inr (inl ((eq_iff name _).0 b, some_number 1 i (rw (a, b) at h)))
    | inr b ↦ elim (Bool-cases (str_eq name "apply")) [
      | inl c ↦ inr (inr (inl ((eq_iff name _).0 c, some_number 2 i (rw (a, b, c) at h))))
      | inr c ↦ elim (Bool-cases (str_eq name "verify")) [
        | inl d ↦ inr (inr (inr ((eq_iff name _).0 d, some_number 3 i (rw (a, b, c, d) at h))))
        | inr d ↦ let no : none ≡ some i = rw (a, b, c, d) at h in absurd cc
      ]
    ]
  ]
]

pub check_rows_complete :
    (i : ℕ) (rows : List StageResult) → check_rows i rows ≡ ok tt → complete_before i rows ≡ true
unfolding check_rows
check_rows_complete i rows h =
    not-false (complete_before i rows) (guard_ok (not (complete_before i rows)) recovery _ tt h).0

module _ (codec : Codec) (p : Plan) (input : FrozenInput) (j : Job) (db0 db1 : Db)
    (f : Four codec p input j db0) (rec : StageRecord) where
  abbrev pub After : String → ℕ → Type 0
  After name i =
      complete_before i (rows_of codec p input j db0 f) ≡ true
      → entry (record_id j name) db0 ≡ none
      → Others codec p input j db0 db1 name
      → Kept codec p input j name (runs name (rows_of codec p input j db0 f)) rec db1
      → Confirms codec p input j db0 db1 (i + 1)

  pub Stage-After : (name : String) (i : ℕ) → Stage name i → After name i
  unfolding complete_before
  Stage-After name i (inl (n, k)) =
      subst (λ x. After x i) (sym n)
        (subst (λ y. After "readiness" y) (sym k)
          (λ d e o t. after_first codec p input j db0 db1 f rec e o t))
  Stage-After name i (inr (inl (n, k))) =
      subst (λ x. After x i) (sym n)
        (subst (λ y. After "check" y) (sym k)
          (λ d e o t. after_second codec p input j db0 db1 f rec (ground arith) e o t))
  Stage-After name i (inr (inr (inl (n, k)))) =
      subst (λ x. After x i) (sym n)
        (subst (λ y. After "apply" y) (sym k)
          (λ d e o t.
            after_third codec p input j db0 db1 f rec (ground arith) (ground arith) e o t))
  Stage-After name i (inr (inr (inr (n, k)))) =
      subst (λ x. After x i) (sym n)
        (subst (λ y. After "verify" y) (sym k)
          (λ d e o t.
            after_fourth codec p input j db0 db1 f rec (ground arith) (ground arith) (ground arith)
              o t))
