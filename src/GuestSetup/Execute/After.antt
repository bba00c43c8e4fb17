-- ===== src/GuestSetup/Execute/After.antt =====
-- The rows of internal/guestsetup/stages.go when the receipt of the next stage is stored
use Prim.Native.String.{◌++◌ as append}
use text.Mathlib.TextLemmas.{append_cancel_left}
use virmill.Prelude.{
  ℕ, String, Bool, true, false, ◌≡◌, refl, sym, ◌∙◌, ap, subst, none, List, [], ◌∷◌, str_eq, eq_iff,
  arith,
}
use virmill.Domain.Job.{Job}
use virmill.Domain.Plan.{Plan}
use virmill.Store.Db.{Db}
use virmill.GuestSetup.Stages.{
  FrozenInput, StageRecord, StageResult, Codec, record_id, blank_row, runs, row_of,
}
use virmill.GuestSetup.Checks.{complete_before}
use virmill.GuestSetup.Execute.Journal.{entry}
use virmill.GuestSetup.Execute.Rows.{
  Reads, Four, rows_of, unfinished-none, none-blank, none-Reads, Kept, Kept-Reads,
}

pub record_id-differs :
    (j : Job) (a b : String) → str_eq a b ≡ false → str_eq (record_id j a) (record_id j b) ≡ false
record_id-differs j a b d = ground (
  arith,
  d,
  eq_iff a b,
  eq_iff (record_id j a) (record_id j b),
  append_cancel_left (append j.id ":") a b,
)

module _ (codec : Codec) (p : Plan) (input : FrozenInput) (j : Job) (db0 db1 : Db) where
  -- The other stages have the same records.
  abbrev pub Others : String → Type 0
  Others name =
      (n : String) → str_eq name n ≡ false → entry (record_id j n) db1 ≡ entry (record_id j n) db0

  -- Rows of the new journal of which the first ones, as many as said, are complete
  abbrev pub Confirms : ℕ → Type 0
  Confirms i =
      (f : Four codec p input j db1) × (complete_before i (rows_of codec p input j db1 f) ≡ true)

  -- A row before the new one is as it was.
  same_row :
      (name n : String) (rows : List StageResult) (prior : Bool) (row : StageResult)
      → Others name
      → str_eq name n ≡ false
      → Reads codec p input j n rows prior db0 row
      → Reads codec p input j n rows prior db1 row
  same_row name n rows prior row o d h = rw (o n d) h

  open_row :
      (name : String) (rows : List StageResult) (prior : Bool) (row : StageResult)
      → entry (record_id j name) db0 ≡ none
      → Reads codec p input j name rows prior db0 row
      → row.complete ≡ false
  open_row name rows prior row n h =
      ap (λ r. r.complete) (none-blank codec p input j name rows prior db0 row n h)

  -- A row behind one that was not complete has no record.
  later_row :
      (name n : String) (rows : List StageResult) (prior : Bool) (row : StageResult)
      → Others name
      → str_eq name n ≡ false
      → prior ≡ false
      → Reads codec p input j n rows prior db0 row
      → (entry (record_id j n) db1 ≡ none) × (row.complete ≡ false)
  later_row name n rows prior row o d c h =
      let (gone, blank) =
        unfinished-none codec p input j n rows db0 row
          (subst (λ b. Reads codec p input j n rows b db0 row) c h) in
      (o n d ∙ gone, ap (λ r. r.complete) blank)

  -- The row of the new record
  new_row :
      (name : String) (rows : List StageResult) (prior : Bool) (rec : StageRecord)
      → prior ≡ true
      → Kept codec p input j name (runs name rows) rec db1
      → Reads codec p input j name rows prior db1 (row_of name (runs name rows) rec)
  new_row name rows prior rec c k =
      subst (λ b. Reads codec p input j name rows b db1 (row_of name (runs name rows) rec)) (sym c)
        (Kept-Reads codec p input j name rows rec db1 k)

  pub after_first :
      (f : Four codec p input j db0) (rec : StageRecord)
      → entry (record_id j "readiness") db0 ≡ none
      → Others "readiness"
      → Kept codec p input j "readiness" true rec db1
      → Confirms 1
  unfolding complete_before
  after_first f rec n o k =
      let c1 = open_row "readiness" [] true f.first n f.read_first in
      let (n2, c2) = later_row "readiness" "check" _ _ f.second o refl c1 f.read_second in
      let (n3, c3) = later_row "readiness" "apply" _ _ f.third o refl c2 f.read_third in
      let (n4, c4) = later_row "readiness" "verify" _ _ f.fourth o refl c3 f.read_fourth in
      (
        record {
          first = row_of "readiness" true rec;
          second = blank_row "check";
          third = blank_row "apply";
          fourth = blank_row "verify";
          read_first = new_row "readiness" [] true rec refl k;
          read_second = none-Reads codec p input j "check" _ _ db1 n2;
          read_third = none-Reads codec p input j "apply" _ _ db1 n3;
          read_fourth = none-Reads codec p input j "verify" _ _ db1 n4;
        },
        rw k.complete refl,
      )

  pub after_second :
      (f : Four codec p input j db0) (rec : StageRecord)
      → f.first.complete ≡ true
      → entry (record_id j "check") db0 ≡ none
      → Others "check"
      → Kept codec p input j "check" true rec db1
      → Confirms 2
  unfolding complete_before
  after_second f rec d1 n o k =
      let c2 = open_row "check" _ _ f.second n f.read_second in
      let (n3, c3) = later_row "check" "apply" _ _ f.third o refl c2 f.read_third in
      let (n4, c4) = later_row "check" "verify" _ _ f.fourth o refl c3 f.read_fourth in
      (
        record {
          first = f.first;
          second = row_of "check" true rec;
          third = blank_row "apply";
          fourth = blank_row "verify";
          read_first = same_row "check" "readiness" [] true f.first o refl f.read_first;
          read_second = new_row "check" (f.first ∷ []) f.first.complete rec d1 k;
          read_third = none-Reads codec p input j "apply" _ _ db1 n3;
          read_fourth = none-Reads codec p input j "verify" _ _ db1 n4;
        },
        rw (d1, k.complete) refl,
      )

  pub after_third :
      (f : Four codec p input j db0) (rec : StageRecord)
      → f.first.complete ≡ true
      → f.second.complete ≡ true
      → entry (record_id j "apply") db0 ≡ none
      → Others "apply"
      → Kept codec p input j "apply" (runs "apply" (f.first ∷ f.second ∷ [])) rec db1
      → Confirms 3
  unfolding complete_before
  after_third f rec d1 d2 n o k =
      let c3 = open_row "apply" _ _ f.third n f.read_third in
      let (n4, c4) = later_row "apply" "verify" _ _ f.fourth o refl c3 f.read_fourth in
      (
        record {
          first = f.first;
          second = f.second;
          third = row_of "apply" (runs "apply" (f.first ∷ f.second ∷ [])) rec;
          fourth = blank_row "verify";
          read_first = same_row "apply" "readiness" [] true f.first o refl f.read_first;
          read_second = same_row "apply" "check" _ _ f.second o refl f.read_second;
          read_third = new_row "apply" (f.first ∷ f.second ∷ []) f.second.complete rec d2 k;
          read_fourth = none-Reads codec p input j "verify" _ _ db1 n4;
        },
        rw (d1, d2, k.complete) refl,
      )

  pub after_fourth :
      (f : Four codec p input j db0) (rec : StageRecord)
      → f.first.complete ≡ true
      → f.second.complete ≡ true
      → f.third.complete ≡ true
      → Others "verify"
      → Kept codec p input j "verify" true rec db1
      → Confirms 4
  unfolding complete_before
  after_fourth f rec d1 d2 d3 o k =
      let before = f.first ∷ f.second ∷ f.third ∷ [] in
      (
        record {
          first = f.first;
          second = f.second;
          third = f.third;
          fourth = row_of "verify" true rec;
          read_first = same_row "verify" "readiness" [] true f.first o refl f.read_first;
          read_second = same_row "verify" "check" _ _ f.second o refl f.read_second;
          read_third = same_row "verify" "apply" _ _ f.third o refl f.read_third;
          read_fourth = new_row "verify" before f.third.complete rec d3 k;
        },
        rw (d1, d2, d3, k.complete) refl,
      )
