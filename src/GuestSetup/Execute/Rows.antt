-- ===== src/GuestSetup/Execute/Rows.antt =====
-- The rows that `stages` of internal/guestsetup/stages.go reads before and after a receipt is stored
use Prim.Native.String.{len}
use virmill.Prelude.{
  String, Bool, true, false, ◌≡◌, refl, sym, inl, inr, none, some, List, [], ◌∷◌, ltb, Option-cases,
}
use virmill.Domain.Error.{ok, bind_ok, ok_inj, err≢ok}
use virmill.Domain.Job.{Job}
use virmill.Domain.Plan.{Plan}
use virmill.Store.Db.{Db}
use virmill.GuestSetup.Receipt.{stage_names}
use virmill.GuestSetup.Stages.{
  FrozenInput, StageRecord, StageResult, Codec, recovery, record_id, blank_row, runs, row_of,
  record_fits, check_record, read_stage, load, stages,
}
use virmill.GuestSetup.Execute.Journal.{entry}

module _ (codec : Codec) (p : Plan) (input : FrozenInput) (j : Job) where
  abbrev pub Reads : String → List StageResult → Bool → Db → StageResult → Type 0
  Reads name rows prior db row =
      read_stage codec p input j name rows prior (entry (record_id j name) db) ≡ ok row

  -- The four rows
  pub record Four (db : Db) : Type 0 where
    pub first : StageResult
    pub second : StageResult
    pub third : StageResult
    pub fourth : StageResult
    pub read_first : Reads "readiness" [] true db first
    pub read_second : Reads "check" (first ∷ []) first.complete db second
    pub read_third : Reads "apply" (first ∷ second ∷ []) second.complete db third
    pub read_fourth : Reads "verify" (first ∷ second ∷ third ∷ []) third.complete db fourth

  abbrev pub rows_of : (db : Db) → Four db → List StageResult
  rows_of db f = f.first ∷ f.second ∷ f.third ∷ f.fourth ∷ []

  pub stages-Four :
      (db : Db) (rows : List StageResult)
      → stages codec p input j db ≡ ok rows
      → (f : Four db) × (rows_of db f ≡ rows)
  unfolding stages load stage_names
  stages-Four db rows h =
      let (a, ra, h1) = bind_ok _ _ rows h in
      let (b, rb, h2) = bind_ok _ _ rows h1 in
      let (c, rc, h3) = bind_ok _ _ rows h2 in
      let (d, rd, h4) = bind_ok _ _ rows h3 in
      (
        record {
          first = a;
          second = b;
          third = c;
          fourth = d;
          read_first = ra;
          read_second = rb;
          read_third = rc;
          read_fourth = rd;
        },
        ok_inj _ rows h4,
      )

  pub Four-stages : (db : Db) (f : Four db) → stages codec p input j db ≡ ok (rows_of db f)
  unfolding stages load stage_names
  Four-stages db f = rw (f.read_first, f.read_second, f.read_third, f.read_fourth) refl

  -- Behind a stage that is not complete there is no record.
  pub unfinished-none :
      (name : String) (rows : List StageResult) (db : Db) (row : StageResult)
      → Reads name rows false db row
      → (entry (record_id j name) db ≡ none) × (row ≡ blank_row name)
  unfolding read_stage
  unfinished-none name rows db row h = elim (Option-cases (entry (record_id j name) db)) [
    | inl n ↦ (n, sym (ok_inj (blank_row name) row (rw n at h)))
    | inr (body, b) ↦ absurd (err≢ok recovery row (rw b at h))
  ]

  pub none-blank :
      (name : String) (rows : List StageResult) (prior : Bool) (db : Db) (row : StageResult)
      → entry (record_id j name) db ≡ none
      → Reads name rows prior db row
      → row ≡ blank_row name
  unfolding read_stage
  none-blank name rows prior db row n h = sym (ok_inj (blank_row name) row (rw n at h))

  pub none-Reads :
      (name : String) (rows : List StageResult) (prior : Bool) (db : Db)
      → entry (record_id j name) db ≡ none
      → Reads name rows prior db (blank_row name)
  unfolding read_stage
  none-Reads name rows prior db n = rw n refl

  -- A stored record that fits
  pub record Kept (name : String) (run : Bool) (rec : StageRecord) (db : Db) : Type 0 where
    pub body : String
    pub found : entry (record_id j name) db ≡ some body
    pub small : ltb 16384 (len body) ≡ false
    pub decoded : codec.decode body ≡ some rec
    pub fits : record_fits codec p input j name run rec ≡ true
    pub complete : (row_of name run rec).complete ≡ true

  pub Kept-Reads :
      (name : String) (rows : List StageResult) (rec : StageRecord) (db : Db)
      → Kept name (runs name rows) rec db
      → Reads name rows true db (row_of name (runs name rows) rec)
  unfolding read_stage check_record
  Kept-Reads name rows rec db k = rw (k.found, k.small, k.decoded, k.fits) refl
