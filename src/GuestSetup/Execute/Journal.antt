-- ===== src/GuestSetup/Execute/Journal.antt =====
-- The journal behind a guarded write of internal/guestsetup/stages.go
use virmill.Prelude.{
  ℕ, String, ◌≡◌, ◌∙◌, ap, subst, Option, none, some, List, [], if◌then◌else◌, str_eq, eq_iff,
  arith,
}
use virmill.Prelude.Table.{lookup}
use virmill.Domain.Error.{
  Result, ok, err, ◌>>=◌, bind_ok, then_ok, require_ok, ok_inj, err≢ok, or_err, no_rows, fail, Code,
}
use virmill.Domain.Job.{Job}
use virmill.Domain.Plan.{Plan, Step}
use virmill.Store.Db.{Db, job}
use virmill.Store.Metadata.{metadata_bytes, compare_put}
use virmill.Store.Metadata.Guarded.{compare_put-metadata_bytes}
use virmill.GuestSetup.Stages.{FrozenInput, StageResult, Codec, recovery, stage_kind, stages}
use virmill.GuestSetup.Checks.{safely, valid_uuid, find_job, check_step}
use virmill.GuestSetup.Execute.{inspect}

-- The record of a stage
abbrev pub entry : String → Db → Option String
entry id db = metadata_bytes stage_kind id db

pub safely_ok {ℓ} : {A : Type ℓ} (r : Result A) (a : A) → safely r ≡ ok a → r ≡ ok a
unfolding safely
safely_ok (ok b) a h = h
safely_ok (err e) a h = absurd (err≢ok _ a h)

-- What a guarded write has found and what it leaves
pub compare_put-entry :
    (id next : String) (previous : Option String) (db db' : Db)
    → safely (compare_put stage_kind id previous next db) ≡ ok db'
    → (entry id db ≡ previous) × (entry id db' ≡ some next) × (db'.jobs ≡ db.jobs)
unfolding compare_put
compare_put-entry id next previous db db' h =
    let put =
      compare_put-metadata_bytes stage_kind id next previous [] db db' (safely_ok _ db' h)
        stage_kind id in
    (
      put.0,
      ground (arith, put.1, eq_iff stage_kind stage_kind, eq_iff id id),
      ap (λ d. d.jobs) put.2,
    )

job_some : (o : Option Job) (j : Job) → or_err o no_rows ≡ ok j → o ≡ some j
job_some none j h = absurd (err≢ok no_rows j h)
job_some (some k) j h = ap some (ok_inj k j h)

pub find_job-lookup :
    (id : String) (p : Plan) (db : Db) (j : Job)
    → find_job id p db ≡ ok j
    → lookup id db.jobs ≡ some j
unfolding find_job job
find_job-lookup id p db j h =
    let (named, h1) = then_ok (if valid_uuid id then ok tt else err recovery) _ j h in
    let (k, found, h2) =
      bind_ok (safely (job id db))
        (λ k. if str_eq k.plan_id p.id then ok k else err (fail Code.source_changed)) j h1 in
    let (planned, h3) = require_ok (str_eq k.plan_id p.id) _ (ok k) j h2 in
    let same = ok_inj k j h3 in job_some (lookup id db.jobs) j (safely_ok _ k found ∙ ap ok same)

module _ (codec : Codec) where
  pub inspect-job :
      (id : String) (p : Plan) (input : FrozenInput) (step : Step) (db : Db)
      (read : Job × ℕ × List StageResult)
      → inspect codec id p input step db ≡ ok read
      → lookup id db.jobs ≡ some read.0
  unfolding inspect
  inspect-job id p input step db read h =
      let (j, found, h1) =
        bind_ok (find_job id p db)
          (λ j. check_step p step j >>= λ i. stages codec p input j db >>= λ rows. ok (j, i, rows))
          read h in
      let (i, number, h2) =
        bind_ok (check_step p step j) (λ i. stages codec p input j db >>= λ rows. ok (j, i, rows))
          read h1 in
      let (rows, staged, h3) =
        bind_ok (stages codec p input j db) (λ rows. ok (j, i, rows)) read h2 in
      subst (λ x. lookup id db.jobs ≡ some x.0) (ok_inj (j, i, rows) read h3)
        (find_job-lookup id p db j found)
