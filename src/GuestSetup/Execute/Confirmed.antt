-- ===== src/GuestSetup/Execute/Confirmed.antt =====
-- What an execution of internal/guestsetup/stages.go completes, a reconciliation confirms.
use Prim.Native.String.{len}
use virmill.Prelude.{
  ℕ, ◌≤◌, ◌<◌, String, Bool, true, false, ◌&&◌, ◌≡◌, refl, sym, ◌∙◌, ap, subst, inl, inr, some,
  List, ◌==◌, eq_iff, arith, Option-cases, contains,
}
use virmill.Domain.Error.{Result, ok, ◌>>=◌, bind_ok, ok_inj, err≢ok}
use virmill.Domain.Job.{Job}
use virmill.Domain.Plan.{Plan, Step}
use virmill.Store.Db.{Db}
use virmill.GuestSetup.Receipt.{stage_names, digest_fits}
use virmill.GuestSetup.Stages.{FrozenInput, StageResult, Codec, record_id, runs, row_of, stages}
use virmill.GuestSetup.Checks.{boundary, complete_before, stage_number, check_step, find_job}
use virmill.GuestSetup.Execute.{World, Surroundings, inspect, execute, reconcile}
use virmill.GuestSetup.Execute.After.{record_id-differs}
use virmill.GuestSetup.Execute.Parts.{Executed, execute-Executed}
use virmill.GuestSetup.Execute.Rows.{stages-Four, Four-stages, Kept}
use virmill.GuestSetup.Execute.Cases.{Stage, stage_number-Stage, check_rows_complete, Stage-After}
use virmill.GuestSetup.Execute.Fits.{with_receipt, with_receipt-fits}
use virmill.Prelude.Table.{lookup}
use virmill.Domain.Error.{require_ok}
use virmill.Prelude.{get_elem?}
use virmill.Store.Db.{job}
use virmill.GuestSetup.Execute.{invalid, same_step}
use virmill.GuestSetup.Execute.Journal.{find_job-lookup}

runs_apply : (name : String) (rows : List StageResult) → runs name rows ≡ false → name ≡ "apply"
runs_apply name rows h = ground (arith, eq_iff name "apply")

known_name : (name : String) (i : ℕ) → Stage name i → contains stage_names name ≡ true
unfolding stage_names
known_name name i (inl (n, k)) = rw n refl
known_name name i (inr (inl (n, k))) = rw n refl
known_name name i (inr (inr (inl (n, k)))) = rw n refl
known_name name i (inr (inr (inr (n, k)))) = rw n refl

find_job-jobs :
    (id : String) (p : Plan) (db db' : Db)
    → db'.jobs ≡ db.jobs
    → find_job id p db' ≡ find_job id p db
unfolding find_job job
find_job-jobs id p db db' h = ap (λ t. find_job id p (record db { jobs = t })) h

check_step-number :
    (p : Plan) (step : Step) (j : Job) (i : ℕ)
    → check_step p step j ≡ ok i
    → stage_number step.id ≡ some i
unfolding check_step
check_step-number p step j i h = elim (Option-cases (stage_number step.id)) [
  | inl n ↦ absurd (err≢ok invalid i (rw n at h))
  | inr (k, n) ↦
      let same =
        require_ok (same_step step (get_elem? p.steps k) && j.step == k) invalid (ok k) i
          (rw n at h) in
      n ∙ ap some (ok_inj k i same.1)
]

-- The parts of an inspection
abbrev Inspected :
    Codec → String → Plan → FrozenInput → Step → Db → Job → ℕ → List StageResult → Type 0
Inspected codec id p input step db j i rows =
    (find_job id p db ≡ ok j) × (check_step p step j ≡ ok i) × (stages codec p input j db ≡ ok rows)

inspect_parts :
    (codec : Codec) (id : String) (p : Plan) (input : FrozenInput) (step : Step) (db : Db) (j : Job)
    (i : ℕ) (rows : List StageResult)
    → inspect codec id p input step db ≡ ok (j, i, rows)
    → Inspected codec id p input step db j i rows
unfolding inspect
inspect_parts codec id p input step db j i rows h =
    let (j', found, h1) =
      bind_ok (find_job id p db)
        (λ j. check_step p step j >>= λ i. stages codec p input j db >>= λ rows. ok (j, i, rows))
        (j, i, rows) h in
    let (i', number, h2) =
      bind_ok (check_step p step j') (λ i. stages codec p input j' db >>= λ rows. ok (j', i, rows))
        (j, i, rows) h1 in
    let (rows', staged, h3) =
      bind_ok (stages codec p input j' db) (λ rows. ok (j', i', rows)) (j, i, rows) h2 in
    subst (λ x. Inspected codec id p input step db x.0 x.1 x.2)
      (ok_inj (j', i', rows') (j, i, rows) h3) (found, number, staged)

module _ (codec : Codec) (id : String) (p : Plan) (input : FrozenInput) (step : Step)
    (s : Surroundings) (w : World)
    (digests : (text : List ℕ) → digest_fits (codec.hash text) ≡ true) (started : 0 < s.began)
    (later : (j : Job) → lookup id w.db.jobs ≡ some j → j.created_at ≤ s.began)
    (ended : s.began ≤ s.ended)
    (small : (j : Job) (run : Bool)
      → lookup id w.db.jobs ≡ some j
      → len (codec.encode (with_receipt codec p input j step.id s run)) ≤ 16384)
    (decodes : (j : Job) (run : Bool)
      → lookup id w.db.jobs ≡ some j
      → codec.decode (codec.encode (with_receipt codec p input j step.id s run))
        ≡ some (with_receipt codec p input j step.id s run)) where
  -- The new record is kept.
  new-Kept :
      (ex : Executed codec p input step s id w (execute codec id p input step s w).1.db)
      → lookup id w.db.jobs ≡ some ex.job
      → contains stage_names step.id ≡ true
      → Kept codec p input ex.job step.id
          (runs step.id ex.rows)
          (with_receipt codec p input ex.job step.id s (runs step.id ex.rows))
          (execute codec id p input step s w).1.db
  unfolding with_receipt row_of
  new-Kept ex found known =
      let run = runs step.id ex.rows in
      let tiny = small ex.job run found in
      record {
        body = codec.encode (with_receipt codec p input ex.job step.id s run);
        found = ex.left.written;
        small = ground (arith, tiny);
        decoded = decodes ex.job run found;
        fits =
            with_receipt-fits codec p input ex.job step.id s digests known started
              (later ex.job found) ended run (runs_apply step.id ex.rows) ex.supported;
        complete = ex.left.successful;
      }

  confirms :
      (ex : Executed codec p input step s id w (execute codec id p input step s w).1.db)
      (before behind : Result Job)
      → boundary before ≡ ok tt
      → boundary behind ≡ ok tt
      → reconcile codec id p input step before behind (execute codec id p input step s w).1.db
        ≡ ok true
  unfolding reconcile inspect
  confirms ex before behind b e =
      let db = (execute codec id p input step s w).1.db in
      let j = ex.job in
      let (found, number, staged) =
        inspect_parts codec id p input step w.db j ex.number ex.rows ex.inspected in
      let there = find_job-lookup id p w.db j found in
      let stage =
        stage_number-Stage step.id ex.number (check_step-number p step j ex.number number) in
      let (f, same) = stages-Four codec p input j w.db ex.rows staged in
      let done = check_rows_complete ex.number ex.rows ex.checked in
      let kept = new-Kept ex there (known_name step.id ex.number stage) in
      let rec = with_receipt codec p input j step.id s (runs step.id ex.rows) in
      let (f', complete) =
        Stage-After codec p input j w.db db f rec step.id ex.number stage
          (subst (λ r. complete_before ex.number r ≡ true) (sym same) done) ex.fresh
          (λ n d. ex.left.others (record_id j n) (record_id-differs j step.id n d))
          (subst (λ r. Kept codec p input j step.id (runs step.id r) rec db) (sym same) kept) in
      let found' : find_job id p db ≡ ok j = find_job-jobs id p w.db db ex.left.jobs ∙ found in
      rw (b, found', number, Four-stages codec p input j db f', complete, e) refl

  -- A step whose execution returns no error is confirmed by its reconciliation while the job is not
  -- canceled, if the digests are hexadecimal, the clock goes forward from the creation of the job,
  -- and the record with the receipt has at most 16384 bytes and is decoded as it was encoded.
  pub reconcile-execute :
      (before behind : Result Job)
      → (execute codec id p input step s w).0 ≡ ok tt
      → boundary before ≡ ok tt
      → boundary behind ≡ ok tt
      → reconcile codec id p input step before behind (execute codec id p input step s w).1.db
        ≡ ok true
  reconcile-execute before behind h =
      confirms (execute-Executed codec p input step s id w h) before behind
