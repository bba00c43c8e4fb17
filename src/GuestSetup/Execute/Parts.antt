-- ===== src/GuestSetup/Execute/Parts.antt =====
-- What an execution of internal/guestsetup/stages.go that returns no error has done
use virmill.Prelude.{
  ℕ, String, Bool, true, false, ◌≡◌, refl, sym, ◌∙◌, subst, inl, inr, Option, none, some, List, [],
  ◌∷◌, ◌++◌, if◌then◌else◌, str_eq, arith, Bool-cases,
}
use virmill.Domain.Error.{Result, ok, err, fail, Code, require_ok, err≢ok}
use virmill.Domain.Job.{Job}
use virmill.Domain.Plan.{Plan, Step}
use virmill.Store.Db.{Db}
use virmill.Store.Metadata.{compare_put}
use virmill.Store.Metadata.Guarded.{compare_put-metadata_bytes}
use virmill.GuestSetup.Receipt.{stamp, StageReceipt, completed, received, skipped}
use virmill.GuestSetup.Stages.{
  FrozenInput, StageRecord, StageResult, Codec, recovery, stage_kind, record_id, runs,
}
use virmill.GuestSetup.Checks.{safely, safe_failure, boundary, check_rows, is_supported}
use virmill.GuestSetup.Execute.{
  World, Answer, broken, canceled, finished, Surroundings, Outcome, attempt, make_call, read_back,
  receipt_text, settle, publish, conclude, call_ssh, proceed, run_stage, intent_record,
  store_intent, begin_stage, inspect, start, execute,
}
use virmill.GuestSetup.Execute.Journal.{entry, compare_put-entry, safely_ok}

-- An attempt that returns no error has gone on.
attempt_ok {ℓ} :
    {A : Type ℓ} (w : World) (r : Result A) (next : A → Outcome)
    → (attempt w r next).0 ≡ ok tt
    → (a : A) × (r ≡ ok a) × ((next a).0 ≡ ok tt) × (attempt w r next ≡ next a)
attempt_ok w (err e) next h = absurd (err≢ok e tt h)
attempt_ok w (ok a) next h = (a, refl, h, refl)

-- A write changes this entry alone.
pub compare_put-other :
    (id k next : String) (previous : Option String) (db db' : Db)
    → safely (compare_put stage_kind id previous next db) ≡ ok db'
    → str_eq id k ≡ false
    → entry k db' ≡ entry k db
unfolding compare_put
compare_put-other id k next previous db db' h n =
    let put =
      compare_put-metadata_bytes stage_kind id next previous [] db db' (safely_ok _ db' h)
        stage_kind k in
    ground (arith, put.1, n)

-- The receipt of a stage that was run, and of one that was not
abbrev pub answered : String → ℕ → (List ℕ → String) → Answer → StageReceipt
answered name now hash (finished r) = received hash name r (stamp now)
answered name now hash (broken e) = skipped hash (stamp now)
answered name now hash (canceled e) = skipped hash (stamp now)

abbrev pub receipt_of : (List ℕ → String) → String → Surroundings → Bool → StageReceipt
receipt_of hash name s false = skipped hash (stamp s.ended)
receipt_of hash name s true = answered name s.ended hash s.answer

-- SSH has returned a result that is supported, where it was called.
abbrev pub Supported : Bool → Answer → Type 0
Supported false a = Unit
Supported true (finished r) = is_supported r ≡ true
Supported true _ = ⊥

module _ (codec : Codec) (id name : String) (s : Surroundings) (rec : StageRecord) where
  -- The receipt is stored, and nothing else is changed.
  pub record Left (receipt : StageReceipt) (db db' : Db) : Type 0 where
    pub written : entry id db' ≡ some (receipt_text codec rec receipt)
    pub others : (k : String) → str_eq id k ≡ false → entry k db' ≡ entry k db
    pub jobs : db'.jobs ≡ db.jobs
    pub successful : completed name (some receipt) ≡ true

  publish-Left :
      (previous : String) (receipt : StageReceipt) (w : World)
      → (publish codec id name s rec previous receipt w).0 ≡ ok tt
      → Left receipt w.db (publish codec id name s rec previous receipt w).1.db
  unfolding publish settle
  publish-Left previous receipt w h =
      let (db, put, h1, same) =
        attempt_ok w
          (safely (compare_put stage_kind id (some previous) (receipt_text codec rec receipt) w.db))
          (settle name s receipt w) h in
      let (done, free, h2, same2) =
        attempt_ok (record w { db = db }) (boundary s.behind)
          (λ _. (
            if completed name (some receipt)
                then ok tt
                else err (fail (Code.other "GUEST_RECIPE_FAILED")),
            record w { db = db },
          ))
          h1 in
      let stored =
        compare_put-entry id (receipt_text codec rec receipt) (some previous) w.db db put in
      let left : Left receipt w.db db = record {
        written = stored.1;
        others = λ k n. compare_put-other id k _ (some previous) w.db db put n;
        jobs = stored.2;
        successful = (require_ok (completed name (some receipt)) _ (ok tt) tt h2).0;
      } in
      subst (λ o. Left receipt w.db o.1.db) (sym (same ∙ same2)) left

  conclude-Left :
      (previous : String) (a : Answer) (w : World)
      → (conclude codec id name s rec previous a w).0 ≡ ok tt
      → Supported true a
        × Left
            (answered name s.ended codec.hash a)
            w.db
            (conclude codec id name s rec previous a w).1.db
  unfolding conclude
  conclude-Left previous (broken e) w h = absurd (err≢ok (safe_failure e) tt h)
  conclude-Left previous (canceled e) w h = absurd (err≢ok e tt h)
  conclude-Left previous (finished r) w h = elim (Bool-cases (is_supported r)) [
    | inl t ↦
        (t, rw t (publish-Left previous (received codec.hash name r (stamp s.ended)) w (rw t at h)))
    | inr f ↦ absurd (err≢ok recovery tt (rw f at h))
  ]

  abbrev Ended : Bool → World → Outcome → Type 0
  Ended run w o = Supported run s.answer × Left (receipt_of codec.hash name s run) w.db o.1.db

  proceed-Ended :
      (input : FrozenInput) (run : Bool) (w : World) (previous : String)
      → (proceed codec input id name s rec run w previous).0 ≡ ok tt
      → Ended run w (proceed codec input id name s rec run w previous)
  unfolding proceed call_ssh
  proceed-Ended input false w previous h =
      (tt, publish-Left previous (skipped codec.hash (stamp s.ended)) w h)
  proceed-Ended input true w previous h =
      let (done, free, h1, same) =
        attempt_ok w (boundary s.before_run) (call_ssh codec input id name s rec previous w) h in
      subst (Ended true w) (sym same) (
        conclude-Left previous s.answer
          (record w { calls = w.calls ++ make_call input name w.db ∷ [] }) h1)

  run_stage-Ended :
      (input : FrozenInput) (run : Bool) (w : World)
      → (run_stage codec input id name s rec run w).0 ≡ ok tt
      → Ended run w (run_stage codec input id name s rec run w)
  unfolding run_stage
  run_stage-Ended input run w h =
      let (previous, found, h1, same) =
        attempt_ok w (read_back codec rec (entry id w.db)) (proceed codec input id name s rec run w)
          h in
      subst (Ended run w) (sym same) (proceed-Ended input run w previous h1)

  -- There was no record before.
  abbrev Stored : Bool → World → Outcome → Type 0
  Stored run w o = (entry id w.db ≡ none) × Ended run w o

  store_intent-Stored :
      (input : FrozenInput) (run : Bool) (w : World)
      → (store_intent codec input id name s rec run w tt).0 ≡ ok tt
      → Stored run w (store_intent codec input id name s rec run w tt)
  unfolding store_intent
  store_intent-Stored input run w h =
      let (db, put, h1, same) =
        attempt_ok w (safely (compare_put stage_kind id none (codec.encode rec) w.db))
          (λ db. run_stage codec input id name s rec run (record w { db = db })) h in
      let (fresh, stored, jobs) = compare_put-entry id (codec.encode rec) none w.db db put in
      let (supported, left) = run_stage-Ended input run (record w { db = db }) h1 in
      subst (Stored run w) (sym same) (
        fresh,
        (
          supported,
          record {
            written = left.written;
            others = λ k n. left.others k n ∙ compare_put-other id k _ none w.db db put n;
            jobs = left.jobs ∙ jobs;
            successful = left.successful;
          },
        ),
      )

module _ (codec : Codec) (p : Plan) (input : FrozenInput) (step : Step) (s : Surroundings) where
  -- The parts of an execution
  pub record Executed (id : String) (w : World) (db : Db) : Type 0 where
    pub job : Job
    pub number : ℕ
    pub rows : List StageResult
    pub inspected : inspect codec id p input step w.db ≡ ok (job, number, rows)
    pub checked : check_rows number rows ≡ ok tt
    pub fresh : entry (record_id job step.id) w.db ≡ none
    pub supported : Supported (runs step.id rows) s.answer
    pub left :
        Left codec
          (record_id job step.id)
          step.id
          s
          (intent_record codec p input job step.id s (runs step.id rows))
          (receipt_of codec.hash step.id s (runs step.id rows))
          w.db
          db

  pub execute-Executed :
      (id : String) (w : World)
      → (execute codec id p input step s w).0 ≡ ok tt
      → Executed id w (execute codec id p input step s w).1.db
  unfolding execute start begin_stage
  execute-Executed id w h =
      let (read, inspected, h1, same) =
        attempt_ok w (inspect codec id p input step w.db) (start codec p input step s w) h in
      let j = read.0 in
      let rows = read.2 in
      let run = runs step.id rows in
      let rec = intent_record codec p input j step.id s run in
      let (done, checked, h2, same2) =
        attempt_ok w (check_rows read.1 rows) (λ _. begin_stage codec p input j step.id s run w)
          h1 in
      let (gone, free, h3, same3) =
        attempt_ok w (boundary s.before_intent)
          (store_intent codec input (record_id j step.id) step.id s rec run w) h2 in
      let (fresh, (supported, left)) =
        store_intent-Stored codec (record_id j step.id) step.id s rec input run w h3 in
      subst (λ o. Executed id w o.1.db) (sym (same ∙ same2 ∙ same3))
        (record {
          job = j;
          number = read.1;
          rows = rows;
          inspected = inspected;
          checked = checked;
          fresh = fresh;
          supported = supported;
          left = left;
        })
