-- ===== src/GuestSetup/Execute.antt =====
-- `Execute` and `Reconcile` of internal/guestsetup/stages.go, behind the validation and the decoding
-- of the input. What SSH returns, the clock, and the job that a boundary reads are arguments. The
-- world has the journal, and each call of SSH with the journal at that time.
pub mod Journal
pub mod Once
pub mod Parts
pub mod Rows
pub mod After
pub mod Cases
pub mod Fits
pub mod Confirmed
use virmill.Prelude.{
  ℕ, ◌+◌, ◌*◌, String, Bool, true, false, not, ◌&&◌, ◌||◌, Option, none, some, List, [], ◌∷◌, ◌++◌,
  ltb, leb, ◌==◌, str_eq, if◌then◌else◌, length, get_elem?, take, every,
}
use virmill.Prelude.Pattern.{fits, five_groups, is_hex}
use virmill.Prelude.Digits.{codes}
use virmill.Domain.Error.{
  Err, Result, ok, err, fail, Code, no_rows, constraint, storage, plain, ◌>>=◌, ◌>>◌,
}
use virmill.Domain.Job.{Job, State}
use virmill.Domain.Plan.{Plan, Step}
use virmill.Store.Db.{Db, job}
use virmill.Store.Metadata.{metadata_bytes, compare_put}
use virmill.GuestSetup.Receipt.{
  Stamp, stamp, StageReceipt, SshResult, stage_names, completed, in_range, received, skipped,
}
use virmill.GuestSetup.Checks.{
  invalid, safe_failure, safely, valid_uuid, find_job, index_of, stage_number, same_step,
  check_number, check_step, boundary, complete_before, check_rows, script, timeout, is_supported,
  reads_back,
}
use virmill.GuestSetup.Stages.{
  ResourceKey, Target, Recipe, FrozenInput, StageIntent, StageRecord, StageResult, Codec,
  stage_kind, record_id, recovery, same_intent, runs, make_intent, stages,
}

pub record Call : Type 0 where
  pub target : Target
  pub content : String
  pub arguments : List String
  pub ssh_sha256 : String
  pub timeout_seconds : ℕ
  pub stored : Db

pub record World : Type 0 where
  pub db : Db
  pub calls : List Call

-- What SSH returns: an error, a result behind which the context is canceled, or a result
pub data Answer : Type 0 where
  broken canceled : Err → Answer
  finished : SshResult → Answer

-- What an execution reads of its surroundings: the clock before and behind the run, and the job at
-- each boundary
pub record Surroundings : Type 0 where
  pub began : ℕ
  pub ended : ℕ
  pub before_intent : Result Job
  pub before_run : Result Job
  pub behind : Result Job
  pub answer : Answer

abbrev pub Outcome : Type 0
Outcome = Result (Unit {0}) × World

abbrev pub attempt {ℓ} : {A : Type ℓ} → World → Result A → (A → Outcome) → Outcome
attempt w (err e) next = (err e, w)
attempt w (ok a) next = next a

-- The call of SSH for a stage
unfoldable pub make_call : FrozenInput → String → Db → Call
unfolding script timeout
make_call input name db = record {
  target = input.target;
  content = script input.recipe name;
  arguments = if str_eq name "readiness" then [] else input.arguments;
  ssh_sha256 = input.tool_sha256;
  timeout_seconds = timeout name input.recipe.timeout_seconds;
  stored = db;
}

-- The receipt is written.
unfoldable pub settle : String → Surroundings → StageReceipt → World → Db → Outcome
unfolding boundary completed
settle name s receipt w db =
    attempt (record w { db = db }) (boundary s.behind)
      λ _. (
        if completed name (some receipt)
            then ok tt
            else err (fail (Code.other "GUEST_RECIPE_FAILED")),
        record w { db = db },
      )

module _ (codec : Codec) where
  unfoldable pub read_back : StageRecord → Option String → Result String
  unfolding reads_back
  read_back rec none = err recovery
  read_back rec (some body) = if reads_back rec (codec.decode body) then ok body else err recovery

  abbrev pub receipt_text : StageRecord → StageReceipt → String
  receipt_text rec receipt = codec.encode (record rec { receipt = some receipt })

  -- The receipt is written behind the intent that was read back.
  unfoldable pub publish :
      String → String → Surroundings → StageRecord → String → StageReceipt → World → Outcome
  unfolding compare_put settle safely
  publish id name s rec previous receipt w =
      attempt w (safely (compare_put stage_kind id (some previous) (receipt_text rec receipt) w.db))
        (settle name s receipt w)

  -- SSH has returned.
  unfoldable pub conclude :
      String → String → Surroundings → StageRecord → String → Answer → World → Outcome
  unfolding publish received
  conclude id name s rec previous (broken e) w = (err (safe_failure e), w)
  conclude id name s rec previous (canceled e) w = (err e, w)
  conclude id name s rec previous (finished r) w =
      let published =
        publish id name s rec previous (received codec.hash name r (stamp s.ended)) w in
      if is_supported r then published else (err recovery, w)

  -- The call of SSH
  unfoldable pub call_ssh :
      FrozenInput
      → String
      → String
      → Surroundings
      → StageRecord
      → String
      → World
      → Unit {0}
      → Outcome
  unfolding conclude make_call
  call_ssh input id name s rec previous w _ =
      conclude id name s rec previous s.answer
        (record w { calls = w.calls ++ make_call input name w.db ∷ [] })

  -- The intent was read back.
  unfoldable pub proceed :
      FrozenInput → String → String → Surroundings → StageRecord → Bool → World → String → Outcome
  unfolding call_ssh publish skipped
  proceed input id name s rec true w previous =
      attempt w (boundary s.before_run) (call_ssh input id name s rec previous w)
  proceed input id name s rec false w previous =
      publish id name s rec previous (skipped codec.hash (stamp s.ended)) w

  -- The intent is stored.
  unfoldable pub run_stage :
      FrozenInput → String → String → Surroundings → StageRecord → Bool → World → Outcome
  unfolding metadata_bytes proceed
  run_stage input id name s rec run w =
      attempt w (read_back rec (metadata_bytes stage_kind id w.db))
        (proceed input id name s rec run w)

  unfoldable pub intent_record :
      Plan → FrozenInput → Job → String → Surroundings → Bool → StageRecord
  unfolding make_intent
  intent_record p input j name s run = record {
    intent = make_intent codec p input j name run (stamp s.began);
    receipt = none;
  }

  -- The job may go on.
  unfoldable pub store_intent :
      FrozenInput → String → String → Surroundings → StageRecord → Bool → World → Unit {0} → Outcome
  unfolding run_stage compare_put safely
  store_intent input id name s rec run w _ =
      attempt w (safely (compare_put stage_kind id none (codec.encode rec) w.db))
        λ db. run_stage input id name s rec run (record w { db = db })

  -- The checks have passed.
  unfoldable pub begin_stage :
      Plan → FrozenInput → Job → String → Surroundings → Bool → World → Outcome
  unfolding store_intent intent_record
  begin_stage p input j name s run w =
      attempt w (boundary s.before_intent)
        (store_intent input (record_id j name) name s (intent_record p input j name s run) run w)

  -- The step's number, with the rows of the stages
  unfoldable pub inspect :
      String → Plan → FrozenInput → Step → Db → Result (Job × ℕ × List StageResult)
  unfolding find_job check_step stages
  inspect id p input step db = do
    j ← find_job id p db
    i ← check_step p step j
    rows ← stages codec p input j db
    ok (j, i, rows)

  -- The rows are read.
  unfoldable pub start :
      Plan → FrozenInput → Step → Surroundings → World → Job × ℕ × List StageResult → Outcome
  unfolding check_rows begin_stage
  start p input step s w (j, i, rows) =
      attempt w (check_rows i rows) λ _. begin_stage p input j step.id s (runs step.id rows) w

  -- `Execute`
  unfoldable pub execute : String → Plan → FrozenInput → Step → Surroundings → World → Outcome
  unfolding inspect start
  execute id p input step s w = attempt w (inspect id p input step w.db) (start p input step s w)

  -- `Reconcile`, where the jobs are those that its two boundaries read
  unfoldable pub reconcile :
      String → Plan → FrozenInput → Step → Result Job → Result Job → Db → Result Bool
  unfolding inspect boundary complete_before
  reconcile id p input step before behind db = do
    boundary before
    (j, i, rows) ← inspect id p input step db
    (if complete_before (i + 1) rows then ok tt else err recovery)
    boundary behind
    ok true
