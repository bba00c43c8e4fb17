-- ===== src/GuestSetup/Checks.antt =====
-- The checks of internal/guestsetup/stages.go on a job, a step, the rows of the stages and a record
-- that is read back, with `safeFailure` and `script` of service.go
use virmill.Prelude.{
  ℕ, ◌+◌, String, Bool, true, false, not, ◌&&◌, ◌||◌, Option, none, some, List, [], ◌∷◌, ltb, leb,
  ◌==◌, str_eq, if◌then◌else◌, length, get_elem?, take, every,
}
use virmill.Prelude.Pattern.{fits, five_groups, is_hex}
use virmill.Prelude.Digits.{codes}
use virmill.Domain.Error.{Err, Result, ok, err, fail, Code, ◌>>=◌, ◌>>◌}
use virmill.Domain.Job.{Job, State}
use virmill.Domain.Plan.{Plan, Step}
use virmill.Store.Db.{Db, job}
use virmill.GuestSetup.Receipt.{SshResult, stage_names, in_range}
use virmill.GuestSetup.Stages.{Recipe, StageRecord, StageResult, recovery, same_intent}

abbrev pub invalid : Err
invalid = fail Code.invalid_input

-- `safeFailure` keeps some codes. It takes no other error but those of contexts as it is.
abbrev safe_code : Code → Code
safe_code Code.permission_denied = Code.permission_denied
safe_code Code.unsupported_capability = Code.unsupported_capability
safe_code Code.source_changed = Code.source_changed
safe_code Code.resource_busy = Code.resource_busy
safe_code Code.recovery_required = Code.recovery_required
safe_code Code.invalid_input = Code.invalid_input
safe_code (Code.other c) =
    if str_eq c "INVALID_STATE" || str_eq c "GUEST_TRANSPORT_FAILED"
    then Code.other c
    else Code.operation_failed
safe_code _ = Code.operation_failed

unfoldable pub safe_failure : Err → Err
safe_failure (fail c) = fail (safe_code c)
safe_failure _ = fail Code.operation_failed

unfoldable pub safely {ℓ} : {A : Type ℓ} → Result A → Result A
unfolding safe_failure
safely (err e) = err (safe_failure e)
safely (ok a) = ok a

-- `validUUID`
unfoldable pub valid_uuid : String → Bool
valid_uuid id =
    fits (five_groups is_hex is_hex) (codes id)
    && not (str_eq id "00000000-0000-0000-0000-000000000000")

-- `job`
unfoldable pub find_job : String → Plan → Db → Result Job
unfolding valid_uuid safely job
find_job id p db = do
  (if valid_uuid id then ok tt else err recovery)
  j ← safely (job id db)
  (if str_eq j.plan_id p.id then ok j else err (fail Code.source_changed))

abbrev pub index_of : String → List String → Option ℕ
index_of id [] = none
index_of id (n ∷ ns) =
    if str_eq id n then some 0 else elim (index_of id ns) [ none ↦ none | some i ↦ some (i + 1) ]

-- `stageNumber`; -1 is `none`.
unfoldable pub stage_number : String → Option ℕ
unfolding stage_names
stage_number id = index_of id stage_names

abbrev same_texts : List String → List String → Bool
same_texts [] [] = true
same_texts (a ∷ as') (b ∷ bs) = str_eq a b && same_texts as' bs
same_texts _ _ = false

unfoldable pub same_step : Step → Option Step → Bool
same_step a none = false
same_step a (some b) =
    str_eq a.id b.id
    && str_eq a.action b.action
    && same_texts a.preconditions b.preconditions
    && str_eq a.idempotency b.idempotency
    && str_eq a.compensation b.compensation
    && str_eq a.reconciliation b.reconciliation
    && str_eq a.completion_predicate b.completion_predicate

abbrev pub check_number : Plan → Step → Job → Option ℕ → Result ℕ
check_number p step j none = err invalid
check_number p step j (some i) =
    if same_step step (get_elem? p.steps i) && j.step == i then ok i else err invalid

unfoldable pub check_step : Plan → Step → Job → Result ℕ
unfolding stage_number same_step
check_step p step j = check_number p step j (stage_number step.id)

abbrev is_suspended : State → Bool
is_suspended State.recovery_required = true
is_suspended State.interrupted = true
is_suspended _ = false

abbrev check_job : Job → Result (Unit {0})
check_job j = if j.cancel_requested && not (is_suspended j.state) then err recovery else ok tt

-- `boundary`
unfoldable pub boundary : Result Job → Result (Unit {0})
unfolding safely
boundary r = safely r >>= check_job

-- The first rows are complete.
unfoldable pub complete_before : ℕ → List StageResult → Bool
complete_before i rows = every (λ r. r.complete) (take i rows)

abbrev has_intent : Option StageResult → Bool
has_intent none = false
has_intent (some row) = elim row.intent [ none ↦ false | some _ ↦ true ]

unfoldable pub check_rows : ℕ → List StageResult → Result (Unit {0})
unfolding complete_before
check_rows i rows =
    if not (complete_before i rows)
    then err recovery
    else if has_intent (get_elem? rows i)
    then err recovery
    else ok tt

-- `script`
unfoldable pub script : Recipe → String → String
script r name =
    if str_eq name "readiness"
    then "id -u\n"
    else if str_eq name "check"
    then r.check
    else if str_eq name "apply"
    then r.apply
    else if str_eq name "verify"
    then r.verify
    else ""

unfoldable pub timeout : String → ℕ → ℕ
timeout name n = if str_eq name "readiness" && ltb 10 n then 10 else n

abbrev pub is_supported : SshResult → Bool
is_supported r =
    in_range r.exit_code && leb (length r.stdout) 1048576 && leb (length r.stderr) 1048576

-- The intent that was written reads back, without a receipt.
unfoldable pub reads_back : StageRecord → Option StageRecord → Bool
unfolding same_intent
reads_back rec none = false
reads_back rec (some back) =
    same_intent rec.intent back.intent
    && rec.intent.created_at.nanos == back.intent.created_at.nanos
    && back.intent.created_at.zone_utc
    && elim back.receipt [ none ↦ true | some _ ↦ false ]
