-- ===== src/GuestSetup/Execute/Once.antt =====
-- A stage of internal/guestsetup/stages.go is run at most once, behind its stored intent.
use Prim.Native.String.{◌++◌ as append}
use virmill.Prelude.{
  ℕ, String, Bool, true, false, ◌≡◌, ◌≢◌, ◌⊎◌, refl, subst, inl, inr, Option, none, some, List, [],
  ◌∷◌, ◌++◌, Bool-cases,
}
use virmill.Prelude.Table.{lookup}
use virmill.Domain.Error.{Result, Result-cases, ok, err}
use virmill.Domain.Job.{Job}
use virmill.Domain.Plan.{Plan, Step}
use virmill.Store.Db.{Db}
use virmill.Store.Metadata.{compare_put}
use virmill.GuestSetup.Receipt.{stamp, StageReceipt, skipped}
use virmill.GuestSetup.Execute.Journal.{entry, compare_put-entry, inspect-job}
use virmill.GuestSetup.Stages.{
  FrozenInput, StageRecord, StageResult, Codec, stage_kind, record_id, runs,
}
use virmill.GuestSetup.Checks.{safely, boundary, check_rows, is_supported}
use virmill.GuestSetup.Execute.{
  Call, World, Answer, broken, canceled, finished, Surroundings, Outcome, attempt, make_call,
  read_back, receipt_text, settle, publish, conclude, call_ssh, proceed, run_stage, intent_record,
  store_intent, begin_stage, inspect, start, execute,
}

-- An early return leaves the world.
attempt-keeps {ℓ κ} :
    {A : Type ℓ} (Q : World → Type κ) (w : World) (r : Result A) (next : A → Outcome)
    → Q w
    → ((a : A) → r ≡ ok a → Q (next a).1)
    → Q (attempt w r next).1
attempt-keeps Q w (err e) next q n = q
attempt-keeps Q w (ok a) next q n = n a refl

-- Behind the run the record stays.
abbrev Stays : String → World → World → Type 0
Stays id w w' = (w'.calls ≡ w.calls) × (entry id w.db ≢ none → entry id w'.db ≢ none)

-- SSH was called once, for a stage without a record, when the record was stored; it is left.
pub record Ran (id : String) (w w' : World) (c : Call) : Type 0 where
  pub called : w'.calls ≡ w.calls ++ c ∷ []
  pub fresh : entry id w.db ≡ none
  pub stored : entry id c.stored ≢ none
  pub left : entry id w'.db ≢ none

abbrev pub RanOnce : String → World → World → Type 0
RanOnce id w w' = (w'.calls ≡ w.calls) ⊎ ((c : Call) × Ran id w w' c)

some≢none {ℓ} : {A : Type ℓ} (o : Option A) (a : A) → o ≡ some a → o ≢ none
some≢none o a h e = absurd cc

module _ (codec : Codec) where
  settle-Stays :
      (id name : String) (s : Surroundings) (receipt : StageReceipt) (w : World) (db : Db)
      → entry id db ≢ none
      → Stays id w (settle name s receipt w db).1
  unfolding settle
  settle-Stays id name s receipt w db there = elim (Result-cases (boundary s.behind)) [
    | inl (a, e) ↦ rw e (refl, λ n. there)
    | inr (x, e) ↦ rw e (refl, λ n. there)
  ]

  publish-Stays :
      (id name : String) (s : Surroundings) (rec : StageRecord) (previous : String)
      (receipt : StageReceipt) (w : World)
      → Stays id w (publish codec id name s rec previous receipt w).1
  unfolding publish
  publish-Stays id name s rec previous receipt w =
      attempt-keeps (Stays id w) w
        (safely (compare_put stage_kind id (some previous) (receipt_text codec rec receipt) w.db))
        (settle name s receipt w) (refl, λ n. n)
        λ db put.
          let stored =
            compare_put-entry id (receipt_text codec rec receipt) (some previous) w.db db put in
          settle-Stays id name s receipt w db (some≢none (entry id db) _ stored.1)

  conclude-Stays :
      (id name : String) (s : Surroundings) (rec : StageRecord) (previous : String) (a : Answer)
      (w : World)
      → Stays id w (conclude codec id name s rec previous a w).1
  unfolding conclude
  conclude-Stays id name s rec previous (broken e) w = (refl, λ n. n)
  conclude-Stays id name s rec previous (canceled e) w = (refl, λ n. n)
  conclude-Stays id name s rec previous (finished r) w = elim (Bool-cases (is_supported r)) [
    | inl t ↦ rw t (publish-Stays id name s rec previous _ w)
    | inr f ↦ rw f (refl, λ n. n)
  ]

  -- At most the call of the stage, made with this journal
  abbrev Runs : FrozenInput → String → String → World → World → Type 0
  Runs input id name w w' =
      (entry id w'.db ≢ none)
      × ((w'.calls ≡ w.calls) ⊎ (w'.calls ≡ w.calls ++ make_call input name w.db ∷ []))

  proceed-Runs :
      (input : FrozenInput) (id name : String) (s : Surroundings) (rec : StageRecord) (run : Bool)
      (w : World) (previous : String)
      → entry id w.db ≢ none
      → Runs input id name w (proceed codec input id name s rec run w previous).1
  unfolding proceed call_ssh
  proceed-Runs input id name s rec false w previous there =
      let stays = publish-Stays id name s rec previous (skipped codec.hash (stamp s.ended)) w in
      (stays.1 there, inl stays.0)
  proceed-Runs input id name s rec true w previous there =
      attempt-keeps (Runs input id name w) w (boundary s.before_run)
        (call_ssh codec input id name s rec previous w) (there, inl refl)
        λ _ _.
          let stays =
            conclude-Stays id name s rec previous s.answer
              (record w { calls = w.calls ++ make_call input name w.db ∷ [] }) in
          (stays.1 there, inr stays.0)

  run_stage-Runs :
      (input : FrozenInput) (id name : String) (s : Surroundings) (rec : StageRecord) (run : Bool)
      (w : World)
      → entry id w.db ≢ none
      → Runs input id name w (run_stage codec input id name s rec run w).1
  unfolding run_stage
  run_stage-Runs input id name s rec run w there =
      attempt-keeps (Runs input id name w) w (read_back codec rec (entry id w.db))
        (proceed codec input id name s rec run w) (there, inl refl)
        λ previous _. proceed-Runs input id name s rec run w previous there

  store_intent-RanOnce :
      (input : FrozenInput) (id name : String) (s : Surroundings) (rec : StageRecord) (run : Bool)
      (w : World)
      → RanOnce id w (store_intent codec input id name s rec run w tt).1
  unfolding store_intent make_call
  store_intent-RanOnce input id name s rec run w =
      attempt-keeps (RanOnce id w) w
        (safely (compare_put stage_kind id none (codec.encode rec) w.db))
        (λ db. run_stage codec input id name s rec run (record w { db = db })) (inl refl)
        λ db put.
          let (fresh, stored, jobs) = compare_put-entry id (codec.encode rec) none w.db db put in
          let there = some≢none (entry id db) (codec.encode rec) stored in
          let (left, calls) = run_stage-Runs input id name s rec run (record w { db = db }) there in
          elim calls [
            | inl same ↦ inl same
            | inr one ↦ inr (
              make_call input name db,
              record { called = one; fresh = fresh; stored = there; left = left },
            )
          ]

  begin_stage-RanOnce :
      (p : Plan) (input : FrozenInput) (j : Job) (name : String) (s : Surroundings) (run : Bool)
      (w : World)
      → RanOnce (record_id j name) w (begin_stage codec p input j name s run w).1
  unfolding begin_stage
  begin_stage-RanOnce p input j name s run w =
      attempt-keeps (RanOnce (record_id j name) w) w (boundary s.before_intent)
        (store_intent codec input (record_id j name) name s
          (intent_record codec p input j name s run) run w)
        (inl refl)
        λ _ _.
          store_intent-RanOnce input (record_id j name) name s
            (intent_record codec p input j name s run) run w

  start-RanOnce :
      (p : Plan) (input : FrozenInput) (step : Step) (s : Surroundings) (w : World)
      (read : Job × ℕ × List StageResult)
      → RanOnce (record_id read.0 step.id) w (start codec p input step s w read).1
  unfolding start
  start-RanOnce p input step s w (j, i, rows) =
      attempt-keeps (RanOnce (record_id j step.id) w) w (check_rows i rows)
        (λ _. begin_stage codec p input j step.id s (runs step.id rows) w) (inl refl)
        λ _ _. begin_stage-RanOnce p input j step.id s (runs step.id rows) w

  -- An execution calls SSH at most once.
  pub execute-RanOnce :
      (id : String) (p : Plan) (input : FrozenInput) (step : Step) (s : Surroundings) (w : World)
      → ((k : String) (j : Job) → lookup k w.db.jobs ≡ some j → j.id ≡ k)
      → RanOnce (append (append id ":") step.id) w (execute codec id p input step s w).1
  unfolding execute
  execute-RanOnce id p input step s w named =
      let key = append (append id ":") step.id in
      attempt-keeps (RanOnce key w) w (inspect codec id p input step w.db)
        (start codec p input step s w) (inl refl)
        λ read found.
          let same = named id read.0 (inspect-job codec id p input step w.db read found) in
          subst
            (λ k. RanOnce (append (append k ":") step.id) w (start codec p input step s w read).1)
            same (start-RanOnce p input step s w read)

-- A stage that has called SSH is not called again.
after_call :
    (key : String) (w w1 w2 w3 : World)
    → RanOnce key w w1
    → RanOnce key w2 w3
    → (entry key w1.db ≢ none → entry key w2.db ≢ none)
    → (w1.calls ≡ w.calls) ⊎ (w3.calls ≡ w2.calls)
after_call key w w1 w2 w3 (inl same) b kept = inl same
after_call key w w1 w2 w3 (inr a) (inl same) kept = inr same
after_call key w w1 w2 w3 (inr (c, a)) (inr (d, b)) kept = absurd (kept a.left b.fresh)

abbrev pub Named : Db → Type 0
Named db = (k : String) (j : Job) → lookup k db.jobs ≡ some j → j.id ≡ k

-- Of two executions of a stage of a job at most one calls SSH, whatever they are given, if each job
-- is stored under its name and the record of the stage is not removed between them.
pub execute-twice :
    (codec codec' : Codec) (id : String) (p p' : Plan) (input input' : FrozenInput)
    (step step' : Step) (s s' : Surroundings) (w w2 : World)
    → Named w.db
    → Named w2.db
    → step'.id ≡ step.id
    → (entry (append (append id ":") step.id) (execute codec id p input step s w).1.db ≢ none
        → entry (append (append id ":") step.id) w2.db ≢ none)
    → ((execute codec id p input step s w).1.calls ≡ w.calls)
      ⊎ ((execute codec' id p' input' step' s' w2).1.calls ≡ w2.calls)
execute-twice codec codec' id p p' input input' step step' s s' w w2 n n2 same kept =
    after_call (append (append id ":") step.id) w (execute codec id p input step s w).1 w2
      (execute codec' id p' input' step' s' w2).1 (execute-RanOnce codec id p input step s w n)
      (subst
        (λ x. RanOnce (append (append id ":") x) w2 (execute codec' id p' input' step' s' w2).1)
        same (execute-RanOnce codec' id p' input' step' s' w2 n2))
      kept
