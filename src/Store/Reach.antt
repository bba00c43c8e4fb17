-- ===== src/Store/Reach.antt =====
-- The journals that the transactions of internal/store can produce, in any order.
use virmill.Prelude.{ℕ, String, ◌≡◌, refl, some, arith}
use virmill.Prelude.Table.{lookup}
use virmill.Domain.Error.{ok}
use virmill.Domain.Job.{Job, warning}
use virmill.Domain.Plan.{Plan}
use virmill.Store.Db.{Db, empty, save_plan, last_seq, events_of}
use virmill.Store.Write.{accept, update_job, severity_of}
use virmill.Store.Write.Effects.{accept-Accepted, update_job-Updated}
use virmill.Store.Recovery.{accept_recovery, handed_over}
use virmill.Store.Recovery.Effects.{accept_recovery-Recovered}
use virmill.Store.Recovery.Soundness.{accept_recovery-IsSound}
use virmill.Store.Invariant.{
  IsSound, empty-IsSound, save_plan-IsSound, accept-IsSound, update_job-IsSound,
}
use virmill.Store.Events.{IsLog, append_event-IsLog}

-- A transaction that succeeds. `Update` is called on a job that was read from the journal, so it
-- keeps the job's plan.
pub data Step (db db' : Db) : Type 0 where
  saved : (p : Plan) (input : String) → save_plan p input db ≡ ok db' → Step db db'
  accepted :
      (p : Plan) (key digest id : String) (now : ℕ) (j : Job)
      → accept p key digest id now db ≡ ok (j, db')
      → Step db db'
  updated :
      (j old : Job) (message : String) (now : ℕ)
      → lookup j.id db.jobs ≡ some old
      → j.plan_id ≡ old.plan_id
      → update_job j message now db ≡ ok db'
      → Step db db'
  recovered :
      (p : Plan) (key digest parent id : String) (now : ℕ) (j : Job)
      → accept_recovery p key digest parent id now db ≡ ok (j, db')
      → Step db db'

pub data Reach (start : Db) : Db → Type 0 where
  here : Reach start start
  next : {db db' : Db} → Reach start db → Step db db' → Reach start db'

pub Step-IsSound : (db db' : Db) → Step db db' → IsSound db → IsSound db'
Step-IsSound db db' (saved p input h) s = save_plan-IsSound p input db db' h s
Step-IsSound db db' (accepted p key digest id now j h) s =
    accept-IsSound p key digest id now db db' j h s
Step-IsSound db db' (updated j old message now row same h) s =
    update_job-IsSound j old message now db db' row same h s
Step-IsSound db db' (recovered p key digest parent id now j h) s =
    accept_recovery-IsSound p key digest parent id now db db' j h s

AllLogs : Db → Type 0
AllLogs db = (id : String) → IsLog id db.events

saved_events :
    (p : Plan) (input : String) (db db' : Db)
    → save_plan p input db ≡ ok db'
    → db'.events ≡ db.events
unfolding save_plan
saved_events p input db db' h = ground arith

Step-logs : (db db' : Db) → Step db db' → AllLogs db → AllLogs db'
unfolding AllLogs
Step-logs db db' (saved p input h) l id = rw (saved_events p input db db' h) (l id)
Step-logs db db' (accepted p key digest i now j h) l id =
    rw ((accept-Accepted p key digest i now db h).events) (l id)
Step-logs db db' (updated j old message now row same h) l id =
    rw ((update_job-Updated j message now db db' h).events)
      (append_event-IsLog j (severity_of j) message now db id (l j.id) (l id))
Step-logs db db' (recovered p key digest parent i now j h) l id =
    rw ((accept_recovery-Recovered p key digest parent i now db h).events)
      (append_event-IsLog _ warning (handed_over i) now db id (l _) (l id))

-- Every journal that transactions reach from the empty one is sound: keys are unique, each job has
-- its plan, each idempotency key its job, and each lock belongs to a job that is there and has not
-- given its locks up.
pub Reach-IsSound : (db : Db) → Reach empty db → IsSound db
Reach-IsSound db here = empty-IsSound
Reach-IsSound db (next {db = before} r st) = Step-IsSound before db st (Reach-IsSound before r)

empty-logs : AllLogs empty
unfolding AllLogs last_seq events_of
empty-logs id = record { numbered = tt; last = refl }

Reach-logs : (db : Db) → Reach empty db → AllLogs db
Reach-logs db here = empty-logs
Reach-logs db (next {db = before} r st) = Step-logs before db st (Reach-logs before r)

-- In every journal that transactions reach from the empty one, the events of each job are numbered
-- 1, 2, … without a gap.
pub Reach-IsLog : (db : Db) (id : String) → Reach empty db → IsLog id db.events
unfolding AllLogs
Reach-IsLog db id r = Reach-logs db r id
