-- ===== src/Store/Recovery.antt =====
-- `AcceptRecovery` of internal/store/recovery_accept.go: a recovery inherits its parent's locks.
pub mod Soundness
pub mod Effects
pub mod Transfer
use Prim.Native.String.{◌++◌}
use virmill.Prelude.{
  ℕ, String, ◌||◌, ◌&&◌, Bool, true, false, not, Option, none, some, List, [], ◌∷◌, contains, every,
  str_eq, if◌then◌else◌, ◌==◌,
}
use virmill.Prelude.Table.{lookup, insert, update}
use virmill.Domain.Error.{Result, ok, err, or_err, no_rows, ◌>>=◌, ◌>>◌, fail, Code}
use virmill.Domain.Job.{Job, State, warning, partial, recovery_required, interrupted}
use virmill.Domain.Plan.{Plan}
use virmill.Store.Locks.{Locks, reassign, held}
use virmill.Store.Db.{Db}
use virmill.Store.Write.{new_job, insert_job, insert_dedup, append_event}

-- The states of a parent that a recovery may take over
unfoldable pub recoverable : State → Bool
recoverable recovery_required = true
recoverable interrupted = true
recoverable _ = false

-- Is the parent the actor's unresolved job on the connection of the recovery?
unfoldable pub may_recover : Job → Plan → Plan → Bool
unfolding recoverable
may_recover parent prior p =
    recoverable parent.state
    && str_eq parent.recovery_operation_id ""
    && (prior.actor_uid == p.actor_uid)
    && str_eq prior.connection_id p.connection_id

-- Each resource of the parent's plan is among the recovery's, and is locked by the parent.
unfoldable pub check_prior : String → List String → List String → Locks → Result (Unit {0})
check_prior parent resources [] locks = ok tt
check_prior parent resources (r ∷ rs) locks =
    let rest = check_prior parent resources rs locks in
    if contains resources r
    then elim (lookup r locks) [
      | none ↦ err no_rows
      | some owner ↦ if str_eq owner parent then rest else err (fail Code.resource_busy)
    ]
    else err (fail Code.invalid_input)

-- Each lock that the parent holds is among the recovery's.
unfoldable pub check_held : List String → List String → Result (Unit {0})
check_held resources owned =
    if every (contains resources) owned then ok tt else err (fail Code.invalid_input)

-- The keys of `resources`, a Go map; the order in which it is walked changes the order of the rows
-- alone.
unfoldable pub distinct : List String → List String
distinct [] = []
distinct (r ∷ rs) = let rest = distinct rs in if contains rs r then rest else r ∷ rest

-- A lock of the parent changes hands; any other resource is locked anew.
unfoldable pub transfer : String → String → List String → List String → Locks → Option Locks
transfer child parent owned [] locks = some locks
transfer child parent owned (r ∷ rs) locks =
    let moved = transfer child parent owned rs (reassign child r parent locks) in
    let added : Option Locks = elim (insert r child locks) [
      | none ↦ none
      | some l ↦ transfer child parent owned rs l
    ] in
    if contains owned r then moved else added

abbrev pub handed_over : String → String
handed_over child =
    "Reviewed recovery accepted; resource locks transferred atomically to operation " ++ child
    ++ "; original operation remains partial"

-- The parent becomes partial, and its event says so.
unfoldable pub retire_parent : Job → String → ℕ → Db → Db
unfolding append_event
retire_parent parent child now db =
    let retired = record parent { state = partial; recovery_operation_id = child } in
    append_event retired warning (handed_over child) now
      (record db { jobs = update retired.id retired db.jobs })

unfoldable pub accept_recovery :
    Plan → String → String → String → String → ℕ → Db → Result (Job × Db)
unfolding insert_job insert_dedup may_recover check_held retire_parent
accept_recovery p key digest parent_id id now db =
    let child = new_job id p.id now parent_id in
    do
      parent ← or_err (lookup parent_id db.jobs) no_rows
      prior ← or_err (lookup parent.plan_id db.plans) no_rows
      (if may_recover parent prior.body p then ok tt else err (fail Code.stale_plan))
      check_prior parent_id p.resource_ids prior.body.resource_ids db.locks
      let owned = held parent_id db.locks
      check_held p.resource_ids owned
      with_job ← insert_job child db
      locks ←
          or_err (transfer child.id parent_id owned (distinct p.resource_ids) with_job.locks)
            (fail Code.resource_busy)
      insert_dedup key digest child
            (retire_parent parent child.id now (record with_job { locks = locks }))
          >>= λ with_key. ok (child, with_key)
