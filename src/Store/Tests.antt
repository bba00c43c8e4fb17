-- ===== src/Store/Tests.antt =====
-- The journal's theorems, and its transactions, on a plan that is accepted, interrupted and recovered
use virmill.Prelude.{◌≡◌, ◌≢◌, refl, none, some, [], ◌∷◌, contains, if◌then◌else◌}
use virmill.Prelude.Table.{lookup}
use virmill.Domain.Error.{ok, err, fail, Code}
use virmill.Store.Locks.Laws.{taken}
use virmill.Store.Db.{Db}
use virmill.Store.Write.{accept}
use virmill.Store.Recovery.Soundness.{accept_recovery-locks}
use virmill.Store.Invariant.{IsSound}
use virmill.Store.Events.{IsLog}
use virmill.Store.Reach.{Reach-IsSound, Reach-IsLog}
use virmill.Store.Exclusion.{accept-exclusive, accept-busy}
use virmill.Store.Metadata.{compare_put_with_jobs}
use virmill.Samples.{
  first_plan, recovery_plan, first_job, child_job, planned, accepted_db, stuck_db, recovered_db,
}
use virmill.Store.Runs.{accept_ran, recovery_ran, recovered_run, stuck_db-IsSound}

Reach-IsSound_example : IsSound recovered_db
Reach-IsSound_example = Reach-IsSound recovered_db recovered_run

Reach-IsLog_example : IsLog "j1" recovered_db.events
Reach-IsLog_example = Reach-IsLog recovered_db "j1" recovered_run

accept-exclusive_example :
    ((if contains ("disk" ∷ []) "disk" then lookup "disk" planned.locks else none) ≡ none)
    × (lookup "disk" accepted_db.locks
        ≡ (if contains ("disk" ∷ []) "disk" then some "j1" else lookup "disk" planned.locks))
accept-exclusive_example =
    accept-exclusive first_plan "k1" "r1" "j1" 5 planned first_job accepted_db "disk" accept_ran

accept-busy_example :
    accept recovery_plan "k3" "r3" "j3" 6 accepted_db ≡ err (fail Code.resource_busy)
unfolding lookup
accept-busy_example =
    accept-busy recovery_plan "k3" "r3" "j3" 6 accepted_db "disk" "j1" (λ e. cc) refl refl refl

accept_recovery-locks_example :
    (lookup "net" recovered_db.locks
      ≡ taken "j2" ("disk" ∷ "net" ∷ []) "net" (lookup "net" stuck_db.locks))
    × (lookup "net" recovered_db.locks ≢ some "j1")
    × (lookup "j1" stuck_db.jobs ≢ none)
accept_recovery-locks_example =
    accept_recovery-locks recovery_plan "k2" "r2" "j1" "j2" 9 stuck_db recovered_db child_job
      recovery_ran stuck_db-IsSound "net"

abbrev noted_db : Db
noted_db = record accepted_db { metadata = record { kind = "plugin"; id = "p"; body = "on" } ∷ [] }

put_ran :
    compare_put_with_jobs "plugin" "p" none "on" (("disk", "j1" ∷ []) ∷ []) accepted_db
    ≡ ok noted_db
unfolding compare_put_with_jobs lookup
put_ran = refl
