-- ===== src/Store/Runs.antt =====
-- The sample journals are reached by transactions, so they are sound.
use virmill.Prelude.{◌≡◌, refl, [], ◌∷◌}
use virmill.Prelude.Table.{lookup, insert, update}
use virmill.Domain.Error.{ok}
use virmill.Store.Locks.{acquire, held, reassign}
use virmill.Store.Db.{empty, save_plan, last_seq, or_later}
use virmill.Store.Write.{accept, update_job}
use virmill.Store.Recovery.{accept_recovery, transfer, distinct, check_prior}
use virmill.Store.Invariant.{IsSound}
use virmill.Store.Reach.{saved, accepted, updated, recovered, Reach, here, next, Reach-IsSound}
use virmill.Samples.{
  first_plan, recovery_plan, first_job, child_job, planned, accepted_db, stuck_job, stuck_db,
  recovered_db,
}

pub accept_ran : accept first_plan "k1" "r1" "j1" 5 planned ≡ ok (first_job, accepted_db)
unfolding accept lookup insert acquire
accept_ran = refl

pub update_ran : update_job stuck_job "Step may have taken effect" 7 accepted_db ≡ ok stuck_db
unfolding update_job lookup update last_seq or_later
update_ran = refl

pub recovery_ran :
    accept_recovery recovery_plan "k2" "r2" "j1" "j2" 9 stuck_db ≡ ok (child_job, recovered_db)
unfolding accept_recovery lookup insert update transfer distinct check_prior held reassign last_seq
    or_later
recovery_ran = refl

pub planned_run : Reach empty planned
unfolding save_plan insert lookup
planned_run =
    next
      {db = record empty {
        plans = ("p1", record { digest = "d"; body = first_plan; input = "{}" }) ∷ [];
      }}
      (next here (saved first_plan "{}" refl)) (saved recovery_plan "{}" refl)

pub stuck_run : Reach empty stuck_db
unfolding lookup
stuck_run =
    next (next planned_run (accepted first_plan "k1" "r1" "j1" 5 first_job accept_ran))
      (updated stuck_job first_job "Step may have taken effect" 7 refl refl update_ran)

pub recovered_run : Reach empty recovered_db
recovered_run =
    next stuck_run (recovered recovery_plan "k2" "r2" "j1" "j2" 9 child_job recovery_ran)

pub accepted_db-IsSound : IsSound accepted_db
accepted_db-IsSound =
    Reach-IsSound accepted_db
      (next planned_run (accepted first_plan "k1" "r1" "j1" 5 first_job accept_ran))

pub stuck_db-IsSound : IsSound stuck_db
stuck_db-IsSound = Reach-IsSound stuck_db stuck_run

pub planned-IsSound : IsSound planned
planned-IsSound = Reach-IsSound planned planned_run
