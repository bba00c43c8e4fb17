-- ===== src/Engine.antt =====
-- internal/operations: the engine that plans, accepts, runs, cancels and recovers jobs. `Apply` has
-- the calls that plan and accept, `Run` the goroutine of an accepted job, `Control` the calls that
-- cancel, reconcile and recover.
pub mod Apply
pub mod Control
pub mod Run
pub mod Protocol
mod RequestTests
mod Tests
