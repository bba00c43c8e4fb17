-- ===== src/Store.antt =====
-- internal/store: the journal, a SQLite database, as a record of tables. The proofs are in the
-- modules below.
pub mod Locks
pub mod Db
pub mod Write
pub mod Recovery
pub mod Invariant
pub mod Events
pub mod Reach
pub mod Keys
pub mod Exclusion
pub mod Metadata
pub mod Runs
mod Tests
