-- ===== src/Transaction.antt =====
-- The journaled transaction of src/install_fs.rs: `validate`, `recover` and the publication of a
-- prepared installation in `commit_inner`. The world is what the directory tree holds at each
-- path, the journal file, and the recovery pointers. Every call that changes it may fail, before
-- or after its effect, or the process may stop there: `faults` says what becomes of each call in
-- turn. Reads do not fail, and nobody else writes below the locked scopes.
pub mod State
pub mod Journal
pub mod Run
pub mod Stages
pub mod Moves
pub mod Rollback
pub mod Publish
pub mod Cleanup
pub mod Decision
pub mod Recovery
pub mod Atomic
pub mod History
pub mod Foreign
pub mod Tests
pub mod Exports
