-- ===== src/Pese.antt =====
-- src/asc_orchestrator/pese.py: the orchestrator's store of project state. The history is a
-- directory of numbered envelopes, each with the hash of the one before it; live.json is a copy of
-- the last; a lock file admits one writer.
pub mod Types
pub mod Validate
pub mod Update
pub mod Chain
pub mod Valid
pub mod Commit
pub mod Append
pub mod Commits
pub mod Settled
pub mod Succeeds
pub mod Once
pub mod Recover
pub mod Recovers
mod Tests
