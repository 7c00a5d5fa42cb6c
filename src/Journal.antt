-- ===== src/Journal.antt =====
-- src/asc_orchestrator/audit.py and execution.py: the two append-only journals, whose entries each
-- hold the hash of the entry before.
pub mod Chain
pub mod Audit
pub mod Append
pub mod Events
pub mod Numbers
mod Tests
