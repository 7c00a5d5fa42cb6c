-- ===== src/Agent.antt =====
-- src/asc_orchestrator/agent.py: the life of an agent, over the store of project state.
pub mod Types
pub mod Ledger
pub mod Calls
pub mod Perform
pub mod Reads
pub mod Methods
pub mod Table
pub mod Turned
pub mod Performed
pub mod Registered
pub mod Succeeds
pub mod Life
mod Tests
