-- ===== src/Lib.antt =====
-- ASC orchestrator. The runtime under src/asc drives a mission of dependent tasks through
-- executors, verification commands and scoped git commits, and records it in SQLite;
-- src/asc_orchestrator keeps the project state of a team of agents.
--
-- The driver (src/asc/driver.py) takes the lock of the repository, refuses a dirty repository,
-- reconciles tasks that an interrupted run has left RUNNING, and then executes one ready task after
-- the other. It asks src/asc/dag.py which task is next, writes every step to src/asc/state.py and
-- to the listeners of src/asc/events.py, runs src/asc/verifier.py, and commits or rolls back by
-- src/asc/repo.py.
--
--   Base              what the other modules share: Python's dictionaries, `or`, texts, list lemmas
--   Models            src/asc/models.py, the records and enumerations
--   Dag               src/asc/dag.py: is_task_ready, get_runnable_tasks, evaluate_mission;
--                     Ready, Evaluate and Progress hold the theorems
--   State             src/asc/state.py: the four tables as lists of rows. Tasks (with Status) has
--                     save_task, get_task, update_task_status and increment_attempt_count; Missions,
--                     Attempts and Events have the operations of the other tables
--   Verifier          src/asc/verifier.py: run_verification; Ran relates commands, processes and
--                     results
--   Lock              src/asc/lock.py: acquire as two halves, release, is_locked; Lock.Race lets the
--                     halves of two drivers interleave, as a step relation
--   Events            src/asc/events.py: subscribe, unsubscribe, emit
--   Repo              src/asc/repo.py: the status and its parsing (Repo.Porcelain), commit_scoped,
--                     rollback_attempt
--   Driver            src/asc/driver.py: Emit has _emit, Attempt one round of the retry loop, Retry
--                     _execute_task_with_retry, Complete _complete_task and _block_task, Reconcile
--                     _reconcile_stale_tasks, Run the loop of run, Run.Whole the rest of run
--   Spec              src/asc/spec.py: `_parse_dict`, its tasks here and the mission in Spec.Mission
--   Etr               src/asc_orchestrator/etr.py: Bytes and Chacha have the cipher, Poly the tag,
--                     Aead _aead_seal and _aead_open
--   Pese              src/asc_orchestrator/pese.py: Types the envelopes and what the store is given,
--                     Validate the findings, Update loading and the writer lock, Commit update,
--                     Recover initialize and recover
--   Agent             src/asc_orchestrator/agent.py: Calls what a method checks and changes, Perform
--                     the course of a method and register; Ledger also has the clauses of pese.py on
--                     agents; Table has the command table of docs/AGC_v1.0.md, and Methods its
--                     legal transitions
--   Journal           src/asc_orchestrator/audit.py and execution.py: Audit and Events have the journals,
--                     Chain the hash chain of both
--   Fixtures          the data of the tests, which stand in the modules named Tests
--
-- State is passed along explicitly. `Drive` holds the database, the lock file, and the rest of the
-- world as a type parameter `W`; a method of the driver is a function from `Drive` to a result and
-- the `Drive` after it, and a result is a value, an exception, or a loop that has run out of fuel.
--
-- The orchestrator under src/asc_orchestrator keeps its project state in a store of its own. Every
-- update takes the writer lock, loads and validates the whole history, compares the revision that
-- the caller expects, and writes the next envelope, which holds the hash of the one before. The
-- lifecycle of an agent is a client of the store: a method loads the state, checks the agent, and
-- asks for an update. `Rules` holds what the store calls of the checks, audits and checkpoints that
-- are not modelled, and the hashes; `with_agents` puts the clauses on agents in.
--
-- Parameters stand for what is outside the source: the clock, fresh ids, the calls of the
-- listeners, the adapters' runs, subprocesses, the file system and git (`Env`, `Shell`, `Git`,
-- `Process`). No law is assumed of them, save in Repo.Undo, where deleting a file and checking one
-- out do their work on that file and on no other (`IsTree`). Of hashes a theorem assumes at most that they have the
-- form that the code asks for (`HashShape`), or that the entries at hand have no collision, which
-- it says.
--
-- Fuel: the retry loop is given one round more than the allowed attempts, which is enough because
-- the stored count grows by one with every round. The loop of run is given one turn more than the
-- mission has tasks, which is enough because every turn takes a waiting task and leaves it in a
-- status that does not wait.
--
-- Not modelled: SQLite itself and the migrations of old schemas, missions and attempts that are
-- given as raw dictionaries to save_mission and record_attempt, the constructor of the driver and
-- its fallback for verifiers without a timeout argument, the JSON and YAML parsers and `validate`
-- of src/asc/spec.py, the adapters, the console and the command line. Of src/asc_orchestrator: the
-- channels of etr.py, in pese.py the clauses on missions, assignments, gates, risks and transport,
-- resume, migrate, checkpoint and reconcile_repository, the directories of the layout and file
-- names that are no numbers, in agent.py the snapshots of agents, and the other modules. A
-- length of 2^64 bytes or more, where struct.pack raises, is not modelled. Clock readings and
-- durations are natural numbers. A heartbeat of an executor is handled when its run has ended, in
-- the order in which the heartbeats came.
pub mod Base
pub mod Models
pub mod Dag
pub mod State
pub mod Verifier
pub mod Lock
pub mod Events
pub mod Repo
pub mod Etr
pub mod Pese
pub mod Agent
pub mod Journal
pub mod Spec
pub mod Fixtures
pub mod Driver
