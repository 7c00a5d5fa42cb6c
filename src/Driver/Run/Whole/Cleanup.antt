-- ===== src/Driver/Run/Whole/Cleanup.antt =====
-- How `run` ends, and what it leaves of the lock.
use asc_orchestrator_v.Base.{ℕ, String, ◌≡◌, ◌≢◌, refl, Option, ◌⊎◌, inl, inr}
use asc_orchestrator_v.State.Events.{record_event}
use asc_orchestrator_v.Lock.{
  LockInfo, LockFile, absent, corrupt, held, ProjectLock, Process, Acquired, acquired,
  lock_conflict, new_lock, acquire, release,
}
use asc_orchestrator_v.Lock.Exclusion.{
  HeldBy, acquire-conflict_iff, acquire_outcome, release_outcome,
}
use asc_orchestrator_v.Driver.{Config}
use asc_orchestrator_v.Driver.Effects.{Env, Drive, Result, raise, Adapter, lock_held}
use asc_orchestrator_v.Driver.Emit.{emit}
use asc_orchestrator_v.Driver.Run.Whole.{resolve_mission, let_go, after_acquire, run_resolved, run}

not_held :
    (p : Process) (file : LockFile)
    → ((info : LockInfo) → file ≡ held info → info.pid ≢ p.getpid)
    → ¬ HeldBy p file
not_held p absent h k = k
not_held p corrupt h k = k
not_held p (held info) h k = h info refl k

-- A run that another driver's lock keeps out: an exception, and nothing else.
pub record KeptOut {W A : Type 0} (p : Process) (d : Drive W) (res : Result A) (e : Drive W)
    : Type 0 where
  pub holder : LockInfo
  pub other : holder.pid ≢ p.getpid
  pub holds : d.lock_file ≡ held holder
  pub refused : res ≡ raise (lock_held holder)
  pub lock_file : e.lock_file ≡ d.lock_file
  pub tasks : e.db.tasks ≡ d.db.tasks
  pub attempts : e.db.attempts ≡ d.db.attempts
  pub missions : e.db.missions ≡ d.db.missions

module _ {W : Type 0} (cfg : Config) (env : Env W) (own : Adapter) where
  let_go-releases :
      (lock : ProjectLock) (d : Drive W)
      → ¬ HeldBy cfg.process (let_go cfg env own lock d).lock_file
  unfolding let_go emit
  let_go-releases lock d =
      not_held cfg.process (release lock cfg.process d.lock_file).1
        (λ info e. (((release_outcome lock cfg.process d.lock_file).1 info).0 e).1)

  run_resolved-lock :
      (d : Drive W)
      → let (res, e) = run_resolved cfg env own d in
        KeptOut cfg.process d res e ⊎ (¬ HeldBy cfg.process e.lock_file)
  unfolding run_resolved
  run_resolved-lock d =
      let (now, w) = env.clock d.world in
      let (later, w') = env.clock w in
      let lock = new_lock cfg.mission_id in
      let (res, lock', file) = acquire lock cfg.process now later d.lock_file in
      ends now later res lock' file w' refl
        (acquire_outcome lock cfg.process now later d.lock_file).0
    where
      ends :
          (now later : ℕ) (res : Acquired) (lock : ProjectLock) (file : LockFile) (w : W)
          → (acquire (new_lock cfg.mission_id) cfg.process now later d.lock_file).0 ≡ res
          → ((info : LockInfo)
              → (acquire (new_lock cfg.mission_id) cfg.process now later d.lock_file).0
                ≡ lock_conflict info
              → (file ≡ d.lock_file) × (lock ≡ new_lock cfg.mission_id))
          → let (out, e) =
              after_acquire cfg env own res lock (record d { lock_file = file; world = w }) in
            KeptOut cfg.process d out e ⊎ (¬ HeldBy cfg.process e.lock_file)
      ends now later (lock_conflict info) lock file w q same =
          let (holds, foreign) =
            (acquire-conflict_iff (new_lock cfg.mission_id) cfg.process now later d.lock_file
                info).0
              q in
          inl (
            unfold after_acquire emit record_event in
            record {
              holder = info;
              other = foreign.other;
              holds = holds;
              refused = refl;
              lock_file = (same info q).0;
              tasks = refl;
              attempts = refl;
              missions = refl;
            })
      ends now later acquired lock file w q same =
          inr (unfold after_acquire in let_go-releases lock _)

-- Either another process's lock keeps a run out: it ends with the conflict, and the lock file and the
-- tables of missions, tasks and attempts are as they were. Or the file holds no lock of the process
-- when the run ends, also when it ends by an exception.
pub run-lock :
    {W : Type 0} (cfg : Config) (env : Env W) (own : Adapter) (mission_id : Option String)
    (d : Drive W)
    → let (res, e) = run cfg env own mission_id d in
      KeptOut cfg.process d res e ⊎ (¬ HeldBy cfg.process e.lock_file)
unfolding run resolve_mission
run-lock cfg env own mission_id d =
    run_resolved-lock (resolve_mission mission_id cfg d.db) env own d
