-- ===== src/Lock.antt =====
-- src/asc/lock.py: the lock file of a repository. The file's text is read as no file, as a text
-- that is no lock, or as the JSON object that `acquire` writes. `alive` says which process ids the
-- operating system knows, and the clock's reading is the argument `now`.
pub mod Exclusion
pub mod Race
mod Tests
use asc_orchestrator_v.Base.{
  ℕ, ◌-◌, String, Bool, true, false, not, ◌&&◌, ◌||◌, Option, none, some, ltb, nat_eq,
  if◌then◌else◌,
}
use asc_orchestrator_v.Base.Truthy.{or_default}

pub record LockInfo : Type 0 where
  pub pid : ℕ
  pub mission_id : String
  pub timestamp : ℕ
  pub user : String

pub data LockFile : Type 0 where
  absent corrupt : LockFile
  held : LockInfo → LockFile

pub record ProjectLock : Type 0 where
  pub mission_id : String
  pub stale_threshold_seconds : ℕ
  pub acquired : Bool

-- `ProjectLock.__init__`
unfoldable pub new_lock : Option String → ProjectLock
new_lock mission_id = record {
  mission_id = or_default mission_id "unknown";
  stale_threshold_seconds = 3600;
  acquired = false;
}

-- What a driver sees of its machine.
pub record Process : Type 0 where
  pub getpid : ℕ
  pub user : String
  pub alive : ℕ → Bool

-- A process id that is not positive is never running.
unfoldable pub is_process_running : Process → ℕ → Bool
is_process_running p pid = ltb 0 pid && p.alive pid

unfoldable pub is_stale : ProjectLock → Process → ℕ → LockInfo → Bool
unfolding is_process_running
is_stale l p now info =
    ltb l.stale_threshold_seconds (now - info.timestamp) || not (is_process_running p info.pid)

-- What the first half of `acquire` decides from the file.
pub data Decision : Type 0 where
  own write : Decision
  conflict : LockInfo → Decision

unfoldable pub check : ProjectLock → Process → ℕ → LockFile → Decision
unfolding is_stale
check l p now absent = write
check l p now corrupt = write
check l p now (held info) =
    if nat_eq info.pid p.getpid then own else if is_stale l p now info then write else conflict info

-- The second half of `acquire`: the fresh lock that it writes.
unfoldable pub payload : ProjectLock → Process → ℕ → LockInfo
payload l p now = record {
  pid = p.getpid;
  mission_id = l.mission_id;
  timestamp = now;
  user = p.user;
}

pub data Acquired : Type 0 where
  acquired : Acquired
  lock_conflict : LockInfo → Acquired

unfoldable pub finish :
    ProjectLock → Process → ℕ → LockFile → Decision → Acquired × ProjectLock × LockFile
unfolding payload
finish l p now file own = (acquired, record l { acquired = true }, file)
finish l p now file write = (acquired, record l { acquired = true }, held (payload l p now))
finish l p now file (conflict info) = (lock_conflict info, l, file)

-- `acquire`, with nothing between its two halves; `later` is the reading for the time stamp.
unfoldable pub acquire :
    ProjectLock → Process → ℕ → ℕ → LockFile → Acquired × ProjectLock × LockFile
unfolding check finish
acquire l p now later file = finish l p later file (check l p now file)

abbrev exists : LockFile → Bool
exists absent = false
exists _ = true

abbrev unlinked : Process → LockFile → LockFile
unlinked p absent = absent
unlinked p corrupt = absent
unlinked p (held info) = if nat_eq info.pid p.getpid then absent else held info

unfoldable pub release : ProjectLock → Process → LockFile → ProjectLock × LockFile
release l p file =
    if not l.acquired && not (exists file)
    then (l, file)
    else (record l { acquired = false }, unlinked p file)

unfoldable pub is_locked : ProjectLock → Process → ℕ → LockFile → Bool
unfolding is_process_running
is_locked l p now absent = false
is_locked l p now corrupt = false
is_locked l p now (held info) =
    if not (is_process_running p info.pid)
    then false
    else not (ltb l.stale_threshold_seconds (now - info.timestamp))

unfoldable pub get_lock_info : LockFile → Option LockInfo
get_lock_info (held info) = some info
get_lock_info _ = none
