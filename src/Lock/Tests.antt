-- ===== src/Lock/Tests.antt =====
-- The theorems on src/asc/lock.py at two processes, of which one runs.
use asc_orchestrator_v.Base.{◌≡◌, refl, true, some, arith}
use asc_orchestrator_v.Lock.{
  absent, held, LockInfo, ProjectLock, Process, new_lock, acquire, acquired, lock_conflict, check,
  write, release, is_locked, payload,
}
use asc_orchestrator_v.Lock.Exclusion.{acquire-excludes, acquire-release}
use asc_orchestrator_v.Lock.Race.{begin, returned, Reach, both_acquire}
use asc_orchestrator_v.Fixtures.{seven, eight}

abbrev lock : ProjectLock
lock = new_lock (some "m")

abbrev info : LockInfo
info = record { pid = 7; mission_id = "m"; timestamp = 4; user = "user" }

takes : (p : Process) → check lock p 4 absent ≡ write
unfolding check
takes p = refl

acquire-excludes_example :
    let (_, _, file) = acquire lock seven 4 4 absent in
    (acquire lock eight 5 5 file).0 ≡ lock_conflict (payload lock seven 4)
acquire-excludes_example =
    acquire-excludes lock lock seven eight 4 4 5 absent (λ e. omega arith) (omega arith) refl
      (takes seven) (unfold new_lock in omega arith)

acquire-release_example :
    let (_, l, file) = acquire lock seven 4 4 absent in
    (is_locked l seven 4 file ≡ true) × ((release l seven file).1 ≡ absent)
acquire-release_example = acquire-release lock seven 4 4 absent (omega arith) refl (takes seven)

both_acquire_example :
    Reach
      (record { lock = lock; process = seven })
      (record { lock = lock; process = eight })
      (begin absent)
      (record {
        file = held (payload lock eight 4);
        left = returned acquired;
        right = returned acquired;
      })
both_acquire_example =
    both_acquire (record { lock = lock; process = seven }) (record { lock = lock; process = eight })
      absent 4 (takes seven) (takes eight)
