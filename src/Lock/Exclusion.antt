-- ===== src/Lock/Exclusion.antt =====
-- A lock that one process holds keeps the others out, while no step comes between the two halves
-- of `acquire`.
use asc_orchestrator_v.Base.{
  ℕ, ◌-◌, ◌≤◌, ◌<◌, ◌≡◌, refl, ◌≢◌, ◌↔◌, true, false, arith, nat_eq, Bool-cases, inl, inr, sym,
}
use asc_orchestrator_v.Lock.{
  LockInfo, LockFile, absent, corrupt, held, ProjectLock, Process, is_process_running, is_stale,
  acquire, acquired, lock_conflict, check, write, finish, release, is_locked, payload,
}

-- The lock is another process's, which is running, and it is not too old.
pub record IsForeign (l : ProjectLock) (p : Process) (now : ℕ) (info : LockInfo) : Type 0 where
  pub other : info.pid ≢ p.getpid
  pub positive : 0 < info.pid
  pub running : p.alive info.pid ≡ true
  pub fresh : now - info.timestamp ≤ l.stale_threshold_seconds

-- `acquire` raises a conflict exactly when the file holds a lock of another running process that
-- is not stale.
pub acquire-conflict_iff :
    (l : ProjectLock) (p : Process) (now later : ℕ) (file : LockFile) (info : LockInfo)
    → ((acquire l p now later file).0 ≡ lock_conflict info)
      ↔ (file ≡ held info) × IsForeign l p now info
unfolding acquire check is_stale is_process_running finish
acquire-conflict_iff l p now later absent info = (λ h. cc, λ h. cc)
acquire-conflict_iff l p now later corrupt info = (λ h. cc, λ h. cc)
acquire-conflict_iff l p now later (held other) info =
    (λ h. (ground arith, ground arith), λ (e, f). ground arith)

abbrev pub HeldBy : Process → LockFile → Type 0
HeldBy p (held info) = info.pid ≡ p.getpid
HeldBy p _ = ⊥

-- A conflict leaves the file and the lock object as they were. Otherwise the file holds the
-- caller's lock afterwards, and the object knows that it does.
pub acquire_outcome :
    (l : ProjectLock) (p : Process) (now later : ℕ) (file : LockFile)
    → let (result, l', file') = acquire l p now later file in
      ((info : LockInfo) → result ≡ lock_conflict info → (file' ≡ file) × (l' ≡ l))
      × (result ≡ acquired → (l'.acquired ≡ true) × HeldBy p file')
unfolding acquire check is_stale is_process_running finish payload
acquire_outcome l p now later absent = (λ i h. cc, λ h. (refl, refl))
acquire_outcome l p now later corrupt = (λ i h. cc, λ h. (refl, refl))
acquire_outcome l p now later (held other) = elim (Bool-cases (nat_eq other.pid p.getpid)) [
  | inl e ↦ rw (e, acquire, check) (λ i h. cc, λ h. (refl, ground arith))
  | inr e ↦ (elim (Bool-cases (is_stale l p now other)) [
    | inl s ↦ rw (e, s, acquire, check) (λ i h. cc, λ h. (refl, refl))
    | inr s ↦ rw (e, s, acquire, check) (λ i h. (refl, refl), λ h. cc)
  ])
]

-- While a process that is running holds a lock that it has just acquired, every other process
-- that tries within the threshold gets a conflict that names the holder.
pub acquire-excludes :
    (l m : ProjectLock) (p q : Process) (now later then : ℕ) (file : LockFile)
    → q.getpid ≢ p.getpid
    → 0 < p.getpid
    → q.alive p.getpid ≡ true
    → (check l p now file ≡ write)
    → then - later ≤ m.stale_threshold_seconds
    → let (_, _, file') = acquire l p now later file in
      (acquire m q then then file').0 ≡ lock_conflict (payload l p later)
unfolding acquire finish payload
acquire-excludes l m p q now later then file ne pos alive e fresh = rw e (
    (acquire-conflict_iff m q then then (held (payload l p later)) (payload l p later)).1 (
      refl,
      unfold payload in
          record { other = λ h. ne (sym h); positive = pos; running = alive; fresh = fresh },
    ))

-- `release` takes away the caller's own lock or a file that is no lock, keeps the lock of any other
-- process, and the object never claims the lock afterwards.
pub release_outcome :
    (l : ProjectLock) (p : Process) (file : LockFile)
    → let (l', file') = release l p file in
      (l'.acquired ≡ false)
      × ((info : LockInfo) → (file' ≡ held info) ↔ (file ≡ held info) × (info.pid ≢ p.getpid))
unfolding release
release_outcome l p absent =
    (ground arith, λ i. (λ h. absurd (ground arith), λ h. absurd (ground arith)))
release_outcome l p corrupt =
    (ground arith, λ i. (λ h. absurd (ground arith), λ h. absurd (ground arith)))
release_outcome l p (held other) =
    (ground arith, λ i. (λ h. (ground arith, ground arith), λ (e, n). ground arith))

-- Right after a fresh `acquire` the file counts as locked, and after the `release` that follows
-- there is no lock.
pub acquire-release :
    (l : ProjectLock) (p : Process) (now later : ℕ) (file : LockFile)
    → 0 < p.getpid
    → p.alive p.getpid ≡ true
    → check l p now file ≡ write
    → let (_, l', file') = acquire l p now later file in
      (is_locked l' p later file' ≡ true) × ((release l' p file').1 ≡ absent)
unfolding acquire finish payload is_locked release is_process_running
acquire-release l p now later file pos alive e = rw e (ground arith, ground arith)
