-- ===== src/Lock/Race.antt =====
-- Two drivers whose halves of `acquire` interleave: the file is read in one step and written in
-- another, and nothing holds the file in between.
use asc_orchestrator_v.Base.{ℕ, ◌≡◌, refl}
use asc_orchestrator_v.Lock.{
  LockFile, held, ProjectLock, Process, Decision, write, check, Acquired, acquired, finish, payload,
}

-- How far one driver has come with `acquire`.
pub data Phase : Type 0 where
  idle : Phase
  checked : Decision → Phase
  returned : Acquired → Phase

pub record System : Type 0 where
  pub file : LockFile
  pub left : Phase
  pub right : Phase

pub record Driver : Type 0 where
  pub lock : ProjectLock
  pub process : Process

abbrev result_of : Driver → ℕ → LockFile → Decision → Acquired
result_of d now file decision = (finish d.lock d.process now file decision).0

abbrev file_after : Driver → ℕ → LockFile → Decision → LockFile
file_after d now file decision = (finish d.lock d.process now file decision).2

-- One half of `acquire` of one of the two drivers, at any reading of the clock.
pub data Step (a b : Driver) (s u : System) : Type 0 where
  left_checks :
      (now : ℕ)
      → s.left ≡ idle
      → u ≡ record s { left = checked (check a.lock a.process now s.file) }
      → Step a b s u
  left_finishes :
      (now : ℕ) (d : Decision)
      → s.left ≡ checked d
      → u
        ≡ record s { file = file_after a now s.file d; left = returned (result_of a now s.file d) }
      → Step a b s u
  right_checks :
      (now : ℕ)
      → s.right ≡ idle
      → u ≡ record s { right = checked (check b.lock b.process now s.file) }
      → Step a b s u
  right_finishes :
      (now : ℕ) (d : Decision)
      → s.right ≡ checked d
      → u
        ≡ record s { file = file_after b now s.file d; right = returned (result_of b now s.file d) }
      → Step a b s u

pub data Reach (a b : Driver) (s : System) : System → Type 0 where
  here : Reach a b s s
  next : {t u : System} → Reach a b s t → Step a b t u → Reach a b s u

abbrev system : LockFile → Phase → Phase → System
system file left right = record { file = file; left = left; right = right }

abbrev pub begin : LockFile → System
begin file = record { file = file; left = idle; right = idle }

-- Whenever both drivers would take the file as it stands, one schedule lets both of them acquire
-- the lock, and the file then holds the lock of the second only.
pub both_acquire :
    (a b : Driver) (file : LockFile) (now : ℕ)
    → check a.lock a.process now file ≡ write
    → check b.lock b.process now file ≡ write
    → Reach a b (begin file) (record {
      file = held (payload b.lock b.process now);
      left = returned acquired;
      right = returned acquired;
    })
unfolding finish
both_acquire a b file now e f =
    next {t = system (held (payload a.lock a.process now)) (returned acquired) (checked write)}
      (next {t = system file (checked write) (checked write)}
        (next {t = system file (checked write) idle}
          (next {t = begin file} here (left_checks now refl (rw e))) (right_checks now refl (rw f)))
        (left_finishes now write refl refl))
      (right_finishes now write refl refl)
