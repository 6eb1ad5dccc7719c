-- ===== src/Mutex.antt =====
-- code/kernel/scheduler/mutex.hpp and lock_guard.hpp: a lock that spins on a flag, and the guard that
-- holds it while it lives. Each atomic access to the flag is one step, so any number of processes can
-- take their steps in any order; `pause` does nothing.
pub mod Exclusion
mod Tests
use hry_os.Base.{ℕ, ◌≡◌, Bool, true, false, if◌then◌else◌, ◌==◌}

-- The flag of a new lock.
abbrev pub mutex : ℕ
mutex = 0

-- `__sync_lock_test_and_set(&flag_, 1U)`: the old flag and the new one.
abbrev pub test_and_set : ℕ → ℕ × ℕ
test_and_set flag = (flag, 1)

-- One round of the loop of `lock`: whether the lock is held now by who asked, and the flag.
pub lock_round : ℕ → Bool × ℕ
lock_round flag = let (old, flag') = test_and_set flag in (old == 0, flag')

pub try_lock : ℕ → Bool × ℕ
try_lock flag = let (old, flag') = test_and_set flag in (old == 1, flag')

pub unlock : ℕ → ℕ
unlock flag = 0

-- Where a process is: outside of guarded code, in the constructor of its guard, or in guarded code.
pub data Phase : Type 0 where
  outside locking inside : Phase

-- The lock and the processes that use it.
pub record Users : Type 0 where
  pub flag : ℕ
  pub phase : ℕ → Phase

abbrev pub move_to : ℕ → Phase → Users → Users
move_to p x u = record u { phase = λ q. if q == p then x else u.phase q }

-- The constructor of `lock_guard` is called, one round of its loop, and the destructor.
pub data Step (u : Users) : Users → Type 0 where
  enter : (p : ℕ) → u.phase p ≡ outside → Step u (move_to p locking u)
  spin :
      (p : ℕ)
      → u.phase p ≡ locking
      → Step u (
          let (held, flag) = lock_round u.flag in
          move_to p (if held then inside else locking) (record u { flag = flag }))
  leave :
      (p : ℕ) → u.phase p ≡ inside → Step u (move_to p outside (record u { flag = unlock u.flag }))

abbrev pub unused : Users
unused = record { flag = mutex; phase = λ _. outside }

pub data Reach : Users → Type 0 where
  here : Reach unused
  next : {u v : Users} → Reach u → Step u v → Reach v
