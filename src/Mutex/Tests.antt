-- ===== src/Mutex/Tests.antt =====
-- Two processes at one lock.
use hry_os.Base.{ℕ, ◌≡◌, refl}
use hry_os.Mutex.{
  lock_round, inside, locking, Users, move_to, enter, spin, unused, Reach, here, next,
}
use hry_os.Mutex.Exclusion.{one_inside}

-- Process 4 takes the lock, and process 7 waits for it.
abbrev contended : Users
contended =
    move_to 7 locking
      (record (move_to 7 locking
        (move_to 4 inside (record (move_to 4 locking unused) { flag = 1 }))) { flag = 1 })

contended-Reach : Reach contended
unfolding lock_round
contended-Reach =
    next (next (next (next here (enter 4 refl)) (spin 4 refl)) (enter 7 refl)) (spin 7 refl)

one_inside_example : ◌≡◌ {A = ℕ} 4 4
one_inside_example = one_inside 4 4 contended-Reach refl refl
