-- ===== src/Pit/Sleep.antt =====
-- A process that sleeps is woken in time by the interrupts of the timer.
use hry_os.Base.{
  ℕ, zero, suc, ◌+◌, ◌%◌, ◌<◌, ◌≤◌, ◌^◌, ◌≡◌, refl, false, arith, ◌==◌, leb, Bool-cases, ◌⊎◌, inl,
  inr,
}
use hry_os.Memory.{Ptr}
use hry_os.Scheduler.{Scheduler, reschedule, undisturbed, sleep_ms}
use hry_os.Scheduler.Awake.{IsAwake, IsSystem}
use hry_os.Scheduler.Steps.{tick-IsSystem, sleep-IsSystem}
use hry_os.Scheduler.Asleep.{Sleeps, due-IsAwake, not_due-Sleeps, sleep_ms-Sleeps}
use hry_os.Pit.{Pit, get_timer, irq_callback, ticks}

-- The process is awake, or sleeps and its time is not over.
abbrev Waits : ℕ → ℕ → Ptr → Scheduler → Type 0
Waits now time p k = IsAwake p k ⊎ (Sleeps time p k × (now ≤ time))

tick-Waits :
    (idle : Ptr) (now time : ℕ) (p : Ptr) (k : Scheduler)
    → IsSystem idle k
    → Waits now time p k
    → Waits (now + 1) time p (reschedule (now + 1) k)
tick-Waits idle now time p k s (inl awake) =
    inl
      (tick-IsSystem p (now + 1) k (record {
        valid = s.valid;
        enabled = s.enabled;
        exists = s.exists;
        runs = s.runs;
        awake = awake;
      })).awake
tick-Waits idle now time p k s (inr (sleeps, early)) = elim (Bool-cases (leb (now + 1) time)) [
  | inl early' ↦ inr (
    not_due-Sleeps (now + 1) time p k s.valid s.enabled (tick-IsSystem idle (now + 1) k s).valid
        sleeps (ground arith),
    ground arith,
  )
  | inr late ↦ inl (due-IsAwake idle (now + 1) time p k s sleeps (ground arith))
]

ticks-Waits :
    (idle : Ptr) (time : ℕ) (p : Ptr) (n : ℕ) (pit : Pit) (k : Scheduler)
    → IsSystem idle k
    → Waits pit.timer time p k
    → pit.timer + n < 2 ^ 32
    → let (pit', k') = ticks n (pit, k) in
      (pit'.timer ≡ pit.timer + n) × IsSystem idle k' × Waits (pit.timer + n) time p k'
unfolding irq_callback
ticks-Waits idle time p zero pit k s waits bound =
    let same : pit.timer + 0 ≡ pit.timer = omega arith in rw same (refl, s, waits)
ticks-Waits idle time p (suc n) pit k s waits bound =
    let (pit', k') = ticks n (pit, k) in
    let (at, s', waits') = ticks-Waits idle time p n pit k s waits (omega arith) in
    let now : (pit'.timer + 1) % 2 ^ 64 ≡ pit.timer + n + 1 = omega arith in
    let now' : (pit.timer + n + 1) % 2 ^ 32 ≡ pit.timer + n + 1 = omega arith in
    let next : pit.timer + suc n ≡ pit.timer + n + 1 = omega arith in
    rw (next, now, now')
      (
        refl,
        tick-IsSystem idle (pit.timer + n + 1) k' s',
        tick-Waits idle (pit.timer + n) time p k' s' waits',
      )

-- In a system whose current process is not the idle one, `sleep_ms` of some time, with nothing
-- between its lock and its `reschedule`, and then more interrupts of the timer than that, with the
-- counter below 2^32, leave a system in which the process that slept is ready or runs.
pub sleep_ms-wakes :
    (idle : Ptr) (time n : ℕ) (pit : Pit) (k : Scheduler)
    → IsSystem idle k
    → (k.current_process == idle) ≡ false
    → time < n
    → pit.timer + n < 2 ^ 32
    → let (pit', k') = ticks n (pit, sleep_ms undisturbed (get_timer pit) (get_timer pit) time k) in
      IsSystem idle k' × IsAwake k.current_process k'
sleep_ms-wakes idle time n pit k s other long bound =
    let timer : pit.timer % 2 ^ 32 ≡ pit.timer = omega arith in
    let (_, s', waits) =
      ticks-Waits idle (pit.timer + time) k.current_process n pit
        (sleep_ms undisturbed pit.timer pit.timer time k)
        (sleep-IsSystem idle pit.timer time k s other (omega arith))
        (inr (sleep_ms-Sleeps idle pit.timer time k s other (omega arith), omega arith)) bound in
    rw timer (s', elim waits [ inl awake ↦ awake | inr (_, early) ↦ absurd (omega arith) ])
