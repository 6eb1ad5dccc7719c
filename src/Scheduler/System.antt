-- ===== src/Scheduler/System.antt =====
-- The scheduler as a whole: what the timer, the keyboard and the processes do to it, in any order.
-- What runs under an interrupt lock is one step, and between two steps anything else may come: the
-- calls that suspend the current process release their lock before they call `reschedule`.
use mathlib.Core.Bool.{false≢true}
use hry_os.Base.{
  ℕ, ◌≡◌, ◌≢◌, refl, sym, ap, ◌∙◌, Bool, true, false, List, ◌==◌, ==_refl, ◌||◌, ◌&&◌, ◌⊎◌, inl,
  inr, arith, add32,
}
use hry_os.Memory.{Ptr, null}
use hry_os.Scheduler.{
  State, running, ready, sleeping, blocked, waiting, StateData, sleep_data, waiting_data,
  blocked_data, same, BlockedType, Process, Scheduler, suspend_current, reschedule, is_due,
  create_process, notify_blocked, end_current, no_processes, init, same_type, blocked_type,
  push_front, move_to_if,
}
use hry_os.Scheduler.Valid.{mem, IsValid}
use hry_os.Scheduler.Move.{move_to_if-IsValid, move_to_if-SameRest, move_to_if-table}
use hry_os.Scheduler.Wait.{suspend_current-IsValid}
use hry_os.Scheduler.Create.{create_process-IsValid}
use hry_os.Scheduler.Awake.{IsAwake, IsSystem, next-IsSystem, stays_ready, not_listed}
use hry_os.Scheduler.Steps.{
  tick-IsSystem, end-IsSystem, notify-IsSystem, create-IsSystem, idle-ready,
}

abbrev pub current : Scheduler → Process
current k = k.table k.current_process

-- One thing that happens: `reschedule`, by the timer's interrupt or at the end of a call; an event
-- that a process waits for; a new process; the part of a call under its lock by which the process
-- that runs, not the idle one, gives up the processor; or the end of that process. Neither
-- `reschedule` nor an event wakes the current process.
pub data Step (idle : Ptr) (k : Scheduler) : Scheduler → Type 0 where
  switch :
      (timer : ℕ)
      → (same (current k).state sleeping && is_due timer (current k)) ≡ false
      → Step idle k (reschedule timer k)
  notify :
      (kind : BlockedType)
      → same (current k).state blocked ≡ false
      → Step idle k (notify_blocked kind k)
  create :
      (timer : ℕ) (p : Ptr) (name : List ℕ) (task : ℕ)
      → (current k).state ≡ running
      → mem p k.processes ≡ false
      → p ≢ null
      → Step idle k (create_process timer p name task k).1
  block :
      (kind : BlockedType)
      → (current k).state ≡ running
      → (k.current_process == idle) ≡ false
      → Step idle k (suspend_current blocked (blocked_data kind) k)
  sleep :
      (timer time : ℕ)
      → (current k).state ≡ running
      → (k.current_process == idle) ≡ false
      → Step idle k (suspend_current sleeping (sleep_data (add32 timer time)) k)
  wait :
      (pid : ℕ)
      → (current k).state ≡ running
      → (k.current_process == idle) ≡ false
      → Step idle k (suspend_current waiting (waiting_data pid) k)
  end :
      (timer : ℕ)
      → (current k).state ≡ running
      → (k.current_process == idle) ≡ false
      → Step idle k (end_current timer k)

pub data Reach (idle : Ptr) (k : Scheduler) : Scheduler → Type 0 where
  here : Reach idle k k
  next : {l m : Scheduler} → Reach idle k l → Step idle l m → Reach idle k m

-- The current process has given up the processor, and the idle one can take it.
abbrev pub IsSuspended : Ptr → Scheduler → Type 0
IsSuspended idle k =
    (same (current k).state running ≡ false)
    × (same (current k).state ready ≡ false)
    × (mem idle (k.lists ready) ≡ true)

pub record IsGoing (idle : Ptr) (k : Scheduler) : Type 0 where
  pub valid : IsValid k
  pub enabled : k.is_enabled ≡ true
  pub exists : (k.current_process == null) ≡ false
  pub awake : IsAwake idle k
  pub activity : ((current k).state ≡ running) ⊎ IsSuspended idle k

pub IsSystem-IsGoing : {idle : Ptr} {k : Scheduler} → IsSystem idle k → IsGoing idle k
IsSystem-IsGoing s = record {
  valid = s.valid;
  enabled = s.enabled;
  exists = s.exists;
  awake = s.awake;
  activity = inl s.runs;
}

-- Where the current process runs.
pub IsGoing-IsSystem :
    {idle : Ptr} {k : Scheduler} → IsGoing idle k → (current k).state ≡ running → IsSystem idle k
IsGoing-IsSystem s runs = record {
  valid = s.valid;
  enabled = s.enabled;
  exists = s.exists;
  runs = runs;
  awake = s.awake;
}

suspend-IsGoing :
    (idle : Ptr) (k : Scheduler) (t : State) (reason : StateData)
    → IsSystem idle k
    → (k.current_process == idle) ≡ false
    → same t running ≡ false
    → same t ready ≡ false
    → IsGoing idle (suspend_current t reason k)
suspend-IsGoing idle k t reason s other apart away =
    let l = suspend_current t reason k in
    let still : same ready t ≡ false = ground arith in
    let there : mem idle (l.lists ready) ≡ true = rw still (idle-ready idle k s other) in
    record {
      valid = suspend_current-IsValid k t reason s.valid s.exists s.runs apart;
      enabled = s.enabled;
      exists = s.exists;
      awake = ap (λ b. b || (idle == k.current_process)) there;
      activity =
          inr (rw (==_refl k.current_process) apart, rw (==_refl k.current_process) away, there);
    }

-- An event that does not concern the current process leaves it suspended.
notify-IsGoing :
    (idle : Ptr) (kind : BlockedType) (k : Scheduler)
    → IsGoing idle k
    → same (current k).state blocked ≡ false
    → IsSuspended idle k
    → IsGoing idle (notify_blocked kind k)
unfolding notify_blocked
notify-IsGoing idle kind k s other (not_running, not_ready, there) =
    let wanted : Process → Bool = λ x. same_type (blocked_type x.state_data) kind in
    let l = move_to_if blocked ready wanted push_front k in
    let rest = move_to_if-SameRest blocked ready wanted push_front k in
    let out : mem k.current_process (k.lists blocked) ≡ false =
      not_listed k k.current_process blocked s.valid other in
    let at : l.table k.current_process ≡ k.table k.current_process =
      move_to_if-table blocked ready wanted push_front k k.current_process s.valid ∙ rw out refl in
    let same_one : current l ≡ current k = ap l.table rest.current ∙ at in
    let still : mem idle (l.lists ready) ≡ true =
      stays_ready blocked wanted push_front k idle refl refl s.valid there in
    record {
      valid = move_to_if-IsValid blocked ready wanted push_front refl refl refl k s.valid;
      enabled = rest.enabled ∙ s.enabled;
      exists = ap (λ c. c == null) rest.current ∙ s.exists;
      awake = ap (λ b. b || (idle == l.current_process)) still;
      activity = inr (
        ap (λ x. same x.state running) same_one ∙ not_running,
        ap (λ x. same x.state ready) same_one ∙ not_ready,
        still,
      );
    }

switch-IsSystem :
    (idle : Ptr) (timer : ℕ) (k : Scheduler)
    → IsGoing idle k
    → (same (current k).state sleeping && is_due timer (current k)) ≡ false
    → IsSystem idle (reschedule timer k)
switch-IsSystem idle timer k s later = elim s.activity [
  | inl runs ↦ tick-IsSystem idle timer k (IsGoing-IsSystem s runs)
  | inr (not_running, not_ready, there) ↦
      next-IsSystem idle timer k s.valid s.enabled (λ _. ground arith) there
]

Step-IsGoing : {idle : Ptr} {k l : Scheduler} → Step idle k l → IsGoing idle k → IsGoing idle l
Step-IsGoing (switch timer later) s = IsSystem-IsGoing (switch-IsSystem _ timer _ s later)
Step-IsGoing {k = k} (notify kind other) s = elim s.activity [
  | inl runs ↦ IsSystem-IsGoing (notify-IsSystem _ kind _ (IsGoing-IsSystem s runs))
  | inr suspended ↦ notify-IsGoing _ kind _ s other suspended
]
Step-IsGoing (create timer p name task runs fresh exists) s =
    IsSystem-IsGoing (create-IsSystem _ timer p name task _ (IsGoing-IsSystem s runs) fresh exists)
Step-IsGoing (block kind runs other) s =
    suspend-IsGoing _ _ blocked (blocked_data kind) (IsGoing-IsSystem s runs) other refl refl
Step-IsGoing (sleep timer time runs other) s =
    suspend-IsGoing _ _ sleeping (sleep_data (add32 timer time)) (IsGoing-IsSystem s runs) other
      refl refl
Step-IsGoing (wait pid runs other) s =
    suspend-IsGoing _ _ waiting (waiting_data pid) (IsGoing-IsSystem s runs) other refl refl
Step-IsGoing (end timer runs other) s =
    IsSystem-IsGoing (end-IsSystem _ timer _ (IsGoing-IsSystem s runs) other)

-- `init` and the first `reschedule` of `kernel_main`.
abbrev pub booted : ℕ → ℕ → Ptr → List ℕ → ℕ → Scheduler
booted created timer idle name task = reschedule timer (init created idle name task no_processes)

no_processes-IsValid : IsValid (record no_processes { is_enabled = true })
no_processes-IsValid = record {
  listed = λ p s i. cc;
  unique = λ s. tt;
  complete = λ p s l i. cc;
  unlisted = λ p. refl;
  distinct = tt;
  current = refl;
  no_null = refl;
}

booted-IsSystem :
    (created timer : ℕ) (idle : Ptr) (name : List ℕ) (task : ℕ)
    → idle ≢ null
    → IsSystem idle (booted created timer idle name task)
unfolding init create_process
booted-IsSystem created timer idle name task exists =
    let k : Scheduler = record no_processes { is_enabled = true } in
    let (is, queue, _) =
      create_process-IsValid created idle name task k no_processes-IsValid refl exists in
    next-IsSystem idle timer (create_process created idle name task k).1 is refl
      (λ current. absurd (false≢true (sym current))) (ap (mem idle) queue ∙ rw (==_refl idle) refl)

-- From the start of the scheduler with an idle process at an address that is not null, through any
-- sequence of steps, the lists are right, the scheduler is enabled, there is a current process, the
-- idle process is ready or current, and the current process runs or has given up the processor (it
-- is neither running nor ready) while the idle process is ready. What runs under one lock is one
-- step: `reschedule`, from the timer or at the end of a call; an event that processes wait for;
-- and, where the current process runs, a new process at a new address that is not null, and, where
-- it is not the idle one, the part under the lock of blocking, sleeping and waiting, and the end of
-- the process. Anything may come between such a part and the `reschedule` behind it, with two
-- exceptions: there is no event while the current process is marked as blocked, and no `reschedule`
-- while it is marked as sleeping with its time over.
pub Reach-IsGoing :
    (created timer : ℕ) (idle : Ptr) (name : List ℕ) (task : ℕ) {l : Scheduler}
    → idle ≢ null
    → Reach idle (booted created timer idle name task) l
    → IsGoing idle l
Reach-IsGoing created timer idle name task exists here =
    IsSystem-IsGoing (booted-IsSystem created timer idle name task exists)
Reach-IsGoing created timer idle name task exists (next r step) =
    Step-IsGoing step (Reach-IsGoing created timer idle name task exists r)
