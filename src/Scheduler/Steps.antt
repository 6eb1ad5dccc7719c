-- ===== src/Scheduler/Steps.antt =====
-- Each operation of the scheduler keeps a process running.
use mathlib.Core.Path.{subst}
use mathlib.Core.Bool.{false≢true}
use hry_os.Base.{
  ℕ, ◌+◌, ◌<◌, ◌^◌, ◌≡◌, ◌≢◌, refl, sym, ap, ◌∙◌, Bool, true, false, ◌&&◌, ◌||◌, List, [], ◌∷◌,
  arith, ◌==◌, ==_true, ==_refl, Bool-cases, inl, inr, ltb, add32,
}
use hry_os.Memory.{Ptr, null}
use hry_os.Scheduler.{
  State, running, ready, sleeping, waiting, blocked, index_of, same, StateData, sleep_data,
  waiting_data, blocked_data, BlockedType, Process, Scheduler, push_front, push_back, move_to_if,
  choose, is_due, reschedule, create_process, suspend_current, undisturbed, block_current_process,
  notify_blocked, sleep_ms, wait_for, end_current, waiting_pid, same_type, blocked_type,
}
use hry_os.Scheduler.Valid.{mem, mem-append, IsValid}
use hry_os.Scheduler.Move.{move_to_if-IsValid, move_to_if-SameRest}
use hry_os.Scheduler.Reschedule.{woken, may_be_ready, woken-IsValid, woken-SameRest, reschedule-on}
use hry_os.Scheduler.Wait.{suspend_current-IsValid}
use hry_os.LinkedList.Values.{sift}
use hry_os.Scheduler.Create.{
  create_process-IsValid, is_it, without_current, without_current-IsValid, still_runs,
}
use hry_os.Scheduler.Awake.{stays_ready, stays_running, switch-IsSystem, next-IsSystem, IsSystem}

pub busy : (timer : ℕ) (x : Process) → x.state ≡ running → may_be_ready timer x ≡ false
busy timer x runs = let i = ap index_of runs in ground arith

pub tick-IsSystem :
    (idle : Ptr) (timer : ℕ) (k : Scheduler) → IsSystem idle k → IsSystem idle (reschedule timer k)
tick-IsSystem idle timer k s = found ((woken timer k).lists ready) refl
  where
    w : Scheduler
    w = woken timer k

    o : (k.current_process == null) ≡ false → may_be_ready timer (k.table k.current_process) ≡ false
    o _ = busy timer (k.table k.current_process) s.runs

    same_current : w.current_process ≡ k.current_process
    same_current = (woken-SameRest timer k).current

    runs : (w.table w.current_process).state ≡ running
    runs = stays_running sleeping (is_due timer) push_front k refl s.valid s.runs

    there : (mem idle (w.lists ready) || (idle == k.current_process)) ≡ true
    there = elim (Bool-cases (mem idle (k.lists ready))) [
      | inl in_list ↦
          ap (λ b. b || (idle == k.current_process))
            (stays_ready sleeping (is_due timer) push_front k idle refl refl s.valid in_list)
      | inr out ↦ ground (arith, s.awake)
    ]

    found : (ps : List Ptr) → w.lists ready ≡ ps → IsSystem idle (reschedule timer k)
    found [] queue =
        subst (IsSystem idle) (sym (reschedule-on timer k s.enabled ∙ ap (choose w) queue))
          (record {
            valid = woken-IsValid timer k s.valid;
            enabled = (woken-SameRest timer k).enabled ∙ s.enabled;
            exists = ap (λ c. c == null) same_current ∙ s.exists;
            runs = runs;
            awake = ap (λ c. mem idle (w.lists ready) || (idle == c)) same_current ∙ there;
          })
    found (p ∷ rs) queue = switch-IsSystem idle timer k s.valid s.enabled o p rs queue (
        let exists : (w.current_process == null) ≡ false =
          ap (λ c. c == null) same_current ∙ s.exists in
        let there' : (mem idle (p ∷ rs) || (idle == w.current_process)) ≡ true =
          ap (λ ps. mem idle ps || (idle == w.current_process)) (sym queue)
          ∙ ap (λ c. mem idle (w.lists ready) || (idle == c)) same_current
          ∙ there in
        let i : index_of (w.table w.current_process).state ≡ 1 = ap index_of runs in ground arith)

-- The idle process is ready whenever another process runs.
pub idle-ready :
    (idle : Ptr) (k : Scheduler)
    → IsSystem idle k
    → (k.current_process == idle) ≡ false
    → mem idle (k.lists ready) ≡ true
idle-ready idle k s other = ground (arith, s.awake)

-- The current process, which is not the idle one, gives up the processor.
suspend-IsSystem :
    (idle : Ptr) (timer : ℕ) (k : Scheduler) (t : State) (reason : StateData)
    → IsSystem idle k
    → (k.current_process == idle) ≡ false
    → same t running ≡ false
    → same t ready ≡ false
    → (same t sleeping && is_due timer (record (k.table k.current_process) { state_data = reason }))
      ≡ false
    → IsSystem idle (reschedule timer (suspend_current t reason k))
suspend-IsSystem idle timer k t reason s other apart away later =
    next-IsSystem idle timer (suspend_current t reason k)
      (suspend_current-IsValid k t reason s.valid s.exists s.runs apart) s.enabled
      (λ _. rw (==_refl k.current_process) (ground arith))
      (let e : same ready t ≡ false = ground arith in rw e (idle-ready idle k s other))

pub end-IsSystem :
    (idle : Ptr) (timer : ℕ) (k : Scheduler)
    → IsSystem idle k
    → (k.current_process == idle) ≡ false
    → IsSystem idle (end_current timer k)
unfolding end_current
end-IsSystem idle timer k s other =
    let ended : Process → Bool = λ x. waiting_pid x.state_data == (k.table k.current_process).pid in
    let l = move_to_if waiting ready ended push_back k in
    let is' : IsValid l =
      move_to_if-IsValid waiting ready ended push_back refl refl refl k s.valid in
    let rest = move_to_if-SameRest waiting ready ended push_back k in
    subst
      (λ c. IsSystem idle (
        reschedule timer
          (record l { processes = (sift (is_it c) l.processes tt).0; current_process = null })))
      rest.current
      (next-IsSystem idle timer (without_current l)
        (without_current-IsValid l is'
          (ap (λ c. (l.table c).state) rest.current ∙ still_runs k ended s.valid s.runs))
        (rest.enabled ∙ s.enabled) (λ exists. absurd (false≢true (sym exists)))
        (stays_ready waiting ended push_back k idle refl refl s.valid (idle-ready idle k s other)))

pub notify-IsSystem :
    (idle : Ptr) (kind : BlockedType) (k : Scheduler)
    → IsSystem idle k
    → IsSystem idle (notify_blocked kind k)
unfolding notify_blocked
notify-IsSystem idle kind k s =
    let wanted : Process → Bool = λ x. same_type (blocked_type x.state_data) kind in
    let l = move_to_if blocked ready wanted push_front k in
    let rest = move_to_if-SameRest blocked ready wanted push_front k in
    record {
      valid = move_to_if-IsValid blocked ready wanted push_front refl refl refl k s.valid;
      enabled = rest.enabled ∙ s.enabled;
      exists = ap (λ c. c == null) rest.current ∙ s.exists;
      runs = stays_running blocked wanted push_front k refl s.valid s.runs;
      awake =
          ap (λ c. mem idle (l.lists ready) || (idle == c)) rest.current
          ∙ elim (Bool-cases (mem idle (k.lists ready))) [
            | inl in_list ↦
                ap (λ b. b || (idle == k.current_process))
                  (stays_ready blocked wanted push_front k idle refl refl s.valid in_list)
            | inr out ↦ ground (arith, s.awake)
          ];
    }

pub create-IsSystem :
    (idle : Ptr) (timer : ℕ) (p : Ptr) (name : List ℕ) (task : ℕ) (k : Scheduler)
    → IsSystem idle k
    → mem p k.processes ≡ false
    → p ≢ null
    → IsSystem idle (create_process timer p name task k).1
unfolding create_process
create-IsSystem idle timer p name task k s fresh exists =
    let other : (k.current_process == p) ≡ false = elim (Bool-cases (k.current_process == p)) [
      | inr other ↦ other
      | inl same ↦
          let live : mem k.current_process k.processes ≡ true =
            ground (arith, s.valid.current, s.exists) in
          absurd (
            false≢true (
              sym fresh
              ∙ ap (λ q. mem q k.processes) (sym (==_true k.current_process p same))
              ∙ live))
    ] in
    record {
      valid = (create_process-IsValid timer p name task k s.valid fresh exists).0;
      enabled = s.enabled;
      exists = s.exists;
      runs = rw other s.runs;
      awake = ground (arith, s.awake, mem-append idle (k.lists ready) (p ∷ []));
    }

pub block-IsSystem :
    (idle : Ptr) (timer : ℕ) (kind : BlockedType) (k : Scheduler)
    → IsSystem idle k
    → (k.current_process == idle) ≡ false
    → IsSystem idle (block_current_process undisturbed timer kind k)
unfolding block_current_process
block-IsSystem idle timer kind k s other =
    rw s.exists (suspend-IsSystem idle timer k blocked (blocked_data kind) s other refl refl refl)

pub sleep-IsSystem :
    (idle : Ptr) (timer time : ℕ) (k : Scheduler)
    → IsSystem idle k
    → (k.current_process == idle) ≡ false
    → timer + time < 2 ^ 32
    → IsSystem idle (sleep_ms undisturbed timer timer time k)
unfolding sleep_ms
sleep-IsSystem idle timer time k s other bound =
    let later : ltb (add32 timer time) timer ≡ false = ground arith in
    rw s.exists (
      suspend-IsSystem idle timer k sleeping (sleep_data (add32 timer time)) s other refl refl
        later)

pub wait-IsSystem :
    (idle : Ptr) (timer pid : ℕ) (k : Scheduler)
    → IsSystem idle k
    → (k.current_process == idle) ≡ false
    → IsSystem idle (wait_for undisturbed timer pid k)
unfolding wait_for
wait-IsSystem idle timer pid k s other =
    rw s.exists (suspend-IsSystem idle timer k waiting (waiting_data pid) s other refl refl refl)
