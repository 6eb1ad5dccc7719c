-- ===== src/Scheduler/Tests.antt =====
-- Three processes, and the scheduler's theorems at them.
use hry_os.Base.{ℕ, ◌≡◌, refl, true, [], ◌∷◌, List, arith, if◌then◌else◌, ◌==◌, ◌&&◌, ◌||◌}
use hry_os.Memory.{Ptr}
use hry_os.Scheduler.{
  State, empty, running, ready, sleeping, waiting, blocked, StateData, no_data, sleep_data,
  waiting_data, blocked_data, BlockedType, io, Process, Scheduler, index_of, same, reschedule,
  create_process, block_current_process, notify_blocked, sleep_ms, wait_for, end_current,
  suspend_current,
}
use hry_os.Scheduler.Valid.{mem, Unique, IsValid}
use hry_os.Scheduler.Reschedule.{woken, reschedule-IsValid, reschedule-next, Switched}
use hry_os.Scheduler.Wait.{suspend_current-IsValid, notify_blocked-wakes}
use hry_os.Scheduler.System.{
  IsGoing, Reach-IsGoing, booted, here, next, create, switch, block, notify,
}
use hry_os.Scheduler.Lost.{IsLost, reschedule-loses}

abbrev process : ℕ → State → StateData → Process
process pid state reason = record {
  pid = pid;
  name = [];
  state = state;
  state_data = reason;
  task = 0;
  start_time = 0;
}

-- 10 runs, 20 is ready, 30 sleeps and 40 is blocked.
abbrev table : Ptr → Process
table p =
    if p == 10
    then process 0 running no_data
    else if p == 20
    then process 1 ready no_data
    else if p == 30
    then process 2 sleeping (sleep_data 100)
    else if p == 40
    then process 3 blocked (blocked_data io)
    else process 0 empty no_data

abbrev lists : State → List Ptr
lists ready = 20 ∷ []
lists sleeping = 30 ∷ []
lists blocked = 40 ∷ []
lists _ = []

abbrev four : Scheduler
four = record {
  is_enabled = true;
  processes = 10 ∷ 20 ∷ 30 ∷ 40 ∷ [];
  lists = lists;
  current_process = 10;
  pid_generator = 4;
  table = table;
}

four-listed :
    (p : Ptr) (s : State)
    → mem p (lists s) ≡ true
    → (index_of (table p).state ≡ index_of s) × (mem p (10 ∷ 20 ∷ 30 ∷ 40 ∷ []) ≡ true)
four-listed p empty i = cc
four-listed p running i = cc
four-listed p waiting i = cc
four-listed p ready i = ground arith
four-listed p sleeping i = ground arith
four-listed p blocked i = ground arith

four-Unique : (s : State) → Unique (lists s)
four-Unique empty = tt
four-Unique running = tt
four-Unique ready = (refl, tt)
four-Unique sleeping = (refl, tt)
four-Unique waiting = tt
four-Unique blocked = (refl, tt)

four_complete :
    (p : Ptr) (s : State)
    → mem p (10 ∷ 20 ∷ 30 ∷ 40 ∷ []) ≡ true
    → index_of (table p).state ≡ index_of s
    → (mem p (lists s) || ((p == 10) && same s running)) ≡ true
four_complete p empty l i = ground arith
four_complete p running l i = ground arith
four_complete p ready l i = ground arith
four_complete p sleeping l i = ground arith
four_complete p waiting l i = ground arith
four_complete p blocked l i = ground arith

four-IsValid : IsValid four
four-IsValid = record {
  listed = four-listed;
  unique = four-Unique;
  complete = four_complete;
  unlisted = λ p. refl;
  distinct = (refl, (refl, (refl, (refl, tt))));
  current = refl;
  no_null = refl;
}

reschedule-IsValid_example : IsValid (reschedule 50 four)
reschedule-IsValid_example = reschedule-IsValid 50 four four-IsValid (λ _. refl)

reschedule-next_example : Switched 30 (20 ∷ []) (woken 101 four) (reschedule 101 four)
unfolding hry_os.Scheduler.move_to_if hry_os.LinkedList.Values.sift
reschedule-next_example = reschedule-next 101 four 30 (20 ∷ []) four-IsValid refl refl refl

notify_blocked-wakes_example :
    let l = notify_blocked io four in IsValid l × (mem 40 (l.lists ready) ≡ true)
notify_blocked-wakes_example = notify_blocked-wakes io four 40 four-IsValid refl refl

-- The process 10 blocks; before it reaches `reschedule`, the keyboard's interrupt notifies it.
abbrev interrupted : Scheduler
interrupted = notify_blocked io (suspend_current blocked (blocked_data io) four)

interrupted-IsValid : IsValid interrupted
interrupted-IsValid =
    (notify_blocked-wakes io (suspend_current blocked (blocked_data io) four) 40
      (suspend_current-IsValid four blocked (blocked_data io) four-IsValid refl refl refl) refl
      refl).0

reschedule-loses_example : IsLost 10 (reschedule 50 interrupted)
unfolding notify_blocked hry_os.Scheduler.move_to_if hry_os.LinkedList.Values.sift
reschedule-loses_example =
    reschedule-loses 50 interrupted (40 ∷ 20 ∷ []) interrupted-IsValid refl refl

-- A second process comes, the timer ticks, it runs and waits for the keyboard.
abbrev second : Scheduler
second = reschedule 3 (create_process 2 32 (116 ∷ 0 ∷ []) 8 (booted 0 1 16 (105 ∷ 0 ∷ []) 7)).1

Reach-IsGoing_example :
    IsGoing 16 (notify_blocked io (reschedule 4 (suspend_current blocked (blocked_data io) second)))
unfolding hry_os.Scheduler.init hry_os.Scheduler.reschedule hry_os.Scheduler.move_to_if
    hry_os.LinkedList.Values.sift hry_os.Scheduler.create_process
Reach-IsGoing_example = Reach-IsGoing 0 1 16 (105 ∷ 0 ∷ []) 7 (omega arith) (
    next
      (next
        (next
          (next (next here (create 2 32 (116 ∷ 0 ∷ []) 8 refl refl (omega arith))) (switch 3 refl))
          (block io refl refl))
        (switch 4 refl))
      (notify io refl))
