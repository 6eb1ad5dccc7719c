-- ===== src/Scheduler.antt =====
-- code/kernel/scheduler: the processes, the list of processes for each state, and the scheduler's
-- operations. A list is the sequence of pointers that it holds (see LinkedList/Values.antt). `table`
-- holds the process behind each pointer; which pointers belong to a process is what `processes` says.
-- A pointer that `new` returns is an argument; memory for list nodes does not run out. Left out are the
-- log lines, the processes' stacks and registers, and the interrupt flag that the int locks set, so
-- what runs under a lock is one step: where an interrupt comes between two, the caller runs the steps
-- in order.
pub mod Valid
pub mod Move
pub mod Choose
pub mod Reschedule
pub mod Wait
pub mod Create
pub mod Lost
pub mod Awake
pub mod Asleep
pub mod Steps
pub mod System
mod Tests
use hry_os.Base.{
  ℕ, zero, suc, ◌+◌, ◌-◌, ◌%◌, ◌^◌, Bool, true, false, List, [], ◌∷◌, ◌++◌, if◌then◌else◌, ltb,
  ◌==◌, not, ◌&&◌, add32, u32_mod, take,
}
use hry_os.Memory.{Ptr, null}
use hry_os.LinkedList.Values.{sift}

pub data State : Type 0 where
  empty running ready sleeping waiting blocked : State

-- `static_cast<int>(state)`
abbrev pub index_of : State → ℕ
index_of empty = 0
index_of running = 1
index_of ready = 2
index_of sleeping = 3
index_of waiting = 4
index_of blocked = 5

abbrev pub same : State → State → Bool
same s t = index_of s == index_of t

pub data BlockedType : Type 0 where
  io : BlockedType

-- The variant `state_data`, which holds nothing at first.
pub data StateData : Type 0 where
  no_data : StateData
  sleep_data : ℕ → StateData
  waiting_data : ℕ → StateData
  blocked_data : BlockedType → StateData

-- `get<…>().value()` gives a zeroed value where the variant holds another type.
abbrev pub sleep_timeout : StateData → ℕ
sleep_timeout (sleep_data timeout) = timeout
sleep_timeout _ = 0

abbrev pub waiting_pid : StateData → ℕ
waiting_pid (waiting_data pid) = pid
waiting_pid _ = 0

abbrev pub blocked_type : StateData → BlockedType
blocked_type (blocked_data kind) = kind
blocked_type _ = io

abbrev pub same_type : BlockedType → BlockedType → Bool
same_type io io = true

pub record Process : Type 0 where
  pub pid : ℕ
  pub name : List ℕ
  pub state : State
  pub state_data : StateData
  pub task : ℕ
  pub start_time : ℕ

pub record Scheduler : Type 0 where
  pub is_enabled : Bool
  pub processes : List Ptr
  pub lists : State → List Ptr
  pub current_process : Ptr
  pub pid_generator : ℕ
  pub table : Ptr → Process

abbrev pub set_list : State → List Ptr → Scheduler → Scheduler
set_list s xs k = record k { lists = λ t. if same t s then xs else k.lists t }

abbrev pub set_process : Ptr → (Process → Process) → Scheduler → Scheduler
set_process p f k = record k { table = λ q. if q == p then f (k.table p) else k.table q }

abbrev pub set_state : Ptr → State → Scheduler → Scheduler
set_state p s k = set_process p (λ x. record x { state = s }) k

pub data ListMethod : Type 0 where
  push_back push_front : ListMethod

abbrev pub push : ListMethod → Ptr → List Ptr → List Ptr
push push_back p xs = xs ++ p ∷ []
push push_front p xs = p ∷ xs

module _ (start to : State) (predicate : Process → Bool) (func : ListMethod) where
  -- The predicate that `move_to_if` hands to `erase_if`.
  abbrev pub move_one : Ptr → Scheduler → Bool × Scheduler
  move_one p k =
      let hit = same (k.table p).state start && predicate (k.table p) in
      (hit, if hit then set_list to (push func p (k.lists to)) (set_state p to k) else k)

  unfoldable pub move_to_if : Scheduler → Scheduler
  move_to_if k = let (rest, k') = sift move_one (k.lists start) k in set_list start rest k'

abbrev pub move_to_back_if : State → State → (Process → Bool) → Scheduler → Scheduler
move_to_back_if start to predicate = move_to_if start to predicate push_back

abbrev pub move_to_front_if : State → State → (Process → Bool) → Scheduler → Scheduler
move_to_front_if start to predicate = move_to_if start to predicate push_front

-- `switch_to_task` makes the process the current one; its registers are left out.
abbrev pub switch_to_task : Ptr → Scheduler → Scheduler
switch_to_task p k = record k { current_process = p }

-- The current process goes to the end of the ready list if it still runs.
abbrev pub yield_current : Scheduler → Scheduler
yield_current k =
    if k.current_process == null
    then k
    else if same (k.table k.current_process).state running
    then set_list ready (k.lists ready ++ k.current_process ∷ [])
        (set_state k.current_process ready k)
    else k

-- `reschedule` once the sleeping list is updated.
abbrev pub choose : Scheduler → List Ptr → Scheduler
choose k [] = k
choose k (p ∷ ready_list) =
    let k = set_list ready ready_list k in
    if p == k.current_process
    then k
    else let k = yield_current k in
      if same (k.table p).state ready then switch_to_task p (set_state p running k) else k

abbrev pub is_due : ℕ → Process → Bool
is_due timer p = ltb (sleep_timeout p.state_data) timer

unfoldable pub reschedule : ℕ → Scheduler → Scheduler
unfolding move_to_if
reschedule timer k =
    if k.is_enabled
    then (let k = move_to_front_if sleeping ready (is_due timer) k in choose k (k.lists ready))
    else k

-- `name` is what lies behind the pointer, of which 16 characters are copied; `p` is the new process.
unfoldable pub create_process : ℕ → Ptr → List ℕ → ℕ → Scheduler → ℕ × Scheduler
create_process timer p name task k =
    let process : Process = record {
      pid = k.pid_generator;
      name = take 16 name;
      state = ready;
      state_data = no_data;
      task = task;
      start_time = timer;
    } in
    let k : Scheduler = record k {
      processes = k.processes ++ p ∷ [];
      pid_generator = add32 k.pid_generator 1;
    } in
    let k = set_process p (λ _. process) k in
    (process.pid, set_list ready (k.lists ready ++ p ∷ []) k)

-- The block of `block_current_process`, `sleep_ms` and `wait_for` that holds the lock.
abbrev pub suspend_current : State → StateData → Scheduler → Scheduler
suspend_current s reason k =
    let p = k.current_process in
    let k = set_process p (λ x. record x { state = s; state_data = reason }) k in
    set_list s (k.lists s ++ p ∷ []) k

-- Nothing happens between the release of the lock and the call of `reschedule`.
abbrev pub undisturbed : Scheduler → Scheduler
undisturbed k = k

-- The lock is released before `reschedule` is called: `between` is what interrupts do there, and what
-- others do if one of them switches to another process.
pub block_current_process :
    (between : Scheduler → Scheduler) (timer : ℕ) → BlockedType → Scheduler → Scheduler
unfolding reschedule
block_current_process between timer kind k =
    if k.current_process == null
    then k
    else reschedule timer (between (suspend_current blocked (blocked_data kind) k))

pub notify_blocked : BlockedType → Scheduler → Scheduler
unfolding move_to_if
notify_blocked kind =
    move_to_front_if blocked ready (λ p. same_type (blocked_type p.state_data) kind)

-- The timer is read for the time of waking up, and again by `reschedule`.
pub sleep_ms : (between : Scheduler → Scheduler) (now timer : ℕ) → ℕ → Scheduler → Scheduler
unfolding reschedule
sleep_ms between now timer time k =
    if k.current_process == null
    then k
    else reschedule timer (between (suspend_current sleeping (sleep_data (add32 now time)) k))

pub wait_for : (between : Scheduler → Scheduler) (timer : ℕ) → ℕ → Scheduler → Scheduler
unfolding reschedule
wait_for between timer pid k =
    if k.current_process == null
    then k
    else reschedule timer (between (suspend_current waiting (waiting_data pid) k))

-- `process_starter` once the task has returned.
pub end_current : ℕ → Scheduler → Scheduler
unfolding move_to_if reschedule
end_current timer k =
    let p = k.current_process in
    let k = move_to_back_if waiting ready (λ x. waiting_pid x.state_data == (k.table p).pid) k in
    let (rest, _) = sift (λ q s. (p == q, s)) k.processes tt in
    reschedule timer (record k { processes = rest; current_process = null })

-- The scheduler before `init`.
abbrev pub no_processes : Scheduler
no_processes = record {
  is_enabled = false;
  processes = [];
  lists = λ _. [];
  current_process = null;
  pid_generator = 0;
  table = λ _. record {
    pid = 0;
    name = [];
    state = empty;
    state_data = no_data;
    task = 0;
    start_time = 0;
  };
}

-- `name` is what lies behind the text of the idle process's name.
unfoldable pub init : ℕ → Ptr → List ℕ → ℕ → Scheduler → Scheduler
unfolding create_process
init timer p name task k = (create_process timer p name task (record k { is_enabled = true })).1
