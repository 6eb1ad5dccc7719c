-- ===== src/Scheduler/Wait.antt =====
-- The calls by which the current process gives up the processor, and the one that wakes the blocked
-- ones.
use hry_os.Base.{
  ℕ, ◌+◌, ◌<◌, ◌≡◌, refl, ap, ◌∙◌, Bool, true, false, ◌&&◌, ◌||◌, [], ◌∷◌, arith, ◌==◌, ==_refl,
  Bool-cases, inl, inr, ltb, add32, ◌^◌,
}
use hry_os.Memory.{Ptr, null}
use hry_os.Scheduler.{
  State, running, ready, sleeping, waiting, blocked, index_of, same, StateData, sleep_data,
  waiting_data, blocked_data, BlockedType, Process, Scheduler, push_front, suspend_current,
  undisturbed, block_current_process, notify_blocked, sleep_ms, wait_for, same_type, blocked_type,
}
use hry_os.Scheduler.Valid.{mem, mem-append, Unique-snoc, IsValid}
use hry_os.Scheduler.Move.{move_to_if-IsValid, move_to_if-SameRest, move_to_if-table}
use hry_os.Scheduler.Reschedule.{reschedule-IsValid}

module _ (k : Scheduler) (s : State) (reason : StateData) (is : IsValid k)
    (exists : (k.current_process == null) ≡ false)
    (runs : (k.table k.current_process).state ≡ running) (apart : same s running ≡ false) where
  -- The current process goes to the end of the list of its new state.
  pub suspend_current-IsValid : IsValid (suspend_current s reason k)
  suspend_current-IsValid =
      let c = k.current_process in
      let state_c = ap index_of runs in
      record {
        listed = λ q v i.
            ground
              (arith, is.listed q v, mem-append q (k.lists s) (c ∷ []), is.current, is.unlisted q);
        unique = λ v. elim (Bool-cases (same v s)) [
          | inl e ↦ rw e (Unique-snoc c (k.lists s) (is.unique s) (ground (arith, is.listed c s)))
          | inr e ↦ rw e (is.unique v)
        ];
        complete = λ q v l i. ground (arith, is.complete q v l, mem-append q (k.lists s) (c ∷ []));
        unlisted = λ q. ground (arith, is.unlisted q);
        distinct = is.distinct;
        current = is.current;
        no_null = is.no_null;
      }

-- `block_current_process` keeps the lists right where the current process runs.
pub block_current_process-IsValid :
    (timer : ℕ) (kind : BlockedType) (k : Scheduler)
    → IsValid k
    → (k.table k.current_process).state ≡ running
    → IsValid (block_current_process undisturbed timer kind k)
unfolding block_current_process
block_current_process-IsValid timer kind k is runs = elim (Bool-cases (k.current_process == null)) [
  | inl absent ↦ rw absent is
  | inr exists ↦ rw exists (
      reschedule-IsValid timer (suspend_current blocked (blocked_data kind) k)
        (suspend_current-IsValid k blocked (blocked_data kind) is exists runs refl)
        (λ _. rw (==_refl k.current_process) refl))
]

-- `wait_for` keeps the lists right where the current process runs.
pub wait_for-IsValid :
    (timer pid : ℕ) (k : Scheduler)
    → IsValid k
    → (k.table k.current_process).state ≡ running
    → IsValid (wait_for undisturbed timer pid k)
unfolding wait_for
wait_for-IsValid timer pid k is runs = elim (Bool-cases (k.current_process == null)) [
  | inl absent ↦ rw absent is
  | inr exists ↦ rw exists (
      reschedule-IsValid timer (suspend_current waiting (waiting_data pid) k)
        (suspend_current-IsValid k waiting (waiting_data pid) is exists runs refl)
        (λ _. rw (==_refl k.current_process) refl))
]

-- `sleep_ms` keeps the lists right where the current process runs and the time of waking up is a
-- 32-bit number.
pub sleep_ms-IsValid :
    (timer time : ℕ) (k : Scheduler)
    → IsValid k
    → (k.table k.current_process).state ≡ running
    → timer + time < 2 ^ 32
    → IsValid (sleep_ms undisturbed timer timer time k)
unfolding sleep_ms
sleep_ms-IsValid timer time k is runs bound = elim (Bool-cases (k.current_process == null)) [
  | inl absent ↦ rw absent is
  | inr exists ↦ rw exists (
      reschedule-IsValid timer (suspend_current sleeping (sleep_data (add32 timer time)) k)
        (suspend_current-IsValid k sleeping (sleep_data (add32 timer time)) is exists runs refl)
        (λ _.
          let later : ltb (add32 timer time) timer ≡ false = ground arith in
          rw (==_refl k.current_process, later) refl))
]

pub or_false : (a b : Bool) → (a || (b && false)) ≡ true → a ≡ true
or_false a b e = ground arith

-- Where the lists are right, `notify_blocked` keeps them so and puts each process that is blocked
-- for that reason into the ready list.
pub notify_blocked-wakes :
    (kind : BlockedType) (k : Scheduler) (p : Ptr)
    → IsValid k
    → mem p (k.lists blocked) ≡ true
    → same_type (blocked_type (k.table p).state_data) kind ≡ true
    → let l = notify_blocked kind k in IsValid l × (mem p (l.lists ready) ≡ true)
unfolding notify_blocked
notify_blocked-wakes kind k p is there wanted =
    let l = notify_blocked kind k in
    let predicate : Process → Bool = λ x. same_type (blocked_type x.state_data) kind in
    let is' : IsValid l =
      move_to_if-IsValid blocked ready predicate push_front refl refl refl k is in
    let table = move_to_if-table blocked ready predicate push_front k p is in
    let state : index_of (l.table p).state ≡ 2 =
      ap (λ x. index_of x.state) table ∙ rw (there, wanted) refl in
    let live : mem p l.processes ≡ true =
      ap (mem p) (move_to_if-SameRest blocked ready predicate push_front k).processes
      ∙ (is.listed p blocked there).1 in
    (
      is',
      or_false (mem p (l.lists ready)) (p == l.current_process) (is'.complete p ready live state),
    )
