-- ===== src/Scheduler/Reschedule.antt =====
-- `reschedule`: the next process comes from the front of the ready list, and the lists stay right.
use mathlib.Core.Path.{subst}
use hry_os.Base.{
  ℕ, ◌≡◌, refl, sym, ap, ◌∙◌, Bool, true, false, ◌&&◌, ◌||◌, not, List, [], ◌∷◌, ◌++◌, arith, ◌==◌,
  ==_true, ==_refl, if◌then◌else◌, Bool-cases, inl, inr,
}
use mathlib.Core.Bool.{false≢true}
use hry_os.Memory.{Ptr, null}
use hry_os.Scheduler.{
  running, ready, sleeping, index_of, same, Process, Scheduler, push_front, move_to_front_if,
  choose, is_due, reschedule,
}
use hry_os.Scheduler.Valid.{mem, IsValid}
use hry_os.Scheduler.Move.{move_to_if-IsValid, move_to_if-SameRest, move_to_if-table, SameRest}
use hry_os.Scheduler.Choose.{at_front, choose-IsValid}

-- The lists once the sleeping processes whose time is over are ready.
abbrev pub woken : ℕ → Scheduler → Scheduler
woken timer k = move_to_front_if sleeping ready (is_due timer) k

-- A process that stands in the ready list, or comes there when `reschedule` wakes the sleeping ones.
abbrev pub may_be_ready : ℕ → Process → Bool
may_be_ready timer x = same x.state ready || (same x.state sleeping && is_due timer x)

pub woken-IsValid : (timer : ℕ) (k : Scheduler) → IsValid k → IsValid (woken timer k)
woken-IsValid timer k is =
    move_to_if-IsValid sleeping ready (is_due timer) push_front refl refl refl k is

not_woken :
    (timer : ℕ) (k : Scheduler) (p : Ptr)
    → IsValid k
    → may_be_ready timer (k.table p) ≡ false
    → mem p ((woken timer k).lists ready) ≡ false
not_woken timer k p is o = elim (Bool-cases (mem p ((woken timer k).lists ready))) [
  | inr out ↦ out
  | inl there ↦
      let at = ((woken-IsValid timer k is).listed p ready there).0 in
      let table =
        ap (λ x. index_of x.state)
          (move_to_if-table sleeping ready (is_due timer) push_front k p is) in
      absurd (ground (arith, sym table ∙ at, is.listed p sleeping))
]

null_not_woken :
    (timer : ℕ) (k : Scheduler) → IsValid k → mem null ((woken timer k).lists ready) ≡ false
null_not_woken timer k is =
    let valid = woken-IsValid timer k is in
    elim (Bool-cases (mem null ((woken timer k).lists ready))) [
      | inr out ↦ out
      | inl there ↦ absurd (false≢true (sym valid.no_null ∙ (valid.listed null ready there).1))
    ]

pub current_not_woken :
    (timer : ℕ) (k : Scheduler)
    → IsValid k
    → ((k.current_process == null) ≡ false → may_be_ready timer (k.table k.current_process) ≡ false)
    → mem k.current_process ((woken timer k).lists ready) ≡ false
current_not_woken timer k is o = elim (Bool-cases (k.current_process == null)) [
  | inl absent ↦
      ap (λ p. mem p ((woken timer k).lists ready)) (==_true k.current_process null absent)
      ∙ null_not_woken timer k is
  | inr exists ↦ not_woken timer k k.current_process is (o exists)
]

pub reschedule-on :
    (timer : ℕ) (k : Scheduler)
    → k.is_enabled ≡ true
    → reschedule timer k ≡ choose (woken timer k) ((woken timer k).lists ready)
unfolding reschedule
reschedule-on timer k on =
    ap (λ b. if b then choose (woken timer k) ((woken timer k).lists ready) else k) on

reschedule-off : (timer : ℕ) (k : Scheduler) → k.is_enabled ≡ false → reschedule timer k ≡ k
unfolding reschedule
reschedule-off timer k off =
    ap (λ b. if b then choose (woken timer k) ((woken timer k).lists ready) else k) off

pub woken-SameRest : (timer : ℕ) (k : Scheduler) → SameRest k (woken timer k)
woken-SameRest timer k = move_to_if-SameRest sleeping ready (is_due timer) push_front k

-- `reschedule` keeps the lists right (each process once in the list of its state and in no other,
-- except the running one, which is the current process), where the current process, if there is
-- one, is neither ready nor asleep with its time over.
pub reschedule-IsValid :
    (timer : ℕ) (k : Scheduler)
    → IsValid k
    → ((k.current_process == null) ≡ false → may_be_ready timer (k.table k.current_process) ≡ false)
    → IsValid (reschedule timer k)
reschedule-IsValid timer k is o = elim (Bool-cases k.is_enabled) [
  | inr off ↦ subst IsValid (sym (reschedule-off timer k off)) is
  | inl on ↦ subst IsValid (sym (reschedule-on timer k on)) (
      choose-IsValid (woken timer k) ((woken timer k).lists ready) (woken-IsValid timer k is) refl (
        ap (λ p. mem p ((woken timer k).lists ready)) (woken-SameRest timer k).current
        ∙ current_not_woken timer k is o))
]

-- The one that is chosen, and where the one that ran goes.
pub choose-next :
    (k : Scheduler) (p : Ptr) (rs : List Ptr)
    → IsValid k
    → k.lists ready ≡ p ∷ rs
    → (p == k.current_process) ≡ false
    → let l = choose k (p ∷ rs) in
      (l.current_process ≡ p)
      × ((l.table p).state ≡ running)
      × (l.lists ready ≡ (
          if not (k.current_process == null) && same (k.table k.current_process).state running
          then rs ++ k.current_process ∷ []
          else rs))
choose-next k p rs is queue other =
    let stays : same (k.table p).state ready ≡ true =
      ground (arith, (at_front k p rs is queue other).0) in
    rw other (elim (Bool-cases (k.current_process == null)) [
      | inl absent ↦ rw (absent, stays, ==_refl p) (refl, refl, refl)
      | inr exists ↦ elim (Bool-cases (same (k.table k.current_process).state running)) [
        | inl runs ↦ rw (exists, runs, other, stays, ==_refl p) (refl, refl, refl)
        | inr rests ↦ rw (exists, rests, stays, ==_refl p) (refl, refl, refl)
      ]
    ])

abbrev pub Switched : Ptr → List Ptr → Scheduler → Scheduler → Type 0
Switched p rs k l =
    (l.current_process ≡ p)
    × ((l.table p).state ≡ running)
    × (l.lists ready ≡ (
        if not (k.current_process == null) && same (k.table k.current_process).state running
        then rs ++ k.current_process ∷ []
        else rs))

-- Where the lists are right, the scheduler is enabled and another process than the current one is
-- first in the ready list once the sleeping ones are woken, `reschedule` makes that process the
-- current one and marks it as running, and the process that ran goes to the end of the ready list.
pub reschedule-next :
    (timer : ℕ) (k : Scheduler) (p : Ptr) (rs : List Ptr)
    → IsValid k
    → k.is_enabled ≡ true
    → (woken timer k).lists ready ≡ p ∷ rs
    → (p == (woken timer k).current_process) ≡ false
    → Switched p rs (woken timer k) (reschedule timer k)
reschedule-next timer k p rs is on queue other =
    subst (Switched p rs (woken timer k))
      (sym (reschedule-on timer k on ∙ ap (choose (woken timer k)) queue))
      (choose-next (woken timer k) p rs (woken-IsValid timer k is) queue other)

-- Where the lists are right, at most one process is marked as running.
pub one_runs :
    (k : Scheduler) (p q : Ptr)
    → IsValid k
    → mem p k.processes ≡ true
    → mem q k.processes ≡ true
    → (k.table p).state ≡ running
    → (k.table q).state ≡ running
    → p ≡ q
one_runs k p q is l l' r r' =
    let at_p = is.complete p running l (ap index_of r) in
    let at_q = is.complete q running l' (ap index_of r') in
    let is_p : p ≡ k.current_process =
      ==_true p k.current_process (ground (arith, is.unlisted p)) in
    let is_q : q ≡ k.current_process =
      ==_true q k.current_process (ground (arith, is.unlisted q)) in
    is_p ∙ sym is_q
