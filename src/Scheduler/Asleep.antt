-- ===== src/Scheduler/Asleep.antt =====
-- A process that sleeps: it is woken once its time is over, and not before.
use mathlib.Core.Path.{subst}
use mathlib.Core.Bool.{false≢true}
use hry_os.Base.{
  ℕ, ◌+◌, ◌<◌, ◌≤◌, ◌^◌, ◌≡◌, refl, sym, ap, ◌∙◌, Bool, true, false, List, [], ◌∷◌, arith,
  if◌then◌else◌, ◌==◌, ==_true, ==_refl, Bool-cases, inl, inr, add32,
}
use hry_os.Memory.{Ptr}
use hry_os.Scheduler.{
  running, ready, sleeping, index_of, same, sleep_data, sleep_timeout, Scheduler, push_front,
  set_list, set_state, switch_to_task, yield_current, choose, is_due, reschedule, undisturbed,
  sleep_ms, suspend_current,
}
use hry_os.Scheduler.Valid.{mem, mem-append, IsValid}
use hry_os.Scheduler.Move.{move_to_if-table}
use hry_os.Scheduler.Reschedule.{woken, woken-IsValid, woken-SameRest, reschedule-on}
use hry_os.Scheduler.Wait.{or_false, suspend_current-IsValid}
use hry_os.Scheduler.Awake.{not_listed, IsAwake, IsSystem, switch-IsSystem}
use hry_os.Scheduler.Steps.{busy, sleep-IsSystem}

-- A process that sleeps until its time.
abbrev pub Sleeps : ℕ → Ptr → Scheduler → Type 0
Sleeps time p k = (mem p (k.lists sleeping) ≡ true) × (sleep_timeout (k.table p).state_data ≡ time)

-- A process whose time is over is ready or runs after the next `reschedule`.
pub due-IsAwake :
    (idle : Ptr) (timer time : ℕ) (p : Ptr) (k : Scheduler)
    → IsSystem idle k
    → Sleeps time p k
    → time < timer
    → IsAwake p (reschedule timer k)
due-IsAwake idle timer time p k s (there, until) over =
    let w = woken timer k in
    let valid = woken-IsValid timer k s.valid in
    let due : is_due timer (k.table p) ≡ true = ground arith in
    let state : index_of (w.table p).state ≡ 2 =
      ap (λ x. index_of x.state)
        (move_to_if-table sleeping ready (is_due timer) push_front k p s.valid)
      ∙ rw (there, due) refl in
    let live : mem p w.processes ≡ true =
      ap (mem p) (woken-SameRest timer k).processes ∙ (s.valid.listed p sleeping there).1 in
    let in_ready : mem p (w.lists ready) ≡ true =
      or_false (mem p (w.lists ready)) (p == w.current_process)
        (valid.complete p ready live state) in
    found (w.lists ready) refl in_ready
  where
    found :
        (ps : List Ptr)
        → (woken timer k).lists ready ≡ ps
        → mem p ((woken timer k).lists ready) ≡ true
        → IsAwake p (reschedule timer k)
    found [] queue in_ready = absurd (false≢true (ap (mem p) (sym queue) ∙ in_ready))
    found (q ∷ rs) queue in_ready =
        let at : mem p (q ∷ rs) ≡ true = ap (mem p) (sym queue) ∙ in_ready in
        (switch-IsSystem p timer k s.valid s.enabled
          (λ _. busy timer (k.table k.current_process) s.runs) q rs queue (ground arith)).awake

yielded-table :
    (k : Scheduler) (q : Ptr)
    → same (k.table q).state running ≡ false
    → (yield_current k).table q ≡ k.table q
yielded-table k q still = elim (Bool-cases (q == k.current_process)) [
  | inr other ↦ ground arith
  | inl e ↦
      let idle : same (k.table k.current_process).state running ≡ false =
        ap (λ r. same (k.table r).state running) (sym (==_true q k.current_process e)) ∙ still in
      rw idle (ground arith)
]

picked-table :
    (l m : Scheduler) (p q : Ptr) (same_one is_ready : Bool)
    → (q == p) ≡ false
    → m.table q ≡ l.table q
    → (if same_one
          then l
          else if is_ready
          then switch_to_task p (set_state p running m)
          else m).table
        q
      ≡ l.table q
picked-table l m p q true is_ready apart e = refl
picked-table l m p q false true apart e = rw apart e
picked-table l m p q false false apart e = e

-- `choose` touches only a current process that runs and the first of the ready list.
choose-table :
    (k : Scheduler) (ps : List Ptr) (q : Ptr)
    → mem q ps ≡ false
    → same (k.table q).state running ≡ false
    → (choose k ps).table q ≡ k.table q
choose-table k [] q out still = refl
choose-table k (p ∷ ps) q out still =
    let l = set_list ready ps k in
    picked-table l (yield_current l) p q _ _ (ground arith) (yielded-table l q still)

choose-processes : (k : Scheduler) (ps : List Ptr) → (choose k ps).processes ≡ k.processes
choose-processes k [] = refl
choose-processes k (p ∷ ps) = ground arith

-- A process whose time is not over sleeps on.
pub not_due-Sleeps :
    (timer time : ℕ) (p : Ptr) (k : Scheduler)
    → IsValid k
    → k.is_enabled ≡ true
    → IsValid (reschedule timer k)
    → Sleeps time p k
    → timer ≤ time
    → Sleeps time p (reschedule timer k)
not_due-Sleeps timer time p k is on after (there, until) early =
    let w = woken timer k in
    let l = reschedule timer k in
    let o : is_due timer (k.table p) ≡ false = ground arith in
    let at : w.table p ≡ k.table p =
      move_to_if-table sleeping ready (is_due timer) push_front k p is ∙ rw (there, o) refl in
    let (state, live) = is.listed p sleeping there in
    let sleeps : index_of (w.table p).state ≡ 3 = ap (λ x. index_of x.state) at ∙ state in
    let out : mem p (w.lists ready) ≡ false =
      not_listed w p ready (woken-IsValid timer k is) (rw sleeps refl) in
    let at' : l.table p ≡ k.table p =
      ap (λ m. m.table p) (reschedule-on timer k on)
      ∙ choose-table w (w.lists ready) p out (rw sleeps refl)
      ∙ at in
    let live' : mem p l.processes ≡ true =
      ap (λ m. mem p m.processes) (reschedule-on timer k on)
      ∙ ap (mem p) (choose-processes w (w.lists ready) ∙ (woken-SameRest timer k).processes)
      ∙ live in
    (
      or_false (mem p (l.lists sleeping)) (p == l.current_process)
          (after.complete p sleeping live' (ap (λ x. index_of x.state) at' ∙ state)),
      ap (λ x. sleep_timeout x.state_data) at' ∙ until,
    )

-- The process that calls `sleep_ms` sleeps then.
pub sleep_ms-Sleeps :
    (idle : Ptr) (timer time : ℕ) (k : Scheduler)
    → IsSystem idle k
    → (k.current_process == idle) ≡ false
    → timer + time < 2 ^ 32
    → Sleeps (timer + time) k.current_process (sleep_ms undisturbed timer timer time k)
unfolding sleep_ms
sleep_ms-Sleeps idle timer time k s other bound =
    let p = k.current_process in
    let until : add32 timer time ≡ timer + time = ground arith in
    let l = suspend_current sleeping (sleep_data (add32 timer time)) k in
    let reason : sleep_timeout (l.table p).state_data ≡ timer + time = rw (==_refl p) until in
    let valid : IsValid l =
      suspend_current-IsValid k sleeping (sleep_data (add32 timer time)) s.valid s.exists s.runs
        refl in
    let calls : sleep_ms undisturbed timer timer time k ≡ reschedule timer l = rw s.exists refl in
    rw calls (
      not_due-Sleeps timer (timer + time) p l valid s.enabled
        (subst IsValid calls (sleep-IsSystem idle timer time k s other bound).valid)
        (ground (arith, mem-append p (k.lists sleeping) (p ∷ []), ==_refl p), reason) (omega arith))
