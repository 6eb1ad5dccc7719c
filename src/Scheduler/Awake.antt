-- ===== src/Scheduler/Awake.antt =====
-- The processor is never without a process: where a process that is always ready or running exists,
-- `reschedule` finds one to run.
use mathlib.Core.Bool.{false≢true}
use hry_os.Base.{
  ℕ, ◌≡◌, refl, sym, ap, ◌∙◌, Bool, true, false, ◌&&◌, ◌||◌, not, List, [], ◌∷◌, ◌++◌, arith, ◌==◌,
  if◌then◌else◌,
}
use hry_os.Memory.{Ptr, null}
use hry_os.Scheduler.{
  State, running, ready, sleeping, index_of, same, Process, Scheduler, ListMethod, push_front,
  move_to_if, choose, is_due, reschedule,
}
use hry_os.Scheduler.Valid.{mem, mem-append, IsValid}
use hry_os.Scheduler.Move.{move_to_if-IsValid, move_to_if-SameRest, move_to_if-table}
use hry_os.Scheduler.Reschedule.{
  woken, may_be_ready, woken-IsValid, woken-SameRest, reschedule-on, reschedule-IsValid,
  reschedule-next, current_not_woken,
}
use hry_os.Scheduler.Wait.{or_false}

-- A process stands in no list but the one of its state.
pub not_listed :
    (k : Scheduler) (p : Ptr) (t : State)
    → IsValid k
    → (index_of (k.table p).state == index_of t) ≡ false
    → mem p (k.lists t) ≡ false
not_listed k p t is other = ground (arith, is.listed p t)

-- A process that is ready stays so when others become ready.
pub stays_ready :
    (start : State) (predicate : Process → Bool) (func : ListMethod) (k : Scheduler) (p : Ptr)
    → same ready start ≡ false
    → same start running ≡ false
    → IsValid k
    → mem p (k.lists ready) ≡ true
    → mem p ((move_to_if start ready predicate func k).lists ready) ≡ true
stays_ready start predicate func k p apart moving is there =
    let l = move_to_if start ready predicate func k in
    let is' : IsValid l = move_to_if-IsValid start ready predicate func apart refl moving k is in
    let (state, live) = is.listed p ready there in
    let out : mem p (k.lists start) ≡ false =
      not_listed k p start is (ap (λ (i : ℕ). i == index_of start) state ∙ apart) in
    let state' : index_of (l.table p).state ≡ 2 =
      ap (λ x. index_of x.state) (move_to_if-table start ready predicate func k p is)
      ∙ rw out state in
    let live' : mem p l.processes ≡ true =
      ap (mem p) (move_to_if-SameRest start ready predicate func k).processes ∙ live in
    or_false (mem p (l.lists ready)) (p == l.current_process) (is'.complete p ready live' state')

-- The current process is not touched.
pub stays_running :
    (start : State) (predicate : Process → Bool) (func : ListMethod) (k : Scheduler)
    → same start running ≡ false
    → IsValid k
    → (k.table k.current_process).state ≡ running
    → let l = move_to_if start ready predicate func k in (l.table l.current_process).state ≡ running
stays_running start predicate func k moving is runs =
    let l = move_to_if start ready predicate func k in
    let c = k.current_process in
    let out : mem c (k.lists start) ≡ false =
      not_listed k c start is (ap (λ s. index_of s == index_of start) runs ∙ ground arith) in
    ap (λ p. (l.table p).state) (move_to_if-SameRest start ready predicate func k).current
    ∙ ap (λ x. x.state) (move_to_if-table start ready predicate func k c is)
    ∙ rw out runs

pub choose-enabled : (k : Scheduler) (ps : List Ptr) → (choose k ps).is_enabled ≡ k.is_enabled
choose-enabled k [] = refl
choose-enabled k (p ∷ ps) = ground arith

-- A process that the kernel always has to run: it is ready, or it runs.
abbrev pub IsAwake : Ptr → Scheduler → Type 0
IsAwake idle k = (mem idle (k.lists ready) || (idle == k.current_process)) ≡ true

pub record IsSystem (idle : Ptr) (k : Scheduler) : Type 0 where
  pub valid : IsValid k
  pub enabled : k.is_enabled ≡ true
  pub exists : (k.current_process == null) ≡ false
  pub runs : (k.table k.current_process).state ≡ running
  pub awake : IsAwake idle k

-- The idle process after a switch to `p`: it was in the ready list, or it ran.
awake-after :
    (idle p c : Ptr) (rs : List Ptr) (ran : Bool)
    → ((mem idle (p ∷ rs)) || ((idle == c) && ran)) ≡ true
    → (mem idle (if ran then rs ++ c ∷ [] else rs) || (idle == p)) ≡ true
awake-after idle p c rs true e = ground (arith, mem-append idle rs (c ∷ []))
awake-after idle p c rs false e = ground arith

module _ (idle : Ptr) (timer : ℕ) (k : Scheduler) (is : IsValid k) (on : k.is_enabled ≡ true)
    (o : (k.current_process == null) ≡ false
      → may_be_ready timer (k.table k.current_process) ≡ false) where
  -- `reschedule` with a process to switch to.
  pub switch-IsSystem :
      (p : Ptr) (rs : List Ptr)
      → (woken timer k).lists ready ≡ p ∷ rs
      → let w = woken timer k in
        (mem idle (p ∷ rs)
            || ((idle == w.current_process)
                && (not (w.current_process == null)
                    && same (w.table w.current_process).state running)))
          ≡ true
        → IsSystem idle (reschedule timer k)
  switch-IsSystem p rs queue there =
      let w = woken timer k in
      let valid = woken-IsValid timer k is in
      let in_queue : mem p (w.lists ready) ≡ true = ap (mem p) queue ∙ ground arith in
      let outside : mem w.current_process (p ∷ rs) ≡ false =
        ap (mem w.current_process) (sym queue)
        ∙ ap (λ c. mem c (w.lists ready)) (woken-SameRest timer k).current
        ∙ current_not_woken timer k is o in
      let other : (p == w.current_process) ≡ false = ground arith in
      let (current, runs, queue') = reschedule-next timer k p rs is on queue other in
      record {
        valid = reschedule-IsValid timer k is o;
        enabled =
            ap (λ l. l.is_enabled) (reschedule-on timer k on)
            ∙ choose-enabled w (w.lists ready)
            ∙ (woken-SameRest timer k).enabled
            ∙ on;
        exists =
            ap (λ c. c == null) current
            ∙ ground (
              arith,
              valid.no_null,
              (valid.listed p ready in_queue).1,
              λ (e : p ≡ null). ap (λ q. mem q w.processes) e,
            );
        runs = ap (λ c. ((reschedule timer k).table c).state) current ∙ runs;
        awake =
            ap (λ c. mem idle ((reschedule timer k).lists ready) || (idle == c)) current
            ∙ ap (λ ps. mem idle ps || (idle == p)) queue'
            ∙ awake-after idle p w.current_process rs _ there;
      }

  -- Where the idle process is ready, `reschedule` finds a process to run.
  pub next-IsSystem : mem idle (k.lists ready) ≡ true → IsSystem idle (reschedule timer k)
  next-IsSystem there =
      found ((woken timer k).lists ready) refl
        (stays_ready sleeping (is_due timer) push_front k idle refl refl is there)
    where
      found :
          (ps : List Ptr)
          → (woken timer k).lists ready ≡ ps
          → mem idle ((woken timer k).lists ready) ≡ true
          → IsSystem idle (reschedule timer k)
      found [] queue there' = absurd (false≢true (ap (mem idle) (sym queue) ∙ there'))
      found (p ∷ rs) queue there' =
          let there'' : mem idle (p ∷ rs) ≡ true = ap (mem idle) (sym queue) ∙ there' in
          switch-IsSystem p rs queue (ground arith)
