-- ===== src/Scheduler/Lost.antt =====
-- `reschedule` where the process at the front of the ready list is the current one.
use mathlib.Core.Path.{subst}
use hry_os.Base.{
  ℕ, ◌≡◌, sym, ap, ◌∙◌, true, false, List, ◌∷◌, arith, ◌==◌, ==_refl, Bool-cases, inl, inr,
}
use hry_os.Memory.{Ptr}
use hry_os.Scheduler.{State, ready, same, Scheduler, choose, reschedule}
use hry_os.Scheduler.Valid.{mem, Unique, IsValid, same_state}
use hry_os.Scheduler.Reschedule.{woken, woken-IsValid, woken-SameRest, reschedule-on}

-- The process still executes and is marked as ready, but no list holds it.
abbrev pub IsLost : Ptr → Scheduler → Type 0
IsLost p k =
    (k.current_process ≡ p)
    × ((k.table p).state ≡ ready)
    × ((s : State) → mem p (k.lists s) ≡ false)

choose-loses :
    (k : Scheduler) (p : Ptr) (rs : List Ptr)
    → IsValid k
    → k.current_process ≡ p
    → k.lists ready ≡ p ∷ rs
    → IsLost p (choose k (p ∷ rs))
choose-loses k p rs is current queue =
    let unique = subst Unique queue (is.unique ready) in
    let there : mem p (k.lists ready) ≡ true = ap (mem p) queue ∙ ground arith in
    let state = (is.listed p ready there).0 in
    let front : (p == k.current_process) ≡ true = ap (λ c. p == c) current ∙ ==_refl p in
    rw front (
      current,
      same_state (k.table p).state ready state,
      λ s. elim (Bool-cases (same s ready)) [
        | inl e ↦ rw e unique.0
        | inr e ↦ rw e (ground (arith, is.listed p s, state))
      ],
    )

-- Where the lists are right, the scheduler is enabled, and the process at the front of the ready
-- list, once the sleeping ones are woken, is the current one, `reschedule` loses that process: it
-- stays the current one and is marked as ready, but no list holds it.
pub reschedule-loses :
    (timer : ℕ) (k : Scheduler) (rs : List Ptr)
    → IsValid k
    → k.is_enabled ≡ true
    → (woken timer k).lists ready ≡ k.current_process ∷ rs
    → IsLost k.current_process (reschedule timer k)
reschedule-loses timer k rs is on queue =
    subst (IsLost k.current_process)
      (sym (reschedule-on timer k on ∙ ap (choose (woken timer k)) queue))
      (choose-loses (woken timer k) k.current_process rs (woken-IsValid timer k is)
        (woken-SameRest timer k).current queue)
