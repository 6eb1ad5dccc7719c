-- ===== src/Interrupts/Flag.antt =====
-- The interrupt flag and the locks.
use mathlib.Core.Path.{subst}
use hry_os.Base.{◌≡◌, refl, sym, ◌∙◌, Bool, true, false, if◌then◌else◌, Bool-cases, inl, inr}
use hry_os.Interrupts.{Interrupts, enable, disable, direct_int_lock, weak_int_lock}

-- The variable says what the processor does, once the kernel has started.
pub record IsInStep (i : Interrupts) : Type 0 where
  pub unlocked : i.interrupts_lock ≡ false
  pub agrees : i.interrupts_enabled ≡ i.cpu_flag

-- What runs under a lock leaves the flag as it finds it.
abbrev pub Keeps : (Interrupts → Interrupts) → Type 0
Keeps body = (i : Interrupts) → IsInStep i → IsInStep (body i) × ((body i).cpu_flag ≡ i.cpu_flag)

pub disable-IsInStep :
    (i : Interrupts) → IsInStep i → IsInStep (disable i) × ((disable i).cpu_flag ≡ false)
unfolding disable
disable-IsInStep i is = rw is.unlocked (record { unlocked = refl; agrees = refl }, refl)

enable-IsInStep : (i : Interrupts) → IsInStep i → IsInStep (enable i) × ((enable i).cpu_flag ≡ true)
unfolding enable
enable-IsInStep i is = rw is.unlocked (record { unlocked = refl; agrees = refl }, refl)

-- The interrupts after a call: as they were, and in step with the variable.
abbrev pub AsBefore : Interrupts → Interrupts → Type 0
AsBefore i j = IsInStep j × (j.cpu_flag ≡ i.cpu_flag)

-- The end of a weak lock that was taken at `i`, where the interrupts are off.
pub unlocked-AsBefore :
    (i j : Interrupts)
    → IsInStep i
    → IsInStep j × (j.cpu_flag ≡ false)
    → AsBefore i (if i.interrupts_enabled then enable j else j)
unlocked-AsBefore i j is (step, off) =
    let after : Bool → Interrupts = λ b. if b then enable j else j in
    elim (Bool-cases i.interrupts_enabled) [
      | inl was ↦
          let on = enable-IsInStep j step in
          subst (λ b. AsBefore i (after b)) (sym was) (on.0, on.1 ∙ sym was ∙ is.agrees)
      | inr was ↦ subst (λ b. AsBefore i (after b)) (sym was) (step, off ∙ sym was ∙ is.agrees)
    ]

-- A weak lock around code that leaves the interrupt flag as it finds it.
pub weak_int_lock-AsBefore :
    (body : Interrupts → Interrupts) (i : Interrupts)
    → Keeps body
    → IsInStep i
    → AsBefore i (weak_int_lock body i)
weak_int_lock-AsBefore body i keeps is =
    let off = disable-IsInStep i is in
    let done = keeps (disable i) off.0 in
    unlocked-AsBefore i (body (disable i)) is (done.0, done.1 ∙ off.1)

-- A direct lock enables interrupts at its end, whatever they were.
pub direct_int_lock-enables :
    (body : Interrupts → Interrupts) (i : Interrupts)
    → Keeps body
    → IsInStep i
    → IsInStep (direct_int_lock body i) × ((direct_int_lock body i).cpu_flag ≡ true)
direct_int_lock-enables body i keeps is =
    enable-IsInStep (body (disable i)) (keeps (disable i) (disable-IsInStep i is).0).0
