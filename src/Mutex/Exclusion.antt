-- ===== src/Mutex/Exclusion.antt =====
-- Mutual exclusion.
use mathlib.Core.Bool.{false≢true}
use hry_os.Base.{
  ℕ, ◌≡◌, refl, sym, ap, ◌∙◌, Bool, true, false, if◌then◌else◌, ◌==◌, ==_true, ==_refl, arith, inl,
  inr, Bool-cases, ◌⊎◌,
}
use hry_os.Mutex.{
  lock_round, unlock, Phase, outside, locking, inside, Users, move_to, Step, enter, spin, leave,
  Reach, here, next,
}

abbrev is_inside : Phase → Bool
is_inside outside = false
is_inside locking = false
is_inside inside = true

-- The flag is clear exactly while no process is in guarded code, and never two are.
record IsExclusive (u : Users) : Type 0 where
  bit : (u.flag ≡ 0) ⊎ (u.flag ≡ 1)
  free : (p : ℕ) → u.flag ≡ 0 → is_inside (u.phase p) ≡ false
  alone : (p q : ℕ) → is_inside (u.phase p) ≡ true → is_inside (u.phase q) ≡ true → p ≡ q

moved :
    (p : ℕ) (x : Phase) (u : Users) (q : ℕ)
    → is_inside ((move_to p x u).phase q) ≡ (if q == p then is_inside x else is_inside (u.phase q))
moved p x u q = elim (Bool-cases (q == p)) [ inl e ↦ rw e refl | inr e ↦ rw e refl ]

-- A process moves and does not come into guarded code; the flag that it leaves is clear only if no
-- other process is there.
away-IsExclusive :
    (p : ℕ) (x : Phase) (f : ℕ) (u : Users)
    → is_inside x ≡ false
    → ((f ≡ 0) ⊎ (f ≡ 1))
    → ((q : ℕ) → f ≡ 0 → (q == p) ≡ false → is_inside (u.phase q) ≡ false)
    → IsExclusive u
    → IsExclusive (move_to p x (record u { flag = f }))
away-IsExclusive p x f u out bit others is = record {
  bit = bit;
  free = λ q clear. ground (arith, moved p x u q, others q clear);
  alone = λ q r a b. is.alone q r (ground (arith, moved p x u q)) (ground (arith, moved p x u r));
}

-- A process comes into guarded code while no other is there.
grab-IsExclusive :
    (p : ℕ) (u : Users)
    → ((q : ℕ) → is_inside (u.phase q) ≡ false)
    → IsExclusive (move_to p inside (record u { flag = 1 }))
grab-IsExclusive p u none_inside = record {
  bit = inr refl;
  free = λ q clear. absurd (omega arith);
  alone = λ q r a b. ground (
    arith,
    moved p inside u q,
    moved p inside u r,
    none_inside q,
    none_inside r,
    ==_true q p,
    ==_true r p,
  );
}

Step-IsExclusive : {u v : Users} → Step u v → IsExclusive u → IsExclusive v
unfolding lock_round unlock
Step-IsExclusive {u} (enter p at) is =
    away-IsExclusive p locking u.flag u refl is.bit (λ q clear _. is.free q clear) is
Step-IsExclusive {u} (spin p at) is = elim is.bit [
  | inl clear ↦ rw clear (grab-IsExclusive p u (λ q. is.free q clear))
  | inr held ↦
      rw held
        (away-IsExclusive p locking 1 u refl (inr refl) (λ q clear _. absurd (omega arith)) is)
]
Step-IsExclusive {u} (leave p at) is =
    let there : is_inside (u.phase p) ≡ true = ap is_inside at in
    away-IsExclusive p outside 0 u refl (inl refl)
      (λ q _ other. elim (Bool-cases (is_inside (u.phase q))) [
        | inl two ↦ absurd (false≢true (sym other ∙ rw (is.alone q p two there) (==_refl p)))
        | inr out ↦ out
      ])
      is

Reach-IsExclusive : {u : Users} → Reach u → IsExclusive u
Reach-IsExclusive here = record {
  bit = inl refl;
  free = λ q _. refl;
  alone = λ q r a b. absurd (false≢true a);
}
Reach-IsExclusive (next r s) = Step-IsExclusive s (Reach-IsExclusive r)

-- With any number of processes that guard code with one lock and take their steps in any order,
-- from the unused lock on, two processes in guarded code are the same process.
pub one_inside : {u : Users} (p q : ℕ) → Reach u → u.phase p ≡ inside → u.phase q ≡ inside → p ≡ q
one_inside p q r a b = (Reach-IsExclusive r).alone p q (ap is_inside a) (ap is_inside b)
