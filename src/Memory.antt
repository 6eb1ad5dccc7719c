-- ===== src/Memory.antt =====
-- Memory cells at addresses, and commands that read and write them. Pointers are numbers and null is
-- 0. Reading through null or through an address that holds no cell is a fault. Code that follows
-- pointers (code/hlib/include/list.hpp, code/kernel/memory/allocator.hpp) is written in this monad.
use hry_os.Base.{ℕ, ◌≡◌, ◌≢◌, Option, none, some, ◌==◌, if◌then◌else◌, arith, ==_false}

abbrev pub Ptr : Type 0
Ptr = ℕ

abbrev pub null : Ptr
null = 0

abbrev pub Memory {ℓ} : Type ℓ → Type ℓ
Memory N = Ptr → Option N

-- `some n` fills the address, `none` gives it back.
unfoldable pub write {ℓ} : {N : Type ℓ} → Memory N → Ptr → Option N → Memory N
write h p c a = if a == p then c else h a

pub data Run (N A : Type 0) : Type 0 where
  ok : A → Memory N → Run N A
  fault : Run N A
  out_of_fuel : Run N A

abbrev pub Cmd : Type 0 → Type 0 → Type 0
Cmd N A = Memory N → Run N A

module _ {N A : Type 0} where
  abbrev pub pure : A → Cmd N A
  pure = ok

module _ {N A B : Type 0} where
  abbrev pub and_then : Run N A → (A → Cmd N B) → Run N B
  and_then (ok a h) k = k a h
  and_then fault k = fault
  and_then out_of_fuel k = out_of_fuel

  infixl 5 ◌>>=◌ ◌>>◌
  abbrev pub ◌>>=◌ : Cmd N A → (A → Cmd N B) → Cmd N B
  m >>= k = λ h. and_then (m h) k

  abbrev pub ◌>>◌ : Cmd N A → Cmd N B → Cmd N B
  m >> n = m >>= λ _. n

module _ {N : Type 0} where
  abbrev pub store : Ptr → Option N → Cmd N (Unit {0})
  store p c h = ok tt (write h p c)

  unfoldable pub load : Ptr → Cmd N N
  load p h = if p == null then fault else elim (h p) [ none ↦ fault | some n ↦ ok n h ]

  -- `p->field = …` for an update of one field.
  unfoldable pub modify : Ptr → (N → N) → Cmd N (Unit {0})
  modify p f = do n ← load p; store p (some (f n))

  module _ (h : Memory N) (p : Ptr) (n : N) (ne : p ≢ null) (holds : h p ≡ some n) where
    pub load-ok : load p h ≡ ok n h
    unfolding load
    load-ok = rw (==_false p null ne, holds)

    pub modify-ok : (f : N → N) → modify p f h ≡ ok tt (write h p (some (f n)))
    unfolding modify
    modify-ok f = rw load-ok

  pub write_self : (h : Memory N) (p : Ptr) (c : Option N) → write h p c p ≡ c
  unfolding write
  write_self h p c = ground arith

  pub write_ne : (h : Memory N) (p a : Ptr) (c : Option N) → a ≢ p → write h p c a ≡ h a
  unfolding write
  write_ne h p a c ne = ground arith

-- Total correctness of a run: no fault, enough fuel, and a postcondition.
pub data Returns {N A : Type 0} (P : A → Memory N → Type 0) : Run N A → Type 0 where
  returns : {a : A} {h : Memory N} → P a h → Returns P (ok a h)

module _ {N A : Type 0} {P : A → Memory N → Type 0} where
  pub bind :
      {B : Type 0} {Q : B → Memory N → Type 0} {r : Run N A} {k : A → Cmd N B}
      → Returns P r
      → ((a : A) (h : Memory N) → P a h → Returns Q (k a h))
      → Returns Q (and_then r k)
  bind (returns p) next = next _ _ p

  pub mono :
      {Q : A → Memory N → Type 0} {r : Run N A}
      → Returns P r
      → ((a : A) (h : Memory N) → P a h → Q a h)
      → Returns Q r
  mono (returns p) weaken = returns (weaken _ _ p)
