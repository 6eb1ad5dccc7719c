-- ===== src/Fallible.antt =====
-- Code that may go wrong: `none` stands for an access outside of memory.
use mathlib.Core.Path.{subst}
use hry_os.Base.{ℕ, zero, suc, ◌+◌, ◌<◌, ◌≤◌, ◌≡◌, Option, none, some, arith}

module _ {A B : Type 0} where
  infixl 5 ◌>>=◌
  abbrev pub ◌>>=◌ : Option A → (A → Option B) → Option B
  none >>= f = none
  some a >>= f = f a

-- Nothing goes wrong, and the result has a property.
abbrev pub Gives : {A : Type 0} → (A → Type 0) → Option A → Type 0
Gives P none = ⊥
Gives P (some a) = P a

pub Gives-mono :
    {A : Type 0} {P Q : A → Type 0} (o : Option A) → Gives P o → ((a : A) → P a → Q a) → Gives Q o
Gives-mono none g f = g
Gives-mono (some a) g f = f a g

pub Gives-bind :
    {A B : Type 0} (P : A → Type 0) (Q : B → Type 0) (o : Option A) (f : A → Option B)
    → Gives P o
    → ((a : A) → P a → Gives Q (f a))
    → Gives Q (o >>= f)
Gives-bind P Q none f g next = absurd g
Gives-bind P Q (some a) f g next = next a g

-- A counted loop: `n` rounds, the first with index `i`.
unfoldable pub for_range : {S : Type 0} → ℕ → ℕ → (ℕ → S → Option S) → S → Option S
for_range zero i body s = some s
for_range (suc n) i body s = do s ← body i s; for_range n (suc i) body s

-- What holds when a round starts holds of the next index when it ends.
pub for_range-Gives :
    {S : Type 0} (P : ℕ → S → Type 0) (n i : ℕ) (body : ℕ → S → Option S)
    → ((j : ℕ) (s : S) → i ≤ j → j < i + n → P j s → Gives (P (suc j)) (body j s))
    → (s : S) → P i s
    → Gives (P (i + n)) (for_range n i body s)
unfolding for_range
for_range-Gives P zero i body round s p = subst (λ k. P k s) (omega arith) p
for_range-Gives P (suc n) i body round s p =
    let end : suc i + n ≡ i + suc n = omega arith in
    Gives-bind (P (suc i)) (P (i + suc n)) (body i s) (for_range n (suc i) body)
      (round i s (omega arith) (omega arith) p)
      (λ s' p'.
        subst (λ k. Gives (P k) (for_range n (suc i) body s')) end
          (for_range-Gives P n (suc i) body (λ j t le lt. round j t (omega arith) (omega arith)) s'
            p'))

-- The same, up to an index that is known.
pub for_range-to :
    {S : Type 0} (P : ℕ → S → Type 0) (n i end : ℕ) (body : ℕ → S → Option S)
    → i + n ≡ end
    → ((j : ℕ) (s : S) → i ≤ j → j < end → P j s → Gives (P (suc j)) (body j s))
    → (s : S) → P i s
    → Gives (P end) (for_range n i body s)
for_range-to P n i end body e round s p =
    subst (λ k. Gives (P k) (for_range n i body s)) e
      (for_range-Gives P n i body (λ j t lo hi. round j t lo (omega arith)) s p)
