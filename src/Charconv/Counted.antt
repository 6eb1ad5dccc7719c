-- ===== src/Charconv/Counted.antt =====
-- How many digits a number has, and what digits mean.
use mathlib.Core.Path.{subst}
use hry_os.Base.{
  ℕ, zero, suc, ◌+◌, ◌-◌, ◌*◌, ◌/◌, ◌%◌, ◌<◌, ◌≤◌, ◌≡◌, ◌≢◌, refl, ◌⊎◌, inl, inr, false, some, List,
  arith, if◌then◌else◌, ltb, leb, ◌&&◌, ◌^◌, ◌==◌, ==_true, Bool-cases, get_or,
}
use hry_os.Fallible.{Gives, Gives-mono, Gives-bind}
use hry_os.Charconv.{NumBase, bin, oct, dec, hex, get_base, digits_loop, digits_count, digit_char}

-- `k` is the number of digits of `v`, without leading zeros.
abbrev pub HasDigits : NumBase → ℕ → ℕ → Type 0
HasDigits base zero v = v ≡ 0
HasDigits base (suc k) v = (v ≢ 0) × HasDigits base k (v / get_base base)

-- `k` digits, or the one digit of zero.
abbrev pub Counts : NumBase → ℕ → ℕ → Type 0
Counts base v k = ((v ≢ 0) × HasDigits base k v) ⊎ ((v ≡ 0) × (k ≡ 1))

-- What a character that is no digit counts: more than any number of 64 bits.
abbrev pub no_digit : ℕ
no_digit = 2 ^ 64

-- The digits of base 16 are `0` to `9` and `A` to `F`; a smaller base has the first of them.
abbrev pub hex_value : ℕ → ℕ
hex_value ch =
    if leb b'0' ch && leb ch b'9'
    then ch - b'0'
    else if leb b'A' ch && leb ch b'F'
    then ch - b'A' + 10
    else no_digit

abbrev pub digit_value : NumBase → ℕ → ℕ
digit_value base ch = if ltb (hex_value ch) (get_base base) then hex_value ch else no_digit

abbrev pub IsDigit : NumBase → ℕ → Type 0
IsDigit base ch = digit_value base ch < get_base base

pub digit_char-IsDigit : (base : NumBase) (v : ℕ) → IsDigit base (digit_char (v % get_base base))
digit_char-IsDigit bin v = ground arith
digit_char-IsDigit oct v = ground arith
digit_char-IsDigit dec v = ground arith
digit_char-IsDigit hex v = ground arith

pub IsDigit-visible : (base : NumBase) (ch : ℕ) → IsDigit base ch → ch ≢ 0
IsDigit-visible bin ch d z = omega (arith, subst (IsDigit bin) z d)
IsDigit-visible oct ch d z = omega (arith, subst (IsDigit oct) z d)
IsDigit-visible dec ch d z = omega (arith, subst (IsDigit dec) z d)
IsDigit-visible hex ch d z = omega (arith, subst (IsDigit hex) z d)

-- The number that `k` characters from `first` on stand for.
abbrev pub read : NumBase → ℕ → ℕ → List ℕ → ℕ
read base first zero buffer = 0
read base first (suc k) buffer =
    read base first k buffer * get_base base + digit_value base (get_or buffer (first + k) 0)

smaller : (base : NumBase) (v : ℕ) → v ≢ 0 → v / get_base base < v
smaller bin v e = omega (arith, e)
smaller oct v e = omega (arith, e)
smaller dec v e = omega (arith, e)
smaller hex v e = omega (arith, e)

one_digit : (base : NumBase) (v : ℕ) → v < get_base base → v / get_base base ≡ 0
one_digit bin v h = omega arith
one_digit oct v h = omega arith
one_digit dec v h = omega arith
one_digit hex v h = omega arith

pub recompose :
    (base : NumBase) (v : ℕ)
    → v / get_base base * get_base base + digit_value base (digit_char (v % get_base base)) ≡ v
recompose bin v = ground arith
recompose oct v = ground arith
recompose dec v = ground arith
recompose hex v = ground arith

pub few_digits : (base : NumBase) (k v : ℕ) → HasDigits base k v → k ≤ v
few_digits base zero v h = omega arith
few_digits base (suc k) v h =
    omega (arith, few_digits base k (v / get_base base) h.1, smaller base v h.0)

digits_loop-HasDigits :
    (fuel : ℕ) (base : NumBase) (v : ℕ)
    → v < fuel
    → Gives (λ k. HasDigits base k v) (digits_loop fuel base v)
unfolding digits_loop
digits_loop-HasDigits zero base v enough = absurd (omega arith)
digits_loop-HasDigits (suc k) base v enough = elim (Bool-cases (v == 0)) [
  | inl e ↦ rw e (==_true v 0 e)
  | inr e ↦
      let ne : v ≢ 0 = ground arith in
      rw e (
        Gives-bind (λ n. HasDigits base n (v / get_base base)) (λ n. HasDigits base n v)
          (digits_loop k base (v / get_base base)) (λ n. some (suc n))
          (digits_loop-HasDigits k base (v / get_base base) (omega (arith, smaller base v ne)))
          (λ n h. (ne, h)))
]

large : (base : NumBase) (v : ℕ) → ltb v (get_base base) ≡ false → v ≢ 0
large bin v h = ground arith
large oct v h = ground arith
large dec v h = ground arith
large hex v h = ground arith

pub digits_count-HasDigits :
    (fuel : ℕ) (base : NumBase) (v : ℕ)
    → v < fuel
    → Gives (λ k. ((v ≢ 0) × HasDigits base k v) ⊎ ((v ≡ 0) × (k ≡ 1))) (digits_count fuel base v)
unfolding digits_count
digits_count-HasDigits fuel base v enough = elim (Bool-cases (ltb v (get_base base))) [
  | inr long ↦ rw long (
      Gives-mono (digits_loop fuel base v) (digits_loop-HasDigits fuel base v enough)
        (λ k h. inl (large base v long, h)))
  | inl short ↦ elim (Bool-cases (v == 0)) [
    | inl e ↦ rw short (inr (==_true v 0 e, refl))
    | inr e ↦ rw short (inl (ground arith, (ground arith, one_digit base v (ground arith))))
  ]
]
