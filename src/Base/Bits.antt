-- ===== src/Base/Bits.antt =====
-- `&` with a mask. The native operation is read digit by digit, from its definition.
use Prim.Native.Nat.{
  ℕ, zero, suc, ◌+◌, ◌-◌, ◌*◌, ◌/◌, ◌%◌, ◌^◌, ◌≤◌, ◌<◌, min, bit_and, digits, bit_and-bitwise,
}
use mathlib.Core.Path.{◌≡◌, refl, ◌∙◌, ap, sym}
use native.Mathlib.Nat.{pow-suc, mul_assoc, div-div-eq-div-mul}
use native.Mathlib.Omega.{arith}

-- The digits of `a & b`, computed in `k` rounds.
abbrev rounds : ℕ → ℕ → ℕ → ℕ
rounds k a b = digits (λ _. zero) min k a b

-- More rounds than the first number has digits change nothing.
rounds_enough : (k m a b : ℕ) → a ≤ k → a ≤ m → rounds k a b ≡ rounds m a b
rounds_enough zero zero zero b hk hm = refl
rounds_enough zero zero (suc a) b hk hm = refl
rounds_enough zero (suc m) zero b hk hm = refl
rounds_enough zero (suc m) (suc a) b hk hm = absurd (omega arith)
rounds_enough (suc k) zero zero b hk hm = refl
rounds_enough (suc k) zero (suc a) b hk hm = absurd (omega arith)
rounds_enough (suc k) (suc m) zero b hk hm = refl
rounds_enough (suc k) (suc m) (suc a) b hk hm =
    omega (arith, rounds_enough k m (suc a / 2) (b / 2) (omega arith) (omega arith))

pub zero_and : (b : ℕ) → bit_and 0 b ≡ 0
zero_and b = bit_and-bitwise 0 b

-- The lowest digit, and the others.
pub and_digit : (a b : ℕ) → bit_and a b ≡ bit_and (a / 2) (b / 2) * 2 + min (a % 2) (b % 2)
and_digit zero b = omega (arith, zero_and b, zero_and (b / 2))
and_digit (suc a) b =
    let here = bit_and-bitwise (suc a) b in
    let rest = bit_and-bitwise (suc a / 2) (b / 2) in
    omega (
      arith,
      here,
      rest,
      rounds_enough a (suc a / 2) (suc a / 2) (b / 2) (omega arith) (omega arith),
    )

-- An even mask clears the lowest digit.
pub and_even : (a m : ℕ) → bit_and a (2 * m) ≡ 2 * bit_and (a / 2) m
and_even a m = and_digit a (2 * m) ∙ let half : 2 * m / 2 ≡ m = omega arith in rw half (omega arith)

-- A mask of `w` ones keeps a number of `w` digits.
pub and_ones : (w a : ℕ) → a < 2 ^ w → bit_and a (2 ^ w - 1) ≡ a
and_ones zero a h = let e : a ≡ 0 = omega arith in rw e (zero_and 0)
and_ones (suc w) a h =
    let pow : 2 ^ suc w ≡ 2 * 2 ^ w = pow-suc 2 w ∙ omega arith in
    let half : (2 * 2 ^ w - 1) / 2 ≡ 2 ^ w - 1 = omega arith in
    let digit : min (a % 2) ((2 * 2 ^ w - 1) % 2) ≡ a % 2 = omega arith in
    rw pow (
      and_digit a (2 * 2 ^ w - 1)
      ∙ rw (half, digit, and_ones w (a / 2) (omega arith)) (omega arith))

-- A mask with `k` zeros at its end reads the digits from the `k`th on.
pub and_shifted : (k a m : ℕ) → bit_and a (2 ^ k * m) / 2 ^ k ≡ bit_and (a / 2 ^ k) m
and_shifted zero a m =
    let one : 1 * m ≡ m = omega arith in
    let same : a / 1 ≡ a = omega arith in rw (one, same) (omega arith)
and_shifted (suc k) a m =
    let pow : 2 ^ suc k ≡ 2 * 2 ^ k = pow-suc 2 k ∙ omega arith in
    let double : 2 * 2 ^ k * m ≡ 2 * (2 ^ k * m) = mul_assoc 2 (2 ^ k) m in
    let half : 2 * bit_and (a / 2) (2 ^ k * m) / 2 ≡ bit_and (a / 2) (2 ^ k * m) = omega arith in
    rw (pow, double, and_even a (2 ^ k * m))
      (sym (div-div-eq-div-mul (2 * bit_and (a / 2) (2 ^ k * m)) 2 (2 ^ k))
        ∙ ap (λ n. n / 2 ^ k) half
        ∙ and_shifted k (a / 2) m
        ∙ ap (λ n. bit_and n m) (div-div-eq-div-mul a 2 (2 ^ k)))

-- A mask without ones, and one of four.
and_zero : (k a : ℕ) → a ≤ k → bit_and a 0 ≡ 0
and_zero k zero h = zero_and 0
and_zero zero (suc a) h = absurd (omega arith)
and_zero (suc k) (suc a) h =
    omega (arith, and_digit (suc a) 0, and_zero k (suc a / 2) (omega arith))

pub and_fifteen : (a : ℕ) → bit_and a 15 ≡ a % 16
and_fifteen a = omega (
  arith,
  and_digit a 15,
  and_digit (a / 2) 7,
  and_digit (a / 2 / 2) 3,
  and_digit (a / 2 / 2 / 2) 1,
  and_zero (a / 2 / 2 / 2 / 2) (a / 2 / 2 / 2 / 2) (omega arith),
)
