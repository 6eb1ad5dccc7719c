-- ===== src/Charconv/Signed.antt =====
-- Signed numbers: a sign, and the digits of the absolute value.
use mathlib.Core.Path.{subst}
use hry_os.Base.{
  ℕ, zero, suc, ◌+◌, ◌/◌, ◌%◌, some, sub32, ◌-◌, ◌^◌, ◌<◌, ◌≤◌, ◌≡◌, ◌≢◌, refl, true, false, List,
  arith, ltb, leb, Bool-cases, inl, inr, length, length-set, set,
}
use hry_os.Fallible.{Gives, Gives-mono, Gives-bind}
use hry_os.Charconv.{
  NumBase, bin, oct, dec, hex, Width, w8, w16, w32, modulus, is_negative, negate, get_base,
  write_digits, digit_char, digits_count_signed, write_digits_signed, to_chars_from,
  to_chars_signed,
}
use hry_os.Charconv.SignedLoop.{write_digits_signed-eq, Placed, to_chars_from-Placed}
use hry_os.Charconv.Digits.{Written, write_digits-Written}
use hry_os.Charconv.Counted.{HasDigits}

-- A number that is not negative is written as an unsigned one; of a negative one the sign comes
-- first, and is there also where the digits do not fit.
pub data SignedConverted (w : Width) (base : NumBase) (first last v : ℕ) (xs : List ℕ)
    (r : ℕ × List ℕ) : Type 0 where
  positive :
      is_negative w v ≡ false
      → Placed base 0 first last v xs r
      → SignedConverted w base first last v xs r
  negative :
      is_negative w v ≡ true
      → Placed base 1 first last (modulus w - v) (set xs first 45) r
      → SignedConverted w base first last v xs r

absolute :
    (w : Width) (v : ℕ)
    → is_negative w v ≡ true
    → v < modulus w
    → is_negative w (v - 1) ≡ true
    → (negate w v ≡ modulus w - v) × (is_negative w (modulus w - v) ≡ false) × (modulus w - v ≢ 0)
absolute w8 v h lt more = ground arith
absolute w16 v h lt more = ground arith
absolute w32 v h lt more = ground arith

pub to_chars_signed-Converted :
    (w : Width) (fuel first last v : ℕ) (base : NumBase) (xs : List ℕ)
    → v < modulus w
    → (is_negative w v ≡ true → is_negative w (v - 1) ≡ true)
    → modulus w < fuel
    → first < last
    → last ≤ length xs
    → length xs < 2 ^ 32
    → Gives (SignedConverted w base first last v xs) (to_chars_signed w fuel first last v base xs)
unfolding to_chars_signed
to_chars_signed-Converted w fuel first last v base xs word not_least enough some_room room short =
    let ordered : leb last first ≡ false = ground arith in
    let inside : ltb first (length xs) ≡ true = ground arith in
    elim (Bool-cases (is_negative w v)) [
      | inr small ↦
          rw (ordered, small)
            (Gives-mono (to_chars_from w 0 fuel first last v base xs)
              (to_chars_from-Placed w 0 fuel first last v base xs small (λ _. refl) (omega arith)
                some_room room short)
              (λ r p. positive small p))
      | inl below ↦
          let (minus, small, ne) = absolute w v below word (not_least below) in
          rw (ordered, below, inside, minus)
            (Gives-mono (to_chars_from w 1 fuel first last (modulus w - v) base (set xs first 45))
              (to_chars_from-Placed w 1 fuel first last (modulus w - v) base (set xs first 45) small
                (λ z. absurd (ne z)) (omega arith) some_room (omega (arith, length-set xs first 45))
                (omega (arith, length-set xs first 45)))
              (λ r p. negative below p))
    ]

-- One less than the number of digits of 2^31.
abbrev pub more_digits : NumBase → ℕ
more_digits bin = 31
more_digits oct = 10
more_digits dec = 9
more_digits hex = 7

least-HasDigits : (base : NumBase) → HasDigits base (suc (more_digits base)) (2 ^ 31)
least-HasDigits bin = ground arith
least-HasDigits oct = ground arith
least-HasDigits dec = ground arith
least-HasDigits hex = ground arith

-- The first round works on the least number as on 2^31, and what is left then is not negative.
first_round :
    (base : NumBase)
    → (2 ^ 31 / get_base base % 2 ^ 32 ≡ 2 ^ 31 / get_base base)
      × (is_negative w32 (2 ^ 31 / get_base base) ≡ false)
      × (2 < suc (more_digits base))
      × (more_digits base ≤ 31)
first_round bin = (refl, refl, omega arith, omega arith)
first_round oct = (refl, refl, omega arith, omega arith)
first_round dec = (refl, refl, omega arith, omega arith)
first_round hex = (refl, refl, omega arith, omega arith)

least_loop :
    (f it : ℕ) (base : NumBase) (xs : List ℕ)
    → more_digits base ≤ it
    → it < 2 ^ 32
    → write_digits_signed w32 (suc f) base it (2 ^ 31) xs ≡ write_digits (suc f) base it (2 ^ 31) xs
unfolding write_digits_signed write_digits
least_loop f it base xs room bound =
    let (quotient, small, _, _) = first_round base in
    let m = more_digits base in
    let ys = set xs it (digit_char (2 ^ 31 % get_base base)) in
    let rest =
      write_digits_signed-eq w32 f base (it - m) m (sub32 it 1) (it - 1) (2 ^ 31 / get_base base) ys
        small (least-HasDigits base).1 (omega arith) (λ some_left. (omega arith, omega arith)) in
    elim (Bool-cases (ltb it (length xs))) [
      | inr out ↦ rw out refl
      | inl inside ↦ rw (inside, quotient) rest
    ]

-- With the least number of 32 bits, in each base, `to_chars` returns 2, as if it had one digit: it
-- writes the minus sign and then over it the digits of 2^31, which end at the second place of the
-- range. They are more than two, so all but the last two are written before the range. It is
-- required that the buffer has room for them there, that the range has two places, and that there
-- is more fuel than digits.
pub to_chars_signed-least :
    (fuel first last : ℕ) (base : NumBase) (xs : List ℕ)
    → suc (more_digits base) < fuel
    → more_digits base ≤ suc first
    → first + 2 ≤ last
    → last ≤ length xs
    → length xs < 2 ^ 32
    → Gives
        (λ r.
          (r.0 ≡ 2)
          × (2 < suc (more_digits base))
          × Written base
              (suc first - more_digits base)
              (suc (more_digits base))
              (2 ^ 31)
              (set xs first b'-')
              r.1)
        (to_chars_signed w32 fuel first last (2 ^ 31) base xs)
unfolding to_chars_signed to_chars_from digits_count_signed
to_chars_signed-least zero first last base xs enough space two room short = absurd (omega arith)
to_chars_signed-least (suc f) first last base xs enough space two room short =
    let ordered : leb last first ≡ false = ground arith in
    let inside : ltb first (length xs) ≡ true = ground arith in
    let fits : ltb (last - first) 2 ≡ false = ground arith in
    let m = more_digits base in
    let ys = set xs first b'-' in
    let at : first + 2 - 1 ≡ suc first = omega arith in
    let (_, _, few, _) = first_round base in
    let at' : suc first - m + suc m - 1 ≡ suc first = omega arith in
    rw (ordered, inside, fits, at, least_loop f (suc first) base ys space (omega arith))
      (Gives-bind (Written base (suc first - m) (suc m) (2 ^ 31) ys) _
        (write_digits (suc f) base (suc first) (2 ^ 31) ys) (λ zs. some (2, zs))
        (subst
          (λ it.
            Gives (Written base (suc first - m) (suc m) (2 ^ 31) ys)
              (write_digits (suc f) base it (2 ^ 31) ys))
          at'
          (write_digits-Written (suc f) base (suc first - m) (suc m) (2 ^ 31) ys
            (least-HasDigits base) enough (omega (arith, length-set xs first b'-'))))
        (λ zs w. (refl, few, w)))
