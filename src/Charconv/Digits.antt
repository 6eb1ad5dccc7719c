-- ===== src/Charconv/Digits.antt =====
-- `to_chars` and reading back what it writes.
use mathlib.Core.Path.{subst}
use hry_os.Base.{
  ℕ, zero, suc, ◌+◌, ◌-◌, ◌*◌, ◌/◌, ◌%◌, ◌<◌, ◌≤◌, ◌≡◌, ◌≢◌, refl, sym, ap, ◌∙◌, ◌⊎◌, inl, inr,
  true, false, some, List, arith, if◌then◌else◌, ltb, leb, ◌==◌, ==_false, Bool-cases, ltb→lt,
  length, length-set, get_or, set, get_or-set_self, get_or-set_ne,
}
use hry_os.Fallible.{Gives, Gives-mono, Gives-bind, ◌>>=◌}
use hry_os.Algorithm.{write_at}
use hry_os.Charconv.{
  NumBase, bin, oct, dec, hex, get_base, digits_count, digit_char, write_digits, to_chars,
}
use hry_os.Charconv.Counted.{
  IsDigit, digit_value, digit_char-IsDigit, HasDigits, Counts, read, recompose, few_digits,
  digits_count-HasDigits,
}

-- `k` digits of `v` stand in `ys` from `first` on, each a digit of the base, and all else is as
-- in `xs`.
pub record Written (base : NumBase) (first k v : ℕ) (xs ys : List ℕ) : Type 0 where
  pub size : length ys ≡ length xs
  pub rest :
      (j : ℕ) → (leb first j ≡ false) ⊎ (leb (first + k) j ≡ true) → get_or ys j 0 ≡ get_or xs j 0
  pub value : read base first k ys ≡ v
  pub digits : (j : ℕ) → j < k → IsDigit base (get_or ys (first + j) 0)

Written-step :
    (base : NumBase) (first k v : ℕ) (xs zs : List ℕ)
    → HasDigits base (suc k) v
    → first + k < length xs
    → Written base first k
        (v / get_base base)
        (set xs (first + k) (digit_char (v % get_base base)))
        zs
    → Written base first (suc k) v xs zs
Written-step base first k v xs zs h room w =
    let ch = digit_char (v % get_base base) in
    let behind : leb (first + k) (first + k) ≡ true = ground arith in
    let last : get_or zs (first + k) 0 ≡ ch =
      w.rest (first + k) (inr behind) ∙ get_or-set_self xs (first + k) ch 0 room in
    record {
      size = w.size ∙ length-set xs (first + k) ch;
      rest = λ j out.
          let before : (leb first j ≡ false) ⊎ (leb (first + k) j ≡ true) = ground arith in
          let other : first + k ≢ j = ground arith in
          w.rest j before ∙ get_or-set_ne xs {i = first + k} {j = j} ch 0 other;
      value = rw (w.value, last) (recompose base v);
      digits = λ j few. elim (Bool-cases (ltb j k)) [
        | inl before ↦ w.digits j (ltb→lt j k before)
        | inr end ↦
            let here : j ≡ k = ground arith in
            subst (IsDigit base) (sym last ∙ ap (λ (i : ℕ). get_or zs (first + i) 0) (sym here))
              (digit_char-IsDigit base v)
      ];
    }

pub write_digits-Written :
    (fuel : ℕ) (base : NumBase) (first k v : ℕ) (xs : List ℕ)
    → HasDigits base k v
    → k < fuel
    → first + k ≤ length xs
    → Gives (Written base first k v xs) (write_digits fuel base (first + k - 1) v xs)
unfolding write_digits
write_digits-Written zero base first k v xs h enough room = absurd (omega arith)
write_digits-Written (suc f) base first zero v xs h enough room =
    let none_left : (v == 0) ≡ true = ground arith in
    rw none_left (record {
      size = refl;
      rest = λ j _. refl;
      value = sym h;
      digits = λ j few. absurd (omega arith);
    })
write_digits-Written (suc f) base first (suc k) v xs h enough room =
    let more : (v == 0) ≡ false = ==_false v 0 h.0 in
    let at : first + suc k - 1 ≡ first + k = omega arith in
    let inside : ltb (first + k) (length xs) ≡ true = ground arith in
    let ch = digit_char (v % get_base base) in
    let ys = set xs (first + k) ch in
    rw (more, at, inside)
      (Gives-mono (write_digits f base (first + k - 1) (v / get_base base) ys)
        (write_digits-Written f base first k (v / get_base base) ys h.1 (omega arith)
          (omega (arith, length-set xs (first + k) ch)))
        (λ zs w. Written-step base first k v xs zs h (omega arith) w))

-- Either the digits do not fit and nothing is written, or they are there, and nothing else changes.
pub data Converted (base : NumBase) (first last v : ℕ) (xs : List ℕ) (r : ℕ × List ℕ) : Type 0 where
  too_long :
      (k : ℕ)
      → HasDigits base k v
      → last - first < k
      → r ≡ (0, xs)
      → Converted base first last v xs r
  written :
      0 < r.0
      → r.0 ≤ last - first
      → Counts base v r.0
      → Written base first r.0 v xs r.1
      → Converted base first last v xs r

pub does_not_fit :
    (base : NumBase) (first last v k : ℕ) (xs : List ℕ)
    → (v ≡ 0 → first < last)
    → Counts base v k
    → last - first < k
    → Converted base first last v xs (0, xs)
does_not_fit base first last v k xs some_room (inl (ne, h)) long = too_long k h long refl
does_not_fit base first last v k xs some_room (inr (z, o)) long =
    absurd (omega (arith, o, some_room z))

pub some_digits : (base : NumBase) (k v : ℕ) → HasDigits base k v → v ≢ 0 → 0 < k
some_digits base zero v h ne = absurd (ne h)
some_digits base (suc k) v h ne = omega arith

zero-IsDigit : (base : NumBase) → IsDigit base 48 × (0 * get_base base + digit_value base 48 ≡ 0)
zero-IsDigit bin = (omega arith, refl)
zero-IsDigit oct = (omega arith, refl)
zero-IsDigit dec = (omega arith, refl)
zero-IsDigit hex = (omega arith, refl)

zero-Written :
    (base : NumBase) (first : ℕ) (xs : List ℕ)
    → first < length xs
    → Written base first 1 0 xs (set xs first 48)
zero-Written base first xs room = record {
  size = length-set xs first 48;
  rest = λ j out.
      let other : first ≢ j = ground arith in get_or-set_ne xs {i = first} {j = j} 48 0 other;
  value =
      let at : first + 0 ≡ first = omega arith in
      rw (at, get_or-set_self xs first 48 0 room) (zero-IsDigit base).1;
  digits = λ j few.
      let at : first + j ≡ first = omega arith in
      rw (at, get_or-set_self xs first 48 0 room) (zero-IsDigit base).0;
}

-- The two writing steps of `to_chars`.
pub writes :
    (fuel : ℕ) (base : NumBase) (first last v k : ℕ) (xs : List ℕ)
    → v < fuel
    → last ≤ length xs
    → Counts base v k
    → (k ≤ last - first) × (first < last)
    → Gives (Converted base first last v xs) (do
      buffer ← if v == 0 then write_at (first + k - 1) 48 xs else some xs
      buffer ← write_digits fuel base (first + k - 1) v buffer
      some (k, buffer))
unfolding write_digits
writes fuel base first last v k xs enough room (inl (ne, h)) fits =
    let more : (v == 0) ≡ false = ==_false v 0 ne in
    rw more (
      Gives-bind (Written base first k v xs) (Converted base first last v xs)
        (write_digits fuel base (first + k - 1) v xs) (λ ys. some (k, ys))
        (write_digits-Written fuel base first k v xs h (omega (arith, few_digits base k v h))
          (omega arith))
        (λ ys w. written (some_digits base k v h ne) fits.0 (inl (ne, h)) w))
writes zero base first last v k xs enough room (inr (z, o)) fits = absurd (omega arith)
writes (suc f) base first last v k xs enough room (inr (z, o)) fits =
    let inside : ltb first (length xs) ≡ true = ground arith in
    let at : first + 1 - 1 ≡ first = omega arith in
    rw (z, o, at, inside)
      (written (omega arith) (omega (arith, fits, o)) (inr (refl, refl))
        (zero-Written base first xs (omega (arith, fits))))

-- With more fuel than the number and a range that is not empty and lies in the buffer, `to_chars`
-- of an unsigned number returns. Either the number has more digits than the range has places, and
-- nothing is written and 0 is returned; or the characters that are returned in number fit, each is
-- a digit of the base, reading them gives the number, and nothing else in the buffer changes.
pub to_chars-Converted :
    (fuel first last v : ℕ) (base : NumBase) (xs : List ℕ)
    → v < fuel
    → first < last
    → last ≤ length xs
    → Gives (Converted base first last v xs) (to_chars fuel first last v base xs)
unfolding to_chars
to_chars-Converted fuel first last v base xs enough some_room room =
    let ordered : leb last first ≡ false = ground arith in
    rw ordered (
      Gives-bind (λ k. ((v ≢ 0) × HasDigits base k v) ⊎ ((v ≡ 0) × (k ≡ 1)))
        (Converted base first last v xs) (digits_count fuel base v) _
        (digits_count-HasDigits fuel base v enough)
        λ k digits. elim (Bool-cases (ltb (last - first) k)) [
          | inl long ↦ rw long (
              does_not_fit base first last v k xs (λ _. some_room) digits
                (ltb→lt (last - first) k long))
          | inr fits ↦
              rw fits
                (writes fuel base first last v k xs enough room digits (ground arith, some_room))
        ])
