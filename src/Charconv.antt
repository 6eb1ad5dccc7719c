-- ===== src/Charconv.antt =====
-- code/hlib/include/numerics.hpp and code/hlib/src/charconv.cpp: whole numbers to characters. The
-- buffer is a list, and `first` and `last` are indices in it; `none` is an access outside of it or
-- fuel that runs out. Floating-point numbers are left out.
pub mod Counted
pub mod Digits
pub mod SignedLoop
pub mod Signed
mod Tests
use hry_os.Base.{
  Bool, ℕ, zero, suc, ◌+◌, ◌-◌, ◌/◌, ◌%◌, ◌^◌, sub32, Option, none, some, List, if◌then◌else◌, ltb,
  leb, ◌==◌,
}
use hry_os.Fallible.{◌>>=◌}
use hry_os.Algorithm.{write_at}

pub data NumBase : Type 0 where
  bin oct dec hex : NumBase

abbrev pub get_base : NumBase → ℕ
get_base bin = 2
get_base oct = 8
get_base dec = 10
get_base hex = 16

pub digits_loop : ℕ → NumBase → ℕ → Option ℕ
digits_loop zero base number = none
digits_loop (suc k) base number =
    let rest = digits_loop k base (number / get_base base) in
    if number == 0 then some 0 else do count ← rest; some (suc count)

pub digits_count : ℕ → NumBase → ℕ → Option ℕ
unfolding digits_loop
digits_count fuel base number =
    if ltb number (get_base base) then some 1 else digits_loop fuel base number

-- `DIGITS[digit]`
abbrev pub digit_char : ℕ → ℕ
digit_char digit = if ltb digit 10 then 48 + digit else 55 + digit

-- The last step of the loop leaves `it` before the number; it is not read then.
pub write_digits : ℕ → NumBase → ℕ → ℕ → List ℕ → Option (List ℕ)
write_digits zero base it value buffer = none
write_digits (suc k) base it value buffer = if value == 0 then some buffer else do
  buffer ← write_at it (digit_char (value % get_base base)) buffer
  write_digits k base (it - 1) (value / get_base base) buffer

unfoldable pub to_chars : ℕ → ℕ → ℕ → ℕ → NumBase → List ℕ → Option (ℕ × List ℕ)
unfolding digits_count write_digits
to_chars fuel first last value base buffer = if leb last first then some (0, buffer) else do
  digits_count ← digits_count fuel base value
  if ltb (last - first) digits_count then some (0, buffer) else do
    let it = first + digits_count - 1
    buffer ← if value == 0 then write_at it 48 buffer else some buffer
    buffer ← write_digits fuel base it value buffer
    some (digits_count, buffer)

-- `int8_t`, `int16_t` and `int32_t`. A value is its bit pattern: the negative ones are the upper half.
pub data Width : Type 0 where
  w8 w16 w32 : Width

abbrev pub modulus : Width → ℕ
modulus w8 = 2 ^ 8
modulus w16 = 2 ^ 16
modulus w32 = 2 ^ 32

abbrev pub is_negative : Width → ℕ → Bool
is_negative w8 v = leb 0x80 v
is_negative w16 v = leb 0x8000 v
is_negative w32 v = leb 0x80000000 v

-- `-value`, which wraps at the least value.
abbrev pub negate : Width → ℕ → ℕ
negate w v = (modulus w - v) % modulus w

-- The value as a `size_t`, as it is in `value % num_base` and `value /= num_base`.
abbrev pub extend : Width → ℕ → ℕ
extend w v = if is_negative w v then v + (2 ^ 32 - modulus w) else v

-- A negative number is below the base.
pub digits_count_signed : Width → ℕ → NumBase → ℕ → Option ℕ
digits_count_signed w fuel base number =
    if is_negative w number then some 1 else digits_count fuel base number

pub write_digits_signed : Width → ℕ → NumBase → ℕ → ℕ → List ℕ → Option (List ℕ)
write_digits_signed w zero base it value buffer = none
write_digits_signed w (suc k) base it value buffer = if value == 0 then some buffer else do
  buffer ← write_at it (digit_char (extend w value % get_base base)) buffer
  write_digits_signed w k base (sub32 it 1) (extend w value / get_base base % modulus w) buffer

-- `minus` is 1 once a sign is written.
pub to_chars_from : Width → ℕ → ℕ → ℕ → ℕ → ℕ → NumBase → List ℕ → Option (ℕ × List ℕ)
to_chars_from w minus fuel first last value base buffer = do
  digits_count ← digits_count_signed w fuel base value
  if ltb (last - first) (minus + digits_count) then some (0, buffer) else do
    let it = first + (minus + digits_count) - 1
    buffer ← if value == 0 then write_at it 48 buffer else some buffer
    buffer ← write_digits_signed w fuel base it value buffer
    some (minus + digits_count, buffer)

pub to_chars_signed : Width → ℕ → ℕ → ℕ → ℕ → NumBase → List ℕ → Option (ℕ × List ℕ)
to_chars_signed w fuel first last value base buffer =
    if leb last first
    then some (0, buffer)
    else (if is_negative w value
        then (do
          buffer ← write_at first 45 buffer
          to_chars_from w 1 fuel first last (negate w value) base buffer)
        else to_chars_from w 0 fuel first last value base buffer)
