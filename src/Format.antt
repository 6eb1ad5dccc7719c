-- ===== src/Format.antt =====
-- code/hlib/include/format.hpp: format strings. What goes to the output function is a list of
-- characters. A `const char*` is the list of the characters from it on, as far as memory goes; `none`
-- is a read behind it, or a fault of a number's conversion. The formatter of `float` is left out; the
-- one of `string_view` (code/hlib/include/string_view.hpp) is `view`.
pub mod Template
pub mod Numbers
pub mod Wide
pub mod Signed
mod Tests
use hry_os.Base.{
  ℕ, suc, ◌+◌, ◌/◌, ◌%◌, ◌^◌, Bool, true, false, ◌&&◌, ◌||◌, not, Option, none, some, List, [], ◌∷◌,
  ◌++◌, if◌then◌else◌, ◌==◌, get_elem?, replicate, sub32,
}
use hry_os.Fallible.{◌>>=◌}
use hry_os.Charconv.{NumBase, bin, oct, dec, hex, to_chars, to_chars_signed, Width, modulus}

-- An argument, by the formatter that its type picks: `char`, `short` and `int` (`signed`); the
-- unsigned types up to 32 bits, also a pointer, which is always in base 16; and so on.
pub data Arg : Type 0 where
  signed : Width → ℕ → Arg
  unsigned : ℕ → Arg
  boolean : Bool → Arg
  wide : ℕ → Arg
  cstring : List ℕ → Arg
  chars : List ℕ → Arg
  pointer : ℕ → Arg
  view : List ℕ → Arg

-- `while (*it) { output(*it); it++; }`
pub until_zero : List ℕ → Option (List ℕ)
until_zero [] = none
until_zero (ch ∷ it) = if ch == 0 then some [] else do text ← until_zero it; some (ch ∷ text)

-- `formatter<char[N]>::format`: the loop ends with the array, too.
unfoldable pub array_text : List ℕ → List ℕ
array_text [] = []
array_text (ch ∷ txt) = if ch == 0 then [] else ch ∷ array_text txt

-- `formatter_integral::parse`
abbrev pub parse_base : ℕ → NumBase
parse_base ch =
    if ch == b'x' then hex else if ch == b'b' then bin else if ch == b'o' then oct else dec

-- `char buffer[33]{}`
abbrev pub empty_buffer : List ℕ
empty_buffer = replicate 33 0

pub format_unsigned : NumBase → ℕ → Option (List ℕ)
unfolding until_zero
format_unsigned base num = do
  converted ← to_chars (suc num) 0 32 num base empty_buffer
  until_zero converted.1

pub format_signed : NumBase → Width → ℕ → Option (List ℕ)
unfolding until_zero
format_signed base w num = do
  converted ← to_chars_signed w (suc (modulus w)) 0 32 num base empty_buffer
  until_zero converted.1

-- `formatter<bool>::format`
pub format_bool : Bool → Bool → List ℕ
format_bool as_string num =
    if as_string
    then if num then b't' ∷ b'r' ∷ b'u' ∷ b'e' ∷ [] else b'f' ∷ b'a' ∷ b'l' ∷ b's' ∷ b'e' ∷ []
    else (if num then b'1' else b'0') ∷ []

abbrev pub is_hex : NumBase → Bool
is_hex bin = false
is_hex oct = false
is_hex dec = false
is_hex hex = true

-- `formatter<uint64_t>::print_value`
pub print_value : NumBase → Bool → ℕ → Option (List ℕ)
unfolding until_zero
print_value base leading_zero value = do
  converted ← to_chars (suc value) 0 32 value base empty_buffer
  text ← until_zero converted.1
  some ((if leading_zero && is_hex base then replicate (sub32 8 converted.0) b'0' else []) ++ text)

-- `formatter<uint64_t>::format`
pub format_wide : NumBase → Bool → ℕ → Option (List ℕ)
format_wide base leading_zero num = do
  high ←
      if not (num / 2 ^ 32 == 0) || ((num / 2 ^ 32 == 0) && leading_zero)
      then print_value base leading_zero (num / 2 ^ 32 % 2 ^ 32)
      else some []
  low ← print_value base leading_zero (num % 2 ^ 32)
  some (high ++ low)

-- `f.parse(fmt)` and `f.format(output, arg)`.
unfoldable pub format_arg : Arg → List ℕ → Option (List ℕ)
format_arg (signed w num) fmt = do ch ← get_elem? fmt 0; format_signed (parse_base ch) w num
format_arg (unsigned num) fmt = do ch ← get_elem? fmt 0; format_unsigned (parse_base ch) num
format_arg (boolean num) fmt = do ch ← get_elem? fmt 0; some (format_bool (ch == b's') num)
format_arg (wide num) fmt = do
  ch ← get_elem? fmt 0
  next ← get_elem? fmt 1
  format_wide (parse_base ch) (next == b'0') num
format_arg (cstring txt) fmt = until_zero txt
format_arg (chars txt) fmt = some (array_text txt)
format_arg (pointer addr) fmt = format_unsigned hex addr
format_arg (view str) fmt = some str

-- `print_to_format_sign`: what goes out, and where `fmt` is then.
pub print_to_format_sign : List ℕ → Option (List ℕ × List ℕ)
print_to_format_sign [] = none
print_to_format_sign (ch ∷ fmt) =
    if (ch == b'{') || (ch == 0)
    then some ([], ch ∷ fmt)
    else (do (out, rest) ← print_to_format_sign fmt; some (ch ∷ out, rest))

-- `while (!is_end_formatting(*fmt)) ++fmt; ++fmt;`
pub skip_placeholder : List ℕ → Option (List ℕ)
skip_placeholder [] = none
skip_placeholder (ch ∷ fmt) = if ch == b'}' then some fmt else skip_placeholder fmt

-- `++fmt`, where `*fmt` has been read.
abbrev pub advance : List ℕ → List ℕ
advance [] = []
advance (_ ∷ fmt) = fmt

unfoldable pub format_to : List Arg → List ℕ → Option (List ℕ)
unfolding print_to_format_sign skip_placeholder format_arg
format_to [] fmt = until_zero fmt
format_to (arg ∷ args) fmt = do
  (out, sign) ← print_to_format_sign fmt
  let inside = advance sign
  shown ← format_arg arg inside
  after ← skip_placeholder inside
  rest ← format_to args after
  some (out ++ shown ++ rest)
