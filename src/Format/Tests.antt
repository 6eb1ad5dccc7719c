-- ===== src/Format/Tests.antt =====
-- Format strings of the kernel, and the theorems at them.
use hry_os.Base.{suc, ◌<◌, set, ◌-◌, ◌^◌, ◌≡◌, refl, some, List, [], ◌∷◌, arith}
use hry_os.Fallible.{Gives}
use hry_os.Charconv.{dec, w32, to_chars, to_chars_signed}
use hry_os.Charconv.Signed.{to_chars_signed-least, more_digits}
use hry_os.Charconv.Digits.{Written}
use hry_os.Format.{
  Arg, unsigned, wide, cstring, format_to, format_arg, format_unsigned, until_zero, empty_buffer,
}
use hry_os.Format.Template.{Template, end, place, encode, render, format_to-render}
use hry_os.Format.Wide.{IsHex, wide-padded}

-- "{} {}": a number and a text.
abbrev two_places : Template
two_places = place [] [] (place (32 ∷ []) [] (end []))

abbrev arguments : List Arg
arguments = unsigned 7 ∷ cstring (105 ∷ 100 ∷ 0 ∷ []) ∷ []

format_to-render_example : format_to arguments (encode two_places) ≡ render two_places arguments
format_to-render_example =
    format_to-render two_places arguments (tt, tt, (((omega arith, omega arith), tt), tt, tt))

printed : format_to arguments (encode two_places) ≡ some (55 ∷ 32 ∷ 105 ∷ 100 ∷ [])
unfolding format_to format_arg format_unsigned until_zero to_chars
printed = refl

wide-padded_example : Gives (IsHex 16 1000) (format_arg (wide 1000) (120 ∷ 48 ∷ 125 ∷ []))
wide-padded_example = wide-padded 1000 (125 ∷ []) (omega arith)

to_chars_signed-least_example :
    Gives
      (λ r.
        (r.0 ≡ 2)
        × (2 < suc (more_digits dec))
        × Written dec
            (suc 20 - more_digits dec)
            (suc (more_digits dec))
            (2 ^ 31)
            (set empty_buffer 20 45)
            r.1)
      (to_chars_signed w32 100 20 32 (2 ^ 31) dec empty_buffer)
to_chars_signed-least_example =
    to_chars_signed-least 100 20 32 dec empty_buffer (omega arith) (omega arith) (omega arith)
      (omega arith) (omega arith)
