-- ===== src/Charconv/Tests.antt =====
-- Numbers written into a small buffer.
use hry_os.Base.{ℕ, ◌≡◌, refl, some, List, [], ◌∷◌, arith}
use hry_os.Fallible.{Gives}
use hry_os.Charconv.{hex, to_chars}
use hry_os.Charconv.Digits.{Converted, to_chars-Converted}

abbrev buffer : List ℕ
buffer = 1 ∷ 2 ∷ 3 ∷ 4 ∷ 5 ∷ 6 ∷ []

to_chars-Converted_example : Gives (Converted hex 1 5 700 buffer) (to_chars 701 1 5 700 hex buffer)
to_chars-Converted_example =
    to_chars-Converted 701 1 5 700 hex buffer (omega arith) (omega arith) (omega arith)

seven_hundred : to_chars 701 1 5 700 hex buffer ≡ some (3, 1 ∷ 50 ∷ 66 ∷ 67 ∷ 5 ∷ 6 ∷ [])
unfolding to_chars
seven_hundred = refl
