-- ===== src/Format/Signed.antt =====
-- Signed numbers in a text: a minus sign, and the digits of the absolute value.
use hry_os.Base.{ℕ, ◌-◌, ◌≡◌, true, false, List, ◌∷◌}
use hry_os.Charconv.{NumBase, Width, modulus, is_negative}
use hry_os.Format.Numbers.{value_of}

-- The text of a signed number.
pub data IsSigned (base : NumBase) (w : Width) (v : ℕ) (text : List ℕ) : Type 0 where
  plus : is_negative w v ≡ false → value_of base text ≡ v → IsSigned base w v text
  minus :
      is_negative w v ≡ true
      → (digits : List ℕ) → text ≡ b'-' ∷ digits
      → value_of base digits ≡ modulus w - v
      → IsSigned base w v text
