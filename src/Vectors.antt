-- ===== src/Vectors.antt =====
-- code/kernel/math/vec2.hpp: pairs of 32-bit numbers (`vec2u`) and their operators, which wrap. The
-- operators that assign give the new value of their left side.
use hry_os.Base.{ℕ, ◌<◌, ◌≡◌, ap₂, Bool, ◌&&◌, arith, ltb, ◌==◌, u32_mod, add32, sub32, mul32}

pub record Vec2 : Type 0 where
  pub x : ℕ
  pub y : ℕ

abbrev pub vec2 : ℕ → ℕ → Vec2
vec2 x y = record { x = x; y = y }

-- The constructor from one value.
abbrev pub both : ℕ → Vec2
both value = vec2 value value

abbrev pub negate : Vec2 → Vec2
negate right = vec2 (sub32 0 right.x) (sub32 0 right.y)

abbrev pub add : Vec2 → Vec2 → Vec2
add left right = vec2 (add32 left.x right.x) (add32 left.y right.y)

abbrev pub add_scalar : Vec2 → ℕ → Vec2
add_scalar left right = vec2 (add32 left.x right) (add32 left.y right)

abbrev pub subtract : Vec2 → Vec2 → Vec2
subtract left right = vec2 (sub32 left.x right.x) (sub32 left.y right.y)

abbrev pub subtract_scalar : Vec2 → ℕ → Vec2
subtract_scalar left right = vec2 (sub32 left.x right) (sub32 left.y right)

abbrev pub times : Vec2 → Vec2 → Vec2
times left right = vec2 (mul32 left.x right.x) (mul32 left.y right.y)

abbrev pub times_scalar : Vec2 → ℕ → Vec2
times_scalar left right = vec2 (mul32 left.x right) (mul32 left.y right)

abbrev pub equal : Vec2 → Vec2 → Bool
equal left right = left.x == right.x && left.y == right.y

abbrev pub less : Vec2 → Vec2 → Bool
less left right = ltb left.x right.x && ltb left.y right.y

abbrev pub greater : Vec2 → Vec2 → Bool
greater left right = ltb right.x left.x && ltb right.y left.y

-- Both coordinates are 32-bit numbers.
abbrev pub IsVec2u : Vec2 → Type 0
IsVec2u v = (v.x < u32_mod) × (v.y < u32_mod)

sub32-add32 : (a b : ℕ) → a < u32_mod → b < u32_mod → sub32 (add32 a b) b ≡ a
sub32-add32 a b ha hb = omega arith

add32-negate : (a b : ℕ) → a < u32_mod → b < u32_mod → add32 a (sub32 0 b) ≡ sub32 a b
add32-negate a b ha hb = omega arith

-- What is added is taken away again, and taking away is adding the negative.
pub subtract-add :
    (v w : Vec2)
    → IsVec2u v
    → IsVec2u w
    → (subtract (add v w) w ≡ v) × (add v (negate w) ≡ subtract v w)
subtract-add v w hv hw = (
  ap₂ vec2 (sub32-add32 v.x w.x hv.0 hw.0) (sub32-add32 v.y w.y hv.1 hw.1),
  ap₂ vec2 (add32-negate v.x w.x hv.0 hw.0) (add32-negate v.y w.y hv.1 hw.1),
)
