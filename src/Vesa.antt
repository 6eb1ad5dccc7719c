-- ===== src/Vesa.antt =====
-- code/kernel/drivers/vesa: the frame buffer and its pixels. The size of the screen comes from the
-- boot loader and never changes: it is a parameter. `none` is an access outside of memory or a failed
-- assertion. The pitch and the depth of a pixel are stored by the driver and never read.
use hry_os.Base.{
  ℕ, ◌/◌, ◌%◌, ◌^◌, Bool, true, ◌&&◌, Option, none, some, List, if◌then◌else◌, ◌==◌, add32, mul32,
}
use hry_os.Fallible.{◌>>=◌}
use hry_os.Algorithm.{write_at}
use hry_os.Vectors.{Vec2, less}

pub record Color : Type 0 where
  pub b : ℕ
  pub g : ℕ
  pub r : ℕ
  pub a : ℕ

abbrev pub create : ℕ → ℕ → ℕ → Color
create red green blue = record { b = blue; g = green; r = red; a = 0 }

-- `{}`
abbrev pub no_color : Color
no_color = create 0 0 0

-- `hlib::get_bit`
abbrev pub get_bit : ℕ → ℕ → Bool
get_bit value bit = value / 2 ^ bit % 2 == 1

pub record Driver : Type 0 where
  pub initialized : Bool
  pub display : List Color

module _ (screen_size : Vec2) where
  -- The index of a pixel in the display and in the terminal's copy of it.
  abbrev pub pixel : Vec2 → ℕ
  pixel pos = add32 (mul32 pos.y screen_size.x) pos.x

  pub init : ℕ → List Color → Driver → Option Driver
  init flags framebuffer v =
      if get_bit flags 12 then some (record { initialized = true; display = framebuffer }) else none

  unfoldable pub set_pixel : Vec2 → Color → Driver → Option Driver
  set_pixel pos color v =
      if v.initialized && less pos screen_size
      then (do
        display ← write_at (pixel pos) color v.display
        some (record v { display = display }))
      else some v
