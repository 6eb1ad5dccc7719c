-- ===== src/Terminal/Vga.antt =====
-- code/kernel/drivers/vga and code/kernel/terminal/impl/vga_impl.cpp: the text screen of 80 columns and
-- 25 lines, as the terminal's screen. The display is the list of its entries, line by line.
pub mod Display
use Prim.Native.Nat.{bit_or}
use hry_os.Base.{
  ℕ, zero, suc, ◌+◌, ◌-◌, ◌*◌, ◌/◌, ◌%◌, ◌^◌, ◌<◌, ◌≤◌, ◌≡◌, refl, sym, ap, ◌∙◌, Bool, true, false,
  ◌&&◌, Option, none, some, List, arith, if◌then◌else◌, ltb, leb, set, length, length-set, get_or,
  get_or-set_ne, get_or-set_self, Bool-cases, inl, inr, ◌==◌,
}
use hry_os.Fallible.{◌>>=◌, Gives, Gives-bind, Gives-mono}
use hry_os.Algorithm.{copy_n, copy_n-Copied, Copied, in_range, write_at}
use hry_os.Vectors.{Vec2, vec2}
use hry_os.Terminal.{CombinedColor, white, black, Screen}

pub record Entry : Type 0 where
  pub character : ℕ
  pub color : ℕ

pub record Vga : Type 0 where
  pub display : List Entry
  pub cursor : ℕ

abbrev pub display_width : ℕ
display_width = 80

abbrev pub display_height : ℕ
display_height = 25

-- `entry::reset`
abbrev pub blank : Entry
blank = record { character = 0; color = 0 }

-- `entry::set_color`, to 8 bits.
abbrev pub color_value : CombinedColor → ℕ
color_value c = bit_or c.foreground (c.background * 16) % 256

-- The index of the entry that `get_entry` points at; `none` is null.
abbrev pub get_entry : Vec2 → Option ℕ
get_entry pos =
    if ltb pos.x display_width && ltb pos.y display_height
    then some (pos.y * display_width + pos.x)
    else none

pub put_char_at : ℕ → Vec2 → CombinedColor → Vga → Option Vga
put_char_at ch pos color v = do
  i ← get_entry pos
  display ← write_at i (record { character = ch; color = color_value color }) v.display
  some (record v { display = display })

pub set_entry : Vec2 → ℕ → CombinedColor → Vga → Option Vga
unfolding put_char_at
set_entry pos ch color v =
    if ltb pos.x display_width && ltb pos.y display_height
    then put_char_at ch pos color v
    else some v

-- The two bytes that the cursor registers get.
pub set_cursor_pos : Vec2 → Vga → Option Vga
set_cursor_pos pos v = some (record v { cursor = (pos.y * display_width + pos.x) % 2 ^ 16 })

pub reset_row : ℕ → ℕ → Vga → Option Vga
reset_row zero x v = some v
reset_row (suc n) x v = do
  i ← get_entry (vec2 x (display_height - 1))
  display ← write_at i blank v.display
  reset_row n (suc x) (record v { display = display })

pub scroll_down : Vga → Option Vga
unfolding reset_row
scroll_down v = do
  display ← copy_n (display_width * (display_height - 1)) display_width 0 v.display
  reset_row display_width 0 (record v { display = display })

abbrev pub clear_color : CombinedColor
clear_color = record { foreground = white; background = black }

pub clear_row : ℕ → ℕ → ℕ → Vga → Option Vga
unfolding put_char_at
clear_row zero x y v = some v
clear_row (suc n) x y v = do v ← put_char_at 32 (vec2 x y) clear_color v; clear_row n (suc x) y v

pub clear_rows : ℕ → ℕ → Vga → Option Vga
unfolding clear_row
clear_rows zero y v = some v
clear_rows (suc n) y v = do v ← clear_row display_width 0 y v; clear_rows n (suc y) v

pub clear_screen : Vga → Option Vga
unfolding clear_rows
clear_screen v = clear_rows display_height 0 v

abbrev pub vga_impl : Screen Vga
vga_impl = record {
  init = some;
  clear_screen = clear_screen;
  put_char_at = put_char_at;
  get_width = display_width;
  get_height = display_height;
  set_cursor_at = set_cursor_pos;
  scroll_down = scroll_down;
}
