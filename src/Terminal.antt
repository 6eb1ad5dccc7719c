-- ===== src/Terminal.antt =====
-- code/kernel/terminal/terminal.cpp: the cursor, the colours and the text that go to a screen. The
-- screen is a record of the operations that code/kernel/terminal/impl/impl.hpp declares; an operation
-- that reads or writes outside the screen's memory gives `none`. Vga.antt holds the VGA screen.
pub mod Cursor
pub mod Vga
pub mod VesaScreen
mod Tests
use hry_os.Base.{
  ℕ, ◌+◌, Bool, true, false, Option, none, some, List, [], ◌∷◌, if◌then◌else◌, ltb, ◌==◌, not,
  add32, sub32,
}
use hry_os.Fallible.{◌>>=◌}
use hry_os.Vectors.{Vec2, vec2}

-- Colours are the numbers of the enumeration.
pub record CombinedColor : Type 0 where
  pub foreground : ℕ
  pub background : ℕ

abbrev pub black : ℕ
black = 0

abbrev pub white : ℕ
white = 15

-- `terminal::impl`, with the screen's memory as its state `D`.
pub record Screen (D : Type 0) : Type 0 where
  pub init : D → Option D
  pub clear_screen : D → Option D
  pub put_char_at : ℕ → Vec2 → CombinedColor → D → Option D
  pub get_width : ℕ
  pub get_height : ℕ
  pub set_cursor_at : Vec2 → D → Option D
  pub scroll_down : D → Option D

pub record Terminal (D : Type 0) : Type 0 where
  pub is_initialized : Bool
  pub cursor_pos : Vec2
  pub current_color : CombinedColor
  pub screen : D

module _ {D : Type 0} (impl : Screen D) where
  abbrev pub on_screen : (D → Option D) → Terminal D → Option (Terminal D)
  on_screen f t = do d ← f t.screen; some (record t { screen = d })

  pub init : Terminal D → Option (Terminal D)
  init t = do
    t ← on_screen impl.init t
    some (record t {
      cursor_pos = vec2 0 0;
      current_color = record { foreground = white; background = black };
      is_initialized = true;
    })

  pub scroll_down : Terminal D → Option (Terminal D)
  scroll_down t = if not t.is_initialized then some t else do
    t ← on_screen impl.scroll_down t
    some (record t { cursor_pos = vec2 t.cursor_pos.x (sub32 t.cursor_pos.y 1) })

  pub next_line : Terminal D → Option (Terminal D)
  unfolding scroll_down
  next_line t = if not t.is_initialized then some t else do
    let y = add32 t.cursor_pos.y 1
    let t : Terminal D = record t { cursor_pos = vec2 0 y }
    t ← if y == impl.get_height then scroll_down t else some t
    on_screen (impl.set_cursor_at t.cursor_pos) t

  pub put_char_at : ℕ → Vec2 → Terminal D → Option (Terminal D)
  put_char_at ch pos t =
      if not t.is_initialized then some t else on_screen (impl.put_char_at ch pos t.current_color) t

  pub put_char : ℕ → Terminal D → Option (Terminal D)
  unfolding put_char_at next_line
  put_char ch t = if not t.is_initialized then some t else do
    t ← put_char_at ch t.cursor_pos t
    let x = add32 t.cursor_pos.x 1
    let t : Terminal D = record t { cursor_pos = vec2 x t.cursor_pos.y }
    t ← if ltb x impl.get_width then some t else next_line t
    on_screen (impl.set_cursor_at t.cursor_pos) t

  pub move_cursor : Vec2 → Terminal D → Option (Terminal D)
  move_cursor pos t =
      if not t.is_initialized
      then some t
      else on_screen (impl.set_cursor_at pos) (record t { cursor_pos = pos })

  pub clear_screen : Terminal D → Option (Terminal D)
  unfolding move_cursor
  clear_screen t =
      if not t.is_initialized
      then some t
      else do t ← on_screen impl.clear_screen t; move_cursor (vec2 0 0) t

  -- `print`, once the format string has become characters.
  pub print : List ℕ → Terminal D → Option (Terminal D)
  unfolding put_char
  print [] t = some t
  print (ch ∷ text) t = do t ← put_char ch t; print text t

  pub print_line : List ℕ → Terminal D → Option (Terminal D)
  unfolding print next_line
  print_line text t = do t ← print text t; next_line t

abbrev pub set_foreground_color : {D : Type 0} → ℕ → Terminal D → Terminal D
set_foreground_color color t = record t {
  current_color = record { foreground = color; background = t.current_color.background };
}

abbrev pub set_background_color : {D : Type 0} → ℕ → Terminal D → Terminal D
set_background_color color t = record t {
  current_color = record { foreground = t.current_color.foreground; background = color };
}

abbrev pub set_color : {D : Type 0} → ℕ → ℕ → Terminal D → Terminal D
set_color foreground background t =
    set_background_color background (set_foreground_color foreground t)
