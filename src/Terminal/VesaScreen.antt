-- ===== src/Terminal/VesaScreen.antt =====
-- code/kernel/terminal/impl/vesa_impl.cpp: characters drawn as pixels, as the terminal's screen, and
-- code/kernel/fonts for the glyphs. The screen's size and the font that is loaded are parameters; the
-- font's data come from code/kernel/storage/fonts. `buffered_screen` is null until `init`.
pub mod Safe
pub mod Glyph
pub mod Column
pub mod MoveCursor
pub mod Fill
pub mod Scroll
pub mod Promise
pub mod Faithful
pub mod Draw
mod Tests
use hry_os.Base.{
  ℕ, ◌+◌, ◌-◌, ◌*◌, ◌/◌, ◌^◌, true, Option, none, some, List, [], ◌∷◌, if◌then◌else◌, ltb, ◌==◌,
  ◌&&◌, get_elem?, replicate, sub32, mul32,
}
use hry_os.Fallible.{◌>>=◌, for_range}
use hry_os.Algorithm.{write_at}
use hry_os.Vectors.{Vec2, vec2, add, times}
use hry_os.Vesa.{Color, create, no_color, Driver, get_bit, pixel, set_pixel as driver_set_pixel}
use hry_os.Terminal.{CombinedColor, Screen}

-- `fonts::font`; the glyphs are one array of rows, 16 to a glyph.
pub record Font : Type 0 where
  pub glyphs : List ℕ
  pub size : Vec2

-- A loaded font: characters of 8 by 16 pixels.
abbrev pub psf_font : List ℕ → Font
psf_font glyphs = record { glyphs = glyphs; size = vec2 8 16 }

-- `load_psf_font`: the header has two magic bytes, the mode and the size of a character.
pub load_psf_font : List ℕ → Option Font
load_psf_font (magic0 ∷ magic1 ∷ mode ∷ char_size ∷ begin) =
    if magic0 == 0x36 && magic1 == 0x04 then some (psf_font begin) else none
load_psf_font _ = none

-- `(uint32_t)ch`: a `char` is signed.
abbrev pub char_index : ℕ → ℕ
char_index ch = if ltb ch 128 then ch else 2 ^ 32 - 256 + ch

pub terminal_to_vesa_color : ℕ → Color
terminal_to_vesa_color color =
    if color == 0
    then create 0 0 0
    else if color == 1
    then create 0 0 170
    else if color == 2
    then create 0 170 0
    else if color == 3
    then create 0 170 170
    else if color == 4
    then create 170 0 0
    else if color == 5
    then create 170 0 170
    else if color == 6
    then create 170 85 0
    else if color == 8
    then create 85 85 85
    else if color == 7
    then create 85 85 85
    else if color == 9
    then create 85 85 255
    else if color == 10
    then create 85 255 85
    else if color == 11
    then create 85 255 255
    else if color == 12
    then create 255 85 85
    else if color == 13
    then create 255 85 255
    else create 255 255 255

pub record VesaScreen : Type 0 where
  pub driver : Driver
  pub buffered_screen : Option (List Color)
  pub last_cursor_text_pos : Vec2

module _ (screen_size : Vec2) (font : Font) where
  -- `vesa::set_pixel`
  abbrev pub show_pixel : Vec2 → Color → VesaScreen → Option VesaScreen
  show_pixel pos color v = do
    driver ← driver_set_pixel screen_size pos color v.driver
    some (record v { driver = driver })

  pub set_pixel : Vec2 → Color → VesaScreen → Option VesaScreen
  set_pixel pos color v = do
    buffer ← v.buffered_screen
    buffer ← write_at (pixel screen_size pos) color buffer
    show_pixel pos color (record v { buffered_screen = some buffer })

  abbrev pub get_buffered_pixel : Vec2 → VesaScreen → Option Color
  get_buffered_pixel pos v = do buffer ← v.buffered_screen; get_elem? buffer (pixel screen_size pos)

  abbrev pub get_screen_pos : Vec2 → Vec2
  get_screen_pos text_pos = times text_pos font.size

  -- Two nested loops: `width` pixels in each of `height` rows.
  abbrev pub for_each_pixel :
      ℕ → ℕ → (ℕ → ℕ → VesaScreen → Option VesaScreen) → VesaScreen → Option VesaScreen
  for_each_pixel width height body = for_range height 0 (λ y. for_range width 0 (λ x. body x y))

  pub reset_char : Vec2 → VesaScreen → Option VesaScreen
  unfolding set_pixel
  reset_char text_pos =
      let screen_pos = get_screen_pos text_pos in
      for_each_pixel 8 16 (λ x y. set_pixel (add screen_pos (vec2 x y)) no_color)

  -- One pixel of a glyph: it is set where its bit in the row is.
  abbrev pub put_glyph_pixel : ℕ → Color → Vec2 → ℕ → ℕ → VesaScreen → Option VesaScreen
  put_glyph_pixel row color screen_pos x y v =
      if get_bit row (sub32 (sub32 font.size.x 1) x)
      then set_pixel (add screen_pos (vec2 x y)) color v
      else some v

  pub put_char_at : ℕ → Vec2 → CombinedColor → VesaScreen → Option VesaScreen
  unfolding reset_char set_pixel
  put_char_at ch text_pos color v = do
    v ← reset_char text_pos v
    let vesa_color = terminal_to_vesa_color color.foreground
    let screen_pos = get_screen_pos text_pos
    for_range font.size.y 0
        (λ y v. do
          current_row ← get_elem? font.glyphs (char_index ch * 16 + y)
          for_range font.size.x 0 (λ x. put_glyph_pixel current_row vesa_color screen_pos x y) v)
        v

  abbrev pub get_width : ℕ
  get_width = screen_size.x / font.size.x

  abbrev pub get_height : ℕ
  get_height = screen_size.y / font.size.y

  abbrev pub inverted : Color → Color
  inverted pixel = create (255 - pixel.r) (255 - pixel.g) (255 - pixel.b)

  abbrev pub restored : Color → Color
  restored pixel = create pixel.r pixel.g pixel.b

  -- A loop over the column of pixels that is the cursor.
  pub paint_cursor : (Color → Color) → Vec2 → VesaScreen → Option VesaScreen
  paint_cursor paint screen_pos = for_range font.size.y 0 (λ y v. do
    let pos = add screen_pos (vec2 2 y)
    pixel ← get_buffered_pixel pos v
    show_pixel pos (paint pixel) v)

  pub set_cursor_at : Vec2 → VesaScreen → Option VesaScreen
  unfolding paint_cursor
  set_cursor_at text_pos v = do
    v ← paint_cursor restored (get_screen_pos v.last_cursor_text_pos) v
    v ← paint_cursor inverted (get_screen_pos text_pos) v
    some (record v { last_cursor_text_pos = text_pos })

  -- `new` gives memory for the copy of the screen, with each pixel as `{}`.
  pub init : VesaScreen → Option VesaScreen
  unfolding set_cursor_at
  init v = do
    v ← set_cursor_at (vec2 0 0) v
    some (record v {
      buffered_screen = some (replicate (mul32 screen_size.x screen_size.y) no_color);
    })

  -- `*display_it = color; *buffer_it = color` at one index.
  abbrev pub put_both : ℕ → Color → VesaScreen → Option VesaScreen
  put_both i color v = do
    display ← write_at i color v.driver.display
    buffer ← v.buffered_screen
    buffer ← write_at i color buffer
    some (record v {
      driver = record { initialized = v.driver.initialized; display = display };
      buffered_screen = some buffer;
    })

  pub clear_screen : VesaScreen → Option VesaScreen
  clear_screen = for_range (mul32 screen_size.x screen_size.y) 0 (λ i. put_both i no_color)

  -- The pixels above the last line of text.
  abbrev pub kept : ℕ
  kept = mul32 screen_size.x (sub32 screen_size.y font.size.y)

  -- One pixel moves up by a line of text.
  abbrev pub move_up : ℕ → VesaScreen → Option VesaScreen
  move_up i v = do
    buffer ← v.buffered_screen
    color ← get_elem? buffer (mul32 screen_size.x font.size.y + i)
    put_both i color v

  pub scroll_down : VesaScreen → Option VesaScreen
  scroll_down v = do
    v ← for_range kept 0 move_up v
    for_range (sub32 (mul32 screen_size.x screen_size.y) kept) kept (λ i. put_both i no_color) v

  abbrev pub vesa_impl : Screen VesaScreen
  vesa_impl = record {
    init = init;
    clear_screen = clear_screen;
    put_char_at = put_char_at;
    get_width = get_width;
    get_height = get_height;
    set_cursor_at = set_cursor_at;
    scroll_down = scroll_down;
  }
