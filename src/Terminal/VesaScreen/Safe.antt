-- ===== src/Terminal/VesaScreen/Safe.antt =====
-- Drawing on the frame buffer stays inside the display and its copy.
use hry_os.Base.{
  ℕ, ◌+◌, ◌*◌, ◌^◌, ◌<◌, ◌≤◌, ◌≡◌, refl, ap₂, ◌∙◌, true, some, List, arith, ltb, set, length,
  length-set,
}
use hry_os.Fallible.{Gives}
use hry_os.Vectors.{Vec2, vec2, add, less}
use hry_os.Vesa.{Color, pixel, set_pixel as driver_set_pixel}
use hry_os.Terminal.Cursor.{InBounds}
use hry_os.Terminal.VesaScreen.{VesaScreen, psf_font, set_pixel, get_screen_pos, vesa_impl}

area-lt : (x y w h : ℕ) → x < w → y < h → y * w + x < w * h
area-lt x y w h p q = grind arith

pub le-area : (w h : ℕ) → 0 < w → 0 < h → (w ≤ w * h) × (h ≤ w * h)
le-area w h p q = grind arith

-- A screen that has room for a character, with pixels that 32 bits can count, and a font that has
-- the 128 characters of 7 bits.
pub record IsVideo (screen_size : Vec2) (glyphs : List ℕ) : Type 0 where
  pub wide : 8 ≤ screen_size.x
  pub tall : 16 ≤ screen_size.y
  pub area : screen_size.x * screen_size.y < 2 ^ 32
  pub table : 2048 ≤ length glyphs

module _ (screen_size : Vec2) (glyphs : List ℕ) where
  -- The driver runs, the copy is there, and both have a place for each pixel.
  pub record IsDrawn (v : VesaScreen) : Type 0 where
    pub on : v.driver.initialized ≡ true
    pub display : length v.driver.display ≡ screen_size.x * screen_size.y
    pub buffer : List Color
    pub copied : v.buffered_screen ≡ some buffer
    pub size : length buffer ≡ screen_size.x * screen_size.y
    pub cursor : InBounds (vesa_impl screen_size (psf_font glyphs)) v.last_cursor_text_pos

  module _ (video : IsVideo screen_size glyphs) where
    pub pixel-lt :
        (x y : ℕ)
        → x < screen_size.x
        → y < screen_size.y
        → (pixel screen_size (vec2 x y) ≡ y * screen_size.x + x)
          × (y * screen_size.x + x < screen_size.x * screen_size.y)
    pixel-lt x y p q =
        let inside = area-lt x y screen_size.x screen_size.y p q in
        (omega (arith, video.area, inside), inside)

    -- The pixel of a character's place.
    pub place :
        (pos : Vec2) (x y : ℕ)
        → InBounds (vesa_impl screen_size (psf_font glyphs)) pos
        → x < 8
        → y < 16
        → (add (get_screen_pos screen_size (psf_font glyphs) pos) (vec2 x y)
            ≡ vec2 (pos.x * 8 + x) (pos.y * 16 + y))
          × (pos.x * 8 + x < screen_size.x)
          × (pos.y * 16 + y < screen_size.y)
    place pos x y inside px py =
        let small =
          le-area screen_size.x screen_size.y (omega (arith, video.wide))
            (omega (arith, video.tall)) in
        (
          ap₂ vec2 (omega (arith, inside, px, small, video.area))
              (omega (arith, inside, py, small, video.area)),
          omega (arith, inside, px),
          omega (arith, inside, py),
        )

    -- A pixel on the display and in its copy.
    abbrev pub drawn : ℕ → Color → List Color → VesaScreen → VesaScreen
    drawn i color buffer v = record {
      driver = record { initialized = true; display = set v.driver.display i color };
      buffered_screen = some (set buffer i color);
      last_cursor_text_pos = v.last_cursor_text_pos;
    }

    pub set_pixel-drawn :
        (x y : ℕ) (color : Color) (v : VesaScreen) (d : IsDrawn v)
        → x < screen_size.x
        → y < screen_size.y
        → set_pixel screen_size (psf_font glyphs) (vec2 x y) color v
          ≡ some (drawn (y * screen_size.x + x) color d.buffer v)
    unfolding set_pixel driver_set_pixel
    set_pixel-drawn x y color v d p q =
        let i = y * screen_size.x + x in
        let (at, inside) = pixel-lt x y p q in
        let room : ltb i (length d.buffer) ≡ true = ground (arith, d.size, inside) in
        let room' : ltb i (length v.driver.display) ≡ true = ground (arith, d.display, inside) in
        let seen : less (vec2 x y) screen_size ≡ true = ground arith in
        rw (d.copied, at, room, d.on, seen, room')

    pub drawn-IsDrawn :
        (i : ℕ) (color : Color) (v : VesaScreen) (d : IsDrawn v)
        → IsDrawn (drawn i color d.buffer v)
    drawn-IsDrawn i color v d = record {
      on = refl;
      display = length-set v.driver.display i color ∙ d.display;
      buffer = set d.buffer i color;
      copied = refl;
      size = length-set d.buffer i color ∙ d.size;
      cursor = d.cursor;
    }

    pub set_pixel-IsDrawn :
        (x y : ℕ) (color : Color) (v : VesaScreen)
        → x < screen_size.x
        → y < screen_size.y
        → IsDrawn v
        → Gives IsDrawn (set_pixel screen_size (psf_font glyphs) (vec2 x y) color v)
    set_pixel-IsDrawn x y color v p q d =
        rw (set_pixel-drawn x y color v d p q) (drawn-IsDrawn (y * screen_size.x + x) color v d)
