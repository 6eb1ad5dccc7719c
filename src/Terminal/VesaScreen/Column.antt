-- ===== src/Terminal/VesaScreen/Column.antt =====
-- The cursor: a column of pixels that `set_cursor_at` inverts, and what stood there before is drawn
-- again from the copy of the screen.
use hry_os.Base.{
  ℕ, suc, ◌+◌, ◌*◌, ◌<◌, ◌≤◌, ◌≡◌, ◌≢◌, refl, ap, ap₂, ◌∙◌, Bool, true, ◌&&◌, some, List, arith,
  if◌then◌else◌, ltb, leb, ◌==◌, set, length, get_or, get_or-set_self, get_or-set_ne,
  get_elem?-eq-get_or, Bool-cases, inl, inr,
}
use hry_os.Fallible.{◌>>=◌}
use hry_os.Vectors.{Vec2, vec2, less}
use hry_os.Vesa.{Color, no_color, pixel, set_pixel as driver_set_pixel}
use hry_os.Terminal.VesaScreen.{VesaScreen, psf_font, show_pixel, get_buffered_pixel}
use hry_os.Terminal.VesaScreen.Safe.{IsVideo, pixel-lt}

-- Pixels of different places have different indices.
row-lt : (x y x' y' w : ℕ) → x < w → y < y' → y * w + x < y' * w + x'
row-lt x y x' y' w p q = grind arith

pub pixel-injective :
    (x y x' y' w : ℕ) → x < w → x' < w → y * w + x ≡ y' * w + x' → (x ≡ x') × (y ≡ y')
pixel-injective x y x' y' w p p' e =
    let up : y' ≤ y = elim (Bool-cases (ltb y y')) [
      | inl lt ↦ absurd (omega (arith, row-lt x y x' y' w p (ground arith), e))
      | inr ge ↦ ground arith
    ] in
    let down : y ≤ y' = elim (Bool-cases (ltb y' y)) [
      | inl lt ↦ absurd (omega (arith, row-lt x' y' x y w p' (ground arith), e))
      | inr ge ↦ ground arith
    ] in
    let same : y ≡ y' = omega arith in (omega (arith, e, ap (λ (k : ℕ). k * w) same), same)

-- The first `n` pixels of the cursor at a place in the text.
abbrev pub in_column : Vec2 → ℕ → ℕ → ℕ → Bool
in_column pos n x y = (x == pos.x * 8 + 2) && leb (pos.y * 16) y && ltb y (pos.y * 16 + n)

-- The colour of a pixel in a list of rows.
abbrev pub color_at : Vec2 → List Color → ℕ → ℕ → Color
color_at screen_size pixels x y = get_or pixels (y * screen_size.x + x) no_color

-- One pixel more.
pub round-color :
    (pos : Vec2) (n x y : ℕ) (old new : Color)
    → (if (x == pos.x * 8 + 2) && (y == pos.y * 16 + n)
        then new
        else if in_column pos n x y
        then new
        else old)
      ≡ (if in_column pos (suc n) x y then new else old)
round-color pos n x y old new = ground arith

pub same-color :
    {A : Type 0} (px py x y : ℕ) (f : ℕ → ℕ → A) (other : A)
    → (if (x == px) && (y == py) then f px py else other)
      ≡ (if (x == px) && (y == py) then f x y else other)
same-color px py x y f other = elim (Bool-cases ((x == px) && (y == py))) [
  | inl e ↦ let ex : px ≡ x = ground arith in let ey : py ≡ y = ground arith in rw e (ap₂ f ex ey)
  | inr ne ↦ rw ne refl
]

module _ (screen_size : Vec2) (glyphs : List ℕ) (video : IsVideo screen_size glyphs) where
  -- On the display `n` pixels of the cursor's column are painted; all else is as before.
  pub record Painted (paint : Color → Color) (pos : Vec2) (v : VesaScreen) (buffer : List Color)
      (n : ℕ) (w : VesaScreen) : Type 0 where
    pub on : w.driver.initialized ≡ true
    pub display : length w.driver.display ≡ screen_size.x * screen_size.y
    pub copied : w.buffered_screen ≡ some buffer
    pub cursor : w.last_cursor_text_pos ≡ v.last_cursor_text_pos
    pub at :
        (x y : ℕ)
        → x < screen_size.x
        → color_at screen_size w.driver.display x y ≡ (
            if in_column pos n x y
            then paint (color_at screen_size buffer x y)
            else color_at screen_size v.driver.display x y)

  pub shown-at :
      (px py x y : ℕ) (color : Color) (display : List Color)
      → px < screen_size.x
      → x < screen_size.x
      → py * screen_size.x + px < length display
      → color_at screen_size (set display (py * screen_size.x + px) color) x y
        ≡ (if (x == px) && (y == py) then color else color_at screen_size display x y)
  shown-at px py x y color display hp hx room = elim (Bool-cases ((x == px) && (y == py))) [
    | inl e ↦
        let ex : x ≡ px = ground arith in
        let ey : y ≡ py = ground arith in
        rw e (
          ap₂ (color_at screen_size (set display (py * screen_size.x + px) color)) ex ey
          ∙ get_or-set_self display (py * screen_size.x + px) color no_color room)
    | inr ne ↦
        let other : py * screen_size.x + px ≢ y * screen_size.x + x =
          λ e. ground (arith, pixel-injective px py x y screen_size.x hp hx e) in
        rw ne (
          get_or-set_ne display {i = py * screen_size.x + px} {j = y * screen_size.x + x} color
            no_color other)
  ]

  show_pixel-shown :
      (x y : ℕ) (color : Color) (v : VesaScreen)
      → v.driver.initialized ≡ true
      → length v.driver.display ≡ screen_size.x * screen_size.y
      → x < screen_size.x
      → y < screen_size.y
      → show_pixel screen_size (psf_font glyphs) (vec2 x y) color v
        ≡ some (record v {
          driver = record {
            initialized = true;
            display = set v.driver.display (y * screen_size.x + x) color;
          };
        })
  unfolding driver_set_pixel
  show_pixel-shown x y color v on size p q =
      let i = y * screen_size.x + x in
      let (at, inside) = pixel-lt screen_size glyphs video x y p q in
      let room : ltb i (length v.driver.display) ≡ true = ground (arith, size, inside) in
      let seen : less (vec2 x y) screen_size ≡ true = ground arith in rw (on, seen, at, room)

  -- One pixel, from the copy to the display.
  pub pixel-painted :
      (paint : Color → Color) (x y : ℕ) (w : VesaScreen) (buffer : List Color)
      → w.driver.initialized ≡ true
      → length w.driver.display ≡ screen_size.x * screen_size.y
      → w.buffered_screen ≡ some buffer
      → length buffer ≡ screen_size.x * screen_size.y
      → x < screen_size.x
      → y < screen_size.y
      → (do
        pixel ← get_buffered_pixel screen_size (psf_font glyphs) (vec2 x y) w
        show_pixel screen_size (psf_font glyphs) (vec2 x y) (paint pixel) w)
        ≡ some (record w {
          driver = record {
            initialized = true;
            display =
                set w.driver.display
                  (y * screen_size.x + x)
                  (paint (color_at screen_size buffer x y));
          };
        })
  pixel-painted paint x y w buffer on display copied size p q =
      let (index, room) = pixel-lt screen_size glyphs video x y p q in
      let i = y * screen_size.x + x in
      let found : get_buffered_pixel screen_size (psf_font glyphs) (vec2 x y) w
          ≡ some (color_at screen_size buffer x y) =
        rw (copied, index) (get_elem?-eq-get_or buffer i no_color (omega (arith, size, room))) in
      rw found (show_pixel-shown x y (paint (color_at screen_size buffer x y)) w on display p q)
