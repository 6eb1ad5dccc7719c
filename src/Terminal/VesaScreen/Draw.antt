-- ===== src/Terminal/VesaScreen/Draw.antt =====
-- What a character looks like: its glyph, pixel by pixel, in its place on the screen.
use mathlib.Core.Path.{subst}
use hry_os.Base.{
  ℕ, suc, ◌+◌, ◌-◌, ◌*◌, ◌<◌, ◌≡◌, refl, sym, ap, ap₂, ◌∙◌, Bool, true, false, List, Option, arith,
  if◌then◌else◌, ltb, leb, ◌&&◌, ◌||◌, ◌==◌, set, length-set, get_or, get_elem?-eq-get_or,
  Bool-cases, inl, inr, sub32,
}
use hry_os.Fallible.{Gives, Gives-bind, Gives-mono, for_range, for_range-to}
use hry_os.Vectors.{Vec2, vec2, add}
use hry_os.Vesa.{Color, no_color, get_bit}
use hry_os.Terminal.{CombinedColor}
use hry_os.Terminal.Cursor.{InBounds, Ascii}
use hry_os.Terminal.VesaScreen.{
  VesaScreen, psf_font, terminal_to_vesa_color, set_pixel, get_screen_pos, reset_char,
  put_glyph_pixel, put_char_at, vesa_impl,
}
use hry_os.Terminal.VesaScreen.Safe.{IsVideo, IsDrawn, set_pixel-drawn, pixel-lt, place}
use hry_os.Terminal.VesaScreen.Column.{color_at, shown-at, same-color}

-- The pixels of the first `n` rows of a character's place, and `k` of the next row.
abbrev pub drawn_to : Vec2 → ℕ → ℕ → ℕ → ℕ → Bool
drawn_to pos n k x y =
    leb (pos.x * 8) x
    && ltb x (pos.x * 8 + 8)
    && leb (pos.y * 16) y
    && (ltb y (pos.y * 16 + n) || ((y == pos.y * 16 + n) && ltb x (pos.x * 8 + k)))

one_pixel :
    (pos : Vec2) (n k x y : ℕ) (new old : Color)
    → k < 8
    → (if (x == pos.x * 8 + k) && (y == pos.y * 16 + n)
        then new
        else if drawn_to pos n k x y
        then new
        else old)
      ≡ (if drawn_to pos n (suc k) x y then new else old)
one_pixel pos n k x y new old few = ground arith

next_row :
    (pos : Vec2) (n x y : ℕ) (new old : Color)
    → (if drawn_to pos n 8 x y then new else old)
      ≡ (if drawn_to pos (suc n) 0 x y then new else old)
next_row pos n x y new old = ground arith

module _ (screen_size : Vec2) (glyphs : List ℕ) (video : IsVideo screen_size glyphs) where
  -- The copy of the screen has the colours of `f` in that part of the place, and the old ones
  -- elsewhere.
  pub record Cell (pos : Vec2) (f old : ℕ → ℕ → Color) (n k : ℕ) (w : VesaScreen) : Type 0 where
    pub drawn : IsDrawn screen_size glyphs w
    pub at :
        (x y : ℕ)
        → x < screen_size.x
        → color_at screen_size drawn.buffer x y ≡ (if drawn_to pos n k x y then f x y else old x y)

  module _ (pos : Vec2) (inside : InBounds (vesa_impl screen_size (psf_font glyphs)) pos)
      (f old : ℕ → ℕ → Color) where
    Cell-set :
        (n k : ℕ) (color : Color) (w : VesaScreen)
        → k < 8
        → n < 16
        → color ≡ f (pos.x * 8 + k) (pos.y * 16 + n)
        → Cell pos f old n k w
        → Gives (Cell pos f old n (suc k)) (
            set_pixel screen_size
              (psf_font glyphs)
              (add (get_screen_pos screen_size (psf_font glyphs) pos) (vec2 k n))
              color
              w)
    Cell-set n k color w pk pn e c =
        let px = pos.x * 8 + k in
        let py = pos.y * 16 + n in
        let (at, p, q) = place screen_size glyphs video pos k n inside pk pn in
        let (_, room) = pixel-lt screen_size glyphs video px py p q in
        let d = c.drawn in
        subst
          (λ a.
            Gives (Cell pos f old n (suc k)) (set_pixel screen_size (psf_font glyphs) a color w))
          (sym at)
          (rw (set_pixel-drawn screen_size glyphs video px py color w d p q) (record {
            drawn = record {
              on = refl;
              display = length-set w.driver.display (py * screen_size.x + px) color ∙ d.display;
              buffer = set d.buffer (py * screen_size.x + px) color;
              copied = refl;
              size = length-set d.buffer (py * screen_size.x + px) color ∙ d.size;
              cursor = d.cursor;
            };
            at = λ x y hx.
                shown-at screen_size glyphs video px py x y color d.buffer p hx
                  (omega (arith, d.size, room))
                ∙ rw (e, c.at x y hx)
                    (same-color px py x y f _ ∙ one_pixel pos n k x y (f x y) (old x y) pk);
          }))

    Cell-skip :
        (n k : ℕ) (w : VesaScreen)
        → k < 8
        → n < 16
        → old (pos.x * 8 + k) (pos.y * 16 + n) ≡ f (pos.x * 8 + k) (pos.y * 16 + n)
        → Cell pos f old n k w
        → Cell pos f old n (suc k) w
    Cell-skip n k w pk pn e c =
        let px = pos.x * 8 + k in
        let py = pos.y * 16 + n in
        record {
          drawn = c.drawn;
          at = λ x y hx. c.at x y hx ∙ elim (Bool-cases ((x == px) && (y == py))) [
            | inl h ↦
                let ex : x ≡ px = ground arith in
                let ey : y ≡ py = ground arith in
                let before : drawn_to pos n k x y ≡ false = ground arith in
                let now : drawn_to pos n (suc k) x y ≡ true = ground arith in
                rw (before, now) (ap₂ old ex ey ∙ e ∙ sym (ap₂ f ex ey))
            | inr h ↦
                sym (
                  ap
                    (λ (b : Bool).
                      if b then f x y else if drawn_to pos n k x y then f x y else old x y)
                    h)
                ∙ one_pixel pos n k x y (f x y) (old x y) pk
          ];
        }

    Cell-row : (n : ℕ) (w : VesaScreen) → Cell pos f old n 8 w → Cell pos f old (suc n) 0 w
    Cell-row n w c = record {
      drawn = c.drawn;
      at = λ x y hx. c.at x y hx ∙ next_row pos n x y (f x y) (old x y);
    }

    -- A row of pixels.
    row-Cell :
        (n : ℕ) (body : ℕ → VesaScreen → Option VesaScreen)
        → ((k : ℕ) (w : VesaScreen)
            → k < 8
            → Cell pos f old n k w
            → Gives (Cell pos f old n (suc k)) (body k w))
        → (w : VesaScreen) → Cell pos f old n 0 w
        → Gives (Cell pos f old (suc n) 0) (for_range 8 0 body w)
    row-Cell n body round w c =
        Gives-mono (for_range 8 0 body w)
          (for_range-to (Cell pos f old n) 8 0 8 body (omega arith)
            (λ k w' _ few c'. round k w' few c') w c)
          (λ w' c'. Cell-row n w' c')

  -- The colour of a pixel once its place is black, and the character is drawn.
  abbrev pub glyph_bit : ℕ → Vec2 → ℕ → ℕ → Bool
  glyph_bit ch pos x y =
      get_bit (get_or glyphs (ch * 16 + (y - pos.y * 16)) 0) (7 - (x - pos.x * 8))

  abbrev pub blackened : Vec2 → List Color → ℕ → ℕ → Color
  blackened pos buffer x y =
      if drawn_to pos 16 0 x y then no_color else color_at screen_size buffer x y

  abbrev pub character_color : ℕ → Vec2 → CombinedColor → List Color → ℕ → ℕ → Color
  character_color ch pos color buffer x y =
      if glyph_bit ch pos x y
      then terminal_to_vesa_color color.foreground
      else blackened pos buffer x y

  abbrev pub Nothing : Vec2 → (ℕ → ℕ → Color) → VesaScreen → Type 0
  Nothing pos old w = Cell pos old old 0 0 w

  reset_char-Cell :
      (pos : Vec2) (v : VesaScreen)
      → InBounds (vesa_impl screen_size (psf_font glyphs)) pos
      → (d : IsDrawn screen_size glyphs v)
      → Gives
          (Cell pos (λ _ _. no_color) (color_at screen_size d.buffer) 16 0)
          (reset_char screen_size (psf_font glyphs) pos v)
  unfolding reset_char
  reset_char-Cell pos v inside d =
      let f = λ (x y : ℕ). no_color in
      let old = color_at screen_size d.buffer in
      for_range-to (λ n. Cell pos f old n 0) 16 0 16 _ (omega arith)
        (λ n w _ few c.
          row-Cell pos inside f old n _
            (λ k w' pk c'. Cell-set pos inside f old n k no_color w' pk few refl c') w c)
        v
        (record {
          drawn = d;
          at = λ x y hx. let out : drawn_to pos 0 0 x y ≡ false = ground arith in rw out refl;
        })

  -- One pixel of the glyph.
  glyph_pixel-Cell :
      (ch : ℕ) (pos : Vec2) (color : CombinedColor) (buffer : List Color) (n k : ℕ) (w : VesaScreen)
      → InBounds (vesa_impl screen_size (psf_font glyphs)) pos
      → k < 8
      → n < 16
      → Cell pos (character_color ch pos color buffer) (blackened pos buffer) n k w
      → Gives (Cell pos (character_color ch pos color buffer) (blackened pos buffer) n (suc k)) (
          put_glyph_pixel screen_size
            (psf_font glyphs)
            (get_or glyphs (ch * 16 + n) 0)
            (terminal_to_vesa_color color.foreground)
            (get_screen_pos screen_size (psf_font glyphs) pos)
            k
            n
            w)
  glyph_pixel-Cell ch pos color buffer n k w inside pk pn c =
      let f = character_color ch pos color buffer in
      let old = blackened pos buffer in
      let px = pos.x * 8 + k in
      let py = pos.y * 16 + n in
      let ink = terminal_to_vesa_color color.foreground in
      let row = get_or glyphs (ch * 16 + n) 0 in
      let bit : glyph_bit ch pos px py ≡ get_bit row (sub32 (sub32 8 1) k) =
        ap₂ (λ (a b : ℕ). get_bit (get_or glyphs (ch * 16 + a) 0) b) (omega arith) (omega arith) in
      elim (Bool-cases (get_bit row (sub32 (sub32 8 1) k))) [
        | inl on ↦
            let e : f px py ≡ ink = rw (bit ∙ on) refl in
            rw on (Cell-set pos inside f old n k ink w pk pn (sym e) c)
        | inr off ↦
            let e : f px py ≡ old px py = rw (bit ∙ off) refl in
            rw off (Cell-skip pos inside f old n k w pk pn (sym e) c)
      ]

  -- On a drawn screen `put_char_at` of a character of 7 bits at a place of the text returns and
  -- draws its glyph: in the copy of the screen the 8 by 16 pixels of the place have the colour
  -- where the bit of the glyph is set and are black where it is not, and every other pixel is as
  -- before. The screen stays drawn: the display and its copy have a pixel for each place and the
  -- cursor is inside.
  pub put_char_at-Cell :
      (ch : ℕ) (pos : Vec2) (color : CombinedColor) (v : VesaScreen)
      → InBounds (vesa_impl screen_size (psf_font glyphs)) pos
      → Ascii ch
      → (d : IsDrawn screen_size glyphs v)
      → Gives
          (Cell pos (character_color ch pos color d.buffer) (blackened pos d.buffer) 16 0)
          (put_char_at screen_size (psf_font glyphs) ch pos color v)
  unfolding put_char_at
  put_char_at-Cell ch pos color v inside ascii d =
      let small : ltb ch 128 ≡ true = ground arith in
      let f = character_color ch pos color d.buffer in
      let old = blackened pos d.buffer in
      let ink = terminal_to_vesa_color color.foreground in
      Gives-bind (Cell pos (λ _ _. no_color) (color_at screen_size d.buffer) 16 0)
        (Cell pos f old 16 0) (reset_char screen_size (psf_font glyphs) pos v) _
        (reset_char-Cell pos v inside d)
        λ v1 c1.
          for_range-to (λ n. Cell pos f old n 0) 16 0 16 _ (omega arith)
            (λ n w _ few c.
              rw (small, get_elem?-eq-get_or glyphs (ch * 16 + n) 0 (omega (arith, video.table)))
                (row-Cell pos inside f old n _
                  (λ k w' pk c'. glyph_pixel-Cell ch pos color d.buffer n k w' inside pk few c') w
                  c))
            v1
            (record {
              drawn = c1.drawn;
              at = λ x y hx.
                  c1.at x y hx
                  ∙ let out : drawn_to pos 0 0 x y ≡ false = ground arith in rw out refl;
            })
