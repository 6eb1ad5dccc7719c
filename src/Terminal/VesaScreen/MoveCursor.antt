-- ===== src/Terminal/VesaScreen/MoveCursor.antt =====
-- `set_cursor_at`: what it leaves on the display.
use mathlib.Core.Path.{subst}
use hry_os.Base.{
  ℕ, suc, ◌+◌, ◌*◌, ◌<◌, ◌≡◌, refl, sym, ◌∙◌, false, some, List, arith, if◌then◌else◌, length,
  length-set,
}
use hry_os.Fallible.{◌>>=◌, Gives, Gives-bind, for_range-Gives}
use hry_os.Vectors.{Vec2, vec2, add}
use hry_os.Vesa.{Color, pixel}
use hry_os.Terminal.Cursor.{InBounds}
use hry_os.Terminal.VesaScreen.{
  VesaScreen, psf_font, show_pixel, get_buffered_pixel, get_screen_pos, paint_cursor, inverted,
  restored, set_cursor_at, vesa_impl,
}
use hry_os.Terminal.VesaScreen.Safe.{IsVideo, IsDrawn, pixel-lt, place}
use hry_os.Terminal.VesaScreen.Column.{
  in_column, color_at, Painted, round-color, same-color, pixel-painted, shown-at,
}

module _ (screen_size : Vec2) (glyphs : List ℕ) (video : IsVideo screen_size glyphs) where
  paint_round :
      (paint : Color → Color) (pos : Vec2) (v : VesaScreen) (buffer : List Color) (n : ℕ)
      (w : VesaScreen)
      → InBounds (vesa_impl screen_size (psf_font glyphs)) pos
      → length buffer ≡ screen_size.x * screen_size.y
      → n < 16
      → Painted screen_size glyphs video paint pos v buffer n w
      → Gives (Painted screen_size glyphs video paint pos v buffer (suc n)) (do
        let p = add (get_screen_pos screen_size (psf_font glyphs) pos) (vec2 2 n)
        pixel ← get_buffered_pixel screen_size (psf_font glyphs) p w
        show_pixel screen_size (psf_font glyphs) p (paint pixel) w)
  paint_round paint pos v buffer n w inside size few d =
      let px = pos.x * 8 + 2 in
      let py = pos.y * 16 + n in
      let (at, p, q) = place screen_size glyphs video pos 2 n inside (omega arith) few in
      let (_, room) = pixel-lt screen_size glyphs video px py p q in
      let color = paint (color_at screen_size buffer px py) in
      subst
        (λ k. Gives (Painted screen_size glyphs video paint pos v buffer (suc n)) (do
          pixel ← get_buffered_pixel screen_size (psf_font glyphs) k w
          show_pixel screen_size (psf_font glyphs) k (paint pixel) w))
        (sym at)
        (subst (Gives (Painted screen_size glyphs video paint pos v buffer (suc n)))
          (sym (
            pixel-painted screen_size glyphs video paint px py w buffer d.on d.display d.copied size
              p q))
          (record {
            on = refl;
            display = length-set w.driver.display (py * screen_size.x + px) color ∙ d.display;
            copied = d.copied;
            cursor = d.cursor;
            at = λ x y hx.
                shown-at screen_size glyphs video px py x y color w.driver.display p hx
                  (omega (arith, d.display, room))
                ∙ rw (d.at x y hx) (
                    same-color px py x y (λ a b. paint (color_at screen_size buffer a b)) _
                    ∙ round-color pos n x y (color_at screen_size v.driver.display x y)
                        (paint (color_at screen_size buffer x y)));
          }))

  paint_cursor-Painted :
      (paint : Color → Color) (pos : Vec2) (v : VesaScreen)
      → InBounds (vesa_impl screen_size (psf_font glyphs)) pos
      → (d : IsDrawn screen_size glyphs v)
      → Gives (Painted screen_size glyphs video paint pos v d.buffer 16) (
          paint_cursor screen_size
            (psf_font glyphs)
            paint
            (get_screen_pos screen_size (psf_font glyphs) pos)
            v)
  unfolding paint_cursor
  paint_cursor-Painted paint pos v inside d =
      for_range-Gives (Painted screen_size glyphs video paint pos v d.buffer) 16 0 _
        (λ n w _ few p. paint_round paint pos v d.buffer n w inside d.size few p) v
        (record {
          on = d.on;
          display = d.display;
          copied = d.copied;
          cursor = refl;
          at = λ x y hx. let out : in_column pos 0 x y ≡ false = ground arith in rw out refl;
        })

  -- The display after a move of the cursor from the place `last` to `pos`.
  pub record Moved (last pos : Vec2) (v : VesaScreen) (buffer : List Color) (w : VesaScreen)
      : Type 0 where
    pub drawn : IsDrawn screen_size glyphs w
    pub copied : w.buffered_screen ≡ some buffer
    pub cursor : w.last_cursor_text_pos ≡ pos
    pub at :
        (x y : ℕ)
        → x < screen_size.x
        → color_at screen_size w.driver.display x y ≡ (
            if in_column pos 16 x y
            then inverted screen_size (psf_font glyphs) (color_at screen_size buffer x y)
            else if in_column last 16 x y
            then restored screen_size (psf_font glyphs) (color_at screen_size buffer x y)
            else color_at screen_size v.driver.display x y)

  pub set_cursor_at-Moved :
      (pos : Vec2) (v : VesaScreen)
      → InBounds (vesa_impl screen_size (psf_font glyphs)) pos
      → (d : IsDrawn screen_size glyphs v)
      → Gives
          (Moved v.last_cursor_text_pos pos v d.buffer)
          (set_cursor_at screen_size (psf_font glyphs) pos v)
  unfolding set_cursor_at
  set_cursor_at-Moved pos v inside d =
      let last = v.last_cursor_text_pos in
      Gives-bind
        (Painted screen_size glyphs video (restored screen_size (psf_font glyphs)) last v d.buffer
          16)
        (Moved last pos v d.buffer) _ _
        (paint_cursor-Painted (restored screen_size (psf_font glyphs)) last v d.cursor d)
        λ w p.
          let dw : IsDrawn screen_size glyphs w = record {
            on = p.on;
            display = p.display;
            buffer = d.buffer;
            copied = p.copied;
            size = d.size;
            cursor =
                subst (InBounds (vesa_impl screen_size (psf_font glyphs))) (sym p.cursor) d.cursor;
          } in
          Gives-bind
            (Painted screen_size glyphs video (inverted screen_size (psf_font glyphs)) pos w
              d.buffer 16)
            (Moved last pos v d.buffer) _ _
            (paint_cursor-Painted (inverted screen_size (psf_font glyphs)) pos w inside dw)
            λ u q. record {
              drawn = record {
                on = q.on;
                display = q.display;
                buffer = d.buffer;
                copied = q.copied;
                size = d.size;
                cursor = inside;
              };
              copied = q.copied;
              cursor = refl;
              at = λ x y hx. q.at x y hx ∙ rw (p.at x y hx) refl;
            }
