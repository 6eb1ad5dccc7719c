-- ===== src/Terminal/VesaScreen/Promise.antt =====
-- The pixel screen keeps what the terminal asks of a screen (Terminal/Cursor.antt).
use hry_os.Base.{ℕ, refl, ◌∙◌, List, arith, length-replicate, mul32}
use hry_os.Fallible.{Gives, Gives-bind, Gives-mono}
use hry_os.Vectors.{Vec2, vec2}
use hry_os.Vesa.{no_color}
use hry_os.Terminal.Cursor.{IsScreen, Starts, InBounds, Ascii}
use hry_os.Terminal.VesaScreen.{
  VesaScreen, psf_font, set_cursor_at, init, clear_screen, scroll_down, vesa_impl,
}
use hry_os.Terminal.VesaScreen.Safe.{IsVideo, IsDrawn, le-area}
use hry_os.Terminal.VesaScreen.MoveCursor.{set_cursor_at-Moved, Moved}
use hry_os.Terminal.VesaScreen.Glyph.{put_char_at-IsDrawn}
use hry_os.Terminal.VesaScreen.Scroll.{area32, scroll_down-Filled, clear_screen-Filled}

module _ (screen_size : Vec2) (glyphs : List ℕ) (video : IsVideo screen_size glyphs) where
  -- `init` once there is a copy of the screen.
  init-IsDrawn :
      (v : VesaScreen)
      → IsDrawn screen_size glyphs v
      → Gives (IsDrawn screen_size glyphs) (init screen_size (psf_font glyphs) v)
  unfolding init
  init-IsDrawn v d =
      let inside : InBounds (vesa_impl screen_size (psf_font glyphs)) (vec2 0 0) =
        (omega (arith, video.wide), omega (arith, video.tall)) in
      Gives-bind (Moved screen_size glyphs video v.last_cursor_text_pos (vec2 0 0) v d.buffer)
        (IsDrawn screen_size glyphs) _ _
        (set_cursor_at-Moved screen_size glyphs video (vec2 0 0) v inside d)
        λ w m. record {
          on = m.drawn.on;
          display = m.drawn.display;
          buffer = _;
          copied = refl;
          size =
              length-replicate (mul32 screen_size.x screen_size.y) no_color
              ∙ area32 screen_size glyphs video;
          cursor = m.drawn.cursor;
        }

  pub vesa-IsScreen :
      IsScreen (vesa_impl screen_size (psf_font glyphs)) (IsDrawn screen_size glyphs) Ascii
      × Starts (vesa_impl screen_size (psf_font glyphs)) (IsDrawn screen_size glyphs)
  vesa-IsScreen =
      let small =
        le-area screen_size.x screen_size.y (omega (arith, video.wide))
          (omega (arith, video.tall)) in
      (
        record {
          width = (omega (arith, video.wide), omega (arith, video.area, small));
          height = (omega (arith, video.tall), omega (arith, video.area, small));
          put = put_char_at-IsDrawn screen_size glyphs video;
          cursor = λ pos v inside d.
              Gives-mono (set_cursor_at screen_size (psf_font glyphs) pos v)
                (set_cursor_at-Moved screen_size glyphs video pos v inside d) (λ w m. m.drawn);
          scroll = λ v d.
              Gives-mono (scroll_down screen_size (psf_font glyphs) v)
                (scroll_down-Filled screen_size glyphs video v d) (λ w p. p.drawn);
          clear = λ v d.
              Gives-mono (clear_screen screen_size (psf_font glyphs) v)
                (clear_screen-Filled screen_size glyphs video v d) (λ w p. p.drawn);
        },
        init-IsDrawn,
      )
