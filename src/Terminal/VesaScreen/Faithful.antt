-- ===== src/Terminal/VesaScreen/Faithful.antt =====
-- What the display shows is the copy of the screen, but for the cursor.
use mathlib.Core.Path.{subst}
use hry_os.Base.{
  ℕ, ◌+◌, ◌-◌, ◌*◌, ◌<◌, ◌≡◌, ◌≢◌, refl, sym, ap, ◌∙◌, false, some, List, arith, if◌then◌else◌, ltb,
  ◌==◌, set, length, length-set, get_or, get_or-set_self, get_or-set_ne, get_or-out, ==_true,
  Bool-cases, inl, inr, lt→ltb,
}
use hry_os.Fallible.{Gives, Gives-mono}
use hry_os.Vectors.{Vec2, vec2}
use hry_os.Vesa.{Color, no_color}
use hry_os.Terminal.Cursor.{IsScreen, InBounds, Ascii}
use hry_os.Terminal.VesaScreen.{
  VesaScreen, psf_font, set_pixel, set_cursor_at, clear_screen, scroll_down, inverted, restored,
  vesa_impl,
}
use hry_os.Terminal.VesaScreen.Safe.{IsVideo, IsDrawn, set_pixel-drawn, pixel-lt}
use hry_os.Terminal.VesaScreen.Promise.{vesa-IsScreen}
use hry_os.Terminal.VesaScreen.Glyph.{put_char_at-keeps}
use hry_os.Terminal.VesaScreen.Column.{in_column, color_at, shown-at}
use hry_os.Terminal.VesaScreen.MoveCursor.{set_cursor_at-Moved, Moved}
use hry_os.Terminal.VesaScreen.Fill.{Filled}
use hry_os.Terminal.VesaScreen.Scroll.{scrolled_color, scroll_down-Filled, clear_screen-Filled}

-- A colour without alpha is drawn again as it is.
restored-eq :
    (screen_size : Vec2) (glyphs : List ℕ) (c : Color)
    → c.a ≡ 0
    → restored screen_size (psf_font glyphs) c ≡ c
restored-eq screen_size glyphs c solid = ap (λ a. record c { a = a }) (sym solid)

-- No pixel has alpha.
abbrev pub IsSolid : List Color → Type 0
IsSolid buffer = (i : ℕ) → (get_or buffer i no_color).a ≡ 0

set-IsSolid :
    (buffer : List Color) (i : ℕ) (color : Color)
    → i < length buffer
    → color.a ≡ 0
    → IsSolid buffer
    → IsSolid (set buffer i color)
set-IsSolid buffer i color room solid all j = elim (Bool-cases (j == i)) [
  | inl e ↦
      ap (λ (k : ℕ). (get_or (set buffer i color) k no_color).a) (==_true j i e)
      ∙ ap (λ (c : Color). c.a) (get_or-set_self buffer i color no_color room)
      ∙ solid
  | inr e ↦
      let other : i ≢ j = ground arith in
      ap (λ (c : Color). c.a) (get_or-set_ne buffer {i = i} {j = j} color no_color other) ∙ all j
]

module _ (screen_size : Vec2) (glyphs : List ℕ) where
  -- The display agrees with the copy off the cursor's column.
  pub record IsFaithful (v : VesaScreen) : Type 0 where
    pub drawn : IsDrawn screen_size glyphs v
    pub solid : IsSolid drawn.buffer
    pub agrees :
        (x y : ℕ)
        → x < screen_size.x
        → y < screen_size.y
        → in_column v.last_cursor_text_pos 16 x y ≡ false
        → color_at screen_size v.driver.display x y ≡ color_at screen_size drawn.buffer x y

  -- The display is the copy, with the column of the cursor inverted.
  pub record Shows (pos : Vec2) (buffer : List Color) (v : VesaScreen) : Type 0 where
    pub faithful : IsFaithful v
    pub copied : v.buffered_screen ≡ some buffer
    pub cursor : v.last_cursor_text_pos ≡ pos
    pub at :
        (x y : ℕ)
        → x < screen_size.x
        → y < screen_size.y
        → color_at screen_size v.driver.display x y ≡ (
            if in_column pos 16 x y
            then inverted screen_size (psf_font glyphs) (color_at screen_size buffer x y)
            else color_at screen_size buffer x y)

  module _ (video : IsVideo screen_size glyphs) where
    set_pixel-IsFaithful :
        (x y : ℕ) (color : Color) (v : VesaScreen)
        → x < screen_size.x
        → y < screen_size.y
        → color.a ≡ 0
        → IsFaithful v
        → Gives IsFaithful (set_pixel screen_size (psf_font glyphs) (vec2 x y) color v)
    set_pixel-IsFaithful x y color v p q solid f =
        let d = f.drawn in
        let (_, room) = pixel-lt screen_size glyphs video x y p q in
        let display = λ (x' y' : ℕ) (hx : x' < screen_size.x).
          shown-at screen_size glyphs video x y x' y' color v.driver.display p hx
            (omega (arith, d.display, room)) in
        let copy = λ (x' y' : ℕ) (hx : x' < screen_size.x).
          shown-at screen_size glyphs video x y x' y' color d.buffer p hx
            (omega (arith, d.size, room)) in
        rw (set_pixel-drawn screen_size glyphs video x y color v d p q) (record {
          drawn = record {
            on = refl;
            display = length-set v.driver.display (y * screen_size.x + x) color ∙ d.display;
            buffer = set d.buffer (y * screen_size.x + x) color;
            copied = refl;
            size = length-set d.buffer (y * screen_size.x + x) color ∙ d.size;
            cursor = d.cursor;
          };
          solid =
              set-IsSolid d.buffer (y * screen_size.x + x) color (omega (arith, d.size, room)) solid
                f.solid;
          agrees = λ x' y' hx hy off.
              display x' y' hx ∙ rw (f.agrees x' y' hx hy off) refl ∙ sym (copy x' y' hx);
        })

    -- What the move of the cursor leaves.
    after_move :
        (pos : Vec2) (v w : VesaScreen) (f : IsFaithful v)
        → Moved screen_size glyphs video v.last_cursor_text_pos pos v f.drawn.buffer w
        → (x y : ℕ) → x < screen_size.x
        → y < screen_size.y
        → color_at screen_size w.driver.display x y ≡ (
            if in_column pos 16 x y
            then inverted screen_size (psf_font glyphs) (color_at screen_size f.drawn.buffer x y)
            else color_at screen_size f.drawn.buffer x y)
    after_move pos v w f m x y hx hy =
        m.at x y hx ∙ elim (Bool-cases (in_column v.last_cursor_text_pos 16 x y)) [
          | inl was ↦
              rw
                (
                  was,
                  restored-eq screen_size glyphs (color_at screen_size f.drawn.buffer x y)
                      (f.solid (y * screen_size.x + x)),
                )
                refl
          | inr off ↦ rw (off, f.agrees x y hx hy off) refl
        ]

    -- Where the display agrees with the copy of the screen off the cursor and no pixel of the
    -- copy has alpha, `set_cursor_at` returns and leaves the display as the copy, with the
    -- column of pixels at the new place inverted: what the cursor covered before is drawn
    -- again. The copy is not changed.
    pub set_cursor_at-Shows :
        (pos : Vec2) (v : VesaScreen)
        → InBounds (vesa_impl screen_size (psf_font glyphs)) pos
        → (f : IsFaithful v)
        → Gives (Shows pos f.drawn.buffer) (set_cursor_at screen_size (psf_font glyphs) pos v)
    set_cursor_at-Shows pos v inside f =
        Gives-mono (set_cursor_at screen_size (psf_font glyphs) pos v)
          (set_cursor_at-Moved screen_size glyphs video pos v inside f.drawn)
          (λ w m.
            let shown = after_move pos v w f m in
            record {
              faithful = record {
                drawn = record {
                  on = m.drawn.on;
                  display = m.drawn.display;
                  buffer = f.drawn.buffer;
                  copied = m.copied;
                  size = f.drawn.size;
                  cursor = m.drawn.cursor;
                };
                solid = f.solid;
                agrees = λ x y hx hy off.
                    shown x y hx hy
                    ∙ rw (subst (λ c. in_column c 16 x y ≡ false) m.cursor off) refl;
              };
              copied = m.copied;
              cursor = m.cursor;
              at = shown;
            })

    -- After a loop over all pixels, both are the same.
    Filled-IsFaithful :
        (f : ℕ → Color) (v : VesaScreen) (old : List Color) (w : VesaScreen)
        → ((i : ℕ) → (f i).a ≡ 0)
        → Filled screen_size glyphs f v old (screen_size.x * screen_size.y) w
        → IsFaithful w
    Filled-IsFaithful f v old w solid p =
        let inside = λ (x y : ℕ) (hx : x < screen_size.x) (hy : y < screen_size.y).
          lt→ltb (y * screen_size.x + x) (screen_size.x * screen_size.y)
            (pixel-lt screen_size glyphs video x y hx hy).1 in
        record {
          drawn = p.drawn;
          solid = λ i. elim (Bool-cases (ltb i (screen_size.x * screen_size.y))) [
            | inl e ↦ ap (λ (c : Color). c.a) (p.copy i) ∙ rw e (solid i)
            | inr e ↦
                ap (λ (c : Color). c.a)
                  (get_or-out p.drawn.buffer i no_color (ground (arith, p.drawn.size)))
          ];
          agrees = λ x y hx hy _.
              let i = y * screen_size.x + x in
              let shown : get_or w.driver.display i no_color ≡ f i =
                p.display i ∙ rw (inside x y hx hy) refl in
              let copied : get_or p.drawn.buffer i no_color ≡ f i =
                p.copy i ∙ rw (inside x y hx hy) refl in
              shown ∙ sym copied;
        }

    solid-scrolled :
        (old : List Color) (i : ℕ) → IsSolid old → (scrolled_color screen_size glyphs old i).a ≡ 0
    solid-scrolled old i solid = elim (Bool-cases (ltb i (screen_size.x * (screen_size.y - 16)))) [
      | inl e ↦ rw e (solid (i + screen_size.x * 16))
      | inr e ↦ rw e refl
    ]

    pub clear_screen-IsFaithful :
        (v : VesaScreen)
        → IsDrawn screen_size glyphs v
        → Gives IsFaithful (clear_screen screen_size (psf_font glyphs) v)
    clear_screen-IsFaithful v d =
        Gives-mono (clear_screen screen_size (psf_font glyphs) v)
          (clear_screen-Filled screen_size glyphs video v d)
          (λ w p. Filled-IsFaithful (λ _. no_color) v d.buffer w (λ _. refl) p)

    -- On a screen with room for a character and fewer than 2^32 pixels, with a font of at least
    -- 128 glyphs, the frame buffer keeps the promises of a screen for characters of 7 bits:
    -- inside the rows and columns of the text no operation reaches outside of the display or of
    -- its copy, and each leaves the display in agreement with the copy off the cursor.
    pub vesa-IsFaithfulScreen : IsScreen (vesa_impl screen_size (psf_font glyphs)) IsFaithful Ascii
    vesa-IsFaithfulScreen =
        let is = (vesa-IsScreen screen_size glyphs video).0 in
        record {
          width = is.width;
          height = is.height;
          put = put_char_at-keeps screen_size glyphs video IsFaithful set_pixel-IsFaithful;
          cursor = λ pos v inside f.
              Gives-mono (set_cursor_at screen_size (psf_font glyphs) pos v)
                (set_cursor_at-Shows pos v inside f) (λ w s. s.faithful);
          scroll = λ v f.
              Gives-mono (scroll_down screen_size (psf_font glyphs) v)
                (scroll_down-Filled screen_size glyphs video v f.drawn)
                (λ w p.
                  Filled-IsFaithful (scrolled_color screen_size glyphs f.drawn.buffer) v
                    f.drawn.buffer w (λ i. solid-scrolled f.drawn.buffer i f.solid) p);
          clear = λ v f. clear_screen-IsFaithful v f.drawn;
        }
