-- ===== src/Terminal/VesaScreen/Glyph.antt =====
-- A character on the frame buffer: what each pixel of it keeps, `put_char_at` keeps.
use mathlib.Core.Path.{subst}
use hry_os.Base.{
  Option, ℕ, ◌+◌, ◌*◌, ◌<◌, ◌≡◌, refl, sym, true, List, arith, ltb, get_or, get_elem?-eq-get_or,
  Bool-cases, inl, inr, sub32,
}
use hry_os.Fallible.{Gives, Gives-bind, for_range, for_range-Gives}
use hry_os.Vectors.{Vec2, vec2, add}
use hry_os.Vesa.{Color, no_color, get_bit}
use hry_os.Terminal.{CombinedColor}
use hry_os.Terminal.Cursor.{InBounds, Ascii}
use hry_os.Terminal.VesaScreen.{
  VesaScreen, psf_font, terminal_to_vesa_color, set_pixel, get_screen_pos, reset_char,
  put_glyph_pixel, put_char_at, vesa_impl,
}
use hry_os.Terminal.VesaScreen.Safe.{IsVideo, IsDrawn, place, set_pixel-IsDrawn}

module _ (screen_size : Vec2) (glyphs : List ℕ) (video : IsVideo screen_size glyphs) where
  -- The colours that are drawn have no alpha.
  solid_color : (color : ℕ) → (terminal_to_vesa_color color).a ≡ 0
  unfolding terminal_to_vesa_color
  solid_color color = ground arith

  -- What each pixel keeps, a character keeps.
  module _ (Good : VesaScreen → Type 0)
      (keeps : (x y : ℕ) (color : Color) (v : VesaScreen)
        → x < screen_size.x
        → y < screen_size.y
        → color.a ≡ 0
        → Good v
        → Gives Good (set_pixel screen_size (psf_font glyphs) (vec2 x y) color v)) where
    -- A loop over the pixels of a character's place.
    for_each_pixel-keeps :
        (body : ℕ → ℕ → VesaScreen → Option VesaScreen)
        → ((x y : ℕ) (v : VesaScreen) → x < 8 → y < 16 → Good v → Gives Good (body x y v))
        → (v : VesaScreen) → Good v
        → Gives Good (for_range 16 0 (λ y. for_range 8 0 (λ x. body x y)) v)
    for_each_pixel-keeps body keeps v d =
        for_range-Gives (λ _. Good) 16 0 (λ y. for_range 8 0 (λ x. body x y))
          (λ y v1 _ py d1.
            for_range-Gives (λ _. Good) 8 0 (λ x. body x y)
              (λ x v2 _ px d2. keeps x y v2 (omega arith) (omega arith) d2) v1 d1)
          v d

    -- A pixel in a character's place.
    put-keeps :
        (pos : Vec2) (x y : ℕ) (color : Color) (v : VesaScreen)
        → InBounds (vesa_impl screen_size (psf_font glyphs)) pos
        → x < 8
        → y < 16
        → color.a ≡ 0
        → Good v
        → Gives Good (
            set_pixel screen_size
              (psf_font glyphs)
              (add (get_screen_pos screen_size (psf_font glyphs) pos) (vec2 x y))
              color
              v)
    put-keeps pos x y color v inside px py solid d =
        let (at, p, q) = place screen_size glyphs video pos x y inside px py in
        subst (λ k. Gives Good (set_pixel screen_size (psf_font glyphs) k color v)) (sym at)
          (keeps (pos.x * 8 + x) (pos.y * 16 + y) color v p q solid d)

    reset_char-keeps :
        (pos : Vec2) (v : VesaScreen)
        → InBounds (vesa_impl screen_size (psf_font glyphs)) pos
        → Good v
        → Gives Good (reset_char screen_size (psf_font glyphs) pos v)
    unfolding reset_char
    reset_char-keeps pos v inside d =
        for_each_pixel-keeps _
          (λ x y v' px py d'. put-keeps pos x y no_color v' inside px py refl d') v d

    glyph_pixel-keeps :
        (row : ℕ) (color : Color) (pos : Vec2) (x y : ℕ) (v : VesaScreen)
        → InBounds (vesa_impl screen_size (psf_font glyphs)) pos
        → x < 8
        → y < 16
        → color.a ≡ 0
        → Good v
        → Gives Good (
            put_glyph_pixel screen_size
              (psf_font glyphs)
              row
              color
              (get_screen_pos screen_size (psf_font glyphs) pos)
              x
              y
              v)
    glyph_pixel-keeps row color pos x y v inside px py solid d =
        elim (Bool-cases (get_bit row (sub32 (sub32 8 1) x))) [
          | inl on ↦ rw on (put-keeps pos x y color v inside px py solid d)
          | inr off ↦ rw off d
        ]

    pub put_char_at-keeps :
        (ch : ℕ) (pos : Vec2) (color : CombinedColor) (v : VesaScreen)
        → InBounds (vesa_impl screen_size (psf_font glyphs)) pos
        → Ascii ch
        → Good v
        → Gives Good (put_char_at screen_size (psf_font glyphs) ch pos color v)
    unfolding put_char_at
    put_char_at-keeps ch pos color v inside ascii d =
        let small : ltb ch 128 ≡ true = ground arith in
        Gives-bind Good Good (reset_char screen_size (psf_font glyphs) pos v) _
          (reset_char-keeps pos v inside d)
          λ v1 d1.
            for_range-Gives (λ _. Good) 16 0 _
              (λ y v2 _ py d2.
                rw (small, get_elem?-eq-get_or glyphs (ch * 16 + y) 0 (omega (arith, video.table)))
                  (for_range-Gives (λ _. Good) 8 0 _
                    (λ x v3 _ px d3.
                      glyph_pixel-keeps (get_or glyphs (ch * 16 + y) 0)
                        (terminal_to_vesa_color color.foreground) pos x y v3 inside (omega arith)
                        (omega arith) (solid_color color.foreground) d3)
                    v2 d2))
              v1 d1

  pub put_char_at-IsDrawn :
      (ch : ℕ) (pos : Vec2) (color : CombinedColor) (v : VesaScreen)
      → InBounds (vesa_impl screen_size (psf_font glyphs)) pos
      → Ascii ch
      → IsDrawn screen_size glyphs v
      → Gives
          (IsDrawn screen_size glyphs)
          (put_char_at screen_size (psf_font glyphs) ch pos color v)
  put_char_at-IsDrawn =
      put_char_at-keeps (IsDrawn screen_size glyphs)
        (λ x y color v p q _ d. set_pixel-IsDrawn screen_size glyphs video x y color v p q d)
