-- ===== src/Terminal/VesaScreen/Fill.antt =====
-- Loops that write the display and its copy from the first pixel on.
use hry_os.Base.{
  ℕ, suc, ◌*◌, ◌<◌, ◌≡◌, ◌≢◌, refl, sym, ap, ◌∙◌, true, false, List, arith, if◌then◌else◌, ltb,
  ◌==◌, ==_true, set, length, length-set, get_or, get_or-set_self, get_or-set_ne, Bool-cases, inl,
  inr,
}
use hry_os.Fallible.{Gives}
use hry_os.Vectors.{Vec2}
use hry_os.Vesa.{Color, no_color}
use hry_os.Terminal.VesaScreen.{VesaScreen, psf_font, put_both}
use hry_os.Terminal.VesaScreen.Safe.{IsDrawn}

module _ (screen_size : Vec2) (glyphs : List ℕ) where
  -- The first `n` pixels are those of `f`, on the display and in its copy; the others are as before.
  pub record Filled (f : ℕ → Color) (v : VesaScreen) (old : List Color) (n : ℕ) (w : VesaScreen)
      : Type 0 where
    pub drawn : IsDrawn screen_size glyphs w
    pub cursor : w.last_cursor_text_pos ≡ v.last_cursor_text_pos
    pub display :
        (i : ℕ)
        → get_or w.driver.display i no_color
          ≡ (if ltb i n then f i else get_or v.driver.display i no_color)
    pub copy :
        (i : ℕ) → get_or drawn.buffer i no_color ≡ (if ltb i n then f i else get_or old i no_color)

  pub nothing-Filled :
      (f : ℕ → Color) (v : VesaScreen) (d : IsDrawn screen_size glyphs v) → Filled f v d.buffer 0 v
  nothing-Filled f v d = record {
    drawn = d;
    cursor = refl;
    display = λ i. let out : ltb i 0 ≡ false = ground arith in rw out refl;
    copy = λ i. let out : ltb i 0 ≡ false = ground arith in rw out refl;
  }

  one_more :
      (f : ℕ → Color) (n i : ℕ) (xs old : List Color)
      → n < length xs
      → ((j : ℕ) → get_or xs j no_color ≡ (if ltb j n then f j else get_or old j no_color))
      → get_or (set xs n (f n)) i no_color ≡ (if ltb i (suc n) then f i else get_or old i no_color)
  one_more f n i xs old room at = elim (Bool-cases (i == n)) [
    | inl e ↦
        let here : i ≡ n = ==_true i n e in
        let inside : ltb i (suc n) ≡ true = ground arith in
        rw inside (
          ap (λ k. get_or (set xs n (f n)) k no_color) here
          ∙ get_or-set_self xs n (f n) no_color room
          ∙ ap f (sym here))
    | inr e ↦
        let other : n ≢ i = ground arith in
        let same : ltb i (suc n) ≡ ltb i n = ground arith in
        rw same (get_or-set_ne xs {i = n} {j = i} (f n) no_color other ∙ at i)
  ]

  pub put_both-Filled :
      (f : ℕ → Color) (v : VesaScreen) (old : List Color) (n : ℕ) (w : VesaScreen)
      → n < screen_size.x * screen_size.y
      → Filled f v old n w
      → Gives (Filled f v old (suc n)) (put_both screen_size (psf_font glyphs) n (f n) w)
  put_both-Filled f v old n w inside p =
      let d = p.drawn in
      let room : ltb n (length w.driver.display) ≡ true = ground (arith, d.display) in
      let room' : ltb n (length d.buffer) ≡ true = ground (arith, d.size) in
      rw (room, d.copied, room')
        (record {
          drawn = record {
            on = d.on;
            display = length-set w.driver.display n (f n) ∙ d.display;
            buffer = set d.buffer n (f n);
            copied = refl;
            size = length-set d.buffer n (f n) ∙ d.size;
            cursor = d.cursor;
          };
          cursor = p.cursor;
          display = λ i.
              one_more f n i w.driver.display v.driver.display (omega (arith, d.display)) p.display;
          copy = λ i. one_more f n i d.buffer old (omega (arith, d.size)) p.copy;
        })
