-- ===== src/Terminal/VesaScreen/Scroll.antt =====
-- `scroll_down` and `clear_screen`: what they leave on the display and in its copy.
use mathlib.Core.Path.{subst}
use hry_os.Base.{
  ℕ, suc, ◌+◌, ◌-◌, ◌*◌, ◌<◌, ◌≤◌, ◌≡◌, refl, sym, ap, ◌∙◌, true, false, some, List, arith,
  if◌then◌else◌, ltb, get_or, get_elem?, get_elem?-eq-get_or, mul32, sub32,
}
use hry_os.Fallible.{Gives, Gives-bind, for_range-to}
use hry_os.Vectors.{Vec2}
use hry_os.Vesa.{Color, no_color}
use hry_os.Terminal.VesaScreen.{
  VesaScreen, psf_font, put_both, clear_screen, kept, move_up, scroll_down,
}
use hry_os.Terminal.VesaScreen.Safe.{IsVideo, IsDrawn, le-area}
use hry_os.Terminal.VesaScreen.Fill.{Filled, nothing-Filled, put_both-Filled}

-- The pixels of the first line of text, and those below it.
area-split : (w h : ℕ) → 16 ≤ h → w * h ≡ w * 16 + w * (h - 16)
area-split w h tall =
    let e : h ≡ 16 + (h - 16) = omega arith in ap (λ (k : ℕ). w * k) e ∙ grind arith

module _ (screen_size : Vec2) (glyphs : List ℕ) where
  -- Where the colour of a pixel comes from when the text moves up.
  abbrev pub scrolled_color : List Color → ℕ → Color
  scrolled_color old i =
      if ltb i (screen_size.x * (screen_size.y - 16))
      then get_or old (i + screen_size.x * 16) no_color
      else no_color

  module _ (video : IsVideo screen_size glyphs) where
    pub area32 : mul32 screen_size.x screen_size.y ≡ screen_size.x * screen_size.y
    area32 = omega (arith, video.area)

    kept-eq : kept screen_size (psf_font glyphs) ≡ screen_size.x * (screen_size.y - 16)
    kept-eq =
        let small =
          le-area screen_size.x screen_size.y (omega (arith, video.wide))
            (omega (arith, video.tall)) in
        let rows : sub32 screen_size.y 16 ≡ screen_size.y - 16 =
          omega (arith, video.tall, video.area, small) in
        rw rows (omega (arith, video.area, area-split screen_size.x screen_size.y video.tall))

    cleared-eq :
        sub32 (mul32 screen_size.x screen_size.y) (screen_size.x * (screen_size.y - 16))
        ≡ screen_size.x * 16
    cleared-eq = omega (arith, video.area, area-split screen_size.x screen_size.y video.tall)

    move_up-Filled :
        (v : VesaScreen) (old : List Color) (n : ℕ) (w : VesaScreen)
        → n < screen_size.x * (screen_size.y - 16)
        → Filled screen_size glyphs (scrolled_color old) v old n w
        → Gives
            (Filled screen_size glyphs (scrolled_color old) v old (suc n))
            (move_up screen_size (psf_font glyphs) n w)
    move_up-Filled v old n w few p =
        let d = p.drawn in
        let split = area-split screen_size.x screen_size.y video.tall in
        let at : mul32 screen_size.x 16 + n ≡ n + screen_size.x * 16 =
          omega (arith, video.area, split) in
        let ahead : ltb (n + screen_size.x * 16) n ≡ false = ground arith in
        let here : ltb n (screen_size.x * (screen_size.y - 16)) ≡ true = ground arith in
        let color : get_or d.buffer (n + screen_size.x * 16) no_color ≡ scrolled_color old n =
          p.copy (n + screen_size.x * 16) ∙ rw (ahead, here) refl in
        let found : get_elem? d.buffer (n + screen_size.x * 16) ≡ some (scrolled_color old n) =
          get_elem?-eq-get_or d.buffer (n + screen_size.x * 16) no_color
            (omega (arith, d.size, split))
          ∙ ap some color in
        let one : move_up screen_size (psf_font glyphs) n w
            ≡ put_both screen_size (psf_font glyphs) n (scrolled_color old n) w =
          rw (d.copied, at, found) refl in
        subst (Gives (Filled screen_size glyphs (scrolled_color old) v old (suc n))) (sym one) (
          put_both-Filled screen_size glyphs (scrolled_color old) v old n w (omega (arith, split))
            p)

    -- On a drawn screen with more than 15 rows of pixels, `scroll_down` returns and leaves on
    -- the display and in its copy the same: each pixel is the one 16 rows below it in the copy
    -- of before, and the last 16 rows are black. The cursor stays.
    pub scroll_down-Filled :
        (v : VesaScreen) (d : IsDrawn screen_size glyphs v)
        → Gives
            (Filled screen_size glyphs
              (scrolled_color d.buffer)
              v
              d.buffer
              (screen_size.x * screen_size.y))
            (scroll_down screen_size (psf_font glyphs) v)
    unfolding scroll_down
    scroll_down-Filled v d =
        let f = scrolled_color d.buffer in
        let k = screen_size.x * (screen_size.y - 16) in
        let split = area-split screen_size.x screen_size.y video.tall in
        rw (kept-eq, cleared-eq)
          (Gives-bind (Filled screen_size glyphs f v d.buffer k)
            (Filled screen_size glyphs f v d.buffer (screen_size.x * screen_size.y)) _ _
            (for_range-to (Filled screen_size glyphs f v d.buffer) k 0 k
              (move_up screen_size (psf_font glyphs)) (omega arith)
              (λ n w _ few p. move_up-Filled v d.buffer n w few p) v
              (nothing-Filled screen_size glyphs f v d))
            λ w p.
              for_range-to (Filled screen_size glyphs f v d.buffer) (screen_size.x * 16) k
                (screen_size.x * screen_size.y)
                (λ i. put_both screen_size (psf_font glyphs) i no_color) (omega (arith, split))
                (λ n u low few q.
                  let below : ltb n (screen_size.x * (screen_size.y - 16)) ≡ false = ground arith in
                  let black : f n ≡ no_color = rw below refl in
                  subst
                    (λ c.
                      Gives (Filled screen_size glyphs f v d.buffer (suc n))
                        (put_both screen_size (psf_font glyphs) n c u))
                    black (put_both-Filled screen_size glyphs f v d.buffer n u few q))
                w p)

    pub clear_screen-Filled :
        (v : VesaScreen) (d : IsDrawn screen_size glyphs v)
        → Gives
            (Filled screen_size glyphs (λ _. no_color) v d.buffer (screen_size.x * screen_size.y))
            (clear_screen screen_size (psf_font glyphs) v)
    unfolding clear_screen
    clear_screen-Filled v d =
        let n = screen_size.x * screen_size.y in
        rw area32 (
          for_range-to (Filled screen_size glyphs (λ _. no_color) v d.buffer) n 0 n
            (λ i. put_both screen_size (psf_font glyphs) i no_color) (omega arith)
            (λ i w _ few p. put_both-Filled screen_size glyphs (λ _. no_color) v d.buffer i w few p)
            v (nothing-Filled screen_size glyphs (λ _. no_color) v d))
