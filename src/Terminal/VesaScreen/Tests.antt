-- ===== src/Terminal/VesaScreen/Tests.antt =====
-- A screen of two by two characters, and the theorems at it.
use hry_os.Base.{
  ℕ, zero, suc, ◌≡◌, refl, true, some, List, ◌∷◌, arith, replicate, length-replicate, get_or,
}
use hry_os.Fallible.{Gives}
use hry_os.Vectors.{Vec2, vec2}
use hry_os.Vesa.{no_color}
use hry_os.Terminal.{CombinedColor, black}
use hry_os.Terminal.Cursor.{IsScreen, Ascii}
use hry_os.Terminal.VesaScreen.{
  VesaScreen, psf_font, load_psf_font, vesa_impl, put_char_at, set_cursor_at, scroll_down,
}
use hry_os.Terminal.VesaScreen.Safe.{IsVideo, IsDrawn}
use hry_os.Terminal.VesaScreen.Draw.{Cell, character_color, blackened, put_char_at-Cell}
use hry_os.Terminal.VesaScreen.Fill.{Filled}
use hry_os.Terminal.VesaScreen.Scroll.{scrolled_color, scroll_down-Filled}
use hry_os.Terminal.VesaScreen.Faithful.{
  IsFaithful, Shows, set_cursor_at-Shows, vesa-IsFaithfulScreen,
}

abbrev small : Vec2
small = vec2 16 32

abbrev rows : List ℕ
rows = replicate 2048 24

small-IsVideo : IsVideo small rows
small-IsVideo = record {
  wide = omega arith;
  tall = omega arith;
  area = omega arith;
  table = omega (arith, length-replicate {A = ℕ} 2048 24);
}

abbrev dark : VesaScreen
dark = record {
  driver = record { initialized = true; display = replicate 512 no_color };
  buffered_screen = some (replicate 512 no_color);
  last_cursor_text_pos = vec2 1 1;
}

abbrev dark-IsDrawn : IsDrawn small rows dark
dark-IsDrawn = record {
  on = refl;
  display = length-replicate 512 no_color;
  buffer = replicate 512 no_color;
  copied = refl;
  size = length-replicate 512 no_color;
  cursor = (omega arith, omega arith);
}

alphas : (n i : ℕ) → (get_or (replicate n no_color) i no_color).a ≡ 0
alphas zero i = refl
alphas (suc n) zero = refl
alphas (suc n) (suc i) = alphas n i

abbrev dark-IsFaithful : IsFaithful small rows dark
dark-IsFaithful = record {
  drawn = dark-IsDrawn;
  solid = alphas 512;
  agrees = λ x y hx hy off. refl;
}

vesa-IsFaithfulScreen_example :
    IsScreen (vesa_impl small (psf_font rows)) (IsFaithful small rows) Ascii
vesa-IsFaithfulScreen_example = vesa-IsFaithfulScreen small rows small-IsVideo

abbrev green : CombinedColor
green = record { foreground = 2; background = black }

put_char_at-Cell_example :
    Gives
      (Cell small rows small-IsVideo
        (vec2 1 0)
        (character_color small rows small-IsVideo 72 (vec2 1 0) green (replicate 512 no_color))
        (blackened small rows small-IsVideo (vec2 1 0) (replicate 512 no_color))
        16
        0)
      (put_char_at small (psf_font rows) 72 (vec2 1 0) green dark)
put_char_at-Cell_example =
    put_char_at-Cell small rows small-IsVideo 72 (vec2 1 0) green dark (omega arith, omega arith)
      (omega arith) dark-IsDrawn

set_cursor_at-Shows_example :
    Gives
      (Shows small rows (vec2 0 1) (replicate 512 no_color))
      (set_cursor_at small (psf_font rows) (vec2 0 1) dark)
set_cursor_at-Shows_example =
    set_cursor_at-Shows small rows small-IsVideo (vec2 0 1) dark (omega arith, omega arith)
      dark-IsFaithful

scroll_down-Filled_example :
    Gives
      (Filled small rows
        (scrolled_color small rows (replicate 512 no_color))
        dark
        (replicate 512 no_color)
        512)
      (scroll_down small (psf_font rows) dark)
scroll_down-Filled_example = scroll_down-Filled small rows small-IsVideo dark dark-IsDrawn

loaded : load_psf_font (0x36 ∷ 0x04 ∷ 0 ∷ 16 ∷ rows) ≡ some (psf_font rows)
unfolding load_psf_font
loaded = refl
