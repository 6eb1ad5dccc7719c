-- ===== src/Terminal/Vga/Display.antt =====
-- The VGA screen keeps what the terminal asks of a screen (Terminal/Cursor.antt).
use hry_os.Base.{
  ℕ, zero, suc, ◌+◌, ◌*◌, ◌<◌, ◌≤◌, ◌≡◌, ◌≢◌, refl, ap, ◌∙◌, true, false, ◌&&◌, arith,
  if◌then◌else◌, ltb, set, length, length-set, get_or, get_or-set_ne, get_or-set_self, Bool-cases,
  inl, inr, ◌==◌, ==_true,
}
use hry_os.Fallible.{Gives, Gives-bind, Gives-mono}
use hry_os.Algorithm.{copy_n, copy_n-Copied, Copied, in_range}
use hry_os.Vectors.{Vec2, vec2}
use hry_os.Terminal.{CombinedColor}
use hry_os.Terminal.Cursor.{IsScreen, Starts, InBounds, AnyChar}
use hry_os.Terminal.Vga.{
  Vga, display_width, display_height, blank, color_value, put_char_at, set_cursor_pos, reset_row,
  scroll_down, clear_color, clear_row, clear_rows, clear_screen, vga_impl,
}

-- The display's memory has its size.
abbrev pub IsDisplay : Vga → Type 0
IsDisplay v = length v.display ≡ 2000

pub put_char_at-IsDisplay :
    (ch : ℕ) (pos : Vec2) (color : CombinedColor) (v : Vga)
    → InBounds vga_impl pos
    → IsDisplay v
    → Gives IsDisplay (put_char_at ch pos color v)
unfolding put_char_at
put_char_at-IsDisplay ch pos color v inside is =
    let visible : (ltb pos.x display_width && ltb pos.y display_height) ≡ true = ground arith in
    let i = pos.y * display_width + pos.x in
    let room : ltb i (length v.display) ≡ true = ground arith in
    rw (visible, room)
      (length-set v.display i (record { character = ch; color = color_value color }) ∙ is)

clear_row-IsDisplay :
    (n x y : ℕ) (v : Vga)
    → x + n ≤ display_width
    → y < display_height
    → IsDisplay v
    → Gives IsDisplay (clear_row n x y v)
unfolding clear_row
clear_row-IsDisplay zero x y v lo inside is = is
clear_row-IsDisplay (suc n) x y v lo inside is =
    Gives-bind IsDisplay IsDisplay (put_char_at 32 (vec2 x y) clear_color v) (clear_row n (suc x) y)
      (put_char_at-IsDisplay 32 (vec2 x y) clear_color v (omega arith, inside) is)
      (λ w is'. clear_row-IsDisplay n (suc x) y w (omega arith) inside is')

pub clear_rows-IsDisplay :
    (n y : ℕ) (v : Vga) → y + n ≤ display_height → IsDisplay v → Gives IsDisplay (clear_rows n y v)
unfolding clear_rows
clear_rows-IsDisplay zero y v lo is = is
clear_rows-IsDisplay (suc n) y v lo is =
    Gives-bind IsDisplay IsDisplay (clear_row display_width 0 y v) (clear_rows n (suc y))
      (clear_row-IsDisplay display_width 0 y v (omega arith) (omega arith) is)
      (λ w is'. clear_rows-IsDisplay n (suc y) w (omega arith) is')

-- What `reset_row` leaves: a row of blanks from column `x` on, and the rest.
abbrev pub Reset : ℕ → ℕ → Vga → Vga → Type 0
Reset n x v w =
    (length w.display ≡ length v.display)
    × ((j : ℕ)
        → get_or w.display j blank
          ≡ (if in_range (1920 + x) n j then blank else get_or v.display j blank))

Reset-step :
    (n x : ℕ) (v : Vga) (w : Vga)
    → 1920 + x < length v.display
    → Reset n (suc x) (record v { display = set v.display (1920 + x) blank }) w
    → Reset (suc n) x v w
Reset-step n x v w room (size, at) = (
  size ∙ length-set v.display (1920 + x) blank,
  λ j. at j ∙ elim (Bool-cases (j == 1920 + x)) [
    | inl e ↦
        let here : j ≡ 1920 + x = ==_true j (1920 + x) e in
        let out : in_range (1920 + suc x) n j ≡ false = ground arith in
        let inside : in_range (1920 + x) (suc n) j ≡ true = ground arith in
        rw (out, inside)
          (ap (λ k. get_or (set v.display (1920 + x) blank) k blank) here
            ∙ get_or-set_self v.display (1920 + x) blank blank room)
    | inr e ↦
        let other : 1920 + x ≢ j = ground arith in
        let same_range : in_range (1920 + suc x) n j ≡ in_range (1920 + x) (suc n) j =
          ground arith in
        rw (same_range, get_or-set_ne v.display {i = 1920 + x} {j = j} blank blank other) refl
  ],
)

reset_row-Reset :
    (n x : ℕ) (v : Vga)
    → x + n ≤ display_width
    → IsDisplay v
    → Gives (Reset n x v) (reset_row n x v)
unfolding reset_row
reset_row-Reset zero x v lo is =
    (refl, λ j. let out : in_range (1920 + x) 0 j ≡ false = ground arith in rw out refl)
reset_row-Reset (suc n) x v lo is =
    let visible : (ltb x display_width && ltb 24 display_height) ≡ true = ground arith in
    let i : 24 * display_width + x ≡ 1920 + x = omega arith in
    let room : ltb (1920 + x) (length v.display) ≡ true = ground arith in
    rw (visible, i, room)
      (Gives-mono (reset_row n (suc x) (record v { display = set v.display (1920 + x) blank }))
        (reset_row-Reset n (suc x) (record v { display = set v.display (1920 + x) blank })
          (omega arith) (length-set v.display (1920 + x) blank ∙ is))
        (λ w r. Reset-step n x v w (omega arith) r))

-- Each line is the next one of before, and the last line is empty.
abbrev pub Scrolled : Vga → Vga → Type 0
Scrolled v w =
    (length w.display ≡ length v.display)
    × ((j : ℕ)
        → get_or w.display j blank ≡ (
            if ltb j 1920
            then get_or v.display (j + 80) blank
            else if ltb j 2000
            then blank
            else get_or v.display j blank))

-- On a display memory of 2000 entries `scroll_down` returns: each line is the next one of before,
-- the last line is empty, and the size is kept.
pub scroll_down-Scrolled : (v : Vga) → IsDisplay v → Gives (Scrolled v) (scroll_down v)
unfolding scroll_down
scroll_down-Scrolled v is =
    Gives-bind (Copied blank 1920 80 0 v.display) (Scrolled v) (copy_n 1920 80 0 v.display)
      (λ display. reset_row display_width 0 (record v { display = display }))
      (copy_n-Copied blank 1920 80 0 v.display (omega arith) (omega (arith, is)))
      (λ display c.
        Gives-mono (reset_row 80 0 (record v { display = display }))
          (reset_row-Reset 80 0 (record v { display = display }) (omega arith) (c.size ∙ is))
          (λ w (size, at). (size ∙ c.size, λ j. at j ∙ rw (c.at j) (ground arith))))

-- The VGA screen keeps the promises of a screen: inside 80 columns and 25 lines no operation
-- reaches outside of the display memory of 2000 entries.
pub vga-IsScreen : IsScreen vga_impl IsDisplay AnyChar × Starts vga_impl IsDisplay
unfolding set_cursor_pos clear_screen
vga-IsScreen = (
  record {
    width = (omega arith, omega arith);
    height = (omega arith, omega arith);
    put = λ ch pos color v inside _. put_char_at-IsDisplay ch pos color v inside;
    cursor = λ pos v inside is. is;
    scroll =
        λ v is. Gives-mono (scroll_down v) (scroll_down-Scrolled v is) (λ w (size, at). size ∙ is);
    clear = λ v is. clear_rows-IsDisplay display_height 0 v (omega arith) is;
  },
  λ v is. is,
)
