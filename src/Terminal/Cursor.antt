-- ===== src/Terminal/Cursor.antt =====
-- The cursor: what is printed never leaves a screen that keeps its promise.
use mathlib.Core.Path.{subst}
use hry_os.Base.{
  All, ℕ, ◌+◌, ◌<◌, ◌^◌, ◌≡◌, refl, sym, ap, ◌∙◌, true, Option, some, List, [], ◌∷◌, arith,
  if◌then◌else◌, ltb, ◌==◌, add32, sub32, Bool-cases, inl, inr,
}
use hry_os.Vectors.{Vec2, vec2}
use hry_os.Terminal.{
  on_screen, CombinedColor, Screen, Terminal, scroll_down, next_line, put_char_at, put_char,
  move_cursor, print, print_line,
}
use hry_os.Fallible.{Gives, Gives-bind, ◌>>=◌}

abbrev pub InBounds : {D : Type 0} → Screen D → Vec2 → Type 0
InBounds impl pos = (pos.x < impl.get_width) × (pos.y < impl.get_height)

-- What a screen promises: within its bounds no operation fails on the characters that it shows, and
-- it stays as it should be.
pub record IsScreen {D : Type 0} (impl : Screen D) (IsGood : D → Type 0) (Shows : ℕ → Type 0)
    : Type 0 where
  pub width : (0 < impl.get_width) × (impl.get_width < 2 ^ 32)
  pub height : (0 < impl.get_height) × (impl.get_height < 2 ^ 32)
  pub put :
      (ch : ℕ) (pos : Vec2) (color : CombinedColor) (d : D)
      → InBounds impl pos
      → Shows ch
      → IsGood d
      → Gives IsGood (impl.put_char_at ch pos color d)
  pub cursor :
      (pos : Vec2) (d : D) → InBounds impl pos → IsGood d → Gives IsGood (impl.set_cursor_at pos d)
  pub scroll : (d : D) → IsGood d → Gives IsGood (impl.scroll_down d)
  pub clear : (d : D) → IsGood d → Gives IsGood (impl.clear_screen d)

-- `init` leaves the screen as it should be.
abbrev pub Starts : {D : Type 0} → Screen D → (D → Type 0) → Type 0
Starts {D} impl IsGood = (d : D) → IsGood d → Gives IsGood (impl.init d)

-- A screen that shows every character, and one that shows those of 7 bits.
abbrev pub AnyChar : ℕ → Type 0
AnyChar ch = Unit {0}

abbrev pub Ascii : ℕ → Type 0
Ascii ch = ch < 128

pub record IsReady {D : Type 0} (impl : Screen D) (IsGood : D → Type 0) (t : Terminal D)
    : Type 0 where
  pub initialized : t.is_initialized ≡ true
  pub inside : InBounds impl t.cursor_pos
  pub good : IsGood t.screen

-- Where the cursor goes after a line, and after a character.
abbrev pub line_after : {D : Type 0} → Screen D → Vec2 → Vec2
line_after impl pos = if pos.y + 1 == impl.get_height then vec2 0 pos.y else vec2 0 (pos.y + 1)

abbrev pub cursor_after : {D : Type 0} → Screen D → Vec2 → Vec2
cursor_after impl pos =
    if ltb (pos.x + 1) impl.get_width then vec2 (pos.x + 1) pos.y else line_after impl pos

-- The cursor after a text.
abbrev pub text_after : {D : Type 0} → Screen D → List ℕ → Vec2 → Vec2
text_after impl [] pos = pos
text_after impl (_ ∷ text) pos = text_after impl text (cursor_after impl pos)

abbrev pub Moved : {D : Type 0} → Screen D → (D → Type 0) → Vec2 → Terminal D → Type 0
Moved impl IsGood pos t = IsReady impl IsGood t × (t.cursor_pos ≡ pos)

module _ {D : Type 0} (impl : Screen D) (IsGood : D → Type 0) {Shows : ℕ → Type 0}
    (is : IsScreen impl IsGood Shows) where
  -- The cursor is shown where it is.
  shown :
      (t : Terminal D) (pos : Vec2)
      → t.is_initialized ≡ true
      → t.cursor_pos ≡ pos
      → InBounds impl pos
      → IsGood t.screen
      → Gives (Moved impl IsGood pos) (on_screen impl (impl.set_cursor_at t.cursor_pos) t)
  shown t pos on at inside good =
      Gives-bind IsGood (Moved impl IsGood pos) (impl.set_cursor_at t.cursor_pos t.screen)
        (λ d. some (record t { screen = d }))
        (is.cursor t.cursor_pos t.screen (subst (InBounds impl) (sym at) inside) good)
        (λ d good'. (
          record { initialized = on; inside = subst (InBounds impl) (sym at) inside; good = good' },
          at,
        ))

  scrolled :
      (t : Terminal D)
      → t.is_initialized ≡ true
      → IsGood t.screen
      → Gives
          (λ t'.
            (t'.is_initialized ≡ true)
            × (t'.cursor_pos ≡ vec2 t.cursor_pos.x (sub32 t.cursor_pos.y 1))
            × IsGood t'.screen)
          (scroll_down impl t)
  unfolding scroll_down
  scrolled t on good = rw on (
      Gives-bind
        (λ t'. (t'.is_initialized ≡ true) × (t'.cursor_pos ≡ t.cursor_pos) × IsGood t'.screen)
        (λ t'.
          (t'.is_initialized ≡ true)
          × (t'.cursor_pos ≡ vec2 t.cursor_pos.x (sub32 t.cursor_pos.y 1))
          × IsGood t'.screen)
        (on_screen impl impl.scroll_down (record t { is_initialized = true }))
        (λ t'. some (record t' { cursor_pos = vec2 t'.cursor_pos.x (sub32 t'.cursor_pos.y 1) }))
        (Gives-bind IsGood
          (λ t'. (t'.is_initialized ≡ true) × (t'.cursor_pos ≡ t.cursor_pos) × IsGood t'.screen)
          (impl.scroll_down t.screen) (λ d. some (record t { is_initialized = true; screen = d }))
          (is.scroll t.screen good) (λ d good'. (refl, refl, good')))
        (λ t' (on', at, good'). (on', ap (λ p. vec2 p.x (sub32 p.y 1)) at, good')))

  -- From any column, `next_line` leads to the first column of the next line, or of the last one.
  pub next_line-Moved :
      (t : Terminal D)
      → t.is_initialized ≡ true
      → t.cursor_pos.y < impl.get_height
      → IsGood t.screen
      → Gives (Moved impl IsGood (line_after impl t.cursor_pos)) (next_line impl t)
  unfolding next_line
  next_line-Moved t on inside good =
      let y = t.cursor_pos.y in
      let up : add32 y 1 ≡ y + 1 = omega (arith, is.height) in
      let down : sub32 (y + 1) 1 ≡ y = omega (arith, is.height) in
      elim (Bool-cases (y + 1 == impl.get_height)) [
        | inl last ↦
            rw (on, up, last)
              (Gives-bind
                (λ t'.
                  (t'.is_initialized ≡ true)
                  × (t'.cursor_pos ≡ vec2 0 (sub32 (y + 1) 1))
                  × IsGood t'.screen)
                (Moved impl IsGood (vec2 0 y))
                (scroll_down impl (record t { is_initialized = true; cursor_pos = vec2 0 (y + 1) }))
                (λ t'. on_screen impl (impl.set_cursor_at t'.cursor_pos) t')
                (scrolled (record t { is_initialized = true; cursor_pos = vec2 0 (y + 1) }) refl
                  good)
                (λ t' (on', at, good').
                  shown t' (vec2 0 y) on' (at ∙ ap (vec2 0) down) (is.width.0, inside) good'))
        | inr more ↦
            rw (on, up, more)
              (shown (record t { is_initialized = true; cursor_pos = vec2 0 (y + 1) })
                (vec2 0 (y + 1)) refl refl (is.width.0, ground arith) good)
      ]

  pub placed :
      (ch : ℕ) (pos : Vec2) (t : Terminal D)
      → Shows ch
      → IsReady impl IsGood t
      → InBounds impl pos
      → Gives (Moved impl IsGood t.cursor_pos) (put_char_at impl ch pos t)
  unfolding put_char_at
  placed ch pos t shows r inside = rw r.initialized (
      Gives-bind IsGood (Moved impl IsGood t.cursor_pos)
        (impl.put_char_at ch pos t.current_color t.screen)
        (λ d. some (record t { is_initialized = true; screen = d }))
        (is.put ch pos t.current_color t.screen inside shows r.good)
        (λ d good'. (record { initialized = refl; inside = r.inside; good = good' }, refl)))

  -- `put_char` once the character is on the screen.
  abbrev advance : Terminal D → Option (Terminal D)
  advance t = do
    let x = add32 t.cursor_pos.x 1
    let t : Terminal D = record t { cursor_pos = vec2 x t.cursor_pos.y }
    t ← if ltb x impl.get_width then some t else next_line impl t
    on_screen impl (impl.set_cursor_at t.cursor_pos) t

  advance-Moved :
      (t : Terminal D)
      → IsReady impl IsGood t
      → Gives (Moved impl IsGood (cursor_after impl t.cursor_pos)) (advance t)
  advance-Moved t r =
      let x = t.cursor_pos.x in
      let y = t.cursor_pos.y in
      let right : add32 x 1 ≡ x + 1 = omega (arith, r.inside, is.width) in
      elim (Bool-cases (ltb (x + 1) impl.get_width)) [
        | inl more ↦
            rw (right, more)
              (shown (record t { cursor_pos = vec2 (x + 1) y }) (vec2 (x + 1) y) r.initialized refl
                (ground arith, r.inside.1) r.good)
        | inr last ↦
            rw (right, last)
              (Gives-bind (Moved impl IsGood (line_after impl t.cursor_pos))
                (Moved impl IsGood (line_after impl t.cursor_pos))
                (next_line impl (record t { cursor_pos = vec2 (x + 1) y }))
                (λ t'. on_screen impl (impl.set_cursor_at t'.cursor_pos) t')
                (next_line-Moved (record t { cursor_pos = vec2 (x + 1) y }) r.initialized r.inside.1
                  r.good)
                (λ t' (r', at).
                  shown t' (line_after impl t.cursor_pos) r'.initialized at
                    (subst (InBounds impl) at r'.inside) r'.good))
      ]

  pub put_char-Moved :
      (ch : ℕ) (t : Terminal D)
      → Shows ch
      → IsReady impl IsGood t
      → Gives (Moved impl IsGood (cursor_after impl t.cursor_pos)) (put_char impl ch t)
  unfolding put_char
  put_char-Moved ch t shows r = rw r.initialized (
      Gives-bind (Moved impl IsGood t.cursor_pos)
        (Moved impl IsGood (cursor_after impl t.cursor_pos))
        (put_char_at impl ch t.cursor_pos (record t { is_initialized = true })) _
        (placed ch t.cursor_pos (record t { is_initialized = true }) shows
          (record { initialized = refl; inside = r.inside; good = r.good }) r.inside)
        (λ t' (r', at).
          subst (λ p. Gives (Moved impl IsGood (cursor_after impl p)) (advance t')) at
            (advance-Moved t' r')))

  pub move_cursor-Moved :
      (pos : Vec2) (t : Terminal D)
      → IsReady impl IsGood t
      → InBounds impl pos
      → Gives (Moved impl IsGood pos) (move_cursor impl pos t)
  unfolding move_cursor
  move_cursor-Moved pos t r inside =
      rw r.initialized
        (shown (record t { is_initialized = true; cursor_pos = pos }) pos refl refl inside r.good)

  pub print-Moved :
      (text : List ℕ) (t : Terminal D)
      → All Shows text
      → IsReady impl IsGood t
      → Gives (Moved impl IsGood (text_after impl text t.cursor_pos)) (print impl text t)
  unfolding print
  print-Moved [] t shows r = (r, refl)
  print-Moved (ch ∷ text) t shows r =
      Gives-bind (Moved impl IsGood (cursor_after impl t.cursor_pos))
        (Moved impl IsGood (text_after impl text (cursor_after impl t.cursor_pos)))
        (put_char impl ch t) (print impl text) (put_char-Moved ch t shows.0 r)
        (λ t' (r', at).
          subst (λ p. Gives (Moved impl IsGood (text_after impl text p)) (print impl text t')) at
            (print-Moved text t' shows.1 r'))

  -- On a screen that keeps its promises, `print_line` of a text of characters that the screen
  -- shows, on a ready terminal, returns and leaves the terminal ready, with the cursor where the
  -- text and the line break lead, inside the screen.
  pub print_line-Moved :
      (text : List ℕ) (t : Terminal D)
      → All Shows text
      → IsReady impl IsGood t
      → Gives
          (Moved impl IsGood (line_after impl (text_after impl text t.cursor_pos)))
          (print_line impl text t)
  unfolding print_line
  print_line-Moved text t shows r =
      Gives-bind (Moved impl IsGood (text_after impl text t.cursor_pos))
        (Moved impl IsGood (line_after impl (text_after impl text t.cursor_pos)))
        (print impl text t) (next_line impl) (print-Moved text t shows r)
        (λ t' (r', at).
          subst (λ p. Gives (Moved impl IsGood (line_after impl p)) (next_line impl t')) at
            (next_line-Moved t' r'.initialized r'.inside.1 r'.good))
