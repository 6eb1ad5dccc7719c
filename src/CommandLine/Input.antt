-- ===== src/CommandLine/Input.antt =====
-- The input line: it stays within its buffer, and typing never reaches outside of memory.
use hry_os.Base.{
  All, All-map, ℕ, ◌+◌, ◌-◌, ◌<◌, ◌≡◌, ◌∙◌, Bool, true, false, Option, some, List, [], ◌∷◌, arith,
  if◌then◌else◌, ltb, ◌==◌, ==_true, not, ◌&&◌, sub32, set, Bool-cases, inl, inr, ltb→lt,
}
use hry_os.Fallible.{Gives, Gives-mono, Gives-bind, ◌>>=◌}
use hry_os.Cstring.{
  cstring_compare, is_equal, text, is_terminated, cstring_compare-same_text, same_text,
}
use hry_os.Vectors.{vec2}
use hry_os.Terminal.{
  Terminal, Screen, put_char, put_char_at, move_cursor, next_line, print, print_line,
}
use hry_os.Terminal.Cursor.{
  IsScreen, Ascii, IsReady, InBounds, Moved, put_char-Moved, next_line-Moved, print-Moved,
  print_line-Moved, placed, move_cursor-Moved, cursor_after,
}
use hry_os.Keyboard.Ascii.{printable}
use hry_os.Keyboard.{KeyEvent, map_key_to_ascii, enter, backspace}
use hry_os.CommandLine.Line.{
  AreTerminated, IsLine, typed-IsLine, erased-IsLine, cleared-IsLine, terminated-at, quoted,
  unknown_command-quoted, quoted-Ascii,
}
use hry_os.Format.{chars, array_text, format_to}
use hry_os.CommandLine.{
  Command, CommandLine, unknown_command, call_callback, run_line, on_release, on_backspace,
  send_input, is_released,
}

-- A callback leaves the terminal as it should be.
abbrev pub IsCallback :
    {D : Type 0} → Screen D → (D → Type 0) → (ℕ → Terminal D → Option (Terminal D)) → Type 0
IsCallback {D} impl IsGood call =
    (c : ℕ) (t : Terminal D) → IsReady impl IsGood t → Gives (IsReady impl IsGood) (call c t)

abbrev pub Stays : {D : Type 0} → Screen D → (D → Type 0) → CommandLine × Terminal D → Type 0
Stays impl IsGood r = IsLine r.0 × IsReady impl IsGood r.1

module _ {D : Type 0} (impl : Screen D) (IsGood : D → Type 0) {Shows : ℕ → Type 0}
    (screen : IsScreen impl IsGood Shows) (shows : (ch : ℕ) → Ascii ch → Shows ch)
    (call : ℕ → Terminal D → Option (Terminal D)) (callback : IsCallback impl IsGood call) where
  call_callback-IsReady :
      (commands : List Command) (buffer : List ℕ) (t : Terminal D)
      → AreTerminated commands
      → is_terminated buffer ≡ true
      → IsReady impl IsGood t
      → Gives (λ r. IsReady impl IsGood r.1) (call_callback impl call commands buffer t)
  unfolding call_callback
  call_callback-IsReady [] buffer t names e r = r
  call_callback-IsReady (c ∷ commands) buffer t names e r =
      Gives-bind (λ s. is_equal s ≡ same_text (text buffer) (text c.command))
        (λ r'. IsReady impl IsGood r'.1) (cstring_compare buffer c.command)
        (λ order.
          if is_equal order
          then (do t' ← if c.callback == 0 then some t else call c.callback t; some (true, t'))
          else call_callback impl call commands buffer t)
        (cstring_compare-same_text buffer c.command e names.0)
        (λ order _. elim (Bool-cases (is_equal order)) [
          | inl found ↦ rw found (elim (Bool-cases (c.callback == 0)) [
            | inl null ↦ rw null r
            | inr exists ↦ rw exists (
                Gives-bind (IsReady impl IsGood) (λ r'. IsReady impl IsGood r'.1)
                  (call c.callback t) (λ t'. some (true, t')) (callback c.callback t r)
                  (λ t' r'. r'))
          ])
          | inr other ↦ rw other (call_callback-IsReady commands buffer t names.1 e r)
        ])

  next_line-IsReady :
      (t : Terminal D) → IsReady impl IsGood t → Gives (IsReady impl IsGood) (next_line impl t)
  next_line-IsReady t r =
      Gives-mono (next_line impl t)
        (next_line-Moved impl IsGood screen t r.initialized r.inside.1 r.good) (λ _ m. m.0)

  -- The answer to a command that is not known.
  answer-IsReady :
      (called : Bool × Terminal D) (buffer : List ℕ)
      → All Ascii buffer
      → IsReady impl IsGood called.1
      → Gives (IsReady impl IsGood) (
          if called.0 then some called.1 else (do
            answer ← format_to (chars buffer ∷ []) unknown_command
            print_line impl answer called.1))
  answer-IsReady (true, t) buffer all r = r
  answer-IsReady (false, t) buffer all r = rw (unknown_command-quoted buffer) (
      Gives-mono (print_line impl (quoted (array_text buffer)) t)
        (print_line-Moved impl IsGood screen (quoted (array_text buffer)) t
          (All-map shows (quoted (array_text buffer)) (quoted-Ascii buffer all)) r)
        (λ _ m. m.0))

  run_line-Stays :
      (l : CommandLine) (t : Terminal D)
      → IsLine l
      → l.input_buffer_index < 32
      → IsReady impl IsGood t
      → Gives (Stays impl IsGood) (run_line impl call l t)
  unfolding run_line
  run_line-Stays l t is room r =
      let i = l.input_buffer_index in
      let prompt : All Shows (62 ∷ 32 ∷ []) =
        (shows 62 (omega arith), (shows 32 (omega arith), tt)) in
      let ends : is_terminated l.input_buffer ≡ true =
        terminated-at l.input_buffer i (omega (arith, is.size)) (is.typed i room ∙ ground arith) in
      Gives-bind (IsReady impl IsGood) (Stays impl IsGood) (next_line impl t) _
        (next_line-IsReady t r)
        λ t1 r1.
          Gives-bind (λ called. IsReady impl IsGood called.1) (Stays impl IsGood)
            (call_callback impl call l.commands l.input_buffer t1) _
            (call_callback-IsReady l.commands l.input_buffer t1 is.names ends r1)
            λ called r2.
              Gives-bind (IsReady impl IsGood) (Stays impl IsGood) _ _
                (answer-IsReady called l.input_buffer is.ascii r2)
                λ t3 r3.
                  Gives-bind (IsReady impl IsGood) (Stays impl IsGood) (next_line impl t3) _
                    (next_line-IsReady t3 r3)
                    λ t4 r4.
                      Gives-bind (IsReady impl IsGood) (Stays impl IsGood)
                        (print impl (62 ∷ 32 ∷ []) t4) _
                        (Gives-mono (print impl (62 ∷ 32 ∷ []) t4)
                          (print-Moved impl IsGood screen (62 ∷ 32 ∷ []) t4 prompt r4) (λ _ m. m.0))
                        λ t5 r5. (cleared-IsLine l is, r5)

  on_release-Stays :
      (key : ℕ) (l : CommandLine) (t : Terminal D)
      → IsLine l
      → (key ≡ enter → l.input_buffer_index < 32)
      → IsReady impl IsGood t
      → Gives (Stays impl IsGood) (on_release impl call key l t)
  unfolding on_release
  on_release-Stays key l t is room r =
      let ch = map_key_to_ascii key in
      let small : ch < 128 = omega (arith, printable key) in
      elim (Bool-cases (ltb l.input_buffer_index 32 && not (ch == 0))) [
        | inl typed ↦ rw typed (
            Gives-bind (Moved impl IsGood (cursor_after impl t.cursor_pos)) (Stays impl IsGood)
              (put_char impl ch t)
              (λ t'. some (
                record l {
                  input_buffer = set l.input_buffer l.input_buffer_index ch;
                  input_buffer_index = l.input_buffer_index + 1;
                },
                t',
              ))
              (put_char-Moved impl IsGood screen ch t (shows ch small) r)
              (λ t' (r', at). (typed-IsLine l ch is (ground arith) (ground arith) small, r')))
        | inr rest ↦ rw rest (elim (Bool-cases (key == enter)) [
          | inl e ↦ rw e (run_line-Stays l t is (room (==_true key enter e)) r)
          | inr e ↦ rw e (is, r)
        ])
      ]

  on_backspace-Stays :
      (l : CommandLine) (t : Terminal D)
      → IsLine l
      → (0 < l.input_buffer_index → 0 < t.cursor_pos.x)
      → IsReady impl IsGood t
      → Gives (Stays impl IsGood) (on_backspace impl call l t)
  unfolding on_backspace
  on_backspace-Stays l t is inside r = elim (Bool-cases (ltb 0 l.input_buffer_index)) [
    | inr empty ↦ rw empty (is, r)
    | inl some_typed ↦
        let back : sub32 t.cursor_pos.x 1 ≡ t.cursor_pos.x - 1 =
          omega
            (arith, inside (ltb→lt 0 l.input_buffer_index some_typed), r.inside, screen.width) in
        let left = vec2 (t.cursor_pos.x - 1) t.cursor_pos.y in
        let fits : InBounds impl left = (omega (arith, r.inside), r.inside.1) in
        rw (some_typed, back)
          (Gives-bind (Moved impl IsGood t.cursor_pos) (Stays impl IsGood)
            (put_char_at impl 32 left t) _
            (placed impl IsGood screen 32 left t (shows 32 (omega arith)) r fits)
            λ t1 (r1, at1).
              Gives-bind (Moved impl IsGood left) (Stays impl IsGood) (move_cursor impl left t1) _
                (move_cursor-Moved impl IsGood screen left t1 r1 fits)
                λ t2 (r2, at2). (erased-IsLine l is (ltb→lt 0 l.input_buffer_index some_typed), r2))
  ]

  -- On a terminal that is ready, on a screen that shows the characters of 7 bits, with callbacks
  -- that leave it so, `send_input` never reaches outside of memory: it returns, the input line
  -- keeps its form and the terminal stays ready. The form of a line is a buffer of 32 characters
  -- of 7 bits, none of them zero before the index and all of them zero behind it, and names of
  -- commands that end with a zero. It is required that `enter` comes with a line of fewer than 32
  -- characters, and that `backspace`, when it is pressed on a line that is not empty, comes with
  -- the cursor off the first column.
  pub send_input-Stays :
      (e : KeyEvent) (l : CommandLine) (t : Terminal D)
      → IsLine l
      → IsReady impl IsGood t
      → (e.key ≡ enter → l.input_buffer_index < 32)
      → (e.key ≡ backspace
          → is_released e.state ≡ false
          → 0 < l.input_buffer_index
          → 0 < t.cursor_pos.x)
      → Gives (Stays impl IsGood) (send_input impl call e l t)
  unfolding send_input
  send_input-Stays e l t is r room inside = elim (Bool-cases (is_released e.state)) [
    | inl up ↦ rw up (
        Gives-bind (Stays impl IsGood) (Stays impl IsGood) (on_release impl call e.key l t) _
          (on_release-Stays e.key l t is room r)
          λ step s. elim (Bool-cases (e.key == backspace)) [
            | inl back ↦ rw back s
            | inr other ↦ rw other s
          ])
    | inr down ↦ elim (Bool-cases (e.key == backspace)) [
      | inl back ↦
          rw (down, back) (on_backspace-Stays l t is (inside (==_true e.key backspace back) down) r)
      | inr other ↦ rw (down, other) (is, r)
    ]
  ]
