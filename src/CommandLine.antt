-- ===== src/CommandLine.antt =====
-- code/kernel/terminal/command_line.cpp: the line that the user types, and the commands. The process of
-- the terminal calls `send_input` for each key event; `call` is what a command's callback does to the
-- terminal's screen, and a callback of 0 is null.
pub mod Line
pub mod Input
pub mod Register
mod Tests
use hry_os.Base.{
  ℕ, zero, suc, ◌+◌, ◌-◌, Bool, true, false, Option, none, some, List, [], ◌∷◌, ◌++◌, if◌then◌else◌,
  ltb, ◌==◌, not, ◌&&◌, sub32, set, take, length,
}
use hry_os.Fallible.{◌>>=◌}
use hry_os.Cstring.{cstring_compare, is_equal}
use hry_os.Format.{chars, format_to}
use hry_os.Vectors.{Vec2, vec2}
use hry_os.Terminal.{
  Terminal, Screen, put_char, put_char_at, move_cursor, next_line, print, print_line,
}
use hry_os.Keyboard.{KeyEvent, ButtonState, pressed, released, map_key_to_ascii, enter, backspace}

pub record Command : Type 0 where
  pub command : List ℕ
  pub callback : ℕ

abbrev pub max_buffer_size : ℕ
max_buffer_size = 32

abbrev pub commands_array_size : ℕ
commands_array_size = 32

-- `commands` holds the registered ones only.
pub record CommandLine : Type 0 where
  pub input_buffer : List ℕ
  pub input_buffer_index : ℕ
  pub commands : List Command

-- `name` is what lies behind the pointer, of which 32 characters are copied.
pub register_command : List ℕ → ℕ → CommandLine → CommandLine
register_command name callback l =
    if ltb (length l.commands) (commands_array_size - 1)
    then record l {
      commands = l.commands ++ record { command = take 32 name; callback = callback } ∷ [];
    }
    else l

-- The loop of `send_input` that empties the buffer.
abbrev pub clear_buffer : ℕ → List ℕ → List ℕ
clear_buffer zero buffer = buffer
clear_buffer (suc n) buffer = set (clear_buffer n buffer) n 0

-- The format string of the answer to an unknown command.
abbrev pub unknown_command : List ℕ
unknown_command =
    39 ∷ b'{' ∷ b'}' ∷ 39 ∷ b' ' ∷ b'u' ∷ b'n' ∷ b'k' ∷ b'n' ∷ b'o' ∷ b'w' ∷ b'n' ∷ b' ' ∷ b'c'
    ∷ b'o' ∷ b'm' ∷ b'm' ∷ b'a' ∷ b'n' ∷ b'd' ∷ 0 ∷ []

abbrev pub is_released : ButtonState → Bool
is_released released = true
is_released pressed = false

module _ {D : Type 0} (impl : Screen D) (call : ℕ → Terminal D → Option (Terminal D)) where
  pub print_prompt : Terminal D → Option (Terminal D)
  print_prompt t = print impl (62 ∷ 32 ∷ []) t

  pub call_callback : List Command → List ℕ → Terminal D → Option (Bool × Terminal D)
  call_callback [] buffer t = some (false, t)
  call_callback (c ∷ commands) buffer t =
      let rest = call_callback commands buffer t in
      (do
        order ← cstring_compare buffer c.command
        if is_equal order
            then (do t ← if c.callback == 0 then some t else call c.callback t; some (true, t))
            else rest)

  -- The key `enter`.
  pub run_line : CommandLine → Terminal D → Option (CommandLine × Terminal D)
  unfolding call_callback print_prompt format_to
  run_line l t = do
    t ← next_line impl t
    called ← call_callback l.commands l.input_buffer t
    t ← if called.0 then some called.1 else (do
      answer ← format_to (chars l.input_buffer ∷ []) unknown_command
      print_line impl answer called.1)
    t ← next_line impl t
    t ← print_prompt t
    some (
      record l {
        input_buffer = clear_buffer l.input_buffer_index l.input_buffer;
        input_buffer_index = 0;
      },
      t,
    )

  pub on_release : ℕ → CommandLine → Terminal D → Option (CommandLine × Terminal D)
  unfolding run_line
  on_release key l t =
      let ch = map_key_to_ascii key in
      if ltb l.input_buffer_index max_buffer_size && not (ch == 0)
      then (do
        t ← put_char impl ch t
        some (
          record l {
            input_buffer = set l.input_buffer l.input_buffer_index ch;
            input_buffer_index = l.input_buffer_index + 1;
          },
          t,
        ))
      else if key == enter
      then run_line l t
      else some (l, t)

  pub on_backspace : CommandLine → Terminal D → Option (CommandLine × Terminal D)
  on_backspace l t =
      let left = vec2 (sub32 t.cursor_pos.x 1) t.cursor_pos.y in
      if ltb 0 l.input_buffer_index
      then (do
        t ← put_char_at impl 32 left t
        t ← move_cursor impl left t
        some (
          record l {
            input_buffer = set l.input_buffer (l.input_buffer_index - 1) 0;
            input_buffer_index = l.input_buffer_index - 1;
          },
          t,
        ))
      else some (l, t)

  pub send_input : KeyEvent → CommandLine → Terminal D → Option (CommandLine × Terminal D)
  unfolding on_release on_backspace
  send_input e l t = do
    step ← if is_released e.state then on_release e.key l t else some (l, t)
    if (e.key == backspace) && not (is_released e.state)
        then on_backspace step.0 step.1
        else some step
