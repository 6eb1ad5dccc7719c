-- ===== src/CommandLine/Tests.antt =====
-- A line with one character, on a VGA terminal, and the theorems at it.
use hry_os.Base.{
  All-replicate, ℕ, zero, suc, ◌≡◌, refl, true, some, [], ◌∷◌, List, arith, ap, ◌∙◌, replicate,
  length-replicate, leb, ◌==◌, get_or, Option,
}
use hry_os.Fallible.{Gives}
use hry_os.Cstring.{cstring_compare, cstring_compare-same_text, is_equal, same_text, text}
use hry_os.Vectors.{vec2}
use hry_os.Terminal.{Terminal, white, black}
use hry_os.Terminal.Cursor.{IsReady, Ascii}
use hry_os.Terminal.Vga.{Vga, blank, vga_impl}
use hry_os.Terminal.Vga.Display.{IsDisplay, vga-IsScreen}
use hry_os.Keyboard.{released, enter}
use hry_os.CommandLine.{CommandLine, send_input}
use hry_os.CommandLine.Line.{IsLine}
use hry_os.CommandLine.Input.{Stays, IsCallback, send_input-Stays}

abbrev ps : List ℕ
ps = 112 ∷ 115 ∷ replicate 30 0

abbrev line : CommandLine
line = record {
  input_buffer = 112 ∷ replicate 31 0;
  input_buffer_index = 1;
  commands = record { command = ps; callback = 5 } ∷ [];
}

abbrev terminal : Terminal Vga
terminal = record {
  is_initialized = true;
  cursor_pos = vec2 3 7;
  current_color = record { foreground = white; background = black };
  screen = record { display = replicate 2000 blank; cursor = 0 };
}

terminal-IsReady : IsReady vga_impl IsDisplay terminal
terminal-IsReady = record {
  initialized = refl;
  inside = (omega arith, omega arith);
  good = length-replicate 2000 blank;
}

zeros : (n j : ℕ) → get_or {A = ℕ} (replicate n 0) j 0 ≡ 0
zeros zero j = refl
zeros (suc n) zero = refl
zeros (suc n) (suc j) = zeros n j

line-typed : (j : ℕ) → (get_or {A = ℕ} (112 ∷ replicate 31 0) j 0 == 0) ≡ leb 1 j
line-typed zero = refl
line-typed (suc i) = ap (λ c. c == 0) (zeros 31 i) ∙ ground arith

line-IsLine : IsLine line
line-IsLine = record {
  size = refl;
  within = omega arith;
  typed = λ j inside. line-typed j;
  names = (refl, tt);
  ascii = (omega arith, All-replicate Ascii 31 0 (omega arith));
}

abbrev callback : ℕ → Terminal Vga → Option (Terminal Vga)
callback c t = some t

callback-IsCallback : IsCallback vga_impl IsDisplay callback
callback-IsCallback c t r = r

-- The user lets go of `enter`.
send_input-Stays_example :
    Gives
      (Stays vga_impl IsDisplay)
      (send_input vga_impl callback (record { state = released; key = enter }) line terminal)
send_input-Stays_example =
    send_input-Stays vga_impl IsDisplay vga-IsScreen.0 (λ _ _. tt) callback callback-IsCallback
      (record { state = released; key = enter }) line terminal line-IsLine terminal-IsReady
      (λ _. omega arith) (λ _ down _. omega arith)

cstring_compare-same_text_example :
    Gives
      (λ s. is_equal s ≡ same_text (text ps) (text (112 ∷ 0 ∷ [])))
      (cstring_compare ps (112 ∷ 0 ∷ []))
cstring_compare-same_text_example = cstring_compare-same_text ps (112 ∷ 0 ∷ []) refl refl
