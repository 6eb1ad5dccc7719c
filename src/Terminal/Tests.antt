-- ===== src/Terminal/Tests.antt =====
-- A terminal on the VGA screen, and the theorems at it.
use hry_os.Base.{refl, true, [], ◌∷◌, arith, replicate, length-replicate}
use hry_os.Fallible.{Gives}
use hry_os.Vectors.{vec2}
use hry_os.Terminal.{Terminal, print_line, white, black}
use hry_os.Terminal.Cursor.{IsReady, Moved, line_after, text_after, print_line-Moved}
use hry_os.Terminal.Vga.{Vga, blank, vga_impl}
use hry_os.Terminal.Vga.Display.{IsDisplay, vga-IsScreen}

abbrev blank_screen : Vga
blank_screen = record { display = replicate 2000 blank; cursor = 0 }

-- The cursor stands at the end of the last line.
abbrev terminal : Terminal Vga
terminal = record {
  is_initialized = true;
  cursor_pos = vec2 79 24;
  current_color = record { foreground = white; background = black };
  screen = blank_screen;
}

blank_screen-IsDisplay : IsDisplay blank_screen
blank_screen-IsDisplay = length-replicate 2000 blank

terminal-IsReady : IsReady vga_impl IsDisplay terminal
terminal-IsReady = record {
  initialized = refl;
  inside = (omega arith, omega arith);
  good = blank_screen-IsDisplay;
}

print_line-Moved_example :
    Gives
      (Moved vga_impl IsDisplay
        (line_after vga_impl (text_after vga_impl (72 ∷ 105 ∷ []) (vec2 79 24))))
      (print_line vga_impl (72 ∷ 105 ∷ []) terminal)
print_line-Moved_example =
    print_line-Moved vga_impl IsDisplay vga-IsScreen.0 (72 ∷ 105 ∷ []) terminal (tt, (tt, tt))
      terminal-IsReady
