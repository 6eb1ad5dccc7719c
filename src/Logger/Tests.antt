-- ===== src/Logger/Tests.antt =====
-- A message with a number on a device that is ready at every other read.
use hry_os.Base.{ℕ, some, ◌≡◌, ◌%◌, ◌++◌, [], ◌∷◌, refl, arith, if◌then◌else◌, ◌==◌}
use hry_os.Fallible.{Gives}
use hry_os.Format.{chars, format_arg, array_text}
use hry_os.Format.Template.{Template, end, place, encode}
use hry_os.Logger.{Serial, warning, string_level, log, write_char}
use hry_os.Logger.Sent.{IsPatient, Sent, log-Sent}
use hry_os.Logger.Waits.{written, write_char-waits}

abbrev idle : Serial
idle = record { reads = 0; ports = [] }

abbrev status : ℕ → ℕ
status n = if n % 2 == 1 then 0x60 else 0

abbrev wait : ℕ → ℕ
wait n = if n % 2 == 1 then 0 else 1

status-IsPatient : IsPatient status wait 2
status-IsPatient n = ground arith

-- "I {}" with "A".
abbrev message : Template
message = place (b'I' ∷ b' ' ∷ []) [] (end [])

log-Sent_example :
    Gives
      (Sent
        ((b'[' ∷ (string_level warning ++ (b']' ∷ b' ' ∷ [])))
          ++ ((b'I' ∷ b' ' ∷ b'A' ∷ []) ++ 13 ∷ 10 ∷ []))
        idle)
      (log status 2 warning (chars (b'A' ∷ []) ∷ []) (encode message) idle)
unfolding format_arg array_text
log-Sent_example =
    log-Sent status wait 2 warning message (chars (b'A' ∷ []) ∷ []) (b'I' ∷ b' ' ∷ b'A' ∷ []) idle
      status-IsPatient (ground arith) refl

write_char-waits_example : write_char status 2 65 idle ≡ some (written 1 65 idle)
write_char-waits_example =
    write_char-waits status 2 1 65 idle (omega arith) (λ j less. ground arith) refl
