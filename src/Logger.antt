-- ===== src/Logger.antt =====
-- code/kernel/logger: the log, a line of text on the serial port. `status` is what the device answers to
-- the reads of its line status, one after the other. `none` is a formatting that fails, or fuel that
-- runs out in the wait for the device.
pub mod Sent
pub mod Waits
mod Tests
use hry_os.Base.{
  ℕ, zero, suc, ◌+◌, ◌-◌, ◌/◌, ◌%◌, ◌^◌, Bool, true, false, Option, none, some, List, [], ◌∷◌, ◌++◌,
  if◌then◌else◌, ◌==◌, not,
}
use hry_os.Fallible.{◌>>=◌}
use hry_os.Vesa.{get_bit}
use hry_os.Format.{Arg, view, format_to}

pub data Level : Type 0 where
  info warning error : Level

abbrev pub string_level : Level → List ℕ
string_level info = b'i' ∷ b'n' ∷ b'f' ∷ b'o' ∷ []
string_level warning = b'w' ∷ b'a' ∷ b'r' ∷ b'n' ∷ []
string_level error = b'e' ∷ b'r' ∷ b'r' ∷ b'o' ∷ []

abbrev pub com1_port : ℕ
com1_port = 0x3F8

-- The reads of the line status so far, and the writes to ports, in their order.
pub record Serial : Type 0 where
  pub reads : ℕ
  pub ports : List (ℕ × ℕ)

abbrev pub out_byte : ℕ → ℕ → Serial → Serial
out_byte port byte s = record s { ports = s.ports ++ (port, byte) ∷ [] }

-- The set-up of the device; the message at its end is left out.
pub init : Serial → Serial
init s =
    let s = out_byte (com1_port + 1) 0x00 s in
    let s = out_byte (com1_port + 3) 0x80 s in
    let s = out_byte (com1_port + 0) 0x03 s in
    let s = out_byte (com1_port + 1) 0x00 s in
    let s = out_byte (com1_port + 3) 0x03 s in
    let s = out_byte (com1_port + 2) 0xC7 s in out_byte (com1_port + 4) 0x0B s

-- `& line_status::transmission_buffer_empty`, the bit 5.
abbrev pub is_transmission_buffer_empty : ℕ → Bool
is_transmission_buffer_empty line_status = get_bit line_status 5

module _ (status : ℕ → ℕ) where
  abbrev pub is_buffer_empty : Serial → Bool × Serial
  is_buffer_empty s =
      (is_transmission_buffer_empty (status s.reads), record s { reads = s.reads + 1 })

  pub write_char : ℕ → ℕ → Serial → Option Serial
  write_char zero ch s = none
  write_char (suc fuel) ch s =
      let (is_empty, s') = is_buffer_empty s in
      let rest = write_char fuel ch s' in if is_empty then some (out_byte com1_port ch s') else rest

  -- The characters that `format_to` hands to `write_char`.
  pub write_text : ℕ → List ℕ → Serial → Option Serial
  unfolding write_char
  write_text fuel [] s = some s
  write_text fuel (ch ∷ text) s = do s ← write_char fuel ch s; write_text fuel text s

  pub log : ℕ → Level → List Arg → List ℕ → Serial → Option Serial
  unfolding write_text write_char
  log fuel lvl args fmt s = do
    label ← format_to (view (string_level lvl) ∷ []) (b'[' ∷ b'{' ∷ b'}' ∷ b']' ∷ b' ' ∷ 0 ∷ [])
    s ← write_text fuel label s
    message ← format_to args fmt
    s ← write_text fuel message s
    s ← write_char fuel 13 s
    write_char fuel 10 s
