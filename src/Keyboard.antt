-- ===== src/Keyboard.antt =====
-- code/kernel/drivers/keyboard.cpp: the keys that the interrupt handler puts into a circular buffer, and
-- the process that waits for them. A key is its scan code.
pub mod Ascii
use Prim.Native.Nat.{bit_and}
use hry_os.Base.{
  ℕ, zero, suc, ◌+◌, ◌/◌, Bool, true, false, Option, none, some, List, [], ◌∷◌, if◌then◌else◌, ◌==◌,
}
use hry_os.CircularBuffer.{CircularBuffer, empty, push_back, pop}
use hry_os.Scheduler.{Scheduler, io, notify_blocked, block_current_process}

pub data ButtonState : Type 0 where
  pressed released : ButtonState

pub record KeyEvent : Type 0 where
  pub state : ButtonState
  pub key : ℕ

abbrev pub no_event : KeyEvent
no_event = record { state = pressed; key = 0 }

abbrev pub buffer_size : ℕ
buffer_size = 100

abbrev pub button_state : ℕ → ButtonState
button_state zero = pressed
button_state (suc _) = released

-- The event of a byte from the keyboard's port.
pub event_of : ℕ → KeyEvent
event_of key_code = record {
  state = button_state (bit_and key_code 128 / 128);
  key = bit_and key_code 127;
}

pub record Keyboard : Type 0 where
  pub buffer : CircularBuffer KeyEvent
  pub scheduler : Scheduler

pub on_isr_callback : ℕ → Keyboard → Keyboard
unfolding event_of
on_isr_callback key_code k = record {
  buffer = push_back buffer_size no_event (event_of key_code) k.buffer;
  scheduler = notify_blocked io k.scheduler;
}

pub is_buffer_empty : Keyboard → Bool
is_buffer_empty k = empty buffer_size no_event k.buffer

-- `between` is what happens before `block_current_process` calls `reschedule`, and `meanwhile` what the
-- rest of the system does until the process goes on.
pub pull_key : (Scheduler → Scheduler) → ℕ → (Keyboard → Keyboard) → Keyboard → KeyEvent × Keyboard
unfolding is_buffer_empty
pull_key between timer meanwhile k =
    let k : Keyboard =
      if is_buffer_empty k
      then meanwhile (record k { scheduler = block_current_process between timer io k.scheduler })
      else k in
    let (event, buffer) = pop buffer_size no_event k.buffer in
    (elim event [ none ↦ no_event | some e ↦ e ], record k { buffer = buffer })

pub try_pull_key : Keyboard → Option KeyEvent × Keyboard
try_pull_key k =
    let (event, buffer) = pop buffer_size no_event k.buffer in (event, record k { buffer = buffer })

abbrev pub enter : ℕ
enter = 28

abbrev pub backspace : ℕ
backspace = 14

-- The cases of `map_key_to_ascii`: the scan code and the character.
abbrev pub ascii_table : List (ℕ × ℕ)
ascii_table =
    (30, 97)
    ∷ (48, 98)
    ∷ (46, 99)
    ∷ (32, 100)
    ∷ (18, 101)
    ∷ (33, 102)
    ∷ (34, 103)
    ∷ (35, 104)
    ∷ (23, 105)
    ∷ (36, 106)
    ∷ (37, 107)
    ∷ (38, 108)
    ∷ (50, 109)
    ∷ (49, 110)
    ∷ (24, 111)
    ∷ (25, 112)
    ∷ (16, 113)
    ∷ (19, 114)
    ∷ (31, 115)
    ∷ (20, 116)
    ∷ (22, 117)
    ∷ (47, 118)
    ∷ (17, 119)
    ∷ (45, 120)
    ∷ (21, 121)
    ∷ (44, 122)
    ∷ (11, 48)
    ∷ (2, 49)
    ∷ (3, 50)
    ∷ (4, 51)
    ∷ (5, 52)
    ∷ (6, 53)
    ∷ (7, 54)
    ∷ (8, 55)
    ∷ (9, 56)
    ∷ (10, 57)
    ∷ (57, 32)
    ∷ []

abbrev pub find_ascii : List (ℕ × ℕ) → ℕ → ℕ
find_ascii [] key = 0
find_ascii ((k, ch) ∷ cases) key = if key == k then ch else find_ascii cases key

unfoldable pub map_key_to_ascii : ℕ → ℕ
map_key_to_ascii key = find_ascii ascii_table key
