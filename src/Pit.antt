-- ===== src/Pit.antt =====
-- code/kernel/drivers/pit.cpp: the programmable timer, whose interrupt comes once in a millisecond. Its
-- handler drives the scheduler. The command `uptime`, which prints a floating-point number, is left out.
pub mod Sleep
mod Tests
use hry_os.Base.{ℕ, zero, suc, ◌+◌, ◌/◌, ◌%◌, ◌^◌, List, ◌∷◌, [], u8_mod, u32_mod}
use hry_os.Scheduler.{Scheduler, reschedule}
use hry_os.Interrupts.{Interrupts, out_byte, register_isr_callback}
use hry_os.CommandLine.{CommandLine, register_command}

abbrev pub channel_0_port : ℕ
channel_0_port = 0x40

abbrev pub mc_register : ℕ
mc_register = 0x43

abbrev pub oscillator_speed : ℕ
oscillator_speed = 1193182

abbrev pub clock_speed : ℕ
clock_speed = 1000

-- `channel_0 | both | mode_3`, which have no bit in common.
abbrev pub init_mode : ℕ
init_mode = 0x00 + 0x30 + 0x06

-- `timer`, of 64 bits.
pub record Pit : Type 0 where
  pub timer : ℕ

abbrev pub get_timer : Pit → ℕ
get_timer pit = pit.timer % u32_mod

unfoldable pub irq_callback : Pit × Scheduler → Pit × Scheduler
irq_callback (pit, k) =
    let pit : Pit = record { timer = (pit.timer + 1) % 2 ^ 64 } in
    (pit, reschedule (get_timer pit) k)

-- `n` interrupts, one after the other.
abbrev pub ticks : ℕ → Pit × Scheduler → Pit × Scheduler
ticks zero s = s
ticks (suc n) s = irq_callback (ticks n s)

-- `callback` and `uptime` stand for the two functions; `name` is what lies behind "uptime".
pub init : ℕ → List ℕ → ℕ → Interrupts × CommandLine → Interrupts × CommandLine
init callback name uptime (i, l) =
    let divisor = oscillator_speed / clock_speed in
    let i = out_byte mc_register init_mode i in
    let i = out_byte channel_0_port (divisor % u8_mod) i in
    let i = out_byte channel_0_port (divisor / 2 ^ 8 % u8_mod) i in
    (register_isr_callback 0 callback i, register_command name uptime l)
