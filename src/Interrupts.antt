-- ===== src/Interrupts.antt =====
-- code/kernel/interrupts/interrupts.cpp and code/kernel/scheduler/int_lock.hpp: the interrupt
-- descriptor table, the callbacks of the hardware interrupts and the interrupt flag. `cpu_flag` is what
-- `sti` and `cli` set. The numbers of handlers stand for their addresses. Output to the ports is the
-- list of the writes, latest first. A callback is a number, 0 is null, and `call` is what one does. The fault handler only prints and halts.
pub mod Table
pub mod Flag
mod Tests
use hry_os.Base.{
  ℕ, zero, suc, ◌+◌, ◌-◌, ◌*◌, ◌/◌, ◌%◌, ◌^◌, Bool, true, false, ◌&&◌, Option, none, some, List, [],
  ◌∷◌, if◌then◌else◌, ltb, leb, ◌==◌, set, get_or, replicate,
}

pub record IdtEntry : Type 0 where
  pub offset_lowerbits : ℕ
  pub selector : ℕ
  pub gate : ℕ
  pub dpl : ℕ
  pub present : ℕ
  pub offset_higherbits : ℕ

abbrev pub no_entry : IdtEntry
no_entry = record {
  offset_lowerbits = 0;
  selector = 0;
  gate = 0;
  dpl = 0;
  present = 0;
  offset_higherbits = 0;
}

-- `gate_type::interrupt_32`
abbrev pub interrupt_32 : ℕ
interrupt_32 = 14

abbrev pub idt_size : ℕ
idt_size = 256

abbrev pub pic1 : ℕ
pic1 = 32

abbrev pub pic1_offset : ℕ
pic1_offset = 32

abbrev pub pic2 : ℕ
pic2 = 160

abbrev pub pic2_offset : ℕ
pic2_offset = 40

pub record Interrupts : Type 0 where
  pub interrupts_lock : Bool
  pub interrupts_enabled : Bool
  pub cpu_flag : Bool
  pub idt : List IdtEntry
  pub isr_callbacks : List ℕ
  pub ports : List (ℕ × ℕ)

-- The masks `& 0xFFFF` and `>> 16` of a 32-bit address.
abbrev pub entry_of : ℕ → ℕ → ℕ → ℕ → IdtEntry
entry_of address selector gate dpl = record {
  offset_lowerbits = address % 65536;
  selector = selector;
  gate = gate;
  dpl = dpl;
  present = 1;
  offset_higherbits = address / 65536;
}

pub set_idt_entry : ℕ → ℕ → ℕ → ℕ → ℕ → Interrupts → Interrupts
set_idt_entry offset irq selector gate dpl i = record i {
  idt = set i.idt offset (entry_of irq selector gate dpl);
}

abbrev pub out_byte : ℕ → ℕ → Interrupts → Interrupts
out_byte port byte i = record i { ports = (port, byte) ∷ i.ports }

pub remap_pic : Interrupts → Interrupts
remap_pic i =
    let i = out_byte pic2 17 (out_byte pic1 17 i) in
    let i = out_byte (pic2 + 1) pic2_offset (out_byte (pic1 + 1) pic1_offset i) in
    let i = out_byte (pic2 + 1) 2 (out_byte (pic1 + 1) 4 i) in
    out_byte (pic2 + 1) 1 (out_byte (pic1 + 1) 1 i)

-- `setup_pic_interrupts`: `isr k` is the address of the handler of line `k`.
pub setup_lines : ℕ → (ℕ → ℕ) → ℕ → Interrupts → Interrupts
unfolding set_idt_entry
setup_lines zero isr selector i = i
setup_lines (suc k) isr selector i =
    let offset = (if ltb k 8 then pic1_offset + k else pic2_offset + (k - 8)) in
    set_idt_entry offset (isr k) selector interrupt_32 0 (setup_lines k isr selector i)

-- `setup_fault`: 15 is reserved and has no handler.
pub setup_faults : ℕ → (ℕ → ℕ) → ℕ → Interrupts → Interrupts
unfolding set_idt_entry
setup_faults zero fault selector i = i
setup_faults (suc k) fault selector i =
    let rest = setup_faults k fault selector i in
    if k == 15 then rest else set_idt_entry k (fault k) selector interrupt_32 0 rest

pub init : (ℕ → ℕ) → (ℕ → ℕ) → ℕ → Interrupts → Interrupts
unfolding setup_faults setup_lines remap_pic
init fault isr selector i =
    setup_lines 16 isr selector (setup_faults 21 fault selector (remap_pic i))

pub late_init : Interrupts → Interrupts
late_init i = record i { interrupts_lock = false }

pub register_isr_callback : ℕ → ℕ → Interrupts → Interrupts
register_isr_callback irq_id callback i =
    if ltb irq_id 16 then record i { isr_callbacks = set i.isr_callbacks irq_id callback } else i

pub enable : Interrupts → Interrupts
enable i = if i.interrupts_lock then i else record i { interrupts_enabled = true; cpu_flag = true }

pub disable : Interrupts → Interrupts
disable i =
    if i.interrupts_lock then i else record i { interrupts_enabled = false; cpu_flag = false }

pub pic_handler : (ℕ → Interrupts → Interrupts) → ℕ → Interrupts → Interrupts
pic_handler call irq_id i =
    let i = if leb 8 irq_id then out_byte pic2 32 i else i in
    let i : Interrupts = record (out_byte pic1 32 i) { interrupts_enabled = false } in
    let callback = get_or i.isr_callbacks irq_id 0 in
    let i = if callback == 0 then i else call callback i in record i { interrupts_enabled = true }

-- The lock classes, around what runs while they live.
abbrev pub direct_int_lock : (Interrupts → Interrupts) → Interrupts → Interrupts
direct_int_lock body i = enable (body (disable i))

abbrev pub weak_int_lock : (Interrupts → Interrupts) → Interrupts → Interrupts
weak_int_lock body i =
    let was_enabled = i.interrupts_enabled in
    let i = body (disable i) in if was_enabled then enable i else i
