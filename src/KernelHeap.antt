-- ===== src/KernelHeap.antt =====
-- code/kernel/memory/kernel_heap.cpp: which memory becomes the kernel's heap, and allocation in it. The entries are those of
-- the memory map (code/kernel/memory/memory_map.hpp); the kernel's own addresses come from the linker.
-- `none` stands for a failed HRY_ASSERT, which halts the kernel.
pub mod Largest
pub mod Locked
mod Tests
use hry_os.Base.{
  ℕ, ◌*◌, ◌%◌, ◌^◌, Bool, true, false, ◌&&◌, Option, none, some, List, [], ◌∷◌, if◌then◌else◌, ltb,
  leb, not, add32, ◌==◌,
}
use hry_os.Memory.{null, Cmd, pure, fault, ◌>>=◌}
use hry_os.Allocator as allocator
use hry_os.Allocator.{Allocator, Block, align_to, create}
use hry_os.Interrupts.{Interrupts, enable, disable}

pub data EntryType : Type 0 where
  available reserved acpi_reclaimable nvs badram : EntryType

pub record Entry : Type 0 where
  pub addr : ℕ
  pub length : ℕ
  pub kind : EntryType

abbrev pub is_available : EntryType → Bool
is_available available = true
is_available _ = false

abbrev pub no_entry : Entry
no_entry = record { addr = 0; length = 0; kind = reserved }

abbrev pub max_address : ℕ
max_address = 4 * 1024 * 1024 * 1024

abbrev pub is_usable : Entry → Bool
is_usable e = is_available e.kind && ltb e.addr max_address

-- The loop of `init` over the entries.
pub find_largest : List Entry → Entry → Entry
find_largest [] largest = largest
find_largest (entry ∷ entries) largest =
    find_largest entries
      (if is_usable entry && ltb largest.length entry.length then entry else largest)

abbrev pub max_length : ℕ
max_length = 1024 * 1024 * 1024

-- The start and the end of the heap in the largest entry.
pub heap_range : ℕ → ℕ → Entry → Option (ℕ × ℕ)
heap_range kernel_start kernel_end largest =
    if not (is_available largest.kind)
    then none
    else if not (ltb (10 * 1024 * 1024) largest.length)
    then none
    else let heap_end = (if ltb max_length largest.length then max_length else largest.length) in
      let heap_start = largest.addr % 2 ^ 32 in
      some (
        if leb kernel_start heap_start && leb heap_start kernel_end
            then add32 heap_start (align_to kernel_end 16)
            else heap_start,
        heap_end % 2 ^ 32,
      )

-- The pointer that `create` gives is followed at once, by `print`.
abbrev pub start_heap : Option (ℕ × ℕ) → Cmd Block Allocator
start_heap none = λ _. fault
start_heap (some range) = do
  a ← create range.0 range.1
  elim a [ none ↦ λ _. fault | some allocator ↦ pure allocator ]

pub init : ℕ → ℕ → List Entry → Cmd Block Allocator
unfolding find_largest heap_range
init kernel_start kernel_end entries =
    start_heap (heap_range kernel_start kernel_end (find_largest entries no_entry))

-- The end of a lock that was taken at `i`.
abbrev pub unlock : {A : Type 0} → Interrupts → A × Interrupts → Cmd Block (A × Interrupts)
unlock i r = pure (r.0, if i.interrupts_enabled then enable r.1 else r.1)

-- A function of the heap, with a lock as its first variable: all of the body runs under it.
abbrev pub with_lock :
    {A : Type 0}
    → (Interrupts → Cmd Block (A × Interrupts))
    → Interrupts
    → Cmd Block (A × Interrupts)
with_lock body i = body (disable i) >>= unlock i

-- The functions of the allocator do not touch the interrupts.
abbrev pub locked : {A : Type 0} → Cmd Block A → Interrupts → Cmd Block (A × Interrupts)
locked body = with_lock (λ i. do r ← body; pure (r, i))

-- `HRY_ASSERT(result != nullptr, "Not enough memory!")`
abbrev pub assert_found : ℕ → Cmd Block ℕ
assert_found result = if result == null then (λ _. fault) else pure result

-- The heap is null until `init`.
pub allocate : ℕ → ℕ → Option Allocator → Interrupts → Cmd Block (ℕ × Interrupts)
allocate fuel size none i = λ _. fault
allocate fuel size (some a) i = locked (allocator.allocate fuel size a >>= assert_found) i

pub free : ℕ → ℕ → Option Allocator → Interrupts → Cmd Block (Unit {0} × Interrupts)
free fuel addr none i = λ _. fault
free fuel addr (some a) i = locked (allocator.free_block fuel addr a) i
