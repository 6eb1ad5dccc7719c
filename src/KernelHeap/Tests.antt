-- ===== src/KernelHeap/Tests.antt =====
-- A memory map with two available segments.
use hry_os.Base.{Bool, ◌==◌, refl, true, false, some, ◌≡◌, none, List, [], ◌∷◌, arith}
use hry_os.Memory.{null, fault, Cmd, pure, Returns, returns}
use hry_os.KernelHeap.{
  Entry, available, reserved, no_entry, find_largest, init, allocate, with_lock,
}
use hry_os.Interrupts.{Interrupts}
use hry_os.Interrupts.Flag.{AsBefore}
use hry_os.Allocator.{Block, align_to, aligned}
use hry_os.Allocator.Align.{align_to_lem}
use hry_os.Allocator.Find.{place}
use hry_os.Allocator.Sample.{small_heap, small_blocks, small_memory, small-IsHeap}
use hry_os.KernelHeap.Locked.{allocate-halts, with_lock-AsBefore}
use hry_os.KernelHeap.Largest.{IsLargest, find_largest-IsLargest, init-high}

abbrev entries : List Entry
entries =
    record { addr = 0; length = 654336; kind = available }
    ∷ record { addr = 2147483648; length = 536870912; kind = available }
    ∷ record { addr = 3221225472; length = 536870913; kind = reserved }
    ∷ []

find_largest-IsLargest_example : IsLargest no_entry (find_largest entries no_entry) entries
find_largest-IsLargest_example = find_largest-IsLargest no_entry entries

init-high_example : init 1048576 2097152 entries (λ _. none) ≡ fault
unfolding find_largest
init-high_example =
    init-high 1048576 2097152 entries (λ _. none) (omega arith) (omega arith) (omega arith)

-- The interrupts of a kernel that has started.
abbrev started : Interrupts
started = record {
  interrupts_lock = false;
  interrupts_enabled = true;
  cpu_flag = true;
  idt = [];
  isr_callbacks = [];
  ports = [];
}

-- No free block has room for 100 bytes.
none-fits : ((place (align_to 100 aligned) small_heap.tail small_blocks).0 == null) ≡ true
none-fits =
    let big : align_to 100 aligned ≡ 104 = omega (arith, align_to_lem 100 (omega arith)) in
    rw big refl

allocate-halts_example : allocate 4 100 (some small_heap) started small_memory ≡ fault
allocate-halts_example =
    allocate-halts small_memory small_heap 4 small_blocks small-IsHeap started 100 (omega arith)
      none-fits

-- A body that reads the flag.
abbrev reading : Interrupts → Cmd Block (Bool × Interrupts)
reading j = pure (j.cpu_flag, j)

with_lock-AsBefore_example :
    Returns (λ r g. (r.0 ≡ false) × AsBefore started r.1) (with_lock reading started small_memory)
with_lock-AsBefore_example =
    with_lock-AsBefore (λ b g. b ≡ false) reading small_memory started
      (record { unlocked = refl; agrees = refl }) (λ j off. returns (off.1, off))
