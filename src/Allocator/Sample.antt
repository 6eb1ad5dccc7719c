-- ===== src/Allocator/Sample.antt =====
-- A heap of 128 bytes at address 32.
use hry_os.Base.{refl, none, some, [], ◌∷◌, arith, if◌then◌else◌, ◌==◌}
use hry_os.Memory.{Memory}
use hry_os.Allocator.{free, allocated, Block, Allocator}
use hry_os.Allocator.Layout.{content, block_of, Blocks, IsHeap}

abbrev pub small_heap : Allocator
small_heap = record { memory_start = 32; memory_length = 192; head = 48; tail = 208 }

-- A free block, one in use, and a free one behind it.
abbrev pub small_blocks : Blocks
small_blocks = (64, content 32 free) ∷ (112, content 24 allocated) ∷ (152, content 32 free) ∷ []

abbrev pub small_memory : Memory Block
small_memory p =
    if p == 48
    then some (block_of 0 64 (content 0 allocated))
    else if p == 64
    then some (block_of 48 112 (content 32 free))
    else if p == 112
    then some (block_of 64 152 (content 24 allocated))
    else if p == 152
    then some (block_of 112 208 (content 32 free))
    else if p == 208
    then some (block_of 152 0 (content 0 allocated))
    else none

pub small-IsHeap : IsHeap small_memory small_heap small_blocks
small-IsHeap = record {
  seg = (
    omega arith,
    refl,
    (omega arith, refl, (omega arith, refl, (omega arith, refl, (omega arith, refl, tt)))),
  );
  fits = (
    omega arith,
    omega arith,
    (
      omega arith,
      omega arith,
      (omega arith, omega arith, (omega arith, omega arith, (omega arith, tt, tt))),
    ),
  );
  coalesced = (refl, (refl, (refl, (refl, tt))));
}
