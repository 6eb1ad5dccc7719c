-- ===== src/Allocator/Create.antt =====
-- `create`: the first layout of the heap.
use mathlib.Core.Bool.{true}
use hry_os.Base.{
  ℕ, ◌+◌, ◌-◌, ◌<◌, ◌≤◌, ◌^◌, ◌≡◌, refl, false, none, some, [], ◌∷◌, arith, ltb, add32, sub32,
}
use hry_os.Memory.{Memory, write, Returns, returns, ok}
use hry_os.Allocator.{
  free, Block, Allocator, sizeof_block, sizeof_allocator, calc_size_between, create,
}
use hry_os.Allocator.Align.{calc_size_between-fits}
use hry_os.Allocator.Layout.{content, Blocks, IsHeap}

-- The allocator for the memory from `memory_start` to `memory_end`.
abbrev pub created : ℕ → ℕ → Allocator
created memory_start memory_end = record {
  memory_start = memory_start;
  memory_length = memory_end - memory_start;
  head = memory_start + sizeof_allocator;
  tail = memory_end - sizeof_block;
}

abbrev pub whole : ℕ → ℕ → Blocks
whole memory_start memory_end =
    let first = memory_start + (sizeof_allocator + sizeof_block) in
    (first, content (calc_size_between first (memory_end - sizeof_block)) free) ∷ []

-- `create` on at least 64 bytes that end below 2^32 lays out a well-formed heap of one free block.
pub create-IsHeap :
    (h : Memory Block) (memory_start memory_end : ℕ)
    → memory_start + 64 ≤ memory_end
    → memory_end < 2 ^ 32
    → Returns
        (λ a g.
          (a ≡ some (created memory_start memory_end))
          × IsHeap g (created memory_start memory_end) (whole memory_start memory_end))
        (create memory_start memory_end h)
unfolding create write
create-IsHeap h memory_start memory_end room bound =
    let ordered : ltb memory_end memory_start ≡ false = ground arith in
    let large : ltb (memory_end - memory_start) 32 ≡ false = ground arith in
    let at_head : add32 memory_start sizeof_allocator ≡ memory_start + 16 = omega arith in
    let at_first : add32 (memory_start + 16) sizeof_block ≡ memory_start + 32 = omega arith in
    let at_tail : sub32 memory_end sizeof_block ≡ memory_end - 16 = omega arith in
    let first = memory_start + 32 in
    let tail = memory_end - 16 in
    let fits = calc_size_between-fits first tail (omega arith) (omega arith) in
    rw (ordered, large, at_head, at_first, at_tail, fits.2)
      (returns (
        refl,
        record {
          seg = (
            omega arith,
            ground arith,
            (omega arith, ground arith, (omega arith, ground arith, tt)),
          );
          fits = (omega arith, omega arith, (omega arith, fits.0, (omega arith, tt, tt)));
          coalesced = (refl, (refl, tt));
        },
      ))

-- An end before the start is refused.
pub create-refuses :
    (h : Memory Block) (memory_start memory_end : ℕ)
    → memory_end < memory_start
    → create memory_start memory_end h ≡ ok none h
unfolding create
create-refuses h memory_start memory_end backwards =
    let wrong : ltb memory_end memory_start ≡ true = ground arith in rw wrong refl
