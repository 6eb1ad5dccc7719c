-- ===== src/Allocator/Tests.antt =====
-- The allocator's theorems at a small heap.
use hry_os.Base.{
  ℕ, ◌+◌, ◌≤◌, ◌≡◌, ◌≢◌, ◌⊎◌, refl, true, some, [], ◌∷◌, arith, if◌then◌else◌, ◌==◌, sub32,
}
use hry_os.Memory.{Ptr, null, Returns}
use hry_os.Allocator.{
  free, allocated, sizeof_block, aligned, align_to, calc_size_between, allocate, free_block, create,
}
use hry_os.Allocator.Layout.{content, Blocks, IsHeap}
use hry_os.Allocator.Sample.{small_heap, small_blocks, small_memory, small-IsHeap}
use hry_os.Allocator.Find.{place}
use hry_os.Allocator.FirstFit.{allocate-place}
use hry_os.Allocator.Free.{free_block-freed}
use hry_os.Allocator.Freed.{freed}
use hry_os.Allocator.Promise.{allocate-grants, free_block-keeps}
use hry_os.Allocator.Held.{is_taken}
use hry_os.Allocator.Create.{created, whole, create-IsHeap}

allocate-place_example :
    Returns
      (λ addr g.
        let (p, bs') = place (align_to 5 aligned) 208 small_blocks in
        (addr ≡ (if p == null then 0 else p + sizeof_block)) × IsHeap g small_heap bs')
      (allocate 4 5 small_heap small_memory)
allocate-place_example =
    allocate-place small_memory small_heap 4 5 small_blocks small-IsHeap (omega arith)

free_block-freed_example :
    Returns
      (λ _ g. IsHeap g small_heap (freed 208 (sub32 128 sizeof_block) small_blocks))
      (free_block 6 128 small_heap small_memory)
free_block-freed_example =
    free_block-freed small_memory small_heap 6 128 small_blocks small-IsHeap (omega arith)
      (omega arith) (omega arith)

allocate-grants_example :
    Returns
      (λ addr g.
        (bs' : Blocks) × IsHeap g small_heap bs'
        × ((q : Ptr) (n : ℕ) → is_taken q n small_blocks ≡ true → is_taken q n bs' ≡ true)
        × ((addr ≡ 0)
            ⊎ ((p : Ptr) × (m : ℕ) × (addr ≡ p + sizeof_block)
                × (5 ≤ m)
                × (is_taken p m bs' ≡ true)
                × ((q : Ptr) (m : ℕ) → is_taken q m small_blocks ≡ true → p ≢ q))))
      (allocate 4 5 small_heap small_memory)
allocate-grants_example =
    allocate-grants small_memory small_heap 4 small_blocks small-IsHeap 5 (omega arith)
      (omega arith)

free_block-keeps_example :
    Returns
      (λ _ g. (bs' : Blocks) × IsHeap g small_heap bs' × (is_taken 112 24 bs' ≡ true))
      (free_block 6 80 small_heap small_memory)
free_block-keeps_example =
    free_block-keeps small_memory small_heap 6 small_blocks small-IsHeap 80 112 24 refl
      (omega arith) (omega arith) (omega arith) (omega arith)

create-IsHeap_example :
    Returns
      (λ a g. (a ≡ some (created 32 160)) × IsHeap g (created 32 160) (whole 32 160))
      (create 32 160 small_memory)
create-IsHeap_example = create-IsHeap small_memory 32 160 (omega arith) (omega arith)

freed-all : freed 208 112 small_blocks ≡ (64, content 128 free) ∷ []
unfolding calc_size_between
freed-all = refl

abbrev two_taken : Blocks
two_taken = (64, content 24 allocated) ∷ (104, content 32 allocated) ∷ []
