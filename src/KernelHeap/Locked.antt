-- ===== src/KernelHeap/Locked.antt =====
-- Allocation under the lock of code/kernel/memory/kernel_heap.cpp.
use hry_os.Base.{
  ℕ, ◌+◌, ◌<◌, ◌≡◌, ◌≢◌, refl, ap, ◌∙◌, true, false, some, arith, ◌==◌, length, sub32,
}
use hry_os.Memory.{
  Ptr, null, Memory, Cmd, ◌>>=◌, Returns, returns, bind, pure, and_then, fault, Run,
}
use hry_os.Allocator as allocator
use hry_os.Allocator.{Block, Allocator, align_to, aligned, sizeof_block}
use hry_os.Allocator.Layout.{Blocks, IsHeap}
use hry_os.Allocator.Find.{place}
use hry_os.Allocator.FirstFit.{allocate-place}
use hry_os.Allocator.Promise.{free_block-keeps}
use hry_os.Allocator.Held.{is_taken}
use hry_os.Interrupts.{Interrupts, disable}
use hry_os.Interrupts.Flag.{IsInStep, AsBefore, disable-IsInStep, unlocked-AsBefore}
use hry_os.KernelHeap.{unlock, with_lock, locked, assert_found, allocate, free}

-- What holds while the lock is held: the interrupts are off, and in step with the variable.
abbrev pub IsOff : Interrupts → Type 0
IsOff j = IsInStep j × (j.cpu_flag ≡ false)

-- Once the kernel has started, what runs under a weak lock on the heap finds the interrupts off: a
-- body that returns where they are off, with some result, and leaves them off, returns with that
-- result under the lock, which leaves the interrupt flag as it was and in step with the variable of
-- `interrupts::enabled`.
pub with_lock-AsBefore :
    {A : Type 0} (P : A → Memory Block → Type 0) (body : Interrupts → Cmd Block (A × Interrupts))
    (h : Memory Block) (i : Interrupts)
    → IsInStep i
    → ((j : Interrupts) → IsOff j → Returns (λ r g. P r.0 g × IsOff r.1) (body j h))
    → Returns (λ r g. P r.0 g × AsBefore i r.1) (with_lock body i h)
with_lock-AsBefore P body h i is done =
    bind (done (disable i) (disable-IsInStep i is))
      λ r g p. returns (p.0, unlocked-AsBefore i r.1 is p.1)

locked-AsBefore :
    {A : Type 0} (P : A → Memory Block → Type 0) (body : Cmd Block A) (h : Memory Block)
    (i : Interrupts)
    → IsInStep i
    → Returns P (body h)
    → Returns (λ r g. P r.0 g × AsBefore i r.1) (locked body i h)
locked-AsBefore P body h i is done =
    with_lock-AsBefore P (λ j. do r ← body; pure (r, j)) h i is
      λ j off. bind done λ r g p. returns (p, off)

halts :
    {A B : Type 0} {P : A → Memory Block → Type 0} {r : Run Block A} (k : A → Cmd Block B)
    → Returns P r
    → ((x : A) (g : Memory Block) → P x g → k x g ≡ fault)
    → and_then r k ≡ fault
halts k (returns p) next = next _ _ p

module _ (h : Memory Block) (a : Allocator) (fuel : ℕ) (bs : Blocks) (is : IsHeap h a bs)
    (i : Interrupts) where
  -- On a well-formed heap of fewer blocks than the fuel, where no free block has room for the
  -- rounded size, `kheap::allocate` halts the kernel: it never returns null.
  pub allocate-halts :
      (requested : ℕ)
      → length bs < fuel
      → ((place (align_to requested aligned) a.tail bs).0 == null) ≡ true
      → allocate fuel requested (some a) i h ≡ fault
  unfolding allocate
  allocate-halts requested enough none_fits =
      ap (λ r. and_then (and_then r (λ x. pure (x, disable i))) (unlock i))
        (halts assert_found (allocate-place h a fuel requested bs is enough)
          λ addr g done. let nothing : addr ≡ 0 = done.0 ∙ rw none_fits refl in rw nothing refl)

  pub allocate-serves :
      (requested : ℕ)
      → IsInStep i
      → length bs < fuel
      → ((place (align_to requested aligned) a.tail bs).0 == null) ≡ false
      → Returns
          (λ r g.
            let (p, bs') = place (align_to requested aligned) a.tail bs in
            ((r.0 ≡ p + sizeof_block) × IsHeap g a bs') × AsBefore i r.1)
          (allocate fuel requested (some a) i h)
  unfolding allocate
  allocate-serves requested in_step enough fits =
      locked-AsBefore _ (allocator.allocate fuel requested a >>= assert_found) h i in_step (
        bind {k = assert_found} (allocate-place h a fuel requested bs is enough) λ addr g done.
          let p = (place (align_to requested aligned) a.tail bs).0 in
          let at : addr ≡ p + sizeof_block = done.0 ∙ rw fits refl in
          let found : (addr == null) ≡ false = rw at (ground arith) in
          rw found (returns (at, done.1)))

  -- Once the kernel has started, `kheap::free` on a well-formed heap with enough fuel, of an address
  -- that is not the data of the head or the tail block, leaves a well-formed heap in which every
  -- other block that a client holds is still held with its size, and the interrupt flag as it was.
  pub free-keeps :
      (addr : ℕ) (q : Ptr) (n : ℕ)
      → IsInStep i
      → is_taken q n bs ≡ true
      → q ≢ sub32 addr sizeof_block
      → sub32 addr sizeof_block ≢ a.head
      → sub32 addr sizeof_block ≢ a.tail
      → length bs + 2 < fuel
      → Returns
          (λ r g. ((bs' : Blocks) × IsHeap g a bs' × (is_taken q n bs' ≡ true)) × AsBefore i r.1)
          (free fuel addr (some a) i h)
  unfolding free
  free-keeps addr q n in_step held other off_head off_tail enough =
      locked-AsBefore _ (allocator.free_block fuel addr a) h i in_step
        (free_block-keeps h a fuel bs is addr q n held other off_head off_tail enough)
