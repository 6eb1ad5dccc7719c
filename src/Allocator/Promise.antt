-- ===== src/Allocator/Promise.antt =====
-- What a client of the heap relies on: the data it was given stays its own. Stated on the blocks that
-- the heap's memory holds.
use hry_os.Base.{
  ℕ, ◌+◌, ◌-◌, ◌<◌, ◌≤◌, ◌^◌, ◌≡◌, ◌≢◌, ◌∙◌, ◌⊎◌, inl, inr, true, [], ◌∷◌, arith, Bool-cases, ◌==◌,
  length, sub32,
}
use hry_os.Memory.{Ptr, null, Memory, Returns, mono}
use hry_os.Allocator.{Block, Allocator, sizeof_block, aligned, align_to, allocate, free_block}
use hry_os.Allocator.Align.{align_to_lem}
use hry_os.Allocator.Layout.{Blocks, IsHeap, Fits-left, edge}
use hry_os.Allocator.Find.{place}
use hry_os.Allocator.FirstFit.{allocate-place}
use hry_os.Allocator.Free.{free_block-freed}
use hry_os.Allocator.Freed.{freed}
use hry_os.Allocator.Held.{is_taken, place-keeps, place-serves, freed-keeps, place-fresh}

module _ (h : Memory Block) (a : Allocator) (fuel : ℕ) (bs : Blocks) (is : IsHeap h a bs) where
  -- For a request of at most 2^32 - 8 bytes on a well-formed heap of fewer blocks than the fuel,
  -- `allocate` leaves a well-formed heap in which every block that a client holds is still held
  -- with its size, and returns 0 or the data address of a block that is held from then on, has at
  -- least the requested size and is another one than every block that was held before.
  pub allocate-grants :
      (requested : ℕ)
      → requested ≤ 2 ^ 32 - 8
      → length bs < fuel
      → Returns
          (λ addr g.
            (bs' : Blocks) × IsHeap g a bs'
            × ((q : Ptr) (n : ℕ) → is_taken q n bs ≡ true → is_taken q n bs' ≡ true)
            × ((addr ≡ 0)
                ⊎ ((p : Ptr) × (n : ℕ) × (addr ≡ p + sizeof_block)
                    × (requested ≤ n)
                    × (is_taken p n bs' ≡ true)
                    × ((q : Ptr) (m : ℕ) → is_taken q m bs ≡ true → p ≢ q))))
          (allocate fuel requested a h)
  allocate-grants requested small enough =
      let size = align_to requested aligned in
      mono (allocate-place h a fuel requested bs is enough) λ addr g done. (
        (place size a.tail bs).1,
        done.1,
        (λ q n held. place-keeps size a.tail q n bs held),
        elim (Bool-cases ((place size a.tail bs).0 == null)) [
          | inl none_fits ↦ inl (done.0 ∙ rw none_fits)
          | inr some_fits ↦
              let (m, big, there) = place-serves size a.tail bs some_fits in
              inr (
                (place size a.tail bs).0,
                m,
                done.0 ∙ rw some_fits,
                omega (arith, (align_to_lem requested small).0, big),
                there,
                λ q n held.
                    place-fresh size a.tail q n bs (Fits-left bs ((a.tail, edge) ∷ []) is.fits.2)
                      held some_fits,
              )
        ],
      )

  -- On a well-formed heap with enough fuel, `free` of an address that is not the data of the head
  -- or the tail block leaves a well-formed heap in which every other block that a client holds is
  -- still held with its size.
  pub free_block-keeps :
      (addr : ℕ) (q : Ptr) (n : ℕ)
      → is_taken q n bs ≡ true
      → q ≢ sub32 addr sizeof_block
      → sub32 addr sizeof_block ≢ a.head
      → sub32 addr sizeof_block ≢ a.tail
      → length bs + 2 < fuel
      → Returns
          (λ _ g. (bs' : Blocks) × IsHeap g a bs' × (is_taken q n bs' ≡ true))
          (free_block fuel addr a h)
  free_block-keeps addr q n held other off_head off_tail enough =
      mono (free_block-freed h a fuel addr bs is off_head off_tail enough) λ _ g done. (
        freed a.tail (sub32 addr sizeof_block) bs,
        done,
        freed-keeps a.tail (sub32 addr sizeof_block) q n bs other held,
      )
