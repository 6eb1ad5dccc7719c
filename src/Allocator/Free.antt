-- ===== src/Allocator/Free.antt =====
-- `free`: a block of the list is released and merged with its free neighbours; any other address
-- changes nothing.
use mathlib.Core.Path.{subst}
use hry_os.Base.{
  ℕ, zero, suc, ◌+◌, ◌<◌, ◌≡◌, ◌≢◌, refl, sym, ap, ◌∙◌, inl, inr, false, [], ◌∷◌, ◌++◌, arith,
  Bool-cases, append_assoc, length, length-append, sub32,
}
use hry_os.Memory.{Ptr, null, Memory, Returns, returns, mono}
use hry_os.Links.{has, IsSeg}
use hry_os.Allocator.{Block, Allocator, sizeof_block, free_block}
use hry_os.Allocator.Layout.{Content, block_of, Blocks, edge, all_blocks, IsHeap, Fits, Coalesced}
use hry_os.Allocator.Release.{IsChain, release_block, released}
use hry_os.Allocator.Released.{with_tail, release_block-released, released-Coalesced}
use hry_os.Allocator.Freed.{
  freed, freed-out, freed-first, freed-behind, is_listed-has, At, first, later, has-At, alone,
  has-inner,
}

module _ (h : Memory Block) (a : Allocator) (p k : ℕ) where
  -- The blocks in memory once the block behind `q` is released.
  release-IsHeap :
      (ls : Blocks) (q : Ptr) (cq c : Content) (behind bs bs' : Blocks)
      → IsHeap h a bs
      → all_blocks a bs ≡ ls ++ (q, cq) ∷ (p, c) ∷ with_tail a.tail behind
      → all_blocks a bs' ≡ ls ++ with_tail a.tail (released a.tail q cq p c behind)
      → Returns (λ _ g. IsHeap g a bs') (release_block (suc (suc k)) p h)
  release-IsHeap ls q cq c behind bs bs' is e e' =
      let chain : IsChain h (ls ++ (q, cq) ∷ (p, c) ∷ with_tail a.tail behind) = record {
        seg = subst (IsSeg block_of h null null) e is.seg;
        fits = subst Fits e is.fits;
      } in
      let co = subst Coalesced e is.coalesced in
      mono (release_block-released a.tail h ls q p k cq c behind chain co) λ _ g done. record {
        seg = subst (IsSeg block_of g null null) (sym e') done.seg;
        fits = subst Fits (sym e') done.fits;
        coalesced =
            subst Coalesced (sym e') (released-Coalesced a.tail h ls q p k cq c behind chain co);
      }

  first-IsHeap :
      (c : Content) (behind : Blocks)
      → IsHeap h a ((p, c) ∷ behind)
      → Returns
          (λ _ g. IsHeap g a (freed a.tail p ((p, c) ∷ behind)))
          (release_block (suc (suc k)) p h)
  first-IsHeap c behind is =
      release-IsHeap [] a.head edge c behind ((p, c) ∷ behind) (freed a.tail p ((p, c) ∷ behind)) is
        refl (ap (λ xs. (a.head, edge) ∷ with_tail a.tail xs) (freed-first a.tail p c behind))

  later-IsHeap :
      (before : Blocks) (q : Ptr) (cq c : Content) (behind : Blocks)
      → IsHeap h a (before ++ (q, cq) ∷ (p, c) ∷ behind)
      → has p (before ++ (q, cq) ∷ []) ≡ false
      → Returns
          (λ _ g. IsHeap g a (freed a.tail p (before ++ (q, cq) ∷ (p, c) ∷ behind)))
          (release_block (suc (suc k)) p h)
  later-IsHeap before q cq c behind is out =
      release-IsHeap ((a.head, edge) ∷ before) q cq c behind (before ++ (q, cq) ∷ (p, c) ∷ behind)
        (freed a.tail p (before ++ (q, cq) ∷ (p, c) ∷ behind)) is
        (ap (λ xs. (a.head, edge) ∷ xs)
          (append_assoc before ((q, cq) ∷ (p, c) ∷ behind) ((a.tail, edge) ∷ [])))
        (ap (λ xs. (a.head, edge) ∷ with_tail a.tail xs)
            (freed-behind a.tail q p cq c before behind out)
          ∙ ap (λ xs. (a.head, edge) ∷ xs)
              (append_assoc before (released a.tail q cq p c behind) ((a.tail, edge) ∷ [])))

  anywhere-IsHeap :
      (bs : Blocks)
      → IsHeap h a bs
      → At p bs
      → Returns (λ _ g. IsHeap g a (freed a.tail p bs)) (release_block (suc (suc k)) p h)
  anywhere-IsHeap bs is (first c behind e) =
      subst
        (λ xs.
          IsHeap h a xs
          → Returns (λ _ g. IsHeap g a (freed a.tail p xs)) (release_block (suc (suc k)) p h))
        (sym e) (first-IsHeap c behind) is
  anywhere-IsHeap bs is (later before q cq c behind e) =
      subst
        (λ xs.
          IsHeap h a xs
          → Returns (λ _ g. IsHeap g a (freed a.tail p xs)) (release_block (suc (suc k)) p h))
        (sym e)
        (λ is'. later-IsHeap before q cq c behind is' (alone h a p before q cq c behind is')) is

-- On a well-formed heap, with two more units of fuel than blocks left over, `free` of an address
-- that is not the data of the head or the tail block returns: a block of the list becomes free and
-- is merged with the free block before it and the one behind it, and an address of no block changes
-- nothing. The heap stays well formed.
pub free_block-freed :
    (h : Memory Block) (a : Allocator) (fuel addr : ℕ) (bs : Blocks)
    → IsHeap h a bs
    → sub32 addr sizeof_block ≢ a.head
    → sub32 addr sizeof_block ≢ a.tail
    → length bs + 2 < fuel
    → Returns
        (λ _ g. IsHeap g a (freed a.tail (sub32 addr sizeof_block) bs))
        (free_block fuel addr a h)
unfolding free_block
free_block-freed h a zero addr bs is off_head off_tail enough = absurd (omega (arith, enough))
free_block-freed h a (suc zero) addr bs is off_head off_tail enough = absurd (omega (arith, enough))
free_block-freed h a (suc (suc k)) addr bs is off_head off_tail enough =
    let p = sub32 addr sizeof_block in
    rw
      (
        is_listed-has (suc (suc k)) p null h (all_blocks a bs) is.seg
            (ground (arith, length-append bs ((a.tail, edge) ∷ []))),
        has-inner a p bs off_head off_tail,
      )
      (elim (Bool-cases (has p bs)) [
        | inl i ↦ rw i (anywhere-IsHeap h a p k bs is (has-At p bs i))
        | inr o ↦ rw (o, freed-out a.tail p bs o) (returns is)
      ])
