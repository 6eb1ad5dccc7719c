-- ===== src/Allocator/Update.antt =====
-- What single updates of the memory do to the list of blocks: a new size or state for one block, and
-- another block behind it.
use hry_os.Base.{◌≡◌, ◌≢◌, ◌∙◌, true, false, ◌∷◌, ◌++◌, some, arith}
use hry_os.Memory.{Ptr, null, Memory, write, write_ne, write_self}
use hry_os.Links.{
  first_of, last_of, has, Distinct, IsSeg, IsSeg-frame, IsSeg-split, IsSeg-append, has-ne,
  Distinct-Disjoint, Distinct-right,
}
use hry_os.Links.Relink.{reback, reback-out, IsSeg-reback}
use hry_os.Allocator.{Block}
use hry_os.Allocator.Layout.{Content, block_of, Blocks}

module _ (h : Memory Block) (ls rs : Blocks) (p : Ptr) (c : Content)
    (s : IsSeg block_of h null null (ls ++ (p, c) ∷ rs)) (d : Distinct (ls ++ (p, c) ∷ rs)) where
  pub at_block : IsSeg block_of h (last_of null ls) null ((p, c) ∷ rs)
  at_block = (IsSeg-split block_of h null null ls ((p, c) ∷ rs) s).1

  pub out_before : (a : Ptr) → has a ls ≡ true → has a ((p, c) ∷ rs) ≡ false
  out_before = Distinct-Disjoint ls ((p, c) ∷ rs) d

  pub Distinct-behind : Distinct ((p, c) ∷ rs)
  Distinct-behind = Distinct-right ls ((p, c) ∷ rs) d

  -- A new run of blocks that begins at `p`, in a memory that agrees on the blocks before it.
  pub IsSeg-replace :
      (g : Memory Block) (e : Content) (zs : Blocks)
      → ((a : Ptr) → has a ls ≡ true → g a ≡ h a)
      → IsSeg block_of g (last_of null ls) null ((p, e) ∷ zs)
      → IsSeg block_of g null null (ls ++ (p, e) ∷ zs)
  IsSeg-replace g e zs same t =
      IsSeg-append block_of g null null ls ((p, e) ∷ zs)
        (IsSeg-frame block_of h g null p ls (IsSeg-split block_of h null null ls ((p, c) ∷ rs) s).0
          same)
        t

  -- A new content for one block.
  abbrev pub updated : Content → Memory Block
  updated e = write h p (some (block_of (last_of null ls) (first_of rs null) e))

  pub updated-IsSeg : (e : Content) → IsSeg block_of (updated e) null null (ls ++ (p, e) ∷ rs)
  updated-IsSeg e =
      IsSeg-replace (updated e) e rs (λ a i. write_ne h p a _ (has-ne-first a i))
        (
          at_block.0,
          write_self h p _,
          IsSeg-frame block_of h (updated e) p null rs at_block.2
              (λ a i. write_ne h p a _ (has-ne a p rs i Distinct-behind.0)),
        )
    where
      has-ne-first : (a : Ptr) → has a ls ≡ true → a ≢ p
      has-ne-first a i = ground (arith, out_before a i)

  -- The memory once `p` has content `e` and its next block is the first of `zs`.
  abbrev pub joined : Content → Blocks → Memory Block
  joined e zs =
      reback block_of (write h p (some (block_of (last_of null ls) (first_of zs null) e))) p zs null

  pub joined-IsSeg :
      (e : Content) (zs : Blocks) (b : Ptr)
      → IsSeg block_of h b null zs
      → Distinct zs
      → has p zs ≡ false
      → ((a : Ptr) → has a ls ≡ true → has a zs ≡ false)
      → IsSeg block_of (joined e zs) null null (ls ++ (p, e) ∷ zs)
  joined-IsSeg e zs b t dz o apart =
      let h1 = write h p (some (block_of (last_of null ls) (first_of zs null) e)) in
      IsSeg-replace (joined e zs) e zs
        (λ a i.
          reback-out block_of h1 p zs null a (apart a i)
          ∙ write_ne h p a _ (ground (arith, out_before a i)))
        (
          at_block.0,
          reback-out block_of h1 p zs null p o ∙ write_self h p _,
          IsSeg-reback block_of h1 b null zs p
              (IsSeg-frame block_of h h1 b null zs t (λ a i. write_ne h p a _ (has-ne a p zs i o)))
              dz,
        )
