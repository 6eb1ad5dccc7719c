-- ===== src/Allocator/Split.antt =====
-- `split_block`: the part of a block that is left over becomes a free block.
use hry_os.Base.{ℕ, ◌+◌, ◌<◌, ◌^◌, ◌≡◌, ◌≢◌, sym, ◌∙◌, false, ◌∷◌, ◌++◌, some, arith, add32}
use hry_os.Memory.{Ptr, null, Memory, write, write_ne, write_self, load-ok, modify-ok, ok}
use hry_os.Links.{
  first_of, last_of, has, Distinct, IsSeg, IsSeg-frame, has-ne, has_self, has-append,
}
use hry_os.Links.Relink.{reback, reback-out, IsSeg-reback}
use hry_os.Allocator.{free, Block, split_block, sizeof_block, calc_size_between}
use hry_os.Allocator.Layout.{Content, content, block_of, Blocks}
use hry_os.Allocator.Update.{at_block, out_before, Distinct-behind, IsSeg-replace}

module _ (h : Memory Block) (ls rs : Blocks) (p r : Ptr) (c cr : Content) (n size : ℕ)
    (s : IsSeg block_of h null null (ls ++ (p, c) ∷ (r, cr) ∷ rs))
    (d : Distinct (ls ++ (p, c) ∷ (r, cr) ∷ rs)) where
  abbrev kept : Content
  kept = content size c.state

  abbrev left_over : Content
  left_over = content (calc_size_between r n) free

  abbrev with_new : Memory Block
  with_new = write h n (some (block_of p r left_over))

  abbrev with_size : Memory Block
  with_size = write with_new p (some (block_of (last_of null ls) n kept))

  abbrev pub carved : Memory Block
  carved = reback block_of with_size n ((r, cr) ∷ rs) null

  module _ (new : n ≡ p + sizeof_block + size) (small : n < 2 ^ 32) (ne : n ≢ null)
      (out : has n (ls ++ (p, c) ∷ (r, cr) ∷ rs) ≡ false) where
    here : IsSeg block_of h (last_of null ls) null ((p, c) ∷ (r, cr) ∷ rs)
    here = at_block h ls ((r, cr) ∷ rs) p c s d

    out_ls : has n ls ≡ false
    out_ls = ground (arith, has-append n ls ((p, c) ∷ (r, cr) ∷ rs))

    n-ne-p : n ≢ p
    n-ne-p e = ground (arith, has-append n ls ((p, c) ∷ (r, cr) ∷ rs))

    out_rs : has n ((r, cr) ∷ rs) ≡ false
    out_rs = ground (arith, has-append n ls ((p, c) ∷ (r, cr) ∷ rs))

    r-ne-p : r ≢ p
    r-ne-p =
        has-ne r p ((r, cr) ∷ rs) (has_self r cr rs) (Distinct-behind h ls ((r, cr) ∷ rs) p c s d).0

    at_r : with_size r ≡ some (block_of p (first_of rs null) cr)
    at_r =
        write_ne with_new p r _ r-ne-p
        ∙ write_ne h n r _ (has-ne r n ((r, cr) ∷ rs) (has_self r cr rs) out_rs)
        ∙ here.2.1

    pub split_block-carved : split_block p size h ≡ ok tt carved
    unfolding split_block
    split_block-carved =
        let address : add32 (add32 p 16) size ≡ n = omega arith in
        rw (load-ok h p (block_of (last_of null ls) r c) here.0 here.1, address)
          (rw (
            modify-ok with_new p (block_of (last_of null ls) r c) here.0
                (write_ne h n p _ (λ e. n-ne-p (sym e)) ∙ here.1)
                (λ x. record x { next = n; size = size }),
            modify-ok with_size r (block_of p (first_of rs null) cr) here.2.0 at_r
                (λ x. record x { prev = n }),
          ))

    pub carved-IsSeg :
        IsSeg block_of carved null null (ls ++ (p, kept) ∷ (n, left_over) ∷ (r, cr) ∷ rs)
    carved-IsSeg =
        IsSeg-replace h ls ((r, cr) ∷ rs) p c s d carved kept ((n, left_over) ∷ (r, cr) ∷ rs)
          (λ a i.
            reback-out block_of with_size n ((r, cr) ∷ rs) null a
              (ground (arith, out_before h ls ((r, cr) ∷ rs) p c s d a))
            ∙ write_ne with_new p a _ (ground (arith, out_before h ls ((r, cr) ∷ rs) p c s d a))
            ∙ write_ne h n a _ (has-ne a n ls i out_ls))
          (
            here.0,
            reback-out block_of with_size n ((r, cr) ∷ rs) null p
                  (Distinct-behind h ls ((r, cr) ∷ rs) p c s d).0
                ∙ write_self with_new p _,
            (
              ne,
              reback-out block_of with_size n ((r, cr) ∷ rs) null n out_rs
                  ∙ write_ne with_new p n _ n-ne-p
                  ∙ write_self h n _,
              IsSeg-reback block_of with_size p null ((r, cr) ∷ rs) n
                  (IsSeg-frame block_of h with_size p null ((r, cr) ∷ rs) here.2 (λ a i.
                    write_ne with_new p a _
                      (has-ne a p ((r, cr) ∷ rs) i (Distinct-behind h ls ((r, cr) ∷ rs) p c s d).0)
                    ∙ write_ne h n a _ (has-ne a n ((r, cr) ∷ rs) i out_rs)))
                  ((Distinct-behind h ls ((r, cr) ∷ rs) p c s d).1),
            ),
          )
