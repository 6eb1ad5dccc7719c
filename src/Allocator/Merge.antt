-- ===== src/Allocator/Merge.antt =====
-- `merge_with_next_block`, one round: the next block becomes part of this one.
use hry_os.Base.{ℕ, suc, ◌≡◌, ◌≢◌, ◌∙◌, ◌∷◌, ◌++◌, some, arith, if◌then◌else◌}
use hry_os.Memory.{Ptr, null, Memory, write, write_ne, write_self, load-ok, modify-ok, pure}
use hry_os.Links.{first_of, last_of, Distinct, IsSeg}
use hry_os.Allocator.{Block, is_free_state, merge_with_next_block, calc_size_between}
use hry_os.Allocator.Layout.{Content, content, block_of, Blocks}
use hry_os.Allocator.Update.{at_block, out_before, Distinct-behind, joined, joined-IsSeg}

module _ (h : Memory Block) (ls rs : Blocks) (p q r : Ptr) (c cq cr : Content)
    (s : IsSeg block_of h null null (ls ++ (p, c) ∷ (q, cq) ∷ (r, cr) ∷ rs))
    (d : Distinct (ls ++ (p, c) ∷ (q, cq) ∷ (r, cr) ∷ rs)) where
  abbrev pub merged : Content
  merged = content (calc_size_between p r) c.state

  abbrev pub merged_memory : Memory Block
  merged_memory = joined h ls ((q, cq) ∷ (r, cr) ∷ rs) p c s d merged ((r, cr) ∷ rs)

  here : IsSeg block_of h (last_of null ls) null ((p, c) ∷ (q, cq) ∷ (r, cr) ∷ rs)
  here = at_block h ls ((q, cq) ∷ (r, cr) ∷ rs) p c s d

  apart : Distinct ((p, c) ∷ (q, cq) ∷ (r, cr) ∷ rs)
  apart = Distinct-behind h ls ((q, cq) ∷ (r, cr) ∷ rs) p c s d

  r-ne-p : r ≢ p
  r-ne-p = ground (arith, apart)

  abbrev with_size : Memory Block
  with_size = write h p (some (block_of (last_of null ls) r merged))

  at_r : with_size r ≡ some (block_of q (first_of rs null) cr)
  at_r = write_ne h p r _ r-ne-p ∙ here.2.2.1

  pub merge-round :
      (k : ℕ)
      → merge_with_next_block (suc k) p h
        ≡ (if is_free_state cr.state then merge_with_next_block k p else pure tt) merged_memory
  unfolding merge_with_next_block
  merge-round k = rw (
    load-ok h p (block_of (last_of null ls) q c) here.0 here.1,
    load-ok h q (block_of p r cq) here.2.0 here.2.1,
    modify-ok h p (block_of (last_of null ls) q c) here.0 here.1
        (λ x. record x { next = r; size = calc_size_between p r }),
    modify-ok with_size r (block_of q (first_of rs null) cr) here.2.2.0 at_r
        (λ x. record x { prev = p }),
    load-ok merged_memory r (block_of p (first_of rs null) cr) here.2.2.0
        (write_self with_size r _),
  )

  pub merged-IsSeg : IsSeg block_of merged_memory null null (ls ++ (p, merged) ∷ (r, cr) ∷ rs)
  merged-IsSeg =
      joined-IsSeg h ls ((q, cq) ∷ (r, cr) ∷ rs) p c s d merged ((r, cr) ∷ rs) q here.2.2 apart.1.1
        (ground (arith, apart))
        (λ a i. ground (arith, out_before h ls ((q, cq) ∷ (r, cr) ∷ rs) p c s d a))
