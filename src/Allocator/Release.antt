-- ===== src/Allocator/Release.antt =====
-- The last part of `free`: the block is marked, and merged with its free neighbours.
use mathlib.Core.Path.{subst}
use hry_os.Base.{
  ℕ, suc, ◌+◌, ◌≤◌, ◌≡◌, sym, inl, inr, true, false, [], ◌∷◌, ◌++◌, arith, if◌then◌else◌,
  Bool-cases, append_assoc,
}
use hry_os.Memory.{
  Ptr, null, Memory, load, load-ok, modify, modify-ok, pure, ◌>>=◌, ◌>>◌, Cmd, Returns, returns,
}
use hry_os.Links.{first_of, last_of, IsSeg}
use hry_os.Allocator.{
  free, Block, is_free, is_free_state, sizeof_block, calc_size_between, merge_with_next_block,
}
use hry_os.Allocator.Align.{calc_size_between-fits}
use hry_os.Allocator.Layout.{
  Content, content, block_of, Blocks, Fits, Fits-Distinct, Fits-right, Fits-replace,
}
use hry_os.Allocator.Update.{at_block, updated, updated-IsSeg}
use hry_os.Allocator.Merge.{merge-round, merged-IsSeg, merged_memory}

-- The blocks `xs` are linked in memory, fit and have no free neighbours.
pub record IsChain (h : Memory Block) (xs : Blocks) : Type 0 where
  pub seg : IsSeg block_of h null null xs
  pub fits : Fits xs

abbrev pub bridge : Ptr → Ptr → Content
bridge p r = content (calc_size_between p r) free

bridge-Fits :
    (ls rs zs : Blocks) (p r : Ptr) (c cr : Content)
    → Fits (ls ++ (p, c) ∷ rs)
    → p + sizeof_block ≤ r
    → Fits ((r, cr) ∷ zs)
    → Fits (ls ++ (p, bridge p r) ∷ (r, cr) ∷ zs)
bridge-Fits ls rs zs p r c cr f lo g =
    Fits-replace ls rs ((r, cr) ∷ zs) p c (bridge p r) f
      ((Fits-right ls ((p, c) ∷ rs) f).0, (calc_size_between-fits p r lo g.0).0, g)

module _ (h : Memory Block) (ls : Blocks) (p q r : Ptr) (n : ℕ) (cq cr : Content) where
  -- The merge stops after one round at a block that is not free.
  pub merge-one :
      (k : ℕ) (rs : Blocks)
      → IsChain h (ls ++ (p, content n free) ∷ (q, cq) ∷ (r, cr) ∷ rs)
      → is_free_state cr.state ≡ false
      → Returns
          (λ _ g. IsChain g (ls ++ (p, bridge p r) ∷ (r, cr) ∷ rs))
          (merge_with_next_block (suc k) p h)
  merge-one k rs is stop =
      let apart = Fits-Distinct _ is.fits in
      let room = Fits-right ls ((p, content n free) ∷ (q, cq) ∷ (r, cr) ∷ rs) is.fits in
      rw (merge-round h ls rs p q r (content n free) cq cr is.seg apart k, stop)
        (returns (record {
          seg = merged-IsSeg h ls rs p q r (content n free) cq cr is.seg apart;
          fits =
              bridge-Fits ls ((q, cq) ∷ (r, cr) ∷ rs) rs p r (content n free) cr is.fits
                (omega (arith, room)) room.2.2;
        }))

module _ (h : Memory Block) (ls : Blocks) (p q r t : Ptr) (n : ℕ) (cq cr ct : Content) where
  -- It takes in a second free block.
  pub merge-two :
      (k : ℕ) (rs : Blocks)
      → IsChain h (ls ++ (p, content n free) ∷ (q, cq) ∷ (r, cr) ∷ (t, ct) ∷ rs)
      → is_free_state cr.state ≡ true
      → is_free_state ct.state ≡ false
      → Returns
          (λ _ g. IsChain g (ls ++ (p, bridge p t) ∷ (t, ct) ∷ rs))
          (merge_with_next_block (suc (suc k)) p h)
  merge-two k rs is more stop =
      let apart = Fits-Distinct _ is.fits in
      let room = Fits-right ls ((p, content n free) ∷ (q, cq) ∷ (r, cr) ∷ (t, ct) ∷ rs) is.fits in
      rw (merge-round h ls ((t, ct) ∷ rs) p q r (content n free) cq cr is.seg apart (suc k), more)
        (merge-one (merged_memory h ls ((t, ct) ∷ rs) p q r (content n free) cq cr is.seg apart) ls
          p r t (calc_size_between p r) cr ct k rs
          (record {
            seg = merged-IsSeg h ls ((t, ct) ∷ rs) p q r (content n free) cq cr is.seg apart;
            fits =
                bridge-Fits ls ((q, cq) ∷ (r, cr) ∷ (t, ct) ∷ rs) ((t, ct) ∷ rs) p r
                  (content n free) cr is.fits (omega (arith, room)) room.2.2;
          })
          stop)

-- `free` once the block is found.
abbrev pub release_block : ℕ → Ptr → Cmd Block (Unit {0})
release_block fuel node = do
  modify node (λ x. record x { state = free })
  n ← load node
  before ← load n.prev
  if is_free before then merge_with_next_block fuel n.prev else do
    behind ← load n.next
    if is_free behind then merge_with_next_block fuel node else pure tt

-- The free block at `p` takes in the next block if that is free.
abbrev pub absorb : Ptr → Ptr → ℕ → Blocks → Blocks
absorb tail p n [] = (p, content n free) ∷ []
absorb tail p n ((r, cr) ∷ bs) =
    if is_free_state cr.state
    then (p, bridge p (first_of bs tail)) ∷ bs
    else (p, content n free) ∷ (r, cr) ∷ bs

-- The blocks from the one before `p` on, once `p` is released; `bs` stands behind it.
abbrev pub released : Ptr → Ptr → Content → Ptr → Content → Blocks → Blocks
released tail q cq p c bs =
    if is_free_state cq.state
    then absorb tail q (calc_size_between q (first_of bs tail)) bs
    else (q, cq) ∷ absorb tail p c.size bs

module _ (h : Memory Block) (ls : Blocks) (q p r : Ptr) (cq c cr : Content) (rs : Blocks)
    (is : IsChain h (ls ++ (q, cq) ∷ (p, c) ∷ (r, cr) ∷ rs)) where
  -- The memory once `p` is marked as free.
  pub regrouped :
      (d : Content)
      → (ls ++ (q, cq) ∷ []) ++ (p, d) ∷ (r, cr) ∷ rs ≡ ls ++ (q, cq) ∷ (p, d) ∷ (r, cr) ∷ rs
  regrouped d = append_assoc ls ((q, cq) ∷ []) ((p, d) ∷ (r, cr) ∷ rs)

  abbrev seg' : IsSeg block_of h null null ((ls ++ (q, cq) ∷ []) ++ (p, c) ∷ (r, cr) ∷ rs)
  seg' = subst (IsSeg block_of h null null) (sym (regrouped c)) is.seg

  abbrev fits' : Fits ((ls ++ (q, cq) ∷ []) ++ (p, c) ∷ (r, cr) ∷ rs)
  fits' = subst Fits (sym (regrouped c)) is.fits

  abbrev pub marked : Memory Block
  marked =
      updated h (ls ++ (q, cq) ∷ []) ((r, cr) ∷ rs) p c seg' (Fits-Distinct _ fits')
        (content c.size free)

  pub marked-IsChain : IsChain marked (ls ++ (q, cq) ∷ (p, content c.size free) ∷ (r, cr) ∷ rs)
  marked-IsChain = record {
    seg = subst (IsSeg block_of marked null null) (regrouped (content c.size free)) (
        updated-IsSeg h (ls ++ (q, cq) ∷ []) ((r, cr) ∷ rs) p c seg' (Fits-Distinct _ fits')
          (content c.size free));
    fits = subst Fits (regrouped (content c.size free)) (
        Fits-replace (ls ++ (q, cq) ∷ []) ((r, cr) ∷ rs) ((r, cr) ∷ rs) p c (content c.size free)
          fits' (Fits-right (ls ++ (q, cq) ∷ []) ((p, c) ∷ (r, cr) ∷ rs) fits'));
  }

  -- `free` reads the two neighbours and merges from the first that is free.
  pub release-run :
      (fuel : ℕ)
      → release_block fuel p h
        ≡ (if is_free_state cq.state
              then merge_with_next_block fuel q
              else if is_free_state cr.state
              then merge_with_next_block fuel p
              else pure tt)
            marked
  release-run fuel =
      let at_p = at_block h (ls ++ (q, cq) ∷ []) ((r, cr) ∷ rs) p c seg' (Fits-Distinct _ fits') in
      let at_q =
        at_block marked ls ((p, content c.size free) ∷ (r, cr) ∷ rs) q cq marked-IsChain.seg
          (Fits-Distinct _ marked-IsChain.fits) in
      rw
        (
          modify-ok h p (block_of (last_of null (ls ++ (q, cq) ∷ [])) r c) at_p.0 at_p.1
              (λ x. record x { state = free }),
          load-ok marked p (block_of q r (content c.size free)) at_q.2.0 at_q.2.1,
          load-ok marked q (block_of (last_of null ls) p cq) at_q.0 at_q.1,
        )
        (elim (Bool-cases (is_free_state cq.state)) [
          | inl e ↦ rw e
          | inr e ↦
              rw (e, load-ok marked r (block_of p (first_of rs null) cr) at_q.2.2.0 at_q.2.2.1)
        ])
