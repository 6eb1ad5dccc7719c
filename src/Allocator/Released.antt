-- ===== src/Allocator/Released.antt =====
-- The blocks that a released block leaves, where the tail follows the blocks behind it.
use mathlib.Core.Path.{subst}
use hry_os.Base.{
  ℕ, suc, ◌≡◌, refl, sym, ap, inl, inr, true, false, [], ◌∷◌, ◌++◌, arith, if◌then◌else◌,
  Bool-cases, append_assoc,
}
use hry_os.Memory.{Ptr, Memory, pure, Returns, returns}
use hry_os.Links.{first_of}
use hry_os.Allocator.{
  State, free, allocated, Block, is_free_state, calc_size_between, merge_with_next_block,
}
use hry_os.Allocator.Layout.{
  Content, content, Blocks, edge, Coalesced, Coalesced-right, Coalesced-glue,
}
use hry_os.Allocator.Release.{
  IsChain, merge-one, merge-two, release_block, absorb, released, marked, marked-IsChain,
  release-run,
}

pub free_of : (s : State) → is_free_state s ≡ true → s ≡ free
free_of free e = refl
free_of allocated e = cc

not-free-cons :
    (q : Ptr) (c : Content) (xs : Blocks)
    → is_free_state c.state ≡ false
    → Coalesced xs
    → Coalesced ((q, c) ∷ xs)
not-free-cons q c [] e co = tt
not-free-cons q c ((r, d) ∷ xs) e co = (ground arith, co)

module _ (tail : Ptr) where
  abbrev pub with_tail : Blocks → Blocks
  with_tail bs = bs ++ (tail, edge) ∷ []

  -- The first block of `with_tail bs`.
  abbrev pub next_of : Blocks → Content
  next_of [] = edge
  next_of ((_, c) ∷ bs) = c

  absorb-IsChain :
      (h : Memory Block) (ls : Blocks) (p n k : ℕ) (bs : Blocks)
      → IsChain h (ls ++ (p, content n free) ∷ with_tail bs)
      → Coalesced (with_tail bs)
      → Returns
          (λ _ g. IsChain g (ls ++ with_tail (absorb tail p n bs)))
          ((if is_free_state (next_of bs).state then merge_with_next_block (suc k) p else pure tt)
            h)
  absorb-IsChain h ls p n k [] is co = returns is
  absorb-IsChain h ls p n k ((r, cr) ∷ []) is co = elim (Bool-cases (is_free_state cr.state)) [
    | inl e ↦ rw e (merge-one h ls p r tail n cr edge k [] is refl)
    | inr e ↦ rw e (returns is)
  ]
  absorb-IsChain h ls p n k ((r, cr) ∷ (t, ct) ∷ bs) is co =
      elim (Bool-cases (is_free_state cr.state)) [
        | inl e ↦ rw e (merge-one h ls p r t n cr ct k (with_tail bs) is (ground arith))
        | inr e ↦ rw e (returns is)
      ]

  bridge-IsChain :
      (h : Memory Block) (ls : Blocks) (q n p k : ℕ) (c : Content) (bs : Blocks)
      → IsChain h (ls ++ (q, content n free) ∷ (p, c) ∷ with_tail bs)
      → Coalesced (with_tail bs)
      → Returns
          (λ _ g.
            IsChain g (ls ++ with_tail (absorb tail q (calc_size_between q (first_of bs tail)) bs)))
          (merge_with_next_block (suc (suc k)) q h)
  bridge-IsChain h ls q n p k c [] is co = merge-one h ls q p tail n c edge (suc k) [] is refl
  bridge-IsChain h ls q n p k c ((r, cr) ∷ []) is co = elim (Bool-cases (is_free_state cr.state)) [
    | inl e ↦ rw e (merge-two h ls q p r tail n c cr edge k [] is e refl)
    | inr e ↦ rw e (merge-one h ls q p r n c cr (suc k) (with_tail []) is e)
  ]
  bridge-IsChain h ls q n p k c ((r, cr) ∷ (t, ct) ∷ bs) is co =
      elim (Bool-cases (is_free_state cr.state)) [
        | inl e ↦ rw e (merge-two h ls q p r t n c cr ct k (with_tail bs) is e (ground arith))
        | inr e ↦ rw e (merge-one h ls q p r n c cr (suc k) (with_tail ((t, ct) ∷ bs)) is e)
      ]

  absorb-Coalesced :
      (p n : ℕ) (bs : Blocks)
      → Coalesced (with_tail bs)
      → Coalesced (with_tail (absorb tail p n bs))
  absorb-Coalesced p n [] co = (refl, tt)
  absorb-Coalesced p n ((r, cr) ∷ []) co = elim (Bool-cases (is_free_state cr.state)) [
    | inl e ↦ rw e (refl, tt)
    | inr e ↦ rw (e, e) (refl, (refl, tt))
  ]
  absorb-Coalesced p n ((r, cr) ∷ (t, ct) ∷ bs) co = elim (Bool-cases (is_free_state cr.state)) [
    | inl e ↦ rw e (ground arith, co.1)
    | inr e ↦ rw (e, e) (refl, (refl, co.1))
  ]

  -- The memory in which the merging starts.
  release-start :
      (h : Memory Block) (ls : Blocks) (q p fuel : ℕ) (cq c : Content) (bs : Blocks)
      → IsChain h (ls ++ (q, cq) ∷ (p, c) ∷ with_tail bs)
      → (g : Memory Block) × IsChain g (ls ++ (q, cq) ∷ (p, content c.size free) ∷ with_tail bs)
        × (release_block fuel p h
            ≡ (if is_free_state cq.state
                  then merge_with_next_block fuel q
                  else if is_free_state (next_of bs).state
                  then merge_with_next_block fuel p
                  else pure tt)
                g)
  release-start h ls q p fuel cq c [] is = (
    marked h ls q p tail cq c edge [] is,
    marked-IsChain h ls q p tail cq c edge [] is,
    release-run h ls q p tail cq c edge [] is fuel,
  )
  release-start h ls q p fuel cq c ((r, cr) ∷ bs) is = (
    marked h ls q p r cq c cr (with_tail bs) is,
    marked-IsChain h ls q p r cq c cr (with_tail bs) is,
    release-run h ls q p r cq c cr (with_tail bs) is fuel,
  )

  module _ (h : Memory Block) (ls : Blocks) (q p k : ℕ) (cq c : Content) (bs : Blocks)
      (is : IsChain h (ls ++ (q, cq) ∷ (p, c) ∷ with_tail bs))
      (co : Coalesced (ls ++ (q, cq) ∷ (p, c) ∷ with_tail bs)) where
    behind : Coalesced ((q, cq) ∷ (p, c) ∷ with_tail bs)
    behind = Coalesced-right ls ((q, cq) ∷ (p, c) ∷ with_tail bs) co

    behind_p : Coalesced (with_tail bs)
    behind_p = Coalesced-right ((q, cq) ∷ (p, c) ∷ []) (with_tail bs) behind

    pub released-Coalesced : Coalesced (ls ++ with_tail (released tail q cq p c bs))
    released-Coalesced = elim (Bool-cases (is_free_state cq.state)) [
      | inl e ↦ rw e (
          Coalesced-glue ls ((p, c) ∷ with_tail bs)
            (with_tail (absorb tail q (calc_size_between q (first_of bs tail)) bs)) q cq co
            (absorb-Coalesced q (calc_size_between q (first_of bs tail)) bs behind_p) (λ _. e))
      | inr e ↦ rw e (
          Coalesced-glue ls ((p, c) ∷ with_tail bs) ((q, cq) ∷ with_tail (absorb tail p c.size bs))
            q cq co
            (not-free-cons q cq (with_tail (absorb tail p c.size bs)) e
              (absorb-Coalesced p c.size bs behind_p))
            (λ f. f))
    ]

    pub release_block-released :
        Returns
          (λ _ g. IsChain g (ls ++ with_tail (released tail q cq p c bs)))
          (release_block (suc (suc k)) p h)
    release_block-released =
        let (g, marked', run) = release-start h ls q p (suc (suc k)) cq c bs is in
        elim (Bool-cases (is_free_state cq.state)) [
          | inl e ↦
              let as_free : content cq.size free ≡ cq =
                ap (content cq.size) (sym (free_of cq.state e)) in
              rw (run, e)
                (bridge-IsChain g ls q cq.size p k (content c.size free) bs
                  (subst (λ d. IsChain g (ls ++ (q, d) ∷ (p, content c.size free) ∷ with_tail bs))
                    (sym as_free) marked')
                  behind_p)
          | inr e ↦
              rw (run, e)
                (subst
                  (λ xs.
                    Returns (λ _ g'. IsChain g' xs)
                      ((if is_free_state (next_of bs).state
                          then merge_with_next_block (suc (suc k)) p
                          else pure tt)
                        g))
                  (append_assoc ls ((q, cq) ∷ []) (with_tail (absorb tail p c.size bs)))
                  (absorb-IsChain g (ls ++ (q, cq) ∷ []) p c.size (suc k) bs
                    (subst (IsChain g)
                      (sym
                        (append_assoc ls ((q, cq) ∷ []) ((p, content c.size free) ∷ with_tail bs)))
                      marked')
                    behind_p))
        ]
