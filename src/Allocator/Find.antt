-- ===== src/Allocator/Find.antt =====
-- `find_fit`: the first free block that is large enough.
use hry_os.Base.{
  ℕ, zero, suc, ◌+◌, ◌<◌, ◌≡◌, refl, ap, ◌⊎◌, inl, inr, Bool, true, false, ◌&&◌, [], ◌∷◌, ◌++◌,
  arith, leb, ◌==◌, if◌then◌else◌, Bool-cases, length, ==_refl,
}
use hry_os.Memory.{Ptr, null, Memory, load-ok, ok}
use hry_os.Links.{first_of, has, IsSeg, first_of-append, Distinct-snoc}
use hry_os.Allocator.{
  free, allocated, Block, Allocator, is_free_state, find_fit_loop, find_fit, sizeof_block,
  calc_size_between,
}
use hry_os.Allocator.Layout.{Content, content, block_of, Blocks, edge, IsHeap, Fits-Distinct}

abbrev pub fitting : ℕ → Content → Bool
fitting size c = is_free_state c.state && leb size c.size

-- The chosen block `p` once it is taken, with the rest of it split off where that has room for a
-- header; `tail` stands behind the last block.
abbrev pub carve : ℕ → Ptr → Ptr → Content → Blocks → Blocks
carve size tail p c bs =
    if leb (size + sizeof_block) c.size
    then (p, content size allocated)
      ∷ (
        p + sizeof_block + size,
        content (calc_size_between (first_of bs tail) (p + sizeof_block + size)) free,
      )
      ∷ bs
    else (p, content c.size allocated) ∷ bs

-- First fit: the address of the block, null if there is none, and the blocks afterwards.
abbrev pub place : ℕ → Ptr → Blocks → Ptr × Blocks
place size tail [] = (null, [])
place size tail ((p, c) ∷ bs) =
    if fitting size c
    then (p, carve size tail p c bs)
    else ((place size tail bs).0, (p, c) ∷ (place size tail bs).1)

find_fit_loop-place :
    (k size tail prev : ℕ) (h : Memory Block) (bs : Blocks)
    → IsSeg block_of h prev null (bs ++ (tail, edge) ∷ [])
    → has tail bs ≡ false
    → length bs < k
    → find_fit_loop k tail size (first_of bs tail) h ≡ ok (place size tail bs).0 h
unfolding find_fit_loop
find_fit_loop-place zero size tail prev h bs s o fuel = absurd (omega arith)
find_fit_loop-place (suc k) size tail prev h [] s o fuel = rw (==_refl tail)
find_fit_loop-place (suc k) size tail prev h ((p, c) ∷ bs) s o fuel =
    let away : (p == tail) ≡ false = ground arith in
    let rest = find_fit_loop-place k size tail p h bs s.2 (ground arith) (omega arith) in
    rw (away, load-ok h p _ s.0 s.1, first_of-append bs ((tail, edge) ∷ []) null)
      (elim (Bool-cases (is_free_state c.state)) [
        | inl is_free ↦ rw is_free (elim (Bool-cases (leb size c.size)) [
          | inl large ↦ rw large
          | inr small ↦ rw small rest
        ])
        | inr taken ↦ rw taken rest
      ])

-- The search stops at the first block that fits, or at the tail.
pub find_fit-place :
    (fuel size : ℕ) (h : Memory Block) (a : Allocator) (bs : Blocks)
    → IsHeap h a bs
    → length bs < fuel
    → find_fit fuel size a h ≡ ok (place size a.tail bs).0 h
unfolding find_fit
find_fit-place fuel size h a bs is enough =
    rw (load-ok h a.head _ is.seg.0 is.seg.1, first_of-append bs ((a.tail, edge) ∷ []) null)
      (find_fit_loop-place fuel size a.tail a.head h bs is.seg.2 tail_out enough)
  where
    tail_out : has a.tail bs ≡ false
    tail_out = Distinct-snoc bs a.tail edge (Fits-Distinct (bs ++ (a.tail, edge) ∷ []) is.fits.2)

-- What `place` does, by whether a block fits.
pub record Found (size : ℕ) (tail : Ptr) (bs : Blocks) : Type 0 where
  pub before : Blocks
  pub at : Ptr
  pub here : Content
  pub behind : Blocks
  pub split : bs ≡ before ++ (at, here) ∷ behind
  pub fits : fitting size here ≡ true
  pub placed : place size tail bs ≡ (at, before ++ carve size tail at here behind)

pub place-cases :
    (size : ℕ) (tail : Ptr) (bs : Blocks) → (place size tail bs ≡ (null, bs)) ⊎ Found size tail bs
place-cases size tail [] = inl refl
place-cases size tail ((p, c) ∷ bs) = elim (Bool-cases (fitting size c)) [
  | inl hit ↦ inr (record {
    before = [];
    at = p;
    here = c;
    behind = bs;
    split = refl;
    fits = hit;
    placed = rw hit;
  })
  | inr miss ↦ elim (place-cases size tail bs) [
    | inl e ↦ inl (rw (miss, e))
    | inr f ↦ inr (record {
      before = (p, c) ∷ f.before;
      at = f.at;
      here = f.here;
      behind = f.behind;
      split = ap (λ xs. (p, c) ∷ xs) f.split;
      fits = f.fits;
      placed = rw (miss, f.placed);
    })
  ]
]
