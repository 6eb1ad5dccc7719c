-- ===== src/Allocator/FirstFit.antt =====
-- `allocate` refines first fit on the list of blocks.
use mathlib.Core.Path.{subst}
use hry_os.Base.{
  ℕ, ◌+◌, ◌<◌, ◌≤◌, ◌≡◌, refl, sym, ap, ◌∙◌, inl, inr, true, [], ◌∷◌, ◌++◌, arith, if◌then◌else◌,
  leb, leb→le, Bool-cases, length, ==_false, append_assoc, ◌==◌,
}
use hry_os.Memory.{Ptr, null, Memory, Returns, returns, mono}
use hry_os.Links.{first_of, IsSeg, IsSeg-split}
use hry_os.Allocator.{Block, Allocator, sizeof_block, aligned, allocate, align_to}
use hry_os.Allocator.Layout.{Content, block_of, Blocks, edge, all_blocks, IsHeap, Fits, Coalesced}
use hry_os.Allocator.Find.{fitting, carve, place, find_fit-place, place-cases}
use hry_os.Allocator.Allocate.{
  take_block, taken_blocks, take_block-IsSeg, taken_blocks-Fits, taken_blocks-Coalesced,
}

-- The block behind `behind`, if the tail follows.
abbrev pub behind_block : Allocator → Blocks → Ptr × Content
behind_block a [] = (a.tail, edge)
behind_block a ((q, d) ∷ bs) = (q, d)

abbrev pub behind_rest : Allocator → Blocks → Blocks
behind_rest a [] = []
behind_rest a ((q, d) ∷ bs) = bs ++ (a.tail, edge) ∷ []

pub behind-cons :
    (a : Allocator) (bs : Blocks)
    → bs ++ (a.tail, edge) ∷ [] ≡ ((behind_block a bs).0, (behind_block a bs).1) ∷ behind_rest a bs
behind-cons a [] = refl
behind-cons a ((q, d) ∷ bs) = refl

pub first_of-behind : (a : Allocator) (bs : Blocks) → first_of bs a.tail ≡ (behind_block a bs).0
first_of-behind a [] = refl
first_of-behind a ((q, d) ∷ bs) = refl

-- All blocks, taken apart at one between the head and the tail.
pub all_blocks-at :
    (a : Allocator) (before behind : Blocks) (p : Ptr) (c : Content)
    → all_blocks a (before ++ (p, c) ∷ behind)
      ≡ ((a.head, edge) ∷ before)
        ++ (p, c) ∷ ((behind_block a behind).0, (behind_block a behind).1) ∷ behind_rest a behind
all_blocks-at a before behind p c =
    ap (λ xs. (a.head, edge) ∷ xs)
      (append_assoc before ((p, c) ∷ behind) ((a.tail, edge) ∷ [])
        ∙ ap (λ xs. before ++ (p, c) ∷ xs) (behind-cons a behind))

carve-taken :
    (a : Allocator) (before behind : Blocks) (p : Ptr) (c : Content) (size : ℕ)
    → all_blocks a (before ++ carve size a.tail p c behind)
      ≡ ((a.head, edge) ∷ before)
        ++ taken_blocks size p c
            (behind_block a behind).0
            (((behind_block a behind).0, (behind_block a behind).1) ∷ behind_rest a behind)
carve-taken a before behind p c size =
    ap (λ xs. (a.head, edge) ∷ xs)
      (append_assoc before (carve size a.tail p c behind) ((a.tail, edge) ∷ [])
        ∙ ap (λ xs. before ++ xs)
            (elim (Bool-cases (leb (size + sizeof_block) c.size)) [
              | inl large ↦ rw large (rw (behind-cons a behind, first_of-behind a behind))
              | inr small ↦ rw small (rw (behind-cons a behind))
            ]))

module _ (h : Memory Block) (a : Allocator) where
  allocate-at :
      (before behind : Blocks) (p : Ptr) (c : Content) (size : ℕ)
      → IsHeap h a (before ++ (p, c) ∷ behind)
      → fitting size c ≡ true
      → Returns
          (λ addr g.
            (addr ≡ p + sizeof_block) × IsHeap g a (before ++ carve size a.tail p c behind))
          (take_block size p h)
  allocate-at before behind p c size is fits =
      let (r, cr) = behind_block a behind in
      let whole = all_blocks-at a before behind p c in
      let seg = subst (IsSeg block_of h null null) whole is.seg in
      let fit = subst Fits whole is.fits in
      let large : size ≤ c.size = ground (arith, leb→le size c.size) in
      let result = carve-taken a before behind p c size in
      mono
        (take_block-IsSeg h ((a.head, edge) ∷ before) (behind_rest a behind) p r c cr size seg fit
          large)
        λ addr g (e, seg'). (
          e,
          record {
            seg = subst (IsSeg block_of g null null) (sym result) seg';
            fits = subst Fits (sym result) (
                taken_blocks-Fits h ((a.head, edge) ∷ before) (behind_rest a behind) p r c cr size
                  seg fit large);
            coalesced = subst Coalesced (sym result) (
                taken_blocks-Coalesced h ((a.head, edge) ∷ before) (behind_rest a behind) p r c cr
                  size seg fit large (subst Coalesced whole is.coalesced) (ground arith));
          },
        )

  -- On a well-formed heap of fewer blocks than the fuel, `allocate` returns: it takes the first
  -- free block that is large enough for the rounded size, splits off what is left over where that
  -- has room for a header, and returns the data address; where no block fits it returns 0 and
  -- changes nothing. The heap stays well formed: linked, in the order of addresses, without
  -- overlaps, no two neighbours free.
  pub allocate-place :
      (fuel requested : ℕ) (bs : Blocks)
      → IsHeap h a bs
      → length bs < fuel
      → Returns
          (λ addr g.
            let (p, bs') = place (align_to requested aligned) a.tail bs in
            (addr ≡ (if p == null then 0 else p + sizeof_block)) × IsHeap g a bs')
          (allocate fuel requested a h)
  unfolding allocate
  allocate-place fuel requested bs is enough =
      let size = align_to requested aligned in
      elim (place-cases size a.tail bs) [
        | inl e ↦ rw (find_fit-place fuel size h a bs is enough, e) (returns (refl, is))
        | inr f ↦
            let is' = subst (IsHeap h a) f.split is in
            let ne =
              (IsSeg-split block_of h null null ((a.head, edge) ∷ f.before)
                ((f.at, f.here)
                  ∷ ((behind_block a f.behind).0, (behind_block a f.behind).1)
                  ∷ behind_rest a f.behind)
                (subst (IsSeg block_of h null null) (all_blocks-at a f.before f.behind f.at f.here)
                  is'.seg)).1.0 in
            rw (find_fit-place fuel size h a bs is enough, f.placed, ==_false f.at null ne)
              (allocate-at f.before f.behind f.at f.here size is' f.fits)
      ]
