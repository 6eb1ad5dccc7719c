-- ===== src/Allocator/Allocate.antt =====
-- `allocate` is first fit on the list of blocks, and keeps the heap well formed.
use hry_os.Base.{
  ℕ, ◌+◌, ◌<◌, ◌≤◌, ◌^◌, ◌≡◌, ◌≢◌, refl, inl, inr, true, ◌∷◌, ◌++◌, arith, if◌then◌else◌, add32,
  leb, leb→le, Bool-cases,
}
use hry_os.Memory.{
  Ptr, null, Memory, load, load-ok, modify, modify-ok, pure, ◌>>=◌, ◌>>◌, Returns, returns, Cmd,
}
use hry_os.Links.{last_of, IsSeg}
use hry_os.Allocator.{
  State, free, allocated, Block, is_free_state, split_block, sizeof_block, calc_size_between,
  get_data_address,
}
use hry_os.Allocator.Align.{calc_size_between-fits}
use hry_os.Allocator.Layout.{
  Content, content, block_of, Blocks, Fits, Coalesced, Fits-Distinct, Fits-right, Fits-replace,
  not-has-between, Coalesced-right, Coalesced-replace,
}
use hry_os.Allocator.Update.{at_block, updated-IsSeg}
use hry_os.Allocator.Split.{carved, split_block-carved, carved-IsSeg}

-- `allocate` once the block is found.
abbrev pub take_block : ℕ → Ptr → Cmd Block ℕ
take_block size block = do
  b ← load block
  if leb (add32 size sizeof_block) b.size then split_block block size else pure tt
  modify block (λ x. record x { state = allocated })
  pure (get_data_address block)

abbrev pub taken_blocks : ℕ → Ptr → Content → Ptr → Blocks → Blocks
taken_blocks size p c r rs =
    if leb (size + sizeof_block) c.size
    then (p, content size allocated)
      ∷ (p + sizeof_block + size, content (calc_size_between r (p + sizeof_block + size)) free)
      ∷ rs
    else (p, content c.size allocated) ∷ rs

module _ (h : Memory Block) (ls rs : Blocks) (p r : Ptr) (c cr : Content) (size : ℕ)
    (s : IsSeg block_of h null null (ls ++ (p, c) ∷ (r, cr) ∷ rs))
    (f : Fits (ls ++ (p, c) ∷ (r, cr) ∷ rs)) (fit : size ≤ c.size) where
  abbrev here : IsSeg block_of h (last_of null ls) null ((p, c) ∷ (r, cr) ∷ rs)
  here = at_block h ls ((r, cr) ∷ rs) p c s (Fits-Distinct _ f)

  abbrev room : Fits ((p, c) ∷ (r, cr) ∷ rs)
  room = Fits-right ls ((p, c) ∷ (r, cr) ∷ rs) f

  abbrev n : ℕ
  n = p + sizeof_block + size

  abbrev left_over : Content
  left_over = content (calc_size_between r n) free

  -- Both ways to take the block leave room for every block.
  split-Fits :
      (st : State)
      → leb (size + sizeof_block) c.size ≡ true
      → Fits (ls ++ (p, content size st) ∷ (n, left_over) ∷ (r, cr) ∷ rs)
  split-Fits st large =
      Fits-replace ls ((r, cr) ∷ rs) ((n, left_over) ∷ (r, cr) ∷ rs) p c (content size st) f
        (room.0, omega arith, (omega (arith, room, leb→le _ _ large), rest, room.2))
    where
      rest : n + sizeof_block + calc_size_between r n ≤ r
      rest =
          let between =
            calc_size_between-fits n r (omega (arith, room, leb→le _ _ large)) room.2.0 in
          omega (arith, between)

  whole-Fits : (st : State) → Fits (ls ++ (p, content c.size st) ∷ (r, cr) ∷ rs)
  whole-Fits st = Fits-replace ls ((r, cr) ∷ rs) ((r, cr) ∷ rs) p c (content c.size st) f room

  pub taken_blocks-Fits : Fits (ls ++ taken_blocks size p c r ((r, cr) ∷ rs))
  taken_blocks-Fits = elim (Bool-cases (leb (size + sizeof_block) c.size)) [
    | inl large ↦ rw large (split-Fits allocated large)
    | inr small ↦ rw small (whole-Fits allocated)
  ]

  pub taken_blocks-Coalesced :
      Coalesced (ls ++ (p, c) ∷ (r, cr) ∷ rs)
      → is_free_state c.state ≡ true
      → Coalesced (ls ++ taken_blocks size p c r ((r, cr) ∷ rs))
  taken_blocks-Coalesced co was_free =
      let behind = Coalesced-right ls ((p, c) ∷ (r, cr) ∷ rs) co in
      elim (Bool-cases (leb (size + sizeof_block) c.size)) [
        | inl large ↦ rw large (
            Coalesced-replace ls ((r, cr) ∷ rs) ((n, left_over) ∷ (r, cr) ∷ rs) p c
              (content size allocated) co (refl, (ground (arith, behind), behind.1))
              (λ e. was_free))
        | inr small ↦ rw small (
            Coalesced-replace ls ((r, cr) ∷ rs) ((r, cr) ∷ rs) p c (content c.size allocated) co
              (refl, behind.1) (λ e. was_free))
      ]

  pub take_block-IsSeg :
      Returns
        (λ addr g.
          (addr ≡ p + sizeof_block)
          × IsSeg block_of g null null (ls ++ taken_blocks size p c r ((r, cr) ∷ rs)))
        (take_block size p h)
  take_block-IsSeg =
      let no_wrap : add32 size sizeof_block ≡ size + sizeof_block = omega (arith, room) in
      let address : add32 p sizeof_block ≡ p + sizeof_block = omega (arith, room) in
      elim (Bool-cases (leb (size + sizeof_block) c.size)) [
        | inl large ↦
            let out =
              not-has-between ls rs p r c cr n f (omega arith)
                (omega (arith, room, leb→le _ _ large)) in
            let small : n < 2 ^ 32 = omega (arith, room, leb→le _ _ large) in
            let ne : n ≢ null = λ e. omega arith in
            let seg =
              carved-IsSeg h ls rs p r c cr n size s (Fits-Distinct _ f) refl small ne out in
            let apart = Fits-Distinct _ (split-Fits c.state large) in
            rw
              (
                load-ok h p (block_of (last_of null ls) r c) here.0 here.1,
                no_wrap,
                large,
                split_block-carved h ls rs p r c cr n size s (Fits-Distinct _ f) refl small ne out,
                modify-ok (carved h ls rs p r c cr n size s (Fits-Distinct _ f)) p
                    (block_of (last_of null ls) n (content size c.state)) here.0
                    (at_block _ ls ((n, left_over) ∷ (r, cr) ∷ rs) p (content size c.state) seg
                      apart).1
                    (λ x. record x { state = allocated }),
              )
              (returns (
                address,
                updated-IsSeg _ ls ((n, left_over) ∷ (r, cr) ∷ rs) p (content size c.state) seg
                    apart (content size allocated),
              ))
        | inr small ↦
            rw
              (
                load-ok h p (block_of (last_of null ls) r c) here.0 here.1,
                no_wrap,
                small,
                modify-ok h p (block_of (last_of null ls) r c) here.0 here.1
                    (λ x. record x { state = allocated }),
              )
              (returns (
                address,
                updated-IsSeg h ls ((r, cr) ∷ rs) p c s (Fits-Distinct _ f)
                    (content c.size allocated),
              ))
      ]
