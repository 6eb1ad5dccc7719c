-- ===== src/Allocator/Freed.antt =====
-- The list of blocks after one is freed.
use mathlib.Core.Path.{subst}
use hry_os.Base.{
  ℕ, zero, suc, ◌<◌, ◌≡◌, ◌≢◌, refl, sym, ap, ◌∙◌, inl, inr, true, false, [], ◌∷◌, ◌++◌, arith,
  if◌then◌else◌, Bool-cases, append_assoc, ◌==◌, ==_false, ==_refl, ==_true, length,
}
use mathlib.Core.Bool.{false≢true}
use hry_os.Memory.{Ptr, null, Memory, load-ok, ok}
use hry_os.Links.{first_of, has, has-append, IsSeg}
use hry_os.Allocator.Layout.{Fits-below}
use hry_os.Allocator.{Block, Allocator, is_listed}
use hry_os.Allocator.Layout.{Content, block_of, Blocks, edge, all_blocks, IsHeap, Fits}
use hry_os.Allocator.Release.{absorb, released}

-- The blocks once `p` is freed. A free block before it takes it in, and so the next one.
abbrev pub freed : Ptr → Ptr → Blocks → Blocks
freed tail p [] = []
freed tail p ((q, c) ∷ []) = if q == p then absorb tail q c.size [] else (q, c) ∷ []
freed tail p ((q, c) ∷ (r, d) ∷ bs) =
    let rest = freed tail p ((r, d) ∷ bs) in
    if q == p
    then absorb tail q c.size ((r, d) ∷ bs)
    else if r == p
    then released tail q c r d bs
    else (q, c) ∷ rest

-- A pointer to no block changes nothing.
pub freed-out : (tail p : Ptr) (bs : Blocks) → has p bs ≡ false → freed tail p bs ≡ bs
freed-out tail p [] o = refl
freed-out tail p ((q, c) ∷ []) o = let away : (q == p) ≡ false = ground arith in rw away
freed-out tail p ((q, c) ∷ (r, d) ∷ bs) o =
    let away : (q == p) ≡ false = ground arith in
    let away' : (r == p) ≡ false = ground arith in
    rw (away, away') (ap (λ xs. (q, c) ∷ xs) (freed-out tail p ((r, d) ∷ bs) (ground arith)))

pub freed-first :
    (tail p : Ptr) (c : Content) (bs : Blocks)
    → freed tail p ((p, c) ∷ bs) ≡ absorb tail p c.size bs
freed-first tail p c [] = rw (==_refl p)
freed-first tail p c ((r, d) ∷ bs) = rw (==_refl p)

freed-skip :
    (tail p q r : Ptr) (c d : Content) (bs : Blocks)
    → (q == p) ≡ false
    → (r == p) ≡ false
    → freed tail p ((q, c) ∷ (r, d) ∷ bs) ≡ (q, c) ∷ freed tail p ((r, d) ∷ bs)
freed-skip tail p q r c d bs e f = rw (e, f)

pub freed-behind :
    (tail q p : Ptr) (cq c : Content) (ls bs : Blocks)
    → has p (ls ++ (q, cq) ∷ []) ≡ false
    → freed tail p (ls ++ (q, cq) ∷ (p, c) ∷ bs) ≡ ls ++ released tail q cq p c bs
freed-behind tail q p cq c [] bs o =
    let away : (q == p) ≡ false = ground arith in rw (away, ==_refl p)
freed-behind tail q p cq c ((x, cx) ∷ []) bs o =
    freed-skip tail p x q cx cq ((p, c) ∷ bs) (ground arith) (ground arith)
    ∙ ap (λ xs. (x, cx) ∷ xs) (freed-behind tail q p cq c [] bs (ground arith))
freed-behind tail q p cq c ((x, cx) ∷ (y, cy) ∷ ls) bs o =
    freed-skip tail p x y cx cy (ls ++ (q, cq) ∷ (p, c) ∷ bs) (ground arith) (ground arith)
    ∙ ap (λ xs. (x, cx) ∷ xs) (freed-behind tail q p cq c ((y, cy) ∷ ls) bs (ground arith))

pub is_listed-has :
    (k p prev : ℕ) (h : Memory Block) (xs : Blocks)
    → IsSeg block_of h prev null xs
    → length xs < k
    → is_listed k p (first_of xs null) h ≡ ok (has p xs) h
unfolding is_listed
is_listed-has zero p prev h xs s fuel = absurd (omega arith)
is_listed-has (suc k) p prev h [] s fuel = refl
is_listed-has (suc k) p prev h ((q, c) ∷ xs) s fuel =
    let rest = is_listed-has k p q h xs s.2 (omega arith) in
    rw (==_false q null s.0) (elim (Bool-cases (p == q)) [
      | inl here ↦ rw here
      | inr away ↦ rw (away, load-ok h q _ s.0 s.1) rest
    ])

-- Where a block stands: first, or behind another.
pub data At (p : Ptr) (bs : Blocks) : Type 0 where
  first : (c : Content) (behind : Blocks) → bs ≡ (p, c) ∷ behind → At p bs
  later :
      (before : Blocks) (q : Ptr) (cq c : Content) (behind : Blocks)
      → bs ≡ before ++ (q, cq) ∷ (p, c) ∷ behind
      → At p bs

At-cons : (p q : Ptr) (c : Content) (bs : Blocks) → At p bs → At p ((q, c) ∷ bs)
At-cons p q c bs (first d behind e) = later [] q c d behind (ap (λ xs. (q, c) ∷ xs) e)
At-cons p q c bs (later before r cr d behind e) =
    later ((q, c) ∷ before) r cr d behind (ap (λ xs. (q, c) ∷ xs) e)

pub has-At : (p : Ptr) (bs : Blocks) → has p bs ≡ true → At p bs
has-At p [] i = absurd (false≢true i)
has-At p ((q, c) ∷ bs) i = elim (Bool-cases (p == q)) [
  | inl here ↦ first c bs (ap (λ r. (r, c) ∷ bs) (sym (==_true p q here)))
  | inr away ↦ At-cons p q c bs (has-At p bs (ground arith))
]

-- A block stands only once.
fits-once : (xs ys : Blocks) (p : Ptr) (c : Content) → Fits (xs ++ (p, c) ∷ ys) → has p xs ≡ false
fits-once xs ys p c f = elim (Bool-cases (has p xs)) [
  | inl i ↦ absurd (omega (arith, Fits-below xs ys p c p f i))
  | inr o ↦ o
]

pub alone :
    (h : Memory Block) (a : Allocator) (p : Ptr) (before : Blocks) (q : Ptr) (cq c : Content)
    (behind : Blocks)
    → IsHeap h a (before ++ (q, cq) ∷ (p, c) ∷ behind)
    → has p (before ++ (q, cq) ∷ []) ≡ false
alone h a p before q cq c behind is =
    fits-once (before ++ (q, cq) ∷ []) (behind ++ (a.tail, edge) ∷ []) p c (
      subst Fits
        (append_assoc before ((q, cq) ∷ (p, c) ∷ behind) ((a.tail, edge) ∷ [])
          ∙ sym (append_assoc before ((q, cq) ∷ []) ((p, c) ∷ behind ++ (a.tail, edge) ∷ [])))
        is.fits.2)

pub has-inner :
    (a : Allocator) (p : Ptr) (bs : Blocks)
    → p ≢ a.head
    → p ≢ a.tail
    → has p (all_blocks a bs) ≡ has p bs
has-inner a p bs off_head off_tail =
    let out_head : (p == a.head) ≡ false = ==_false p a.head off_head in
    let out_tail : (p == a.tail) ≡ false = ==_false p a.tail off_tail in
    rw (out_head, has-append p bs ((a.tail, edge) ∷ []), out_tail) (ground arith)
