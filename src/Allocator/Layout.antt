-- ===== src/Allocator/Layout.antt =====
-- The representation of the heap: the blocks between the head and the tail, in the order of their
-- addresses, each with room for its data before the next one.
use hry_os.Base.{ℕ, ◌+◌, ◌^◌, ◌≤◌, ◌<◌, ◌≡◌, ◌∙◌, Bool, true, false, ◌&&◌, [], ◌∷◌, ◌++◌, arith}
use hry_os.Memory.{Ptr, null, Memory}
use hry_os.Links.{Cells, has, has-append, has-middle, Distinct, IsSeg}
use hry_os.Allocator.{State, allocated, Block, Allocator, is_free_state, sizeof_block}

pub record Content : Type 0 where
  pub size : ℕ
  pub state : State

abbrev pub content : ℕ → State → Content
content n s = record { size = n; state = s }

abbrev pub block_of : Ptr → Ptr → Content → Block
block_of p n c = record { prev = p; next = n; size = c.size; state = c.state }

abbrev pub Blocks : Type 0
Blocks = Cells Content

-- What the head and the tail hold.
abbrev pub edge : Content
edge = content 0 allocated

abbrev pub all_blocks : Allocator → Blocks → Blocks
all_blocks a bs = (a.head, edge) ∷ (bs ++ (a.tail, edge) ∷ [])

-- The block at `p` ends before the first of `xs`.
abbrev pub EndsBefore : Ptr → Content → Blocks → Type 0
EndsBefore p c [] = Unit {0}
EndsBefore p c ((q, _) ∷ xs) = p + sizeof_block + c.size ≤ q

-- Every block has its place in the 32-bit address space and ends before the next one.
abbrev pub Fits : Blocks → Type 0
Fits [] = Unit {0}
Fits ((p, c) ∷ xs) = (p < 2 ^ 32) × EndsBefore p c xs × Fits xs

-- No two neighbours are free.
abbrev pub Coalesced : Blocks → Type 0
Coalesced [] = Unit {0}
Coalesced (_ ∷ []) = Unit {0}
Coalesced ((p, c) ∷ (q, d) ∷ xs) =
    ((is_free_state c.state && is_free_state d.state) ≡ false) × Coalesced ((q, d) ∷ xs)

pub record IsHeap (h : Memory Block) (a : Allocator) (bs : Blocks) : Type 0 where
  pub seg : IsSeg block_of h null null (all_blocks a bs)
  pub fits : Fits (all_blocks a bs)
  pub coalesced : Coalesced (all_blocks a bs)

pub Fits-above :
    (p : Ptr) (c : Content) (xs : Blocks) (q : Ptr)
    → Fits ((p, c) ∷ xs)
    → has q xs ≡ true
    → p + sizeof_block + c.size ≤ q
Fits-above p c [] q f i = cc
Fits-above p c ((r, d) ∷ xs) q f i = ground (arith, Fits-above r d xs q f.2)

-- Blocks that fit stand at different addresses.
pub Fits-Distinct : (xs : Blocks) → Fits xs → Distinct xs
Fits-Distinct [] f = tt
Fits-Distinct ((p, c) ∷ xs) f = (ground (arith, Fits-above p c xs p f), Fits-Distinct xs f.2)

pub Fits-left : (xs ys : Blocks) → Fits (xs ++ ys) → Fits xs
Fits-left [] ys f = tt
Fits-left ((p, c) ∷ []) ys f = (f.0, tt, tt)
Fits-left ((p, c) ∷ (q, d) ∷ xs) ys f = (f.0, f.1, Fits-left ((q, d) ∷ xs) ys f.2)

pub Fits-right : (xs ys : Blocks) → Fits (xs ++ ys) → Fits ys
Fits-right [] ys f = f
Fits-right ((p, c) ∷ xs) ys f = Fits-right xs ys f.2

-- Two runs of blocks fit together where the last of the first ends before the first of the second;
-- a run that begins at the same address may take the place of the second.
pub Fits-replace :
    (xs ys zs : Blocks) (p : Ptr) (c d : Content)
    → Fits (xs ++ (p, c) ∷ ys)
    → Fits ((p, d) ∷ zs)
    → Fits (xs ++ (p, d) ∷ zs)
Fits-replace [] ys zs p c d f g = g
Fits-replace ((q, e) ∷ []) ys zs p c d f g = (f.0, f.1, g)
Fits-replace ((q, e) ∷ (r, k) ∷ xs) ys zs p c d f g =
    (f.0, f.1, Fits-replace ((r, k) ∷ xs) ys zs p c d f.2 g)

pub Fits-below :
    (xs ys : Blocks) (p : Ptr) (c : Content) (q : Ptr)
    → Fits (xs ++ (p, c) ∷ ys)
    → has q xs ≡ true
    → q + sizeof_block ≤ p
Fits-below [] ys p c q f i = cc
Fits-below ((r, e) ∷ xs) ys p c q f i = ground (
  arith,
  Fits-below xs ys p c q f.2,
  Fits-above r e (xs ++ (p, c) ∷ ys) p f,
  has-middle p c xs ys,
)

-- No block stands between two neighbours.
pub not-has-between :
    (xs ys : Blocks) (p r : Ptr) (c d : Content) (n : Ptr)
    → Fits (xs ++ (p, c) ∷ (r, d) ∷ ys)
    → p < n
    → n < r
    → has n (xs ++ (p, c) ∷ (r, d) ∷ ys) ≡ false
not-has-between xs ys p r c d n f lo hi =
    has-append n xs ((p, c) ∷ (r, d) ∷ ys)
    ∙ ground (
      arith,
      Fits-below xs ((r, d) ∷ ys) p c n f,
      Fits-above r d ys n (Fits-right xs ((p, c) ∷ (r, d) ∷ ys) f).2,
    )

pub Coalesced-right : (xs ys : Blocks) → Coalesced (xs ++ ys) → Coalesced ys
Coalesced-right [] ys f = f
Coalesced-right ((p, c) ∷ []) [] f = tt
Coalesced-right ((p, c) ∷ []) ((q, d) ∷ ys) f = f.1
Coalesced-right ((p, c) ∷ (q, d) ∷ xs) ys f = Coalesced-right ((q, d) ∷ xs) ys f.1

-- A block may give way to others that begin with a block that is free only if it was.
pub Coalesced-replace :
    (xs ys zs : Blocks) (p : Ptr) (c d : Content)
    → Coalesced (xs ++ (p, c) ∷ ys)
    → Coalesced ((p, d) ∷ zs)
    → (is_free_state d.state ≡ true → is_free_state c.state ≡ true)
    → Coalesced (xs ++ (p, d) ∷ zs)
Coalesced-replace [] ys zs p c d f g h = g
Coalesced-replace ((q, e) ∷ []) ys zs p c d f g h = (ground arith, g)
Coalesced-replace ((q, e) ∷ (r, k) ∷ xs) ys zs p c d f g h =
    (f.0, Coalesced-replace ((r, k) ∷ xs) ys zs p c d f.1 g h)

abbrev pub head_free : Blocks → Bool
head_free [] = false
head_free ((_, c) ∷ xs) = is_free_state c.state

-- Other blocks may follow, if the first of them is free only where the old one was.
pub Coalesced-glue :
    (xs ys zs : Blocks) (p : Ptr) (c : Content)
    → Coalesced (xs ++ (p, c) ∷ ys)
    → Coalesced zs
    → (head_free zs ≡ true → is_free_state c.state ≡ true)
    → Coalesced (xs ++ zs)
Coalesced-glue [] ys zs p c f g h = g
Coalesced-glue ((q, e) ∷ []) ys [] p c f g h = tt
Coalesced-glue ((q, e) ∷ []) ys ((r, d) ∷ zs) p c f g h = (ground arith, g)
Coalesced-glue ((q, e) ∷ (r, k) ∷ xs) ys zs p c f g h =
    (f.0, Coalesced-glue ((r, k) ∷ xs) ys zs p c f.1 g h)
