-- ===== src/Allocator/Held.antt =====
-- Blocks that clients hold: no operation on the list of blocks takes them away.
use mathlib.Core.Path.{refl}
use hry_os.Base.{
  ℕ, ◌+◌, ◌<◌, ◌≤◌, ◌≡◌, ◌≢◌, sym, ap, ◌∙◌, ◌⊎◌, inl, inr, Bool, true, false, [], ◌∷◌, arith,
  if◌then◌else◌, Bool-cases, ◌&&◌, ◌||◌, ◌==◌, not, leb,
}
use hry_os.Memory.{Ptr, null}
use hry_os.Links.{first_of}
use hry_os.Allocator.{is_free_state, sizeof_block, calc_size_between}
use hry_os.Allocator.Layout.{Content, Blocks, Fits}
use hry_os.Allocator.Find.{fitting, carve, place}
use hry_os.Allocator.Release.{absorb, released}
use hry_os.Allocator.Freed.{freed}

-- Some client holds the block at `p`, with `n` bytes of data.
abbrev pub is_taken : Ptr → ℕ → Blocks → Bool
is_taken p n [] = false
is_taken p n ((q, c) ∷ bs) =
    ((p == q) && ((n == c.size) && not (is_free_state c.state))) || is_taken p n bs

pub place-keeps :
    (size : ℕ) (tail q : Ptr) (n : ℕ) (bs : Blocks)
    → is_taken q n bs ≡ true
    → is_taken q n (place size tail bs).1 ≡ true
place-keeps size tail q n [] i = i
place-keeps size tail q n ((p, c) ∷ bs) i =
    let rest = place-keeps size tail q n bs in
    elim (Bool-cases (fitting size c)) [
      | inl hit ↦ elim (Bool-cases (leb (size + sizeof_block) c.size)) [
        | inl room ↦ rw (hit, room) (ground arith)
        | inr tight ↦ rw (hit, tight) (ground arith)
      ]
      | inr miss ↦ rw miss (ground arith)
    ]

-- The block that is handed out has room for the size and belongs to the client from then on.
pub place-serves :
    (size : ℕ) (tail : Ptr) (bs : Blocks)
    → ((place size tail bs).0 == null) ≡ false
    → (n : ℕ) × (size ≤ n) × (is_taken (place size tail bs).0 n (place size tail bs).1 ≡ true)
place-serves size tail [] i = absurd (ground arith)
place-serves size tail ((p, c) ∷ bs) i = elim (Bool-cases (fitting size c)) [
  | inl hit ↦ elim (Bool-cases (leb (size + sizeof_block) c.size)) [
    | inl room ↦ rw (hit, room) (size, omega arith, ground arith)
    | inr tight ↦ rw (hit, tight) (c.size, ground arith, ground arith)
  ]
  | inr miss ↦
      let (n, big, there) = place-serves size tail bs (
        sym (
          ap
            (λ x.
              let taken : Ptr × Blocks =
                if x
                then (p, carve size tail p c bs)
                else ((place size tail bs).0, (p, c) ∷ (place size tail bs).1) in
              taken.0 == null)
            miss)
        ∙ i) in
      rw miss (n, big, ground arith)
]

absorb-keeps :
    (tail p q : Ptr) (m n : ℕ) (bs : Blocks)
    → is_taken q n bs ≡ true
    → is_taken q n (absorb tail p m bs) ≡ true
absorb-keeps tail p q m n [] i = absurd (ground arith)
absorb-keeps tail p q m n ((r, c) ∷ bs) i = elim (Bool-cases (is_free_state c.state)) [
  | inl e ↦ rw e (ground arith)
  | inr e ↦ rw e (ground arith)
]

released-keeps :
    (tail q p : Ptr) (cq c : Content) (t : Ptr) (n : ℕ) (bs : Blocks)
    → t ≢ p
    → is_taken t n ((q, cq) ∷ (p, c) ∷ bs) ≡ true
    → is_taken t n (released tail q cq p c bs) ≡ true
released-keeps tail q p cq c t n bs ne i = elim (Bool-cases (is_free_state cq.state)) [
  | inl e ↦
      rw e (absorb-keeps tail q t (calc_size_between q (first_of bs tail)) n bs (ground arith))
  | inr e ↦ rw e (ground (arith, absorb-keeps tail p t c.size n bs))
]

pub freed-keeps :
    (tail p q : Ptr) (n : ℕ) (bs : Blocks)
    → q ≢ p
    → is_taken q n bs ≡ true
    → is_taken q n (freed tail p bs) ≡ true
freed-keeps tail p q n [] ne i = i
freed-keeps tail p q n ((r, c) ∷ []) ne i = elim (Bool-cases (r == p)) [
  | inl e ↦ absurd (ground arith)
  | inr e ↦ rw e i
]
freed-keeps tail p q n ((r, c) ∷ (s, d) ∷ bs) ne i = elim (Bool-cases (r == p)) [
  | inl e ↦ rw e (absorb-keeps tail r q c.size n ((s, d) ∷ bs) (ground arith))
  | inr e ↦ elim (Bool-cases (s == p)) [
    | inl e' ↦ rw (e, e') (released-keeps tail r s c d q n bs (ground arith) i)
    | inr e' ↦ rw (e, e') (ground (arith, freed-keeps tail p q n ((s, d) ∷ bs) ne))
  ]
]

taken_above :
    (r : Ptr) (c : Content) (bs : Blocks) (t : Ptr) (k : ℕ)
    → Fits ((r, c) ∷ bs)
    → is_taken t k bs ≡ true
    → r + sizeof_block + c.size ≤ t
taken_above r c [] t k f i = absurd (ground arith)
taken_above r c ((q, d) ∷ bs) t k f i = ground (arith, taken_above q d bs t k f.2)

-- Two different blocks of a well-formed heap that clients hold share no byte: one ends before the
-- header of the other.
taken_apart :
    (p q : Ptr) (m n : ℕ) (bs : Blocks)
    → Fits bs
    → is_taken p m bs ≡ true
    → is_taken q n bs ≡ true
    → p ≢ q
    → (p + sizeof_block + m ≤ q) ⊎ (q + sizeof_block + n ≤ p)
taken_apart p q m n [] f i j ne = absurd (ground arith)
taken_apart p q m n ((r, c) ∷ bs) f i j ne =
    let above : (t : Ptr) (k : ℕ) → is_taken t k bs ≡ true → r + sizeof_block + c.size ≤ t =
      λ t k there. taken_above r c bs t k f there in
    ground (arith, above p m, above q n, taken_apart p q m n bs f.2)

place-skip :
    (size : ℕ) (tail p : Ptr) (c : Content) (bs : Blocks)
    → fitting size c ≡ false
    → (place size tail ((p, c) ∷ bs)).0 ≡ (place size tail bs).0
place-skip size tail p c bs miss = rw miss refl

place-take :
    (size : ℕ) (tail p : Ptr) (c : Content) (bs : Blocks)
    → fitting size c ≡ true
    → (place size tail ((p, c) ∷ bs)).0 ≡ p
place-take size tail p c bs hit = rw hit refl

place-above :
    (size : ℕ) (tail r : Ptr) (d : Content) (bs : Blocks)
    → Fits ((r, d) ∷ bs)
    → ((place size tail bs).0 == null) ≡ false
    → r < (place size tail bs).0
place-above size tail r d [] f i = absurd (ground arith)
place-above size tail r d ((p, c) ∷ bs) f i = elim (Bool-cases (fitting size c)) [
  | inl hit ↦ omega (arith, place-take size tail p c bs hit, f.1)
  | inr miss ↦
      let skip = place-skip size tail p c bs miss in
      omega
        (arith, skip, f.1, place-above size tail p c bs f.2 (ap (λ q. q == null) (sym skip) ∙ i))
]

-- The block that is handed out is none that a client holds.
pub place-fresh :
    (size : ℕ) (tail q : Ptr) (n : ℕ) (bs : Blocks)
    → Fits bs
    → is_taken q n bs ≡ true
    → ((place size tail bs).0 == null) ≡ false
    → (place size tail bs).0 ≢ q
place-fresh size tail q n [] f held i = absurd (ground arith)
place-fresh size tail q n ((p, c) ∷ bs) f held i = elim (Bool-cases (fitting size c)) [
  | inl hit ↦
      let behind : is_taken q n bs ≡ true = ground arith in
      λ e.
        absurd (omega (arith, taken_above p c bs q n f behind, place-take size tail p c bs hit, e))
  | inr miss ↦
      let skip = place-skip size tail p c bs miss in
      let found : ((place size tail bs).0 == null) ≡ false = ap (λ r. r == null) (sym skip) ∙ i in
      elim (Bool-cases (is_taken q n bs)) [
        | inl behind ↦ λ e. place-fresh size tail q n bs f.2 behind found (sym skip ∙ e)
        | inr here ↦
            let at : q ≡ p = ground arith in
            λ e. absurd (omega (arith, place-above size tail p c bs f found, skip, at, e))
      ]
]
