-- ===== src/Stack/Pushed.antt =====
-- What is pushed is on top of the stack, and what was there before stays.
use hry_os.Base.{
  ℕ, zero, suc, ◌+◌, ◌-◌, ◌*◌, ◌^◌, ◌<◌, ◌≤◌, ◌≡◌, refl, ap, true, ◌∙◌, List, [], ◌∷◌, length,
  arith, leb, ltb, sub32, get_or, set, length-set, get_or-set_self, get_or-set_ne,
}
use hry_os.Fallible.{Gives, Gives-mono, Gives-bind}
use hry_os.Stack.{Stack, write_bytes, push, u32_bytes}

-- The bytes after a write of `bs` at `o`.
record Written (o : ℕ) (bs xs ys : List ℕ) : Type 0 where
  size : length ys ≡ length xs
  here : (i : ℕ) → i < length bs → get_or ys (o + i) 0 ≡ get_or bs i 0
  below : (j : ℕ) → j < o → get_or ys j 0 ≡ get_or xs j 0
  above : (j : ℕ) → o + length bs ≤ j → get_or ys j 0 ≡ get_or xs j 0

-- The first byte is written, and the others behind it.
first :
    (o b : ℕ) (bs xs ys : List ℕ)
    → o < length xs
    → Written (suc o) bs (set xs o b) ys
    → (i : ℕ) → i < length (b ∷ bs)
    → get_or ys (o + i) 0 ≡ get_or (b ∷ bs) i 0
first o b bs xs ys inside w zero lt =
    let here : o + 0 ≡ o = omega arith in
    rw here (w.below o (omega arith) ∙ get_or-set_self xs o b 0 inside)
first o b bs xs ys inside w (suc i) lt =
    let next : o + suc i ≡ suc o + i = omega arith in rw next (w.here i (omega arith))

write_bytes-Written :
    (o : ℕ) (bs xs : List ℕ)
    → o + length bs ≤ length xs
    → Gives (Written o bs xs) (write_bytes o bs xs)
unfolding write_bytes
write_bytes-Written o [] xs room = record {
  size = refl;
  here = λ i lt. absurd (omega arith);
  below = λ j lt. refl;
  above = λ j le. refl;
}
write_bytes-Written o (b ∷ bs) xs room =
    let inside : ltb o (length xs) ≡ true = ground arith in
    let room' : suc o + length bs ≤ length (set xs o b) = omega (arith, length-set xs o b) in
    rw inside (
      Gives-mono (write_bytes (suc o) bs (set xs o b))
        (write_bytes-Written (suc o) bs (set xs o b) room')
        λ ys w. record {
          size = w.size ∙ length-set xs o b;
          here = first o b bs xs ys (omega arith) w;
          below = λ j lt. w.below j (omega arith) ∙ get_or-set_ne xs b 0 (omega arith);
          above = λ j le. w.above j (omega arith) ∙ get_or-set_ne xs b 0 (omega arith);
        })

-- The bytes of a stack lie below 2^32, and its top among them or at their end.
pub record IsStack (s : Stack) : Type 0 where
  pub addressable : s.bottom + length s.bytes < 2 ^ 32
  pub above_bottom : s.bottom ≤ s.top
  pub below_end : s.top ≤ s.bottom + length s.bytes

abbrev pub byte_at : Stack → ℕ → ℕ
byte_at s a = get_or s.bytes (a - s.bottom) 0

-- The `uint32_t` at an address.
abbrev pub word_at : Stack → ℕ → ℕ
word_at s a =
    byte_at s a
    + 2 ^ 8 * byte_at s (a + 1)
    + 2 ^ 16 * byte_at s (a + 2)
    + 2 ^ 24 * byte_at s (a + 3)

pub record IsPushed (v : ℕ) (s t : Stack) : Type 0 where
  pub stack : IsStack t
  pub bottom : t.bottom ≡ s.bottom
  pub top : t.top + 4 ≡ s.top
  pub word : word_at t t.top ≡ v
  pub kept : (a : ℕ) → s.top ≤ a → byte_at t a ≡ byte_at s a

-- The four bytes make the number.
word-Written :
    (v : ℕ) (s : Stack) (bytes : List ℕ)
    → s.bottom + 4 ≤ s.top
    → v < 2 ^ 32
    → Written (s.top - 4 - s.bottom) (u32_bytes v) s.bytes bytes
    → word_at (record s { bytes = bytes; top = s.top - 4 }) (s.top - 4) ≡ v
word-Written v s bytes room bound w =
    let o = s.top - 4 - s.bottom in
    let a0 : s.top - 4 - s.bottom ≡ o + 0 = omega arith in
    let a1 : s.top - 4 + 1 - s.bottom ≡ o + 1 = omega arith in
    let a2 : s.top - 4 + 2 - s.bottom ≡ o + 2 = omega arith in
    let a3 : s.top - 4 + 3 - s.bottom ≡ o + 3 = omega arith in
    let b0 = ap (λ j. get_or bytes j 0) a0 ∙ w.here 0 (omega arith) in
    let b1 = ap (λ j. get_or bytes j 0) a1 ∙ w.here 1 (omega arith) in
    let b2 = ap (λ j. get_or bytes j 0) a2 ∙ w.here 2 (omega arith) in
    let b3 = ap (λ j. get_or bytes j 0) a3 ∙ w.here 3 (omega arith) in omega (arith, b0, b1, b2, b3)

pub push-IsPushed :
    (v : ℕ) (s : Stack)
    → IsStack s
    → v < 2 ^ 32
    → s.bottom + 4 ≤ s.top
    → Gives (IsPushed v s) (push (u32_bytes v) s)
unfolding push
push-IsPushed v s is bound room =
    let new_top : sub32 s.top 4 ≡ s.top - 4 = omega (arith, is.addressable, is.below_end) in
    let fits : leb s.bottom (s.top - 4) ≡ true = ground arith in
    rw (new_top, fits)
      (Gives-bind (Written (s.top - 4 - s.bottom) (u32_bytes v) s.bytes) (IsPushed v s)
        (write_bytes (s.top - 4 - s.bottom) (u32_bytes v) s.bytes) _
        (write_bytes-Written (s.top - 4 - s.bottom) (u32_bytes v) s.bytes
          (omega (arith, is.below_end)))
        (λ bytes w. record {
          stack = record {
            addressable = omega (arith, is.addressable, w.size);
            above_bottom = omega arith;
            below_end = omega (arith, is.below_end, w.size);
          };
          bottom = refl;
          top = omega arith;
          word = word-Written v s bytes room bound w;
          kept = λ a le. w.above (a - s.bottom) (omega arith);
        }))
