-- ===== src/Allocator/Align.antt =====
-- The arithmetic of `align_to` and `calc_size_between`.
use Prim.Native.Nat.{bit_and}
use hry_os.Base.{ℕ, ◌+◌, ◌-◌, ◌*◌, ◌/◌, ◌%◌, ◌^◌, ◌≤◌, ◌<◌, ◌≡◌, ◌∙◌, ap, arith, add32, sub32}
use hry_os.Base.Bits.{and_even, and_ones}
use hry_os.Allocator.{align_to, aligned, calc_size_between, sizeof_block}

-- `& ~7` on a 32-bit number.
and_not_seven : (x : ℕ) → x < 2 ^ 32 → bit_and x (2 ^ 32 - 8) ≡ 8 * (x / 8)
and_not_seven x h =
    and_even x (2 ^ 31 - 4)
    ∙ ap (λ k. 2 * k) (and_even (x / 2) (2 ^ 30 - 2))
    ∙ ap (λ k. 2 * (2 * k)) (and_even (x / 2 / 2) (2 ^ 29 - 1))
    ∙ ap (λ k. 2 * (2 * (2 * k))) (and_ones 29 (x / 2 / 2 / 2) (omega arith))
    ∙ omega arith

-- `align_to(value, 8)` as arithmetic: the next multiple of 8, until the sum wraps.
pub align_to-eight : (v : ℕ) → v < 2 ^ 32 → align_to v aligned ≡ 8 * ((v + 7) % 2 ^ 32 / 8)
unfolding align_to
align_to-eight v h =
    let no_carry : sub32 (add32 v 8) 1 ≡ (v + 7) % 2 ^ 32 = omega arith in
    ap (λ k. bit_and k (2 ^ 32 - 8)) no_carry ∙ and_not_seven ((v + 7) % 2 ^ 32) (omega arith)

-- `align_to` a multiple of 8 gives the least one that is not below the value, for values of at most
-- 2^32 - 8.
pub align_to_lem :
    (v : ℕ)
    → v ≤ 2 ^ 32 - 8
    → (v ≤ align_to v aligned) × (align_to v aligned < v + 8) × (align_to v aligned % 8 ≡ 0)
align_to_lem v h =
    let e = align_to-eight v (omega arith) in (omega (arith, e), omega (arith, e), omega (arith, e))

-- `align_to` a multiple of 8 gives 0 for a 32-bit value above 2^32 - 8.
pub align_to_wraps : (v : ℕ) → 2 ^ 32 - 8 < v → v < 2 ^ 32 → align_to v aligned ≡ 0
align_to_wraps v h k = omega (arith, align_to-eight v k)

-- Where one block header ends at or before another, below 2^32, the size between them never exceeds
-- the room that there is, falls short of it by less than a header, and does not depend on the order
-- of the two.
pub calc_size_between-fits :
    (p q : ℕ)
    → p + sizeof_block ≤ q
    → q < 2 ^ 32
    → (p + sizeof_block + calc_size_between p q ≤ q)
      × (q < p + sizeof_block + calc_size_between p q + sizeof_block)
      × (calc_size_between q p ≡ calc_size_between p q)
unfolding calc_size_between
calc_size_between-fits p q h k = ground arith
