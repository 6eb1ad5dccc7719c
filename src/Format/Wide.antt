-- ===== src/Format/Wide.antt =====
-- 64-bit numbers: printed as two halves.
use mathlib.Core.Path.{subst}
use native.Mathlib.Nat.{pow-suc}
use hry_os.Base.{
  ℕ, zero, suc, ◌+◌, ◌-◌, ◌*◌, ◌/◌, ◌%◌, ◌^◌, ◌<◌, ◌≤◌, ◌≡◌, ◌≢◌, refl, sym, ap, ◌∙◌, true, false,
  List, [], ◌∷◌, ◌++◌, arith, ◌==◌, ◌&&◌, ◌||◌, not, inl, inr, length, length-append,
  length-replicate, get_or, replicate, sub32,
}
use hry_os.Fallible.{Gives, Gives-bind}
use hry_os.Charconv.{hex, to_chars}
use hry_os.Charconv.Counted.{Counts, read}
use hry_os.Format.{wide, format_arg, print_value, format_wide, empty_buffer}
use hry_os.Format.Numbers.{value_of, Shown, to_chars-Shown, few_digits}

get_or-append_left :
    (xs ys : List ℕ) (j : ℕ) → j < length xs → get_or (xs ++ ys) j 0 ≡ get_or xs j 0
get_or-append_left [] ys j h = absurd (omega arith)
get_or-append_left (x ∷ xs) ys zero h = refl
get_or-append_left (x ∷ xs) ys (suc j) h = get_or-append_left xs ys j (omega arith)

get_or-append_right : (xs ys : List ℕ) (j : ℕ) → get_or (xs ++ ys) (length xs + j) 0 ≡ get_or ys j 0
get_or-append_right [] ys j = ap (λ (i : ℕ). get_or ys i 0) (omega arith)
get_or-append_right (x ∷ xs) ys j =
    let e : suc (length xs) + j ≡ suc (length xs + j) = omega arith in
    ap (λ (i : ℕ). get_or (x ∷ (xs ++ ys)) i 0) e ∙ get_or-append_right xs ys j

-- A text that follows another one counts for more by a power of 16.
value-prefix : (n : ℕ) (xs ys : List ℕ) → n ≤ length xs → read hex 0 n (xs ++ ys) ≡ read hex 0 n xs
value-prefix zero xs ys h = refl
value-prefix (suc n) xs ys h =
    rw (value-prefix n xs ys (omega arith), get_or-append_left xs ys (0 + n) (omega arith)) refl

read-append :
    (n : ℕ) (xs ys : List ℕ)
    → read hex 0 (length xs + n) (xs ++ ys) ≡ value_of hex xs * 16 ^ n + read hex 0 n ys
read-append zero xs ys =
    let e : length xs + 0 ≡ length xs = omega arith in
    rw (e, value-prefix (length xs) xs ys (omega arith)) (omega arith)
read-append (suc n) xs ys =
    let e : length xs + suc n ≡ suc (length xs + n) = omega arith in
    let at : get_or (xs ++ ys) (0 + (length xs + n)) 0 ≡ get_or ys (0 + n) 0 =
      ap (λ (i : ℕ). get_or (xs ++ ys) i 0) (omega arith)
      ∙ get_or-append_right xs ys n
      ∙ ap (λ (i : ℕ). get_or ys i 0) (omega arith) in
    rw (e, read-append n xs ys, at, pow-suc 16 n) (omega arith)

value-append :
    (xs ys : List ℕ) → value_of hex (xs ++ ys) ≡ value_of hex xs * 16 ^ length ys + value_of hex ys
value-append xs ys =
    ap (λ (n : ℕ). read hex 0 n (xs ++ ys)) (length-append xs ys) ∙ read-append (length ys) xs ys

zeros_at : (m j : ℕ) → j < m → get_or {A = ℕ} (replicate m b'0') j 0 ≡ b'0'
zeros_at zero j h = absurd (omega arith)
zeros_at (suc m) zero h = refl
zeros_at (suc m) (suc j) h = zeros_at m j (omega arith)

value-zeros : (n m : ℕ) → n ≤ m → read hex 0 n (replicate m b'0') ≡ 0
value-zeros zero m h = refl
value-zeros (suc n) m h = rw (value-zeros n m (omega arith), zeros_at m (0 + n) (omega arith)) refl

-- A text of `n` characters that stands for a number in base 16.
abbrev pub IsHex : ℕ → ℕ → List ℕ → Type 0
IsHex n v text = (length text ≡ n) × (value_of hex text ≡ v)

padded :
    (v : ℕ) (r : ℕ × List ℕ) (s : Shown hex v r)
    → v < 2 ^ 32
    → IsHex 8 v (replicate (sub32 8 r.0) b'0' ++ s.text)
padded v r s small =
    let most : r.0 ≤ 8 = counted s.counts in
    let m = sub32 8 r.0 in
    let pad : m ≡ 8 - r.0 = omega arith in
    (
      length-append (replicate m b'0') s.text
          ∙ omega (arith, length-replicate {A = ℕ} m b'0', s.size),
      value-append (replicate m b'0') s.text
          ∙ rw
              (ap (λ (n : ℕ). read hex 0 n (replicate m b'0')) (length-replicate {A = ℕ} m b'0')
                ∙ value-zeros m m (omega arith))
              (omega (arith, s.value)),
    )
  where
    counted : Counts hex v r.0 → r.0 ≤ 8
    counted (inl (ne, h)) = few_digits hex r.0 8 v h small
    counted (inr (z, o)) = omega (arith, o)

print_value-padded : (v : ℕ) → v < 2 ^ 32 → Gives (IsHex 8 v) (print_value hex true v)
unfolding print_value
print_value-padded v small =
    Gives-bind (Shown hex v) (IsHex 8 v) (to_chars (suc v) 0 32 v hex empty_buffer) _
      (to_chars-Shown hex v small) (λ r s. rw s.found (padded v r s small))

pub format_wide-padded : (num : ℕ) → num < 2 ^ 64 → Gives (IsHex 16 num) (format_wide hex true num)
unfolding format_wide
format_wide-padded num small =
    let high = num / 2 ^ 32 % 2 ^ 32 in
    let low = num % 2 ^ 32 in
    let always : (not (num / 2 ^ 32 == 0) || ((num / 2 ^ 32 == 0) && true)) ≡ true = ground arith in
    rw always (
      Gives-bind (IsHex 8 high) (IsHex 16 num) (print_value hex true high) _
        (print_value-padded high (omega arith))
        λ xs (sx, vx).
          Gives-bind (IsHex 8 low) (IsHex 16 num) (print_value hex true low) _
            (print_value-padded low (omega arith))
            λ ys (sy, vy). (
              length-append xs ys ∙ omega (arith, sx, sy),
              value-append xs ys ∙ rw (vx, vy, sy) (omega arith),
            ))

-- A 64-bit number with the place `{x0}` is printed as 16 characters that read as the number in base
-- 16, where a character that is no digit of base 16 counts as 2^64.
pub wide-padded :
    (num : ℕ) (rest : List ℕ)
    → num < 2 ^ 64
    → Gives (IsHex 16 num) (format_arg (wide num) (b'x' ∷ b'0' ∷ rest))
unfolding format_arg
wide-padded num rest small = format_wide-padded num small

-- What stands for a number whose lower half has `k` digits, none of them a leading zero.
abbrev pub Squeezed : ℕ → List ℕ → Type 0
Squeezed num text =
    (k : ℕ) × Counts hex (num % 2 ^ 32) k
    × (value_of hex text ≡ num / 2 ^ 32 * 16 ^ k + num % 2 ^ 32)

print_value-Shown :
    (v : ℕ)
    → v < 2 ^ 32
    → Gives (λ text. Counts hex v (length text) × (value_of hex text ≡ v)) (print_value hex false v)
unfolding print_value
print_value-Shown v small =
    Gives-bind (Shown hex v) (λ text. Counts hex v (length text) × (value_of hex text ≡ v))
      (to_chars (suc v) 0 32 v hex empty_buffer) _ (to_chars-Shown hex v small)
      (λ r s. rw s.found (subst (Counts hex v) (sym s.size) s.counts, s.value))

-- A 64-bit number of 2^32 or more with the place `{x}` is printed as its upper half followed by the
-- digits of its lower half without the zeros before them, so what is printed reads back as another
-- number where the lower half has fewer than 8 digits.
pub wide-Squeezed :
    (num next : ℕ) (rest : List ℕ)
    → num < 2 ^ 64
    → num / 2 ^ 32 ≢ 0
    → next ≢ b'0'
    → Gives (Squeezed num) (format_arg (wide num) (b'x' ∷ next ∷ rest))
unfolding format_arg format_wide
wide-Squeezed num next rest small tall other =
    let high = num / 2 ^ 32 % 2 ^ 32 in
    let low = num % 2 ^ 32 in
    let bare : (next == b'0') ≡ false = ground arith in
    let shown : (not (num / 2 ^ 32 == 0) || ((num / 2 ^ 32 == 0) && false)) ≡ true = ground arith in
    let whole : high ≡ num / 2 ^ 32 = omega arith in
    rw (bare, shown)
      (Gives-bind (λ text. Counts hex high (length text) × (value_of hex text ≡ high))
        (Squeezed num) (print_value hex false high) _ (print_value-Shown high (omega arith))
        λ xs (_, vx).
          Gives-bind (λ text. Counts hex low (length text) × (value_of hex text ≡ low))
            (Squeezed num) (print_value hex false low) _ (print_value-Shown low (omega arith))
            λ ys (cy, vy). (length ys, cy, value-append xs ys ∙ rw (vx, vy, whole) refl))
