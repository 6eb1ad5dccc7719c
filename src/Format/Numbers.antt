-- ===== src/Format/Numbers.antt =====
-- Numbers in a text: what is printed reads back as the number.
use mathlib.Core.Path.{subst}
use native.Mathlib.Nat.{pow-suc, pow-zero}
use hry_os.Base.{
  ℕ, zero, suc, ◌+◌, ◌*◌, ◌/◌, ◌^◌, ◌<◌, ◌≤◌, ◌≡◌, ◌≢◌, refl, ap, ◌∙◌, true, false, some, List, [],
  ◌∷◌, arith, ◌==◌, inr, length, length-replicate, take, get_or, replicate,
}
use hry_os.Fallible.{Gives, Gives-mono, Gives-bind}
use hry_os.Charconv.{NumBase, bin, oct, dec, hex, get_base, to_chars}
use hry_os.Charconv.Digits.{Converted, too_long, written, to_chars-Converted}
use hry_os.Charconv.Counted.{IsDigit-visible, HasDigits, Counts, read}
use hry_os.Format.{until_zero, format_unsigned, empty_buffer}

-- The number that a text stands for.
abbrev pub value_of : NumBase → List ℕ → ℕ
value_of base text = read base 0 (length text) text

-- A zero ends the text after `n` characters.
until_zero-take :
    (n : ℕ) (xs : List ℕ)
    → n < length xs
    → ((j : ℕ) → j < n → get_or xs j 0 ≢ 0)
    → get_or xs n 0 ≡ 0
    → until_zero xs ≡ some (take n xs)
unfolding until_zero
until_zero-take n [] room visible z = absurd (omega arith)
until_zero-take zero (x ∷ xs) room visible z =
    let last : (x == 0) ≡ true = ground arith in rw last refl
until_zero-take (suc n) (x ∷ xs) room visible z =
    let more : (x == 0) ≡ false = ground (arith, visible 0) in
    rw (more, until_zero-take n xs (omega arith) (λ j few. visible (suc j) (omega arith)) z) refl

length-take : (n : ℕ) (xs : List ℕ) → n ≤ length xs → length (take n xs) ≡ n
length-take zero xs h = refl
length-take (suc n) [] h = absurd (omega arith)
length-take (suc n) (x ∷ xs) h = ap suc (length-take n xs (omega arith))

get_or-take : (n j : ℕ) (xs : List ℕ) → j < n → get_or (take n xs) j 0 ≡ get_or xs j 0
get_or-take zero j xs h = absurd (omega arith)
get_or-take (suc n) j [] h = refl
get_or-take (suc n) zero (x ∷ xs) h = refl
get_or-take (suc n) (suc j) (x ∷ xs) h = get_or-take n j xs (omega arith)

read-agrees :
    (base : NumBase) (first n : ℕ) (xs ys : List ℕ)
    → ((j : ℕ) → j < n → get_or xs (first + j) 0 ≡ get_or ys (first + j) 0)
    → read base first n xs ≡ read base first n ys
read-agrees base first zero xs ys same = refl
read-agrees base first (suc n) xs ys same =
    rw (read-agrees base first n xs ys (λ j few. same j (omega arith)), same n (omega arith)) refl

divided : (base : NumBase) (v p : ℕ) → v < get_base base * p → v / get_base base < p
divided bin v p h = omega arith
divided oct v p h = omega arith
divided dec v p h = omega arith
divided hex v p h = omega arith

-- A number below a power of the base has at most that many digits.
pub few_digits : (base : NumBase) (k b v : ℕ) → HasDigits base k v → v < get_base base ^ b → k ≤ b
few_digits base zero b v h small = omega arith
few_digits base (suc k) zero v h small =
    absurd (h.0 (let one : get_base base ^ 0 ≡ 1 = pow-zero (get_base base) in omega arith))
few_digits base (suc k) (suc b) v h small =
    let p = get_base base ^ b in
    let below : v < get_base base * p =
      subst (λ (m : ℕ). v < m) (pow-suc (get_base base) b ∙ grind arith) small in
    omega (arith, few_digits base k b (v / get_base base) h.1 (divided base v p below))

word-digits : (base : NumBase) (v : ℕ) → v < 2 ^ 32 → v < get_base base ^ 32
word-digits bin v h = omega arith
word-digits oct v h = omega arith
word-digits dec v h = omega arith
word-digits hex v h = omega arith

blank : (m j : ℕ) → get_or {A = ℕ} (replicate m 0) j 0 ≡ 0
blank zero j = refl
blank (suc m) zero = refl
blank (suc m) (suc j) = blank m j

-- What `to_chars` leaves in the buffer of a formatter, as a text of `k` digits.
pub record Shown (base : NumBase) (v : ℕ) (r : ℕ × List ℕ) : Type 0 where
  pub text : List ℕ
  pub found : until_zero r.1 ≡ some text
  pub size : length text ≡ r.0
  pub value : value_of base text ≡ v
  pub some_digit : 0 < r.0
  pub counts : Counts base v r.0

pub Converted-Shown :
    (base : NumBase) (m v : ℕ) (r : ℕ × List ℕ)
    → v < get_base base ^ m
    → Converted base 0 m v (replicate (suc m) 0) r
    → Shown base v r
Converted-Shown base m v r small (too_long k h long e) =
    absurd (omega (arith, few_digits base k m v h small))
Converted-Shown base m v r small (written some_digit few counts w) =
    let n = r.0 in
    let long : length r.1 ≡ suc m = w.size ∙ length-replicate {A = ℕ} (suc m) 0 in
    let room : n < length r.1 = omega arith in
    let le : n ≤ length r.1 = omega arith in
    let same = λ (j : ℕ) (h : j < n). get_or-take n j r.1 h in
    record {
      text = take n r.1;
      found =
          until_zero-take n r.1 room
            (λ j h.
              subst (λ (i : ℕ). get_or r.1 i 0 ≢ 0) (omega arith)
                (IsDigit-visible base (get_or r.1 (0 + j) 0) (w.digits j h)))
            (w.rest n (inr (ground arith)) ∙ blank (suc m) n);
      size = length-take n r.1 le;
      value =
          ap (λ (m : ℕ). read base 0 m (take n r.1)) (length-take n r.1 le)
          ∙ read-agrees base 0 n (take n r.1) r.1 (λ j h.
            subst (λ (i : ℕ). get_or (take n r.1) i 0 ≡ get_or r.1 i 0) (omega arith) (same j h))
          ∙ w.value;
      some_digit = some_digit;
      counts = counts;
    }

pub to_chars-Shown :
    (base : NumBase) (v : ℕ)
    → v < 2 ^ 32
    → Gives (Shown base v) (to_chars (suc v) 0 32 v base empty_buffer)
to_chars-Shown base v small =
    Gives-mono (to_chars (suc v) 0 32 v base empty_buffer)
      (to_chars-Converted (suc v) 0 32 v base empty_buffer (omega arith) (omega arith)
        (omega arith))
      (λ r c. Converted-Shown base 32 v r (word-digits base v small) c)

pub format_unsigned-reads :
    (base : NumBase) (v : ℕ)
    → v < 2 ^ 32
    → Gives (λ text. value_of base text ≡ v) (format_unsigned base v)
unfolding format_unsigned
format_unsigned-reads base v small =
    Gives-bind (Shown base v) (λ text. value_of base text ≡ v)
      (to_chars (suc v) 0 32 v base empty_buffer) (λ r. until_zero r.1)
      (to_chars-Shown base v small) (λ r s. rw s.found s.value)
