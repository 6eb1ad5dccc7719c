-- ===== src/Charconv/SignedLoop.antt =====
-- The loop over the digits of a signed number is the loop over those of its absolute value.
use hry_os.Base.{
  ℕ, zero, suc, ◌+◌, ◌-◌, ◌/◌, ◌%◌, ◌^◌, ◌<◌, ◌≤◌, ◌≡◌, refl, true, false, none, some, List, Option,
  arith, if◌then◌else◌, ltb, ltb→lt, ◌==◌, Bool-cases, inl, inr, length, set, sub32,
}
use hry_os.Fallible.{Gives, Gives-bind, ◌>>=◌}
use hry_os.Charconv.{
  NumBase, bin, oct, dec, hex, get_base, digits_count, digit_char, write_digits, Width, w8, w16,
  w32, modulus, is_negative, extend, digits_count_signed, write_digits_signed, to_chars_from,
}
use hry_os.Charconv.Digits.{Converted, does_not_fit, writes, some_digits}
use hry_os.Charconv.Counted.{HasDigits, Counts, digits_count-HasDigits}

smaller :
    (w : Width) (base : NumBase) (v : ℕ)
    → is_negative w v ≡ false
    → (extend w v ≡ v)
      × (v / get_base base % modulus w ≡ v / get_base base)
      × (is_negative w (v / get_base base) ≡ false)
smaller w8 bin v h = ground arith
smaller w8 oct v h = ground arith
smaller w8 dec v h = ground arith
smaller w8 hex v h = ground arith
smaller w16 bin v h = ground arith
smaller w16 oct v h = ground arith
smaller w16 dec v h = ground arith
smaller w16 hex v h = ground arith
smaller w32 bin v h = ground arith
smaller w32 oct v h = ground arith
smaller w32 dec v h = ground arith
smaller w32 hex v h = ground arith

-- On a number that is not negative, the loop is that of unsigned numbers.
pub write_digits_signed-eq :
    (w : Width) (fuel : ℕ) (base : NumBase) (first k it it' v : ℕ) (xs : List ℕ)
    → is_negative w v ≡ false
    → HasDigits base k v
    → first + k ≤ 2 ^ 32
    → (0 < k → (it + 1 ≡ first + k) × (it' + 1 ≡ first + k))
    → write_digits_signed w fuel base it v xs ≡ write_digits fuel base it' v xs
unfolding write_digits_signed write_digits
write_digits_signed-eq w zero base first k it it' v xs small h bound at = refl
write_digits_signed-eq w (suc f) base first zero it it' v xs small h bound at =
    let done : (v == 0) ≡ true = ground arith in rw done refl
write_digits_signed-eq w (suc f) base first (suc k) it it' v xs small h bound at =
    let more : (v == 0) ≡ false = ground (arith, h) in
    let (same, quotient, small') = smaller w base v small in
    let here : it' ≡ it = omega (arith, at (omega arith)) in
    let rest =
      write_digits_signed-eq w f base first k (sub32 it 1) (it - 1) (v / get_base base)
        (set xs it (digit_char (v % get_base base))) small' h.1 (omega arith)
        (λ some_left. (omega (arith, at (omega arith)), omega (arith, at (omega arith)))) in
    elim (Bool-cases (ltb it (length xs))) [
      | inr out ↦ rw (more, here, out) refl
      | inl inside ↦ rw (more, here, inside, same, quotient) rest
    ]

Counts-pos : (base : NumBase) (v k : ℕ) → Counts base v k → 0 < k
Counts-pos base v k (inl (ne, h)) = some_digits base k v h ne
Counts-pos base v k (inr (z, o)) = omega (arith, o)

same_loop :
    (w : Width) (fuel : ℕ) (base : NumBase) (first k v : ℕ) (xs : List ℕ)
    → is_negative w v ≡ false
    → Counts base v k
    → first + k ≤ 2 ^ 32
    → write_digits_signed w fuel base (first + k - 1) v xs
      ≡ write_digits fuel base (first + k - 1) v xs
same_loop w fuel base first k v xs small (inl (ne, h)) bound =
    let some_digit = some_digits base k v h ne in
    write_digits_signed-eq w fuel base first k (first + k - 1) (first + k - 1) v xs small h bound
      (λ _. (omega arith, omega arith))
same_loop w fuel base first k v xs small (inr (z, o)) bound =
    write_digits_signed-eq w fuel base first 0 (first + k - 1) (first + k - 1) v xs small z
      (omega arith) (λ none_left. absurd (omega arith))

-- The text that `n` digits after `minus` places are.
abbrev pub Placed : NumBase → ℕ → ℕ → ℕ → ℕ → List ℕ → ℕ × List ℕ → Type 0
Placed base minus first last v xs r =
    (n : ℕ) × Converted base (first + minus) last v xs (n, r.1)
    × (r.0 ≡ (if n == 0 then 0 else minus + n))

relabel :
    (base : NumBase) (minus first last v k : ℕ) (xs : List ℕ) (a : Option (List ℕ))
    (g g' : List ℕ → Option (List ℕ))
    → 0 < k
    → ((ys : List ℕ) → g' ys ≡ g ys)
    → Gives (Converted base (first + minus) last v xs) (do b ← a; c ← g b; some (k, c))
    → Gives (Placed base minus first last v xs) (do b ← a; c ← g' b; some (minus + k, c))
relabel base minus first last v k xs none g g' pos same given = given
relabel base minus first last v k xs (some b) g g' pos same given =
    rw (same b) (relabelled (g b) given)
  where
    relabelled :
        (c : Option (List ℕ))
        → Gives (Converted base (first + minus) last v xs) (do c ← c; some (k, c))
        → Gives (Placed base minus first last v xs) (do c ← c; some (minus + k, c))
    relabelled none given' = given'
    relabelled (some c) given' =
        let some_digit : (k == 0) ≡ false = ground arith in (k, given', rw some_digit refl)

-- The digits of a number that is not negative, after `minus` places.
pub to_chars_from-Placed :
    (w : Width) (minus fuel first last v : ℕ) (base : NumBase) (xs : List ℕ)
    → is_negative w v ≡ false
    → (v ≡ 0 → minus ≡ 0)
    → v < fuel
    → first < last
    → last ≤ length xs
    → length xs < 2 ^ 32
    → Gives (Placed base minus first last v xs) (to_chars_from w minus fuel first last v base xs)
unfolding to_chars_from digits_count_signed
to_chars_from-Placed w minus fuel first last v base xs small zero_minus enough some_room room
      short =
    rw small (
      Gives-bind (Counts base v) (Placed base minus first last v xs) (digits_count fuel base v) _
        (digits_count-HasDigits fuel base v enough)
        λ k digits. elim (Bool-cases (ltb (last - first) (minus + k))) [
          | inl long ↦ rw long (
            0,
            does_not_fit base (first + minus) last v k xs (λ z. omega (arith, zero_minus z)) digits
                (omega (arith, ltb→lt (last - first) (minus + k) long, Counts-pos base v k digits)),
            refl,
          )
          | inr fits ↦
              let at : first + (minus + k) - 1 ≡ first + minus + k - 1 = omega arith in
              let pos = Counts-pos base v k digits in
              let le : minus + k ≤ last - first = ground arith in
              rw (fits, at)
                (relabel base minus first last v k xs _ _ _ pos
                  (λ ys. same_loop w fuel base (first + minus) k v ys small digits (omega arith))
                  (writes fuel base (first + minus) last v k xs enough room digits
                    (omega arith, omega arith)))
        ])
