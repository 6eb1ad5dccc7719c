-- ===== src/Cstring.antt =====
-- code/hlib/include/cstring.hpp: strings that end in a zero. A string is what lies in memory from its
-- first character to the end of its array; reading past that end gives `none`.
use hry_os.Base.{
  ℕ, suc, ◌≡◌, refl, sym, ap, ◌∙◌, Bool, true, false, ◌&&◌, ◌||◌, Option, none, some, List, [], ◌∷◌,
  arith, if◌then◌else◌, ltb, ◌==◌, not, Bool-cases, inl, inr, length,
}
use hry_os.Fallible.{Gives, Gives-mono, ◌>>=◌}

pub cstring_length : List ℕ → Option ℕ
cstring_length [] = none
cstring_length (c ∷ str) =
    let rest = cstring_length str in if c == 0 then some 0 else do n ← rest; some (suc n)

-- `(*a > *b) - (*b > *a)`
pub data Sign : Type 0 where
  less equal greater : Sign

-- `a > b`; a `char` is signed, so those from 128 on are below the others.
abbrev pub above : ℕ → ℕ → Bool
above a b =
    if ltb a 128
    then (if ltb b 128 then ltb b a else true)
    else (if ltb b 128 then false else ltb b a)

abbrev pub sign_of : ℕ → ℕ → Sign
sign_of a b = if above a b then greater else if above b a then less else equal

abbrev pub is_equal : Sign → Bool
is_equal equal = true
is_equal _ = false

pub cstring_compare : List ℕ → List ℕ → Option Sign
cstring_compare [] b = none
cstring_compare (x ∷ a) [] = none
cstring_compare (x ∷ a) (y ∷ b) =
    let rest = cstring_compare a b in if not (x == 0) && (x == y) then rest else some (sign_of x y)

-- The characters before the zero.
abbrev pub text : List ℕ → List ℕ
text [] = []
text (c ∷ str) = if c == 0 then [] else c ∷ text str

abbrev pub is_terminated : List ℕ → Bool
is_terminated [] = false
is_terminated (c ∷ str) = (c == 0) || is_terminated str

abbrev pub same_text : List ℕ → List ℕ → Bool
same_text [] [] = true
same_text [] (_ ∷ _) = false
same_text (_ ∷ _) [] = false
same_text (x ∷ a) (y ∷ b) = (x == y) && same_text a b

pub cstring_length-text :
    (str : List ℕ) → is_terminated str ≡ true → cstring_length str ≡ some (length (text str))
unfolding cstring_length
cstring_length-text [] e = cc
cstring_length-text (c ∷ str) e = elim (Bool-cases (c == 0)) [
  | inl last ↦ rw last refl
  | inr more ↦
      let there : is_terminated str ≡ true = ground arith in
      rw (more, cstring_length-text str there) refl
]

sign_of-differ : (x y : ℕ) → (x == y) ≡ false → is_equal (sign_of x y) ≡ false
sign_of-differ x y differ = elim (Bool-cases (above x y)) [
  | inl up ↦ rw up refl
  | inr same_or_down ↦ let down : above y x ≡ true = ground arith in rw (same_or_down, down) refl
]

sign_of-zeros : (x y : ℕ) → (x == 0) ≡ true → (y == 0) ≡ true → is_equal (sign_of x y) ≡ true
sign_of-zeros x y e f =
    let up : above x y ≡ false = ground arith in
    let down : above y x ≡ false = ground arith in rw (up, down) refl

-- On two strings that have their zero, `cstring_compare` returns, and says equal exactly if the
-- characters before the zeros are the same.
pub cstring_compare-same_text :
    (a b : List ℕ)
    → is_terminated a ≡ true
    → is_terminated b ≡ true
    → Gives (λ s. is_equal s ≡ same_text (text a) (text b)) (cstring_compare a b)
unfolding cstring_compare
cstring_compare-same_text [] b e f = cc
cstring_compare-same_text (x ∷ a) [] e f = cc
cstring_compare-same_text (x ∷ a) (y ∷ b) e f = elim (Bool-cases (x == 0)) [
  | inl last ↦ elim (Bool-cases (y == 0)) [
    | inl last' ↦ rw (last, last') (sign_of-zeros x y last last')
    | inr more' ↦
        let differ : (x == y) ≡ false = ground arith in rw (last, more') (sign_of-differ x y differ)
  ]
  | inr more ↦ elim (Bool-cases (x == y)) [
    | inl alike ↦
        let more' : (y == 0) ≡ false = ground arith in
        let there : is_terminated a ≡ true = ground arith in
        let there' : is_terminated b ≡ true = ground arith in
        rw (more, alike, more')
          (Gives-mono (cstring_compare a b) (cstring_compare-same_text a b there there')
            (λ s i. i ∙ ap (λ r. r && same_text (text a) (text b)) (sym alike)))
    | inr differ ↦ elim (Bool-cases (y == 0)) [
      | inl last' ↦ rw (more, differ, last') (sign_of-differ x y differ)
      | inr more' ↦
          rw (more, differ, more')
            (sign_of-differ x y differ ∙ ap (λ r. r && same_text (text a) (text b)) (sym differ))
    ]
  ]
]
