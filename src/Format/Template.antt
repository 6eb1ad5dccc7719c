-- ===== src/Format/Template.antt =====
-- What a format string means: texts with places for the arguments between them.
use hry_os.Base.{
  ℕ, ◌≡◌, ◌≢◌, refl, sym, ap, ◌∙◌, true, false, ◌||◌, Option, none, some, List, [], ◌∷◌, ◌++◌,
  append-nil, All-map, arith, ◌==◌, All,
}
use hry_os.Fallible.{◌>>=◌}
use hry_os.Format.{Arg, format_arg, print_to_format_sign, skip_placeholder, until_zero, format_to}

pub data Template : Type 0 where
  end : List ℕ → Template
  place : List ℕ → List ℕ → Template → Template

-- The characters of a template, with their zero.
abbrev pub encode : Template → List ℕ
encode (end text) = text ++ 0 ∷ []
encode (place text spec t) = text ++ (b'{' ∷ (spec ++ (b'}' ∷ encode t)))

-- A text without a brace that opens a place, and a place without one that closes it.
abbrev pub Plain : ℕ → Type 0
Plain ch = (ch ≢ b'{') × (ch ≢ 0)

abbrev pub Inside : ℕ → Type 0
Inside ch = (ch ≢ b'}') × (ch ≢ 0)

abbrev pub IsTemplate : Template → Type 0
IsTemplate (end text) = All Plain text
IsTemplate (place text spec t) = All Plain text × All Inside spec × IsTemplate t

-- What is printed: with too few arguments the places stay as they are; with too many, the code reads
-- behind the string.
abbrev pub render : Template → List Arg → Option (List ℕ)
render (end text) [] = some text
render (end text) (arg ∷ args) = none
render (place text spec t) [] = do
  rest ← render t []
  some (text ++ (b'{' ∷ (spec ++ (b'}' ∷ rest))))
render (place text spec t) (arg ∷ args) = do
  shown ← format_arg arg (spec ++ (b'}' ∷ encode t))
  rest ← render t args
  some (text ++ shown ++ rest)

sign-after :
    (text rest : List ℕ) (ch : ℕ)
    → All Plain text
    → ((ch == b'{') || (ch == 0)) ≡ true
    → print_to_format_sign (text ++ ch ∷ rest) ≡ some (text, ch ∷ rest)
unfolding print_to_format_sign
sign-after [] rest ch plain sign = rw sign refl
sign-after (c ∷ text) rest ch plain sign =
    let on : ((c == b'{') || (c == 0)) ≡ false = ground arith in
    rw (on, sign-after text rest ch plain.1 sign) refl

skip-nil : skip_placeholder [] ≡ none
unfolding skip_placeholder
skip-nil = refl

skip-Inside :
    (spec rest : List ℕ) → All Inside spec → skip_placeholder (spec ++ (b'}' ∷ rest)) ≡ some rest
unfolding skip_placeholder
skip-Inside [] rest inside = refl
skip-Inside (c ∷ spec) rest inside =
    let on : (c == b'}') ≡ false = ground arith in rw on (skip-Inside spec rest inside.1)

abbrev pub Visible : ℕ → Type 0
Visible ch = ch ≢ 0

pub until_zero-append :
    (text rest more : List ℕ)
    → All Visible text
    → until_zero rest ≡ some more
    → until_zero (text ++ rest) ≡ some (text ++ more)
unfolding until_zero
until_zero-append [] rest more all e = e
until_zero-append (c ∷ text) rest more all e =
    let on : (c == 0) ≡ false = ground arith in
    rw (on, until_zero-append text rest more all.1 e) refl

zero_alone : until_zero (0 ∷ []) ≡ some []
unfolding until_zero
zero_alone = refl

pub until_zero-cons :
    (c : ℕ) (rest more : List ℕ)
    → c ≢ 0
    → until_zero rest ≡ some more
    → until_zero (c ∷ rest) ≡ some (c ∷ more)
until_zero-cons c rest more visible e = until_zero-append (c ∷ []) rest more (visible, tt) e

-- A template without arguments is printed as it is written.
abbrev plain : Template → List ℕ
plain (end text) = text
plain (place text spec t) = text ++ (b'{' ∷ (spec ++ (b'}' ∷ plain t)))

render-plain : (t : Template) → render t [] ≡ some (plain t)
render-plain (end text) = refl
render-plain (place text spec t) = rw (render-plain t) refl

until_zero-plain : (t : Template) → IsTemplate t → until_zero (encode t) ≡ some (plain t)
until_zero-plain (end text) is =
    until_zero-append text (0 ∷ []) [] (All-map (λ c p. p.1) text is) zero_alone
    ∙ ap some (append-nil text)
until_zero-plain (place text spec t) is =
    until_zero-append text _ _ (All-map (λ c p. p.1) text is.0) (
      until_zero-cons b'{' _ _ (omega arith) (
        until_zero-append spec _ _ (All-map (λ c p. p.1) spec is.1)
          (until_zero-cons b'}' _ _ (omega arith) (until_zero-plain t is.2))))

never : {A B : Type 0} (o : Option A) → ◌≡◌ {A = Option B} (o >>= λ _. none) none
never none = refl
never (some a) = refl

-- `format_to` of a format string (texts without an opening brace, places without a closing one)
-- prints the texts with each argument, formatted by what stands in its place, in turn; with too few
-- arguments the places that are left stay as they are written, and with too many the code reads
-- behind the string.
pub format_to-render :
    (t : Template) (args : List Arg) → IsTemplate t → format_to args (encode t) ≡ render t args
unfolding format_to
format_to-render t [] is = until_zero-plain t is ∙ sym (render-plain t)
format_to-render (end text) (arg ∷ args) is =
    let nothing : skip_placeholder [] ≡ none = skip-nil in
    rw (sign-after text [] 0 is refl, nothing) (never (format_arg arg []))
format_to-render (place text spec t) (arg ∷ args) is =
    rw
      (
        sign-after text (spec ++ (b'}' ∷ encode t)) b'{' is.0 refl,
        skip-Inside spec (encode t) is.1,
        format_to-render t args is.2,
      )
      refl
