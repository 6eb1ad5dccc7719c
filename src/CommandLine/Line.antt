-- ===== src/CommandLine/Line.antt =====
-- The input line: what is typed stands before the index, and every character has 7 bits.
use hry_os.Base.{
  All, All-set, All-append, ℕ, zero, suc, ◌+◌, ◌-◌, ◌<◌, ◌≤◌, ◌≡◌, ◌≢◌, refl, ap, ◌∙◌, true, false,
  some, List, [], ◌∷◌, ◌++◌, arith, if◌then◌else◌, ltb, leb, ◌==◌, ==_true, set, length, length-set,
  get_or, get_or-set_self, get_or-set_ne, Bool-cases, inl, inr,
}
use hry_os.Cstring.{is_terminated}
use hry_os.Terminal.Cursor.{Ascii}
use hry_os.Format.{chars, array_text, format_arg, format_to}
use hry_os.Format.Template.{Template, end, place, format_to-render}
use hry_os.CommandLine.{unknown_command, Command, CommandLine, clear_buffer}

-- Each name has its zero within its 32 characters.
abbrev pub AreTerminated : List Command → Type 0
AreTerminated [] = Unit {0}
AreTerminated (c ∷ commands) = (is_terminated c.command ≡ true) × AreTerminated commands

-- What is typed stands before the index, and zeros behind it.
pub record IsLine (l : CommandLine) : Type 0 where
  pub size : length l.input_buffer ≡ 32
  pub within : l.input_buffer_index ≤ 32
  pub typed : (j : ℕ) → j < 32 → (get_or l.input_buffer j 0 == 0) ≡ leb l.input_buffer_index j
  pub names : AreTerminated l.commands
  pub ascii : All Ascii l.input_buffer

pub typed-IsLine :
    (l : CommandLine) (ch : ℕ)
    → IsLine l
    → l.input_buffer_index < 32
    → (ch == 0) ≡ false
    → ch < 128
    → IsLine (record l {
      input_buffer = set l.input_buffer l.input_buffer_index ch;
      input_buffer_index = l.input_buffer_index + 1;
    })
typed-IsLine l ch is room visible small =
    let i = l.input_buffer_index in
    record {
      size = length-set l.input_buffer i ch ∙ is.size;
      within = omega arith;
      typed = λ j inside. elim (Bool-cases (j == i)) [
        | inl e ↦
            ap (λ k. get_or (set l.input_buffer i ch) k 0 == 0) (==_true j i e)
            ∙ ap (λ c. c == 0) (get_or-set_self l.input_buffer i ch 0 (omega (arith, is.size)))
            ∙ ground arith
        | inr e ↦
            ap (λ c. c == 0) (get_or-set_ne l.input_buffer {i = i} {j = j} ch 0 (ground arith))
            ∙ ground (arith, is.typed j)
      ];
      names = is.names;
      ascii = All-set Ascii l.input_buffer i ch is.ascii small;
    }

pub erased-IsLine :
    (l : CommandLine)
    → IsLine l
    → 0 < l.input_buffer_index
    → IsLine (record l {
      input_buffer = set l.input_buffer (l.input_buffer_index - 1) 0;
      input_buffer_index = l.input_buffer_index - 1;
    })
erased-IsLine l is some_typed =
    let i = l.input_buffer_index - 1 in
    record {
      size = length-set l.input_buffer i 0 ∙ is.size;
      within = omega (arith, is.within);
      typed = λ j inside. elim (Bool-cases (j == i)) [
        | inl e ↦
            ap (λ k. get_or (set l.input_buffer i 0) k 0 == 0) (==_true j i e)
            ∙ ap (λ c. c == 0)
                (get_or-set_self l.input_buffer i 0 0 (omega (arith, is.size, is.within)))
            ∙ ground arith
        | inr e ↦
            ap (λ c. c == 0) (get_or-set_ne l.input_buffer {i = i} {j = j} 0 0 (ground arith))
            ∙ ground (arith, is.typed j)
      ];
      names = is.names;
      ascii = All-set Ascii l.input_buffer i 0 is.ascii (omega arith);
    }

length-clear_buffer : (n : ℕ) (xs : List ℕ) → length (clear_buffer n xs) ≡ length xs
length-clear_buffer zero xs = refl
length-clear_buffer (suc n) xs = length-set (clear_buffer n xs) n 0 ∙ length-clear_buffer n xs

get_or-clear_buffer :
    (n : ℕ) (xs : List ℕ) (j : ℕ)
    → n ≤ length xs
    → get_or (clear_buffer n xs) j 0 ≡ (if ltb j n then 0 else get_or xs j 0)
get_or-clear_buffer zero xs j fits = let out : ltb j 0 ≡ false = ground arith in rw out refl
get_or-clear_buffer (suc n) xs j fits = elim (Bool-cases (j == n)) [
  | inl e ↦
      let inside : ltb j (suc n) ≡ true = ground arith in
      rw inside (
        ap (λ k. get_or (set (clear_buffer n xs) n 0) k 0) (==_true j n e)
        ∙ get_or-set_self (clear_buffer n xs) n 0 0 (omega (arith, length-clear_buffer n xs)))
  | inr e ↦
      let other : n ≢ j = ground arith in
      get_or-set_ne (clear_buffer n xs) {i = n} {j = j} 0 0 other
      ∙ get_or-clear_buffer n xs j (omega arith)
      ∙ ground arith
]

Ascii-clear_buffer : (n : ℕ) (xs : List ℕ) → All Ascii xs → All Ascii (clear_buffer n xs)
Ascii-clear_buffer zero xs all = all
Ascii-clear_buffer (suc n) xs all =
    All-set Ascii (clear_buffer n xs) n 0 (Ascii-clear_buffer n xs all) (omega arith)

pub cleared-IsLine :
    (l : CommandLine)
    → IsLine l
    → IsLine (record l {
      input_buffer = clear_buffer l.input_buffer_index l.input_buffer;
      input_buffer_index = 0;
    })
cleared-IsLine l is = record {
  size = length-clear_buffer l.input_buffer_index l.input_buffer ∙ is.size;
  within = omega arith;
  typed = λ j inside. ground (
    arith,
    get_or-clear_buffer l.input_buffer_index l.input_buffer j,
    is.typed j,
    is.size,
    is.within,
  );
  names = is.names;
  ascii = Ascii-clear_buffer l.input_buffer_index l.input_buffer is.ascii;
}

-- A line that is not full ends in a zero.
pub terminated-at :
    (xs : List ℕ) (j : ℕ) → j < length xs → (get_or xs j 0 == 0) ≡ true → is_terminated xs ≡ true
terminated-at [] j inside z = absurd (omega arith)
terminated-at (x ∷ xs) zero inside z = ground arith
terminated-at (x ∷ xs) (suc j) inside z = ground (arith, terminated-at xs j (omega arith) z)

-- The answer to an unknown command: what the buffer holds before its zero, or before its end.
abbrev pub quoted : List ℕ → List ℕ
quoted name =
    39 ∷ name
    ++ 39 ∷ 32 ∷ 117 ∷ 110 ∷ 107 ∷ 110 ∷ 111 ∷ 119 ∷ 110 ∷ 32 ∷ 99 ∷ 111 ∷ 109 ∷ 109 ∷ 97 ∷ 110
      ∷ 100 ∷ []

abbrev answer : Template
answer = place (39 ∷ []) [] (
    end (
      39 ∷ 32 ∷ 117 ∷ 110 ∷ 107 ∷ 110 ∷ 111 ∷ 119 ∷ 110 ∷ 32 ∷ 99 ∷ 111 ∷ 109 ∷ 109 ∷ 97 ∷ 110 ∷ 100
      ∷ []))

pub unknown_command-quoted :
    (buffer : List ℕ)
    → format_to (chars buffer ∷ []) unknown_command ≡ some (quoted (array_text buffer))
unfolding format_arg
unknown_command-quoted buffer = format_to-render answer (chars buffer ∷ []) (omega arith)

Ascii-array_text : (xs : List ℕ) → All Ascii xs → All Ascii (array_text xs)
unfolding array_text
Ascii-array_text [] all = tt
Ascii-array_text (x ∷ xs) all = elim (Bool-cases (x == 0)) [
  | inl e ↦ rw e tt
  | inr e ↦ rw e (all.0, Ascii-array_text xs all.1)
]

pub quoted-Ascii : (xs : List ℕ) → All Ascii xs → All Ascii (quoted (array_text xs))
quoted-Ascii xs all =
    (omega arith, All-append Ascii (array_text xs) _ (Ascii-array_text xs all) (omega arith))
