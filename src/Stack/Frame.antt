-- ===== src/Stack/Frame.antt =====
-- The stack of a new process, as `switch_to_task` reads it: seven registers, then where to go on.
use hry_os.Base.{
  ℕ, zero, suc, ◌+◌, ◌-◌, ◌*◌, ◌^◌, ◌<◌, ◌≤◌, ◌≡◌, refl, ◌∙◌, List, [], ◌∷◌, length, arith, get_or,
  replicate, All,
}
use hry_os.Fallible.{Gives, Gives-mono, Gives-bind}
use hry_os.Stack.{Stack, push, u32_bytes, push_all, initial_frame}
use hry_os.Stack.Pushed.{IsStack, byte_at, word_at, IsPushed, push-IsPushed}

-- The `i`th word that is pushed lies `i + 1` words below the old top; what was above stays.
record IsFrame (vs : List ℕ) (s t : Stack) : Type 0 where
  stack : IsStack t
  bottom : t.bottom ≡ s.bottom
  top : t.top + 4 * length vs ≡ s.top
  words : (i : ℕ) → i < length vs → word_at t (s.top - 4 * suc i) ≡ get_or vs i 0
  kept : (a : ℕ) → s.top ≤ a → byte_at t a ≡ byte_at s a

word_kept :
    (s t : Stack) (a : ℕ)
    → ((b : ℕ) → a ≤ b → byte_at t b ≡ byte_at s b)
    → word_at t a ≡ word_at s a
word_kept s t a kept = omega (
  arith,
  kept a (omega arith),
  kept (a + 1) (omega arith),
  kept (a + 2) (omega arith),
  kept (a + 3) (omega arith),
)

-- One push, and the others after it.
IsFrame-cons :
    (v : ℕ) (vs : List ℕ) (s t u : Stack) → IsPushed v s t → IsFrame vs t u → IsFrame (v ∷ vs) s u
IsFrame-cons v vs s t u p f = record {
  stack = f.stack;
  bottom = f.bottom ∙ p.bottom;
  top = omega (arith, f.top, p.top);
  words = words;
  kept = λ a le. f.kept a (omega (arith, p.top)) ∙ p.kept a le;
}
  where
    words : (i : ℕ) → i < suc (length vs) → word_at u (s.top - 4 * suc i) ≡ get_or (v ∷ vs) i 0
    words zero lt =
        let at : s.top - 4 * 1 ≡ t.top = omega (arith, p.top) in
        rw at (word_kept t u t.top f.kept ∙ p.word)
    words (suc i) lt =
        let at : s.top - 4 * suc (suc i) ≡ t.top - 4 * suc i = omega (arith, p.top) in
        rw at (f.words i (omega arith))

push_all-IsFrame :
    (vs : List ℕ) (s : Stack)
    → IsStack s
    → All (λ v. v < 2 ^ 32) vs
    → s.bottom + 4 * length vs ≤ s.top
    → Gives (IsFrame vs s) (push_all vs s)
push_all-IsFrame [] s is bounds room = record {
  stack = is;
  bottom = refl;
  top = omega arith;
  words = λ i lt. absurd (omega arith);
  kept = λ a le. refl;
}
push_all-IsFrame (v ∷ vs) s is bounds room =
    Gives-bind (IsPushed v s) (IsFrame (v ∷ vs) s) (push (u32_bytes v) s) (push_all vs)
      (push-IsPushed v s is bounds.0 (omega arith))
      (λ t p.
        Gives-mono (push_all vs t)
          (push_all-IsFrame vs t p.stack bounds.1 (omega (arith, p.top, p.bottom)))
          (λ u f. IsFrame-cons v vs s t u p f))

zeros : (n i : ℕ) → ◌≡◌ {A = ℕ} (get_or (replicate n 0) i 0) 0
zeros zero i = refl
zeros (suc n) zero = refl
zeros (suc n) (suc i) = zeros n i

-- On a stack with room for 32 bytes, what `create_process` pushes succeeds and leaves, from the top
-- on, seven zeros for the registers and then the address that the process starts at, as
-- `switch_to_task` reads them; what was on the stack before stays.
pub initial_frame-words :
    (starter : ℕ) (s : Stack)
    → IsStack s
    → starter < 2 ^ 32
    → s.bottom + 32 ≤ s.top
    → Gives
        (λ t.
          IsStack t
          × (t.top + 32 ≡ s.top)
          × (word_at t (t.top + 28) ≡ starter)
          × ((i : ℕ) → i < 7 → word_at t (t.top + 4 * i) ≡ 0)
          × ((a : ℕ) → s.top ≤ a → byte_at t a ≡ byte_at s a))
        (initial_frame starter s)
unfolding initial_frame
initial_frame-words starter s is bound room =
    let small : 0 < 2 ^ 32 = omega arith in
    let vs = starter ∷ 0 ∷ 0 ∷ 0 ∷ 0 ∷ 0 ∷ 0 ∷ 0 ∷ [] in
    Gives-mono (push_all vs s)
      (push_all-IsFrame vs s is
        (bound, (small, (small, (small, (small, (small, (small, (small, tt)))))))) room)
      (λ t f. (
        f.stack,
        f.top,
        (let at : t.top + 28 ≡ s.top - 4 * 1 = omega (arith, f.top) in
            rw at (f.words 0 (omega arith))),
        (λ i lt.
            let at : t.top + 4 * i ≡ s.top - 4 * suc (suc (6 - i)) = omega (arith, f.top) in
            rw at (f.words (suc (6 - i)) (omega arith) ∙ zeros 7 (6 - i))),
        f.kept,
      ))
