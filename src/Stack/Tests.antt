-- ===== src/Stack/Tests.antt =====
-- The frame on a stack of 40 bytes at address 100.
use hry_os.Base.{ℕ, ◌+◌, ◌*◌, ◌<◌, ◌≤◌, ◌≡◌, arith, replicate}
use hry_os.Fallible.{Gives}
use hry_os.Stack.{Stack, stack, initial_frame}
use hry_os.Stack.Pushed.{IsStack, byte_at, word_at}
use hry_os.Stack.Frame.{initial_frame-words}

abbrev fresh : Stack
fresh = stack 100 40 (replicate 40 7)

fresh-IsStack : IsStack fresh
fresh-IsStack = record {
  addressable = omega arith;
  above_bottom = omega arith;
  below_end = omega arith;
}

initial_frame-words_example :
    Gives
      (λ t.
        IsStack t
        × (t.top + 32 ≡ 140)
        × (word_at t (t.top + 28) ≡ 0x101234)
        × ((i : ℕ) → i < 7 → word_at t (t.top + 4 * i) ≡ 0)
        × ((a : ℕ) → 140 ≤ a → byte_at t a ≡ byte_at fresh a))
      (initial_frame 0x101234 fresh)
initial_frame-words_example =
    initial_frame-words 0x101234 fresh fresh-IsStack (omega arith) (omega arith)
