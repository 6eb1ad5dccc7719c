-- ===== src/CircularBuffer/Tests.antt =====
-- Runs of the buffer, and its theorems at a buffer that goes round the end of its array.
use hry_os.Base.{◌≡◌, refl, ℕ, none, some, [], ◌∷◌, List, arith}
use hry_os.CircularBuffer.{CircularBuffer, push_back, push_front, pop}
use hry_os.CircularBuffer.Refine.{IsValid}
use hry_os.CircularBuffer.Calls.{
  Call, call_push_back, call_push_front, call_pop, run, run_queue, run_refines,
}

abbrev wrapped : CircularBuffer ℕ
wrapped = record { head = 3; tail = 1; buffer = 9 ∷ 0 ∷ 0 ∷ 8 ∷ [] }

abbrev calls : List (Call ℕ)
calls =
    call_push_back 1
    ∷ call_push_front 7
    ∷ call_pop
    ∷ call_push_front 2
    ∷ call_push_back 6
    ∷ call_pop
    ∷ call_pop
    ∷ call_pop
    ∷ call_pop
    ∷ []

wrapped-IsValid : IsValid 4 wrapped
wrapped-IsValid = omega arith

run-wrapped : run 4 0 wrapped calls ≡ some 8 ∷ some 2 ∷ some 9 ∷ some 1 ∷ none ∷ []
unfolding run push_back push_front pop
run-wrapped = refl

run_refines_example : run 4 0 wrapped calls ≡ run_queue 4 (8 ∷ 9 ∷ []) calls
run_refines_example = run_refines 4 0 wrapped calls wrapped-IsValid
