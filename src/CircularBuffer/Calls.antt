-- ===== src/CircularBuffer/Calls.antt =====
-- Any sequence of calls of the buffer's methods.
use hry_os.Base.{ℕ, ◌≡◌, refl, ap, Option, List, [], ◌∷◌}
use hry_os.CircularBuffer.{CircularBuffer, push_back, push_front, pop}
use hry_os.CircularBuffer.Refine.{
  IsValid, contents, queue_push_back, queue_push_front, queue_pop, push_back-IsValid,
  push_front-IsValid, pop-IsValid, push_back_refines, push_front_refines, pop_refines,
}

pub data Call (T : Type 0) : Type 0 where
  call_push_back : T → Call T
  call_push_front : T → Call T
  call_pop : Call T

module _ {T : Type 0} (size : ℕ) where
  unfoldable pub run_queue : List T → List (Call T) → List (Option T)
  run_queue q [] = []
  run_queue q (call_push_back v ∷ calls) = run_queue (queue_push_back size v q) calls
  run_queue q (call_push_front v ∷ calls) = run_queue (queue_push_front size v q) calls
  run_queue q (call_pop ∷ calls) = let (out, q') = queue_pop q in out ∷ run_queue q' calls

module _ {T : Type 0} (size : ℕ) (d : T) where
  -- What the calls of `pop` return, in order.
  unfoldable pub run : CircularBuffer T → List (Call T) → List (Option T)
  run b [] = []
  run b (call_push_back v ∷ calls) = run (push_back size d v b) calls
  run b (call_push_front v ∷ calls) = run (push_front size d v b) calls
  run b (call_pop ∷ calls) = let (out, b') = pop size d b in out ∷ run b' calls

  -- No sequence of calls of `push_back`, `push_front` and `pop` tells a valid buffer of `size`
  -- places from a queue of its contents that holds at most `size - 1` values and ignores a push
  -- when it is full.
  pub run_refines :
      (b : CircularBuffer T) (calls : List (Call T))
      → IsValid size b
      → run b calls ≡ run_queue size (contents size d b) calls
  unfolding run run_queue
  run_refines b [] is = refl
  run_refines b (call_push_back v ∷ calls) is =
      rw (run_refines (push_back size d v b) calls (push_back-IsValid size d b v is))
        (ap (λ q. run_queue size q calls) (push_back_refines size d b v is))
  run_refines b (call_push_front v ∷ calls) is =
      rw (run_refines (push_front size d v b) calls (push_front-IsValid size d b v is))
        (ap (λ q. run_queue size q calls) (push_front_refines size d b v is))
  run_refines b (call_pop ∷ calls) is =
      rw (run_refines (pop size d b).1 calls (pop-IsValid size d b is))
        (ap (λ r. r.0 ∷ run_queue size r.1 calls) (pop_refines size d b is))
