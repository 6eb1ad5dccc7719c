-- ===== src/CircularBuffer/Refine.antt =====
-- A valid buffer is a bounded double-ended queue: every operation does to the contents what the
-- queue's operation does.
use native.Mathlib.Nat.{mod-eq_of_lt, mod-eq-sub-mod}
use hry_os.Base.{
  ℕ, suc, ◌+◌, ◌-◌, ◌%◌, ◌^◌, ◌≤◌, ◌<◌, ◌≡◌, refl, ap, ◌∙◌, inl, inr, Option, none, some, true,
  List, [], ◌∷◌, ◌++◌, arith, ltb, if◌then◌else◌, ◌==◌, length, get_or, length-set,
  length-replicate, Bool-cases,
}
use hry_os.CircularBuffer.{
  CircularBuffer, increment, decrement, initial, empty, full, push_back, push_front, pop,
}
use hry_os.CircularBuffer.Window.{
  after, steps, walk, length-walk, walk-set, walk-extend, walk-before,
}

-- A queue of at most `size - 1` values.
module _ {T : Type 0} where
  unfoldable pub queue_push_back : ℕ → T → List T → List T
  queue_push_back size v q = if ltb (length q) (size - 1) then q ++ v ∷ [] else q

  unfoldable pub queue_push_front : ℕ → T → List T → List T
  queue_push_front size v q = if ltb (length q) (size - 1) then v ∷ q else q

  unfoldable pub queue_pop : List T → Option T × List T
  queue_pop [] = (none, [])
  queue_pop (v ∷ q) = (some v, q)

-- No sum of two indices wraps.
abbrev pub IsSize : ℕ → Type 0
IsSize size = (0 < size) × (size ≤ 2 ^ 31)

module _ {T : Type 0} (size : ℕ) where
  pub record IsValid (b : CircularBuffer T) : Type 0 where
    pub is_size : IsSize size
    pub head_in : b.head < size
    pub tail_in : b.tail < size
    pub storage : length b.buffer ≡ size

increment-after : (size i : ℕ) → IsSize size → i < size → increment size i ≡ after size i
unfolding increment
increment-after size i sz h =
    let no_wrap : (i + 1) % 2 ^ 32 ≡ i + 1 = omega arith in
    rw no_wrap (elim (Bool-cases (i + 1 == size)) [
      | inl wraps ↦ rw wraps (
          ap (λ k. k % size) (ground arith)
          ∙ mod-eq-sub-mod {n = size} {m = size} (omega arith)
          ∙ mod-eq_of_lt (omega arith)
          ∙ omega arith)
      | inr inside ↦ rw inside (mod-eq_of_lt (ground arith))
    ])

abbrev before : ℕ → ℕ → ℕ
before size i = if i == 0 then size - 1 else i - 1

decrement-before : (size i : ℕ) → IsSize size → i < size → decrement size i ≡ before size i
unfolding decrement
decrement-before size i sz h = grind arith

module _ {T : Type 0} (size : ℕ) (d : T) where
  -- The values in the buffer, oldest first.
  abbrev pub contents : CircularBuffer T → List T
  contents b = walk size d b.buffer (steps size b.head b.tail) b.head

  length-contents : (b : CircularBuffer T) → length (contents b) ≡ steps size b.head b.tail
  length-contents b = length-walk size d b.buffer (steps size b.head b.tail) b.head

  full-lem : (b : CircularBuffer T) → IsValid size b → full size d b ≡ (after size b.tail == b.head)
  unfolding full increment
  full-lem b v = ap (λ i. i == b.head) (increment-after size b.tail v.is_size v.tail_in)

  -- The fresh buffer is valid and holds nothing.
  pub initial-IsValid :
      IsSize size → IsValid size (initial size d) × (contents (initial size d) ≡ [])
  unfolding initial
  initial-IsValid sz = (
    record { is_size = sz; head_in = sz.0; tail_in = sz.0; storage = length-replicate size d },
    refl,
  )

  pub push_back-IsValid :
      (b : CircularBuffer T) (v : T) → IsValid size b → IsValid size (push_back size d v b)
  unfolding push_back
  push_back-IsValid b v is =
      ground
        (arith, increment-after size b.tail is.is_size is.tail_in, length-set b.buffer b.tail v)

  pub push_front-IsValid :
      (b : CircularBuffer T) (v : T) → IsValid size b → IsValid size (push_front size d v b)
  unfolding push_front
  push_front-IsValid b v is = ground (
    arith,
    decrement-before size b.head is.is_size is.head_in,
    length-set b.buffer (decrement size b.head) v,
  )

  pub pop-IsValid : (b : CircularBuffer T) → IsValid size b → IsValid size (pop size d b).1
  unfolding pop
  pop-IsValid b is =
      ground
        (arith, increment-after size b.head is.is_size is.head_in, length-set b.buffer b.head d)

  -- On a valid buffer `push_back` puts the value behind the contents, unless the buffer is full.
  pub push_back_refines :
      (b : CircularBuffer T) (v : T)
      → IsValid size b
      → contents (push_back size d v b) ≡ queue_push_back size v (contents b)
  unfolding push_back queue_push_back
  push_back_refines b v is = elim (Bool-cases (after size b.tail == b.head)) [
    | inl at_end ↦ rw (full-lem b is, at_end, length-contents b) (ground arith)
    | inr room ↦
        let count : steps size b.head (after size b.tail) ≡ suc (steps size b.head b.tail) =
          ground arith in
        let fits : ltb (steps size b.head b.tail) (size - 1) ≡ true = ground arith in
        rw
          (
            full-lem b is,
            room,
            length-contents b,
            increment-after size b.tail is.is_size is.tail_in,
            count,
            fits,
          )
          (walk-extend size d b.buffer b.head b.tail v is.storage is.head_in is.tail_in)
  ]

  -- On a valid buffer `push_front` puts the value before the contents, unless the buffer is full.
  pub push_front_refines :
      (b : CircularBuffer T) (v : T)
      → IsValid size b
      → contents (push_front size d v b) ≡ queue_push_front size v (contents b)
  unfolding push_front queue_push_front
  push_front_refines b v is = elim (Bool-cases (after size b.tail == b.head)) [
    | inl at_end ↦ rw (full-lem b is, at_end, length-contents b) (ground arith)
    | inr room ↦
        let count : steps size (before size b.head) b.tail ≡ suc (steps size b.head b.tail) =
          ground arith in
        let fits : ltb (steps size b.head b.tail) (size - 1) ≡ true = ground arith in
        rw
          (
            full-lem b is,
            room,
            length-contents b,
            decrement-before size b.head is.is_size is.head_in,
            count,
            fits,
          )
          (walk-before size d b.buffer b.head (before size b.head) (steps size b.head b.tail) v
            is.storage is.head_in (ground arith) (ground arith) (ground arith))
  ]

  -- On a valid buffer `pop` returns the oldest value and leaves the others, or returns nothing
  -- where there is none.
  pub pop_refines :
      (b : CircularBuffer T)
      → IsValid size b
      → let (out, b') = pop size d b in (out, contents b') ≡ queue_pop (contents b)
  unfolding pop queue_pop empty
  pop_refines b is = elim (Bool-cases (b.head == b.tail)) [
    | inl none_left ↦
        let count : steps size b.head b.tail ≡ 0 = ground arith in rw (none_left, count)
    | inr some_left ↦
        let count : steps size b.head b.tail ≡ suc (steps size (after size b.head) b.tail) =
          ground arith in
        rw (some_left, increment-after size b.head is.is_size is.head_in, count)
          (ap (λ r. (some (get_or b.buffer b.head d), r))
            (walk-set size d b.buffer (steps size (after size b.head) b.tail) (after size b.head)
              b.head d (ground arith) is.head_in (ground arith)))
  ]
