-- ===== src/CircularBuffer.antt =====
-- code/hlib/include/circular_buffer.hpp: `hlib::circular_buffer<T, Size>`, a queue in an array with
-- a head and a tail index. The array always has one free place. `size_t` has 32 bits.
pub mod Window
pub mod Refine
pub mod Calls
mod Tests
use hry_os.Base.{
  ℕ, ◌%◌, Bool, Option, none, some, List, add32, sub32, ◌==◌, if◌then◌else◌, get_or, set, replicate,
}

pub record CircularBuffer (T : Type 0) : Type 0 where
  pub head : ℕ
  pub tail : ℕ
  pub buffer : List T

pub increment : ℕ → ℕ → ℕ
increment size index = add32 index 1 % size

pub decrement : ℕ → ℕ → ℕ
decrement size index = sub32 (add32 index size) 1 % size

-- `zero` is `value_type()`.
module _ {T : Type 0} (size : ℕ) (default : T) where
  pub initial : CircularBuffer T
  initial = record { head = 0; tail = 0; buffer = replicate size default }

  pub empty : CircularBuffer T → Bool
  empty b = b.head == b.tail

  pub full : CircularBuffer T → Bool
  full b = add32 b.tail 1 % size == b.head

  pub push_back : T → CircularBuffer T → CircularBuffer T
  unfolding full increment
  push_back value b =
      if full b
      then b
      else record b { buffer = set b.buffer b.tail value; tail = increment size b.tail }

  pub push_front : T → CircularBuffer T → CircularBuffer T
  unfolding full decrement
  push_front value b =
      let head = decrement size b.head in
      if full b then b else record b { head = head; buffer = set b.buffer head value }

  pub pop : CircularBuffer T → Option T × CircularBuffer T
  unfolding empty increment
  pop b = if empty b then (none, b) else (
    some (get_or b.buffer b.head default),
    record b { buffer = set b.buffer b.head default; head = increment size b.head },
  )
