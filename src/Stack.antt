-- ===== src/Stack.antt =====
-- code/hlib/include/stack.hpp: the stack of a process, bytes behind the address `bottom`, and what
-- `create_process` of code/kernel/scheduler/scheduler.cpp pushes on it. A value is the list of its bytes.
-- `none` is a write outside of the bytes. `pop`, whose cast does not fit its result, is left out.
pub mod Pushed
pub mod Frame
mod Tests
use hry_os.Base.{
  ℕ, zero, suc, ◌-◌, ◌/◌, ◌%◌, ◌^◌, Option, some, List, [], ◌∷◌, length, if◌then◌else◌, leb, sub32,
  add32, u8_mod,
}
use hry_os.Fallible.{◌>>=◌}
use hry_os.Algorithm.{write_at}

pub record Stack : Type 0 where
  pub bytes : List ℕ
  pub bottom : ℕ
  pub top : ℕ
  pub size : ℕ

-- The constructor; `bytes` is the new memory at `bottom`.
abbrev pub stack : ℕ → ℕ → List ℕ → Stack
stack bottom size bytes = record {
  bytes = bytes;
  bottom = bottom;
  top = add32 bottom size;
  size = size % u8_mod;
}

-- `*reinterpret_cast<T*>(…) = value`
pub write_bytes : ℕ → List ℕ → List ℕ → Option (List ℕ)
write_bytes o [] xs = some xs
write_bytes o (b ∷ bs) xs = do xs ← write_at o b xs; write_bytes (suc o) bs xs

pub push : List ℕ → Stack → Option Stack
unfolding write_bytes
push value s =
    let new_top = sub32 s.top (length value) in
    if leb s.bottom new_top
    then (do
      bytes ← write_bytes (new_top - s.bottom) value s.bytes
      some (record s { bytes = bytes; top = new_top }))
    else some s

-- A `uint32_t`.
abbrev pub u32_bytes : ℕ → List ℕ
u32_bytes v = v % 2 ^ 8 ∷ v / 2 ^ 8 % 2 ^ 8 ∷ v / 2 ^ 16 % 2 ^ 8 ∷ v / 2 ^ 24 % 2 ^ 8 ∷ []

-- Several pushes, one after the other.
abbrev pub push_all : List ℕ → Stack → Option Stack
push_all [] s = some s
push_all (v ∷ vs) s = do s ← push (u32_bytes v) s; push_all vs s

-- What a new process starts with: the address of `process_starter`, and seven registers.
pub initial_frame : ℕ → Stack → Option Stack
unfolding push
initial_frame starter = push_all (starter ∷ 0 ∷ 0 ∷ 0 ∷ 0 ∷ 0 ∷ 0 ∷ 0 ∷ [])
