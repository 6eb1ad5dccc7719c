-- ===== src/Allocator.antt =====
-- code/kernel/memory/allocator.hpp: the heap allocator. Blocks stand in the heap's memory, linked both
-- ways in the order of their addresses, between a head and a tail block of size 0. Memory is seen
-- block-wise: an address holds a block header or none. Numbers and addresses have 32 bits, so a block
-- header and the allocator's own header take 16 bytes each. The log lines are left out.
pub mod Align
pub mod Layout
pub mod Find
pub mod Update
pub mod Split
pub mod Merge
pub mod Allocate
pub mod FirstFit
pub mod Release
pub mod Released
pub mod Freed
pub mod Free
pub mod Held
pub mod Promise
pub mod Create
pub mod Sample
mod Tests
use Prim.Native.Nat.{bit_and}
use hry_os.Base.{
  ℕ, zero, suc, ◌+◌, ◌-◌, ◌*◌, ◌/◌, Bool, true, false, Option, none, some, ltb, leb, ◌==◌,
  if◌then◌else◌, add32, sub32, mul32, u32_mod, not,
}
use hry_os.Memory.{Ptr, null, Memory, Cmd, out_of_fuel, pure, ◌>>=◌, ◌>>◌, store, load, modify}

abbrev pub sizeof_block : ℕ
sizeof_block = 16

abbrev pub sizeof_allocator : ℕ
sizeof_allocator = 16

abbrev pub aligned : ℕ
aligned = 8

pub data State : Type 0 where
  free allocated : State

pub record Block : Type 0 where
  pub prev : Ptr
  pub next : Ptr
  pub size : ℕ
  pub state : State

abbrev pub is_free_state : State → Bool
is_free_state free = true
is_free_state allocated = false

abbrev pub is_free : Block → Bool
is_free b = is_free_state b.state

abbrev pub get_data_address : Ptr → Ptr
get_data_address block = add32 block sizeof_block

pub record Allocator : Type 0 where
  pub memory_start : ℕ
  pub memory_length : ℕ
  pub head : Ptr
  pub tail : Ptr

-- `(value + align - 1) & ~(align - 1)`
pub align_to : ℕ → ℕ → ℕ
align_to value align = bit_and (sub32 (add32 value align) 1) (u32_mod - 1 - sub32 align 1)

-- A difference of block pointers counts whole blocks; the compiled code rounds it down.
pub calc_size_between : Ptr → Ptr → ℕ
calc_size_between first second =
    if ltb first second
    then mul32 (sub32 ((second - first) / sizeof_block) 1) sizeof_block
    else mul32 (sub32 ((first - second) / sizeof_block) 1) sizeof_block

abbrev create_layout : ℕ → ℕ → Cmd Block (Option Allocator)
create_layout memory_start memory_end =
    let head = add32 memory_start sizeof_allocator in
    let tail = sub32 memory_end sizeof_block in
    let first = add32 head sizeof_block in
    (do
      store head (some (record { prev = null; next = first; size = 0; state = allocated }))
      store tail (some (record { prev = first; next = null; size = 0; state = allocated }))
      store first (
          some (record {
            prev = head;
            next = tail;
            size = calc_size_between tail first;
            state = free;
          }))
      pure (
          some (record {
            memory_start = memory_start;
            memory_length = memory_end - memory_start;
            head = head;
            tail = tail;
          })))

pub create : ℕ → ℕ → Cmd Block (Option Allocator)
create memory_start memory_end =
    if ltb memory_end memory_start
    then pure none
    else if ltb (memory_end - memory_start) (sizeof_allocator + sizeof_block)
    then pure none
    else create_layout memory_start memory_end

pub find_fit_loop : ℕ → Ptr → ℕ → Ptr → Cmd Block Ptr
find_fit_loop zero tail size node = λ _. out_of_fuel
find_fit_loop (suc k) tail size node = if node == tail then pure null else do
  b ← load node
  let rest = find_fit_loop k tail size b.next
  if not (is_free b) then rest else if leb size b.size then pure node else rest

pub find_fit : ℕ → ℕ → Allocator → Cmd Block Ptr
unfolding find_fit_loop
find_fit fuel size a = do head ← load a.head; find_fit_loop fuel a.tail size head.next

-- The part of a block that is left over becomes a free block behind it.
pub split_block : Ptr → ℕ → Cmd Block (Unit {0})
split_block block size = do
  b ← load block
  let new_free_block = add32 (add32 block sizeof_block) size
  store new_free_block (
      some (record {
        prev = block;
        next = b.next;
        size = calc_size_between b.next new_free_block;
        state = free;
      }))
  modify block (λ x. record x { next = new_free_block; size = size })
  modify b.next (λ x. record x { prev = new_free_block })

pub allocate : ℕ → ℕ → Allocator → Cmd Block ℕ
unfolding align_to find_fit split_block
allocate fuel requested a = do
  let size = align_to requested aligned
  block ← find_fit fuel size a
  if block == null then pure 0 else do
    b ← load block
    if leb (add32 size sizeof_block) b.size then split_block block size else pure tt
    modify block (λ x. record x { state = allocated })
    pure (get_data_address block)

-- The loop of `free` that looks for the block in the list.
pub is_listed : ℕ → Ptr → Ptr → Cmd Block Bool
is_listed zero node curr = λ _. out_of_fuel
is_listed (suc k) node curr =
    if curr == null
    then pure false
    else if node == curr
    then pure true
    else do b ← load curr; is_listed k node b.next

pub merge_with_next_block : ℕ → Ptr → Cmd Block (Unit {0})
merge_with_next_block zero node = λ _. out_of_fuel
merge_with_next_block (suc k) node = do
  n ← load node
  second ← load n.next
  let next = second.next
  modify node (λ x. record x { next = next; size = calc_size_between node next })
  modify next (λ x. record x { prev = node })
  third ← load next
  if is_free third then merge_with_next_block k node else pure tt

pub free_block : ℕ → Ptr → Allocator → Cmd Block (Unit {0})
unfolding is_listed merge_with_next_block
free_block fuel addr a = do
  let node = sub32 addr sizeof_block
  found ← is_listed fuel node a.head
  if not found then pure tt else do
    modify node (λ x. record x { state = free })
    n ← load node
    before ← load n.prev
    if is_free before then merge_with_next_block fuel n.prev else do
      behind ← load n.next
      if is_free behind then merge_with_next_block fuel node else pure tt
