-- ===== src/KernelHeap/Largest.antt =====
-- The segment that `init` picks, and the heap that it makes of it.
use mathlib.Core.Path.{subst}
use hry_os.Base.{
  ℕ, ◌%◌, ◌^◌, ◌<◌, ◌≤◌, ◌≡◌, refl, sym, ap, ◌∙◌, ◌⊎◌, inl, inr, true, false, ◌&&◌, none, some,
  List, [], ◌∷◌, arith, if◌then◌else◌, ltb, leb, Bool-cases,
}
use hry_os.Memory.{Memory, fault}
use hry_os.Allocator.{Block}
use hry_os.Allocator.Create.{create-refuses}
use hry_os.KernelHeap.{
  init, start_heap, Entry, is_available, no_entry, is_usable, find_largest, max_length, heap_range,
}

abbrev pub In : Entry → List Entry → Type 0
In e [] = ⊥
In e (x ∷ xs) = (e ≡ x) ⊎ In e xs

-- What `e` is among `entries`, where the search began with `start`.
pub record IsLargest (start e : Entry) (entries : List Entry) : Type 0 where
  pub found : (e ≡ start) ⊎ (In e entries × (is_usable e ≡ true))
  pub start_below : start.length ≤ e.length
  pub below : (x : Entry) → In x entries → is_usable x ≡ true → x.length ≤ e.length

take-IsLargest :
    (entry start e : Entry) (entries : List Entry)
    → (is_usable entry && ltb start.length entry.length) ≡ true
    → IsLargest entry e entries
    → IsLargest start e (entry ∷ entries)
take-IsLargest entry start e entries take is = record {
  found = elim is.found [
    | inl here ↦ inr (inl here, ap is_usable here ∙ ground arith)
    | inr (there, usable) ↦ inr (inr there, usable)
  ];
  start_below = ground (arith, is.start_below);
  below = λ x i u. elim i [
    | inl here ↦ omega (arith, is.start_below, ap (λ y. y.length) here)
    | inr there ↦ is.below x there u
  ];
}

leave-IsLargest :
    (entry start e : Entry) (entries : List Entry)
    → (is_usable entry && ltb start.length entry.length) ≡ false
    → IsLargest start e entries
    → IsLargest start e (entry ∷ entries)
leave-IsLargest entry start e entries leave is = record {
  found = elim is.found [ inl here ↦ inl here | inr (there, usable) ↦ inr (inr there, usable) ];
  start_below = is.start_below;
  below = λ x i u. elim i [
    | inl here ↦
        let usable : is_usable entry ≡ true = ap is_usable (sym here) ∙ u in
        let short : entry.length ≤ start.length = ground arith in
        omega (arith, is.start_below, short, ap (λ y. y.length) here)
    | inr there ↦ is.below x there u
  ];
}

larger-IsLargest :
    (entry start e : Entry) (entries : List Entry)
    → IsLargest
        (if is_usable entry && ltb start.length entry.length then entry else start)
        e
        entries
    → IsLargest start e (entry ∷ entries)
larger-IsLargest entry start e entries is =
    elim (Bool-cases (is_usable entry && ltb start.length entry.length)) [
      | inl take ↦
          take-IsLargest entry start e entries take
            (subst (λ b. IsLargest (if b then entry else start) e entries) take is)
      | inr leave ↦
          leave-IsLargest entry start e entries leave
            (subst (λ b. IsLargest (if b then entry else start) e entries) leave is)
    ]

-- The loop of `kheap::init` ends with the entry that it began with or with a usable one of the map,
-- and no usable entry of the map, nor the first, is longer.
pub find_largest-IsLargest :
    (start : Entry) (entries : List Entry) → IsLargest start (find_largest entries start) entries
unfolding find_largest
find_largest-IsLargest start [] = record {
  found = inl refl;
  start_below = omega arith;
  below = λ x i u. absurd i;
}
find_largest-IsLargest start (entry ∷ entries) = larger-IsLargest entry start _ entries (
    find_largest-IsLargest
      (if is_usable entry && ltb start.length entry.length then entry else start) entries)

-- The end of the heap does not depend on where the segment starts.
heap_range-high :
    (kernel_start kernel_end : ℕ) (e : Entry)
    → 2 ^ 30 < e.addr
    → e.addr < 2 ^ 32
    → kernel_end < 2 ^ 30
    → (heap_range kernel_start kernel_end e ≡ none)
      ⊎ ((end : ℕ) × (heap_range kernel_start kernel_end e ≡ some (e.addr, end)) × (end < e.addr))
unfolding heap_range
heap_range-high kernel_start kernel_end e above below kernel =
    elim (Bool-cases (is_available e.kind)) [
      | inr other ↦ inl (rw other refl)
      | inl kind ↦ elim (Bool-cases (ltb 10485760 e.length)) [
        | inr short ↦ inl (rw (kind, short) refl)
        | inl long ↦
            let start : e.addr % 2 ^ 32 ≡ e.addr = omega arith in
            let outside : leb e.addr kernel_end ≡ false = ground arith in
            elim (Bool-cases (ltb max_length e.length)) [
              | inl cut ↦
                  let away : (leb kernel_start e.addr && false) ≡ false = ground arith in
                  inr (max_length, rw (kind, long, start, outside, cut, away) refl, above)
              | inr whole ↦
                  let away : (leb kernel_start e.addr && false) ≡ false = ground arith in
                  let bound : e.length % 2 ^ 32 ≡ e.length = ground arith in
                  inr (
                    e.length,
                    rw (kind, long, start, outside, whole, bound, away) refl,
                    ground arith,
                  )
            ]
      ]
    ]

-- Where the largest usable segment starts above 1 GB and below 4 GB, with the kernel below 1 GB,
-- `kheap::init` fails.
pub init-high :
    (kernel_start kernel_end : ℕ) (entries : List Entry) (h : Memory Block)
    → 2 ^ 30 < (find_largest entries no_entry).addr
    → (find_largest entries no_entry).addr < 2 ^ 32
    → kernel_end < 2 ^ 30
    → init kernel_start kernel_end entries h ≡ fault
unfolding init
init-high kernel_start kernel_end entries h above below kernel =
    let e = find_largest entries no_entry in
    elim (heap_range-high kernel_start kernel_end e above below kernel) [
      | inl refused ↦ ap (λ r. start_heap r h) refused
      | inr (end, range, backwards) ↦
          ap (λ r. start_heap r h) range ∙ rw (create-refuses h e.addr end backwards) refl
    ]
