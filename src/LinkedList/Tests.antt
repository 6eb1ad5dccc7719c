-- ===== src/LinkedList/Tests.antt =====
-- Runs of the list on concrete memory, and its theorems at that memory.
use hry_os.Base.{◌+◌, ◌≡◌, refl, ℕ, Bool, true, false, none, some, [], ◌∷◌, ◌++◌, arith, leb}
use hry_os.Memory.{Ptr, Memory, write, ok, fault, Returns, Cmd, ◌>>=◌, pure, load, modify}
use hry_os.Links.{Cells, has}
use hry_os.LinkedList.{
  Node, node, LinkedList, empty_list, end_const, back, push_back, push_front, erase, pop_front,
  erase_if, destroy,
}
use hry_os.LinkedList.Shape.{IsList, SameOutside, values}
use hry_os.LinkedList.Push.{push_back-IsList}
use hry_os.LinkedList.Erase.{erase-IsList}
use hry_os.LinkedList.EraseIf.{erase_if-Sieved, Goes}
use hry_os.LinkedList.Values.{sift, erase_if-sift}
use hry_os.LinkedList.Destroy.{destroy-Without, Without}

-- 10, 20 and 30 in the list, and one node kept for reuse.
abbrev xs : Cells ℕ
xs = (1, 10) ∷ (2, 20) ∷ (3, 30) ∷ []

abbrev ys : Cells ℕ
ys = (4, 0) ∷ []

abbrev memory : Memory (Node ℕ)
memory =
    write
      (write (write (write (λ _. none) 1 (some (node 0 2 10))) 2 (some (node 1 3 20))) 3
        (some (node 2 0 30)))
      4 (some (node 0 0 0))

abbrev list : LinkedList
list = record { head = 1; tail = 3; free = 4 }

list-IsList : IsList memory list xs ys
unfolding write
list-IsList = record {
  seg = (ground arith, refl, (ground arith, refl, (ground arith, refl, tt)));
  kept = (ground arith, refl, tt);
  head = refl;
  tail = refl;
  free = refl;
  distinct = (refl, (refl, (refl, tt)));
  distinct_kept = (refl, tt);
  apart = λ a i. ground arith;
}

-- Counts the values and asks for those of at least 20.
abbrev large : ℕ → ℕ → Bool × ℕ
large v n = (leb 20 v, n + 1)

use_list : Cmd (Node ℕ) ℕ
unfolding back load modify write push_back push_front pop_front erase_if
use_list = do
  (_, l) ← push_back true 1 10 empty_list
  (_, l) ← push_back true 2 20 l
  l ← pop_front true l
  (_, l) ← push_front true 9 30 l
  (l, n) ← erase_if true 5 (λ v n. (leb 30 v, n + 1)) l 0
  v ← back l
  pure (v + n)

use_list_result : (g : Memory (Node ℕ)) × (use_list (λ _. none) ≡ ok 22 g)
unfolding use_list
use_list_result = (_, refl)

const_end_of_empty : end_const empty_list memory ≡ fault
unfolding end_const load
const_end_of_empty = refl

pop_front_of_empty : pop_front true empty_list memory ≡ fault
unfolding pop_front load
pop_front_of_empty = refl

five_unused : memory 5 ≡ none
unfolding write
five_unused = refl

push_back-IsList_example :
    Returns
      (λ (n, l) g. (n ≡ 4) × IsList g l (xs ++ (4, 40) ∷ []) [] × SameOutside xs ys 5 memory g)
      (push_back true 5 40 list memory)
push_back-IsList_example =
    push_back-IsList true 5 40 xs ys list-IsList (λ e. omega arith) five_unused

erase-IsList_example :
    Returns
      (λ l g.
        IsList g l ((1, 10) ∷ (3, 30) ∷ []) ((2, 20) ∷ ys)
        × ((a : Ptr) → has a xs ≡ false → g a ≡ memory a)
        × ((true ≡ false) → g 2 ≡ none))
      (erase true 2 list memory)
erase-IsList_example = erase-IsList 2 20 ((1, 10) ∷ []) ((3, 30) ∷ []) ys list-IsList true

-- Without reuse, the nodes 2 and 3 are freed.
erase_if-Sieved_example :
    Returns
      (λ (l, s) g.
        IsList g l ((1, 10) ∷ []) ys
        × (s ≡ 3)
        × ((a : Ptr) → has a xs ≡ false → g a ≡ memory a)
        × ((a : Ptr) → Goes false large a xs 0 → g a ≡ none))
      (erase_if false 4 large list 0 memory)
erase_if-Sieved_example =
    erase_if-Sieved false large 4 memory list xs ys 0 list-IsList (omega arith)

destroy-Without_example :
    Returns (λ l g. IsList g l [] ys × Without xs memory g) (destroy 4 list memory)
destroy-Without_example = destroy-Without 4 memory list xs ys list-IsList (omega arith)

erase_if-sift_example :
    Returns
      (λ (l, n) g.
        (zs : Cells ℕ) × (kept : Cells ℕ) × IsList g l zs kept
        × ((values zs, n) ≡ sift large (values xs) 0))
      (erase_if false 4 large list 0 memory)
erase_if-sift_example = erase_if-sift false large 4 memory list xs ys 0 list-IsList (omega arith)
