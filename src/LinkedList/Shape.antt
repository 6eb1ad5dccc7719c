-- ===== src/LinkedList/Shape.antt =====
-- The representation of `hlib::list`: the nodes in the list, linked both ways, and those kept for
-- reuse, linked one way.
use hry_os.Base.{◌≡◌, ◌≢◌, ◌||◌, Bool, true, false, List, [], ◌∷◌, arith}
use hry_os.Memory.{Ptr, null, Memory}
use hry_os.Links.{Cells, first_of, last_of, has, Distinct, Disjoint, IsSeg, IsSeg-frame}
use hry_os.LinkedList.{Node, node, LinkedList}

-- A node that waits for reuse has no `prev` link.
abbrev pub free_node : {T : Type 0} → Ptr → Ptr → T → Node T
free_node p n value = node null n value

-- The nodes kept for reuse once the node `n` is erased.
abbrev pub kept_with : {T : Type 0} → Bool → Ptr → T → Cells T → Cells T
kept_with true n v ys = (n, v) ∷ ys
kept_with false n v ys = ys

-- `l` holds the nodes `xs`, in order, and keeps the erased nodes `ys`.
pub record IsList {T : Type 0} (h : Memory (Node T)) (l : LinkedList) (xs ys : Cells T)
    : Type 0 where
  pub seg : IsSeg node h null null xs
  pub kept : IsSeg free_node h null null ys
  pub head : l.head ≡ first_of xs null
  pub tail : l.tail ≡ last_of null xs
  pub free : l.free ≡ first_of ys null
  pub distinct : Distinct xs
  pub distinct_kept : Distinct ys
  pub apart : Disjoint xs ys

-- The values that a list stands for.
abbrev pub values : {T : Type 0} → Cells T → List T
values [] = []
values ((p, v) ∷ xs) = v ∷ values xs

-- `g` differs from `h` at most at the nodes of `xs` and `ys` and at `fresh`.
abbrev pub SameOutside :
    {T : Type 0} → Cells T → Cells T → Ptr → Memory (Node T) → Memory (Node T) → Type 0
SameOutside xs ys fresh h g = (a : Ptr) → (has a xs || has a ys) ≡ false → a ≢ fresh → g a ≡ h a

module _ {T : Type 0} (h g : Memory (Node T)) where
  -- The list survives any change that spares its nodes.
  pub IsList-frame :
      {l : LinkedList} {xs ys : Cells T}
      → IsList h l xs ys
      → ((a : Ptr) → (has a xs || has a ys) ≡ true → g a ≡ h a)
      → IsList g l xs ys
  IsList-frame {xs} {ys} is same = record {
    seg = IsSeg-frame node h g null null xs is.seg (λ a i. same a (ground arith));
    kept = IsSeg-frame free_node h g null null ys is.kept (λ a i. same a (ground arith));
    head = is.head;
    tail = is.tail;
    free = is.free;
    distinct = is.distinct;
    distinct_kept = is.distinct_kept;
    apart = is.apart;
  }

-- The last node of a list that is not empty is the null pointer only if the list is empty.
pub last_of-ne-null :
    {T : Type 0} (h : Memory (Node T)) (prev p : Ptr) (v : T) (xs : Cells T)
    → IsSeg node h prev null ((p, v) ∷ xs)
    → last_of p xs ≢ null
last_of-ne-null h prev p v [] s = s.0
last_of-ne-null h prev p v ((q, w) ∷ xs) s = last_of-ne-null h p q w xs s.2
