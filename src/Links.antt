-- ===== src/Links.antt =====
-- Doubly linked segments of nodes in memory. The node type is a parameter: `mk prev next v` is the
-- node with those two links that carries `v`. Used for the nodes of code/hlib/include/list.hpp and
-- for the blocks of code/kernel/memory/allocator.hpp.
pub mod Relink
pub mod Unlink
use hry_os.Base.{
  ◌≡◌, ◌≢◌, refl, sym, ap, ◌∙◌, Bool, true, false, ◌||◌, some, List, [], ◌∷◌, ◌++◌, arith, ◌==◌,
}
use mathlib.Core.Bool.{false≢true}
use hry_os.Memory.{Ptr, null, Memory}

-- What a segment stands for: address and content of each node, in order.
abbrev pub Cells : Type 0 → Type 0
Cells A = List (Ptr × A)

module _ {A : Type 0} where
  abbrev pub first_of : Cells A → Ptr → Ptr
  first_of [] q = q
  first_of ((p, _) ∷ _) q = p

  abbrev pub last_of : Ptr → Cells A → Ptr
  last_of q [] = q
  last_of q ((p, _) ∷ xs) = last_of p xs

  abbrev pub has : Ptr → Cells A → Bool
  has a [] = false
  has a ((p, _) ∷ xs) = (a == p) || has a xs

  abbrev pub Distinct : Cells A → Type 0
  Distinct [] = Unit {0}
  Distinct ((p, _) ∷ xs) = (has p xs ≡ false) × Distinct xs

  abbrev pub Disjoint : Cells A → Cells A → Type 0
  Disjoint xs ys = (a : Ptr) → has a xs ≡ true → has a ys ≡ false

  pub first_of-append :
      (xs ys : Cells A) (q : Ptr) → first_of (xs ++ ys) q ≡ first_of xs (first_of ys q)
  first_of-append [] ys q = refl
  first_of-append ((p, v) ∷ xs) ys q = refl

  pub last_of-append :
      (q : Ptr) (xs ys : Cells A) → last_of q (xs ++ ys) ≡ last_of (last_of q xs) ys
  last_of-append q [] ys = refl
  last_of-append q ((p, v) ∷ xs) ys = last_of-append p xs ys

  pub has-append : (a : Ptr) (xs ys : Cells A) → has a (xs ++ ys) ≡ (has a xs || has a ys)
  has-append a [] ys = refl
  has-append a ((p, v) ∷ xs) ys = ground (arith, has-append a xs ys)

  pub has-ne : (a b : Ptr) (xs : Cells A) → has a xs ≡ true → has b xs ≡ false → a ≢ b
  has-ne a b xs i o e = absurd (false≢true (sym o ∙ ap (λ c. has c xs) (sym e) ∙ i))

  pub has_self : (p : Ptr) (v : A) (xs : Cells A) → has p ((p, v) ∷ xs) ≡ true
  has_self p v xs = ground arith

  pub has-remove :
      (a n : Ptr) (v : A) (xs ys : Cells A)
      → has a (xs ++ (n, v) ∷ ys) ≡ false
      → has a (xs ++ ys) ≡ false
  has-remove a n v [] ys o = ground arith
  has-remove a n v ((q, w) ∷ xs) ys o = ground (arith, has-remove a n v xs ys)

  pub Disjoint-sym : (xs ys : Cells A) → Disjoint xs ys → Disjoint ys xs
  Disjoint-sym xs ys d a i = ground (arith, d a)

  pub has-middle : (p : Ptr) (v : A) (xs ys : Cells A) → has p (xs ++ (p, v) ∷ ys) ≡ true
  has-middle p v [] ys = has_self p v ys
  has-middle p v ((q, w) ∷ xs) ys = ground (arith, has-middle p v xs ys)

  pub has-last_of : (p : Ptr) (v : A) (xs : Cells A) → has (last_of p xs) ((p, v) ∷ xs) ≡ true
  has-last_of p v [] = ground arith
  has-last_of p v ((q, w) ∷ xs) = ground (arith, has-last_of q w xs)

  pub Distinct-append :
      (xs ys : Cells A) → Distinct xs → Distinct ys → Disjoint xs ys → Distinct (xs ++ ys)
  Distinct-append [] ys dx dy d = dy
  Distinct-append ((p, v) ∷ xs) ys dx dy d = (
    ground (arith, has-append p xs ys, d p),
    Distinct-append xs ys dx.1 dy (λ a i. ground (arith, d a)),
  )

  pub Distinct-snoc :
      (xs : Cells A) (p : Ptr) (v : A) → Distinct (xs ++ (p, v) ∷ []) → has p xs ≡ false
  Distinct-snoc [] p v d = refl
  Distinct-snoc ((q, w) ∷ xs) p v d =
      ground (arith, Distinct-snoc xs p v d.1, has-append q xs ((p, v) ∷ []))

  pub Distinct-left : (xs ys : Cells A) → Distinct (xs ++ ys) → Distinct xs
  Distinct-left [] ys d = tt
  Distinct-left ((p, v) ∷ xs) ys d = (ground (arith, has-append p xs ys), Distinct-left xs ys d.1)

  pub Distinct-right : (xs ys : Cells A) → Distinct (xs ++ ys) → Distinct ys
  Distinct-right [] ys d = d
  Distinct-right ((p, v) ∷ xs) ys d = Distinct-right xs ys d.1

  pub Distinct-Disjoint : (xs ys : Cells A) → Distinct (xs ++ ys) → Disjoint xs ys
  Distinct-Disjoint [] ys d a i = cc
  Distinct-Disjoint ((p, v) ∷ xs) ys d a i =
      ground (arith, has-append p xs ys, has-append a xs ys, Distinct-Disjoint xs ys d.1 a)

module _ {N A : Type 0} (mk : Ptr → Ptr → A → N) where
  -- The nodes `xs` in order, linked both ways; `prev` stands before them and `stop` after them.
  abbrev pub IsSeg : Memory N → Ptr → Ptr → Cells A → Type 0
  IsSeg h prev stop [] = Unit {0}
  IsSeg h prev stop ((p, v) ∷ xs) =
      (p ≢ null) × (h p ≡ some (mk prev (first_of xs stop) v)) × IsSeg h p stop xs

  pub IsSeg-frame :
      (h g : Memory N) (prev stop : Ptr) (xs : Cells A)
      → IsSeg h prev stop xs
      → ((a : Ptr) → has a xs ≡ true → g a ≡ h a)
      → IsSeg g prev stop xs
  IsSeg-frame h g prev stop [] s same = tt
  IsSeg-frame h g prev stop ((p, v) ∷ xs) s same =
      (s.0, ground (arith, same p), IsSeg-frame h g p stop xs s.2 (λ a i. ground (arith, same a)))

  pub IsSeg-append :
      (h : Memory N) (prev stop : Ptr) (xs ys : Cells A)
      → IsSeg h prev (first_of ys stop) xs
      → IsSeg h (last_of prev xs) stop ys
      → IsSeg h prev stop (xs ++ ys)
  IsSeg-append h prev stop [] ys s t = t
  IsSeg-append h prev stop ((p, v) ∷ xs) ys s t =
      (s.0, ground (arith, first_of-append xs ys stop), IsSeg-append h p stop xs ys s.2 t)

  pub IsSeg-split :
      (h : Memory N) (prev stop : Ptr) (xs ys : Cells A)
      → IsSeg h prev stop (xs ++ ys)
      → IsSeg h prev (first_of ys stop) xs × IsSeg h (last_of prev xs) stop ys
  IsSeg-split h prev stop [] ys s = (tt, s)
  IsSeg-split h prev stop ((p, v) ∷ xs) ys s =
      let rest = IsSeg-split h p stop xs ys s.2 in
      ((s.0, ground (arith, first_of-append xs ys stop), rest.0), rest.1)
