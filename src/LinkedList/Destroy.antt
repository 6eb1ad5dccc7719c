-- ===== src/LinkedList/Destroy.antt =====
-- The destructor: what it frees, and what it does not.
use hry_os.Base.{
  ℕ, zero, suc, ◌<◌, ◌≡◌, refl, none, [], ◌∷◌, arith, ==_false, length, if◌then◌else◌,
}
use hry_os.Memory.{Ptr, null, Memory, write, write_ne, load-ok, Returns, returns, bind, mono}
use hry_os.Links.{Cells, first_of, has, Distinct, IsSeg, has-ne, IsSeg-frame}
use hry_os.LinkedList.{Node, node, LinkedList, destroy_loop, destroy}
use hry_os.LinkedList.Shape.{free_node, IsList}

module _ {T : Type 0} where
  -- `g` is `h` less the nodes of `xs`.
  abbrev pub Without : Cells T → Memory (Node T) → Memory (Node T) → Type 0
  Without xs h g = (a : Ptr) → g a ≡ (if has a xs then none else h a)

  destroy_loop-Without :
      (k : ℕ) (h : Memory (Node T)) (prev : Ptr) (xs : Cells T)
      → IsSeg node h prev null xs
      → Distinct xs
      → length xs < k
      → Returns (λ _. Without xs h) (destroy_loop k (first_of xs null) h)
  unfolding destroy_loop
  destroy_loop-Without zero h prev xs s d fuel = absurd (omega arith)
  destroy_loop-Without (suc k) h prev [] s d fuel = returns (λ a. refl)
  destroy_loop-Without (suc k) h prev ((p, v) ∷ xs) s d fuel =
      rw (==_false p null s.0, load-ok h p (node prev (first_of xs null) v) s.0 s.1)
        (mono
          (destroy_loop-Without k (write h p none) p xs
            (IsSeg-frame node h (write h p none) p null xs s.2
              (λ a i. write_ne h p a none (has-ne a p xs i d.0)))
            d.1 (omega arith))
          λ _ g gone a. unfold write in ground (arith, gone a))

  -- On a list of fewer nodes than the fuel, the destructor returns and frees exactly the nodes in
  -- the list. The nodes kept for reuse stay allocated, and the object still points at them.
  pub destroy-Without :
      (fuel : ℕ) (h : Memory (Node T)) (l : LinkedList) (xs ys : Cells T)
      → IsList h l xs ys
      → length xs < fuel
      → Returns (λ l' g. IsList g l' [] ys × Without xs h g) (destroy fuel l h)
  unfolding destroy
  destroy-Without fuel h l xs ys is enough = rw is.head (
      bind (destroy_loop-Without fuel h null xs is.seg is.distinct enough) λ _ g gone. returns (
        record {
          seg = tt;
          kept =
              IsSeg-frame free_node h g null null ys is.kept
                (λ a i. ground (arith, gone a, is.apart a));
          head = refl;
          tail = refl;
          free = is.free;
          distinct = tt;
          distinct_kept = is.distinct_kept;
          apart = λ a i. ground arith;
        },
        gone,
      ))
