-- ===== src/LinkedList/EraseIf.antt =====
-- `end`, `front` and `erase_if`: the loop visits every node once, in order, and takes out those that
-- the predicate asks for.
use hry_os.Base.{
  ℕ, zero, suc, ◌<◌, ◌≡◌, refl, sym, ap, ◌∙◌, Bool, true, false, [], ◌∷◌, ◌++◌, arith, ◌==◌,
  ==_false, ==_true, if◌then◌else◌, Bool-cases, append-nil, append_assoc, length, inl, inr,
}
use mathlib.Core.Path.{subst}
use mathlib.Core.Bool.{false≢true}
use hry_os.Memory.{Ptr, null, Memory, load-ok, Returns, returns, bind, mono, ok}
use hry_os.Links.{Cells, first_of, last_of, has, has-remove, last_of-append, IsSeg-split}
use hry_os.Links.Unlink.{out_unlinked}
use hry_os.Links.Relink.{last_node}
use hry_os.LinkedList.{
  Node, node, LinkedList, end, front, erase, erase_if_loop, erase_if, pop_front, pop_back,
}
use hry_os.LinkedList.Shape.{IsList, kept_with}
use hry_os.LinkedList.Erase.{erase-IsList}
use hry_os.Base.{none}

module _ {T : Type 0} {h : Memory (Node T)} {l : LinkedList} where
  -- `end` is null, on every list.
  pub end-null : (xs ys : Cells T) → IsList h l xs ys → end l h ≡ ok null h
  unfolding end
  end-null [] ys is = let was_empty : (l.tail == null) ≡ true = ground arith in rw was_empty
  end-null ((p, v) ∷ xs) ys is =
      let last = last_node node h null null p v xs is.seg in
      rw (
        is.tail,
        ==_false (last_of p xs) null last.ne_null,
        load-ok h (last_of p xs) (node last.before null last.content) last.ne_null last.holds,
      )

  pub front-first :
      (p : Ptr) (v : T) (xs ys : Cells T) → IsList h l ((p, v) ∷ xs) ys → front l h ≡ ok v h
  unfolding front
  front-first p v xs ys is =
      rw (is.head, load-ok h p (node null (first_of xs null) v) is.seg.0 is.seg.1)

module _ {T S : Type 0} (func : T → S → Bool × S) where
  -- The nodes that stay, and the predicate's state at the end.
  abbrev pub sieve : Cells T → S → Cells T × S
  sieve [] s = ([], s)
  sieve ((p, v) ∷ xs) s =
      let (hit, s') = func v s in
      let (rest, t) = sieve xs s' in (if hit then rest else (p, v) ∷ rest, t)

  -- The kept nodes at the end: each erased node is put before them.
  abbrev pub kept_by : Bool → Cells T → S → Cells T → Cells T
  kept_by store_erased [] s ys = ys
  kept_by store_erased ((p, v) ∷ xs) s ys =
      let (hit, s') = func v s in
      kept_by store_erased xs s' (if hit then kept_with store_erased p v ys else ys)

module _ {T S : Type 0} (store_erased : Bool) (func : T → S → Bool × S) where
  -- A node that is erased and not kept for reuse.
  abbrev pub Goes : Ptr → Cells T → S → Type 0
  Goes a xs s = (store_erased ≡ false) × (has a xs ≡ true) × (has a (sieve func xs s).0 ≡ false)

  Goes-hit :
      (a n : Ptr) (v : T) (rs : Cells T) (s : S)
      → (func v s).0 ≡ true
      → (a == n) ≡ false
      → Goes a ((n, v) ∷ rs) s
      → Goes a rs (func v s).1
  Goes-hit a n v rs s hit other (unkept, there, gone) =
      let rest = (sieve func rs (func v s).1).0 in
      (unkept, ground arith, ap (λ b. has a (if b then rest else (n, v) ∷ rest)) (sym hit) ∙ gone)

  Goes-miss :
      (a n : Ptr) (v : T) (rs : Cells T) (s : S)
      → (func v s).0 ≡ false
      → Goes a ((n, v) ∷ rs) s
      → Goes a rs (func v s).1
  Goes-miss a n v rs s miss (unkept, there, gone) =
      let rest = (sieve func rs (func v s).1).0 in
      let gone' : has a ((n, v) ∷ rest) ≡ false =
        ap (λ b. has a (if b then rest else (n, v) ∷ rest)) (sym miss) ∙ gone in
      (unkept, ground arith, ground arith)

  -- What the loop has done when it stops: `ls` is the part of the list behind the iterator.
  abbrev Sieved :
      Memory (Node T) → (ls rs ys : Cells T) → S → LinkedList × S → Memory (Node T) → Type 0
  Sieved h ls rs ys s (l', s') g =
      IsList g l' (ls ++ (sieve func rs s).0) (kept_by func store_erased rs s ys)
      × (s' ≡ (sieve func rs s).1)
      × ((a : Ptr) → has a (ls ++ rs) ≡ false → g a ≡ h a)
      × ((a : Ptr) → Goes a rs s → g a ≡ none)

  erase_if_loop-Sieved :
      (k : ℕ) (h : Memory (Node T)) (l : LinkedList) (ls rs ys : Cells T) (s : S)
      → IsList h l (ls ++ rs) ys
      → length rs < k
      → Returns (Sieved h ls rs ys s) (erase_if_loop store_erased k func (first_of rs null) l s h)
  unfolding erase_if_loop
  erase_if_loop-Sieved zero h l ls rs ys s is fuel = absurd (omega arith)
  erase_if_loop-Sieved (suc k) h l ls [] ys s is fuel =
      rw (end-null (ls ++ []) ys is)
        (returns (is, refl, (λ a o. refl), λ a (_, there, _). absurd (false≢true there)))
  erase_if_loop-Sieved (suc k) h l ls ((n, v) ∷ rs) ys s is fuel =
      let here = (IsSeg-split node h null null ls ((n, v) ∷ rs) is.seg).1 in
      rw
        (
          end-null (ls ++ (n, v) ∷ rs) ys is,
          ==_false n null here.0,
          load-ok h n (node (last_of null ls) (first_of rs null) v) here.0 here.1,
        )
        (elim (Bool-cases (func v s).0) [
          | inl hit ↦ rw hit (
              bind (erase-IsList n v ls rs ys is store_erased) λ l1 g (list, same, freed).
                mono
                  (erase_if_loop-Sieved k g l1 ls rs (kept_with store_erased n v ys) (func v s).1
                    list (omega arith))
                  λ (l', s') g' (list', state, same', freed'). (
                    rw hit list',
                    state,
                    (λ a o. same' a (has-remove a n v ls rs o) ∙ same a o),
                    λ a goes. elim (Bool-cases (a == n)) [
                      | inl e ↦
                          same' a (
                            ap (λ c. has c (ls ++ rs)) (==_true a n e)
                            ∙ out_unlinked n v ls rs is.distinct)
                          ∙ ap g (==_true a n e)
                          ∙ freed goes.0
                      | inr other ↦ freed' a (Goes-hit a n v rs s hit other goes)
                    ],
                  ))
          | inr miss ↦ rw miss (
              mono
                (erase_if_loop-Sieved k h l (ls ++ (n, v) ∷ []) rs ys (func v s).1
                  (subst (λ xs. IsList h l xs ys) (sym (append_assoc ls ((n, v) ∷ []) rs)) is)
                  (omega arith))
                λ (l', s') g' (list', state, same', freed'). (
                  rw miss (
                      subst (λ xs. IsList g' l' xs (kept_by func store_erased rs (func v s).1 ys))
                        (append_assoc ls ((n, v) ∷ []) (sieve func rs (func v s).1).0) list'),
                  state,
                  (λ a o. same' a (ap (has a) (append_assoc ls ((n, v) ∷ []) rs) ∙ o)),
                  λ a goes. freed' a (Goes-miss a n v rs s miss goes),
                ))
        ])

  -- On a list of fewer nodes than the fuel, `erase_if` returns, visits the nodes in order with
  -- the predicate's state threaded through, leaves in the list exactly those that it does not ask
  -- for, in their order, keeps the others for reuse or, where the list does not reuse nodes,
  -- frees each of them, and touches no other memory.
  pub erase_if-Sieved :
      (fuel : ℕ) (h : Memory (Node T)) (l : LinkedList) (xs ys : Cells T) (s : S)
      → IsList h l xs ys
      → length xs < fuel
      → Returns
          (λ (l', s') g.
            IsList g l' (sieve func xs s).0 (kept_by func store_erased xs s ys)
            × (s' ≡ (sieve func xs s).1)
            × ((a : Ptr) → has a xs ≡ false → g a ≡ h a)
            × ((a : Ptr) → Goes a xs s → g a ≡ none))
          (erase_if store_erased fuel func l s h)
  unfolding erase_if
  erase_if-Sieved fuel h l xs ys s is enough =
      subst (λ p. Returns (Sieved h [] xs ys s) (erase_if_loop store_erased fuel func p l s h))
        (sym is.head) (erase_if_loop-Sieved fuel h l [] xs ys s is enough)

module _ {T : Type 0} (store_erased : Bool) {h : Memory (Node T)} {l : LinkedList} where
  -- `pop_front` takes out the first node of a list that has one, and frees it or keeps it for
  -- reuse.
  pub pop_front-IsList :
      (n : Ptr) (v : T) (xs ys : Cells T)
      → IsList h l ((n, v) ∷ xs) ys
      → Returns
          (λ l' g. IsList g l' xs (kept_with store_erased n v ys))
          (pop_front store_erased l h)
  unfolding pop_front
  pop_front-IsList n v xs ys is =
      subst
        (λ p.
          Returns (λ l' g. IsList g l' xs (kept_with store_erased n v ys))
            (erase store_erased p l h))
        (sym is.head) (mono (erase-IsList n v [] xs ys is store_erased) λ l' g (list, _, _). list)

  -- `pop_back` takes out the last node of a list that has one, and frees it or keeps it for
  -- reuse.
  pub pop_back-IsList :
      (n : Ptr) (v : T) (xs ys : Cells T)
      → IsList h l (xs ++ (n, v) ∷ []) ys
      → Returns (λ l' g. IsList g l' xs (kept_with store_erased n v ys)) (pop_back store_erased l h)
  unfolding pop_back
  pop_back-IsList n v xs ys is =
      subst
        (λ p.
          Returns (λ l' g. IsList g l' xs (kept_with store_erased n v ys))
            (erase store_erased p l h))
        (sym (is.tail ∙ last_of-append null xs ((n, v) ∷ [])))
        (mono (erase-IsList n v xs [] ys is store_erased) λ l' g (list, same, freed).
          subst (λ zs. IsList g l' zs (kept_with store_erased n v ys)) (append-nil xs) list)
