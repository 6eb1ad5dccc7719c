-- ===== src/LinkedList/Push.antt =====
-- `push_back` and `push_front`.
use hry_os.Base.{
  ◌≡◌, ◌≢◌, refl, sym, ◌∙◌, Bool, true, false, none, [], ◌∷◌, ◌++◌, arith, ◌==◌, ==_false,
  if◌then◌else◌,
}
use mathlib.Core.Path.{subst}
use hry_os.Memory.{pure, ◌>>◌, Ptr, null, Memory, Returns, returns, bind, mono}
use hry_os.Links.{Cells, first_of, last_of, has, has-ne, has-last_of, has_self}
use hry_os.Links.Relink.{last_node}
use hry_os.LinkedList.{Node, node, LinkedList, push_back, push_front, join}
use hry_os.LinkedList.Taken.{
  Taken, get_free_node-Taken, join-ok, reuse, reuse-ne, linked_back-IsList, linked_back-same,
  linked_front-IsList, linked_front-same,
}
use hry_os.LinkedList.Shape.{IsList, SameOutside}

module _ {T : Type 0} (n : Ptr) (v : T) {h0 h : Memory (Node T)} {l : LinkedList} where
  push_back-link :
      (xs ys : Cells T)
      → Taken h0 xs ys n v l h
      → Returns
          (λ (m, l') g.
            (m ≡ n)
            × IsList g l' (xs ++ (n, v) ∷ []) ys
            × ((a : Ptr) → has a xs ≡ false → a ≢ n → g a ≡ h a))
          ((if l.tail == null
              then pure (n, record l { head = n; tail = n })
              else (do join l.tail n; pure (n, record l { tail = n })))
            h)
  push_back-link [] ys got =
      let was_empty : (l.tail == null) ≡ true = ground arith in
      rw was_empty (
        returns (
          refl,
          record {
            seg = (got.ne_null, got.holds, tt);
            kept = got.list.kept;
            head = refl;
            tail = refl;
            free = got.list.free;
            distinct = (refl, tt);
            distinct_kept = got.list.distinct_kept;
            apart = λ a i. ground arith;
          },
          λ a o ne. refl,
        ))
  push_back-link ((p, w) ∷ xs) ys got =
      let last = last_node node h null null p w xs got.list.seg in
      let apart : last_of p xs ≢ n =
        has-ne (last_of p xs) n ((p, w) ∷ xs) (has-last_of p w xs) got.out in
      rw
        (
          got.list.tail,
          ==_false (last_of p xs) null last.ne_null,
          join-ok h (last_of p xs) n last.before null null null last.content v last.ne_null
              got.ne_null (λ e. apart (sym e)) last.holds got.holds,
          ← last.target h n,
        )
        (returns (
          refl,
          linked_back-IsList ((p, w) ∷ xs) ys n v h0 got _ got.list.head refl refl,
          linked_back-same ((p, w) ∷ xs) ys n v h0 got,
        ))

  push_front-link :
      (xs ys : Cells T)
      → Taken h0 xs ys n v l h
      → Returns
          (λ (m, l') g.
            (m ≡ n)
            × IsList g l' ((n, v) ∷ xs) ys
            × ((a : Ptr) → has a xs ≡ false → a ≢ n → g a ≡ h a))
          ((if l.head == null
              then pure (n, record l { tail = n; head = n })
              else (do join n l.head; pure (n, record l { head = n })))
            h)
  push_front-link [] ys got =
      let was_empty : (l.head == null) ≡ true = ground arith in
      rw was_empty (
        returns (
          refl,
          record {
            seg = (got.ne_null, got.holds, tt);
            kept = got.list.kept;
            head = refl;
            tail = refl;
            free = got.list.free;
            distinct = (refl, tt);
            distinct_kept = got.list.distinct_kept;
            apart = λ a i. ground arith;
          },
          λ a o ne. refl,
        ))
  push_front-link ((p, w) ∷ xs) ys got =
      rw
        (
          got.list.head,
          ==_false p null got.list.seg.0,
          join-ok h n p null null null (first_of xs null) v w got.ne_null got.list.seg.0
              (has-ne p n ((p, w) ∷ xs) (has_self p w xs) got.out) got.holds got.list.seg.1,
        )
        (returns (
          refl,
          linked_front-IsList ((p, w) ∷ xs) ys n v h0 got _ refl got.list.tail refl,
          linked_front-same ((p, w) ∷ xs) ys n v h0 got,
        ))

-- What a push returns and leaves, where `zs` makes the new list of the node that it took.
abbrev pub Pushed :
    {T : Type 0}
    → Bool
    → Ptr
    → Memory (Node T)
    → (xs ys : Cells T) → (Ptr → Cells T)
    → Ptr × LinkedList
    → Memory (Node T)
    → Type 0
Pushed store_erased fresh h xs ys zs (n, l') g =
    let (m, ys') = reuse store_erased fresh ys in
    (n ≡ m) × IsList g l' (zs m) ys' × SameOutside xs ys fresh h g

module _ {T : Type 0} (store_erased : Bool) (fresh : Ptr) (v : T) {h : Memory (Node T)}
    {l : LinkedList} (xs ys : Cells T) (is : IsList h l xs ys) (ne : fresh ≢ null)
    (unused : h fresh ≡ none) where
  -- The result of linking the taken node, as the result of the push.
  linked-Pushed :
      (zs : Ptr → Cells T) (n m : Ptr) (l1 l' : LinkedList) (g g' : Memory (Node T))
      → n ≡ (reuse store_erased fresh ys).0
      → Taken h xs (reuse store_erased fresh ys).1 n v l1 g
      → (m ≡ n)
        × IsList g' l' (zs n) (reuse store_erased fresh ys).1
        × ((a : Ptr) → has a xs ≡ false → a ≢ n → g' a ≡ g a)
      → Pushed store_erased fresh h xs ys zs (m, l') g'
  linked-Pushed zs n m l1 l' g g' e got (em, is', same) = (
    em ∙ e,
    subst (λ k. IsList g' l' (zs k) (reuse store_erased fresh ys).1) e is',
    λ a o na.
        let away : a ≢ n = λ en. reuse-ne store_erased fresh ys a (ground arith) na (en ∙ e) in
        same a (ground arith) away ∙ got.same a away,
  )

  -- `push_back` on a list, with a new address that is not null and not in use, puts the value
  -- behind the others, in the first node kept for reuse if erased nodes are kept and there is
  -- one, and in the new node if not. It returns that node and touches no memory outside the list
  -- but the new node.
  pub push_back-IsList :
      Returns
        (Pushed store_erased fresh h xs ys (λ n. xs ++ (n, v) ∷ []))
        (push_back store_erased fresh v l h)
  unfolding push_back
  push_back-IsList =
      bind (get_free_node-Taken store_erased fresh v xs ys is ne unused) λ (n, l1) g (e, got).
        mono (push_back-link n v xs _ got)
          λ (m, l') g' done. linked-Pushed (λ k. xs ++ (k, v) ∷ []) n m l1 l' g g' e got done

  -- `push_front` on a list, with a new address that is not null and not in use, puts the value
  -- before the others, in a node that it takes as `push_back` does, and touches no memory outside
  -- the list but the new node.
  pub push_front-IsList :
      Returns
        (Pushed store_erased fresh h xs ys (λ n. (n, v) ∷ xs))
        (push_front store_erased fresh v l h)
  unfolding push_front
  push_front-IsList =
      bind (get_free_node-Taken store_erased fresh v xs ys is ne unused) λ (n, l1) g (e, got).
        mono (push_front-link n v xs _ got)
          λ (m, l') g' done. linked-Pushed (λ k. (k, v) ∷ xs) n m l1 l' g g' e got done
