-- ===== src/LinkedList/Erase.antt =====
-- `erase`, `pop_front` and `pop_back`: exactly one node leaves the list.
use hry_os.Base.{
  ◌≡◌, ◌≢◌, refl, sym, ap, ◌∙◌, Bool, true, false, none, [], ◌∷◌, ◌++◌, some, arith, ◌==◌, ==_false,
  if◌then◌else◌,
}
use mathlib.Core.Bool.{false≢true}
use hry_os.Memory.{
  pure, Ptr, null, Memory, write, write_ne, write_self, load-ok, modify, modify-ok, Returns,
  returns, mono, ok,
}
use hry_os.Links.{
  Cells, first_of, last_of, has, IsSeg, has-ne, has-append, has-middle, has-remove, Disjoint-sym,
  has-last_of, IsSeg-frame, last_of-append,
}
use hry_os.Links.Relink.{retarget, reback, last_node}
use hry_os.Links.Unlink.{
  rebacked, unlinked, seg_node, seg_left-rebacked, unlinked-IsSeg, unlinked-out, out_left,
  out_right, out_unlinked, Distinct-unlinked,
}
use hry_os.LinkedList.{Node, node, LinkedList, erase, drop_node}
use hry_os.LinkedList.Taken.{kept_prev}
use hry_os.LinkedList.Shape.{free_node, kept_with, IsList}

module _ {T : Type 0} where
  -- The write to the node behind the erased one.
  reback-run :
      (h : Memory (Node T)) (b n : Ptr) (rs : Cells T)
      → IsSeg node h n null rs
      → (if first_of rs null == null
            then pure tt
            else modify (first_of rs null) (λ x. record x { prev = b }))
          h
        ≡ ok tt (reback node h b rs null)
  reback-run h b n [] s = refl
  reback-run h b n ((p, w) ∷ rs) s =
      rw (==_false p null s.0) (modify-ok h p (node n (first_of rs null) w) s.0 s.1 _)

  -- The write to the node before the erased one.
  retarget-run :
      (h : Memory (Node T)) (t n : Ptr) (ls : Cells T)
      → IsSeg node h null n ls
      → (if last_of null ls == null
            then pure tt
            else modify (last_of null ls) (λ x. record x { next = t }))
          h
        ≡ ok tt (retarget node h null ls t)
  retarget-run h t n [] s = refl
  retarget-run h t n ((p, w) ∷ ls) s =
      let last = last_node node h null n p w ls s in
      rw (
        ==_false (last_of p ls) null last.ne_null,
        modify-ok h (last_of p ls) (node last.before n last.content) last.ne_null last.holds
            (λ x. record x { next = t }),
        last.target h t,
      )

  new_head :
      (n head : Ptr) (v : T) (ls rs : Cells T)
      → head ≡ first_of (ls ++ (n, v) ∷ rs) null
      → has n ls ≡ false
      → (if n == head then first_of rs null else head) ≡ first_of (ls ++ rs) null
  new_head n head v [] rs e o = ground arith
  new_head n head v ((p, w) ∷ ls) rs e o = ground arith

  new_tail :
      (n tail b : Ptr) (v : T) (rs : Cells T)
      → tail ≡ last_of n rs
      → has n rs ≡ false
      → (if n == tail then b else tail) ≡ last_of b rs
  new_tail n tail b v [] e o = ground arith
  new_tail n tail b v ((p, w) ∷ rs) e o =
      ground (arith, has-ne (last_of p rs) n ((p, w) ∷ rs) (has-last_of p w rs) o)

module _ {T : Type 0} where
  -- A node that is put before the kept nodes.
  IsList-keep :
      (g : Memory (Node T)) (l l' : LinkedList) (n : Ptr) (v : T) (xs ys : Cells T)
      → IsList g l xs ys
      → n ≢ null
      → g n ≡ some (node null (first_of ys null) v)
      → has n xs ≡ false
      → has n ys ≡ false
      → l'.head ≡ l.head
      → l'.tail ≡ l.tail
      → l'.free ≡ n
      → IsList g l' xs ((n, v) ∷ ys)
  IsList-keep g l l' n v xs ys list ne holds out out_kept eh et ef = record {
    seg = list.seg;
    kept = (ne, holds, kept_prev g null n ys list.kept);
    head = eh ∙ list.head;
    tail = et ∙ list.tail;
    free = ef;
    distinct = list.distinct;
    distinct_kept = (out_kept, list.distinct_kept);
    apart = λ a i. ground (arith, list.apart a, has-ne a n xs i out);
  }

module _ {T : Type 0} {h : Memory (Node T)} {l : LinkedList} (n : Ptr) (v : T) (ls rs ys : Cells T)
    (is : IsList h l (ls ++ (n, v) ∷ rs) ys) where
  -- The memory once the two neighbours are joined.
  abbrev after : Memory (Node T)
  after = unlinked node h null null n v ls rs is.seg is.distinct

  abbrev node_seg : IsSeg node h (last_of null ls) null ((n, v) ∷ rs)
  node_seg = seg_node node h null null n v ls rs is.seg is.distinct

  after-same : (a : Ptr) → has a (ls ++ rs) ≡ false → after a ≡ h a
  after-same = unlinked-out node h null null n v ls rs is.seg is.distinct

  apart_kept : (a : Ptr) → has a ys ≡ true → (has a (ls ++ rs) ≡ false) × (a ≢ n)
  apart_kept a i = (
    has-remove a n v ls rs (Disjoint-sym (ls ++ (n, v) ∷ rs) ys is.apart a i),
    has-ne a n ys i (is.apart n (has-middle n v ls rs)),
  )

  after-node : after n ≡ some (node (last_of null ls) (first_of rs null) v)
  after-node = after-same n (out_unlinked n v ls rs is.distinct) ∙ node_seg.1

  erase-run :
      (store_erased : Bool)
      → erase store_erased n l h
        ≡ drop_node store_erased n
            (record l {
              head = if n == l.head then first_of rs null else l.head;
              tail = if n == l.tail then last_of null ls else l.tail;
            })
            after
  unfolding erase
  erase-run store_erased = rw (
    load-ok h n (node (last_of null ls) (first_of rs null) v) node_seg.0 node_seg.1,
    reback-run h (last_of null ls) n rs node_seg.2,
    retarget-run (rebacked node h null null n v ls rs is.seg is.distinct) (first_of rs null) n ls
        (seg_left-rebacked node h null null n v ls rs is.seg is.distinct),
  )

  -- The list without the node, in any memory that agrees on what is left.
  IsList-unlinked :
      (g : Memory (Node T)) (l' : LinkedList)
      → ((a : Ptr) → a ≢ n → g a ≡ after a)
      → l'.head ≡ (if n == l.head then first_of rs null else l.head)
      → l'.tail ≡ (if n == l.tail then last_of null ls else l.tail)
      → l'.free ≡ l.free
      → IsList g l' (ls ++ rs) ys
  IsList-unlinked g l' same eh et ef = record {
    seg =
        IsSeg-frame node after g null null (ls ++ rs)
          (unlinked-IsSeg node h null null n v ls rs is.seg is.distinct)
          (λ a i. same a (has-ne a n (ls ++ rs) i (out_unlinked n v ls rs is.distinct)));
    kept =
        IsSeg-frame free_node h g null null ys is.kept
          (λ a i. same a (apart_kept a i).1 ∙ after-same a (apart_kept a i).0);
    head = eh ∙ new_head n l.head v ls rs is.head (out_left n v ls rs is.distinct);
    tail =
        et
        ∙ new_tail n l.tail (last_of null ls) v rs (is.tail ∙ last_of-append null ls ((n, v) ∷ rs))
            (out_right n v ls rs is.distinct)
        ∙ sym (last_of-append null ls rs);
    free = ef ∙ is.free;
    distinct = Distinct-unlinked n v ls rs is.distinct;
    distinct_kept = is.distinct_kept;
    apart = λ a i. ground (arith, is.apart a, has-append a ls ((n, v) ∷ rs), has-append a ls rs);
  }

  drop_node-IsList :
      (store_erased : Bool) (l' : LinkedList)
      → l'.head ≡ (if n == l.head then first_of rs null else l.head)
      → l'.tail ≡ (if n == l.tail then last_of null ls else l.tail)
      → l'.free ≡ l.free
      → Returns
          (λ l'' g.
            IsList g l'' (ls ++ rs) (kept_with store_erased n v ys)
            × ((a : Ptr) → a ≢ n → g a ≡ after a)
            × ((store_erased ≡ false) → g n ≡ none))
          (drop_node store_erased n l' after)
  unfolding drop_node
  drop_node-IsList false l' eh et ef = returns (
    IsList-unlinked (write after n none) l' (λ a ne. write_ne after n a none ne) eh et ef,
    (λ a ne. write_ne after n a none ne),
    λ e. write_self after n none,
  )
  drop_node-IsList true l' eh et ef =
      let g = write after n (some (node null l'.free v)) in
      let list = IsList-unlinked g l' (λ a ne. write_ne after n a _ ne) eh et ef in
      rw (modify-ok after n _ node_seg.0 after-node (λ m. record m { next = l'.free; prev = null }))
        (returns (
          IsList-keep g l' (record l' { free = n }) n v (ls ++ rs) ys list node_seg.0
              (write_self after n _ ∙ ap (λ f. some (node null f v)) (ef ∙ is.free))
              (out_unlinked n v ls rs is.distinct) (is.apart n (has-middle n v ls rs)) refl refl
              refl,
          (λ a ne. write_ne after n a _ ne),
          λ e. absurd (false≢true (sym e)),
        ))

  -- `erase` of a node of the list takes it out and keeps the order of the others. The node is
  -- freed, or kept for reuse; no other memory outside the list changes.
  pub erase-IsList :
      (store_erased : Bool)
      → Returns
          (λ l' g.
            IsList g l' (ls ++ rs) (kept_with store_erased n v ys)
            × ((a : Ptr) → has a (ls ++ (n, v) ∷ rs) ≡ false → g a ≡ h a)
            × ((store_erased ≡ false) → g n ≡ none))
          (erase store_erased n l h)
  erase-IsList store_erased = rw (erase-run store_erased) (
      mono (drop_node-IsList store_erased _ refl refl refl) λ l' g (list, same, freed). (
        list,
        (λ a o.
            same a (λ e.
              absurd
                (false≢true (sym o ∙ ap (λ c. has c (ls ++ (n, v) ∷ rs)) e ∙ has-middle n v ls rs)))
            ∙ after-same a (has-remove a n v ls rs o)),
        freed,
      ))
