-- ===== src/LinkedList/Taken.antt =====
-- The node that a push takes (`get_free_node`), and what linking it at either end makes of the list.
use hry_os.Base.{
  ◌≡◌, ◌≢◌, refl, sym, ◌∙◌, Bool, true, false, none, [], ◌∷◌, ◌++◌, some, arith, ◌==◌, ==_false,
}
use hry_os.Memory.{
  Ptr, null, Memory, write, write_ne, write_self, load-ok, modify-ok, Returns, returns, ok,
}
use hry_os.Links.{
  Cells, first_of, last_of, has, IsSeg, Distinct-append, has-ne, has-append, IsSeg-frame,
  IsSeg-append, last_of-append, first_of-append,
}
use hry_os.Links.Relink.{retarget, retarget-out, IsSeg-retarget, reback, reback-out, IsSeg-reback}
use hry_os.LinkedList.{Node, node, LinkedList, get_free_node, join}
use hry_os.LinkedList.Shape.{free_node, IsList, IsList-frame}

module _ {N A : Type 0} (mk : Ptr → Ptr → A → N) (h : Memory N) where
  pub not-has_of_none :
      (prev stop : Ptr) (xs : Cells A) (a : Ptr)
      → IsSeg mk h prev stop xs
      → h a ≡ none
      → has a xs ≡ false
  not-has_of_none prev stop [] a s u = refl
  not-has_of_none prev stop ((p, v) ∷ xs) a s u = ground (arith, not-has_of_none p stop xs a s.2 u)

  pub not-has-null :
      (prev stop : Ptr) (xs : Cells A) → IsSeg mk h prev stop xs → has null xs ≡ false
  not-has-null prev stop [] s = refl
  not-has-null prev stop ((p, v) ∷ xs) s = ground (arith, not-has-null p stop xs s.2)

module _ {T : Type 0} where
  -- The first of the kept nodes has no link back.
  pub kept_prev :
      (h : Memory (Node T)) (a b : Ptr) (ys : Cells T)
      → IsSeg free_node h a null ys
      → IsSeg free_node h b null ys
  kept_prev h a b [] s = tt
  kept_prev h a b ((p, w) ∷ ys) s = s

  pub join-ok :
      (h : Memory (Node T)) (left right a b c d : Ptr) (v w : T)
      → left ≢ null
      → right ≢ null
      → right ≢ left
      → h left ≡ some (node a b v)
      → h right ≡ some (node c d w)
      → join left right h
        ≡ ok tt (write (write h left (some (node a right v))) right (some (node left d w)))
  unfolding join
  join-ok h left right a b c d v w nl nr ne hl hr = rw (
    modify-ok h left (node a b v) nl hl (λ n. record n { next = right }),
    modify-ok (write h left (some (node a right v))) right (node c d w) nr
        (write_ne h left right _ ne ∙ hr) (λ n. record n { prev = left }),
  )

  -- The node that a push takes, and the kept nodes that are left.
  abbrev pub reuse : Bool → Ptr → Cells T → Ptr × Cells T
  reuse false fresh ys = (fresh, ys)
  reuse true fresh [] = (fresh, [])
  reuse true fresh ((p, _) ∷ ys) = (p, ys)

  pub reuse-ne :
      (store_erased : Bool) (fresh : Ptr) (ys : Cells T) (a : Ptr)
      → has a ys ≡ false
      → a ≢ fresh
      → a ≢ (reuse store_erased fresh ys).0
  reuse-ne false fresh ys a o ne = ne
  reuse-ne true fresh [] a o ne = ne
  reuse-ne true fresh ((p, w) ∷ ys) a o ne = ground arith

  -- A node taken for `v`, out of the list and ready to be linked.
  pub record Taken (h : Memory (Node T)) (xs ys : Cells T) (n : Ptr) (v : T) (l : LinkedList)
      (g : Memory (Node T)) : Type 0 where
    pub list : IsList g l xs ys
    pub ne_null : n ≢ null
    pub holds : g n ≡ some (node null null v)
    pub out : has n xs ≡ false
    pub out_kept : has n ys ≡ false
    pub same : (a : Ptr) → a ≢ n → g a ≡ h a

  module _ {h : Memory (Node T)} {l : LinkedList} (xs ys : Cells T) (n : Ptr) (v : T)
      (is : IsList h l xs ys) (ne : n ≢ null) (out : has n xs ≡ false)
      (out_kept : has n ys ≡ false) where
    Taken-write : Taken h xs ys n v l (write h n (some (node null null v)))
    unfolding write
    Taken-write = record {
      list = IsList-frame h (write h n (some (node null null v))) is (λ a i. ground arith);
      ne_null = ne;
      holds = ground arith;
      out = out;
      out_kept = out_kept;
      same = ground arith;
    }

  -- A kept node that is taken leaves the others.
  IsList-take :
      {h : Memory (Node T)} {l : LinkedList} (p : Ptr) (w : T) (xs ys : Cells T)
      → IsList h l xs ((p, w) ∷ ys)
      → IsList h (record l { free = first_of ys null }) xs ys
  IsList-take {h} {l} p w xs ys is = record {
    seg = is.seg;
    kept = kept_prev h p null ys is.kept.2;
    head = is.head;
    tail = is.tail;
    free = refl;
    distinct = is.distinct;
    distinct_kept = is.distinct_kept.1;
    apart = λ a i. ground (arith, is.apart a i);
  }

  pub get_free_node-Taken :
      (store_erased : Bool) (fresh : Ptr) (v : T) {h : Memory (Node T)} {l : LinkedList}
      (xs ys : Cells T)
      → IsList h l xs ys
      → fresh ≢ null
      → h fresh ≡ none
      → Returns
          (λ (n, l') g.
            let (m, ys') = reuse store_erased fresh ys in (n ≡ m) × Taken h xs ys' n v l' g)
          (get_free_node store_erased fresh v l h)
  unfolding get_free_node
  get_free_node-Taken false fresh v {h} xs ys is ne unused = returns (
    refl,
    Taken-write xs ys fresh v is ne (not-has_of_none node h null null xs fresh is.seg unused)
        (not-has_of_none free_node h null null ys fresh is.kept unused),
  )
  get_free_node-Taken true fresh v {h} {l} xs [] is ne unused =
      let none_kept : (l.free == null) ≡ true = ground arith in
      rw none_kept (
        returns (
          refl,
          Taken-write xs [] fresh v is ne (not-has_of_none node h null null xs fresh is.seg unused)
              refl,
        ))
  get_free_node-Taken true fresh v {h} {l} xs ((p, w) ∷ ys) is ne unused =
      rw (is.free, ==_false p null is.kept.0, load-ok h p _ is.kept.0 is.kept.1)
        (returns (
          refl,
          Taken-write xs ys p v (IsList-take p w xs ys is) is.kept.0 (ground (arith, is.apart p))
              is.distinct_kept.0,
        ))

  module _ {h : Memory (Node T)} {l : LinkedList} (xs ys : Cells T) (n : Ptr) (v : T)
      (h0 : Memory (Node T)) (got : Taken h0 xs ys n v l h) where
    -- The memory after the node is linked behind the last one.
    abbrev pub linked_back : Memory (Node T)
    linked_back = write (retarget node h null xs n) n (some (node (last_of null xs) null v))

    pub linked_back-IsList :
        (l' : LinkedList)
        → l'.head ≡ first_of xs n
        → l'.tail ≡ n
        → l'.free ≡ l.free
        → IsList linked_back l' (xs ++ (n, v) ∷ []) ys
    unfolding write
    linked_back-IsList l' eh et ef = record {
      seg =
          IsSeg-append node linked_back null null xs ((n, v) ∷ [])
            (IsSeg-frame node (retarget node h null xs n) linked_back null n xs
              (IsSeg-retarget node h null null xs n got.list.seg got.list.distinct)
              (λ a i. ground (arith, got.out)))
            (got.ne_null, ground arith, tt);
      kept = IsSeg-frame free_node h linked_back null null ys got.list.kept (λ a i.
          write_ne (retarget node h null xs n) n a _ (has-ne a n ys i got.out_kept)
          ∙ retarget-out node h null xs n a (ground (arith, got.list.apart a)));
      head = eh ∙ sym (first_of-append xs ((n, v) ∷ []) null);
      tail = et ∙ sym (last_of-append null xs ((n, v) ∷ []));
      free = ef ∙ got.list.free;
      distinct =
          Distinct-append xs ((n, v) ∷ []) got.list.distinct (refl, tt)
            (λ a i. ground (arith, has-ne a n xs i got.out));
      distinct_kept = got.list.distinct_kept;
      apart = λ a i. ground (arith, has-append a xs ((n, v) ∷ []), got.list.apart a);
    }

    pub linked_back-same : (a : Ptr) → has a xs ≡ false → a ≢ n → linked_back a ≡ h a
    linked_back-same a o ne =
        write_ne (retarget node h null xs n) n a _ ne ∙ retarget-out node h null xs n a o

    -- The memory after the node is linked in front of the first one.
    abbrev pub linked_front : Memory (Node T)
    linked_front = reback node (write h n (some (node null (first_of xs null) v))) n xs null

    pub linked_front-IsList :
        (l' : LinkedList)
        → l'.head ≡ n
        → l'.tail ≡ last_of n xs
        → l'.free ≡ l.free
        → IsList linked_front l' ((n, v) ∷ xs) ys
    linked_front-IsList l' eh et ef = record {
      seg = (
        got.ne_null,
        reback-out node (write h n (some (node null (first_of xs null) v))) n xs null n got.out
            ∙ write_self h n _,
        IsSeg-reback node (write h n (some (node null (first_of xs null) v))) null null xs n
            (IsSeg-frame node h (write h n (some (node null (first_of xs null) v))) null null xs
              got.list.seg (λ a i. write_ne h n a _ (has-ne a n xs i got.out)))
            got.list.distinct,
      );
      kept = IsSeg-frame free_node h linked_front null null ys got.list.kept (λ a i.
          reback-out node (write h n (some (node null (first_of xs null) v))) n xs null a
            (ground (arith, got.list.apart a))
          ∙ write_ne h n a _ (has-ne a n ys i got.out_kept));
      head = eh;
      tail = et;
      free = ef ∙ got.list.free;
      distinct = (got.out, got.list.distinct);
      distinct_kept = got.list.distinct_kept;
      apart = λ a i. ground (arith, got.list.apart a);
    }

    pub linked_front-same : (a : Ptr) → has a xs ≡ false → a ≢ n → linked_front a ≡ h a
    linked_front-same a o ne =
        reback-out node (write h n (some (node null (first_of xs null) v))) n xs null a o
        ∙ write_ne h n a _ ne
