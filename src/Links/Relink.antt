-- ===== src/Links/Relink.antt =====
-- The two writes that join a segment to other neighbours: the `next` link of its last node and the
-- `prev` link of its first.
use hry_os.Base.{◌≡◌, ◌≢◌, refl, false, some, [], ◌∷◌, arith}
use hry_os.Memory.{Ptr, null, Memory, write}
use hry_os.Links.{Cells, first_of, last_of, has, Distinct, IsSeg, IsSeg-frame}

module _ {N A : Type 0} (mk : Ptr → Ptr → A → N) where
  -- The memory after `last->next = stop`; nothing happens to an empty segment.
  abbrev pub retarget : Memory N → Ptr → Cells A → Ptr → Memory N
  retarget h prev [] stop = h
  retarget h prev ((p, v) ∷ []) stop = write h p (some (mk prev stop v))
  retarget h prev ((p, v) ∷ (q, w) ∷ xs) stop = retarget h p ((q, w) ∷ xs) stop

  -- The memory after `first->prev = prev`.
  abbrev pub reback : Memory N → Ptr → Cells A → Ptr → Memory N
  reback h prev [] stop = h
  reback h prev ((p, v) ∷ xs) stop = write h p (some (mk prev (first_of xs stop) v))

  pub retarget-out :
      (h : Memory N) (prev : Ptr) (xs : Cells A) (stop a : Ptr)
      → has a xs ≡ false
      → retarget h prev xs stop a ≡ h a
  unfolding write
  retarget-out h prev [] stop a o = refl
  retarget-out h prev ((p, v) ∷ []) stop a o = ground arith
  retarget-out h prev ((p, v) ∷ (q, w) ∷ xs) stop a o =
      retarget-out h p ((q, w) ∷ xs) stop a (ground arith)

  pub reback-out :
      (h : Memory N) (prev : Ptr) (xs : Cells A) (stop a : Ptr)
      → has a xs ≡ false
      → reback h prev xs stop a ≡ h a
  unfolding write
  reback-out h prev [] stop a o = refl
  reback-out h prev ((p, v) ∷ xs) stop a o = ground arith

  pub IsSeg-retarget :
      (h : Memory N) (prev stop : Ptr) (xs : Cells A) (s : Ptr)
      → IsSeg mk h prev stop xs
      → Distinct xs
      → IsSeg mk (retarget h prev xs s) prev s xs
  unfolding write
  IsSeg-retarget h prev stop [] s seg d = tt
  IsSeg-retarget h prev stop ((p, v) ∷ []) s seg d = (seg.0, ground arith, tt)
  IsSeg-retarget h prev stop ((p, v) ∷ (q, w) ∷ xs) s seg d = (
    seg.0,
    ground (arith, retarget-out h p ((q, w) ∷ xs) s p),
    IsSeg-retarget h p stop ((q, w) ∷ xs) s seg.2 d.1,
  )

  pub IsSeg-reback :
      (h : Memory N) (prev stop : Ptr) (xs : Cells A) (b : Ptr)
      → IsSeg mk h prev stop xs
      → Distinct xs
      → IsSeg mk (reback h b xs stop) b stop xs
  unfolding write
  IsSeg-reback h prev stop [] b seg d = tt
  IsSeg-reback h prev stop ((p, v) ∷ xs) b seg d = (
    seg.0,
    ground arith,
    IsSeg-frame mk h (reback h b ((p, v) ∷ xs) stop) p stop xs seg.2 (λ a i. ground arith),
  )

  -- What the last node of a segment holds, and `retarget` as the write to it.
  pub record LastNode (h : Memory N) (prev stop : Ptr) (p : Ptr) (v : A) (xs : Cells A)
      : Type 0 where
    pub before : Ptr
    pub content : A
    pub ne_null : last_of p xs ≢ null
    pub holds : h (last_of p xs) ≡ some (mk before stop content)
    pub target :
        (g : Memory N) (s : Ptr)
        → retarget g prev ((p, v) ∷ xs) s ≡ write g (last_of p xs) (some (mk before s content))

  pub last_node :
      (h : Memory N) (prev stop p : Ptr) (v : A) (xs : Cells A)
      → IsSeg mk h prev stop ((p, v) ∷ xs)
      → LastNode h prev stop p v xs
  last_node h prev stop p v [] s = record {
    before = prev;
    content = v;
    ne_null = s.0;
    holds = s.1;
    target = λ g t. refl;
  }
  last_node h prev stop p v ((q, w) ∷ xs) s =
      let rest = last_node h p stop q w xs s.2 in
      record {
        before = rest.before;
        content = rest.content;
        ne_null = rest.ne_null;
        holds = rest.holds;
        target = λ g t. rest.target g t;
      }
