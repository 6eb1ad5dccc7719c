-- ===== src/Links/Unlink.antt =====
-- Taking a node out of a segment: its two neighbours are joined.
use hry_os.Base.{◌≡◌, ◌∙◌, true, false, ◌∷◌, ◌++◌, arith}
use hry_os.Memory.{Ptr, Memory}
use hry_os.Links.{
  Cells, first_of, last_of, has, Distinct, IsSeg, IsSeg-frame, IsSeg-split, IsSeg-append,
  has-append, has_self, Distinct-left, Distinct-right, Distinct-Disjoint, Distinct-append,
}
use hry_os.Links.Relink.{retarget, retarget-out, IsSeg-retarget, reback, reback-out, IsSeg-reback}

module _ {A : Type 0} (n : Ptr) (v : A) (ls rs : Cells A) (d : Distinct (ls ++ (n, v) ∷ rs)) where
  -- The node is in neither part, and the parts share no node.
  pub out_left : has n ls ≡ false
  out_left = ground (arith, Distinct-Disjoint ls ((n, v) ∷ rs) d n, has_self n v rs)

  pub out_right : has n rs ≡ false
  out_right = (Distinct-right ls ((n, v) ∷ rs) d).0

  pub parts_apart : (a : Ptr) → has a ls ≡ true → has a rs ≡ false
  parts_apart a i = ground (arith, Distinct-Disjoint ls ((n, v) ∷ rs) d a)

  pub Distinct-unlinked : Distinct (ls ++ rs)
  Distinct-unlinked =
      Distinct-append ls rs (Distinct-left ls ((n, v) ∷ rs) d)
        ((Distinct-right ls ((n, v) ∷ rs) d).1) parts_apart

  pub out_unlinked : has n (ls ++ rs) ≡ false
  out_unlinked = ground (arith, has-append n ls rs, out_left, out_right)

module _ {N A : Type 0} (mk : Ptr → Ptr → A → N) (h : Memory N) (prev stop : Ptr) (n : Ptr) (v : A)
    (ls rs : Cells A) (s : IsSeg mk h prev stop (ls ++ (n, v) ∷ rs))
    (d : Distinct (ls ++ (n, v) ∷ rs)) where
  -- The memory after the node behind `n` is joined to the one before `n`, and then the other way.
  abbrev pub rebacked : Memory N
  rebacked = reback mk h (last_of prev ls) rs stop

  abbrev pub unlinked : Memory N
  unlinked = retarget mk rebacked prev ls (first_of rs stop)

  pub seg_left : IsSeg mk h prev n ls
  seg_left = (IsSeg-split mk h prev stop ls ((n, v) ∷ rs) s).0

  pub seg_node : IsSeg mk h (last_of prev ls) stop ((n, v) ∷ rs)
  seg_node = (IsSeg-split mk h prev stop ls ((n, v) ∷ rs) s).1

  pub seg_left-rebacked : IsSeg mk rebacked prev n ls
  seg_left-rebacked =
      IsSeg-frame mk h rebacked prev n ls seg_left
        (λ a i. reback-out mk h (last_of prev ls) rs stop a (parts_apart n v ls rs d a i))

  pub unlinked-IsSeg : IsSeg mk unlinked prev stop (ls ++ rs)
  unlinked-IsSeg =
      IsSeg-append mk unlinked prev stop ls rs
        (IsSeg-retarget mk rebacked prev n ls (first_of rs stop) seg_left-rebacked
          (Distinct-left ls ((n, v) ∷ rs) d))
        (IsSeg-frame mk rebacked unlinked (last_of prev ls) stop rs
          (IsSeg-reback mk h n stop rs (last_of prev ls) seg_node.2
            ((Distinct-right ls ((n, v) ∷ rs) d).1))
          (λ a i.
            retarget-out mk rebacked prev ls (first_of rs stop) a
              (ground (arith, parts_apart n v ls rs d a))))

  pub unlinked-out : (a : Ptr) → has a (ls ++ rs) ≡ false → unlinked a ≡ h a
  unlinked-out a o =
      retarget-out mk rebacked prev ls (first_of rs stop) a (ground (arith, has-append a ls rs))
      ∙ reback-out mk h (last_of prev ls) rs stop a (ground (arith, has-append a ls rs))
