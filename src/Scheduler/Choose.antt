-- ===== src/Scheduler/Choose.antt =====
-- Switching to another process: the lists stay right.
use mathlib.Core.Path.{subst}
use hry_os.Base.{
  ◌≡◌, ap, ◌∙◌, true, false, ◌||◌, not, List, [], ◌∷◌, ◌++◌, arith, ◌==◌, ==_true, Bool-cases, inl,
  inr,
}
use hry_os.Memory.{Ptr, null}
use hry_os.Scheduler.{
  running, ready, index_of, same, Scheduler, set_list, set_state, choose, switch_to_task,
}
use hry_os.Scheduler.Valid.{mem, Unique, mem-append, Unique-snoc, IsValid}

module _ (k : Scheduler) (p : Ptr) (rs : List Ptr) (is : IsValid k) (queue : k.lists ready ≡ p ∷ rs)
    (other : (p == k.current_process) ≡ false) where
  in_ready : (q : Ptr) → mem q (k.lists ready) ≡ ((q == p) || mem q rs)
  in_ready q = ap (mem q) queue

  alone : Unique (p ∷ rs)
  alone = subst Unique queue (is.unique ready)

  pub at_front : (index_of (k.table p).state ≡ 2) × (mem p k.processes ≡ true)
  at_front = is.listed p ready (ground (arith, in_ready p))

  -- The current process runs: it changes places with the first of the ready list.
  swap-IsValid :
      (k.current_process == null) ≡ false
      → same (k.table k.current_process).state running ≡ true
      → IsValid (
          switch_to_task p (
            set_state p running (
              set_list ready
                (rs ++ k.current_process ∷ [])
                (set_state k.current_process ready (set_list ready rs k)))))
  swap-IsValid exists runs = record {
    listed = λ q v i. ground (
      arith,
      is.listed q v,
      mem-append q rs (k.current_process ∷ []),
      in_ready q,
      at_front,
      alone.0,
      is.current,
      is.unlisted q,
    );
    unique = λ v. elim (Bool-cases (same v ready)) [
      | inl e ↦ rw e (
          Unique-snoc k.current_process rs alone.1
            (ground (arith, is.listed k.current_process ready, in_ready k.current_process)))
      | inr e ↦ rw e (is.unique v)
    ];
    complete = λ q v l i.
        ground (arith, is.complete q v l, mem-append q rs (k.current_process ∷ []), in_ready q);
    unlisted = λ q. is.unlisted q;
    distinct = is.distinct;
    current = ground (arith, at_front);
    no_null = is.no_null;
  }

  -- No process runs: the first of the ready list starts.
  start-IsValid :
      ((k.current_process == null) || not (same (k.table k.current_process).state running)) ≡ true
      → IsValid (switch_to_task p (set_state p running (set_list ready rs k)))
  start-IsValid idle =
      let stopped : (q : Ptr)
          → mem q k.processes ≡ true
          → (q == k.current_process) ≡ true
          → same (k.table q).state running ≡ false =
        λ q l e. elim (Bool-cases (k.current_process == null)) [
          | inl none_runs ↦ absurd (
              ground (
                arith,
                is.no_null,
                ap (λ r. mem r k.processes)
                    (==_true q k.current_process e ∙ ==_true k.current_process null none_runs),
              ))
          | inr exists ↦
              ap (λ r. same (k.table r).state running) (==_true q k.current_process e)
              ∙ ground arith
        ] in
      record {
        listed =
            λ q v i. ground (arith, is.listed q v, in_ready q, at_front, alone.0, is.unlisted q);
        unique = λ v. elim (Bool-cases (same v ready)) [
          | inl e ↦ rw e alone.1
          | inr e ↦ rw e (is.unique v)
        ];
        complete = λ q v l i. ground (arith, is.complete q v l, in_ready q, stopped q l);
        unlisted = λ q. is.unlisted q;
        distinct = is.distinct;
        current = ground (arith, at_front);
        no_null = is.no_null;
      }

-- A process other than the current one is chosen, or none.
pub choose-IsValid :
    (k : Scheduler) (rs : List Ptr)
    → IsValid k
    → k.lists ready ≡ rs
    → mem k.current_process rs ≡ false
    → IsValid (choose k rs)
choose-IsValid k [] is queue out = is
choose-IsValid k (p ∷ rs) is queue out =
    let other : (p == k.current_process) ≡ false = ground arith in
    let stays : same (k.table p).state ready ≡ true =
      ground (arith, (at_front k p rs is queue other).0) in
    rw other (elim (Bool-cases (k.current_process == null)) [
      | inl absent ↦
          rw (absent, stays)
            (start-IsValid k p rs is queue other
              (ap (λ b. b || not (same (k.table k.current_process).state running)) absent))
      | inr exists ↦ elim (Bool-cases (same (k.table k.current_process).state running)) [
        | inl runs ↦
            rw (exists, runs, other, stays) (swap-IsValid k p rs is queue other exists runs)
        | inr rests ↦
            rw (exists, rests, stays)
              (start-IsValid k p rs is queue other (
                ap (λ b. b || not (same (k.table k.current_process).state running)) exists
                ∙ ap not rests))
      ]
    ])
