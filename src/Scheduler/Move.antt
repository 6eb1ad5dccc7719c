-- ===== src/Scheduler/Move.antt =====
-- `move_to_if`: which processes it moves, and that the lists stay right.
use mathlib.Core.Path.{subst}
use hry_os.Base.{
  ◌≡◌, refl, sym, ap, ◌∙◌, Bool, true, false, ◌&&◌, List, [], ◌∷◌, ◌++◌, arith, ◌==◌, ==_true,
  ==_refl, ==_false, if◌then◌else◌, Bool-cases, inl, inr, append_assoc,
}
use mathlib.Core.Bool.{false≢true}
use hry_os.Memory.{Ptr}
use hry_os.LinkedList.Values.{sift, sift-hit, sift-miss}
use hry_os.Scheduler.{
  State, running, index_of, same, Process, Scheduler, set_list, set_state, push, ListMethod,
  move_one, move_to_if,
}
use hry_os.Scheduler.Valid.{
  mem, Unique, mem-append, mem-push, Unique-push, IsValid, set_same, transfer-IsValid,
}

-- Two schedulers that differ at most in the lists and in what the table holds.
pub record SameRest (k l : Scheduler) : Type 0 where
  pub enabled : l.is_enabled ≡ k.is_enabled
  pub processes : l.processes ≡ k.processes
  pub current : l.current_process ≡ k.current_process
  pub generator : l.pid_generator ≡ k.pid_generator

pub same_rest : (k : Scheduler) → SameRest k k
same_rest k = record { enabled = refl; processes = refl; current = refl; generator = refl }

module _ (start to : State) (predicate : Process → Bool) (func : ListMethod) where
  is_hit : Ptr → Scheduler → Bool
  is_hit p k = same (k.table p).state start && predicate (k.table p)

  moved : Ptr → Scheduler → Scheduler
  moved p k = set_list to (push func p (k.lists to)) (set_state p to k)

  -- A property of what is kept and of the scheduler at the end, by the steps of the loop.
  step :
      (P : List Ptr × Scheduler → Type 0) (p : Ptr) (xs : List Ptr) (k : Scheduler)
      → (is_hit p k ≡ true → P (sift (move_one start to predicate func) xs (moved p k)))
      → (is_hit p k ≡ false
          → let (rest, k') = sift (move_one start to predicate func) xs k in P (p ∷ rest, k'))
      → P (sift (move_one start to predicate func) (p ∷ xs) k)
  unfolding is_hit moved
  step P p xs k on_hit on_miss =
      let f = move_one start to predicate func in
      elim (Bool-cases (is_hit p k)) [
        | inl hit ↦ subst P (sym (sift-hit f p xs k (moved p k) (rw hit refl))) (on_hit hit)
        | inr miss ↦ subst P (sym (sift-miss f p xs k k (rw miss refl))) (on_miss miss)
      ]

  sift-SameRest :
      (xs : List Ptr) (k : Scheduler) → SameRest k (sift (move_one start to predicate func) xs k).1
  unfolding sift moved
  sift-SameRest [] k = same_rest k
  sift-SameRest (p ∷ xs) k =
      step (λ r. SameRest k r.1) p xs k
        (λ _.
          let rest = sift-SameRest xs (moved p k) in
          record {
            enabled = rest.enabled;
            processes = rest.processes;
            current = rest.current;
            generator = rest.generator;
          })
        (λ _. sift-SameRest xs k)

  pub move_to_if-SameRest : (k : Scheduler) → SameRest k (move_to_if start to predicate func k)
  unfolding move_to_if
  move_to_if-SameRest k =
      let rest = sift-SameRest (k.lists start) k in
      record {
        enabled = rest.enabled;
        processes = rest.processes;
        current = rest.current;
        generator = rest.generator;
      }

  -- A process as `move_to_if` leaves it, if it stands in the list `xs`.
  abbrev pub after : List Ptr → Ptr → Process → Process
  after xs q x = if mem q xs && predicate x then record x { state = to } else x

  after-hit :
      (xs : List Ptr) (k : Scheduler) (p q : Ptr)
      → mem p xs ≡ false
      → is_hit p k ≡ true
      → after xs q ((moved p k).table q) ≡ after (p ∷ xs) q (k.table q)
  unfolding moved is_hit
  after-hit xs k p q out hit = elim (Bool-cases (q == p)) [
    | inl e ↦
        let wanted : predicate (k.table p) ≡ true = ground arith in
        subst (λ r. after xs r ((moved p k).table r) ≡ after (p ∷ xs) r (k.table r))
          (sym (==_true q p e)) (rw (==_refl p, out, wanted) refl)
    | inr e ↦ rw e refl
  ]

  after-miss :
      (xs : List Ptr) (k : Scheduler) (p q : Ptr)
      → mem p xs ≡ false
      → index_of (k.table p).state ≡ index_of start
      → is_hit p k ≡ false
      → after xs q (k.table q) ≡ after (p ∷ xs) q (k.table q)
  unfolding is_hit
  after-miss xs k p q out at_start miss = elim (Bool-cases (q == p)) [
    | inl e ↦
        let unwanted : predicate (k.table p) ≡ false = ground arith in
        subst (λ r. after xs r (k.table r) ≡ after (p ∷ xs) r (k.table r)) (sym (==_true q p e))
          (rw (==_refl p, out, unwanted) refl)
    | inr e ↦ rw e refl
  ]

  moved-state :
      (k : Scheduler) (p r : Ptr) (xs : List Ptr)
      → mem p xs ≡ false
      → mem r xs ≡ true
      → index_of (k.table r).state ≡ index_of start
      → index_of ((moved p k).table r).state ≡ index_of start
  unfolding moved
  moved-state k p r xs out there at_start =
      let apart : (r == p) ≡ false =
        ==_false r p (λ e. false≢true (sym out ∙ ap (λ t. mem t xs) (sym e) ∙ there)) in
      rw apart at_start

  sift-table :
      (xs : List Ptr) (k : Scheduler) (q : Ptr)
      → Unique xs
      → ((p : Ptr) → mem p xs ≡ true → index_of (k.table p).state ≡ index_of start)
      → (sift (move_one start to predicate func) xs k).1.table q ≡ after xs q (k.table q)
  unfolding sift
  sift-table [] k q u all = refl
  sift-table (p ∷ xs) k q u all =
      step (λ r. r.1.table q ≡ after (p ∷ xs) q (k.table q)) p xs k
        (λ hit.
          sift-table xs (moved p k) q u.1
            (λ r i. moved-state k p r xs u.0 i (all r (ground (arith, i))))
          ∙ after-hit xs k p q u.0 hit)
        (λ miss.
          sift-table xs k q u.1 (λ r i. all r (ground (arith, i)))
          ∙ after-miss xs k p q u.0 (all p (ground arith)) miss)

  pub move_to_if-table :
      (k : Scheduler) (q : Ptr)
      → IsValid k
      → (move_to_if start to predicate func k).table q ≡ after (k.lists start) q (k.table q)
  unfolding move_to_if
  move_to_if-table k q is =
      sift-table (k.lists start) k q (is.unique start) (λ p i. (is.listed p start i).0)

  module _ (apart : same to start ≡ false) (still : same to running ≡ false)
      (moving : same start running ≡ false) where
    hit-IsValid :
        (kept xs : List Ptr) (p : Ptr) (k : Scheduler)
        → IsValid (set_list start (kept ++ p ∷ xs) k)
        → IsValid (set_list start (kept ++ xs) (moved p k))
    unfolding moved
    hit-IsValid kept xs p k is =
        let at_start =
          is.listed p start
            (rw (==_refl (index_of start)) (ground (arith, mem-append p kept (p ∷ xs)))) in
        transfer-IsValid k p start to kept xs (push func p (k.lists to)) is apart still moving
          (Unique-push func p (k.lists to) (subst Unique (rw apart refl) (is.unique to))
            (ground (arith, is.listed p to)))
          (λ q. mem-push func q p (k.lists to))

    sift-IsValid :
        (kept xs : List Ptr) (k : Scheduler)
        → IsValid (set_list start (kept ++ xs) k)
        → let (rest, k') = sift (move_one start to predicate func) xs k in
          IsValid (set_list start (kept ++ rest) k')
    unfolding sift
    sift-IsValid kept [] k is = is
    sift-IsValid kept (p ∷ xs) k is =
        step (λ r. IsValid (set_list start (kept ++ r.0) r.1)) p xs k
          (λ _. sift-IsValid kept xs (moved p k) (hit-IsValid kept xs p k is))
          (λ _.
            let (rest, k') = sift (move_one start to predicate func) xs k in
            subst (λ ys. IsValid (set_list start ys k')) (append_assoc kept (p ∷ []) rest)
              (sift-IsValid (kept ++ p ∷ []) xs k (
                subst (λ ys. IsValid (set_list start ys k)) (sym (append_assoc kept (p ∷ []) xs))
                  is)))

    pub move_to_if-IsValid :
        (k : Scheduler) → IsValid k → IsValid (move_to_if start to predicate func k)
    unfolding move_to_if
    move_to_if-IsValid k is = sift-IsValid [] (k.lists start) k (set_same k start is)
