-- ===== src/Scheduler/Create.antt =====
-- How processes come and go: `create_process`, and the end of `process_starter`.
use mathlib.Core.Path.{subst}
use hry_os.Base.{
  ℕ, ◌≡◌, ◌≢◌, refl, sym, ap, ◌∙◌, Bool, false, ◌&&◌, not, List, [], ◌∷◌, ◌++◌, arith, ◌==◌,
  ==_refl, ==_false, Bool-cases, inl, inr,
}
use mathlib.Core.Bool.{false≢true}
use hry_os.Memory.{Ptr, null}
use hry_os.LinkedList.Values.{sift}
use hry_os.Scheduler.{
  State, running, ready, waiting, index_of, same, Process, Scheduler, push_back, create_process,
  end_current, reschedule, waiting_pid, move_to_back_if,
}
use hry_os.Scheduler.Valid.{mem, Unique, mem-append, Unique-snoc, IsValid}
use hry_os.Scheduler.Move.{move_to_if-IsValid, move_to_if-SameRest, move_to_if-table}
use hry_os.Scheduler.Reschedule.{reschedule-IsValid}

module _ (timer : ℕ) (p : Ptr) (name : List ℕ) (task : ℕ) (k : Scheduler) (is : IsValid k)
    (fresh : mem p k.processes ≡ false) (exists : p ≢ null) where
  unlisted : (s : State) → mem p (k.lists s) ≡ false
  unlisted s = elim (Bool-cases (mem p (k.lists s))) [
    | inr out ↦ out
    | inl there ↦ absurd (false≢true (sym fresh ∙ (is.listed p s there).1))
  ]

  -- `create_process` at a new address that is not null keeps the lists right, puts the process at
  -- the end of the ready list and returns its pid.
  pub create_process-IsValid :
      let (pid, l) = create_process timer p name task k in
      IsValid l × (l.lists ready ≡ k.lists ready ++ p ∷ []) × (pid ≡ (l.table p).pid)
  unfolding create_process
  create_process-IsValid = (
    record {
      listed = λ q v i. ground (
        arith,
        is.listed q v,
        mem-append q (k.lists ready) (p ∷ []),
        mem-append q k.processes (p ∷ []),
        unlisted v,
      );
      unique = λ v. elim (Bool-cases (same v ready)) [
        | inl e ↦ rw e (Unique-snoc p (k.lists ready) (is.unique ready) (unlisted ready))
        | inr e ↦ rw e (is.unique v)
      ];
      complete = λ q v l i. ground (
        arith,
        is.complete q v,
        mem-append q (k.lists ready) (p ∷ []),
        mem-append q k.processes (p ∷ []),
      );
      unlisted = λ q. is.unlisted q;
      distinct = Unique-snoc p k.processes is.distinct fresh;
      current = ground (arith, is.current, mem-append k.current_process k.processes (p ∷ []));
      no_null = ground (
        arith,
        is.no_null,
        mem-append null k.processes (p ∷ []),
        ==_false null p (λ e. exists (sym e)),
      );
    },
    refl,
    rw (==_refl p) refl,
  )

-- `erase_if` for one pointer.
abbrev pub is_it : Ptr → Ptr → Unit {0} → Bool × Unit {0}
is_it p q s = (p == q, s)

mem-sift : (p q : Ptr) (xs : List Ptr) → mem q (sift (is_it p) xs tt).0 ≡ (mem q xs && not (q == p))
unfolding sift
mem-sift p q [] = refl
mem-sift p q (r ∷ xs) = elim (Bool-cases (p == r)) [
  | inl e ↦ rw e (ground (arith, mem-sift p q xs))
  | inr e ↦ rw e (ground (arith, mem-sift p q xs))
]

Unique-sift : (p : Ptr) (xs : List Ptr) → Unique xs → Unique (sift (is_it p) xs tt).0
unfolding sift
Unique-sift p [] u = tt
Unique-sift p (r ∷ xs) u = elim (Bool-cases (p == r)) [
  | inl e ↦ rw e (Unique-sift p xs u.1)
  | inr e ↦ rw e (ground (arith, mem-sift p r xs, u.0), Unique-sift p xs u.1)
]

-- The current process leaves; it stands in no list while it runs.
abbrev pub without_current : Scheduler → Scheduler
without_current k = record k {
  processes = (sift (is_it k.current_process) k.processes tt).0;
  current_process = null;
}

pub without_current-IsValid :
    (k : Scheduler)
    → IsValid k
    → (k.table k.current_process).state ≡ running
    → IsValid (without_current k)
without_current-IsValid k is runs =
    let c = k.current_process in
    let state_c : index_of (k.table c).state ≡ 1 = ap index_of runs in
    let gone : (q : Ptr)
        → mem q (without_current k).processes ≡ (mem q k.processes && not (q == c)) =
      λ q. mem-sift c q k.processes in
    record {
      listed = λ q v i. ground (arith, is.listed q v, gone q, is.unlisted q, state_c);
      unique = is.unique;
      complete = λ q v l i. ground (arith, is.complete q v, gone q);
      unlisted = is.unlisted;
      distinct = Unique-sift c k.processes is.distinct;
      current = refl;
      no_null = ground (arith, is.no_null, gone null);
    }

pub still_runs :
    (k : Scheduler) (ended : Process → Bool)
    → IsValid k
    → (k.table k.current_process).state ≡ running
    → ((move_to_back_if waiting ready ended k).table k.current_process).state ≡ running
still_runs k ended is runs =
    let c = k.current_process in
    let out : mem c (k.lists waiting) ≡ false =
      ground (arith, is.listed c waiting, ap index_of runs) in
    ap (λ x. x.state) (move_to_if-table waiting ready ended push_back k c is) ∙ rw out runs

-- When the task of the running process returns, the process leaves and the lists stay right.
pub end_current-IsValid :
    (timer : ℕ) (k : Scheduler)
    → IsValid k
    → (k.table k.current_process).state ≡ running
    → IsValid (end_current timer k)
unfolding end_current
end_current-IsValid timer k is runs =
    let ended : Process → Bool = λ x. waiting_pid x.state_data == (k.table k.current_process).pid in
    let l = move_to_back_if waiting ready ended k in
    let is' : IsValid l = move_to_if-IsValid waiting ready ended push_back refl refl refl k is in
    let same_current : l.current_process ≡ k.current_process =
      (move_to_if-SameRest waiting ready ended push_back k).current in
    subst
      (λ c. IsValid (
        reschedule timer
          (record l { processes = (sift (is_it c) l.processes tt).0; current_process = null })))
      same_current
      (reschedule-IsValid timer (without_current l)
        (without_current-IsValid l is'
          (ap (λ c. (l.table c).state) same_current ∙ still_runs k ended is runs))
        (λ exists. absurd (false≢true (sym exists))))
