-- ===== src/Scheduler/Valid.antt =====
-- When the scheduler's lists are right: every process stands in the list of its state and in no other,
-- once, except the one that runs, which is the current process.
use mathlib.Core.Path.{subst}
use hry_os.Base.{
  ◌≡◌, refl, sym, ap, ◌∙◌, Bool, true, false, ◌&&◌, ◌||◌, not, List, [], ◌∷◌, ◌++◌, arith, ◌==◌,
  ==_true, ==_refl, if◌then◌else◌, Bool-cases, inl, inr,
}
use hry_os.Memory.{Ptr, null}
use hry_os.Scheduler.{
  State, empty, running, ready, sleeping, waiting, blocked, index_of, same, Scheduler, set_list,
  set_state, push, ListMethod, push_back, push_front,
}

abbrev pub mem : Ptr → List Ptr → Bool
mem p [] = false
mem p (q ∷ xs) = (p == q) || mem p xs

abbrev pub Unique : List Ptr → Type 0
Unique [] = Unit {0}
Unique (p ∷ xs) = (mem p xs ≡ false) × Unique xs

pub mem-append : (p : Ptr) (xs ys : List Ptr) → mem p (xs ++ ys) ≡ (mem p xs || mem p ys)
mem-append p [] ys = refl
mem-append p (q ∷ xs) ys = ground (arith, mem-append p xs ys)

pub mem-without :
    (q p : Ptr) (xs ys : List Ptr)
    → Unique (xs ++ p ∷ ys)
    → mem q (xs ++ ys) ≡ (mem q (xs ++ p ∷ ys) && not (q == p))
mem-without q p [] ys u = elim (Bool-cases (q == p)) [
  | inl e ↦
      let there : mem q ys ≡ false = ap (λ r. mem r ys) (==_true q p e) ∙ u.0 in
      ground (arith, there)
  | inr e ↦ ground arith
]
mem-without q p (r ∷ xs) ys u =
    let rest = mem-without q p xs ys u.1 in
    let there = mem-append r xs (p ∷ ys) in ground (arith, rest, there, u.0)

pub Unique-without : (p : Ptr) (xs ys : List Ptr) → Unique (xs ++ p ∷ ys) → Unique (xs ++ ys)
Unique-without p [] ys u = u.1
Unique-without p (r ∷ xs) ys u =
    (ground (arith, mem-append r xs (p ∷ ys), mem-append r xs ys, u.0), Unique-without p xs ys u.1)

pub Unique-snoc : (p : Ptr) (xs : List Ptr) → Unique xs → mem p xs ≡ false → Unique (xs ++ p ∷ [])
Unique-snoc p [] u o = (refl, tt)
Unique-snoc p (q ∷ xs) u o =
    (ground (arith, mem-append q xs (p ∷ []), u.0), Unique-snoc p xs u.1 (ground arith))

pub mem-push :
    (func : ListMethod) (q p : Ptr) (xs : List Ptr)
    → mem q (push func p xs) ≡ ((q == p) || mem q xs)
mem-push push_back q p xs = ground (arith, mem-append q xs (p ∷ []))
mem-push push_front q p xs = refl

pub Unique-push :
    (func : ListMethod) (p : Ptr) (xs : List Ptr)
    → Unique xs
    → mem p xs ≡ false
    → Unique (push func p xs)
Unique-push push_back p xs u o = Unique-snoc p xs u o
Unique-push push_front p xs u o = (o, u)

pub record IsValid (k : Scheduler) : Type 0 where
  pub listed :
      (p : Ptr) (s : State)
      → mem p (k.lists s) ≡ true
      → (index_of (k.table p).state ≡ index_of s) × (mem p k.processes ≡ true)
  pub unique : (s : State) → Unique (k.lists s)
  pub complete :
      (p : Ptr) (s : State)
      → mem p k.processes ≡ true
      → index_of (k.table p).state ≡ index_of s
      → (mem p (k.lists s) || ((p == k.current_process) && same s running)) ≡ true
  pub unlisted : (p : Ptr) → mem p (k.lists running) ≡ false
  pub distinct : Unique k.processes
  pub current : ((k.current_process == null) || mem k.current_process k.processes) ≡ true
  pub no_null : mem null k.processes ≡ false

pub same_state : (s t : State) → index_of s ≡ index_of t → s ≡ t
same_state empty empty e = refl
same_state running running e = refl
same_state ready ready e = refl
same_state sleeping sleeping e = refl
same_state waiting waiting e = refl
same_state blocked blocked e = refl
same_state s t e = absurd (omega arith)

-- To set a list to what it is changes nothing.
pub set_same : (k : Scheduler) (s : State) → IsValid k → IsValid (set_list s (k.lists s) k)
set_same k s is =
    let alike : (t : State) → (if same t s then k.lists s else k.lists t) ≡ k.lists t = λ t.
      elim (Bool-cases (same t s)) [
        | inl e ↦ rw e (ap k.lists (sym (same_state t s (==_true (index_of t) (index_of s) e))))
        | inr e ↦ rw e refl
      ] in
    record {
      listed = λ p t i. is.listed p t (sym (ap (mem p) (alike t)) ∙ i);
      unique = λ t. subst Unique (sym (alike t)) (is.unique t);
      complete = λ p t l i.
          ap (λ xs. mem p xs || ((p == k.current_process) && same t running)) (alike t)
          ∙ is.complete p t l i;
      unlisted = λ p. ap (mem p) (alike running) ∙ is.unlisted p;
      distinct = is.distinct;
      current = is.current;
      no_null = is.no_null;
    }

module _ (k : Scheduler) (p : Ptr) (s t : State) (xs ys zs : List Ptr)
    (is : IsValid (set_list s (xs ++ p ∷ ys) k)) (apart : same t s ≡ false)
    (still : same t running ≡ false) (moving : same s running ≡ false) (u : Unique zs)
    (grown : (q : Ptr) → mem q zs ≡ ((q == p) || mem q (k.lists t))) where
  -- A process goes from one list to another, and its state with it.
  pub transfer-IsValid : IsValid (set_list s (xs ++ ys) (set_list t zs (set_state p t k)))
  transfer-IsValid =
      let (state_p, live_p) =
        is.listed p s (rw (==_refl (index_of s)) (ground (arith, mem-append p xs (p ∷ ys)))) in
      let u_s : Unique (xs ++ p ∷ ys) =
        subst Unique (rw (==_refl (index_of s)) refl) (is.unique s) in
      record {
        listed = λ q v i. ground (arith, is.listed q v, mem-without q p xs ys u_s, grown q);
        unique = λ v. elim (Bool-cases (same v s)) [
          | inl e ↦ rw e (Unique-without p xs ys u_s)
          | inr e ↦ elim (Bool-cases (same v t)) [
            | inl e' ↦ rw (e, e') u
            | inr e' ↦ rw (e, e') (subst Unique (rw e refl) (is.unique v))
          ]
        ];
        complete = λ q v l i. ground (arith, is.complete q v l, mem-without q p xs ys u_s, grown q);
        unlisted = λ q. ground (arith, is.unlisted q);
        distinct = is.distinct;
        current = is.current;
        no_null = is.no_null;
      }
