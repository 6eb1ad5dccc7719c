-- ===== src/LinkedList/Values.antt =====
-- The list as its client sees it: a sequence of values, with no nodes. The kernel's scheduler is
-- modelled over these operations.
use hry_os.Base.{
  ℕ, ◌<◌, length, ◌∙◌, ◌≡◌, refl, ap, Bool, true, false, List, [], ◌∷◌, ◌++◌, if◌then◌else◌,
  Bool-cases, inl, inr,
}
use hry_os.Links.{Cells}
use hry_os.LinkedList.{Node, LinkedList, erase_if}
use hry_os.Memory.{Memory, Returns, mono}
use hry_os.LinkedList.Shape.{values, IsList}
use hry_os.LinkedList.EraseIf.{sieve, kept_by, erase_if-Sieved}

module _ {T S : Type 0} where
  -- `erase_if` on a sequence: what stays, and the predicate's state at the end.
  unfoldable pub sift : (T → S → Bool × S) → List T → S → List T × S
  sift func [] s = ([], s)
  sift func (v ∷ vs) s =
      let (hit, s') = func v s in
      let (rest, t) = sift func vs s' in (if hit then rest else v ∷ rest, t)

  pub sift-hit :
      (func : T → S → Bool × S) (v : T) (vs : List T) (s s' : S)
      → func v s ≡ (true, s')
      → sift func (v ∷ vs) s ≡ sift func vs s'
  unfolding sift
  sift-hit func v vs s s' e = rw e refl

  pub sift-miss :
      (func : T → S → Bool × S) (v : T) (vs : List T) (s s' : S)
      → func v s ≡ (false, s')
      → sift func (v ∷ vs) s ≡ (v ∷ (sift func vs s').0, (sift func vs s').1)
  unfolding sift
  sift-miss func v vs s s' e = rw e refl

  -- What `erase_if` keeps, with the nodes forgotten.
  values-sieve :
      (func : T → S → Bool × S) (xs : Cells T) (s : S)
      → (values (sieve func xs s).0, (sieve func xs s).1) ≡ sift func (values xs) s
  unfolding sift
  values-sieve func [] s = refl
  values-sieve func ((p, v) ∷ xs) s = elim (Bool-cases (func v s).0) [
    | inl hit ↦ rw hit (values-sieve func xs (func v s).1)
    | inr miss ↦ rw miss (ap (λ r. (v ∷ r.0, r.1)) (values-sieve func xs (func v s).1))
  ]

-- On a list of nodes with fewer of them than the fuel, `erase_if` returns a list whose values, in
-- order, are what `sift` leaves of the values of the first one, with the same state of the
-- predicate at the end.
pub erase_if-sift :
    {T S : Type 0} (store_erased : Bool) (func : T → S → Bool × S) (fuel : ℕ) (h : Memory (Node T))
    (l : LinkedList) (xs ys : Cells T) (s : S)
    → IsList h l xs ys
    → length xs < fuel
    → Returns
        (λ (l', s') g.
          (zs : Cells T) × (kept : Cells T) × IsList g l' zs kept
          × ((values zs, s') ≡ sift func (values xs) s))
        (erase_if store_erased fuel func l s h)
erase_if-sift store_erased func fuel h l xs ys s is enough =
    mono (erase_if-Sieved store_erased func fuel h l xs ys s is enough)
      λ (l', s') g (list, state, _, _). (
        (sieve func xs s).0,
        kept_by func store_erased xs s ys,
        list,
        ap (λ t. (values (sieve func xs s).0, t)) state ∙ values-sieve func xs s,
      )

pub values-append : {T : Type 0} (xs ys : Cells T) → values (xs ++ ys) ≡ values xs ++ values ys
values-append [] ys = refl
values-append ((p, v) ∷ xs) ys = ap (λ r. v ∷ r) (values-append xs ys)
