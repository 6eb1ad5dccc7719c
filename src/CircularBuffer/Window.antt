-- ===== src/CircularBuffer/Window.antt =====
-- Runs of places round an array: where a walk of `k` steps ends, what it reads, and which writes it
-- does not see.
use hry_os.Base.{
  ℕ, zero, suc, ◌+◌, ◌-◌, ◌≤◌, ◌<◌, ◌≡◌, ◌≢◌, refl, ap, ap₂, ◌∙◌, List, [], ◌∷◌, ◌++◌, arith, ltb,
  leb, if◌then◌else◌, ◌==◌, length, get_or, set, get_or-set_self, get_or-set_ne,
}

-- The place after `i` in an array of `n`.
abbrev pub after : ℕ → ℕ → ℕ
after n i = if i + 1 == n then 0 else i + 1

-- The place `k` steps after `i`, for less than a whole round.
abbrev pub place : ℕ → ℕ → ℕ → ℕ
place n i k = if ltb (i + k) n then i + k else i + k - n

-- The number of steps from `i` to `j`.
abbrev pub steps : ℕ → ℕ → ℕ → ℕ
steps n i j = if leb i j then j - i else j + n - i

module _ {T : Type 0} (n : ℕ) (d : T) where
  abbrev pub walk : List T → ℕ → ℕ → List T
  walk buf zero i = []
  walk buf (suc k) i = get_or buf i d ∷ walk buf k (after n i)

  pub length-walk : (buf : List T) (k i : ℕ) → length (walk buf k i) ≡ k
  length-walk buf zero i = refl
  length-walk buf (suc k) i = ap suc (length-walk buf k (after n i))

  -- One more step reads one more place at the end.
  pub walk-snoc :
      (buf : List T) (k i : ℕ)
      → i < n
      → k < n
      → walk buf (suc k) i ≡ walk buf k i ++ get_or buf (place n i k) d ∷ []
  walk-snoc buf zero i hi hk = ap (λ j. get_or buf j d ∷ []) (ground arith)
  walk-snoc buf (suc k) i hi hk =
      ap (λ r. get_or buf i d ∷ r)
        (walk-snoc buf k (after n i) (ground arith) (omega arith)
          ∙ ap (λ j. walk buf k (after n i) ++ get_or buf j d ∷ []) (ground arith))

  -- A write at a place that the walk does not reach.
  pub walk-set :
      (buf : List T) (k i j : ℕ) (v : T)
      → i < n
      → j < n
      → k ≤ steps n i j
      → walk (set buf j v) k i ≡ walk buf k i
  walk-set buf zero i j v hi hj h = refl
  walk-set buf (suc k) i j v hi hj h =
      let apart : j ≢ i = λ e. ground arith in
      ap₂ ◌∷◌ (get_or-set_ne buf v d apart)
        (walk-set buf k (after n i) j v (ground arith) hj (ground arith))

  -- A write just behind a walk extends it by the value.
  pub walk-extend :
      (buf : List T) (i j : ℕ) (v : T)
      → length buf ≡ n
      → i < n
      → j < n
      → walk (set buf j v) (suc (steps n i j)) i ≡ walk buf (steps n i j) i ++ v ∷ []
  walk-extend buf i j v len hi hj =
      let k = steps n i j in
      let ends : place n i k ≡ j = ground arith in
      walk-snoc (set buf j v) k i hi (ground arith)
      ∙ ap₂ (λ (xs : List T) x. xs ++ x ∷ []) (walk-set buf k i j v hi hj (omega arith))
          (ap (λ m. get_or (set buf j v) m d) ends ∙ get_or-set_self buf j v d (omega arith))

  -- A write just before a walk, in a place that it leaves free.
  pub walk-before :
      (buf : List T) (i j k : ℕ) (v : T)
      → length buf ≡ n
      → i < n
      → j < n
      → after n j ≡ i
      → k < n
      → walk (set buf j v) (suc k) j ≡ v ∷ walk buf k i
  walk-before buf i j k v len hi hj e hk =
      ap₂ ◌∷◌ (get_or-set_self buf j v d (omega arith))
        (ap (λ m. walk (set buf j v) k m) e ∙ walk-set buf k i j v hi hj (ground arith))
