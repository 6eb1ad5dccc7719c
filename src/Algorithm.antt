-- ===== src/Algorithm.antt =====
-- code/hlib/include/algorithm.hpp: the loops over ranges, on a buffer in which both iterators are
-- indices. Reading or writing outside the buffer gives `none`.
use hry_os.Base.{
  ℕ, zero, suc, ◌+◌, ◌-◌, ◌<◌, ◌≤◌, ◌≡◌, ◌≢◌, refl, ap, ◌∙◌, Bool, true, false, ◌&&◌, Option, none,
  some, List, arith, if◌then◌else◌, ltb, leb, length, get_elem?, get_or, set, length-set,
  get_or-set_self, get_or-set_ne, get_elem?-eq-get_or, Bool-cases, inl, inr, ==_true, ◌==◌,
}
use hry_os.Fallible.{Gives, Gives-mono, ◌>>=◌}

module _ {A : Type 0} where
  abbrev pub write_at : ℕ → A → List A → Option (List A)
  write_at o v xs = if ltb o (length xs) then some (set xs o v) else none

abbrev pub in_range : ℕ → ℕ → ℕ → Bool
in_range first n j = leb first j && ltb j (first + n)

module _ {A : Type 0} where
  pub copy_n : ℕ → ℕ → ℕ → List A → Option (List A)
  copy_n zero in_first out_first xs = some xs
  copy_n (suc n) in_first out_first xs = do
    v ← get_elem? xs in_first
    ys ← write_at out_first v xs
    copy_n n (suc in_first) (suc out_first) ys

  pub fill_n : ℕ → ℕ → A → List A → Option (List A)
  fill_n zero first value xs = some xs
  fill_n (suc n) first value xs = do ys ← write_at first value xs; fill_n n (suc first) value ys

  -- The buffer after a copy: `j` holds what stood `offset` places behind it.
  pub record Copied (d : A) (n i o : ℕ) (xs ys : List A) : Type 0 where
    pub size : length ys ≡ length xs
    pub at :
        (j : ℕ)
        → get_or ys j d ≡ (if in_range o n j then get_or xs (j + (i - o)) d else get_or xs j d)

  copy_n-step :
      (d : A) (n i o : ℕ) (xs ys : List A)
      → o ≤ i
      → o < length xs
      → Copied d n (suc i) (suc o) (set xs o (get_or xs i d)) ys
      → Copied d (suc n) i o xs ys
  copy_n-step d n i o xs ys le bound c =
      let v = get_or xs i d in
      let shift : suc i - suc o ≡ i - o = omega arith in
      record {
        size = c.size ∙ length-set xs o v;
        at = λ j. c.at j ∙ elim (Bool-cases (j == o)) [
          | inl e ↦
              let here : j ≡ o = ==_true j o e in
              let out : in_range (suc o) n j ≡ false = ground arith in
              let inside : in_range o (suc n) j ≡ true = ground arith in
              let source : j + (i - o) ≡ i = omega (arith, here) in
              rw (out, inside, source)
                (ap (λ k. get_or (set xs o v) k d) here ∙ get_or-set_self xs o v d bound)
          | inr e ↦ elim (Bool-cases (in_range (suc o) n j)) [
            | inl r ↦
                let inside : in_range o (suc n) j ≡ true = ground arith in
                let behind : o ≢ j + (i - o) = ground arith in
                rw (r, inside, shift) (get_or-set_ne xs {i = o} {j = j + (i - o)} v d behind)
            | inr r ↦
                let out : in_range o (suc n) j ≡ false = ground arith in
                let other : o ≢ j = ground arith in
                rw (r, out) (get_or-set_ne xs {i = o} {j = j} v d other)
          ]
        ];
      }

  -- `copy_n` within one buffer to a place that is not behind the source, with the source inside
  -- the buffer, returns: the values arrive as they were before, also where the ranges overlap,
  -- and nothing else changes.
  pub copy_n-Copied :
      (d : A) (n i o : ℕ) (xs : List A)
      → o ≤ i
      → i + n ≤ length xs
      → Gives (Copied d n i o xs) (copy_n n i o xs)
  unfolding copy_n
  copy_n-Copied d zero i o xs le bound = record { size = refl; at = λ j. ground arith }
  copy_n-Copied d (suc n) i o xs le bound =
      let room : ltb o (length xs) ≡ true = ground arith in
      let ys = set xs o (get_or xs i d) in
      let rest =
        copy_n-Copied d n (suc i) (suc o) ys (omega arith)
          (omega (arith, length-set xs o (get_or xs i d))) in
      rw (get_elem?-eq-get_or xs i d (omega arith), room)
        (Gives-mono (copy_n n (suc i) (suc o) ys) rest
          (λ zs c. copy_n-step d n i o xs zs le (omega arith) c))
