-- ===== src/Rollout/Batches/Sums.antt =====
-- The loops of common.go as sums of the sizes of the first batches.
use mathlib.Core.Option.{some-injective}
use rudr_x.Base.{List, [], arith, get_elem?, length, some, suc, zero, ℕ, ◌-◌, ◌∷◌, ◌≡◌, ◌≤◌}
use rudr_x.Base.Int.{int_laws, pos, ℤ, ◌+ℤ◌, ◌-ℤ◌, ◌≤ℤ◌}
use rudr_x.Rollout.Batches.{add_but_last, batch_size, grow, shrink, subtract_but_last}
use rudr_x.Rollout.Types.{RolloutBatch, Runtime}

module _ (rt : Runtime) (total : ℤ) where
  -- The sum of the sizes of the first `k` batches.
  pub sum_first : ℕ → List RolloutBatch → ℤ
  sum_first zero bs = pos 0
  sum_first (suc k) [] = pos 0
  sum_first (suc k) (b ∷ bs) = batch_size rt total b +ℤ sum_first k bs

  -- No batch has a negative size.
  abbrev pub HasSizes : List RolloutBatch → Type 0
  HasSizes [] = Unit
  HasSizes (b ∷ bs) = (pos 0 ≤ℤ batch_size rt total b) × HasSizes bs

  pub grow-eq :
      (acc : ℤ) (k : ℕ) (bs : List RolloutBatch) → grow rt total acc k bs ≡ acc +ℤ sum_first k bs
  unfolding grow sum_first
  grow-eq acc zero bs = omega int_laws
  grow-eq acc (suc k) [] = omega int_laws
  grow-eq acc (suc k) (b ∷ bs) = rw (grow-eq (acc +ℤ batch_size rt total b) k bs) (omega int_laws)

  pub shrink-eq :
      (acc : ℤ) (k : ℕ) (bs : List RolloutBatch) → shrink rt total acc k bs ≡ acc -ℤ sum_first k bs
  unfolding shrink sum_first
  shrink-eq acc zero bs = omega int_laws
  shrink-eq acc (suc k) [] = omega int_laws
  shrink-eq acc (suc k) (b ∷ bs) =
      rw (shrink-eq (acc -ℤ batch_size rt total b) k bs) (omega int_laws)

  pub add_but_last-eq :
      (acc : ℤ) (bs : List RolloutBatch)
      → add_but_last rt total acc bs ≡ acc +ℤ sum_first (length bs - 1) bs
  unfolding add_but_last sum_first
  add_but_last-eq acc [] = omega int_laws
  add_but_last-eq acc (b ∷ []) = omega int_laws
  add_but_last-eq acc (b ∷ c ∷ bs) =
      let step : suc (suc (length bs)) - 1 ≡ suc (suc (length bs) - 1) = omega arith in
      rw step (rw (add_but_last-eq (acc +ℤ batch_size rt total b) (c ∷ bs)) (omega int_laws))

  pub subtract_but_last-eq :
      (acc : ℤ) (bs : List RolloutBatch)
      → subtract_but_last rt total acc bs ≡ acc -ℤ sum_first (length bs - 1) bs
  unfolding subtract_but_last sum_first
  subtract_but_last-eq acc [] = omega int_laws
  subtract_but_last-eq acc (b ∷ []) = omega int_laws
  subtract_but_last-eq acc (b ∷ c ∷ bs) =
      let step : suc (suc (length bs)) - 1 ≡ suc (suc (length bs) - 1) = omega arith in
      rw step (rw (subtract_but_last-eq (acc -ℤ batch_size rt total b) (c ∷ bs)) (omega int_laws))

  pub sum_first_nonneg : (k : ℕ) (bs : List RolloutBatch) → HasSizes bs → pos 0 ≤ℤ sum_first k bs
  unfolding sum_first
  sum_first_nonneg zero bs h = omega arith
  sum_first_nonneg (suc k) [] h = omega arith
  sum_first_nonneg (suc k) (b ∷ bs) h = omega (int_laws, sum_first_nonneg k bs h.1)

  pub sum_first_mono :
      (k m : ℕ) (bs : List RolloutBatch) → HasSizes bs → k ≤ m → sum_first k bs ≤ℤ sum_first m bs
  unfolding sum_first
  sum_first_mono zero m bs h le = sum_first_nonneg m bs h
  sum_first_mono (suc k) zero bs h le = absurd (omega arith)
  sum_first_mono (suc k) (suc m) [] h le = omega arith
  sum_first_mono (suc k) (suc m) (b ∷ bs) h le =
      omega (int_laws, sum_first_mono k m bs h.1 (omega arith))

  -- One more batch adds its size.
  pub sum_first-suc :
      (k : ℕ) (bs : List RolloutBatch) {b : RolloutBatch}
      → get_elem? bs k ≡ some b
      → sum_first (suc k) bs ≡ sum_first k bs +ℤ batch_size rt total b
  unfolding sum_first
  sum_first-suc k [] h = cc
  sum_first-suc zero (c ∷ bs) h = rw (some-injective _ _ h) (omega int_laws)
  sum_first-suc (suc k) (c ∷ bs) h = rw (sum_first-suc k bs h) (omega int_laws)
