-- ===== src/Rollout/Defaults/Filling.antt =====
-- What the loops of `FillRolloutBatches` leave in fresh batches.
use mathlib.Core.List.{append-nil}
use rudr_x.Base.{
  List, [], ap, arith, refl, replicate, replicate-shift, some, suc, sym, zero, ℕ, ◌*◌, ◌++◌, ◌+◌,
  ◌-◌, ◌<◌, ◌∙◌, ◌∷◌, ◌≡◌, ◌≤◌,
}
use rudr_x.Base.Int.{IsInt32, pos, to_int32_of_IsInt32, ℤ, ◌+ℤ◌}
use rudr_x.Rollout.Defaults.{add_one, fill, filled, one_more, sweep, zero_batch}
use rudr_x.Rollout.Types.{IntOrString, RolloutBatch, int_val}

-- The documented value of a number: itself.
abbrev pub IsIntValue : (IntOrString → ℤ) → Type 0
IsIntValue int_value = (n : ℤ) → int_value (int_val n) ≡ n

-- A batch of `c` pods, and batches that share a total: each has `c`, and the last `r` have one more.
abbrev pub batch_of_size : ℕ → RolloutBatch
batch_of_size c = record zero_batch { replicas = int_val (pos c) }

abbrev pub shared : ℕ → ℕ → ℕ → List RolloutBatch
shared k r c = replicate (k - r) (batch_of_size c) ++ replicate r (batch_of_size (suc c))

pub pos-suc_pos : (c : ℕ) → pos c +ℤ pos 1 ≡ pos (suc c)
unfolding ◌+ℤ◌
pos-suc_pos c = ground arith

module _ (int_value : IntOrString → ℤ) (reads : IsIntValue int_value) where
  one_more-batch_of_size :
      (c : ℕ) → IsInt32 (pos (suc c)) → one_more int_value (batch_of_size c) ≡ batch_of_size (suc c)
  unfolding one_more
  one_more-batch_of_size c fits =
      simp (reads, pos-suc_pos c, to_int32_of_IsInt32 (pos (suc c)) fits) refl

  add_one-shift :
      (n c : ℕ) (bs : List RolloutBatch)
      → IsInt32 (pos (suc c))
      → add_one int_value n (replicate (suc n) (batch_of_size c) ++ bs)
        ≡ some (replicate n (batch_of_size c) ++ (batch_of_size (suc c) ∷ bs))
  unfolding add_one
  add_one-shift zero c bs fits = simp (one_more-batch_of_size c fits) refl
  add_one-shift (suc n) c bs fits = simp (add_one-shift n c bs fits) refl

  -- A round of the outer loop that has the pods for it gives one to each of the batches.
  sweep_all :
      (n c total left : ℕ) (bs : List RolloutBatch)
      → IsInt32 (pos (suc c))
      → total ≡ n + left
      → sweep int_value n (replicate n (batch_of_size c) ++ bs) total
        ≡ some (replicate n (batch_of_size (suc c)) ++ bs, left)
  unfolding sweep
  sweep_all zero c total left bs fits e = ap (λ t. some (bs, t)) (omega arith)
  sweep_all (suc n) c zero left bs fits e = absurd (omega arith)
  sweep_all (suc n) c (suc total) left bs fits e = rw (add_one-shift n c bs fits) (
      rw (sweep_all n c total left (batch_of_size (suc c) ∷ bs) fits (omega arith))
        (rw (replicate-shift n (batch_of_size (suc c)) bs) refl))

  -- One that has fewer gives one to each of the last batches.
  sweep_last :
      (k r n c : ℕ) (bs : List RolloutBatch)
      → IsInt32 (pos (suc c))
      → k ≡ r + n
      → sweep int_value k (replicate k (batch_of_size c) ++ bs) r
        ≡ some (replicate n (batch_of_size c) ++ (replicate r (batch_of_size (suc c)) ++ bs), 0)
  unfolding sweep
  sweep_last zero zero n c bs fits e =
      let none_first : 0 ≡ n = omega arith in
      ap (λ m. some (replicate m (batch_of_size c) ++ bs, 0)) none_first
  sweep_last zero (suc r) n c bs fits e = absurd (omega arith)
  sweep_last (suc k) zero n c bs fits e =
      let all_first : suc k ≡ n = omega arith in
      ap (λ m. some (replicate m (batch_of_size c) ++ bs, 0)) all_first
  sweep_last (suc k) (suc r) n c bs fits e = rw (add_one-shift k c bs fits) (
      rw (sweep_last k r n c (batch_of_size (suc c) ∷ bs) fits (omega arith))
        (rw (replicate-shift r (batch_of_size (suc c)) bs) refl))

  fill_last :
      (fuel k r c : ℕ)
      → r < k
      → IsInt32 (pos (suc c))
      → fill int_value (suc fuel) k (replicate k (batch_of_size c)) r ≡ filled (shared k r c)
  unfolding fill
  fill_last fuel k zero c less fits =
      let same : k - 0 ≡ k = omega arith in
      rw (append-nil (replicate (k - 0) (batch_of_size c))) (rw same refl)
  fill_last fuel k (suc r) c less fits =
      let swept = sweep_last k (suc r) (k - suc r) c [] fits (omega arith) in
      rw (sym (append-nil (replicate k (batch_of_size c))))
        (rw (swept, fill) (rw (append-nil (replicate (suc r) (batch_of_size (suc c)))) refl))

  fill_step :
      (fuel k total left : ℕ) (bs bs' : List RolloutBatch)
      → sweep int_value k bs (suc total) ≡ some (bs', left)
      → fill int_value (suc fuel) k bs (suc total) ≡ fill int_value fuel k bs' left
  unfolding fill
  fill_step fuel k total left bs bs' e = rw (e, fill) refl

  fill_round :
      (fuel k left c total : ℕ)
      → 0 < k
      → IsInt32 (pos (suc c))
      → total ≡ k + left
      → fill int_value (suc fuel) k (replicate k (batch_of_size c)) total
        ≡ fill int_value fuel k (replicate k (batch_of_size (suc c))) left
  fill_round fuel k left c zero some_batch fits e = absurd (omega arith)
  fill_round fuel k left c (suc total) some_batch fits e =
      fill_step fuel k total left _ _
        (simp append-nil at (sweep_all k c (suc total) left [] fits e))

  -- The outer loop: `q` rounds that serve every batch, and one more for the `r` pods left.
  pub fill_shares :
      (q fuel k r c total : ℕ)
      → r < k
      → q + 1 ≤ fuel
      → IsInt32 (pos (c + q + 1))
      → total ≡ q * k + r
      → fill int_value fuel k (replicate k (batch_of_size c)) total ≡ filled (shared k r (c + q))
  fill_shares zero zero k r c total less enough fits e = absurd (omega arith)
  fill_shares zero (suc fuel) k r c total less enough fits e =
      let left : total ≡ r = omega arith in
      let none_more : c ≡ c + 0 = omega arith in
      ap (fill int_value (suc fuel) k (replicate k (batch_of_size c))) left
      ∙ fill_last fuel k r c less (omega arith)
      ∙ ap (λ m. filled (shared k r m)) none_more
  fill_shares (suc q) zero k r c total less enough fits e = absurd (omega arith)
  fill_shares (suc q) (suc fuel) k r c total less enough fits e =
      let one_more : suc c + q ≡ c + suc q = omega arith in
      fill_round fuel k (q * k + r) c total (omega arith) (omega arith) (ground arith)
      ∙ fill_shares q fuel k r (suc c) (q * k + r) less (omega arith) (omega arith) refl
      ∙ ap (λ m. filled (shared k r m)) one_more
