-- ===== src/Rollout/Defaults.antt =====
-- The defaults that the mutating webhooks give a rollout plan, of
-- pkg/webhook/common/rollout/rollout_plan.go. `int_value` is `IntOrString.IntValue`.
pub mod Filling
pub mod Shares
pub mod Accepted
use rudr_x.Base.{List, Option, [], none, replicate, some, suc, zero, ℕ, ◌∷◌}
use rudr_x.Base.Int.{negsuc, pos, pos_part, to_int32, ℤ, ◌+ℤ◌}
use rudr_x.Rollout.Types.{
  IntOrString, RolloutBatch, RolloutPlan, RolloutStrategyType, increase_first_strategy, int_val,
  unset_strategy,
}

-- The end of a loop that may index out of range, or go on: `still_filling` when the fuel is used up.
pub data Fill (A : Type 0) : Type 0 where
  filled : A → Fill A
  fill_panics : Fill A
  still_filling : Fill A

-- What `make` puts in a slice of batches.
abbrev pub zero_batch : RolloutBatch
zero_batch = record {
  replicas = int_val (pos 0);
  max_unavailable = none;
  batch_rollout_webhooks = [];
}

-- `DefaultRolloutPlan`.
abbrev pub default_strategy : RolloutStrategyType → RolloutStrategyType
default_strategy unset_strategy = increase_first_strategy
default_strategy s = s

unfoldable pub default_rollout_plan : RolloutPlan → RolloutPlan
default_rollout_plan p = record p { rollout_strategy = default_strategy p.rollout_strategy }

module _ (int_value : IntOrString → ℤ) where
  -- The body of the loops: one more replica for the batch `i`.
  unfoldable pub one_more : RolloutBatch → RolloutBatch
  one_more b = record b { replicas = int_val (to_int32 (int_value b.replicas +ℤ pos 1)) }

  unfoldable pub add_one : ℕ → List RolloutBatch → Option (List RolloutBatch)
  unfolding one_more
  add_one i [] = none
  add_one zero (b ∷ bs) = some (one_more b ∷ bs)
  add_one (suc i) (b ∷ bs) = elim (add_one i bs) [ none ↦ none | some bs' ↦ some (b ∷ bs') ]

  -- The inner loop over the `k` first batches from the last one down, with what is left of the total.
  unfoldable pub sweep : ℕ → List RolloutBatch → ℕ → Option (List RolloutBatch × ℕ)
  unfolding add_one
  sweep zero bs total = some (bs, total)
  sweep (suc i) bs zero = some (bs, zero)
  sweep (suc i) bs (suc total) = elim (add_one i bs) [ none ↦ none | some bs' ↦ sweep i bs' total ]

  -- The outer loop, `for total > 0`, with fuel for its rounds.
  unfoldable pub fill : ℕ → ℕ → List RolloutBatch → ℕ → Fill (List RolloutBatch)
  unfolding sweep
  fill fuel k bs zero = filled bs
  fill zero k bs (suc total) = still_filling
  fill (suc fuel) k bs (suc total) = elim (sweep k bs (suc total)) [
    | none ↦ fill_panics
    | some (bs', total') ↦ fill fuel k bs' total'
  ]

  -- `FillRolloutBatches`: a negative size fills nothing, a negative number of batches runs no inner
  -- loop.
  unfoldable pub fill_rollout_batches : ℕ → List RolloutBatch → ℤ → ℤ → Fill (List RolloutBatch)
  unfolding fill
  fill_rollout_batches fuel bs total_size num_batches =
      fill fuel (pos_part num_batches) bs (pos_part total_size)

  -- `rollout.RolloutBatches` after the assignments of `DefaultRolloutBatches`; a negative length
  -- panics in `make`.
  unfoldable pub made_batches : ℕ → ℤ → ℤ → Fill (List RolloutBatch)
  unfolding fill_rollout_batches
  made_batches fuel target (pos n) =
      fill_rollout_batches fuel (replicate n zero_batch) target (pos n)
  made_batches fuel target (negsuc n) = fill_panics

  unfoldable pub with_batches : RolloutPlan → Fill (List RolloutBatch) → Fill RolloutPlan
  with_batches p (filled bs) = filled (record p { rollout_batches = some bs })
  with_batches p fill_panics = fill_panics
  with_batches p still_filling = still_filling

  unfoldable pub default_of :
      Option ℤ → Option ℤ → Option (List RolloutBatch) → ℕ → RolloutPlan → Fill RolloutPlan
  unfolding made_batches with_batches
  default_of (some t) (some n) none fuel p = with_batches p (made_batches fuel t n)
  default_of _ _ _ fuel p = filled p

  -- `DefaultRolloutBatches`.
  unfoldable pub default_rollout_batches : ℕ → RolloutPlan → Fill RolloutPlan
  unfolding default_of
  default_rollout_batches fuel p = default_of p.target_size p.num_batches p.rollout_batches fuel p
