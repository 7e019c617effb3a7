-- ===== src/Rollout/Workloads/Batch.antt =====
-- What the four controllers of workloads do alike with the current batch.
use rudr_x.Base.{Bool, Option, false, if◌then◌else◌, none, some, suc, true, ℕ, ◌&&◌}
use rudr_x.Base.Int.{leb_ℤ, ltb_ℤ, negsuc, pos, to_int32, ℤ, ◌+ℤ◌, ◌-ℤ◌, ◌==ℤ◌}
use rudr_x.Rollout.Action.{Action, Result, err, modify, ok, or_panic, pure, status, ◌>>=◌, ◌>>◌}
use rudr_x.Rollout.Batches.{calculate_new_batch_target}
use rudr_x.Rollout.Status.{rollout_retry}
use rudr_x.Rollout.Types.{RolloutBatch, RolloutPlan, RolloutStatus, Runtime, batch_at, batches}

-- `intstr.GetValueFromIntOrPercent` of the pointer `MaxUnavailable`, 0 for nil.
unfoldable pub max_unavailable_of : Runtime → ℤ → RolloutBatch → ℤ
max_unavailable_of rt total b = elim b.max_unavailable [
  | none ↦ pos 0
  | some v ↦ (rt.get_value v total).0
]

-- `util.Abs`, `util.Min` and `util.Max`.
unfoldable pub abs : ℤ → ℤ
abs (pos n) = pos n
abs (negsuc n) = pos (suc n)

unfoldable pub min_ℤ : ℤ → ℤ → ℤ
min_ℤ a b = if ltb_ℤ a b then a else b

unfoldable pub max_ℤ : ℤ → ℤ → ℤ
max_ℤ a b = if ltb_ℤ b a then a else b

-- The test that the rollout has moved past the partition.
unfoldable pub past_partition : Option ℤ → ℤ → Bool
past_partition none current = false
past_partition (some p) current = ltb_ℤ p current

-- `GetValue` of the current batch, which panics out of range.
unfoldable pub current_batch : {W : Type 0} → RolloutPlan → Action W RolloutBatch
current_batch spec = status >>= λ r. or_panic (batch_at (batches spec) r.current_batch)

module _ (rt : Runtime) (spec : RolloutPlan) where
  -- The end of `CheckOneBatchPods` where a workload is scaled: is the batch done?
  unfoldable pub target_reached : RolloutStatus → ℤ → ℤ → ℤ → Bool
  target_reached r goal ready unavail =
      if leb_ℤ r.rollout_original_size r.rollout_target_size && leb_ℤ goal (unavail +ℤ ready)
      then true
      else ltb_ℤ r.rollout_target_size r.rollout_original_size && leb_ℤ ready goal

  -- The pod target of the current batch, from the sizes of the status.
  unfoldable pub scale_target : RolloutStatus → ℤ
  scale_target r =
      calculate_new_batch_target rt spec r.rollout_original_size r.rollout_target_size
        r.current_batch

  -- `CheckOneBatchPods` of the two scale controllers, after the workload is read.
  unfoldable pub check_scaled_pods : {W : Type 0} → ℕ → ℤ → Action W (Result Bool)
  unfolding current_batch max_unavailable_of abs target_reached scale_target
  check_scaled_pods now ready = do
    b ← current_batch spec
    r ← status
    let unavail =
        max_unavailable_of rt (abs (to_int32 (r.rollout_target_size -ℤ r.rollout_original_size))) b
    modify (λ r'. record r' { upgraded_ready_replicas = to_int32 ready })
    if target_reached r (scale_target r) ready unavail
        then pure (ok true)
        else (modify (rollout_retry rt now "the batch is not ready yet") >> pure (ok false))

  -- `FinalizeOneBatch` of the two scale controllers.
  unfoldable pub finalize_scaled_batch : RolloutStatus → Result Bool
  unfolding past_partition min_ℤ max_ℤ
  finalize_scaled_batch r =
      let before =
        calculate_new_batch_target rt spec r.rollout_original_size r.rollout_target_size
          (r.current_batch -ℤ pos 1) in
      let after =
        calculate_new_batch_target rt spec r.rollout_original_size r.rollout_target_size
          r.current_batch in
      if past_partition spec.batch_partition r.current_batch
      then err "the current batch value in the status is greater than the batch partition"
      else if r.rollout_original_size ==ℤ r.rollout_target_size
      then ok true
      else if ltb_ℤ r.upgraded_replicas (min_ℤ before after)
      then err "the upgraded replica in the status is less than the lower bound"
      else if ltb_ℤ (max_ℤ before after) r.upgraded_replicas
      then err "the upgraded replica in the status is greater than the upper bound"
      else ok true
