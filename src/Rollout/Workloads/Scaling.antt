-- ===== src/Rollout/Workloads/Scaling.antt =====
-- What a batch of a scaling records, and its check at the end of the batch.
use rudr_x.Base.{arith, false, none, true, ◌≡◌}
use rudr_x.Base.Int.{IsInt32, int_laws, pos, to_int32, to_int32_of_IsInt32, ℤ, ◌-ℤ◌, ◌≤ℤ◌}
use rudr_x.Rollout.Action.{ok}
use rudr_x.Rollout.Batches.{calculate_new_batch_target, verify_batches_with_scale}
use rudr_x.Rollout.Batches.Bounds.{HasSizesOnWay, Towards, last_index, pod_target-Towards}
use rudr_x.Rollout.Types.{RolloutPlan, RolloutStatus, Runtime}
use rudr_x.Rollout.Workloads.Batch.{
  finalize_scaled_batch, max_ℤ, min_ℤ, past_partition, scale_target,
}

-- The sizes of a scaling that the verification accepted, with its batch.
pub record IsScaling (rt : Runtime) (spec : RolloutPlan) (r : RolloutStatus) : Type 0 where
  pub verified :
      verify_batches_with_scale rt spec r.rollout_original_size r.rollout_target_size ≡ none
  pub sizes : HasSizesOnWay rt spec r.rollout_original_size r.rollout_target_size
  pub original : (pos 0 ≤ℤ r.rollout_original_size) × IsInt32 r.rollout_original_size
  pub target : (pos 0 ≤ℤ r.rollout_target_size) × IsInt32 r.rollout_target_size
  pub low : pos 0 ≤ℤ r.current_batch
  pub high : r.current_batch ≤ℤ last_index spec
  pub unparted : past_partition spec.batch_partition r.current_batch ≡ false

between-IsInt32 : (o t x y : ℤ) → IsInt32 o → IsInt32 t → Towards o t x y → IsInt32 y
between-IsInt32 o t x y ho ht h = ground arith

pub before_le : (i : ℤ) → i -ℤ pos 1 ≤ℤ i
before_le i = omega int_laws

module _ (rt : Runtime) (spec : RolloutPlan) (r : RolloutStatus) (h : IsScaling rt spec r) where
  towards :
      Towards r.rollout_original_size r.rollout_target_size
        (calculate_new_batch_target rt spec r.rollout_original_size r.rollout_target_size
          (r.current_batch -ℤ pos 1))
        (scale_target rt spec r)
  unfolding scale_target
  towards =
      pod_target-Towards rt spec r.rollout_original_size r.rollout_target_size
        (r.current_batch -ℤ pos 1) r.current_batch h.verified h.sizes (before_le r.current_batch)
        h.high

  fits : to_int32 (scale_target rt spec r) ≡ scale_target rt spec r
  fits = to_int32_of_IsInt32 (scale_target rt spec r) (
      between-IsInt32 r.rollout_original_size r.rollout_target_size _ (scale_target rt spec r)
        h.original.1 h.target.1 towards)

  pub recorded_accepted :
      finalize_scaled_batch rt spec
        (record r { upgraded_replicas = to_int32 (scale_target rt spec r) })
      ≡ ok true
  unfolding finalize_scaled_batch scale_target min_ℤ max_ℤ
  recorded_accepted = ground (arith, fits, towards, h.unparted)
