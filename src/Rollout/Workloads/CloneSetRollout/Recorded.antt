-- ===== src/Rollout/Workloads/CloneSetRollout/Recorded.antt =====
-- What a batch of the upgrade records, and its check at the end of the batch.
use mathlib.Core.Path.{subst}
use rudr_x.Base.{arith, false, none, refl, some, true, ℕ, ◌≡◌}
use rudr_x.Base.Int.{IsInt32, pos, to_int32, to_int32_of_IsInt32, ℤ, ◌-ℤ◌, ◌≤ℤ◌}
use rudr_x.Rollout.Action.{Result, done, err, modify, ok, pure, ◌>>◌}
use rudr_x.Rollout.Batches.{calculate_new_batch_target, verify_batches_with_rollout}
use rudr_x.Rollout.Batches.Bounds.{last_index}
use rudr_x.Rollout.Batches.Steps.{rollout_target_bounds}
use rudr_x.Rollout.Batches.Sums.{HasSizes}
use rudr_x.Rollout.Status.{rollout_retry}
use rudr_x.Rollout.Types.{RolloutPlan, RolloutStatus, Runtime, batches, int_val}
use rudr_x.Rollout.Workloads.{Api, CloneSet, NamespacedName, settle, waits}
use rudr_x.Rollout.Workloads.Batch.{past_partition}
use rudr_x.Rollout.Workloads.CloneSetRollout.{
  finalize_one_batch, finalize_upgraded, move_partition, rollout_one_batch_pods, upgrade_target,
}
use rudr_x.Rollout.Workloads.CloneSets.{clone_set_size, fetch_clone_set, patched}
use rudr_x.Rollout.Workloads.Scaling.{before_le}

part-IsInt32 : (z total : ℤ) → pos 0 ≤ℤ z → z ≤ℤ total → IsInt32 total → IsInt32 z
part-IsInt32 z total low high fits = ground arith

-- An upgrade of a CloneSet that the verification accepted, with its batch.
pub record IsUpgrade (rt : Runtime) (spec : RolloutPlan) (r : RolloutStatus) : Type 0 where
  pub verified : verify_batches_with_rollout rt spec r.rollout_target_size ≡ none
  pub sizes : HasSizes rt r.rollout_target_size (batches spec)
  pub total : IsInt32 r.rollout_target_size
  pub high : r.current_batch ≤ℤ last_index spec
  pub unparted : past_partition spec.batch_partition r.current_batch ≡ false

module _ {W : Type 0} (rt : Runtime) (api : Api W) (spec : RolloutPlan) (now : ℕ)
    (target : NamespacedName) where
  abbrev goal_of : RolloutStatus → ℤ
  goal_of r = calculate_new_batch_target rt spec (pos 0) r.rollout_target_size r.current_batch

  patch_recorded :
      (goal : ℤ) (a : Result CloneSet) (r : RolloutStatus) (w : W) {r' : RolloutStatus} {w' : W}
      → patched rt api now
          (modify (λ r1. record r1 { upgraded_replicas = to_int32 goal }) >> pure (ok true))
          a
          r
          w
        ≡ done (ok true, r', w')
      → r' ≡ record r { upgraded_replicas = to_int32 goal }
  unfolding patched waits rollout_retry
  patch_recorded goal (err m) r w e = cc
  patch_recorded goal (ok d) r w e = cc

  read_recorded :
      (a : Result CloneSet) (r : RolloutStatus) (w : W) {r' : RolloutStatus} {w' : W}
      → ((c : CloneSet) → a ≡ ok c → clone_set_size c ≡ r.rollout_target_size)
      → settle (waits rt now) (move_partition rt api spec now target) a r w ≡ done (ok true, r', w')
      → r' ≡ record r { upgraded_replicas = to_int32 (goal_of r) }
  unfolding settle waits move_partition upgrade_target rollout_retry
  read_recorded (err m) r w size e = cc
  read_recorded (ok c) r w {r' = r'} size e =
      let goal = calculate_new_batch_target rt spec (pos 0) (clone_set_size c) r.current_batch in
      let wanted = record c {
        partition = some (int_val (to_int32 (clone_set_size c -ℤ to_int32 goal)));
      } in
      subst
        (λ n. r' ≡ record r {
          upgraded_replicas =
              to_int32 (calculate_new_batch_target rt spec (pos 0) n r.current_batch);
        })
        (size c refl) (patch_recorded goal (api.patch_clone_set c wanted w).0 r _ e)

  upgrade_accepted :
      (r : RolloutStatus)
      → IsUpgrade rt spec r
      → finalize_upgraded rt api spec now target
          (record r { upgraded_replicas = to_int32 (goal_of r) })
        ≡ ok true
  unfolding finalize_upgraded
  upgrade_accepted r h =
      let (low, up, top) =
        rollout_target_bounds rt spec r.rollout_target_size (r.current_batch -ℤ pos 1)
          r.current_batch h.verified h.sizes (before_le r.current_batch) h.high in
      let (low', up', top') =
        rollout_target_bounds rt spec r.rollout_target_size r.current_batch r.current_batch
          h.verified h.sizes (omega arith) h.high in
      let plain =
        to_int32_of_IsInt32 (goal_of r)
          (part-IsInt32 (goal_of r) r.rollout_target_size low' top' h.total) in
      ground (arith, plain, low, up, h.unparted)

  -- A batch of an upgrade to an `int32` total, that the verification accepted without negative
  -- batch sizes, and that is not past the partition, is never refused at its end for what
  -- `RolloutOneBatchPods` recorded: where that succeeds on a CloneSet that still has the size that
  -- was verified, `FinalizeOneBatch` accepts the status that it leaves.
  pub upgrade_batch-finalized :
      (r : RolloutStatus) (w : W) {r' : RolloutStatus} {w' : W} (w2 : W)
      → IsUpgrade rt spec r
      → ((c : CloneSet)
          → (api.get_clone_set target w).0 ≡ ok c
          → clone_set_size c ≡ r.rollout_target_size)
      → rollout_one_batch_pods rt api spec now target r w ≡ done (ok true, r', w')
      → finalize_one_batch rt api spec now target r' w2 ≡ done (ok true, r', w2)
  unfolding rollout_one_batch_pods finalize_one_batch fetch_clone_set
  upgrade_batch-finalized r w w2 h size e =
      let recorded =
        read_recorded (api.get_clone_set target w).0 r (api.get_clone_set target w).1 size e in
      rw recorded (rw (upgrade_accepted r h) refl)
