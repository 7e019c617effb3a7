-- ===== src/Rollout/Workloads/CloneSetScale/Recorded.antt =====
-- What a batch of the scaling records, and its check at the end of the batch.
use rudr_x.Base.{refl, some, true, ℕ, ◌≡◌}
use rudr_x.Base.Int.{to_int32, ℤ}
use rudr_x.Rollout.Action.{Result, done, err, modify, ok, pure, ◌>>◌}
use rudr_x.Rollout.Status.{rollout_retry}
use rudr_x.Rollout.Types.{RolloutPlan, RolloutStatus, Runtime}
use rudr_x.Rollout.Workloads.{Api, CloneSet, NamespacedName, settle, waits}
use rudr_x.Rollout.Workloads.Batch.{scale_target}
use rudr_x.Rollout.Workloads.CloneSetScale.{
  finalize_one_batch, rollout_one_batch_pods, scale_clone_set,
}
use rudr_x.Rollout.Workloads.CloneSets.{fetch_clone_set, patched}
use rudr_x.Rollout.Workloads.Scaling.{IsScaling, recorded_accepted}

module _ {W : Type 0} (rt : Runtime) (api : Api W) (spec : RolloutPlan) (now : ℕ)
    (target : NamespacedName) where
  patch_recorded :
      (goal : ℤ) (a : Result CloneSet) (r : RolloutStatus) (w : W) {r' : RolloutStatus} {w' : W}
      → patched rt api now
          (modify (λ r1. record r1 { upgraded_replicas = to_int32 goal }) >> pure (ok true))
          a
          r
          w
        ≡ done (ok true, r', w')
      → r' ≡ record r { upgraded_replicas = to_int32 goal }
  unfolding patched waits rollout_retry
  patch_recorded goal (err m) r w e = cc
  patch_recorded goal (ok d) r w e = cc

  read_recorded :
      (a : Result CloneSet) (r : RolloutStatus) (w : W) {r' : RolloutStatus} {w' : W}
      → settle (waits rt now) (scale_clone_set rt api spec now target) a r w
        ≡ done (ok true, r', w')
      → r' ≡ record r { upgraded_replicas = to_int32 (scale_target rt spec r) }
  unfolding settle waits scale_clone_set rollout_retry
  read_recorded (err m) r w e = cc
  read_recorded (ok c) r w e =
      patch_recorded (scale_target rt spec r)
        (api.patch_clone_set c (record c { replicas = some (to_int32 (scale_target rt spec r)) })
          w).0
        r _ e

  -- The same of a CloneSet: a batch of a scaling between sizes that are `int32` and not negative,
  -- that the verification accepted without negative batch sizes, and that is not past the
  -- partition, is never refused at its end for what `RolloutOneBatchPods` recorded: where that
  -- succeeds, `FinalizeOneBatch` accepts the status that it leaves.
  pub clone_set_batch-finalized :
      (r : RolloutStatus) (w : W) {r' : RolloutStatus} {w' : W} (w2 : W)
      → IsScaling rt spec r
      → rollout_one_batch_pods rt api spec now target r w ≡ done (ok true, r', w')
      → finalize_one_batch rt api spec now target r' w2 ≡ done (ok true, r', w2)
  unfolding rollout_one_batch_pods finalize_one_batch fetch_clone_set
  clone_set_batch-finalized r w w2 h e =
      let recorded =
        read_recorded (api.get_clone_set target w).0 r (api.get_clone_set target w).1 e in
      rw recorded (rw (recorded_accepted rt spec r h) refl)
