-- ===== src/Rollout/Workloads/DeploymentScale/Recorded.antt =====
-- What a batch of the scaling records, and its check at the end of the batch.
use rudr_x.Base.{refl, some, true, ℕ, ◌≡◌}
use rudr_x.Base.Int.{to_int32, ℤ}
use rudr_x.Rollout.Action.{Result, done, err, ok, status, ◌>>=◌}
use rudr_x.Rollout.Status.{rollout_retry}
use rudr_x.Rollout.Types.{RolloutPlan, RolloutStatus, Runtime}
use rudr_x.Rollout.Workloads.{
  Api, Deployment, NamespacedName, noted, scale_deployment, settle, waits,
}
use rudr_x.Rollout.Workloads.Batch.{scale_target}
use rudr_x.Rollout.Workloads.DeploymentScale.{
  fetch_deployment, finalize_one_batch, rollout_one_batch_pods, scaled_to,
}
use rudr_x.Rollout.Workloads.Scaling.{IsScaling, recorded_accepted}

module _ {W : Type 0} (rt : Runtime) (api : Api W) (spec : RolloutPlan) (now : ℕ)
    (target : NamespacedName) where
  patch_recorded :
      (goal : ℤ) (a : Result Deployment) (r : RolloutStatus) (w : W) {r' : RolloutStatus} {w' : W}
      → (noted rt now a >>= scaled_to rt api spec now target goal) r w ≡ done (ok true, r', w')
      → r' ≡ record r { upgraded_replicas = to_int32 goal }
  unfolding noted scaled_to rollout_retry
  patch_recorded goal (err m) r w e = cc
  patch_recorded goal (ok d) r w e = cc

  read_recorded :
      (a : Result Deployment) (r : RolloutStatus) (w : W) {r' : RolloutStatus} {w' : W}
      → settle
          (waits rt now)
          (λ d. status >>= λ r1.
            scale_deployment rt api now d (to_int32 (scale_target rt spec r1))
            >>= scaled_to rt api spec now target (scale_target rt spec r1))
          a
          r
          w
        ≡ done (ok true, r', w')
      → r' ≡ record r { upgraded_replicas = to_int32 (scale_target rt spec r) }
  unfolding settle waits scale_deployment rollout_retry
  read_recorded (err m) r w e = cc
  read_recorded (ok d) r w e =
      patch_recorded (scale_target rt spec r)
        (api.patch_deployment d (record d { replicas = some (to_int32 (scale_target rt spec r)) })
          w).0
        r _ e

  -- A batch of a scaling between sizes that are `int32` and not negative, that the verification
  -- accepted without negative batch sizes, and that is not past the partition, is never refused at
  -- its end for what `RolloutOneBatchPods` recorded: where that succeeds, `FinalizeOneBatch`
  -- accepts the status that it leaves.
  pub deployment_batch-finalized :
      (r : RolloutStatus) (w : W) {r' : RolloutStatus} {w' : W} (w2 : W)
      → IsScaling rt spec r
      → rollout_one_batch_pods rt api spec now target r w ≡ done (ok true, r', w')
      → finalize_one_batch rt api spec now target r' w2 ≡ done (ok true, r', w2)
  unfolding rollout_one_batch_pods finalize_one_batch fetch_deployment
  deployment_batch-finalized r w w2 h e =
      let recorded =
        read_recorded (api.get_deployment target w).0 r (api.get_deployment target w).1 e in
      rw recorded (rw (recorded_accepted rt spec r h) refl)
