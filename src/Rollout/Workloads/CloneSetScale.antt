-- ===== src/Rollout/Workloads/CloneSetScale.antt =====
-- The controller of cloneset_scale_controller.go.
pub mod Contract
pub mod Recorded
use rudr_x.Base.{Bool, Option, String, none, not, some, true, ℕ, ◌&&◌}
use rudr_x.Base.Int.{to_int32, ℤ, ◌==ℤ◌}
use rudr_x.Base.Text.{decimal, ◌+++◌}
use rudr_x.Rollout.Action.{
  Action, Result, WorkloadController, err, external, modify, ok, pure, status, ◌>>=◌, ◌>>◌,
}
use rudr_x.Rollout.Batches.{verify_batches_with_scale}
use rudr_x.Rollout.Types.{RolloutPlan, Runtime}
use rudr_x.Rollout.Workloads.{
  Api, CloneSet, NamespacedName, fails_if, gives_up, settle, waits, ◌or_else◌,
}
use rudr_x.Rollout.Workloads.Batch.{check_scaled_pods, finalize_scaled_batch, scale_target}
use rudr_x.Rollout.Workloads.CloneSetRollout.{scaling}
use rudr_x.Rollout.Workloads.CloneSets.{
  claim_clone_set, clone_set_size, fetch_clone_set, patched, release_clone_set, uncontrolled,
}

module _ {W : Type 0} (rt : Runtime) (api : Api W) (spec : RolloutPlan) (now : ℕ)
    (target : NamespacedName) where
  -- What `VerifySpec` waits for: the CloneSet neither scales nor updates.
  unfoldable pub unstable : CloneSet → ℤ → Option String
  unstable c size =
      fails_if (not (size ==ℤ c.status_replicas)) (
        "the cloneset "
        +++ c.name
        +++ " is in the middle of scaling, target size = "
        +++ decimal size
        +++ ", real size = "
        +++ decimal c.status_replicas)
      or_else fails_if (not c.paused && not (c.updated_replicas ==ℤ size)) (
          "the cloneset "
          +++ c.name
          +++ " is in the middle of updating, target size = "
          +++ decimal size
          +++ ", updated pod = "
          +++ decimal c.updated_replicas)

  -- `VerifySpec` once the CloneSet is read.
  unfoldable pub verify_scale : ℤ → CloneSet → Action W (Result Bool)
  unfolding clone_set_size unstable uncontrolled waits
  verify_scale target_size c =
      let size = clone_set_size c in
      modify (λ r. record r { rollout_original_size = size })
      >> elim (verify_batches_with_scale rt spec size target_size) [
        | some m ↦ pure (err m)
        | none ↦ elim (unstable c size) [
          | some m ↦ waits rt now m
          | none ↦ pure (uncontrolled rt api now c)
        ]
      ]

  unfoldable pub verify_spec_with : Option ℤ → Action W (Result Bool)
  unfolding fetch_clone_set verify_scale settle waits
  verify_spec_with none = pure (
      err (
        "the rollout plan is attempting to scale the cloneset " +++ target.name
        +++ " without a target"))
  verify_spec_with (some n) =
      modify (λ r. record r { rollout_target_size = n })
      >> fetch_clone_set rt api now target
      >>= settle (waits rt now) (verify_scale n)

  -- `VerifySpec`.
  unfoldable pub verify_spec : Action W (Result Bool)
  unfolding verify_spec_with
  verify_spec = verify_spec_with spec.target_size

  -- `Initialize`.
  unfoldable pub initialize : Action W (Result Bool)
  unfolding fetch_clone_set settle waits claim_clone_set
  initialize =
      fetch_clone_set rt api now target
      >>= settle (waits rt now) (λ c. claim_clone_set rt api now c c.partition)

  -- `RolloutOneBatchPods` once the CloneSet is read.
  unfoldable pub scale_clone_set : CloneSet → Action W (Result Bool)
  unfolding scale_target patched
  scale_clone_set c = status >>= λ r.
      external
        (api.patch_clone_set c (record c { replicas = some (to_int32 (scale_target rt spec r)) }))
      >>= patched rt api now (
          modify (λ r'. record r' { upgraded_replicas = to_int32 (scale_target rt spec r) })
          >> pure (ok true))

  -- `RolloutOneBatchPods`.
  unfoldable pub rollout_one_batch_pods : Action W (Result Bool)
  unfolding fetch_clone_set settle waits scale_clone_set
  rollout_one_batch_pods =
      fetch_clone_set rt api now target >>= settle (waits rt now) scale_clone_set

  -- `CheckOneBatchPods`.
  unfoldable pub check_one_batch_pods : Action W (Result Bool)
  unfolding fetch_clone_set settle waits check_scaled_pods
  check_one_batch_pods =
      fetch_clone_set rt api now target
      >>= settle (waits rt now) (λ c. check_scaled_pods rt spec now c.ready_replicas)

  -- `FinalizeOneBatch`.
  unfoldable pub finalize_one_batch : Action W (Result Bool)
  unfolding finalize_scaled_batch
  finalize_one_batch = status >>= λ r. pure (finalize_scaled_batch rt spec r)

  -- `Finalize`.
  unfoldable pub finalize : Bool → Action W Bool
  unfolding fetch_clone_set settle gives_up release_clone_set
  finalize well =
      fetch_clone_set rt api now target
      >>= settle (gives_up rt now) (λ c. release_clone_set rt api now c c.paused (pure true))

-- `NewCloneSetScaleController`.
unfoldable pub clone_set_scale_controller :
    {W : Type 0} → Runtime → Api W → RolloutPlan → ℕ → NamespacedName → WorkloadController W
unfolding verify_spec initialize rollout_one_batch_pods check_one_batch_pods finalize_one_batch
    finalize
clone_set_scale_controller rt api spec now target = record {
  verify_spec = verify_spec rt api spec now target;
  initialize = initialize rt api spec now target;
  rollout_one_batch_pods = rollout_one_batch_pods rt api spec now target;
  check_one_batch_pods = check_one_batch_pods rt api spec now target;
  finalize_one_batch = finalize_one_batch rt api spec now target;
  finalize = finalize rt api spec now target;
}
