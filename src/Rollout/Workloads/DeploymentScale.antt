-- ===== src/Rollout/Workloads/DeploymentScale.antt =====
-- The controller of deployment_scale_controller.go.
pub mod Contract
pub mod Recorded
use rudr_x.Base.{Bool, Option, String, false, none, not, some, true, ℕ, ◌&&◌}
use rudr_x.Base.Int.{to_int32, ℤ, ◌==ℤ◌}
use rudr_x.Base.Text.{decimal, ◌+++◌}
use rudr_x.Rollout.Action.{
  Action, Result, WorkloadController, err, external, modify, ok, pure, status, ◌>>=◌, ◌>>◌,
}
use rudr_x.Rollout.Batches.{get_deploy_replica_size, verify_batches_with_scale}
use rudr_x.Rollout.Types.{RolloutPlan, Runtime}
use rudr_x.Rollout.Workloads.{
  Api, Deployment, NamespacedName, claim_deployment, fails_if, gives_up, release_deployment,
  release_done, scale_deployment, settle, waits, ◌or_else◌,
}
use rudr_x.Rollout.Workloads.Batch.{check_scaled_pods, finalize_scaled_batch, scale_target}
use rudr_x.Rollout.Workloads.CloneSetRollout.{scaling}

module _ {W : Type 0} (rt : Runtime) (api : Api W) (spec : RolloutPlan) (now : ℕ)
    (target : NamespacedName) where
  -- `fetchDeployment`.
  unfoldable pub fetch_deployment : Action W (Result Deployment)
  fetch_deployment = external (api.get_deployment target)

  -- What `VerifySpec` waits for: the Deployment neither scales nor updates.
  unfoldable pub unstable : Deployment → ℤ → Option String
  unstable d size =
      fails_if (not d.paused && not (size ==ℤ d.status_replicas)) (
        "the deployment "
        +++ d.name
        +++ " is in the middle of scaling, target size = "
        +++ decimal size
        +++ ", real size = "
        +++ decimal d.status_replicas)
      or_else fails_if (not d.paused && not (d.updated_replicas ==ℤ size)) (
          "the deployment "
          +++ d.name
          +++ " is in the middle of updating, target size = "
          +++ decimal size
          +++ ", updated pod = "
          +++ decimal d.updated_replicas)

  unfoldable pub uncontrolled : Deployment → Result Bool
  uncontrolled d = elim (api.get_controller_of d.owner_references) [
    | none ↦ ok true
    | some o ↦
        err ("the deployment " +++ d.name +++ " has a controller owner " +++ api.owner_text o)
  ]

  -- `VerifySpec` once the Deployment is read.
  unfoldable pub verify_scale : ℤ → Deployment → Action W (Result Bool)
  unfolding get_deploy_replica_size unstable uncontrolled waits
  verify_scale target_size d =
      let size = get_deploy_replica_size d.replicas in
      modify (λ r. record r { rollout_original_size = size })
      >> elim (verify_batches_with_scale rt spec size target_size) [
        | some m ↦ pure (err m)
        | none ↦ elim (unstable d size) [ some m ↦ waits rt now m | none ↦ pure (uncontrolled d) ]
      ]

  -- `VerifySpec`.
  unfoldable pub verify_spec_with : Option ℤ → Action W (Result Bool)
  unfolding fetch_deployment verify_scale settle waits
  verify_spec_with none = pure (
      err (
        "the rollout plan is attempting to scale the deployment " +++ target.name
        +++ " without a target"))
  verify_spec_with (some n) =
      modify (λ r. record r { rollout_target_size = n })
      >> fetch_deployment
      >>= settle (waits rt now) (verify_scale n)

  unfoldable pub verify_spec : Action W (Result Bool)
  unfolding verify_spec_with
  verify_spec = verify_spec_with spec.target_size

  unfoldable pub claim_done : Deployment × Result Bool → Result Bool
  claim_done (d, err m) = ok false
  claim_done (d, ok before) = ok true

  -- `Initialize`.
  unfoldable pub initialize : Action W (Result Bool)
  unfolding fetch_deployment settle waits claim_deployment claim_done
  initialize =
      fetch_deployment
      >>= settle (waits rt now)
          (λ d. claim_deployment rt api now d none >>= λ c. pure (claim_done c))

  -- What follows a scaling to `goal` that the API server answered.
  unfoldable pub scaled_to : ℤ → Option String → Action W (Result Bool)
  scaled_to goal (some m) = pure (ok false)
  scaled_to goal none =
      modify (λ r. record r { upgraded_replicas = to_int32 goal }) >> pure (ok true)

  -- `RolloutOneBatchPods`.
  unfoldable pub rollout_one_batch_pods : Action W (Result Bool)
  unfolding fetch_deployment settle waits scale_deployment scaled_to scale_target
  rollout_one_batch_pods =
      fetch_deployment
      >>= settle (waits rt now) (λ d. status >>= λ r.
          scale_deployment rt api now d (to_int32 (scale_target rt spec r))
          >>= scaled_to (scale_target rt spec r))

  -- `CheckOneBatchPods`.
  unfoldable pub check_one_batch_pods : Action W (Result Bool)
  unfolding fetch_deployment settle waits check_scaled_pods
  check_one_batch_pods =
      fetch_deployment
      >>= settle (waits rt now) (λ d. check_scaled_pods rt spec now d.ready_replicas)

  -- `FinalizeOneBatch`.
  unfoldable pub finalize_one_batch : Action W (Result Bool)
  unfolding finalize_scaled_batch
  finalize_one_batch = status >>= λ r. pure (finalize_scaled_batch rt spec r)

  -- `Finalize`.
  unfoldable pub finalize : Bool → Action W Bool
  unfolding fetch_deployment settle gives_up release_deployment release_done
  finalize well =
      fetch_deployment
      >>= settle (gives_up rt now)
          (λ d. release_deployment rt api now d >>= λ b. pure (release_done b))

-- `NewDeploymentScaleController`.
unfoldable pub deployment_scale_controller :
    {W : Type 0} → Runtime → Api W → RolloutPlan → ℕ → NamespacedName → WorkloadController W
unfolding verify_spec initialize rollout_one_batch_pods check_one_batch_pods finalize_one_batch
    finalize
deployment_scale_controller rt api spec now target = record {
  verify_spec = verify_spec rt api spec now target;
  initialize = initialize rt api spec now target;
  rollout_one_batch_pods = rollout_one_batch_pods rt api spec now target;
  check_one_batch_pods = check_one_batch_pods rt api spec now target;
  finalize_one_batch = finalize_one_batch rt api spec now target;
  finalize = finalize rt api spec now target;
}
