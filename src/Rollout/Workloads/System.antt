-- ===== src/Rollout/Workloads/System.antt =====
-- The plan controller with the four workload controllers that `GetWorkloadController` makes.
use rudr_x.Base.{Option, none, some, true, ℕ, ◌≡◌}
use rudr_x.Base.Int.{IsInt32}
use rudr_x.Rollout.Action.{WorkloadController}
use rudr_x.Rollout.Batches.Bounds.{last_index}
use rudr_x.Rollout.Selection.{
  ControllerKind, Workload, clone_set_rollout, clone_set_scale, deployment_rollout,
  deployment_scale,
}
use rudr_x.Rollout.Plan.{reconcile}
use rudr_x.Rollout.Plan.Control.{reconcile-IsSound}
use rudr_x.Rollout.Plan.Ensures.{Ensures, Obeys}
use rudr_x.Rollout.Plan.Safety.{IsSound, is_reconciled}
use rudr_x.Rollout.Types.{RolloutPlan, RolloutStatus, Runtime}
use rudr_x.Rollout.Webhook.{Http, Parent}
use rudr_x.Rollout.Workloads.{Api, NamespacedName}
use rudr_x.Rollout.Workloads.CloneSetRollout.{clone_set_rollout_controller}
use rudr_x.Rollout.Workloads.CloneSetRollout.Contract.{clone_set_rollout-Obeys}
use rudr_x.Rollout.Workloads.CloneSetScale.{clone_set_scale_controller}
use rudr_x.Rollout.Workloads.CloneSetScale.Contract.{clone_set_scale-Obeys}
use rudr_x.Rollout.Workloads.DeploymentRollout.{deployment_rollout_controller}
use rudr_x.Rollout.Workloads.DeploymentRollout.Contract.{FillsReplicas, deployment_rollout-Obeys}
use rudr_x.Rollout.Workloads.DeploymentScale.{deployment_scale_controller}
use rudr_x.Rollout.Workloads.DeploymentScale.Contract.{deployment_scale-Obeys}

abbrev pub name_of : Workload → NamespacedName
name_of o = record { namespace = o.namespace; name = o.name }

-- The name of the source, empty without one.
abbrev pub source_name : Option Workload → NamespacedName
source_name none = record { namespace = ""; name = "" }
source_name (some o) = name_of o

-- The controllers of `GetWorkloadController`, by their kinds.
unfoldable pub workload_controllers :
    {W : Type 0}
    → Runtime
    → Api W
    → RolloutPlan
    → ℕ
    → Workload
    → Option Workload
    → ControllerKind
    → WorkloadController W
unfolding clone_set_rollout_controller clone_set_scale_controller deployment_rollout_controller
    deployment_scale_controller
workload_controllers rt api spec now target source clone_set_rollout =
    clone_set_rollout_controller rt api spec now (name_of target)
workload_controllers rt api spec now target source clone_set_scale =
    clone_set_scale_controller rt api spec now (name_of target)
workload_controllers rt api spec now target source deployment_rollout =
    deployment_rollout_controller rt api spec now (source_name source) (name_of target)
workload_controllers rt api spec now target source deployment_scale =
    deployment_scale_controller rt api spec now (name_of target)

module _ {W : Type 0} (rt : Runtime) (http : Http W) (parent : Parent) (api : Api W)
    (spec : RolloutPlan) (now : ℕ) (target : Workload) (source : Option Workload)
    (filled_in : FillsReplicas api) where
  pub controllers-Obeys :
      (kind : ControllerKind) → Obeys spec (workload_controllers rt api spec now target source kind)
  unfolding workload_controllers
  controllers-Obeys clone_set_rollout = clone_set_rollout-Obeys rt api spec now (name_of target)
  controllers-Obeys clone_set_scale = clone_set_scale-Obeys rt api spec now (name_of target)
  controllers-Obeys deployment_rollout =
      deployment_rollout-Obeys rt api spec now (source_name source) (name_of target) filled_in
  controllers-Obeys deployment_scale = deployment_scale-Obeys rt api spec now (name_of target)

  -- The whole rollout engine is safe: where the API server fills in the replicas of Deployments and
  -- the batches of the plan have `int32` indices, one round of `Reconcile` with the workload
  -- controllers of the repository does not panic on a sound status in a state that it has a case
  -- for, whatever the API server and the webhooks answer, and the status it leaves is sound.
  pub engine-IsSound :
      (r : RolloutStatus) (w : W)
      → IsInt32 (last_index spec)
      → IsSound spec r
      → is_reconciled r.rolling_state ≡ true
      → Ensures
          (reconcile rt http parent spec now
            (workload_controllers rt api spec now target source)
            target
            source
            r
            w)
          (λ _ r'. IsSound spec r')
  engine-IsSound r w fits h c =
      reconcile-IsSound rt http parent spec now (workload_controllers rt api spec now target source)
        target source r w controllers-Obeys fits h c
