-- ===== src/AppRollout/System.antt =====
-- The rollout controller with the plan controller and the workload controllers of the repository.
use rudr_x.Base.{ℕ}
use rudr_x.Base.Int.{IsInt32, pos, ◌≤ℤ◌}
use rudr_x.AppRollout.{do_reconcile}
use rudr_x.AppRollout.Covered.{Groups}
use rudr_x.AppRollout.Landing.{Lands}
use rudr_x.AppRollout.Safe.{KeptSound, do_reconcile-IsSound}
use rudr_x.AppRollout.Sound.{StartsFrom}
use rudr_x.AppRollout.Types.{AppRollout, Assembler, RolloutApi}
use rudr_x.Apply.{Library}
use rudr_x.Rollout.Batches.Bounds.{last_index}
use rudr_x.Rollout.Types.{Runtime}
use rudr_x.Rollout.Webhook.{Http}
use rudr_x.Rollout.Workloads.{Api}
use rudr_x.Rollout.Workloads.DeploymentRollout.Contract.{FillsReplicas}
use rudr_x.Rollout.Workloads.System.{controllers-Obeys, workload_controllers}

module _ {W Patch : Type 0} (rt : Runtime) (http : Http W) (server : Api W) (lib : Library Patch)
    (api : RolloutApi W Patch) (asm : Assembler) (now : ℕ) (filled_in : FillsReplicas server) where
  -- A round of the rollout controller, `DoReconcile`, with the plan controller and the workload
  -- controllers of the repository, does not panic, whatever the API server and the webhooks answer,
  -- where the API server fills in the replicas of Deployments, the plan has a batch and its batches
  -- have `int32` indices, and every revision has the component that the rollout names, if it names
  -- one. If the round succeeds, the plan is as it was, and the status that it leaves is sound, where
  -- the status was sound or had no state yet.
  pub app_rollout-IsSound :
      (given : AppRollout) (w : W)
      → IsInt32 (last_index given.rollout_plan)
      → pos 0 ≤ℤ last_index given.rollout_plan
      → Groups asm given.component_list
      → StartsFrom given.rollout_plan given.rollout_status
      → Lands ⊥
          (KeptSound given)
          (do_reconcile rt http (workload_controllers rt server) lib api asm now given w)
  app_rollout-IsSound given w =
      do_reconcile-IsSound rt http (workload_controllers rt server) lib api asm now given w
        (λ target source kind.
          controllers-Obeys rt http (record { name = given.name; namespace = given.namespace })
            server given.rollout_plan now target source filled_in kind)
