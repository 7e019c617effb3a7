-- ===== src/Rollout/Selection.antt =====
-- `GetWorkloadController` of pkg/controller/common/rollout/rollout_plan_controller.go: which workload
-- controller serves a target.
use rudr_x.Base.{Option, String, if◌then◌else◌, none, some, str_eq, ◌&&◌}
use rudr_x.Base.Text.{◌+++◌}
use rudr_x.Rollout.Action.{Result, WorkloadController, err, ok}

-- The kinds of workloads that have a controller.
pub data ControllerKind : Type 0 where
  clone_set_rollout clone_set_scale deployment_rollout deployment_scale : ControllerKind

-- The parts of a workload object that `GetWorkloadController` reads.
pub record Workload : Type 0 where
  pub group : String
  pub kind : String
  pub namespace : String
  pub name : String

-- `GetWorkloadController`: which controller serves the target, with a source or without.
unfoldable pub get_workload_controller : Workload → Option Workload → Result ControllerKind
get_workload_controller target source =
    if str_eq target.group "apps.kruise.io" && str_eq target.kind "CloneSet"
    then ok (elim source [ none ↦ clone_set_scale | some s ↦ clone_set_rollout ])
    else if str_eq target.group "apps" && str_eq target.kind "Deployment"
    then ok (elim source [ none ↦ deployment_scale | some s ↦ deployment_rollout ])
    else err ("the workload kind `" +++ target.kind +++ "` is not supported")

abbrev pub chosen :
    {W : Type 0}
    → (ControllerKind → WorkloadController W)
    → Result ControllerKind
    → Result (WorkloadController W)
chosen controllers (ok k) = ok (controllers k)
chosen controllers (err m) = err m
