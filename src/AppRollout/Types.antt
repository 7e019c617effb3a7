-- ===== src/AppRollout/Types.antt =====
-- The object of the rollout controller, what it reads and writes outside, and calls that may panic.
use rudr_x.Base.{Bool, List, Option, String, none, some}
use rudr_x.Cluster.Calls.{Call, Result, err, ok}
use rudr_x.Cluster.References.{Manifest}
use rudr_x.Dispatch.{ApplicationRevision}
use rudr_x.Dispatch.Trackers.{DispatchApi}
use rudr_x.Rollout.Action.{Outcome, done, panic}
use rudr_x.Rollout.Types.{RolloutPlan, RolloutStatus}

-- The fields of an `AppRollout` that the code reads or writes; `rollout_status` is the embedded
-- `RolloutStatus`, and `deleted` says that the deletion timestamp is set.
pub record AppRollout : Type 0 where
  pub name : String
  pub namespace : String
  pub deleted : Bool
  pub finalizers : List String
  pub target_app_revision_name : String
  pub source_app_revision_name : String
  pub component_list : List String
  pub rollout_plan : RolloutPlan
  pub rollout_status : RolloutStatus
  pub last_upgraded_target_app_revision : String
  pub last_source_app_revision : String

-- The workloads of an assembled revision by the names of their components.
abbrev pub Workloads : Type 0
Workloads = List (String × Manifest)

-- The package `assemble` as the handler calls it, with the options on workloads.
pub record Assembler : Type 0 where
  pub prepare_workload_for_rollout : Manifest → Result Manifest
  pub assembled_manifests :
      List (Manifest → Result Manifest) → ApplicationRevision → Result (List Manifest)
  pub group_assembled_manifests :
      List (Manifest → Result Manifest) → ApplicationRevision → Result Workloads

-- The API server: the object of the request, the revisions and the workloads; `group_of` reads the
-- group of an API version. The finalizers are those of crossplane's package meta.
pub record RolloutApi (W Patch : Type 0) : Type 0 where
  pub get_app_rollout : Call W AppRollout
  pub update : AppRollout → Call W (Unit {0})
  pub update_status : AppRollout → Call W (Unit {0})
  pub get_app_revision : String → String → Call W ApplicationRevision
  pub get_workload : Manifest → Call W Manifest
  pub patch_workload : Manifest → Manifest → Call W (Unit {0})
  pub dispatching : DispatchApi W Patch
  pub group_of : String → String
  pub finalizer_exists : List String → String → Bool
  pub add_finalizer : List String → String → List String
  pub remove_finalizer : List String → String → List String

-- A step that may panic; beside an error nothing but the world is read.
abbrev pub Round : Type 0 → Type 0 → Type 0
Round W A = W → Outcome (Result A × W)

module _ {W : Type 0} where
  abbrev pub called : {A : Type 0} → Call W A → Round W A
  called c w = done (c w)

  abbrev pub after :
      {A B : Type 0} → (A → Round W B) → Outcome (Result A × W) → Outcome (Result B × W)
  after f panic = panic
  after f (done (err e, w)) = done (err e, w)
  after f (done (ok a, w)) = f a w

  infixl 5 ◌>>=◌ ◌>>◌
  abbrev pub ◌>>=◌ : {A B : Type 0} → Round W A → (A → Round W B) → Round W B
  ◌>>=◌ m f w = after f (m w)

  abbrev pub ◌>>◌ : {A B : Type 0} → Round W A → Round W B → Round W B
  m >> k = m >>= λ _. k

  -- `*m[k]` of a map of pointers, which panics where there is none.
  abbrev pub dereferenced : {A B : Type 0} → Option A → (A → Round W B) → Round W B
  dereferenced none f w = panic
  dereferenced (some a) f w = f a w
