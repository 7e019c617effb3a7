-- ===== src/Health/Types.antt =====
-- The conditions of apis/core.oam.dev/v1alpha2/core_scope_types.go, and what the checks read from the
-- API server.
use rudr_x.Base.{List, Option, String}
use rudr_x.Base.Int.{ℤ}
use rudr_x.Cluster.Calls.{Result}

-- `HealthStatus`, an open string type.
pub data HealthStatus : Type 0 where
  healthy unhealthy unknown : HealthStatus
  other_status : String → HealthStatus

-- `runtimev1alpha1.TypedReference`.
pub record WorkloadReference : Type 0 where
  pub api_version : String
  pub kind : String
  pub name : String
  pub uid : String

pub record WorkloadHealthCondition : Type 0 where
  pub component_name : String
  pub target_workload : WorkloadReference
  pub health_status : HealthStatus
  pub diagnosis : String
  pub workload_status : String

-- A pointer to a condition, or a panic on the way to it.
pub data Checked : Type 0 where
  unmatched : Checked
  panics : Checked
  condition : WorkloadHealthCondition → Checked

abbrev pub Labels : Type 0
Labels = List (String × String)

-- The fields of a Deployment or a StatefulSet that the checks read; `replicas` is a pointer.
pub record ReplicaSet : Type 0 where
  pub labels : Labels
  pub uid : String
  pub replicas : Option ℤ
  pub ready_replicas : ℤ

pub record DaemonSet : Type 0 where
  pub labels : Labels
  pub uid : String
  pub number_ready : ℤ
  pub desired_number_scheduled : ℤ
  pub number_unavailable : ℤ

-- A workload with child resources: each as the converter gives it, with an error beside it or none.
pub record ParentWorkload : Type 0 where
  pub labels : Labels
  pub uid : String
  pub resources : List (WorkloadReference × Option String)

-- An `unstructured.Unstructured`, with `json.Marshal` of its status.
pub record AnyWorkload : Type 0 where
  pub name : String
  pub labels : Labels
  pub status : Result String

-- `client.Client`, as far as the checks read it, by namespace and name. `list_workloads` lists the
-- workloads of a kind with a component's and an application's label.
pub record Reader : Type 0 where
  pub get_deployment : String → String → Result ReplicaSet
  pub get_statefulset : String → String → Result ReplicaSet
  pub get_daemonset : String → String → Result DaemonSet
  pub get_containerized_workload : String → String → Result ParentWorkload
  pub get_pod_spec_workload : String → String → Result ParentWorkload
  pub get_workload : WorkloadReference → String → Result AnyWorkload
  pub list_workloads :
      WorkloadReference → String → String → String → Result (List WorkloadReference)
