-- ===== src/Health/Checkers.antt =====
-- The checks of healthscope.go and standard.go. A check is for one kind of workload, and returns nil for
-- any other.
use rudr_x.Base.{
  Bool, List, Option, String, [], false, if◌then◌else◌, length, map, none, not, some, str_eq, true,
  ◌&&◌, ◌==◌, ◌∷◌,
}
use rudr_x.Base.Int.{pos, ℤ, ◌==ℤ◌}
use rudr_x.Base.Text.{decimal, ◌+++◌}
use rudr_x.Cluster.Calls.{Error, Result, err, error_text, failure, ok, wrapped}
use rudr_x.Cluster.References.{get, or_empty}
use rudr_x.Health.Types.{
  Checked, DaemonSet, HealthStatus, Labels, Reader, ReplicaSet, WorkloadHealthCondition,
  WorkloadReference, condition, healthy, panics, unhealthy, unknown, unmatched,
}

-- `ref.GroupVersionKind() != …`.
unfoldable pub is_kind : String → String → WorkloadReference → Bool
is_kind api_version kind ref = str_eq ref.api_version api_version && str_eq ref.kind kind

abbrev err_health_check : String
err_health_check = "error occurs in health check "

-- A condition of the workload, with nothing else said.
unfoldable pub initial : HealthStatus → WorkloadReference → WorkloadHealthCondition
initial status ref = record {
  component_name = "";
  target_workload = ref;
  health_status = status;
  diagnosis = "";
  workload_status = "";
}

unfoldable pub get_component_name_from_label : Labels → String
get_component_name_from_label labels = or_empty (get "app.oam.dev/component" labels)

unfoldable pub get_app_config_name_from_label : Labels → String
get_app_config_name_from_label labels = or_empty (get "app.oam.dev/name" labels)

-- The diagnosis of a read that fails.
unfoldable pub diagnosed : Error → WorkloadHealthCondition → WorkloadHealthCondition
diagnosed e r = record r { diagnosis = error_text (wrapped err_health_check e) }

-- The name of the component and the UID, once the object is read.
unfoldable pub identified : Labels → String → WorkloadHealthCondition → WorkloadHealthCondition
unfolding get_component_name_from_label
identified labels uid r = record r {
  component_name = get_component_name_from_label labels;
  target_workload = record r.target_workload { uid = uid };
}

unfoldable pub ready_text : ℤ → ℤ → String
ready_text ready wanted = "Ready:" +++ decimal ready +++ "/" +++ decimal wanted +++ " "

-- The criterion of Deployments and StatefulSets.
unfoldable pub judged_replicas : ReplicaSet → WorkloadHealthCondition → WorkloadHealthCondition
unfolding identified ready_text
judged_replicas d r =
    let required_replicas : ℤ = elim d.replicas [ none ↦ pos 0 | some n ↦ n ] in
    record (identified d.labels d.uid r) {
      diagnosis = ready_text d.ready_replicas required_replicas;
      health_status = if d.ready_replicas ==ℤ required_replicas then healthy else r.health_status;
    }

unfoldable pub read_replicas : WorkloadHealthCondition → Result ReplicaSet → WorkloadHealthCondition
unfolding judged_replicas diagnosed
read_replicas r (err e) = diagnosed e r
read_replicas r (ok d) = judged_replicas d r

unfoldable pub is_healthy : HealthStatus → Bool
is_healthy healthy = true
is_healthy _ = false

-- The loop over their conditions, where a nil pointer is dereferenced.
unfoldable pub merge_sub_conditions : List Checked → WorkloadHealthCondition → Checked
unfolding is_healthy
merge_sub_conditions [] r = condition r
merge_sub_conditions (unmatched ∷ rest) r = panics
merge_sub_conditions (panics ∷ rest) r = panics
merge_sub_conditions (condition sc ∷ rest) r = merge_sub_conditions rest (record r {
  health_status = if is_healthy sc.health_status then r.health_status else unhealthy;
  diagnosis = r.diagnosis +++ sc.diagnosis;
})

-- The loop that converts the children of a PodSpecWorkload.
unfoldable pub converted :
    List (WorkloadReference × Option String) → WorkloadHealthCondition → WorkloadHealthCondition
converted [] r = r
converted ((ref, none) ∷ rest) r = converted rest r
converted ((ref, some m) ∷ rest) r = converted rest (record r {
  health_status = unhealthy;
  diagnosis = error_text (wrapped err_health_check (failure m));
})

module _ (rd : Reader) (ns : String) where
  unfoldable pub check_deployment_health : WorkloadReference → Checked
  unfolding is_kind initial read_replicas
  check_deployment_health ref =
      if not (is_kind "apps/v1" "Deployment" ref)
      then unmatched
      else condition (read_replicas (initial unhealthy ref) (rd.get_deployment ns ref.name))

  unfoldable pub check_statefulset_health : WorkloadReference → Checked
  unfolding is_kind initial read_replicas
  check_statefulset_health ref =
      if not (is_kind "apps/v1" "StatefulSet" ref)
      then unmatched
      else condition (read_replicas (initial unhealthy ref) (rd.get_statefulset ns ref.name))

  unfoldable pub read_daemonset :
      WorkloadHealthCondition → Result DaemonSet → WorkloadHealthCondition
  unfolding identified diagnosed ready_text
  read_daemonset r (err e) = diagnosed e r
  read_daemonset r (ok d) = record (identified d.labels d.uid r) {
    diagnosis = ready_text d.number_ready d.desired_number_scheduled;
    health_status = if d.number_unavailable ==ℤ pos 0 then healthy else r.health_status;
  }

  unfoldable pub check_daemonset_health : WorkloadReference → Checked
  unfolding is_kind initial read_daemonset
  check_daemonset_health ref =
      if not (is_kind "apps/v1" "DaemonSet" ref)
      then unmatched
      else condition (read_daemonset (initial unhealthy ref) (rd.get_daemonset ns ref.name))

  -- The condition of a Service: it is there.
  unfoldable pub check_service : WorkloadReference → WorkloadHealthCondition
  unfolding initial diagnosed
  check_service child_ref = elim (rd.get_workload child_ref ns) [
    | ok o ↦ initial healthy child_ref
    | err e ↦ diagnosed e (initial unhealthy child_ref)
  ]

  -- The loop over the children: the conditions of those that are a Deployment or a Service.
  unfoldable pub sub_conditions : List WorkloadReference → List Checked
  unfolding check_deployment_health check_service
  sub_conditions [] = []
  sub_conditions (ref ∷ refs) =
      if str_eq ref.kind "Deployment"
      then check_deployment_health ref ∷ sub_conditions refs
      else if str_eq ref.kind "Service"
      then condition (check_service ref) ∷ sub_conditions refs
      else sub_conditions refs

  unfoldable pub update_child_resources_condition :
      WorkloadHealthCondition → WorkloadReference → List WorkloadReference → Checked
  unfolding sub_conditions merge_sub_conditions
  update_child_resources_condition r ref child_refs =
      if not (length child_refs == 2)
      then condition (record r {
        diagnosis = "cannot get child resource references of workload " +++ ref.name;
        health_status = unhealthy;
      })
      else merge_sub_conditions (sub_conditions child_refs) r

  unfoldable pub check_containerized_workload_health : WorkloadReference → Checked
  unfolding is_kind initial diagnosed identified update_child_resources_condition
  check_containerized_workload_health ref =
      if not (is_kind "core.oam.dev/v1alpha2" "ContainerizedWorkload" ref)
      then unmatched
      else elim (rd.get_containerized_workload ns ref.name) [
        | err e ↦ condition (diagnosed e (initial unhealthy ref))
        | ok o ↦
            update_child_resources_condition (identified o.labels o.uid (initial healthy ref)) ref
              (map (λ (c : WorkloadReference × Option String). c.0) o.resources)
      ]

  unfoldable pub check_pod_spec_workload_health : WorkloadReference → Checked
  unfolding is_kind initial diagnosed identified converted update_child_resources_condition
  check_pod_spec_workload_health ref =
      if not (is_kind "standard.oam.dev/v1alpha1" "PodSpecWorkload" ref)
      then unmatched
      else elim (rd.get_pod_spec_workload ns ref.name) [
        | err e ↦ condition (diagnosed e (initial unhealthy ref))
        | ok o ↦
            update_child_resources_condition
              (converted o.resources (identified o.labels o.uid (initial healthy ref))) ref
              (map (λ (c : WorkloadReference × Option String). c.0) o.resources)
      ]

  unfoldable pub check_unknown_workload : WorkloadReference → Checked
  unfolding initial diagnosed get_component_name_from_label
  check_unknown_workload wl_ref =
      let r = record (initial unknown wl_ref) {
        diagnosis =
            "APIVersion " +++ wl_ref.api_version +++ " Kind " +++ wl_ref.kind
            +++ " workload is unknown for HealthScope ";
      } in
      elim (rd.get_workload wl_ref ns) [
        | err e ↦ condition (diagnosed e r)
        | ok wl ↦
            let named = record r { component_name = get_component_name_from_label wl.labels } in
            elim wl.status [
              | err e ↦ condition (diagnosed e named)
              | ok status ↦ condition (record named { workload_status = status })
            ]
      ]
