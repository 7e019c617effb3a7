-- ===== src/Health/Witnesses.antt =====
-- A scope with a Deployment that is ready, a DaemonSet that is not and a workload of another kind.
use rudr_x.Base.{
  All, List, String, [], if◌then◌else◌, length, refl, some, str_eq, true, ◌+◌, ◌↔◌, ◌∷◌, ◌≡◌,
}
use rudr_x.Base.Int.{pos}
use rudr_x.Base.Text.{decimal}
use rudr_x.Cluster.Calls.{Result, err, not_found, ok}
use rudr_x.Cluster.References.{get}
use rudr_x.Health.{check_all, get_scope_health_status}
use rudr_x.Health.Arrivals.{IsHealthy, Received, closed, here, later, scope_health-received, sent}
use rudr_x.Health.Checkers.{
  check_containerized_workload_health, check_daemonset_health, check_pod_spec_workload_health,
  check_statefulset_health, get_app_config_name_from_label, update_child_resources_condition,
}
use rudr_x.Health.Merged.{any_foreign, merge_peers-status, update_child_resources-panics}
use rudr_x.Health.Peers.{
  any_unhealthy, check, first_of, join_diagnoses, merge_peer_workloads_conditions, others,
}
use rudr_x.Health.Types.{
  Reader, WorkloadHealthCondition, WorkloadReference, healthy, panics, unhealthy,
}
use rudr_x.Revisions.Numbers.{atoi}

abbrev named : String → String → String → WorkloadReference
named api_version kind name = record {
  api_version = api_version;
  kind = kind;
  name = name;
  uid = "";
}

abbrev nothing_here : {A : Type 0} → Result A
nothing_here = err (not_found "not found")

-- The workload `web-v2` has a peer `web-v1`, which is not ready.
abbrev reader : Reader
reader = record {
  get_deployment = λ ns name. ok (record {
    labels = [];
    uid = "u";
    replicas = some (pos 3);
    ready_replicas = if str_eq name "web-v1" then pos 1 else pos 3;
  });
  get_statefulset = λ ns name. nothing_here;
  get_daemonset = λ ns name. ok (record {
    labels = [];
    uid = "d";
    number_ready = pos 2;
    desired_number_scheduled = pos 2;
    number_unavailable = pos 0;
  });
  get_containerized_workload = λ ns name. nothing_here;
  get_pod_spec_workload = λ ns name. nothing_here;
  get_workload = λ ref ns. ok (record {
    name = ref.name;
    labels = ("app.oam.dev/component", "web") ∷ ("app.oam.dev/name", "app") ∷ [];
    status = ok "{}";
  });
  list_workloads = λ ref ns comp app. ok (
      if str_eq ref.kind "Deployment"
      then named "apps/v1" "Deployment" "web-v2" ∷ named "apps/v1" "Deployment" "web-v1" ∷ []
      else []);
}

abbrev workloads : List WorkloadReference
workloads = named "apps/v1" "Deployment" "web-v2" ∷ named "apps/v1" "DaemonSet" "agent" ∷ []

abbrev web_condition : WorkloadHealthCondition
web_condition = record {
  component_name = "";
  target_workload = record {
    api_version = "apps/v1";
    kind = "Deployment";
    name = "web-v2";
    uid = "u";
  };
  health_status = unhealthy;
  diagnosis = "web-v2:Ready:3/3  web-v1:Ready:1/3 ";
  workload_status = "";
}

abbrev agent_condition : WorkloadHealthCondition
agent_condition = record {
  component_name = "";
  target_workload = record {
    api_version = "apps/v1";
    kind = "DaemonSet";
    name = "agent";
    uid = "d";
  };
  health_status = healthy;
  diagnosis = "Ready:2/2 ";
  workload_status = "";
}

checked : check_all reader "ns" workloads ≡ some (web_condition ∷ agent_condition ∷ [])
unfolding check_all first_of check check_pod_spec_workload_health
    check_containerized_workload_health get get_app_config_name_from_label others
    check_statefulset_health check_daemonset_health atoi decimal join_diagnoses
checked = refl

in_order : Received (web_condition ∷ agent_condition ∷ []) (agent_condition ∷ web_condition ∷ [])
in_order =
    sent web_condition (sent agent_condition closed (here [])) (later agent_condition (here []))

scope_health-received_example :
    (let s = (get_scope_health_status workloads (agent_condition ∷ web_condition ∷ [])).0 in
      (s.total ≡ 2)
      × (s.healthy_workloads + s.unhealthy_workloads + s.unknown_workloads ≡ s.total)
      × ((s.health_status ≡ healthy) ↔ All IsHealthy (web_condition ∷ agent_condition ∷ []))
      × (s ≡ (get_scope_health_status workloads (web_condition ∷ agent_condition ∷ [])).0))
scope_health-received_example = scope_health-received reader "ns" workloads checked in_order

merge_peers-status_example :
    (merge_peer_workloads_conditions (web_condition ∷ []) agent_condition).health_status
    ≡ (if any_unhealthy (agent_condition ∷ web_condition ∷ []) then unhealthy else healthy)
merge_peers-status_example = merge_peers-status (web_condition ∷ []) agent_condition

-- A Deployment of the old API group among the children.
abbrev children : List WorkloadReference
children = named "extensions/v1beta1" "Deployment" "web" ∷ named "v1" "Service" "web" ∷ []

update_child_resources-panics_example :
    (update_child_resources_condition reader "ns" agent_condition (named "v1" "X" "x") children
      ≡ panics)
    ↔ ((length children ≡ 2) × (any_foreign children ≡ true))
update_child_resources-panics_example =
    update_child_resources-panics reader "ns" agent_condition (named "v1" "X" "x") children
