-- ===== src/AppRollout/Owners.antt =====
-- helper.go: the owners of a workload, and its name, while a rollout works on it.
use rudr_x.Base.{String, false, if◌then◌else◌, map, some, str_eq, true, ◌&&◌, ◌||◌}
use rudr_x.Cluster.Calls.{Result, ok}
use rudr_x.Cluster.References.{Manifest, OwnerReference, get, or_empty}

abbrev not_controlling : OwnerReference → OwnerReference
not_controlling o = record o { controller = some false }

-- An owner that no longer controls the workload.
unfoldable pub disabled : OwnerReference → OwnerReference
disabled o = elim o.controller [ some true ↦ not_controlling o | _ ↦ o ]

unfoldable pub disable_controller_owner : Manifest → Manifest
unfolding disabled
disable_controller_owner workload = record workload {
  owner_references = map disabled workload.owner_references;
}

-- A resource tracker that controls the workload again.
unfoldable pub enabled : OwnerReference → OwnerReference
enabled o = elim o.controller [
  | some false ↦ if str_eq o.kind "ResourceTracker" then record o { controller = some true } else o
  | _ ↦ o
]

unfoldable pub enable_controller_owner : Manifest → Manifest
unfolding enabled
enable_controller_owner workload = record workload {
  owner_references = map enabled workload.owner_references;
}

-- Workloads that cannot be upgraded in place are named by the revision of their component.
unfoldable pub rollout_workload_name : (String → String) → Manifest → Result Manifest
rollout_workload_name group_of w =
    if str_eq (group_of w.api_version) "apps.kruise.io"
      && (str_eq w.kind "CloneSet" || str_eq w.kind "StatefulSet")
    then ok w
    else ok (record w { name = or_empty (get "app.oam.dev/revision" w.labels) })
