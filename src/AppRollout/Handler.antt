-- ===== src/AppRollout/Handler.antt =====
-- rollout_handler.go: the revisions of a round are assembled, the component to roll is chosen, and its
-- workloads are dispatched, fetched and handed back.
use rudr_x.Base.{List, Option, String, [], if◌then◌else◌, none, some, str_eq, ◌∷◌}
use rudr_x.AppRollout.Changes.{RoundRevisions}
use rudr_x.AppRollout.Owners.{disable_controller_owner, rollout_workload_name}
use rudr_x.AppRollout.Types.{Assembler, RolloutApi, Workloads}
use rudr_x.Apply.{Library}
use rudr_x.Cluster.Calls.{Call, Result, err, failure, ok, pure, returned, ◌>>=◌}
use rudr_x.Cluster.References.{Manifest}
use rudr_x.Dispatch.{ApplicationRevision}

-- The fields of `rolloutHandler` that `prepareRollout` sets; without a source its workloads are a nil
-- map.
pub record Prepared : Type 0 where
  pub source_app_revision : Option ApplicationRevision
  pub target_app_revision : ApplicationRevision
  pub source_workloads : Option Workloads
  pub target_workloads : Workloads
  pub source_manifests : List Manifest
  pub target_manifests : List Manifest

unfoldable pub find_workload : String → Workloads → Option Manifest
find_workload c [] = none
find_workload c ((name, m) ∷ ws) = if str_eq name c then some m else find_workload c ws

-- `h.sourceWorkloads[c]`, of a map that may be nil.
unfoldable pub find_source : String → Option Workloads → Option Manifest
find_source c none = none
find_source c (some ws) = find_workload c ws

unfoldable pub component_names : Workloads → List String
component_names [] = []
component_names ((name, m) ∷ ws) = name ∷ component_names ws

-- The names of a map that are in another one.
unfoldable pub names_in : Workloads → Workloads → List String
unfolding find_workload
names_in target [] = []
names_in target ((name, m) ∷ ws) =
    let rest = names_in target ws in
    elim (find_workload name target) [ none ↦ rest | some found ↦ name ∷ rest ]

unfoldable pub find_common_component_with_manifest : Workloads → Option Workloads → List String
unfolding component_names names_in
find_common_component_with_manifest target none = component_names target
find_common_component_with_manifest target (some source) = names_in target source

unfoldable pub only_one : List String → Result String
only_one (c ∷ []) = ok c
only_one _ = err (failure "cannot find a default component, too many common components")

unfoldable pub determine_rollout_component : List String → Prepared → Result String
unfolding find_common_component_with_manifest only_one
determine_rollout_component [] p =
    only_one (find_common_component_with_manifest p.target_workloads p.source_workloads)
determine_rollout_component (c ∷ cs) p = ok c

module _ {W Patch : Type 0} (api : RolloutApi W Patch) (asm : Assembler) where
  unfoldable pub prepare_source : RoundRevisions → String → Prepared → Call W Prepared
  unfolding rollout_workload_name
  prepare_source revs ns p = if str_eq revs.source_rev_name "" then pure p else do
    rev ← api.get_app_revision ns revs.source_rev_name
    let options = asm.prepare_workload_for_rollout ∷ rollout_workload_name api.group_of ∷ []
    workloads ← returned (asm.group_assembled_manifests options rev)
    manifests ← returned (asm.assembled_manifests options rev)
    pure (record p {
      source_app_revision = some rev;
      source_workloads = some workloads;
      source_manifests = manifests;
    })

  unfoldable pub prepare_rollout : RoundRevisions → String → Call W Prepared
  unfolding rollout_workload_name prepare_source
  prepare_rollout revs ns =
      let options = rollout_workload_name api.group_of ∷ asm.prepare_workload_for_rollout ∷ [] in
      do
        rev ← api.get_app_revision ns revs.target_rev_name
        manifests ← returned (asm.assembled_manifests options rev)
        workloads ← returned (asm.group_assembled_manifests options rev)
        prepare_source revs ns (record {
          source_app_revision = none;
          target_app_revision = rev;
          source_workloads = none;
          target_workloads = workloads;
          source_manifests = [];
          target_manifests = manifests;
        })

module _ {W Patch : Type 0} (lib : Library Patch) (api : RolloutApi W Patch) where
  -- The rollout takes a workload over from the resource tracker that controls it.
  unfoldable pub take_over : Manifest → Call W (Unit {0})
  unfolding disable_controller_owner
  take_over workload = elim (lib.get_controller_of workload.owner_references) [
    | none ↦ pure tt
    | some ref ↦
        if str_eq ref.kind "ResourceTracker"
        then api.patch_workload workload (disable_controller_owner workload)
        else pure tt
  ]
