-- ===== src/Dispatch.antt =====
-- pkg/controller/core.oam.dev/v1alpha2/application/dispatch: the manifests of an application revision
-- are applied and recorded in a resource tracker (dispatch.go), what an older tracker holds beyond it
-- is collected (gc.go, in Collector), and the names of the trackers (name.go). Log lines and the deep
-- copies are left out; the field `currentRT`, which `createOrGetResourceTracker` sets, is an argument
-- of the steps after it.
pub mod Trackers
pub mod Collector
pub mod Collected
pub mod Tracking
pub mod Applied
pub mod Recorded
pub mod Dispatched
mod Server
mod Witnesses
pub mod Names
pub mod Samples
use rudr_x.Base.{
  Bool, List, Option, String, [], false, if◌then◌else◌, map, none, some, str_eq, true, ◌++◌, ◌||◌,
  ◌∷◌,
}
use rudr_x.Base.Text.{◌+++◌}
use rudr_x.Apply.{Library, apply, create, must_be_controllable_by_any, recorded}
use rudr_x.Cluster.Calls.{
  Call, fails, failure, is_not_found, on_error, pure, retry_on_conflict, wrapped, wrapping, ◌>>=◌,
  ◌>>◌,
}
use rudr_x.Cluster.References.{
  Manifest, OwnerReference, TypedReference, get, reference, same_reference,
}
use rudr_x.Dispatch.Collector.{garbage_collect}
use rudr_x.Dispatch.Names.{construct_resource_tracker_name, extract_app_name}
use rudr_x.Dispatch.Trackers.{DispatchApi, ResourceTracker}
use rudr_x.Health.Peers.{others}

-- The fields of an `ApplicationRevision` that the code reads.
pub record ApplicationRevision : Type 0 where
  pub name : String
  pub namespace : String

-- The fields that stay as `NewAppManifestsDispatcher` and the two methods below set them, and those
-- that `validateAndComplete` sets.
pub record AppManifestsDispatcher : Type 0 where
  pub app_rev : ApplicationRevision
  pub previous_rt : Option ResourceTracker
  pub skip_gc : Bool
  pub namespace : String
  pub current_rt_name : String

unfoldable pub new_app_manifests_dispatcher : ApplicationRevision → AppManifestsDispatcher
new_app_manifests_dispatcher rev = record {
  app_rev = rev;
  previous_rt = none;
  skip_gc = false;
  namespace = "";
  current_rt_name = "";
}

unfoldable pub end_and_gc : Option ResourceTracker → AppManifestsDispatcher → AppManifestsDispatcher
end_and_gc none a = a
end_and_gc (some rt) a = record a { previous_rt = some rt; skip_gc = false }

unfoldable pub start_and_skip_gc :
    Option ResourceTracker → AppManifestsDispatcher → AppManifestsDispatcher
start_and_skip_gc none a = a
start_and_skip_gc (some rt) a = record a { previous_rt = some rt; skip_gc = true }

-- The previous tracker, where it is another one than the current.
unfoldable pub other_tracker : AppManifestsDispatcher → Option ResourceTracker
other_tracker a = elim a.previous_rt [
  | none ↦ none
  | some rt ↦ if str_eq rt.name a.current_rt_name then none else some rt
]

-- The tracker as the owner that controls an object.
unfoldable pub controller_owner : ResourceTracker → OwnerReference
controller_owner rt = record {
  api_version = "core.oam.dev/v1beta1";
  kind = "ResourceTracker";
  name = rt.name;
  uid = rt.uid;
  controller = some true;
  block_owner_deletion = some true;
}

-- An owner as it is kept: one that controls the object under another UID no longer does.
unfoldable pub demoted : String → OwnerReference → OwnerReference
demoted uid o = elim o.controller [
  | some true ↦ if str_eq o.uid uid then o else record o { controller = some false }
  | _ ↦ o
]

unfoldable pub set_or_override_controller_owner : Manifest → OwnerReference → Manifest
unfolding demoted
set_or_override_controller_owner obj owner = record obj {
  owner_references = owner ∷ map (demoted owner.uid) obj.owner_references;
}

unfoldable pub already_tracked : TypedReference → List TypedReference → Bool
already_tracked applied [] = false
already_tracked applied (tracked ∷ rest) =
    same_reference tracked applied || already_tracked applied rest

unfoldable pub with_reference : TypedReference → List TypedReference → List TypedReference
unfolding already_tracked
with_reference applied tracked =
    if already_tracked applied tracked then tracked else tracked ++ (applied ∷ [])

-- The references that are already tracked, and those of the applied manifests that are not.
unfoldable pub merge_tracked : List TypedReference → List Manifest → List TypedReference
unfolding with_reference reference
merge_tracked tracked [] = tracked
merge_tracked tracked (rsc ∷ rest) = merge_tracked (with_reference (reference rsc) tracked) rest

module _ {W Patch : Type 0} (lib : Library Patch) (api : DispatchApi W Patch) where
  unfoldable pub validate_and_complete : AppManifestsDispatcher → Call W AppManifestsDispatcher
  unfolding construct_resource_tracker_name other_tracker
  validate_and_complete a =
      if str_eq a.app_rev.name "" || str_eq a.app_rev.namespace ""
      then fails (failure "given application revision has no name or namespace")
      else let completed = record a {
        namespace = a.app_rev.namespace;
        current_rt_name = construct_resource_tracker_name a.app_rev.name a.app_rev.namespace;
      } in
        elim (other_tracker completed) [
          | none ↦ pure completed
          | some rt ↦
              on_error (api.get_tracker rt.name)
                (λ got. pure (record completed { previous_rt = some got }))
                (λ e.
                  fails (
                    failure
                      ("given resource tracker " +++ lib.quoted rt.name +++ " doesn't exist")))
        ]

  -- The tracker of the revision, which is made where it is missing.
  unfoldable pub create_or_get_resource_tracker : AppManifestsDispatcher → Call W ResourceTracker
  unfolding extract_app_name
  create_or_get_resource_tracker a = on_error (api.get_tracker a.current_rt_name) pure (λ e.
      if is_not_found e
      then wrapping "cannot create resource tracker" (
          api.create_tracker (record {
            name = a.current_rt_name;
            uid = "";
            labels =
                ("app.oam.dev/name", extract_app_name a.current_rt_name a.namespace)
                ∷ ("app.oam.dev/namesapce", a.namespace)
                ∷ [];
            tracked_resources = [];
          }))
      else fails (wrapped "cannot get resource tracker" e))

  -- The UIDs of the trackers that may control an object that is applied.
  unfoldable pub controller_uids : AppManifestsDispatcher → ResourceTracker → List String
  unfolding other_tracker
  controller_uids a current_rt = elim (other_tracker a) [
    | none ↦ current_rt.uid ∷ []
    | some previous ↦ current_rt.uid ∷ previous.uid ∷ []
  ]

  unfoldable pub apply_manifest : List String → ResourceTracker → Manifest → Call W Manifest
  unfolding set_or_override_controller_owner controller_owner must_be_controllable_by_any
  apply_manifest uids current_rt rsc =
      wrapping
        ("cannot apply manifest, name: "
          +++ lib.quoted rsc.name
          +++ " apiVersion: "
          +++ lib.quoted rsc.api_version
          +++ " kind: "
          +++ lib.quoted rsc.kind)
        (apply lib api.objects (must_be_controllable_by_any lib uids ∷ [])
          (set_or_override_controller_owner rsc (controller_owner current_rt)))

  -- The loop over the manifests, which become what the API server answers.
  unfoldable pub apply_manifests :
      List String → ResourceTracker → List Manifest → Call W (List Manifest)
  unfolding apply_manifest
  apply_manifests uids current_rt [] = pure []
  apply_manifests uids current_rt (rsc ∷ rest) =
      let others = apply_manifests uids current_rt rest in
      do
        applied ← apply_manifest uids current_rt rsc
        applied_rest ← others
        pure (applied ∷ applied_rest)

  unfoldable pub update_resource_tracker_status :
      String → ResourceTracker → List Manifest → Call W ResourceTracker
  unfolding merge_tracked
  update_resource_tracker_status current_rt_name current_rt applied =
      let merged = merge_tracked current_rt.tracked_resources applied in
      do
        wrapping "cannot update resource tracker status" (
            retry_on_conflict api.retries (do
              copy_rt ← api.get_tracker current_rt_name
              api.update_tracker_status (record copy_rt { tracked_resources = merged })))
        pure (record current_rt { tracked_resources = merged })

  unfoldable pub apply_and_record_manifests :
      AppManifestsDispatcher → ResourceTracker → List Manifest → Call W ResourceTracker
  unfolding apply_manifests controller_uids update_resource_tracker_status
  apply_and_record_manifests a current_rt manifests = do
    applied ← apply_manifests (controller_uids a current_rt) current_rt manifests
    update_resource_tracker_status a.current_rt_name current_rt applied

  unfoldable pub collect_tracker :
      AppManifestsDispatcher → ResourceTracker → Option ResourceTracker → Call W (Unit {0})
  collect_tracker a current_rt none = pure tt
  collect_tracker a current_rt (some previous) =
      wrapping
        ("cannot do GC based on resource trackers "
          +++ lib.quoted previous.name
          +++ " and "
          +++ lib.quoted a.current_rt_name)
        (garbage_collect lib api a.app_rev.namespace previous current_rt)

  -- The collection, unless it is skipped or there is no other tracker.
  unfoldable pub collect_previous : AppManifestsDispatcher → ResourceTracker → Call W (Unit {0})
  unfolding other_tracker collect_tracker
  collect_previous a current_rt =
      if a.skip_gc then pure tt else collect_tracker a current_rt (other_tracker a)

  unfoldable pub dispatch : AppManifestsDispatcher → List Manifest → Call W ResourceTracker
  unfolding validate_and_complete create_or_get_resource_tracker apply_and_record_manifests
      collect_previous
  dispatch a manifests = do
    completed ← validate_and_complete a
    current_rt ← create_or_get_resource_tracker completed
    recorded ← apply_and_record_manifests completed current_rt manifests
    collect_previous completed recorded
    pure recorded
