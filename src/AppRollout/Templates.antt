-- ===== src/AppRollout/Templates.antt =====
-- rollout_handler.go, the calls of a round on its component: its manifests are dispatched before the
-- rollout, its workloads are fetched for each round, and the target is handed back after a success.
use rudr_x.Base.{Option, String, [], if◌then◌else◌, none, some, str_eq}
use rudr_x.Base.Text.{◌+++◌}
use rudr_x.AppRollout.Changes.{RoundRevisions}
use rudr_x.AppRollout.Handler.{Prepared, find_source, find_workload, take_over}
use rudr_x.AppRollout.Owners.{enable_controller_owner}
use rudr_x.AppRollout.Types.{AppRollout, RolloutApi, Round, called, dereferenced, ◌>>=◌, ◌>>◌}
use rudr_x.Apply.{Library}
use rudr_x.Cluster.Calls.{Call, fails, is_not_found, on_error, pure, wrapped}
use rudr_x.Cluster.References.{Manifest}
use rudr_x.Dispatch.{dispatch, end_and_gc, new_app_manifests_dispatcher, start_and_skip_gc}
use rudr_x.Dispatch.Names.{construct_resource_tracker_name}
use rudr_x.Dispatch.Trackers.{ResourceTracker}

module _ {W Patch : Type 0} (lib : Library Patch) (api : RolloutApi W Patch) where
  -- `extractWorkload` of the workload of a component, which must be there.
  unfoldable pub extract_workload : Option Manifest → Round W Manifest
  extract_workload assembled = dereferenced assembled (λ m. called (
      on_error (api.get_workload m) pure
        (λ e. fails (wrapped ("failed to get obj " +++ m.name) e))))

  unfoldable pub template_source_manifest : String → Prepared → Round W (Unit {0})
  unfolding find_source extract_workload take_over
  template_source_manifest c p = elim p.source_app_revision [
    | none ↦ called (pure tt)
    | some rev ↦ do
      called (dispatch lib api.dispatching (new_app_manifests_dispatcher rev) p.source_manifests)
      workload ← extract_workload (find_source c p.source_workloads)
      called (take_over lib api workload)
  ]

  -- The tracker of the source, which may control what the target has in common with it.
  unfoldable pub source_tracker : AppRollout → Prepared → Call W (Option ResourceTracker)
  source_tracker a p = elim p.source_app_revision [
    | none ↦ pure none
    | some rev ↦
        on_error
          (api.dispatching.get_tracker
            (construct_resource_tracker_name a.source_app_revision_name a.namespace))
          (λ tracker. pure (some tracker)) fails
  ]

  unfoldable pub template_target_manifest : AppRollout → String → Prepared → Round W (Unit {0})
  unfolding find_workload extract_workload take_over source_tracker
  template_target_manifest a c p = do
    tracker ← called (source_tracker a p)
    called (
        dispatch lib api.dispatching
          (start_and_skip_gc tracker (new_app_manifests_dispatcher p.target_app_revision))
          p.target_manifests)
    workload ← extract_workload (find_workload c p.target_workloads)
    called (take_over lib api workload)

  -- The workloads of the round, the source where there is one.
  unfoldable pub fetch_source_and_target_workload :
      RoundRevisions → String → Prepared → Round W (Option Manifest × Manifest)
  unfolding find_source find_workload extract_workload
  fetch_source_and_target_workload revs c p =
      let target = extract_workload (find_workload c p.target_workloads) in
      if str_eq revs.source_rev_name ""
      then (target >>= λ t. called (pure (none, t)))
      else (extract_workload (find_source c p.source_workloads) >>= λ s.
          target >>= λ t. called (pure (some s, t)))

  -- The collection of what the source had and the target has not, once.
  unfoldable pub collect_source : Prepared → Call W (Unit {0})
  collect_source p = elim p.source_app_revision [
    | none ↦ pure tt
    | some rev ↦
        on_error
          (api.dispatching.get_tracker (construct_resource_tracker_name rev.name rev.namespace))
          (λ old_rt.
            on_error
              (dispatch lib api.dispatching
                (end_and_gc (some old_rt) (new_app_manifests_dispatcher p.target_app_revision)) [])
              (λ rt. pure tt) fails)
          (λ e. if is_not_found e then pure tt else fails e)
  ]

  unfoldable pub finalize_rolling_succeeded : String → Prepared → Round W (Unit {0})
  unfolding find_workload extract_workload enable_controller_owner collect_source
  finalize_rolling_succeeded c p = do
    workload ← extract_workload (find_workload c p.target_workloads)
    called (api.patch_workload workload (enable_controller_owner workload))
    called (collect_source p)
