-- ===== src/Dispatch/Collector.antt =====
-- gc.go: the resources of an old tracker that the new one does not track are deleted, and then the old
-- tracker itself.
use rudr_x.Base.{Bool, List, String, [], false, if◌then◌else◌, str_eq, ◌&&◌, ◌||◌, ◌∷◌}
use rudr_x.Base.Text.{◌+++◌}
use rudr_x.Apply.{Library}
use rudr_x.Cluster.Calls.{Call, fails, failure, on_error, pure, unless_gone, wrapped, ◌>>◌}
use rudr_x.Cluster.Names.{has_suffix}
use rudr_x.Cluster.References.{TypedReference, same_reference}
use rudr_x.Dispatch.Names.{extract_app_name}
use rudr_x.Dispatch.Trackers.{DispatchApi, ResourceTracker}

-- Whether an old resource is still in the new tracker.
unfoldable pub still_tracked : TypedReference → List TypedReference → Bool
still_tracked old [] = false
still_tracked old (new ∷ rest) = same_reference old new || still_tracked old rest

module _ {W Patch : Type 0} (lib : Library Patch) (api : DispatchApi W Patch) where
  unfoldable pub delete_resource : TypedReference → Call W (Unit {0})
  delete_resource old =
      on_error (api.delete_object old) pure
        (λ e. unless_gone e (wrapped ("cannot delete resource " +++ lib.quoted_reference old) e))

  unfoldable pub delete_removed : List TypedReference → List TypedReference → Call W (Unit {0})
  unfolding still_tracked delete_resource
  delete_removed [] new = pure tt
  delete_removed (old ∷ rest) new =
      let others = delete_removed rest new in
      (if still_tracked old new then pure tt else delete_resource old) >> others

  -- Two trackers of one application.
  unfoldable pub validate : String → ResourceTracker → ResourceTracker → Bool
  validate namespace old_rt new_rt =
      has_suffix old_rt.name namespace
      && has_suffix new_rt.name namespace
      && str_eq (extract_app_name old_rt.name namespace) (extract_app_name new_rt.name namespace)

  unfoldable pub garbage_collect : String → ResourceTracker → ResourceTracker → Call W (Unit {0})
  unfolding validate delete_removed
  garbage_collect namespace old_rt new_rt =
      if validate namespace old_rt new_rt
      then delete_removed old_rt.tracked_resources new_rt.tracked_resources
        >> on_error (api.delete_tracker old_rt) pure (λ e.
          unless_gone e (wrapped ("cannot delete resource tracker " +++ lib.quoted old_rt.name) e))
      else fails (failure "two resource trackers must come from the same application")
