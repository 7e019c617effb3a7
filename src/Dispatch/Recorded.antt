-- ===== src/Dispatch/Recorded.antt =====
-- The applied manifests in the tracker of the revision.
use rudr_x.Base.{All, List, String, [], refl, ◌∷◌, ◌≡◌}
use rudr_x.Apply.{Library}
use rudr_x.Cluster.Calls.{retry_on_conflict, wrapping, ◌>>=◌}
use rudr_x.Cluster.Posts.{
  Gives, Keeps, Post, Post-both, Post-mono, Whatever, anything, bind-Keeps, bind-Post, retry-Keeps,
  wrapping-Keeps,
}
use rudr_x.Cluster.References.{Manifest, TypedReference, reference}
use rudr_x.Dispatch.{
  AppManifestsDispatcher, apply_and_record_manifests, apply_manifests, controller_uids,
  merge_tracked, update_resource_tracker_status,
}
use rudr_x.Dispatch.Applied.{
  Here, Here-Keeps, IsNamed, KeepsCluster, SameReferences, apply_manifests-Here,
}
use rudr_x.Dispatch.Collected.{Tracked}
use rudr_x.Dispatch.Trackers.{DispatchApi, ResourceTracker}
use rudr_x.Dispatch.Tracking.{merge_tracked-new}

module _ {W Patch : Type 0} (lib : Library Patch) (api : DispatchApi W Patch)
    (Present : TypedReference → W → Type 0) (Same : TypedReference → TypedReference → Type 0)
    (law : KeepsCluster api Present Same) where
  update_status-Keeps :
      (name : String) (rt : ResourceTracker) (answers : List Manifest) (r : TypedReference)
      → Keeps (Present r) (update_resource_tracker_status lib api name rt answers)
  unfolding update_resource_tracker_status
  update_status-Keeps name rt answers r =
      let status = λ (got : ResourceTracker).
        api.update_tracker_status
          (record got { tracked_resources = merge_tracked rt.tracked_resources answers }) in
      bind-Keeps (Present r)
        (wrapping _ (retry_on_conflict api.retries (api.get_tracker name >>= status))) _
        (wrapping-Keeps (Present r) _
          (retry_on_conflict api.retries (api.get_tracker name >>= status))
          (retry-Keeps (Present r) api.retries (api.get_tracker name >>= status) (
            bind-Keeps (Present r) (api.get_tracker name) status (law.get_tracker_keeps r name)
              (λ got. law.update_tracker_status_keeps r _))))
        (λ got w h. h)

  update_status-tracks :
      (name : String) (rt : ResourceTracker) (answers : List Manifest)
      → Gives
          (λ rt' w. rt'.tracked_resources ≡ merge_tracked rt.tracked_resources answers)
          (update_resource_tracker_status lib api name rt answers)
  unfolding update_resource_tracker_status
  update_status-tracks name rt answers w =
      bind-Post (λ got w'. Unit)
        (λ rt' w'. rt'.tracked_resources ≡ merge_tracked rt.tracked_resources answers) _ (λ e. e)
        (wrapping "cannot update resource tracker status"
          (retry_on_conflict api.retries (do
            copy_rt ← api.get_tracker name
            api.update_tracker_status (record copy_rt {
              tracked_resources = merge_tracked rt.tracked_resources answers;
            })))
          w)
        (λ got w' q. refl) (anything _)

  -- The manifests are tracked under the references of their answers.
  Tracked-answers :
      (tracked : List TypedReference) (answers ms : List Manifest)
      → SameReferences answers ms
      → All (λ a. Tracked (reference a) tracked) answers
      → All (λ m. Tracked (reference m) tracked) ms
  Tracked-answers tracked [] [] same h = tt
  Tracked-answers tracked [] (m ∷ ms) same h = absurd same
  Tracked-answers tracked (a ∷ answers) [] same h = absurd same
  Tracked-answers tracked (a ∷ answers) (m ∷ ms) same h =
      (rw (← same.0) h.0, Tracked-answers tracked answers ms same.1 h.1)

  -- The manifests are there and tracked.
  abbrev pub IsApplied : ResourceTracker → Manifest → W → Type 0
  IsApplied rt m w = Present (reference m) w × Tracked (reference m) rt.tracked_resources

  All-both :
      (rt : ResourceTracker) (ms : List Manifest) (w : W)
      → Here Present ms w
      → All (λ m. Tracked (reference m) rt.tracked_resources) ms
      → All (λ m. IsApplied rt m w) ms
  All-both rt [] w here tracked = tt
  All-both rt (m ∷ ms) w here tracked = ((here.0, tracked.0), All-both rt ms w here.1 tracked.1)

  update-Applied :
      (name : String) (rt : ResourceTracker) (answers ms : List Manifest)
      → SameReferences answers ms
      → (w : W) → Here Present ms w
      → Post
          (λ rt' w'. All (λ m. IsApplied rt' m w') ms)
          Whatever
          (update_resource_tracker_status lib api name rt answers w)
  update-Applied name rt answers ms same w here =
      Post-mono
        (λ rt' w'.
          (rt'.tracked_resources ≡ merge_tracked rt.tracked_resources answers) × Here Present ms w')
        (λ rt' w'. All (λ m. IsApplied rt' m w') ms)
        (update_resource_tracker_status lib api name rt answers w)
        (λ rt' w' k. All-both rt' ms w' k.1 (
          Tracked-answers rt'.tracked_resources answers ms same
            (rw k.0 (merge_tracked-new rt.tracked_resources answers))))
        (Post-both (Here Present ms)
          (λ rt' w'. rt'.tracked_resources ≡ merge_tracked rt.tracked_resources answers)
          (update_resource_tracker_status lib api name rt answers w)
          (Here-Keeps lib api Present Same law
            (update_resource_tracker_status lib api name rt answers) ms
            (update_status-Keeps name rt answers) w here)
          (update_status-tracks name rt answers w))

  pub record-Applied :
      (a : AppManifestsDispatcher) (rt : ResourceTracker) (ms : List Manifest)
      → All IsNamed ms
      → Gives
          (λ rt' w. All (λ m. IsApplied rt' m w) ms)
          (apply_and_record_manifests lib api a rt ms)
  unfolding apply_and_record_manifests
  record-Applied a rt ms named w =
      bind-Post (λ answers w'. SameReferences answers ms × Here Present ms w')
        (λ rt' w'. All (λ m. IsApplied rt' m w') ms) _ (λ e. e)
        (apply_manifests lib api (controller_uids lib api a rt) rt ms w)
        (λ answers w' q. update-Applied a.current_rt_name rt answers ms q.0 w' q.1)
        (apply_manifests-Here lib api Present Same law (controller_uids lib api a rt) rt ms named w)
