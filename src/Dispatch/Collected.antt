-- ===== src/Dispatch/Collected.antt =====
-- What a collection does to the cluster: the resources of the new tracker, and those that only the
-- old one tracks.
use rudr_x.Base.{
  Bool, Bool-cases, List, String, [], ap, arith, false, if◌then◌else◌, inl, inr, refl, true, ◌∷◌,
  ◌≡◌, ◌⊎◌,
}
use rudr_x.Apply.{Library}
use rudr_x.Cluster.Calls.{
  Error, conflict, fails, failure, is_not_found, not_found, ok, pure, unless_gone,
}
use rudr_x.Cluster.Posts.{
  Gives, Keeps, Post, Post-success, Whatever, anything, bind-Keeps, bind-Post, if-Gives, if-Keeps,
  kept, on_error-Keeps, settled-Post,
}
use rudr_x.Cluster.References.{TypedReference, same_reference, same_reference_iff}
use rudr_x.Dispatch.Collector.{
  delete_removed, delete_resource, garbage_collect, still_tracked, validate,
}
use rudr_x.Dispatch.Trackers.{DispatchApi, ResourceTracker}

-- What the code relies on: a deletion takes away no other object. Kubernetes serves one object under
-- several API versions, so that different references may name the same object: `Same` says when. The
-- dependents that the cluster's own garbage collector removes later are no part of the call.
pub record Spares {W Patch : Type 0} (api : DispatchApi W Patch)
    (Present : TypedReference → W → Type 0) (Same : TypedReference → TypedReference → Type 0)
    : Type 0 where
  pub delete_object_keeps :
      (r d : TypedReference) → ¬ (Same r d) → Keeps (Present r) (api.delete_object d)
  pub delete_tracker_keeps :
      (r : TypedReference) (rt : ResourceTracker) → Keeps (Present r) (api.delete_tracker rt)

-- An object that is gone, or has a deletion timestamp, as `Marked` says, while its finalizers hold it.
abbrev pub Leaving :
    {W : Type 0}
    → (TypedReference → W → Type 0)
    → (TypedReference → W → Type 0)
    → TypedReference
    → W
    → Type 0
Leaving Present Marked r w = ¬ (Present r w) ⊎ Marked r w

-- What the code relies on: after a deletion that succeeds or finds nothing, the object is gone or
-- marked, and no deletion makes it anything else again.
pub record Deletes {W Patch : Type 0} (api : DispatchApi W Patch)
    (Present Marked : TypedReference → W → Type 0) : Type 0 where
  pub delete_object_leaves :
      (r d : TypedReference) → Keeps (Leaving Present Marked r) (api.delete_object d)
  pub delete_tracker_leaves :
      (r : TypedReference) (rt : ResourceTracker)
      → Keeps (Leaving Present Marked r) (api.delete_tracker rt)
  pub deleted :
      (d : TypedReference) (w : W)
      → Post
          (λ a w'. Leaving Present Marked d w')
          (λ e w'. is_not_found e ≡ true → Leaving Present Marked d w')
          (api.delete_object d w)

-- A reference of a tracker.
abbrev pub Tracked : TypedReference → List TypedReference → Type 0
Tracked r tracked = still_tracked r tracked ≡ true

-- A tracker that refers to the object of `r`, if it does at all, by `r` itself, and not under another
-- API version.
abbrev pub RefersAlike :
    (TypedReference → TypedReference → Type 0) → TypedReference → List TypedReference → Type 0
RefersAlike Same r tracked =
    (d : TypedReference) → still_tracked d tracked ≡ true → Same r d → d ≡ r

-- An object of the new tracker is named by no reference that is removed.
Tracked-not_removed :
    (Same : TypedReference → TypedReference → Type 0) {r d : TypedReference}
    (old new : List TypedReference)
    → RefersAlike Same r old
    → Tracked r new
    → still_tracked d old ≡ true
    → still_tracked d new ≡ false
    → ¬ (Same r d)
Tracked-not_removed Same {d = d} old new alike tracked listed removed same =
    cc (ap (λ x. still_tracked x new) (alike d listed same))

listed-head : (d : TypedReference) (rest : List TypedReference) → still_tracked d (d ∷ rest) ≡ true
unfolding still_tracked
listed-head d rest = rw ((same_reference_iff d d).1 refl) refl

listed-tail :
    (d x : TypedReference) (rest : List TypedReference)
    → still_tracked d rest ≡ true
    → still_tracked d (x ∷ rest) ≡ true
unfolding still_tracked
listed-tail d x rest h = ground arith

module _ {W Patch : Type 0} (lib : Library Patch) (api : DispatchApi W Patch) where
  delete_resource-Keeps :
      (P : W → Type 0) (d : TypedReference)
      → Keeps P (api.delete_object d)
      → Keeps P (delete_resource lib api d)
  unfolding delete_resource
  delete_resource-Keeps P d keep =
      on_error-Keeps P (api.delete_object d) pure _ keep (λ a w h. h)
        (λ e. if-Keeps P (is_not_found e) (pure tt) (fails _) (λ w h. h) (λ w h. h))

  delete_one-Keeps :
      (P : W → Type 0) (still : Bool) (d : TypedReference)
      → (still ≡ false → Keeps P (api.delete_object d))
      → Keeps P (if still then pure tt else delete_resource lib api d)
  delete_one-Keeps P true d keep = λ w h. h
  delete_one-Keeps P false d keep = delete_resource-Keeps P d (keep refl)

  -- A property of the world that no deletion of an object of `old` outside `new` touches.
  delete_removed-Keeps :
      (P : W → Type 0) (new old : List TypedReference)
      → ((d : TypedReference)
          → still_tracked d old ≡ true
          → still_tracked d new ≡ false
          → Keeps P (api.delete_object d))
      → Keeps P (delete_removed lib api old new)
  unfolding delete_removed
  delete_removed-Keeps P new [] keep = λ w h. h
  delete_removed-Keeps P new (d ∷ old) keep =
      bind-Keeps P (if still_tracked d new then pure tt else delete_resource lib api d) _
        (delete_one-Keeps P (still_tracked d new) d (keep d (listed-head d old)))
        (λ u. delete_removed-Keeps P new old (λ x listed. keep x (listed-tail x d old listed)))

  collect-Keeps :
      (P : W → Type 0) (ns : String) (old new : ResourceTracker)
      → Keeps P (delete_removed lib api old.tracked_resources new.tracked_resources)
      → Keeps P (api.delete_tracker old)
      → Keeps P (garbage_collect lib api ns old new)
  unfolding garbage_collect
  collect-Keeps P ns old new removed tracker =
      if-Keeps P (validate lib api ns old new) _ (fails _)
        (bind-Keeps P (delete_removed lib api old.tracked_resources new.tracked_resources) _ removed
          λ u.
            on_error-Keeps P (api.delete_tracker old) pure _ tracker (λ a w h. h)
              (λ e. if-Keeps P (is_not_found e) (pure tt) (fails _) (λ w h. h) (λ w h. h)))
        (λ w h. h)

module _ {W Patch : Type 0} (lib : Library Patch) (api : DispatchApi W Patch)
    (Present : TypedReference → W → Type 0) (Same : TypedReference → TypedReference → Type 0)
    (law : Spares api Present Same) where
  -- A collection takes away no object that the new tracker tracks, whether it succeeds or not, if the
  -- old tracker does not refer to that object under another API version.
  pub garbage_collect-keeps :
      (ns : String) (old new : ResourceTracker) (r : TypedReference) (w : W)
      → RefersAlike Same r old.tracked_resources
      → Tracked r new.tracked_resources
      → Present r w
      → Present r (garbage_collect lib api ns old new w).1
  garbage_collect-keeps ns old new r w alike tracked =
      collect-Keeps lib api (Present r) ns old new
        (delete_removed-Keeps lib api (Present r) new.tracked_resources old.tracked_resources
          (λ d listed removed. law.delete_object_keeps r d (
            Tracked-not_removed Same old.tracked_resources new.tracked_resources alike tracked
              listed removed)))
        (law.delete_tracker_keeps r old) w

module _ {W Patch : Type 0} (lib : Library Patch) (api : DispatchApi W Patch)
    (Present Marked : TypedReference → W → Type 0) (law : Deletes api Present Marked) where
  abbrev Left : TypedReference → W → Type 0
  Left d w = Leaving Present Marked d w

  unless_gone-clears :
      (d : TypedReference) (e' : Error → Error) (e : Error) (w : W)
      → (is_not_found e ≡ true → Left d w)
      → Post (λ u w'. Left d w') Whatever (unless_gone e (e' e) w)
  unless_gone-clears d e' (not_found m) w gone = gone refl
  unless_gone-clears d e' (conflict m) w gone = tt
  unless_gone-clears d e' (failure m) w gone = tt

  delete_one-clears :
      (still : Bool) (d : TypedReference)
      → still ≡ false
      → Gives (λ u w. Left d w) (if still then pure tt else delete_resource lib api d)
  unfolding delete_resource
  delete_one-clears true d removed = cc
  delete_one-clears false d removed = λ w.
      settled-Post _ _ Whatever (λ u w'. Left d w') pure _ (api.delete_object d w)
        (λ a w' gone. gone) (unless_gone-clears d _) (law.deleted d w)

  -- An object that is on the list of the old tracker only.
  delete_removed-clears :
      (old new : List TypedReference) (d : TypedReference)
      → Tracked d old
      → still_tracked d new ≡ false
      → Gives (λ u w. Left d w) (delete_removed lib api old new)
  unfolding delete_removed still_tracked
  delete_removed-clears [] new d tracked removed = cc
  delete_removed-clears (x ∷ old) new d tracked removed = elim (Bool-cases (same_reference d x)) [
    | inl same ↦ λ w.
        let e : d ≡ x = (same_reference_iff d x).0 same in
        bind-Post (λ u w'. Left d w') (λ u w'. Left d w') _ (λ e. e)
          ((if still_tracked x new then pure tt else delete_resource lib api x) w)
          (λ u w' gone.
            kept (λ w'. Left d w') (delete_removed lib api old new w')
              (delete_removed-Keeps lib api (λ w'. Left d w') new old
                (λ y listed removed. law.delete_object_leaves d y) w' gone))
          (rw e (delete_one-clears (still_tracked x new) x (rw (← e) removed) w))
    | inr other ↦ λ w.
        bind-Post (λ u w'. Unit) (λ u w'. Left d w') _ (λ e. e)
          ((if still_tracked x new then pure tt else delete_resource lib api x) w)
          (λ u w' q. delete_removed-clears old new d (ground (arith)) removed w')
          (anything ((if still_tracked x new then pure tt else delete_resource lib api x) w))
  ]

  -- After a collection that succeeds, an object that the old tracker tracks and the new one does not
  -- is gone from the cluster, or has a deletion timestamp: its finalizers hold it then.
  pub garbage_collect-clears :
      (ns : String) (old new : ResourceTracker) (d : TypedReference) (w : W) {w' : W}
      → Tracked d old.tracked_resources
      → still_tracked d new.tracked_resources ≡ false
      → garbage_collect lib api ns old new w ≡ (ok tt, w')
      → Leaving Present Marked d w'
  unfolding garbage_collect
  garbage_collect-clears ns old new d w tracked removed h =
      Post-success (λ u w'. Left d w') Whatever (garbage_collect lib api ns old new w)
        (if-Gives (λ u w'. Left d w') (validate lib api ns old new) _ (fails _)
          (λ w.
            bind-Post (λ u w'. Left d w') (λ u w'. Left d w') _ (λ e. e)
              (delete_removed lib api old.tracked_resources new.tracked_resources w)
              (λ u w' gone.
                kept (λ w'. Left d w') _
                  (on_error-Keeps (λ w'. Left d w') (api.delete_tracker old) pure _
                    (law.delete_tracker_leaves d old) (λ a w h. h)
                    (λ e.
                      if-Keeps (λ w'. Left d w') (is_not_found e) (pure tt) (fails _) (λ w h. h)
                        (λ w h. h))
                    w' gone))
              (delete_removed-clears old.tracked_resources new.tracked_resources d tracked removed
                w))
          (λ w. tt) w)
        h
