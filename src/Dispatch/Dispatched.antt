-- ===== src/Dispatch/Dispatched.antt =====
-- A whole dispatch: every manifest is in the cluster at the end, also after the collection, and the
-- tracker that is returned has it.
use mathlib.Core.Path.{subst}
use mathlib.Core.Option.{some-injective}
use rudr_x.Base.{
  All, Bool-cases, List, Option, [], arith, if◌then◌else◌, inl, inr, none, refl, some, str_eq, sym,
  ◌||◌, ◌∙◌, ◌∷◌, ◌≡◌,
}
use rudr_x.Base.Text.{◌+++◌}
use rudr_x.Apply.{Library}
use rudr_x.Cluster.Calls.{Call, fails, failure, ok, on_error, pure}
use rudr_x.Cluster.Posts.{
  Keeps, Post, Post-success, Whatever, anything, bind-Post, if-Keeps, kept, wrapping-Keeps,
}
use rudr_x.Cluster.References.{Manifest, TypedReference, reference}
use rudr_x.Dispatch.{
  AppManifestsDispatcher, apply_and_record_manifests, collect_previous, collect_tracker,
  create_or_get_resource_tracker, dispatch, other_tracker, validate_and_complete,
}
use rudr_x.Dispatch.Applied.{IsNamed, KeepsCluster}
use rudr_x.Dispatch.Collected.{RefersAlike, Tracked, garbage_collect-keeps}
use rudr_x.Dispatch.Collector.{garbage_collect}
use rudr_x.Dispatch.Names.{construct_resource_tracker_name}
use rudr_x.Dispatch.Recorded.{IsApplied, record-Applied}
use rudr_x.Dispatch.Trackers.{DispatchApi, ResourceTracker}

module _ {W Patch : Type 0} (lib : Library Patch) (api : DispatchApi W Patch)
    (Present : TypedReference → W → Type 0) (Same : TypedReference → TypedReference → Type 0)
    (law : KeepsCluster api Present Same) where
  -- The trackers that refer to the objects of the manifests alike.
  abbrev Alike : List Manifest → ResourceTracker → Type 0
  Alike ms t = All (λ m. RefersAlike Same (reference m) t.tracked_resources) ms

  -- The tracker that the dispatch is to collect, as the cluster has it in `w`.
  abbrev pub PreviousAlike : AppManifestsDispatcher → List Manifest → W → Type 0
  PreviousAlike a ms w =
      (previous : ResourceTracker)
      → a.previous_rt ≡ some previous
      → Post (λ t w'. Alike ms t) Whatever (api.get_tracker previous.name w)

  -- The tracker that will be collected.
  abbrev CollectsAlike : AppManifestsDispatcher → List Manifest → Type 0
  CollectsAlike c ms = (old : ResourceTracker) → other_tracker c ≡ some old → Alike ms old

  other-previous :
      (a : AppManifestsDispatcher) (t : ResourceTracker)
      → other_tracker a ≡ some t
      → a.previous_rt ≡ some t
  unfolding other_tracker
  other-previous a t = other_case a.previous_rt
    where
      other_case :
          (p : Option ResourceTracker)
          → elim p [
            | none ↦ none
            | some u ↦ if str_eq u.name a.current_rt_name then none else some u
          ]
            ≡ some t
          → p ≡ some t
      other_case none h = cc
      other_case (some u) h = ground arith

  got-Alike :
      (c : AppManifestsDispatcher) (ms : List Manifest) (got : ResourceTracker)
      → c.previous_rt ≡ some got
      → Alike ms got
      → CollectsAlike c ms
  got-Alike c ms got e alike old h =
      subst (Alike ms) (some-injective _ _ (sym e ∙ other-previous c old h)) alike

  -- What `validate_and_complete` does with the tracker it is to collect.
  abbrev complete_with :
      AppManifestsDispatcher → Option ResourceTracker → Call W AppManifestsDispatcher
  complete_with c other = elim other [
    | none ↦ pure c
    | some rt ↦
        on_error (api.get_tracker rt.name) (λ got. pure (record c { previous_rt = some got }))
          (λ e.
            fails (failure ("given resource tracker " +++ lib.quoted rt.name +++ " doesn't exist")))
  ]

  completing-Alike :
      (c : AppManifestsDispatcher) (ms : List Manifest) (w : W) (other : Option ResourceTracker)
      → other_tracker c ≡ other
      → ((t : ResourceTracker)
          → other ≡ some t
          → Post (λ t' w'. Alike ms t') Whatever (api.get_tracker t.name w))
      → Post (λ c' w'. CollectsAlike c' ms) Whatever (complete_with c other w)
  completing-Alike c ms w none e alike = λ old h. cc
  completing-Alike c ms w (some t) e alike =
      bind-Post (λ t' w'. Alike ms t') (λ c' w'. CollectsAlike c' ms) _ _ (api.get_tracker t.name w)
        (λ got w' q. got-Alike (record c { previous_rt = some got }) ms got refl q) (alike t refl)

  completed-Alike :
      (a : AppManifestsDispatcher) (ms : List Manifest) (w : W)
      → PreviousAlike a ms w
      → Post (λ c w'. CollectsAlike c ms) Whatever (validate_and_complete lib api a w)
  unfolding validate_and_complete
  completed-Alike a ms w alike =
      let c = record a {
        namespace = a.app_rev.namespace;
        current_rt_name = construct_resource_tracker_name a.app_rev.name a.app_rev.namespace;
      } in
      elim (Bool-cases (str_eq a.app_rev.name "" || str_eq a.app_rev.namespace "")) [
        | inl bad ↦ rw bad tt
        | inr good ↦
            rw good (
              completing-Alike c ms w (other_tracker c) refl
                (λ t e. alike t (other-previous c t e)))
      ]

  tracker-Keeps :
      (a : AppManifestsDispatcher) (rt : ResourceTracker) (other : Option ResourceTracker)
      (r : TypedReference)
      → ((old : ResourceTracker) → other ≡ some old → RefersAlike Same r old.tracked_resources)
      → Tracked r rt.tracked_resources
      → Keeps (Present r) (collect_tracker lib api a rt other)
  unfolding collect_tracker
  tracker-Keeps a rt none r alike tracked = λ w h. h
  tracker-Keeps a rt (some old) r alike tracked =
      wrapping-Keeps (Present r) _ (garbage_collect lib api a.app_rev.namespace old rt) (λ w.
        garbage_collect-keeps lib api Present Same law.spares a.app_rev.namespace old rt r w
          (alike old refl) tracked)

  gc-Keeps :
      (a : AppManifestsDispatcher) (rt : ResourceTracker) (r : TypedReference)
      → ((old : ResourceTracker)
          → other_tracker a ≡ some old
          → RefersAlike Same r old.tracked_resources)
      → Tracked r rt.tracked_resources
      → Keeps (Present r) (collect_previous lib api a rt)
  unfolding collect_previous
  gc-Keeps a rt r alike tracked =
      if-Keeps (Present r) a.skip_gc (pure tt) (collect_tracker lib api a rt (other_tracker a))
        (λ w h. h) (tracker-Keeps a rt (other_tracker a) r alike tracked)

  gc-Applied :
      (a : AppManifestsDispatcher) (rt : ResourceTracker) (ms : List Manifest)
      → CollectsAlike a ms
      → Keeps
          (λ w. All (λ m. IsApplied lib api Present Same law rt m w) ms)
          (collect_previous lib api a rt)
  gc-Applied a rt [] alike w h = tt
  gc-Applied a rt (m ∷ ms) alike w h = (
    (gc-Keeps a rt (reference m) (λ old e. (alike old e).0) h.0.1 w h.0.0, h.0.1),
    gc-Applied a rt ms (λ old e. (alike old e).1) w h.1,
  )

  dispatch-Post :
      (a : AppManifestsDispatcher) (ms : List Manifest) (w : W)
      → All IsNamed ms
      → PreviousAlike a ms w
      → Post
          (λ rt w'. All (λ m. IsApplied lib api Present Same law rt m w') ms)
          Whatever
          (dispatch lib api a ms w)
  unfolding dispatch
  dispatch-Post a ms w named alike =
      let Goal = λ (rt : ResourceTracker) (w' : W).
        All (λ m. IsApplied lib api Present Same law rt m w') ms in
      bind-Post (λ c w'. CollectsAlike c ms) Goal _ (λ e. e) (validate_and_complete lib api a w)
        (λ c w₁ q.
          bind-Post (λ rt w'. Unit) Goal _ (λ e. e) (create_or_get_resource_tracker lib api c w₁)
            (λ rt w₂ q'.
              bind-Post Goal Goal _ (λ e. e) (apply_and_record_manifests lib api c rt ms w₂)
                (λ rec w₃ applied.
                  bind-Post (λ u w'. Goal rec w') Goal _ (λ e. e)
                    (collect_previous lib api c rec w₃) (λ u w₄ here. here)
                    (kept (Goal rec) (collect_previous lib api c rec w₃)
                      (gc-Applied c rec ms q w₃ applied)))
                (record-Applied lib api Present Same law c rt ms named w₂))
            (anything (create_or_get_resource_tracker lib api c w₁)))
        (completed-Alike a ms w alike)

  -- After a dispatch that succeeds, every manifest is in the cluster and is tracked by the resource
  -- tracker that is returned, if every manifest has a name, and the tracker of the previous revision,
  -- where there is one to collect, does not refer to the object of a manifest under another API
  -- version: no later manifest and no collection of the older tracker takes it away.
  pub dispatch-Applied :
      (a : AppManifestsDispatcher) (ms : List Manifest) (w : W) {rt : ResourceTracker} {w' : W}
      → All IsNamed ms
      → PreviousAlike a ms w
      → dispatch lib api a ms w ≡ (ok rt, w')
      → All (λ m. IsApplied lib api Present Same law rt m w') ms
  dispatch-Applied a ms w named alike h =
      Post-success (λ rt w'. All (λ m. IsApplied lib api Present Same law rt m w') ms) Whatever
        (dispatch lib api a ms w) (dispatch-Post a ms w named alike) h
