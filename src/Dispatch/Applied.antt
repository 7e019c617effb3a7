-- ===== src/Dispatch/Applied.antt =====
-- The loop that applies the manifests: each is there after it.
use rudr_x.Base.{
  All, Bool, List, Option, Option-cases, String, [], false, if◌then◌else◌, inl, inr, none, refl,
  some, str_eq, true, ◌∷◌, ◌≡◌, ◌≢◌,
}
use rudr_x.Apply.{
  Library, annotations_of, any_uid, apply, kubevela_version, must_be_controllable_by_any,
}
use rudr_x.Apply.Posts.{
  Answers, Answers-same, KeepsObjects, SameReference, Steady, apply-Answers, apply-Keeps,
  wrapped-Answers,
}
use rudr_x.Cluster.Calls.{Call, Result, err, ok}
use rudr_x.Cluster.Posts.{Gives, Keeps, Post-both, bind-Keeps, bind-Post, wrapping-Keeps}
use rudr_x.Cluster.References.{Manifest, TypedReference, get, or_empty, reference}
use rudr_x.Dispatch.{
  apply_manifest, apply_manifests, controller_owner, set_or_override_controller_owner,
}
use rudr_x.Dispatch.Collected.{Spares}
use rudr_x.Dispatch.Trackers.{DispatchApi, ResourceTracker}

-- What the code relies on: the calls about objects and trackers take no object away but the one that
-- is deleted, under whatever reference that names it.
pub record KeepsCluster {W Patch : Type 0} (api : DispatchApi W Patch)
    (Present : TypedReference → W → Type 0) (Same : TypedReference → TypedReference → Type 0)
    : Type 0 where
  pub objects : KeepsObjects api.objects Present
  pub spares : Spares api Present Same
  pub get_tracker_keeps :
      (r : TypedReference) (name : String) → Keeps (Present r) (api.get_tracker name)
  pub update_tracker_status_keeps :
      (r : TypedReference) (rt : ResourceTracker) → Keeps (Present r) (api.update_tracker_status rt)

if-SameReference :
    (d : Manifest) (b : Bool) (x y : Result Manifest)
    → SameReference d x
    → SameReference d y
    → SameReference d (if b then x else y)
if-SameReference d true x y h k = h
if-SameReference d false x y h k = k

by_controller :
    {Patch : Type 0} (lib : Library Patch) (uids : List String) (existing : Option Manifest)
    (d : Manifest)
    → SameReference d (must_be_controllable_by_any lib uids existing d)
unfolding must_be_controllable_by_any
by_controller lib uids none d = refl
by_controller lib [] (some existing) d = refl
by_controller lib (u ∷ us) (some existing) d =
    elim (Option-cases (lib.get_controller_of existing.owner_references)) [
      | inl e ↦ rw (e, must_be_controllable_by_any) refl
      | inr (c, e) ↦
          rw (e, must_be_controllable_by_any)
            (if-SameReference d
              (str_eq (or_empty (get kubevela_version (annotations_of existing))) "") (ok d) _ refl
              (if-SameReference d (any_uid c.uid (u ∷ us)) (ok d) (err _) refl tt))
    ]

controllable-Steady :
    {Patch : Type 0} (lib : Library Patch) (uids : List String)
    → Steady (must_be_controllable_by_any lib uids ∷ [])
unfolding must_be_controllable_by_any
controllable-Steady lib uids = (by_controller lib uids, tt)

-- The answers are referred to like the manifests.
abbrev pub SameReferences : List Manifest → List Manifest → Type 0
SameReferences [] [] = Unit
SameReferences (a ∷ answers) (m ∷ ms) = (reference a ≡ reference m) × SameReferences answers ms
SameReferences _ _ = ⊥

abbrev pub IsNamed : Manifest → Type 0
IsNamed m = m.name ≢ ""

-- Every manifest is there.
abbrev pub Here : {W : Type 0} → (TypedReference → W → Type 0) → List Manifest → W → Type 0
Here Present ms w = All (λ m. Present (reference m) w) ms

module _ {W Patch : Type 0} (lib : Library Patch) (api : DispatchApi W Patch)
    (Present : TypedReference → W → Type 0) (Same : TypedReference → TypedReference → Type 0)
    (law : KeepsCluster api Present Same) where
  pub Here-Keeps :
      {A : Type 0} (c : Call W A) (ms : List Manifest)
      → ((r : TypedReference) → Keeps (Present r) c)
      → Keeps (Here Present ms) c
  Here-Keeps c [] keep w h = tt
  Here-Keeps c (m ∷ ms) keep w h = (keep (reference m) w h.0, Here-Keeps c ms keep w h.1)

  apply_manifest-Keeps :
      (uids : List String) (rt : ResourceTracker) (m : Manifest) (r : TypedReference)
      → Keeps (Present r) (apply_manifest lib api uids rt m)
  unfolding apply_manifest
  apply_manifest-Keeps uids rt m r =
      let ao = must_be_controllable_by_any lib uids ∷ [] in
      let owned = set_or_override_controller_owner m (controller_owner rt) in
      wrapping-Keeps (Present r) _ (apply lib api.objects ao owned)
        (apply-Keeps lib api.objects Present law.objects r ao owned)

  apply_manifest-Answers :
      (uids : List String) (rt : ResourceTracker) (m : Manifest)
      → Gives (Answers Present m) (apply_manifest lib api uids rt m)
  unfolding apply_manifest set_or_override_controller_owner reference
  apply_manifest-Answers uids rt m =
      let ao = must_be_controllable_by_any lib uids ∷ [] in
      let owned = set_or_override_controller_owner m (controller_owner rt) in
      wrapped-Answers lib api.objects Present law.objects m _ (apply lib api.objects ao owned) λ w.
        Answers-same lib api.objects Present law.objects m owned (apply lib api.objects ao owned w)
          refl
          (apply-Answers lib api.objects Present law.objects ao owned (controllable-Steady lib uids)
            w)

  pub apply_manifests-Keeps :
      (uids : List String) (rt : ResourceTracker) (ms : List Manifest) (r : TypedReference)
      → Keeps (Present r) (apply_manifests lib api uids rt ms)
  unfolding apply_manifests
  apply_manifests-Keeps uids rt [] r = λ w h. h
  apply_manifests-Keeps uids rt (m ∷ ms) r =
      bind-Keeps (Present r) (apply_manifest lib api uids rt m) _ (apply_manifest-Keeps uids rt m r)
        λ a.
          bind-Keeps (Present r) (apply_manifests lib api uids rt ms) _
            (apply_manifests-Keeps uids rt ms r) λ answers w h. h

  -- After the loop: everything is there, under the references that were asked for.
  pub apply_manifests-Here :
      (uids : List String) (rt : ResourceTracker) (ms : List Manifest)
      → All IsNamed ms
      → Gives
          (λ answers w. SameReferences answers ms × Here Present ms w)
          (apply_manifests lib api uids rt ms)
  unfolding apply_manifests
  apply_manifests-Here uids rt [] named w = (tt, tt)
  apply_manifests-Here uids rt (m ∷ ms) named w =
      bind-Post (Answers Present m)
        (λ answers w'. SameReferences answers (m ∷ ms) × Here Present (m ∷ ms) w') _ (λ e. e)
        (apply_manifest lib api uids rt m w)
        (λ a w' answered.
          let same : reference a ≡ reference m = answered.1 named.0 in
          bind-Post
            (λ answers w''.
              (SameReferences answers ms × Here Present ms w'') × Present (reference m) w'')
            (λ answers w''. SameReferences answers (m ∷ ms) × Here Present (m ∷ ms) w'') _ (λ e. e)
            (apply_manifests lib api uids rt ms w') (λ answers w'' q. ((same, q.0.0), (q.1, q.0.1)))
            (Post-both (Present (reference m))
              (λ answers w''. SameReferences answers ms × Here Present ms w'')
              (apply_manifests lib api uids rt ms w')
              (apply_manifests-Keeps uids rt ms (reference m) w' (rw (← same) answered.0))
              (apply_manifests-Here uids rt ms named.1 w')))
        (apply_manifest-Answers uids rt m w)
