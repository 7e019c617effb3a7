-- ===== src/Dispatch/Witnesses.antt =====
-- A revision that is dispatched after another one.
use mathlib.Core.Path.{subst}
use mathlib.Core.Option.{some-injective}
use rudr_x.Base.{
  All, Bool-cases, List, String, [], arith, false, inl, inr, none, refl, some, ◌∙◌, ◌∷◌, ◌≡◌,
}
use rudr_x.Base.Text.{◌+++◌}
use rudr_x.Apply.{apply}
use rudr_x.Cluster.Calls.{ok, retry_on_conflict}
use rudr_x.Cluster.Names.{IsPlain, but_last, has_suffix, join, split, trim_suffix}
use rudr_x.Cluster.References.{
  Manifest, TypedReference, reference, same_reference, same_reference_iff,
}
use rudr_x.Dispatch.{AppManifestsDispatcher, dispatch, end_and_gc, new_app_manifests_dispatcher}
use rudr_x.Dispatch.Collected.{
  Leaving, RefersAlike, Tracked, garbage_collect-clears, garbage_collect-keeps,
}
use rudr_x.Dispatch.Collector.{garbage_collect, still_tracked}
use rudr_x.Dispatch.Dispatched.{PreviousAlike, dispatch-Applied}
use rudr_x.Dispatch.Names.{
  construct_resource_tracker_name, extract-construct, extract_app_name, extract_app_revision_name,
}
use rudr_x.Dispatch.Recorded.{IsApplied}
use rudr_x.Dispatch.Samples.{library}
use rudr_x.Dispatch.Server.{
  Cluster, Marked, Present, Same, dropped, find_tracker, has_finalizer, held, one_object, server,
  server-deletes, server-keeps, server-spares, with_tracker, without_tracker,
}
use rudr_x.Dispatch.Trackers.{ResourceTracker}

abbrev deployment : String → Manifest
deployment n = record {
  api_version = "apps/v1";
  kind = "Deployment";
  name = n;
  namespace = "ns";
  generate_name = "";
  owner_references = [];
  labels = [];
  annotations = none;
  content = "spec";
}

abbrev volume : TypedReference
volume = record { api_version = "v1"; kind = "PersistentVolume"; name = "disk"; namespace = "" }

abbrev old_tracker : ResourceTracker
old_tracker = record {
  name = "app-v1-ns";
  uid = "uid-1";
  labels = [];
  tracked_resources = reference (deployment "web") ∷ reference (deployment "db") ∷ volume ∷ [];
}

-- The first revision has been dispatched, with the deployments `web` and `db` and a volume.
abbrev start : Cluster
start = record {
  objects = reference (deployment "web") ∷ reference (deployment "db") ∷ volume ∷ [];
  terminating = [];
  trackers = old_tracker ∷ [];
}

-- The second revision has `web` and `cache`.
abbrev dispatcher : AppManifestsDispatcher
dispatcher =
    end_and_gc (some old_tracker)
      (new_app_manifests_dispatcher (record { name = "app-v2"; namespace = "ns" }))

abbrev manifests : List Manifest
manifests = deployment "web" ∷ deployment "cache" ∷ []

abbrev new_tracker : ResourceTracker
new_tracker = record {
  name = "app-v2-ns";
  uid = "";
  labels = ("app.oam.dev/name", "app") ∷ ("app.oam.dev/namesapce", "ns") ∷ [];
  tracked_resources = reference (deployment "web") ∷ reference (deployment "cache") ∷ [];
}

-- `db` is gone at the end, and so is the first tracker; the volume has a deletion timestamp.
abbrev end : Cluster
end = record {
  objects = reference (deployment "cache") ∷ reference (deployment "web") ∷ volume ∷ [];
  terminating = volume ∷ [];
  trackers = new_tracker ∷ [];
}

run : dispatch library server dispatcher manifests start ≡ (ok new_tracker, end)
unfolding dispatch end_and_gc new_app_manifests_dispatcher find_tracker apply still_tracked
    same_reference retry_on_conflict with_tracker garbage_collect has_suffix join but_last split
    trim_suffix dropped without_tracker held one_object has_finalizer reference
run = refl

All-RefersAlike :
    (r : TypedReference) (xs : List TypedReference)
    → All (λ x. Same r x → x ≡ r) xs
    → RefersAlike Same r xs
unfolding still_tracked
All-RefersAlike r [] all d listed same = cc
All-RefersAlike r (x ∷ xs) all d listed same = elim (Bool-cases (same_reference d x)) [
  | inl equal ↦
      let e : d ≡ x = (same_reference_iff d x).0 equal in e ∙ all.0 (subst (Same r) e same)
  | inr other ↦ All-RefersAlike r xs all.1 d (ground arith) same
]

web_alike : RefersAlike Same (reference (deployment "web")) old_tracker.tracked_resources
unfolding one_object reference
web_alike =
    All-RefersAlike (reference (deployment "web")) old_tracker.tracked_resources
      ((λ h. refl), ((λ h. cc), ((λ h. cc), tt)))

cache_alike : RefersAlike Same (reference (deployment "cache")) old_tracker.tracked_resources
unfolding one_object reference
cache_alike =
    All-RefersAlike (reference (deployment "cache")) old_tracker.tracked_resources
      ((λ h. cc), ((λ h. cc), ((λ h. cc), tt)))

-- The first tracker has none of the manifests under another version.
previous_alike : PreviousAlike library server Present Same server-keeps dispatcher manifests start
unfolding find_tracker end_and_gc new_app_manifests_dispatcher
previous_alike previous e = rw (← (some-injective _ _ e)) (web_alike, (cache_alike, tt))

dispatch-Applied_example :
    All (λ m. IsApplied library server Present Same server-keeps new_tracker m end) manifests
dispatch-Applied_example =
    dispatch-Applied library server Present Same server-keeps dispatcher manifests start
      ((λ e. cc), ((λ e. cc), tt)) previous_alike run

web-Tracked : Tracked (reference (deployment "web")) new_tracker.tracked_resources
unfolding still_tracked same_reference reference
web-Tracked = refl

web-present : Present (reference (deployment "web")) start
unfolding held one_object reference
web-present = refl

garbage_collect-keeps_example :
    Present
      (reference (deployment "web"))
      (garbage_collect library server "ns" old_tracker new_tracker start).1
garbage_collect-keeps_example =
    garbage_collect-keeps library server Present Same server-spares "ns" old_tracker new_tracker
      (reference (deployment "web")) start web_alike web-Tracked web-present

abbrev collected : Cluster
collected = record {
  objects = reference (deployment "web") ∷ volume ∷ [];
  terminating = volume ∷ [];
  trackers = [];
}

collection : garbage_collect library server "ns" old_tracker new_tracker start ≡ (ok tt, collected)
unfolding garbage_collect still_tracked same_reference has_suffix join but_last split trim_suffix
    dropped without_tracker extract_app_name reference one_object has_finalizer held
collection = refl

volume-Tracked :
    Tracked volume old_tracker.tracked_resources
    × (still_tracked volume new_tracker.tracked_resources ≡ false)
unfolding still_tracked same_reference reference
volume-Tracked = (refl, refl)

-- The volume is still there, and marked.
garbage_collect-clears_example : Leaving Present Marked volume collected
garbage_collect-clears_example =
    garbage_collect-clears library server Present Marked server-deletes "ns" old_tracker new_tracker
      volume start volume-Tracked.0 volume-Tracked.1 collection

version-IsPlain : IsPlain "v12"
unfolding IsPlain
version-IsPlain = (refl, (refl, (refl, tt)))

extract-construct_example :
    (extract_app_revision_name
        (construct_resource_tracker_name ("my-app" +++ "-" +++ "v12") "my-ns")
        "my-ns"
      ≡ "my-app" +++ "-" +++ "v12")
    × (extract_app_name
          (construct_resource_tracker_name ("my-app" +++ "-" +++ "v12") "my-ns")
          "my-ns"
        ≡ "my-app")
extract-construct_example = extract-construct "my-app" "v12" "my-ns" version-IsPlain
