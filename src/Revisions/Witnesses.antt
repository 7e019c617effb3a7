-- ===== src/Revisions/Witnesses.antt =====
-- A clean-up of five revisions with a limit of one, where the latest one and one that a resource
-- tracker belongs to are in use. The server keeps a list of names.
use rudr_x.Base.{
  All, Bool-cases, List, String, [], ap, arith, eq_iff, false, if◌then◌else◌, inl, inr, length,
  refl, some, str_eq, true, ◌+◌, ◌-◌, ◌∷◌, ◌≡◌, ◌≢◌,
}
use rudr_x.Base.Int.{pos, ◌-ℤ◌}
use rudr_x.Cluster.Calls.{Result, err, not_found, ok, ok-inj}
use rudr_x.Cluster.Names.{last_part, split, trim_suffix}
use rudr_x.Dispatch.Names.{extract_app_revision_name}
use rudr_x.Revisions.{
  AppHandler, RevisionApi, clean_up_application_revision, gather_using_app_revision, in_use,
  kill_surplus, sorted_revision,
}
use rudr_x.Revisions.Chosen.{IsUnique, chosen}
use rudr_x.Revisions.Cleaned.{delete_all, kill_surplus-chosen}
use rudr_x.Revisions.Components.{
  ComponentApi, clean_up_component_revision, deleting, gather_using_components,
}
use rudr_x.Revisions.Components.Kept.{KeepsComponents, clean_up_component-keeps}
use rudr_x.Revisions.Identity.{
  RevisionSpec, all_equal, current_app_rev_is_new, deep_equal_revision, find_definition,
  same_definitions, spec_at,
}
use rudr_x.Revisions.Identity.Agreed.{AgreesAt, IsComplete, current_app_rev-AgreesAt, keys}
use rudr_x.Revisions.Numbers.{atoi, extract_revision_num}

without : String → List String → List String
without n [] = []
without n (m ∷ ms) = if str_eq n m then without n ms else m ∷ without n ms

abbrev Exists : String → List String → Type 0
Exists n revs = in_use n revs ≡ true

abbrev server : RevisionApi (List String)
server = record {
  list_app_revisions = λ ns app revs. (ok revs, revs);
  list_trackers = λ app ns revs. (ok ("app-v3-ns" ∷ []), revs);
  list_app_deployments = λ ns revs. (ok (("other-v1" ∷ "app-v3" ∷ []) ∷ []), revs);
  delete_app_revision =
      λ n revs. (if in_use n revs then ok tt else err (not_found n), without n revs);
}

without-other :
    (m n : String) (revs : List String)
    → m ≢ n
    → in_use m revs ≡ true
    → in_use m (without n revs) ≡ true
unfolding in_use without
without-other m n [] ne h = h
without-other m n (x ∷ xs) ne h =
    ground (arith, eq_iff m x, eq_iff n x, eq_iff m n, without-other m n xs ne)

abbrev handler : AppHandler
handler = record {
  name = "app";
  namespace = "ns";
  latest_revision = some "app-v10";
  app_revision_limit = pos 1;
}

abbrev revisions : List String
revisions = "app-v10" ∷ "app-v9" ∷ "app-v1" ∷ "app-v3" ∷ "app-v2" ∷ []

cleaned :
    clean_up_application_revision server handler revisions
    ≡ (ok tt, "app-v10" ∷ "app-v9" ∷ "app-v3" ∷ [])
unfolding clean_up_application_revision ◌-ℤ◌ extract_app_revision_name trim_suffix sorted_revision
    extract_revision_num split last_part atoi without
cleaned = refl

revisions-IsUnique : IsUnique revisions
unfolding IsUnique in_use
revisions-IsUnique = (refl, (refl, (refl, (refl, (refl, tt)))))

abbrev used_names : List String
used_names = "app-v3" ∷ "app-v10" ∷ []

kill_surplus-chosen_example :
    (kill_surplus server handler revisions used_names revisions
      ≡ delete_all server (chosen handler revisions used_names) revisions)
    × (length (chosen handler revisions used_names) ≡ length revisions - (1 + length used_names))
    × All (λ n. in_use n used_names ≡ false) (chosen handler revisions used_names)
kill_surplus-chosen_example =
    kill_surplus-chosen server handler revisions used_names revisions refl revisions-IsUnique

-- Revisions of texts as specs, where the empty text is a missing one.
abbrev latest_spec : RevisionSpec String
latest_spec = record {
  application = "two components";
  workload_definitions = ("deployments.apps", "apps/v1") ∷ ("jobs.batch", "batch/v1") ∷ [];
  component_definitions = ("webservice", "cue") ∷ [];
  trait_definitions = [];
  scope_definitions = [];
}

-- The same, with its maps read in another order.
abbrev current_spec : RevisionSpec String
current_spec = record latest_spec {
  workload_definitions = ("jobs.batch", "batch/v1") ∷ ("deployments.apps", "apps/v1") ∷ [];
}

abbrev spec_hash : String
spec_hash = "f7a1"

current-IsComplete : IsComplete str_eq "" current_spec
unfolding IsUnique keys in_use
current-IsComplete = record {
  workloads = ((refl, (refl, tt)), (refl, (refl, tt)));
  components = ((refl, tt), (refl, tt));
  traits = (tt, tt);
  scopes = (tt, tt);
}

not_new :
    current_app_rev_is_new str_eq "" (some spec_hash) (some latest_spec) spec_hash current_spec
    ≡ some false
unfolding current_app_rev_is_new deep_equal_revision same_definitions all_equal spec_at
    find_definition
not_new = refl

current_app_rev-AgreesAt_example :
    (old : RevisionSpec String) × (some latest_spec ≡ some old)
    × (some spec_hash ≡ some spec_hash)
    × AgreesAt str_eq "" old current_spec "deployments.apps"
current_app_rev-AgreesAt_example =
    current_app_rev-AgreesAt str_eq "" (some spec_hash) (some latest_spec) spec_hash current_spec
      "deployments.apps" current-IsComplete not_new

-- The cluster is now the controller revisions of the component `web`.
abbrev component_server : ComponentApi (List String) String
component_server = record {
  revisions = server;
  get_app_revision = λ ns name revs. (ok name, revs);
  component_manifests =
      λ rev. ok (("web", if str_eq rev "app-v3" then "web-v1" else "web-v4") ∷ []);
  list_controller_revisions = λ c ns revs. (ok (if str_eq c "web" then revs else []), revs);
  delete_controller_revision =
      λ n revs. (if in_use n revs then ok tt else err (not_found n), without n revs);
}

other-unlisted :
    (c ns : String) (names w w' : List String)
    → c ≢ "web"
    → component_server.list_controller_revisions c ns w ≡ (ok names, w')
    → in_use "web-v1" names ≡ false
unfolding in_use
other-unlisted c ns names w w' ne listed =
    let same = ok-inj (ap (λ (x : Result (List String) × List String). x.0) listed) in
    elim (Bool-cases (str_eq c "web")) [
      | inl e ↦ absurd (ne ((eq_iff c "web").0 e))
      | inr e ↦ rw (← same, e) refl
    ]

component_server-keeps : KeepsComponents component_server Exists "web" "web-v1"
unfolding deleting in_use
component_server-keeps = record {
  deletes = record { delete_keeps = λ m n ne w h. without-other m n w ne h };
  list_keeps = λ c ns w h. h;
  listed_apart = other-unlisted;
}

abbrev component_revisions : List String
component_revisions = "web-v1" ∷ "web-v2" ∷ "web-v3" ∷ "web-v4" ∷ []

component_names_gathered :
    gather_using_app_revision server handler component_revisions
    ≡ (ok ("app-v3" ∷ "app-v10" ∷ []), component_revisions)
unfolding gather_using_app_revision extract_app_revision_name trim_suffix in_use
component_names_gathered = refl

components_gathered :
    gather_using_components component_server "ns" ("app-v3" ∷ "app-v10" ∷ []) component_revisions
    ≡ (ok (("web", "web-v1") ∷ ("web", "web-v4") ∷ []), component_revisions)
unfolding gather_using_components
components_gathered = refl

first-there : Exists "web-v1" component_revisions
unfolding in_use
first-there = refl

clean_up_component-keeps_example :
    Exists "web-v1"
      (clean_up_component_revision component_server handler "app-v10" component_revisions).1
clean_up_component-keeps_example =
    clean_up_component-keeps component_server Exists "web" "web-v1" component_server-keeps handler
      "app-v10" component_revisions component_names_gathered components_gathered (inl (refl, refl))
      first-there
