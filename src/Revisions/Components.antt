-- ===== src/Revisions/Components.antt =====
-- `cleanUpComponentRevision` of revision.go: for each component of the current revision, the controller
-- revisions that no application revision in use has are deleted, the oldest first, down to a limit.
pub mod Kept
use rudr_x.Base.{List, String, [], if◌then◌else◌, str_eq, ◌++◌, ◌∷◌}
use rudr_x.Cluster.Calls.{Call, Result, pure, returned, ◌>>=◌, ◌>>◌}
use rudr_x.Health.Peers.{others}
use rudr_x.Revisions.{AppHandler, RevisionApi, gather_using_app_revision, kill_surplus, use_one}

-- `client.Client` for revisions of components: `Rev` is an application revision, whose components
-- `component_manifests` reads with the names of their revisions (`AppConfig2ComponentManifests`).
pub record ComponentApi (W Rev : Type 0) : Type 0 where
  pub revisions : RevisionApi W
  pub get_app_revision : String → String → Call W Rev
  pub component_manifests : Rev → Result (List (String × String))
  pub list_controller_revisions : String → String → Call W (List String)
  pub delete_controller_revision : String → Call W (Unit {0})

-- `compRevisionInUse[name]`, of the pairs of components and revisions.
unfoldable pub used_of : String → List (String × String) → List String
used_of component [] = []
used_of component ((name, rev) ∷ pairs) =
    let rest = used_of component pairs in if str_eq name component then use_one rev rest else rest

module _ {W Rev : Type 0} (api : ComponentApi W Rev) where
  -- The components of the revisions in use.
  unfoldable pub gather_using_components : String → List String → Call W (List (String × String))
  gather_using_components ns [] = pure []
  gather_using_components ns (name ∷ names) =
      let rest = gather_using_components ns names in
      do
        rev ← api.get_app_revision ns name
        comps ← returned (api.component_manifests rev)
        others ← rest
        pure (comps ++ others)

  -- The deletions are those of the other clean-up, of controller revisions.
  unfoldable pub deleting : RevisionApi W
  deleting = record api.revisions { delete_app_revision = api.delete_controller_revision }

  unfoldable pub clean_up_component :
      AppHandler → List (String × String) → String → Call W (Unit {0})
  unfolding used_of deleting
  clean_up_component h pairs component = do
    names ← api.list_controller_revisions component h.namespace
    kill_surplus deleting h names (used_of component pairs)

  unfoldable pub clean_up_components :
      AppHandler → List (String × String) → List (String × String) → Call W (Unit {0})
  unfolding clean_up_component
  clean_up_components h pairs [] = pure tt
  clean_up_components h pairs ((component, rev) ∷ comps) =
      let rest = clean_up_components h pairs comps in clean_up_component h pairs component >> rest

  -- With the current revision of the handler.
  unfoldable pub clean_up_component_revision : AppHandler → Rev → Call W (Unit {0})
  unfolding gather_using_components clean_up_components
  clean_up_component_revision h current = do
    names ← gather_using_app_revision api.revisions h
    pairs ← gather_using_components h.namespace names
    comps ← returned (api.component_manifests current)
    clean_up_components h pairs comps
