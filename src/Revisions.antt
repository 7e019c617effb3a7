-- ===== src/Revisions.antt =====
-- The clean-up of application revisions in
-- pkg/controller/core.oam.dev/v1alpha2/application/revision.go: the revisions of an application that
-- are not in use are deleted, the oldest first, down to a limit. And what an application deployment
-- uses, `CheckAppDeploymentUsingAppRevision` of pkg/controller/utils/utils.go. Log lines are left out.
pub mod Numbers
pub mod Chosen
pub mod Cleaned
pub mod Identity
pub mod Components
mod Witnesses
use rudr_x.Base.{
  Bool, List, Option, String, [], false, if◌then◌else◌, length, none, not, some, str_eq, suc, zero,
  ℕ, ◌&&◌, ◌++◌, ◌||◌, ◌∷◌,
}
use rudr_x.Base.Int.{leb_ℤ, ltb_ℤ, pos, pos_part, ℤ, ◌-ℤ◌}
use rudr_x.Base.Sorting.{sort_by}
use rudr_x.Cluster.Calls.{Call, on_error, pure, unless_gone, ◌>>=◌, ◌>>◌}
use rudr_x.Dispatch.Names.{extract_app_revision_name}
use rudr_x.Revisions.Numbers.{extract_revision_num}

-- The fields of the handler and its application that the code reads; `latest_revision` is the name in
-- `Status.LatestRevision`, which is a pointer.
pub record AppHandler : Type 0 where
  pub name : String
  pub namespace : String
  pub latest_revision : Option String
  pub app_revision_limit : ℤ

-- `client.Client`: the names of the revisions of an application, of its resource trackers, and the
-- revisions that each application deployment of a namespace names.
pub record RevisionApi (W : Type 0) : Type 0 where
  pub list_app_revisions : String → String → Call W (List String)
  pub list_trackers : String → String → Call W (List String)
  pub list_app_deployments : String → Call W (List (List String))
  pub delete_app_revision : String → Call W (Unit {0})

-- A set of names, as a Go map to `true`.
unfoldable pub in_use : String → List String → Bool
in_use n [] = false
in_use n (u ∷ us) = str_eq n u || in_use n us

unfoldable pub use_one : String → List String → List String
unfolding in_use
use_one n used = if in_use n used then used else n ∷ used

unfoldable pub use_all : List String → List String → List String
unfolding use_one
use_all [] used = used
use_all (n ∷ ns) used = use_all ns (use_one n used)

-- The loops over the application deployments: their names of known revisions.
unfoldable pub known_names : List String → List String → List String
unfolding in_use
known_names revs [] = []
known_names revs (n ∷ ns) =
    if not (str_eq n "") && in_use n revs then n ∷ known_names revs ns else known_names revs ns

unfoldable pub deployed_names : List String → List (List String) → List String
unfolding known_names
deployed_names revs [] = []
deployed_names revs (d ∷ ds) = known_names revs d ++ deployed_names revs ds

-- `historiesByRevision`: its `Less`, and `sort.Sort`.
unfoldable pub less : String → String → Bool
less a b = ltb_ℤ (extract_revision_num a) (extract_revision_num b)

unfoldable pub sorted_revision : List String → List String
unfolding less sort_by
sorted_revision items = sort_by less items

module _ {W : Type 0} (api : RevisionApi W) where
  unfoldable pub check_app_deployment_using_app_revision : String → String → Call W (List String)
  unfolding deployed_names
  check_app_deployment_using_app_revision ns app = api.list_app_deployments ns >>= λ ads. elim ads [
    | [] ↦ pure []
    | d ∷ ds ↦ api.list_app_revisions ns app >>= λ revs. pure (deployed_names revs (d ∷ ds))
  ]

  -- The latest revision of the status, if it has a name.
  unfoldable pub latest_name : AppHandler → List String
  latest_name h = elim h.latest_revision [ none ↦ [] | some n ↦ if str_eq n "" then [] else n ∷ [] ]

  unfoldable pub tracked_revisions : String → List String → List String
  tracked_revisions ns [] = []
  tracked_revisions ns (rt ∷ rts) = extract_app_revision_name rt ns ∷ tracked_revisions ns rts

  unfoldable pub gather_using_app_revision : AppHandler → Call W (List String)
  unfolding latest_name tracked_revisions use_all check_app_deployment_using_app_revision
  gather_using_app_revision h = do
    rts ← api.list_trackers h.name h.namespace
    deployed ← check_app_deployment_using_app_revision h.namespace h.name
    pure (use_all deployed (use_all (tracked_revisions h.namespace rts) (latest_name h)))

  -- The loop over the sorted revisions, with `needKill` left to delete: at 0 it breaks.
  unfoldable pub kill : ℕ → List String → List String → Call W (Unit {0})
  kill need_kill used [] = pure tt
  kill zero used (rev ∷ revs) = pure tt
  kill (suc need_kill) used (rev ∷ revs) =
      let skip = kill (suc need_kill) used revs in
      let go_on = kill need_kill used revs in
      if in_use rev used
      then skip
      else on_error (api.delete_app_revision rev) pure (λ e. unless_gone e e) >> go_on

  unfoldable pub kill_surplus : AppHandler → List String → List String → Call W (Unit {0})
  unfolding kill
  kill_surplus h items used =
      let need_kill = pos (length items) -ℤ h.app_revision_limit -ℤ pos (length used) in
      if leb_ℤ need_kill (pos 0)
      then pure tt
      else kill (pos_part need_kill) used (sorted_revision items)

  unfoldable pub clean_up_application_revision : AppHandler → Call W (Unit {0})
  unfolding gather_using_app_revision kill_surplus
  clean_up_application_revision h = do
    items ← api.list_app_revisions h.namespace h.name
    used ← gather_using_app_revision h
    kill_surplus h items used
