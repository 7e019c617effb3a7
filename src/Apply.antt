-- ===== src/Apply.antt =====
-- pkg/utils/apply: what is created or patched when an object is applied. The annotation
-- `last-applied-configuration` of patch.go, and `Apply` with its options of apply.go.
pub mod Annotations
pub mod Posts
use rudr_x.Base.{
  Bool, List, Option, String, [], false, if◌then◌else◌, inl, inr, none, not, some, str_eq, true,
  ◌&&◌, ◌||◌, ◌∷◌, ◌⊎◌,
}
use rudr_x.Base.Text.{◌+++◌}
use rudr_x.Cluster.Calls.{
  Call, Result, err, fails, failure, is_not_found, ok, on_error, pure, returned, wrapped, wrapping,
  ◌>>=◌, ◌>>◌,
}
use rudr_x.Cluster.References.{Manifest, OwnerReference, TypedReference, get, or_empty, put, remove}
use rudr_x.Rollout.Workloads.DeploymentRollout.{controlled}
mod Witnesses

-- `oam.AnnotationLastAppliedConfig`.
abbrev pub last_applied_config : String
last_applied_config = "app.oam.dev/last-applied-configuration"

-- `oam.AnnotationKubeVelaVersion`.
abbrev pub kubevela_version : String
kubevela_version = "oam.dev/kubevela-version"

-- What the code takes from libraries. `marshal` is `json.Marshal` on an object; `is_registered` is
-- whether the scheme of client-go has a kind: a patch for it is strategic, another one is a JSON
-- merge. The two patches are computed from the original, the modified and the current object.
-- `get_controller_of` is `metav1.GetControllerOf`, and the quoted texts are those of `%q`.
pub record Library (Patch : Type 0) : Type 0 where
  pub marshal : Manifest → Result String
  pub is_registered : Manifest → Result Bool
  pub json_merge_patch : Option String → String → String → Result Patch
  pub strategic_merge_patch : Manifest → Option String → String → String → Result Patch
  pub get_controller_of : List OwnerReference → Option OwnerReference
  pub quoted : String → String
  pub quoted_list : List String → String
  pub quoted_reference : TypedReference → String

-- The API server, as `client.Client`: an answer replaces the object that was sent.
pub record ObjectApi (W Patch : Type 0) : Type 0 where
  pub get_object : Manifest → Call W Manifest
  pub create_object : Manifest → Call W Manifest
  pub patch_object : Manifest → Patch → Call W Manifest

-- The map of annotations, which is made where there is none.
unfoldable pub annotations_of : Manifest → List (String × String)
annotations_of m = elim m.annotations [ none ↦ [] | some annots ↦ annots ]

unfoldable pub unless_empty : List (String × String) → Option (List (String × String))
unless_empty [] = none
unless_empty (a ∷ rest) = some (a ∷ rest)

-- `SetAnnotations(obj, annots)` after a `delete`: an empty map is left out.
unfoldable pub without_last_applied : Manifest → Manifest
unfolding annotations_of unless_empty
without_last_applied m = record m {
  annotations = unless_empty (remove last_applied_config (annotations_of m));
}

-- What an update of the object leaves: `SetAnnotations` of the map with the annotation.
unfoldable pub annotated : String → Manifest → Manifest
unfolding annotations_of
annotated config m = record m {
  annotations = some (put last_applied_config config (annotations_of m));
}

-- The end of `getModifiedConfiguration`: the annotation as it was in the object, and the empty text
-- where there was none.
unfoldable pub restored : Manifest → Manifest
unfolding annotations_of annotated
restored m = annotated (or_empty (get last_applied_config (annotations_of m))) m

unfoldable pub recorded : Result String × Manifest → Result Manifest
unfolding annotated
recorded (err e, m) = err e
recorded (ok config, m) = ok (annotated config m)

module _ {Patch : Type 0} (lib : Library Patch) where
  -- The text of an object, and the object as the call leaves it: restored, but where `json.Marshal`
  -- fails. It sees the object without the annotation first, and then with that text as annotation.
  unfoldable pub get_modified_configuration : Manifest → Bool → Result String × Manifest
  unfolding without_last_applied annotated restored
  get_modified_configuration m update_annotation =
      let bare = without_last_applied m in
      elim (lib.marshal bare) [
        | err e ↦ (err e, bare)
        | ok modified ↦ elim update_annotation [
          | false ↦ (ok modified, restored m)
          | true ↦ elim (lib.marshal (annotated modified bare)) [
            | err e ↦ (err e, annotated modified bare)
            | ok embedded ↦ (ok embedded, restored m)
          ]
        ]
      ]

  unfoldable pub get_original_configuration : Manifest → Option String
  get_original_configuration m = elim m.annotations [
    | none ↦ none
    | some annots ↦ get last_applied_config annots
  ]

  unfoldable pub add_last_applied_config_annotation : Manifest → Result Manifest
  unfolding get_modified_configuration recorded
  add_last_applied_config_annotation m = recorded (get_modified_configuration m false)

  -- The patch, and the modified object as the call leaves it.
  unfoldable pub three_way_merge_patch : Manifest → Manifest → Result Patch × Manifest
  unfolding get_modified_configuration get_original_configuration
  three_way_merge_patch current_obj modified_obj = elim (lib.marshal current_obj) [
    | err e ↦ (err e, modified_obj)
    | ok current ↦
        let original = get_original_configuration current_obj in
        let (config, m) = get_modified_configuration modified_obj true in
        elim config [
          | err e ↦ (err e, m)
          | ok modified ↦ elim (lib.is_registered current_obj) [
            | err e ↦ (err e, m)
            | ok false ↦ (lib.json_merge_patch original modified current, m)
            | ok true ↦ (lib.strategic_merge_patch current_obj original modified current, m)
          ]
        ]
  ]

-- An option sees the object that is there, if any, and the desired one, which it may change.
abbrev pub ApplyOption : Type 0
ApplyOption = Option Manifest → Manifest → Result Manifest

unfoldable pub execute_apply_options :
    Option Manifest → Manifest → List ApplyOption → Result Manifest
execute_apply_options existing desired [] = ok desired
execute_apply_options existing desired (fn ∷ aos) = elim (fn existing desired) [
  | err e ↦ err (wrapped "cannot apply ApplyOption" e)
  | ok desired' ↦ execute_apply_options existing desired' aos
]

module _ {W Patch : Type 0} (lib : Library Patch) (api : ObjectApi W Patch) where
  unfoldable pub create : List ApplyOption → Manifest → Call W Manifest
  unfolding execute_apply_options add_last_applied_config_annotation
  create ao desired = do
    with_options ← returned (execute_apply_options none desired ao)
    with_annotation ← returned (add_last_applied_config_annotation lib with_options)
    wrapping "cannot create object" (api.create_object with_annotation)

  -- The object that is there, or the one that is created.
  unfoldable pub create_or_get_existing : List ApplyOption → Manifest → Call W (Manifest ⊎ Manifest)
  unfolding create
  create_or_get_existing ao desired =
      let created = create ao desired >>= λ m. pure (inr m) in
      if str_eq desired.name "" && not (str_eq desired.generate_name "")
      then created
      else on_error (api.get_object desired) (λ existing. pure (inl existing))
          (λ e. if is_not_found e then created else fails (wrapped "cannot get object" e))

  -- The object is there: the new state is applied.
  unfoldable pub patch_existing : List ApplyOption → Manifest → Manifest → Call W Manifest
  unfolding execute_apply_options three_way_merge_patch
  patch_existing ao desired existing = do
    modified ← returned (execute_apply_options (some existing) desired ao)
    let (patch, m) = three_way_merge_patch lib existing modified
    p ← wrapping "cannot calculate patch by computing a three way diff" (returned patch)
    wrapping "cannot patch object" (api.patch_object m p)

  unfoldable pub apply_found : List ApplyOption → Manifest → Manifest ⊎ Manifest → Call W Manifest
  unfolding patch_existing
  apply_found ao desired (inl existing) = patch_existing ao desired existing
  apply_found ao desired (inr new) = pure new

  -- `Apply`, with the desired object as the API server answered it.
  unfoldable pub apply : List ApplyOption → Manifest → Call W Manifest
  unfolding create_or_get_existing apply_found
  apply ao desired = create_or_get_existing ao desired >>= apply_found ao desired

-- The loop over the UIDs.
unfoldable pub any_uid : String → List String → Bool
any_uid uid [] = false
any_uid uid (u ∷ us) = str_eq uid u || any_uid uid us

module _ {Patch : Type 0} (lib : Library Patch) where
  unfoldable pub must_be_controllable_by : String → ApplyOption
  must_be_controllable_by u none desired = ok desired
  must_be_controllable_by u (some existing) desired =
      elim (lib.get_controller_of existing.owner_references) [
        | none ↦ ok desired
        | some c ↦
            if str_eq c.uid u
            then ok desired
            else err (failure ("existing object is not controlled by UID " +++ lib.quoted u))
      ]

  unfoldable pub must_be_controllable_by_any : List String → ApplyOption
  unfolding any_uid annotations_of
  must_be_controllable_by_any uids none desired = ok desired
  must_be_controllable_by_any [] (some existing) desired = ok desired
  must_be_controllable_by_any (u ∷ us) (some existing) desired =
      elim (lib.get_controller_of existing.owner_references) [
        | none ↦ ok desired
        | some c ↦
            if str_eq (or_empty (get kubevela_version (annotations_of existing))) ""
            then ok desired
            else if any_uid c.uid (u ∷ us)
            then ok desired
            else err (
                failure
                  ("existing object is not controlled by any of UID " +++ lib.quoted_list (u ∷ us)))
      ]
