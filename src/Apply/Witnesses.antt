-- ===== src/Apply/Witnesses.antt =====
-- The annotation on a concrete object, which has another annotation already.
use rudr_x.Base.{List, Option, String, [], false, none, refl, some, ◌∷◌, ◌≡◌}
use rudr_x.Base.Text.{◌+++◌}
use rudr_x.Apply.{
  Library, add_last_applied_config_annotation, get_modified_configuration,
  get_original_configuration, last_applied_config, without_last_applied,
}
use rudr_x.Apply.Annotations.{get_original-add_last_applied}
use rudr_x.Cluster.Calls.{ok}
use rudr_x.Cluster.References.{Manifest, get, put, reference, remove}

abbrev text_library : Library (Unit {0})
text_library = record {
  marshal = λ m. ok (m.name +++ " " +++ m.content);
  is_registered = λ m. ok false;
  json_merge_patch = λ original modified current. ok tt;
  strategic_merge_patch = λ m original modified current. ok tt;
  get_controller_of = λ owners. none;
  quoted = λ s. s;
  quoted_list = λ ss. "";
  quoted_reference = λ r. r.name;
}

abbrev object : Option (List (String × String)) → Manifest
object annotations = record {
  api_version = "v1";
  kind = "Service";
  name = "svc";
  namespace = "ns";
  generate_name = "";
  owner_references = [];
  labels = [];
  annotations = annotations;
  content = "port 80";
}

abbrev old_object : Manifest
old_object = object (some (("owner", "me") ∷ (last_applied_config, "old") ∷ []))

abbrev new_object : Manifest
new_object = object (some (("owner", "me") ∷ (last_applied_config, "svc port 80") ∷ []))

added : add_last_applied_config_annotation text_library old_object ≡ ok new_object
unfolding add_last_applied_config_annotation get put remove
added = refl

get_original-add_last_applied_example :
    (c : String) × (text_library.marshal (without_last_applied old_object) ≡ ok c)
    × (get_original_configuration text_library new_object ≡ some c)
    × (reference new_object ≡ reference old_object)
    × (new_object.owner_references ≡ old_object.owner_references)
    × (new_object.content ≡ old_object.content)
    × ((get_modified_configuration text_library new_object false).0 ≡ ok c)
get_original-add_last_applied_example = get_original-add_last_applied text_library old_object added
