-- ===== src/Cluster/References.antt =====
-- References to objects, and the objects of the API server as the code sees them.
use rudr_x.Base.{
  Bool, List, Option, String, [], arith, eq_iff, if◌then◌else◌, none, some, str_eq, true, ◌&&◌, ◌↔◌,
  ◌∷◌, ◌≡◌,
}

-- `v1beta1.TypedReference`.
pub record TypedReference : Type 0 where
  pub api_version : String
  pub kind : String
  pub name : String
  pub namespace : String

-- The comparison that the loops over references make.
unfoldable pub same_reference : TypedReference → TypedReference → Bool
same_reference a b =
    str_eq a.api_version b.api_version
    && str_eq a.kind b.kind
    && str_eq a.name b.name
    && str_eq a.namespace b.namespace

pub same_reference_iff : (a b : TypedReference) → (same_reference a b ≡ true) ↔ (a ≡ b)
unfolding same_reference
same_reference_iff a b = (
  (λ h. ground (
    arith,
    eq_iff a.api_version b.api_version,
    eq_iff a.kind b.kind,
    eq_iff a.name b.name,
    eq_iff a.namespace b.namespace,
  )),
  (λ h. rw h (
      ground (
        arith,
        eq_iff b.api_version b.api_version,
        eq_iff b.kind b.kind,
        eq_iff b.name b.name,
        eq_iff b.namespace b.namespace,
      ))),
)

-- `metav1.OwnerReference`; `controller` and `block_owner_deletion` are pointers.
pub record OwnerReference : Type 0 where
  pub api_version : String
  pub kind : String
  pub name : String
  pub uid : String
  pub controller : Option Bool
  pub block_owner_deletion : Option Bool

-- An `unstructured.Unstructured`: the metadata that the code reads or writes, and the rest.
-- `annotations` is `none` where Go has nil.
pub record Manifest : Type 0 where
  pub api_version : String
  pub kind : String
  pub name : String
  pub namespace : String
  pub generate_name : String
  pub owner_references : List OwnerReference
  pub labels : List (String × String)
  pub annotations : Option (List (String × String))
  pub content : String

unfoldable pub reference : Manifest → TypedReference
reference m = record {
  api_version = m.api_version;
  kind = m.kind;
  name = m.name;
  namespace = m.namespace;
}

-- A map of texts: reading, `m[k] = v` and `delete(m, k)`.
unfoldable pub get : String → List (String × String) → Option String
get k [] = none
get k ((j, v) ∷ m) = if str_eq j k then some v else get k m

unfoldable pub put : String → String → List (String × String) → List (String × String)
put k v [] = (k, v) ∷ []
put k v ((j, u) ∷ m) = if str_eq j k then (k, v) ∷ m else (j, u) ∷ put k v m

unfoldable pub remove : String → List (String × String) → List (String × String)
remove k [] = []
remove k ((j, u) ∷ m) = if str_eq j k then remove k m else (j, u) ∷ remove k m

-- `m[k]`, which is the empty text for a missing key.
abbrev pub or_empty : Option String → String
or_empty none = ""
or_empty (some v) = v
