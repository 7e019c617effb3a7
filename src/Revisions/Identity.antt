-- ===== src/Revisions/Identity.antt =====
-- Whether the revision of an application that was computed is the latest one: `currentAppRevIsNew` and
-- `DeepEqualRevision` of revision.go. `equal` is `Semantic.DeepEqual` of apimachinery on the specs, and
-- `zero` the spec of a definition that is missing from a map. The hash is a text that is given.
pub mod Agreed
use rudr_x.Base.{
  Bool, List, Option, String, [], if◌then◌else◌, length, none, not, some, str_eq, true, zero, ◌&&◌,
  ◌==◌, ◌∷◌,
}

-- A Go map from names to definitions, of which the code reads the specs.
abbrev pub Definitions : Type 0 → Type 0
Definitions A = List (String × A)

-- The fields of `ApplicationRevisionSpec` that are compared.
pub record RevisionSpec (A : Type 0) : Type 0 where
  pub application : A
  pub workload_definitions : Definitions A
  pub component_definitions : Definitions A
  pub trait_definitions : Definitions A
  pub scope_definitions : Definitions A

unfoldable pub find_definition : {A : Type 0} → String → Definitions A → Option A
find_definition key [] = none
find_definition key ((k, a) ∷ ds) = if str_eq k key then some a else find_definition key ds

module _ {A : Type 0} (equal : A → A → Bool) (zero : A) where
  -- `old[key].Spec`.
  unfoldable pub spec_at : String → Definitions A → A
  unfolding find_definition
  spec_at key ds = elim (find_definition key ds) [ none ↦ zero | some a ↦ a ]

  -- The loop over the new definitions.
  unfoldable pub all_equal : Definitions A → Definitions A → Bool
  unfolding spec_at
  all_equal old [] = true
  all_equal old ((key, a) ∷ ds) = equal (spec_at key old) a && all_equal old ds

  unfoldable pub same_definitions : Definitions A → Definitions A → Bool
  unfolding all_equal
  same_definitions old new = (length old == length new) && all_equal old new

  unfoldable pub deep_equal_revision : RevisionSpec A → RevisionSpec A → Bool
  unfolding same_definitions
  deep_equal_revision old new =
      same_definitions old.workload_definitions new.workload_definitions
      && same_definitions old.trait_definitions new.trait_definitions
      && same_definitions old.component_definitions new.component_definitions
      && same_definitions old.scope_definitions new.scope_definitions
      && equal old.application new.application

  -- By the hash in `Status.LatestRevision`, the latest revision that was read, and the current one; a
  -- latest revision that was not read is a nil pointer: `none`.
  unfoldable pub current_app_rev_is_new :
      Option String → Option (RevisionSpec A) → String → RevisionSpec A → Option Bool
  current_app_rev_is_new none latest current_hash current = some true
  current_app_rev_is_new (some hash) latest current_hash current =
      if not (str_eq hash current_hash)
      then some true
      else elim latest [ none ↦ none | some old ↦ some (not (deep_equal_revision old current)) ]
