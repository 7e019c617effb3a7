-- ===== src/Apply/Annotations.antt =====
-- The annotation that records what was applied last: what is written when an object is created is
-- read back when it is patched.
use rudr_x.Base.{
  List, String, [], ap, arith, eq_iff, false, inl, inr, refl, some, sym, ◌∙◌, ◌∷◌, ◌≡◌,
}
use rudr_x.Apply.{
  Library, add_last_applied_config_annotation, annotated, annotations_of,
  get_modified_configuration, get_original_configuration, recorded, restored, without_last_applied,
}
use rudr_x.Cluster.Calls.{Error, Result, Result-cases, err, ok, ok-inj}
use rudr_x.Cluster.References.{Manifest, get, put, reference, remove}

get-put : (k v : String) (m : List (String × String)) → get k (put k v m) ≡ some v
unfolding get put
get-put k v [] = simp ((eq_iff k k).1 refl) refl
get-put k v ((j, u) ∷ m) = ground (arith, eq_iff k k, get-put k v m)

remove-put : (k v : String) (m : List (String × String)) → remove k (put k v m) ≡ remove k m
unfolding remove put
remove-put k v [] = simp ((eq_iff k k).1 refl) refl
remove-put k v ((j, u) ∷ m) = ground (arith, eq_iff k k, remove-put k v m)

-- The text without the annotation does not depend on it.
without-annotated :
    (c : String) (m : Manifest) → without_last_applied (annotated c m) ≡ without_last_applied m
unfolding without_last_applied annotated annotations_of
without-annotated c m = simp remove-put refl

module _ {Patch : Type 0} (lib : Library Patch) where
  modified-ok :
      (m : Manifest) {c : String}
      → lib.marshal (without_last_applied m) ≡ ok c
      → get_modified_configuration lib m false ≡ (ok c, restored m)
  unfolding get_modified_configuration
  modified-ok m e = rw (e, get_modified_configuration)

  added-ok :
      (m : Manifest) {c : String}
      → lib.marshal (without_last_applied m) ≡ ok c
      → add_last_applied_config_annotation lib m ≡ ok (annotated c (restored m))
  unfolding add_last_applied_config_annotation recorded
  added-ok m e = ap recorded (modified-ok m e)

  added-err :
      (m : Manifest) {x : Error}
      → lib.marshal (without_last_applied m) ≡ err x
      → add_last_applied_config_annotation lib m ≡ err x
  unfolding add_last_applied_config_annotation get_modified_configuration
  added-err m e = rw (e, get_modified_configuration, add_last_applied_config_annotation)

  bare-added :
      (m : Manifest) (c : String)
      → without_last_applied (annotated c (restored m)) ≡ without_last_applied m
  unfolding restored
  bare-added m c = without-annotated c (restored m) ∙ without-annotated _ m

  original-annotated :
      (m : Manifest) (c : String) → get_original_configuration lib (annotated c m) ≡ some c
  unfolding get_original_configuration annotated
  original-annotated m c = get-put _ c (annotations_of m)

  -- Where the annotation is added, the object carries the text of itself without the annotation: that
  -- text is read back as the original configuration, the rest of the object is as it was, and the
  -- text of the object that carries it is, without the annotation, the same once more.
  pub get_original-add_last_applied :
      (m : Manifest) {m' : Manifest}
      → add_last_applied_config_annotation lib m ≡ ok m'
      → (c : String) × (lib.marshal (without_last_applied m) ≡ ok c)
        × (get_original_configuration lib m' ≡ some c)
        × (reference m' ≡ reference m)
        × (m'.owner_references ≡ m.owner_references)
        × (m'.content ≡ m.content)
        × ((get_modified_configuration lib m' false).0 ≡ ok c)
  unfolding reference annotated restored
  get_original-add_last_applied m {m'} h =
      elim (Result-cases (lib.marshal (without_last_applied m))) [
        | inr (x, e) ↦ cc (added-err m e)
        | inl (c, e) ↦
            let same : annotated c (restored m) ≡ m' = ok-inj (sym (added-ok m e) ∙ h) in
            (
              c,
              e,
              rw (← same) (original-annotated (restored m) c),
              rw (← same) refl,
              rw (← same) refl,
              rw (← same) refl,
              ap (λ (r : Result String × Manifest). r.0)
                  (modified-ok m' (ap lib.marshal (rw (← same) (bare-added m c)) ∙ e)),
            )
      ]
