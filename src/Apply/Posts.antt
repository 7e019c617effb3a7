-- ===== src/Apply/Posts.antt =====
-- What `Apply` does to the cluster, in terms of what the API server does: the objects that are there
-- stay, and the object that is applied is there after a success.
use rudr_x.Base.{
  All, List, Option, String, [], ap, arith, inl, inr, none, not, refl, some, str_eq, sym, ◌&&◌, ◌∙◌,
  ◌∷◌, ◌≡◌, ◌≢◌, ◌⊎◌,
}
use rudr_x.Apply.{
  ApplyOption, Library, ObjectApi, add_last_applied_config_annotation, apply, apply_found, create,
  create_or_get_existing, execute_apply_options, get_modified_configuration, patch_existing,
  three_way_merge_patch,
}
use rudr_x.Apply.Annotations.{get_original-add_last_applied}
use rudr_x.Cluster.Calls.{
  Call, Result, Result-cases, err, is_not_found, ok, pure, returned, wrapped, wrapping, ◌>>=◌,
}
use rudr_x.Cluster.Posts.{
  Gives, Keeps, Post, Whatever, anything, bind-Post, bind-Keeps, if-Gives, if-Keeps, on_error-Keeps,
  settled-Post, wrapping-Keeps,
}
use rudr_x.Cluster.References.{Manifest, TypedReference, reference}

-- The answer to a call about `m`.
abbrev pub Answers : {W : Type 0} → (TypedReference → W → Type 0) → Manifest → Manifest → W → Type 0
Answers Present m a w = Present (reference a) w × (m.name ≢ "" → reference a ≡ reference m)

-- What the code relies on: a call about one object takes no other object away, and an object that the
-- API server created or patched is there, with the answer's reference; it is the reference of the
-- object that was sent, where that one has a name.
pub record KeepsObjects {W Patch : Type 0} (api : ObjectApi W Patch)
    (Present : TypedReference → W → Type 0) : Type 0 where
  pub get_object_keeps : (r : TypedReference) (m : Manifest) → Keeps (Present r) (api.get_object m)
  pub create_object_keeps :
      (r : TypedReference) (m : Manifest) → Keeps (Present r) (api.create_object m)
  pub patch_object_keeps :
      (r : TypedReference) (m : Manifest) (p : Patch) → Keeps (Present r) (api.patch_object m p)
  pub created : (m : Manifest) → Gives (Answers Present m) (api.create_object m)
  pub patched : (m : Manifest) (p : Patch) → Gives (Answers Present m) (api.patch_object m p)

module _ {W Patch : Type 0} (lib : Library Patch) (api : ObjectApi W Patch)
    (Present : TypedReference → W → Type 0) (law : KeepsObjects api Present) where
  create-Keeps :
      (r : TypedReference) (ao : List ApplyOption) (d : Manifest)
      → Keeps (Present r) (create lib api ao d)
  unfolding create
  create-Keeps r ao d =
      bind-Keeps (Present r) (returned (execute_apply_options none d ao)) _ (λ w h. h)
        λ o.
          bind-Keeps (Present r) (returned (add_last_applied_config_annotation lib o)) _ (λ w h. h)
            λ m. wrapping-Keeps (Present r) _ (api.create_object m) (law.create_object_keeps r m)

  create_or_get-Keeps :
      (r : TypedReference) (ao : List ApplyOption) (d : Manifest)
      → Keeps (Present r) (create_or_get_existing lib api ao d)
  unfolding create_or_get_existing
  create_or_get-Keeps r ao d =
      let new =
        bind-Keeps (Present r) (create lib api ao d) (λ m. pure (inr m)) (create-Keeps r ao d)
          (λ m w h. h) in
      if-Keeps (Present r) (str_eq d.name "" && not (str_eq d.generate_name "")) _ _ new (
        on_error-Keeps (Present r) (api.get_object d) _ _ (law.get_object_keeps r d) (λ m w h. h)
          (λ e. if-Keeps (Present r) (is_not_found e) _ _ new (λ w h. h)))

  patch_existing-Keeps :
      (r : TypedReference) (ao : List ApplyOption) (d existing : Manifest)
      → Keeps (Present r) (patch_existing lib api ao d existing)
  unfolding patch_existing
  patch_existing-Keeps r ao d existing =
      bind-Keeps (Present r) (returned (execute_apply_options (some existing) d ao)) _ (λ w h. h)
        λ m.
          bind-Keeps (Present r) (wrapping _ (returned (three_way_merge_patch lib existing m).0)) _
            (wrapping-Keeps (Present r) _ (returned (three_way_merge_patch lib existing m).0)
              (λ w h. h))
            λ p.
              wrapping-Keeps (Present r) _
                (api.patch_object (three_way_merge_patch lib existing m).1 p)
                (law.patch_object_keeps r _ p)

  found-Keeps :
      (r : TypedReference) (ao : List ApplyOption) (d : Manifest) (found : Manifest ⊎ Manifest)
      → Keeps (Present r) (apply_found lib api ao d found)
  unfolding apply_found
  found-Keeps r ao d (inl existing) = patch_existing-Keeps r ao d existing
  found-Keeps r ao d (inr new) = λ w h. h

  -- No object goes away when one is applied, whether that succeeds or not.
  pub apply-Keeps :
      (r : TypedReference) (ao : List ApplyOption) (d : Manifest)
      → Keeps (Present r) (apply lib api ao d)
  unfolding apply
  apply-Keeps r ao d =
      bind-Keeps (Present r) (create_or_get_existing lib api ao d) _ (create_or_get-Keeps r ao d)
        (found-Keeps r ao d)

-- A result whose object is referred to like `d`.
abbrev pub SameReference : Manifest → Result Manifest → Type 0
SameReference d (ok m) = reference m ≡ reference d
SameReference d (err e) = Unit {0}

SameReference-trans :
    (d m : Manifest) (x : Result Manifest)
    → reference m ≡ reference d
    → SameReference m x
    → SameReference d x
SameReference-trans d m (ok a) same h = h ∙ same
SameReference-trans d m (err e) same h = tt

-- Options that leave alone what an object is referred to by.
abbrev pub Steady : List ApplyOption → Type 0
Steady = All (λ (fn : ApplyOption).
    (existing : Option Manifest) (d : Manifest) → SameReference d (fn existing d))

optioned-reference :
    (existing : Option Manifest) (d : Manifest) (fn : ApplyOption) (ao : List ApplyOption)
    (x : Result Manifest)
    → fn existing d ≡ x
    → SameReference d x
    → ((m : Manifest) → SameReference m (execute_apply_options existing m ao))
    → SameReference d (execute_apply_options existing d (fn ∷ ao))
unfolding execute_apply_options
optioned-reference existing d fn ao (ok m) e same rest =
    rw e (SameReference-trans d m _ same (rest m))
optioned-reference existing d fn ao (err x) e same rest = rw e tt

execute_apply_options-reference :
    (existing : Option Manifest) (ao : List ApplyOption)
    → Steady ao
    → (d : Manifest) → SameReference d (execute_apply_options existing d ao)
unfolding execute_apply_options
execute_apply_options-reference existing [] steady d = refl
execute_apply_options-reference existing (fn ∷ ao) steady d =
    optioned-reference existing d fn ao (fn existing d) refl (steady.0 existing d)
      (execute_apply_options-reference existing ao steady.1)

module _ {Patch : Type 0} (lib : Library Patch) where
  add_last_applied-reference :
      (d : Manifest) → SameReference d (add_last_applied_config_annotation lib d)
  add_last_applied-reference d = elim (Result-cases (add_last_applied_config_annotation lib d)) [
    | inl (m, e) ↦ rw e ((get_original-add_last_applied lib d e).3)
    | inr (x, e) ↦ rw e tt
  ]

  three_way-reference :
      (existing m : Manifest) → reference (three_way_merge_patch lib existing m).1 ≡ reference m
  unfolding three_way_merge_patch get_modified_configuration reference
  three_way-reference existing m = ground arith

module _ {W Patch : Type 0} (lib : Library Patch) (api : ObjectApi W Patch)
    (Present : TypedReference → W → Type 0) (law : KeepsObjects api Present) where
  -- A success about an object that is referred to alike.
  pub Answers-same :
      (d m : Manifest) (x : Result Manifest × W)
      → reference m ≡ reference d
      → Post (Answers Present m) Whatever x
      → Post (Answers Present d) Whatever x
  unfolding reference
  Answers-same d m (ok a, w) same h =
      (h.0, λ named. h.1 (λ e. named (sym (ap (λ (r : TypedReference). r.name) same) ∙ e)) ∙ same)
  Answers-same d m (err e, w) same h = tt

  pub wrapped-Answers :
      (d : Manifest) (text : String) (m : Call W Manifest)
      → Gives (Answers Present d) m
      → Gives (Answers Present d) (wrapping text m)
  wrapped-Answers d text m h w =
      bind-Post (Answers Present d) (Answers Present d) pure (wrapped text) (m w) (λ a w' q. q)
        (h w)

  returned-Answers :
      (d : Manifest) (x : Result Manifest) (f : Manifest → Call W Manifest)
      → SameReference d x
      → ((m : Manifest) → reference m ≡ reference d → Gives (Answers Present d) (f m))
      → Gives (Answers Present d) (returned x >>= f)
  returned-Answers d (ok m) f same h w = h m same w
  returned-Answers d (err e) f same h w = tt

  create-Answers :
      (ao : List ApplyOption) (d : Manifest)
      → Steady ao
      → Gives (Answers Present d) (create lib api ao d)
  unfolding create
  create-Answers ao d steady =
      returned-Answers d (execute_apply_options none d ao) _
        (execute_apply_options-reference none ao steady d)
        λ o same.
          returned-Answers d (add_last_applied_config_annotation lib o) _
            (SameReference-trans d o _ same (add_last_applied-reference lib o))
            λ m same'.
              wrapped-Answers d _ (api.create_object m)
                λ w. Answers-same d m (api.create_object m w) same' (law.created m w)

  patched-Answers :
      (d m : Manifest) (calculating patching : String) (x : Result Patch)
      → reference m ≡ reference d
      → Gives
          (Answers Present d)
          (wrapping calculating (returned x) >>= λ p. wrapping patching (api.patch_object m p))
  patched-Answers d m calculating patching (ok p) same =
      wrapped-Answers d patching (api.patch_object m p)
        λ w. Answers-same d m (api.patch_object m p w) same (law.patched m p w)
  patched-Answers d m calculating patching (err e) same = λ w. tt

  patch_existing-Answers :
      (ao : List ApplyOption) (d existing : Manifest)
      → Steady ao
      → Gives (Answers Present d) (patch_existing lib api ao d existing)
  unfolding patch_existing
  patch_existing-Answers ao d existing steady =
      returned-Answers d (execute_apply_options (some existing) d ao) _
        (execute_apply_options-reference (some existing) ao steady d)
        λ m same.
          patched-Answers d (three_way_merge_patch lib existing m).1 _ _
            (three_way_merge_patch lib existing m).0 (three_way-reference lib existing m ∙ same)

  -- The object that was there, or a new one.
  abbrev Found : Manifest → Manifest ⊎ Manifest → W → Type 0
  Found d (inl existing) w = Unit
  Found d (inr new) w = Answers Present d new w

  fetched-Answers :
      (ao : List ApplyOption) (d : Manifest)
      → Steady ao
      → (found : Manifest ⊎ Manifest) (w : W) → Found d found w
      → Post (Answers Present d) Whatever ((apply_found lib api ao d found) w)
  unfolding apply_found
  fetched-Answers ao d steady (inl existing) w q = patch_existing-Answers ao d existing steady w
  fetched-Answers ao d steady (inr new) w q = q

  create_or_get-Found :
      (ao : List ApplyOption) (d : Manifest)
      → Steady ao
      → Gives (Found d) (create_or_get_existing lib api ao d)
  unfolding create_or_get_existing
  create_or_get-Found ao d steady =
      let new : Gives (Found d) (create lib api ao d >>= λ m. pure (inr m)) = λ w.
        bind-Post (Answers Present d) (Found d) _ (λ e. e) (create lib api ao d w) (λ m w' q. q)
          (create-Answers ao d steady w) in
      if-Gives (Found d) (str_eq d.name "" && not (str_eq d.generate_name "")) _ _ new λ w.
        settled-Post (λ m w'. Unit) Whatever Whatever (Found d) _ _ (api.get_object d w)
          (λ m w' q. tt) (λ e w' q. if-Gives (Found d) (is_not_found e) _ _ new (λ w''. tt) w')
          (anything (api.get_object d w))

  -- An object that is applied is there after a success, and is referred to as it was.
  pub apply-Answers :
      (ao : List ApplyOption) (d : Manifest)
      → Steady ao
      → Gives (Answers Present d) (apply lib api ao d)
  unfolding apply
  apply-Answers ao d steady w =
      bind-Post (Found d) (Answers Present d) _ (λ e. e) (create_or_get_existing lib api ao d w)
        (fetched-Answers ao d steady) (create_or_get-Found ao d steady w)
