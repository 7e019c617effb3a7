-- ===== src/Revisions/Components/Kept.antt =====
-- The clean-up deletes no revision of a component that an application revision in use has.
use rudr_x.Base.{
  All, Bool-cases, List, String, [], arith, eq_iff, false, inl, inr, refl, str_eq, true, ◌∷◌, ◌≡◌,
  ◌≢◌, ◌⊎◌,
}
use rudr_x.Cluster.Calls.{Result, err, fails, ok, returned, settled}
use rudr_x.Cluster.Posts.{Keeps, bind-Keeps}
use rudr_x.Revisions.{AppHandler, gather_using_app_revision, in_use, kill_surplus, use_one}
use rudr_x.Revisions.Chosen.{chosen, chosen-apart, chosen-unused}
use rudr_x.Revisions.Cleaned.{KeepsRevisions, delete_all-Keeps, kill_surplus_lem, used-ne-All}
use rudr_x.Revisions.Components.{
  ComponentApi, clean_up_component, clean_up_component_revision, clean_up_components, deleting,
  gather_using_components, used_of,
}

-- The revision of the component is there, and what the code relies on: a deletion takes away no other
-- controller revision, a listing none, and a controller revision is listed under its own component.
pub record KeepsComponents {W Rev : Type 0} (api : ComponentApi W Rev)
    (Exists : String → W → Type 0) (component m : String) : Type 0 where
  pub deletes : KeepsRevisions (deleting api) Exists
  pub list_keeps : (c ns : String) → Keeps (Exists m) (api.list_controller_revisions c ns)
  pub listed_apart :
      (c ns : String) (names : List String) (w w' : W)
      → c ≢ component
      → api.list_controller_revisions c ns w ≡ (ok names, w')
      → in_use m names ≡ false

abbrev pub Has : String → String → List (String × String) → Type 0
Has component m [] = ⊥
Has component m ((name, rev) ∷ pairs) = ((name ≡ component) × (rev ≡ m)) ⊎ Has component m pairs

in_use-use_one :
    (m n : String) (used : List String) → in_use m used ≡ true → in_use m (use_one n used) ≡ true
unfolding use_one in_use
in_use-use_one m n used h = ground (arith, h)

use_one-in_use : (m : String) (used : List String) → in_use m (use_one m used) ≡ true
unfolding use_one in_use
use_one-in_use m used = ground (arith, eq_iff m m)

used_of-Has :
    (component m : String) (pairs : List (String × String))
    → Has component m pairs
    → in_use m (used_of component pairs) ≡ true
unfolding used_of
used_of-Has component m [] h = absurd h
used_of-Has component m ((name, rev) ∷ pairs) (inl (e, f)) =
    rw (e, f, (eq_iff component component).1 refl) (use_one-in_use m (used_of component pairs))
used_of-Has component m ((name, rev) ∷ pairs) (inr later_on) =
    elim (Bool-cases (str_eq name component)) [
      | inl e ↦
          rw e (
            in_use-use_one m rev (used_of component pairs) (used_of-Has component m pairs later_on))
      | inr e ↦ rw e (used_of-Has component m pairs later_on)
    ]

module _ {W Rev : Type 0} (api : ComponentApi W Rev) (Exists : String → W → Type 0)
    (component m : String) (law : KeepsComponents api Exists component m) where
  -- What is chosen of a listing is not `m`.
  chosen-ne :
      (h : AppHandler) (pairs : List (String × String)) (c : String) (names : List String)
      (w w' : W)
      → Has component m pairs
      → api.list_controller_revisions c h.namespace w ≡ (ok names, w')
      → All (λ n. m ≢ n) (chosen h names (used_of c pairs))
  chosen-ne h pairs c names w w' has listed = elim (Bool-cases (str_eq c component)) [
    | inl e ↦
        used-ne-All m (used_of c pairs) (chosen h names (used_of c pairs))
          (rw ((eq_iff c component).0 e) (used_of-Has component m pairs has))
          (chosen-unused h names (used_of c pairs))
    | inr e ↦ chosen-apart h names (used_of c pairs) m (
        law.listed_apart c h.namespace names w w'
          (λ same. ground (arith, eq_iff c component, e, same)) listed)
  ]

  -- After the listing.
  listed-Keeps :
      (h : AppHandler) (pairs : List (String × String)) (c : String) (w : W)
      (x : Result (List String) × W)
      → Has component m pairs
      → api.list_controller_revisions c h.namespace w ≡ x
      → Exists m x.1
      → Exists m
          (settled (λ names. kill_surplus (deleting api) h names (used_of c pairs)) fails x).1
  listed-Keeps h pairs c w (err e, w') has listed there = there
  listed-Keeps h pairs c w (ok names, w') has listed there =
      rw (kill_surplus_lem (deleting api) h names (used_of c pairs) w') (
        delete_all-Keeps (deleting api) Exists law.deletes m (chosen h names (used_of c pairs))
          (chosen-ne h pairs c names w w' has listed) w' there)

  clean_up_component-Keeps :
      (h : AppHandler) (pairs : List (String × String)) (c : String)
      → Has component m pairs
      → Keeps (Exists m) (clean_up_component api h pairs c)
  unfolding clean_up_component
  clean_up_component-Keeps h pairs c has w there =
      listed-Keeps h pairs c w (api.list_controller_revisions c h.namespace w) has refl
        (law.list_keeps c h.namespace w there)

  clean_up_components-Keeps :
      (h : AppHandler) (pairs comps : List (String × String))
      → Has component m pairs
      → Keeps (Exists m) (clean_up_components api h pairs comps)
  unfolding clean_up_components
  clean_up_components-Keeps h pairs [] has = λ w there. there
  clean_up_components-Keeps h pairs ((c, rev) ∷ comps) has =
      bind-Keeps (Exists m) (clean_up_component api h pairs c) _
        (clean_up_component-Keeps h pairs c has) (λ u. clean_up_components-Keeps h pairs comps has)

  -- A revision of a component that an application revision in use has, by the revisions in use and
  -- their components as these are read, is there after the clean-up if it was there before the
  -- deletions, whether the clean-up succeeds or not.
  pub clean_up_component-keeps :
      (h : AppHandler) (current : Rev) (w : W) {names : List String}
      {pairs : List (String × String)} {w₁ w₂ : W}
      → gather_using_app_revision api.revisions h w ≡ (ok names, w₁)
      → gather_using_components api h.namespace names w₁ ≡ (ok pairs, w₂)
      → Has component m pairs
      → Exists m w₂
      → Exists m (clean_up_component_revision api h current w).1
  unfolding clean_up_component_revision
  clean_up_component-keeps h current w {pairs = pairs} {w₂ = w₂} used read has there =
      rw (used, read)
        (bind-Keeps (Exists m) (returned (api.component_manifests current)) _ (λ w h. h)
          (λ comps. clean_up_components-Keeps h pairs comps has) w₂ there)
