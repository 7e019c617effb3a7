-- ===== src/AppRollout/Steps.antt =====
-- The calls of a round on a component that is covered do not panic.
use rudr_x.Base.{Bool-cases, Option, String, arith, inl, inr, none, some, str_eq, true, ◌≡◌}
use rudr_x.AppRollout.Changes.{RoundRevisions}
use rudr_x.AppRollout.Covered.{Covers, is_there}
use rudr_x.AppRollout.Handler.{Prepared, find_source, find_workload, take_over}
use rudr_x.AppRollout.Landing.{Lands, after-Lands, called-Lands, made, quiet, then-Lands}
use rudr_x.AppRollout.Owners.{enable_controller_owner}
use rudr_x.AppRollout.Templates.{
  collect_source, extract_workload, fetch_source_and_target_workload, finalize_rolling_succeeded,
  source_tracker, template_source_manifest, template_target_manifest,
}
use rudr_x.AppRollout.Types.{AppRollout, RolloutApi, after, called}
use rudr_x.Apply.{Library}
use rudr_x.Cluster.Posts.{anything}
use rudr_x.Cluster.References.{Manifest}
use rudr_x.Dispatch.{ApplicationRevision, dispatch, new_app_manifests_dispatcher, start_and_skip_gc}

module _ {W Patch : Type 0} (lib : Library Patch) (api : RolloutApi W Patch) where
  extracts :
      (m : Option Manifest) (w : W)
      → is_there m ≡ true
      → Lands ⊥ (λ _. Unit {0}) (extract_workload lib api m w)
  unfolding extract_workload
  extracts none w h = absurd (ground arith)
  extracts (some m) w h = called-Lands ⊥ _ _ (anything _)

  pub fetches :
      (revs : RoundRevisions) (c : String) (p : Prepared) (w : W)
      → Covers revs c p
      → Lands ⊥ (λ _. Unit {0}) (fetch_source_and_target_workload lib api revs c p w)
  unfolding fetch_source_and_target_workload
  fetches revs c p w covers = elim covers.source [
    | inl none_given ↦
        rw none_given.0 (
          after-Lands ⊥ (λ _. Unit {0}) _ _ _ (extracts _ w covers.target) (λ t w' u. quiet ⊥ _ w'))
    | inr there ↦ elim (Bool-cases (str_eq revs.source_rev_name "")) [
      | inl e ↦ rw e (
          after-Lands ⊥ (λ _. Unit {0}) _ _ _ (extracts _ w covers.target) (λ t w' u. quiet ⊥ _ w'))
      | inr e ↦ rw e (
          after-Lands ⊥ (λ _. Unit {0}) _ _ _ (extracts _ w there)
            (λ s w₁ u.
              after-Lands ⊥ (λ _. Unit {0}) _ _ _ (extracts _ w₁ covers.target)
                (λ t w' u. quiet ⊥ _ w')))
    ]
  ]

  pub finalizes :
      (revs : RoundRevisions) (c : String) (p : Prepared) (w : W)
      → Covers revs c p
      → Lands ⊥ (λ _. Unit {0}) (finalize_rolling_succeeded lib api c p w)
  unfolding finalize_rolling_succeeded
  finalizes revs c p w covers =
      after-Lands ⊥ (λ _. Unit {0}) _ _ _ (extracts _ w covers.target)
        (λ workload w₁ u.
          then-Lands ⊥ (λ _. Unit {0}) _
            (api.patch_workload workload (enable_controller_owner workload) w₁)
            (λ u w₂. made ⊥ (collect_source lib api p) w₂))

  takes_over :
      (m : Option Manifest) (w : W)
      → is_there m ≡ true
      → Lands ⊥
          (λ _. Unit {0})
          (after (λ workload. called (take_over lib api workload)) (extract_workload lib api m w))
  takes_over m w there =
      after-Lands ⊥ (λ _. Unit {0}) (λ _. Unit {0}) _ _ (extracts m w there)
        (λ workload w₁ u. made ⊥ (take_over lib api workload) w₁)

  pub templates_target :
      (a : AppRollout) (revs : RoundRevisions) (c : String) (p : Prepared) (w : W)
      → Covers revs c p
      → Lands ⊥ (λ _. Unit {0}) (template_target_manifest lib api a c p w)
  unfolding template_target_manifest
  templates_target a revs c p w covers =
      then-Lands ⊥ (λ _. Unit {0}) _ (source_tracker lib api a p w)
        (λ tracker w₁.
          then-Lands ⊥ (λ _. Unit {0}) _
            (dispatch lib api.dispatching
              (start_and_skip_gc tracker (new_app_manifests_dispatcher p.target_app_revision))
              p.target_manifests w₁)
            (λ rt w₂. takes_over (find_workload c p.target_workloads) w₂ covers.target))

  templates_some :
      (c : String) (p : Prepared) (rev : Option ApplicationRevision) (w : W)
      → is_there (find_source c p.source_workloads) ≡ true
      → Lands ⊥
          (λ _. Unit {0})
          (template_source_manifest lib api c (record p { source_app_revision = rev }) w)
  unfolding template_source_manifest
  templates_some c p none w there = quiet ⊥ _ w
  templates_some c p (some rev) w there =
      then-Lands ⊥ (λ _. Unit {0}) _
        (dispatch lib api.dispatching (new_app_manifests_dispatcher rev) p.source_manifests w)
        (λ rt w₁. takes_over (find_source c p.source_workloads) w₁ there)

  pub templates_source :
      (revs : RoundRevisions) (c : String) (p : Prepared) (w : W)
      → Covers revs c p
      → Lands ⊥ (λ _. Unit {0}) (template_source_manifest lib api c p w)
  unfolding template_source_manifest
  templates_source revs c p w covers = elim covers.source [
    | inl none_given ↦ rw none_given.1 (quiet ⊥ _ w)
    | inr there ↦ templates_some c p p.source_app_revision w there
  ]
