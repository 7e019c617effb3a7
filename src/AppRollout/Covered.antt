-- ===== src/AppRollout/Covered.antt =====
-- The component that a round works on is among the workloads of its revisions, so that the handler
-- dereferences no nil pointer.
use mathlib.Core.Path.{subst}
use rudr_x.Base.{
  Bool, Bool-cases, List, Option, String, [], ap, arith, eq_iff, false, inl, inr, none, refl, some,
  str_eq, true, ◌∷◌, ◌≡◌, ◌⊎◌,
}
use rudr_x.AppRollout.Changes.{RoundRevisions}
use rudr_x.AppRollout.Handler.{
  Prepared, component_names, determine_rollout_component, find_common_component_with_manifest,
  find_source, find_workload, names_in, only_one, prepare_rollout, prepare_source,
}
use rudr_x.AppRollout.Owners.{rollout_workload_name}
use rudr_x.AppRollout.Types.{Assembler, RolloutApi, Workloads}
use rudr_x.Cluster.Calls.{Result, err, ok, ok-inj}
use rudr_x.Cluster.Posts.{Post, Whatever, anything, bind-Post}
use rudr_x.Cluster.References.{Manifest}
use rudr_x.Dispatch.{ApplicationRevision}

abbrev pub is_there : Option Manifest → Bool
is_there none = false
is_there (some m) = true

-- What the admission webhook makes sure of: every revision has the component that the rollout names.
abbrev pub Groups : Assembler → List String → Type 0
Groups asm [] = Unit {0}
Groups asm (c ∷ cs) =
    (options : List (Manifest → Result Manifest)) (rev : ApplicationRevision) (ws : Workloads)
    → asm.group_assembled_manifests options rev ≡ ok ws
    → is_there (find_workload c ws) ≡ true

-- The workloads of a prepared round are those of the assembler.
abbrev pub Grouped : Assembler → Workloads → Type 0
Grouped asm ws =
    (options : List (Manifest → Result Manifest)) × (rev : ApplicationRevision)
    × (asm.group_assembled_manifests options rev ≡ ok ws)

pub data FromSource (asm : Assembler) (revs : RoundRevisions) (p : Prepared) : Type 0 where
  unsourced :
      str_eq revs.source_rev_name "" ≡ true
      → p.source_app_revision ≡ none
      → p.source_workloads ≡ none
      → FromSource asm revs p
  sourced : (ws : Workloads) → p.source_workloads ≡ some ws → Grouped asm ws → FromSource asm revs p

abbrev pub PreparedBy : Assembler → RoundRevisions → Prepared → Type 0
PreparedBy asm revs p = Grouped asm p.target_workloads × FromSource asm revs p

-- The component has a target, and a source where the round has one.
pub record Covers (revs : RoundRevisions) (c : String) (p : Prepared) : Type 0 where
  pub target : is_there (find_workload c p.target_workloads) ≡ true
  pub source :
      ((str_eq revs.source_rev_name "" ≡ true) × (p.source_app_revision ≡ none))
      ⊎ (is_there (find_source c p.source_workloads) ≡ true)

pub returned-Post : {A W : Type 0} (r : Result A) (w : W) → Post (λ a w. r ≡ ok a) Whatever (r, w)
returned-Post (ok a) w = refl
returned-Post (err e) w = tt

module _ {W Patch : Type 0} (api : RolloutApi W Patch) (asm : Assembler) where
  prepare_source-PreparedBy :
      (revs : RoundRevisions) (ns : String) (p : Prepared) (w : W)
      → Grouped asm p.target_workloads
      → p.source_app_revision ≡ none
      → p.source_workloads ≡ none
      → Post (λ p' w'. PreparedBy asm revs p') Whatever (prepare_source api asm revs ns p w)
  unfolding prepare_source
  prepare_source-PreparedBy revs ns p w grouped bare empty =
      let options = asm.prepare_workload_for_rollout ∷ rollout_workload_name api.group_of ∷ [] in
      let R = λ (p' : Prepared) (w' : W). PreparedBy asm revs p' in
      elim (Bool-cases (str_eq revs.source_rev_name "")) [
        | inl e ↦ rw e (grouped, unsourced e bare empty)
        | inr e ↦ rw e (
            bind-Post (λ rev w₁. Unit {0}) R _ (λ e. e)
              (api.get_app_revision ns revs.source_rev_name w)
              (λ rev w₁ u.
                bind-Post (λ ws w₂. asm.group_assembled_manifests options rev ≡ ok ws) R _ (λ e. e)
                  (asm.group_assembled_manifests options rev, w₁)
                  (λ ws w₂ g.
                    bind-Post (λ ms w₃. Unit {0}) R _ (λ e. e)
                      (asm.assembled_manifests options rev, w₂)
                      (λ ms w₃ u. (grouped, sourced ws refl (options, rev, g)))
                      (anything (asm.assembled_manifests options rev, w₂)))
                  (returned-Post (asm.group_assembled_manifests options rev) w₁))
              (anything (api.get_app_revision ns revs.source_rev_name w)))
      ]

  pub prepare_rollout-PreparedBy :
      (revs : RoundRevisions) (ns : String) (w : W)
      → Post (λ p w'. PreparedBy asm revs p) Whatever (prepare_rollout api asm revs ns w)
  unfolding prepare_rollout
  prepare_rollout-PreparedBy revs ns w =
      let options = rollout_workload_name api.group_of ∷ asm.prepare_workload_for_rollout ∷ [] in
      let R = λ (p' : Prepared) (w' : W). PreparedBy asm revs p' in
      bind-Post (λ rev w₁. Unit {0}) R _ (λ e. e) (api.get_app_revision ns revs.target_rev_name w)
        (λ rev w₁ u.
          bind-Post (λ ms w₂. Unit {0}) R _ (λ e. e) (asm.assembled_manifests options rev, w₁)
            (λ ms w₂ u.
              bind-Post (λ ws w₃. asm.group_assembled_manifests options rev ≡ ok ws) R _ (λ e. e)
                (asm.group_assembled_manifests options rev, w₂)
                (λ ws w₃ g. prepare_source-PreparedBy revs ns _ w₃ (options, rev, g) refl refl)
                (returned-Post (asm.group_assembled_manifests options rev) w₂))
            (anything (asm.assembled_manifests options rev, w₁)))
        (anything (api.get_app_revision ns revs.target_rev_name w))

named-there :
    (c : String) (ws : Workloads) (cs : List String)
    → component_names ws ≡ c ∷ cs
    → is_there (find_workload c ws) ≡ true
unfolding component_names find_workload
named-there c [] cs h = absurd (ground arith)
named-there c ((name, m) ∷ ws) cs h = ground (arith, eq_iff name c)

-- A common name is in both maps.
common-there :
    (c : String) (target ws : Workloads) (cs : List String)
    → names_in target ws ≡ c ∷ cs
    → (is_there (find_workload c target) ≡ true) × (is_there (find_workload c ws) ≡ true)
unfolding names_in find_workload
common-there c target [] cs h = absurd (ground arith)
common-there c target ((name, m) ∷ ws) cs h =
    ground (arith, eq_iff name c, common-there c target ws cs)

only_one-ok : (names : List String) {c : String} → only_one names ≡ ok c → names ≡ c ∷ []
unfolding only_one
only_one-ok [] h = absurd (ground arith)
only_one-ok (n ∷ []) h = ap (λ x. x ∷ []) (ok-inj h)
only_one-ok (n ∷ m ∷ ns) h = absurd (ground arith)

Grouped-there :
    (asm : Assembler) (c : String) (cs : List String) (ws : Workloads)
    → Groups asm (c ∷ cs)
    → Grouped asm ws
    → is_there (find_workload c ws) ≡ true
Grouped-there asm c cs ws groups (options, rev, g) = groups options rev ws g

-- The component that is chosen is covered.
pub determine-Covers :
    (asm : Assembler) (components : List String) (revs : RoundRevisions) (p : Prepared) {c : String}
    → Groups asm components
    → PreparedBy asm revs p
    → determine_rollout_component components p ≡ ok c
    → Covers revs c p
unfolding determine_rollout_component find_common_component_with_manifest find_source
determine-Covers asm (c' ∷ cs) revs p groups (grouped, unsourced e bare empty) h =
    rw (← ok-inj h) (record {
      target = Grouped-there asm c' cs p.target_workloads groups grouped;
      source = inl (e, bare);
    })
determine-Covers asm (c' ∷ cs) revs p groups (grouped, sourced ws e other) h =
    rw (← ok-inj h) (record {
      target = Grouped-there asm c' cs p.target_workloads groups grouped;
      source = inr (rw e (Grouped-there asm c' cs ws groups other));
    })
determine-Covers asm [] revs p {c} groups (grouped, unsourced e bare empty) h = record {
  target = named-there c p.target_workloads [] (
      only_one-ok _ (
        subst (λ s. only_one (find_common_component_with_manifest p.target_workloads s) ≡ ok c)
          empty h));
  source = inl (e, bare);
}
determine-Covers asm [] revs p {c} groups (grouped, sourced ws e other) h =
    let both = common-there c p.target_workloads ws [] (
      only_one-ok _ (
        subst (λ s. only_one (find_common_component_with_manifest p.target_workloads s) ≡ ok c) e
          h)) in
    record { target = both.0; source = inr (rw e both.1) }
