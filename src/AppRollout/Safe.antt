-- ===== src/AppRollout/Safe.antt =====
-- A round of the rollout controller does not panic and keeps the rollout status sound.
use mathlib.Core.Path.{subst}
use rudr_x.Base.{Bool-cases, Option, String, false, inl, inr, refl, sym, ℕ, ◌∙◌, ◌≡◌}
use rudr_x.Base.Int.{IsInt32, pos, ◌≤ℤ◌}
use rudr_x.AppRollout.{
  Controllers, do_reconcile, finish, is_abandoning, is_locating, is_succeeded, locate,
  reconcile_plan, roll, rolling_round, started, with_status,
}
use rudr_x.AppRollout.Changes.{
  RoundRevisions, handle_rolling_terminated, marked, round_revisions, with_event,
}
use rudr_x.AppRollout.Covered.{
  Covers, Groups, PreparedBy, determine-Covers, prepare_rollout-PreparedBy, returned-Post,
}
use rudr_x.AppRollout.Handler.{Prepared, determine_rollout_component, prepare_rollout}
use rudr_x.AppRollout.Landing.{Lands, Lands-mono, after-Lands, called-Lands}
use rudr_x.AppRollout.Sound.{
  StartsFrom, initialized-IsSound, located-IsSound, reconciled-unless_locating,
  round_revisions-IsSound, started-IsSound,
}
use rudr_x.AppRollout.Steps.{fetches, finalizes, templates_source, templates_target}
use rudr_x.AppRollout.Types.{AppRollout, Assembler, RolloutApi}
use rudr_x.Apply.{Library}
use rudr_x.Cluster.Calls.{ok}
use rudr_x.Cluster.Posts.{kept}
use rudr_x.Cluster.References.{Manifest}
use rudr_x.Rollout.Action.{Outcome, done, panic}
use rudr_x.Rollout.Batches.Bounds.{last_index}
use rudr_x.Rollout.Plan.{initialized_status}
use rudr_x.Rollout.Plan.Control.{reconcile-IsSound}
use rudr_x.Rollout.Plan.Ensures.{Ensures, Obeys}
use rudr_x.Rollout.Plan.Safety.{IsSound}
use rudr_x.Rollout.Selection.{ControllerKind, Workload}
use rudr_x.Rollout.Types.{RolloutStatus, Runtime, app_located_event}
use rudr_x.Rollout.Webhook.{Http}

-- The plan is the same, and the status is sound for it.
abbrev pub KeptSound : AppRollout → ℕ × AppRollout → Type 0
KeptSound a (seconds, a') =
    (a'.rollout_plan ≡ a.rollout_plan) × IsSound a.rollout_plan a'.rollout_status

planned-Lands :
    {W : Type 0} (P : RolloutStatus → Type 0) (o : Outcome (ℕ × RolloutStatus × W))
    → Ensures o (λ _ r. P r)
    → Lands ⊥
        (λ (x : ℕ × RolloutStatus). P x.1)
        (elim o [ panic ↦ panic | done (seconds, r, w') ↦ done (ok (seconds, r), w') ])
unfolding Lands
planned-Lands P panic h = h
planned-Lands P (done (seconds, r, w)) h = h

with_status-KeptSound :
    (r : RolloutStatus) (seconds : ℕ) (a : AppRollout)
    → IsSound a.rollout_plan r
    → KeptSound a (seconds, with_status r a)
unfolding with_status marked
with_status-KeptSound r seconds a h = elim (Bool-cases (is_abandoning r.rolling_state)) [
  | inl e ↦ rw e (refl, h)
  | inr e ↦ rw e (refl, h)
]

module _ {W Patch : Type 0} (rt : Runtime) (http : Http W) (controllers : Controllers W)
    (lib : Library Patch) (api : RolloutApi W Patch) (asm : Assembler) (now : ℕ) where
  module _ (a : AppRollout)
      (obeys : (target : Workload) (source : Option Workload) (kind : ControllerKind)
        → Obeys a.rollout_plan (controllers a.rollout_plan now target source kind))
      (fits : IsInt32 (last_index a.rollout_plan)) where
    plans :
        (workloads : Option Manifest × Manifest) (w : W)
        → IsSound a.rollout_plan a.rollout_status
        → is_locating a.rollout_status.rolling_state ≡ false
        → Lands ⊥
            (λ x. IsSound a.rollout_plan x.1)
            (reconcile_plan rt http controllers lib api asm now a workloads w)
    unfolding reconcile_plan initialized_status
    plans (source, target) w h elsewhere = planned-Lands (IsSound a.rollout_plan) _ (
        reconcile-IsSound rt http _ a.rollout_plan now _ _ _ _ w (obeys _ _) fits
          (initialized-IsSound a.rollout_plan a.rollout_status h)
          (reconciled-unless_locating a.rollout_status.rolling_state h.known elsewhere))

    finishes :
        (revs : RoundRevisions) (c : String) (p : Prepared) (x : ℕ × RolloutStatus) (w : W)
        → Covers revs c p
        → IsSound a.rollout_plan x.1
        → Lands ⊥ (KeptSound a) (finish rt http controllers lib api asm now c p a x w)
    unfolding finish
    finishes revs c p (seconds, r) w covers h =
        let result = λ (w : W).
          called-Lands ⊥ (KeptSound a) (ok (seconds, with_status r a), w)
            (with_status-KeptSound r seconds a h) in
        elim (Bool-cases (is_succeeded r.rolling_state)) [
          | inl e ↦ rw e (
              after-Lands ⊥ (λ _. Unit {0}) (KeptSound a) _ _ (finalizes lib api revs c p w covers)
                (λ u w₁ t. result w₁))
          | inr e ↦ rw e (result w)
        ]

    rolls :
        (revs : RoundRevisions) (c : String) (p : Prepared) (w : W)
        → Covers revs c p
        → IsSound a.rollout_plan a.rollout_status
        → is_locating a.rollout_status.rolling_state ≡ false
        → Lands ⊥ (KeptSound a) (roll rt http controllers lib api asm now revs c p a w)
    unfolding roll
    rolls revs c p w covers h elsewhere =
        after-Lands ⊥ (λ _. Unit {0}) (KeptSound a) _ _ (fetches lib api revs c p w covers)
          (λ workloads w₁ u.
            after-Lands ⊥ (λ x. IsSound a.rollout_plan x.1) (KeptSound a) _ _
              (plans workloads w₁ h elsewhere) (λ x w₂ sound. finishes revs c p x w₂ covers sound))

    locates :
        (revs : RoundRevisions) (c : String) (p : Prepared) (w : W)
        → Covers revs c p
        → IsSound a.rollout_plan a.rollout_status
        → Lands ⊥ (KeptSound a) (locate rt http controllers lib api asm now c p a w)
    unfolding locate with_event
    locates revs c p w covers h =
        after-Lands ⊥ (λ _. Unit {0}) (KeptSound a) _ _ (templates_source lib api revs c p w covers)
          (λ u w₁ t.
            after-Lands ⊥ (λ _. Unit {0}) (KeptSound a) _ _
              (templates_target lib api a revs c p w₁ covers)
              (λ u w₂ t.
                called-Lands ⊥ (KeptSound a) (ok (3, with_event rt now app_located_event a), w₂)
                  (refl, located-IsSound rt now a.rollout_plan a.rollout_status h)))

    round-Lands :
        (revs : RoundRevisions) (c : String) (p : Prepared) (w : W)
        → Covers revs c p
        → IsSound a.rollout_plan a.rollout_status
        → Lands ⊥ (KeptSound a) (rolling_round rt http controllers lib api asm now revs c p a w)
    unfolding rolling_round
    round-Lands revs c p w covers h =
        elim (Bool-cases (is_locating a.rollout_status.rolling_state)) [
          | inl e ↦ rw e (locates revs c p w covers h)
          | inr e ↦ rw e (rolls revs c p w covers h e)
        ]

  -- A round of the rollout controller, `DoReconcile`, does not panic, whatever the API server and the
  -- webhooks answer: with a plan that has a batch and whose batches have `int32` indices, workload
  -- controllers that obey the contract of their interface, and revisions that have the component
  -- that the rollout names, if it names one. Where it succeeds, the plan is as it was and the status
  -- that it leaves is sound, if the status was sound or had no state yet.
  pub do_reconcile-IsSound :
      (given : AppRollout) (w : W)
      → ((target : Workload) (source : Option Workload) (kind : ControllerKind)
          → Obeys given.rollout_plan (controllers given.rollout_plan now target source kind))
      → IsInt32 (last_index given.rollout_plan)
      → pos 0 ≤ℤ last_index given.rollout_plan
      → Groups asm given.component_list
      → StartsFrom given.rollout_plan given.rollout_status
      → Lands ⊥ (KeptSound given) (do_reconcile rt http controllers lib api asm now given w)
  unfolding do_reconcile started
  do_reconcile-IsSound given w obeys fits some_batch groups h =
      let a = started given in
      let sound = started-IsSound given some_batch h in
      let (same, kept) = round_revisions-IsSound rt now a sound in
      let revs = (round_revisions rt now a).0 in
      let a' = (round_revisions rt now a).1 in
      elim (Bool-cases (handle_rolling_terminated a)) [
        | inl e ↦ rw e (called-Lands ⊥ (KeptSound given) (ok (0, a), w) (refl, sound))
        | inr e ↦ rw e (
            after-Lands ⊥ (PreparedBy asm revs) (KeptSound given) _ _
              (called-Lands ⊥ (PreparedBy asm revs) (prepare_rollout api asm revs a.namespace w)
                (prepare_rollout-PreparedBy api asm revs a.namespace w))
              (λ p w₁ prepared.
                after-Lands ⊥ (λ c. determine_rollout_component a.component_list p ≡ ok c)
                  (KeptSound given) _ _
                  (called-Lands ⊥ _ (determine_rollout_component a.component_list p, w₁)
                    (returned-Post (determine_rollout_component a.component_list p) w₁))
                  (λ c w₂ chosen.
                    Lands-mono ⊥ (KeptSound a') (KeptSound given) _
                      (λ x k. (k.0 ∙ same, subst (λ s. IsSound s x.1.rollout_status) same k.1))
                      (round-Lands a'
                        (λ target source kind.
                          subst (λ s. Obeys s (controllers s now target source kind)) (sym same)
                            (obeys target source kind))
                        (subst (λ s. IsInt32 (last_index s)) (sym same) fits) revs c p w₂
                        (determine-Covers asm a.component_list revs p groups prepared chosen)
                        (subst (λ s. IsSound s a'.rollout_status) (sym same) kept)))))
      ]
