-- ===== src/AppRollout/Rest.antt =====
-- A rollout that is over is left alone.
use rudr_x.Base.{Bool-cases, String, arith, eq_iff, false, inl, inr, refl, true, ℕ, ◌≡◌}
use rudr_x.AppRollout.{
  Controllers, do_reconcile, finish, is_abandoning, is_locating, is_succeeded, locate,
  reconcile_plan, roll, rolling_round, started, started_status, with_status,
}
use rudr_x.AppRollout.Changes.{
  RoundRevisions, handle_rolling_terminated, is_ended, marked, round_revisions, same_revisions,
  same_size, with_event,
}
use rudr_x.AppRollout.Handler.{Prepared, determine_rollout_component, prepare_rollout}
use rudr_x.AppRollout.Landing.{Lands, after-Lands, called-Lands, landed, whatever-Lands}
use rudr_x.AppRollout.Templates.{
  fetch_source_and_target_workload, finalize_rolling_succeeded, template_source_manifest,
  template_target_manifest,
}
use rudr_x.AppRollout.Types.{AppRollout, Assembler, RolloutApi, called}
use rudr_x.Apply.{Library}
use rudr_x.Cluster.Calls.{ok, returned}
use rudr_x.Rollout.Action.{done}
use rudr_x.Rollout.Status.{state_transition}
use rudr_x.Rollout.Types.{RollingState, RolloutStatus, Runtime, app_located_event}
use rudr_x.Rollout.Webhook.{Http}

-- If it is over, with the size that is asked for, then the next round sees that.
abbrev Rested : ℕ × AppRollout → Type 0
Rested (seconds, a) =
    is_ended a.rollout_status.rolling_state ≡ true
    → same_size a ≡ true
    → handle_rolling_terminated a ≡ true

ended-steady : (s : RollingState) → is_ended s ≡ true → is_abandoning s ≡ false
unfolding is_ended is_abandoning
ended-steady s h = ground arith

ended-started : (r : RolloutStatus) → is_ended r.rolling_state ≡ true → started_status r ≡ r
unfolding is_ended started_status
ended-started r h = ground arith

marked-same : (a : AppRollout) → same_revisions (marked a) ≡ true
unfolding same_revisions marked
marked-same a = ground (
  arith,
  eq_iff a.target_app_revision_name a.target_app_revision_name,
  eq_iff a.source_app_revision_name a.source_app_revision_name,
)

with_status-Rested :
    (r : RolloutStatus) (seconds : ℕ) (a : AppRollout) → Rested (seconds, with_status r a)
unfolding with_status handle_rolling_terminated
with_status-Rested r seconds a = elim (Bool-cases (is_abandoning r.rolling_state)) [
  | inl e ↦ rw e (λ ended size. absurd (ground (arith, ended-steady r.rolling_state)))
  | inr e ↦
      rw e (λ ended size. rw (ended, size, marked-same (record a { rollout_status = r })) refl)
]

located-running :
    (rt : Runtime) (now : ℕ) (a : AppRollout)
    → is_locating a.rollout_status.rolling_state ≡ true
    → is_ended (with_event rt now app_located_event a).rollout_status.rolling_state ≡ false
unfolding is_locating is_ended with_event state_transition
located-running rt now a h = ground arith

module _ {W Patch : Type 0} (rt : Runtime) (http : Http W) (controllers : Controllers W)
    (lib : Library Patch) (api : RolloutApi W Patch) (asm : Assembler) (now : ℕ) where
  finish-Rested :
      (c : String) (p : Prepared) (a : AppRollout) (x : ℕ × RolloutStatus) (w : W)
      → Lands (Unit {0}) Rested (finish rt http controllers lib api asm now c p a x w)
  unfolding finish
  finish-Rested c p a (seconds, r) w =
      let result = λ (w : W).
        called-Lands (Unit {0}) Rested (ok (seconds, with_status r a), w)
          (with_status-Rested r seconds a) in
      elim (Bool-cases (is_succeeded r.rolling_state)) [
        | inl e ↦ rw e (
            after-Lands (Unit {0}) (λ _. Unit {0}) Rested _ _
              (whatever-Lands (finalize_rolling_succeeded lib api c p w)) (λ u w₁ t. result w₁))
        | inr e ↦ rw e (result w)
      ]

  roll-Rested :
      (revs : RoundRevisions) (c : String) (p : Prepared) (a : AppRollout) (w : W)
      → Lands (Unit {0}) Rested (roll rt http controllers lib api asm now revs c p a w)
  unfolding roll
  roll-Rested revs c p a w =
      after-Lands (Unit {0}) (λ _. Unit {0}) Rested _ _
        (whatever-Lands (fetch_source_and_target_workload lib api revs c p w))
        (λ workloads w₁ u.
          after-Lands (Unit {0}) (λ _. Unit {0}) Rested _ _
            (whatever-Lands (reconcile_plan rt http controllers lib api asm now a workloads w₁))
            (λ x w₂ u. finish-Rested c p a x w₂))

  locate-Rested :
      (c : String) (p : Prepared) (a : AppRollout) (w : W)
      → is_locating a.rollout_status.rolling_state ≡ true
      → Lands (Unit {0}) Rested (locate rt http controllers lib api asm now c p a w)
  unfolding locate
  locate-Rested c p a w h =
      after-Lands (Unit {0}) (λ _. Unit {0}) Rested _ _
        (whatever-Lands (template_source_manifest lib api c p w))
        (λ u w₁ t.
          after-Lands (Unit {0}) (λ _. Unit {0}) Rested _ _
            (whatever-Lands (template_target_manifest lib api a c p w₁))
            (λ u w₂ t.
              called-Lands (Unit {0}) Rested (ok (3, with_event rt now app_located_event a), w₂)
                (λ ended size. absurd (ground (arith, located-running rt now a h)))))

  round-Rested :
      (revs : RoundRevisions) (c : String) (p : Prepared) (a : AppRollout) (w : W)
      → Lands (Unit {0}) Rested (rolling_round rt http controllers lib api asm now revs c p a w)
  unfolding rolling_round
  round-Rested revs c p a w = elim (Bool-cases (is_locating a.rollout_status.rolling_state)) [
    | inl e ↦ rw e (locate-Rested c p a w e)
    | inr e ↦ rw e (roll-Rested revs c p a w)
  ]

  do_reconcile-Rested :
      (given : AppRollout) (w : W)
      → Lands (Unit {0}) Rested (do_reconcile rt http controllers lib api asm now given w)
  unfolding do_reconcile
  do_reconcile-Rested given w =
      let a = started given in
      let revs = (round_revisions rt now a).0 in
      let a' = (round_revisions rt now a).1 in
      elim (Bool-cases (handle_rolling_terminated a)) [
        | inl e ↦ rw e (called-Lands (Unit {0}) Rested (ok (0, a), w) (λ ended size. e))
        | inr e ↦ rw e (
            after-Lands (Unit {0}) (λ _. Unit {0}) Rested _ _
              (whatever-Lands (called (prepare_rollout api asm revs a.namespace) w))
              (λ p w₁ u.
                after-Lands (Unit {0}) (λ _. Unit {0}) Rested _ _
                  (whatever-Lands
                    (called (returned (determine_rollout_component a.component_list p)) w₁))
                  (λ c w₂ u. round-Rested revs c p a' w₂)))
      ]

  do_reconcile-over :
      (a : AppRollout) (w : W)
      → is_ended a.rollout_status.rolling_state ≡ true
      → handle_rolling_terminated a ≡ true
      → do_reconcile rt http controllers lib api asm now a w ≡ done (ok (0, a), w)
  unfolding do_reconcile started
  do_reconcile-over a w ended over = rw (ended-started a.rollout_status ended, over) refl

module _ {W Patch : Type 0} (rt : Runtime) (http : Http W) (controllers : Controllers W)
    (lib : Library Patch) (api : RolloutApi W Patch) (asm : Assembler) where
  -- A round that ends with the rollout succeeded or failed, with the size that the plan asks for, if it
  -- asks for one, is the last: the next one, whatever the clock reads and whatever happened outside,
  -- returns at once, does nothing outside and leaves the object as it is.
  pub do_reconcile-rests :
      (now later : ℕ) (given : AppRollout) (w : W) {seconds : ℕ} {a : AppRollout} {w₁ : W} (w₂ : W)
      → do_reconcile rt http controllers lib api asm now given w ≡ done (ok (seconds, a), w₁)
      → is_ended a.rollout_status.rolling_state ≡ true
      → same_size a ≡ true
      → do_reconcile rt http controllers lib api asm later a w₂ ≡ done (ok (0, a), w₂)
  do_reconcile-rests now later given w {a = a} w₂ h ended size =
      do_reconcile-over rt http controllers lib api asm later a w₂ ended (
        landed (Unit {0}) Rested (do_reconcile rt http controllers lib api asm now given w)
          (do_reconcile-Rested rt http controllers lib api asm now given w) h ended size)
