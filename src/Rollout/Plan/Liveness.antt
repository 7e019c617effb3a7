-- ===== src/Rollout/Plan/Liveness.antt =====
-- A round of a rollout that goes well.
use mathlib.Core.Path.{subst}
use rudr_x.Base.{
  All, Bool, Bool-cases, List, String, arith, false, inl, inr, refl, sym, true, ℕ, ◌∙◌, ◌≡◌, ◌≢◌,
}
use rudr_x.Base.Int.{IsInt32, eq_of_parts, int_laws, ◌==ℤ◌, ◌≤ℤ◌}
use rudr_x.Rollout.Action.{Action, Result, WorkloadController, err, ok, when, ◌>>=◌}
use rudr_x.Rollout.Batches.Bounds.{last_index}
use rudr_x.Rollout.Plan.{
  batch_switch, call_webhooks, finalize_one_batch, finalize_rollout, gather_all_webhooks,
  initialize_one_batch, initialize_rollout, may_move, next_event, on_answer,
  reconcile_batch_in_rolling, rolling_switch, transition, try_moving_to_next_batch,
}
use rudr_x.Rollout.Plan.Ensures.{InRange, Leads, SamePlace, batch_at_in_range, leads_bind}
use rudr_x.Rollout.Plan.Progress.{
  Advances, Advances-OnWay, Advances-left, Nearer, OnWay, SamePlace-OnWay, SamePlace-left,
  is_forward,
}
use rudr_x.Rollout.Plan.Promises.{
  Accepts, All-append, All-at, Answers, HooksAccept, IsAccepting, IsAutomatic, hooks_accepted,
}
use rudr_x.Rollout.Plan.Safety.{is_batch_step}
use rudr_x.Rollout.Status.{state_transition}
use rudr_x.Rollout.Texts.{rolling_text}
use rudr_x.Rollout.Types.{
  BatchRollingState, HookType, RollingState, RolloutEvent, RolloutPlan, RolloutStatus,
  RolloutWebhook, Runtime, all_batch_finished_event, batch_finalizing_state, batch_in_rolling_state,
  batch_initializing_state, batch_ready_state, batch_rollout_failed_state, batch_verifying_state,
  batches, finalising_state, finalize_rollout_hook, initialize_rollout_hook, initializing_state,
  locating_target_app_state, one_batch_available_event, other_batch_rolling_state,
  other_rolling_state, post_batch_rollout_hook, pre_batch_rollout_hook, rolling_in_batches_state,
  rolling_initialized_event, rolling_spec_verified_event, rollout_abandoning_state,
  rollout_deleting_state, rollout_failed_state, rollout_failing_state, rollout_one_batch_event,
  rollout_succeed_state, verifying_spec_state,
}
use rudr_x.Rollout.Webhook.{Http, Parent}

module _ {W : Type 0} (rt : Runtime) (http : Http W) (parent : Parent) (spec : RolloutPlan)
    (now : ℕ) (accepting : HooksAccept http parent spec) where
  module _ (fits : IsInt32 (last_index spec)) (automatic : IsAutomatic spec)
      (Good : RolloutStatus → W → Type 0) (wc : WorkloadController W)
      (accepts : Accepts rt http parent spec Good now wc) where
    -- One round nearer to success, and all is well.
    abbrev pub Goes : RolloutStatus → Unit {0} → RolloutStatus → W → Type 0
    Goes r u r' w' = Nearer spec r r' × Good r' w'

    advances :
        (r r' : RolloutStatus) (w : W) {e : RolloutEvent} (b : Bool)
        → OnWay spec r
        → SamePlace r r'
        → Advances rt http parent spec now r' e
        → Good (state_transition rt now e r') w
        → b ≡ true
        → Leads (when b (transition rt http parent spec now e) r' w) (Goes r)
    unfolding transition
    advances r r' w true h same a good e =
        let h' = SamePlace-OnWay spec r r' same h in
        (
          (
            Advances-OnWay rt http parent spec now r' fits h' a,
            Advances-left rt http parent spec now r' fits h' a ∙ SamePlace-left spec r r' same,
          ),
          good,
        )
    advances r r' w false h same a good e = cc

    accepted_then :
        (event : RolloutEvent) (op : Action W (Result Bool)) (next : Action W (Unit {0}))
        (r r0 : RolloutStatus) (w : W) (failed : String → RolloutStatus → RolloutStatus)
        → Answers rt http parent spec Good now (ok true) r0 event (op r0 w)
        → ((r' : RolloutStatus) (w' : W)
            → SamePlace r0 r'
            → Good (state_transition rt now event r') w'
            → Leads (next r' w') (Goes r))
        → Leads ((op >>= on_answer failed next) r0 w) (Goes r)
    unfolding on_answer
    accepted_then event op next r r0 w failed returns k = leads_bind (op r0 w) _ _ _ returns go
      where
        go :
            (a : Result Bool) (r' : RolloutStatus) (w' : W)
            → (a ≡ ok true) × SamePlace r0 r' × Good (state_transition rt now event r') w'
            → Leads (on_answer failed next a r' w') (Goes r)
        go (err m) r' w' h = cc
        go (ok true) r' w' h = k r' w' h.1 h.2
        go (ok false) r' w' h = cc

    hooks_then :
        (P : RolloutStatus → RolloutStatus) (want : HookType) (phase reason : String)
        (hs : List RolloutWebhook) (r r0 : RolloutStatus) (w : W)
        (next : Bool → Action W (Unit {0}))
        → All (IsAccepting http parent) hs
        → Good (P r0) w
        → ((b : Bool) (w' : W) → b ≡ true → Good (P r0) w' → Leads (next b r0 w') (Goes r))
        → Leads
            ((call_webhooks rt http parent spec now want phase reason hs >>= next) r0 w)
            (Goes r)
    hooks_then P want phase reason hs r r0 w next all good k =
        leads_bind (call_webhooks rt http parent spec now want phase reason hs r0 w) _ _ _
          (hooks_accepted rt http parent spec now accepting (λ w'. Good (P r0) w')
            (λ phase' h w' g. accepts.hooked phase' h (P r0) w' g) want phase reason hs r0 w all
            good)
          (λ b r' w' h. rw h.1 (k b w' h.0 h.2))

    gathered_hooks :
        (r : RolloutStatus) (w : W)
        → InRange spec r
        → Leads
            (gather_all_webhooks rt http parent spec now r w)
            (λ hs r' w'. All (IsAccepting http parent) hs × (r' ≡ r) × (w' ≡ w))
    unfolding gather_all_webhooks
    gathered_hooks r w range =
        let (b, e) =
          batch_at_in_range (batches spec) r.current_batch range.0 (omega (int_laws, range.1)) in
        rw e (
          All-append (IsAccepting http parent) spec.rollout_webhooks b.batch_rollout_webhooks
              accepting.of_plan
              (All-at (λ b'. All (IsAccepting http parent) b'.batch_rollout_webhooks) (batches spec)
                r.current_batch accepting.of_batches e),
          refl,
          refl,
        )

    gathered_then :
        (r r0 : RolloutStatus) (w : W) (next : List RolloutWebhook → Action W (Unit {0}))
        → InRange spec r0
        → ((hs : List RolloutWebhook)
            → All (IsAccepting http parent) hs
            → Leads (next hs r0 w) (Goes r))
        → Leads ((gather_all_webhooks rt http parent spec now >>= next) r0 w) (Goes r)
    gathered_then r r0 w next range k =
        leads_bind (gather_all_webhooks rt http parent spec now r0 w) _ _ _
          (gathered_hooks r0 w range) (λ hs r' w' h. rw (h.1, h.2) (k hs h.0))

    -- The place after two groups of calls that keep it.
    abbrev trans : (r r' r2 : RolloutStatus) → SamePlace r r' → SamePlace r' r2 → SamePlace r r2
    trans r r' r2 p q = (q.0 ∙ p.0, q.1 ∙ p.1, q.2 ∙ p.2)

    module _ (r : RolloutStatus) (h : OnWay spec r) where
      in_range : InRange spec r
      in_range = (h.sound.low, h.sound.high)

      finishing_event :
          (r' : RolloutStatus)
          → r.rolling_state ≡ rolling_in_batches_state
          → r.batch_rolling_state ≡ batch_finalizing_state
          → SamePlace r r'
          → Advances rt http parent spec now r' (next_event spec r'.current_batch)
      unfolding next_event
      finishing_event r' p q same =
          let high : r'.current_batch ≤ℤ last_index spec = rw same.2 h.sound.high in
          elim (Bool-cases (r'.current_batch ==ℤ last_index spec)) [
            | inl last ↦ simp last (
                Advances.finished_all (same.0 ∙ p) (same.1 ∙ q)
                  (eq_of_parts r'.current_batch (last_index spec) (ground arith)))
            | inr more ↦
                simp more (Advances.finished (same.0 ∙ p) (same.1 ∙ q) (ground (arith, high)))
          ]

      batch_cases :
          (b : BatchRollingState) (w : W)
          → Good r w
          → r.rolling_state ≡ rolling_in_batches_state
          → r.batch_rolling_state ≡ b
          → is_batch_step b ≡ true
          → Leads (batch_switch rt http parent spec now wc b r w) (Goes r)
      unfolding batch_switch initialize_one_batch try_moving_to_next_batch finalize_one_batch
      batch_cases batch_initializing_state w good p q step =
          gathered_then r r w _ in_range (λ hs all.
            hooks_then (λ r'. r') pre_batch_rollout_hook "batchInitializing"
              "failed to invoke a webhook" hs r r w _ all good
              (λ b w' e good'.
                advances r r w' b h (refl, refl, refl) (Advances.batch_initialized p q)
                  (accepts.batch_initializing r w' ((h, good', p), q)) e))
      batch_cases batch_in_rolling_state w good p q step =
          accepted_then rollout_one_batch_event wc.rollout_one_batch_pods _ r r w _
            (accepts.batch_rolling r w ((h, good, p), q))
            (λ r' w' same good'.
              advances r r' w' true h same (Advances.rolled (same.0 ∙ p) (same.1 ∙ q)) good' refl)
      batch_cases batch_verifying_state w good p q step =
          accepted_then one_batch_available_event wc.check_one_batch_pods _ r r w _
            (accepts.batch_verifying r w ((h, good, p), q))
            (λ r' w' same good'.
              advances r r' w' true h same (Advances.available (same.0 ∙ p) (same.1 ∙ q)) good'
                refl)
      batch_cases batch_finalizing_state w good p q step =
          accepted_then (next_event spec r.current_batch) wc.finalize_one_batch _ r r w _
            (accepts.batch_finalizing r w ((h, good, p), q))
            (λ r' w' same good'. gathered_then r r' w' _ (rw same.2 in_range) (λ hs all.
              hooks_then (state_transition rt now (next_event spec r.current_batch))
                post_batch_rollout_hook "batchFinalizing" "failed to invoke a webhook" hs r r' w' _
                all good'
                (λ b w2 e good2.
                  advances r r' w2 b h same (finishing_event r' p q same)
                    (subst (λ i. Good (state_transition rt now (next_event spec i) r') w2)
                      (sym same.2) good2)
                    e)))
      batch_cases batch_ready_state w good p q step =
          advances r r w (may_move spec.batch_partition r.current_batch) h (refl, refl, refl)
            (Advances.approved p q (automatic.unparted r.current_batch (h.sound.more p q)))
            (accepts.batch_ready r w ((h, good, p), q))
            (automatic.unparted r.current_batch (h.sound.more p q))
      batch_cases batch_rollout_failed_state w good p q step = cc
      batch_cases (other_batch_rolling_state s) w good p q step = cc

      batches_roll :
          (w : W)
          → Good r w
          → r.rolling_state ≡ rolling_in_batches_state
          → Leads (reconcile_batch_in_rolling rt http parent spec now wc r w) (Goes r)
      unfolding reconcile_batch_in_rolling
      batches_roll w good p =
          simp automatic.running
            (batch_cases r.batch_rolling_state w good p refl (h.sound.in_step p))

      pub forward_cases :
          (s : RollingState) (w : W)
          → Good r w
          → r.rolling_state ≡ s
          → is_forward s ≡ true
          → s ≢ rollout_succeed_state
          → Leads (rolling_switch rt http parent spec now wc s r w) (Goes r)
      unfolding rolling_switch initialize_rollout finalize_rollout
      forward_cases verifying_spec_state w good p f g =
          accepted_then rolling_spec_verified_event wc.verify_spec _ r r w _
            (accepts.verifying r w (h, good, p))
            (λ r' w' same good'.
              advances r r' w' true h same (Advances.verified (same.0 ∙ p)) good' refl)
      forward_cases initializing_state w good p f g =
          hooks_then (λ r'. r') initialize_rollout_hook "initializing" "failed to invoke a webhook"
            spec.rollout_webhooks r r w _ accepting.of_plan good
            (λ b w' e good'. rw e (
              accepted_then rolling_initialized_event wc.initialize _ r r w' _
                (accepts.initializing r w' (h, good', p))
                (λ r2 w2 same good2.
                  advances r r2 w2 true h same (Advances.initialized (same.0 ∙ p)) good2 refl)))
      forward_cases rolling_in_batches_state w good p f g = batches_roll w good p
      forward_cases finalising_state w good p f g =
          leads_bind (wc.finalize true r w) _ _ _ (accepts.finalising r w (h, good, p))
            (λ b r' w' e. rw e.0 (
              hooks_then (state_transition rt now all_batch_finished_event) finalize_rollout_hook
                (rolling_text r'.rolling_state) "failed to invoke a post rollout webhook"
                spec.rollout_webhooks r r' w' _ accepting.of_plan e.2
                (λ b2 w2 e2 good2.
                  advances r r' w2 b2 h e.1 (Advances.finalized (e.1.0 ∙ p)) good2 e2)))
      forward_cases rollout_succeed_state w good p f g = absurd (g refl)
      forward_cases rollout_failing_state w good p f g = cc
      forward_cases rollout_abandoning_state w good p f g = cc
      forward_cases rollout_deleting_state w good p f g = cc
      forward_cases rollout_failed_state w good p f g = cc
      forward_cases locating_target_app_state w good p f g = cc
      forward_cases (other_rolling_state s) w good p f g = cc
