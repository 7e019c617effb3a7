-- ===== src/Rollout/Plan/Round.antt =====
-- The cases of `Reconcile`, by the rule for one round.
use rudr_x.Base.{Bool, Option, String, false, inl, inr, refl, true, ℕ, ◌∙◌, ◌≡◌}
use rudr_x.Rollout.Action.{Result, WorkloadController, done, err, ok, when, ◌>>=◌}
use rudr_x.Rollout.Selection.{ControllerKind, Workload, chosen, get_workload_controller}
use rudr_x.Rollout.Plan.{
  batch_switch, call_webhooks, finalize_one_batch, finalize_rollout, initialize_one_batch,
  initialize_rollout, may_move, next_event, on_answer, reconcile, reconcile_batch_in_rolling,
  reconcile_with, requeue_after, rolling_switch, transition, try_moving_to_next_batch,
}
use rudr_x.Rollout.Plan.Ensures.{
  Ensures, Obeys, SamePlace, call_webhooks-SamePlace, ensures_bind, ensures_if,
}
use rudr_x.Rollout.Plan.Rule.{Closed, answered, finishing, gathered, sends, hooks_called}
use rudr_x.Rollout.Plan.Safety.{
  IsSound, approved, available, batch_initialized, finalized, initialized, is_batch_step,
  is_finalized, is_reconciled, rolled, verified,
}
use rudr_x.Rollout.Texts.{rolling_text}
use rudr_x.Rollout.Status.{rollout_failed, rollout_failing}
use rudr_x.Rollout.Types.{
  BatchRollingState, RollingState, RolloutPlan, RolloutStatus, Runtime, batch_finalizing_state,
  batch_in_rolling_state, batch_initializing_state, batch_ready_state, batch_rollout_approved_event,
  batch_rollout_failed_state, batch_verifying_state, finalising_state, finalize_rollout_hook,
  initialize_rollout_hook, initialized_one_batch_event, initializing_state,
  locating_target_app_state, one_batch_available_event, other_batch_rolling_state,
  other_rolling_state, post_batch_rollout_hook, pre_batch_rollout_hook, rolling_finalized_event,
  rolling_in_batches_state, rolling_initialized_event, rolling_spec_verified_event,
  rollout_abandoning_state, rollout_deleting_state, rollout_failed_state, rollout_failing_state,
  rollout_one_batch_event, rollout_succeed_state, verifying_spec_state,
}
use rudr_x.Rollout.Webhook.{Http, Parent}

module _ {W : Type 0} (rt : Runtime) (http : Http W) (parent : Parent) (spec : RolloutPlan)
    (now : ℕ) (r : RolloutStatus) (P : RolloutStatus → Type 0)
    (closed : Closed rt http parent spec now r P) (sound : IsSound spec r) where
  module _ (wc : WorkloadController W) (obeys : Obeys spec wc) where
    here : SamePlace r r
    here = (refl, refl, refl)

    batch_cases :
        (b : BatchRollingState) (w : W)
        → r.rolling_state ≡ rolling_in_batches_state
        → r.batch_rolling_state ≡ b
        → is_batch_step b ≡ true
        → Ensures (batch_switch rt http parent spec now wc b r w) (λ _ r'. P r')
    unfolding batch_switch initialize_one_batch try_moving_to_next_batch finalize_one_batch
        transition
    batch_cases batch_initializing_state w p q step =
        gathered rt http parent spec now r P closed sound r w _ here (λ hs r' w' same.
          hooks_called rt http parent spec now r P closed sound pre_batch_rollout_hook
            "batchInitializing" "failed to invoke a webhook" hs r' w'
            (λ _. initialized_one_batch_event) same
            (λ r2 same2. batch_initialized (same2.0 ∙ p) (same2.1 ∙ q)))
    batch_cases batch_in_rolling_state w p q step =
        answered rt http parent spec now r P closed sound wc.rollout_one_batch_pods _ r w _
          obeys.rollout_one_batch_pods here (λ m r' same. closed.failing m r' same (inr p))
          (λ r' w' same.
            closed.sent r' rollout_one_batch_event same (rolled (same.0 ∙ p) (same.1 ∙ q)))
    batch_cases batch_verifying_state w p q step =
        answered rt http parent spec now r P closed sound wc.check_one_batch_pods _ r w _
          obeys.check_one_batch_pods here (λ m r' same. closed.failing m r' same (inr p))
          (λ r' w' same.
            closed.sent r' one_batch_available_event same (available (same.0 ∙ p) (same.1 ∙ q)))
    batch_cases batch_finalizing_state w p q step =
        answered rt http parent spec now r P closed sound wc.finalize_one_batch _ r w _
          obeys.finalize_one_batch here (λ m r' same. closed.failing m r' same (inr p))
          (λ r' w' same.
            gathered rt http parent spec now r P closed sound r' w' _ same (λ hs r2 w2 same2.
              hooks_called rt http parent spec now r P closed sound post_batch_rollout_hook
                "batchFinalizing" "failed to invoke a webhook" hs r2 w2
                (λ r3. next_event spec r3.current_batch) same2
                (λ r3 same3. finishing rt http parent spec now r P closed sound r3 p q same3)))
    batch_cases batch_ready_state w p q step =
        sends rt http parent spec now r P closed sound r w
          (may_move spec.batch_partition r.current_batch) batch_rollout_approved_event here
          (approved p q)
    batch_cases batch_rollout_failed_state w p q step = cc
    batch_cases (other_batch_rolling_state s) w p q step = cc

    batches_roll :
        (w : W)
        → r.rolling_state ≡ rolling_in_batches_state
        → Ensures (reconcile_batch_in_rolling rt http parent spec now wc r w) (λ _ r'. P r')
    unfolding reconcile_batch_in_rolling
    batches_roll w p =
        ensures_if spec.paused _ _ (λ _ r'. P r') (closed.same _ (refl, refl, refl))
          (batch_cases r.batch_rolling_state w p refl (sound.in_step p))

    ends :
        (well : Bool) (w : W)
        → is_finalized r.rolling_state ≡ true
        → Ensures
            ((wc.finalize well >>= λ succeeded.
                when succeeded (finalize_rollout rt http parent spec now))
              r w)
            (λ _ r'. P r')
    unfolding finalize_rollout
    ends well w p =
        ensures_bind (wc.finalize well r w) _ (λ _ r'. SamePlace r r') _
          (obeys.finalize well r w (sound.low, sound.high)) go
      where
        go :
            (b : Bool) (r' : RolloutStatus) (w' : W)
            → SamePlace r r'
            → Ensures (when b (finalize_rollout rt http parent spec now) r' w') (λ _ r2. P r2)
        go true r' w' same =
            hooks_called rt http parent spec now r P closed sound finalize_rollout_hook
              (rolling_text r'.rolling_state) "failed to invoke a post rollout webhook"
              spec.rollout_webhooks r' w' (λ _. rolling_finalized_event) same
              (λ r2 same2. finalized (rw same2.0 p))
        go false r' w' same = closed.same r' same

    rolling_cases :
        (s : RollingState) (w : W)
        → r.rolling_state ≡ s
        → is_reconciled s ≡ true
        → Ensures (rolling_switch rt http parent spec now wc s r w) (λ _ r'. P r')
    unfolding rolling_switch initialize_rollout transition
    rolling_cases verifying_spec_state w p c =
        answered rt http parent spec now r P closed sound wc.verify_spec _ r w _ obeys.verify_spec
          here (λ m r' same. closed.failed m r' same p)
          (λ r' w' same. closed.sent r' rolling_spec_verified_event same (verified (same.0 ∙ p)))
    rolling_cases initializing_state w p c =
        ensures_bind
          (call_webhooks rt http parent spec now initialize_rollout_hook "initializing"
            "failed to invoke a webhook" spec.rollout_webhooks r w)
          _ (λ _ r'. SamePlace r r') _
          (call_webhooks-SamePlace rt http parent spec now initialize_rollout_hook "initializing"
            "failed to invoke a webhook" spec.rollout_webhooks r w)
          go
      where
        go :
            (b : Bool) (r' : RolloutStatus) (w' : W)
            → SamePlace r r'
            → Ensures
                (when b
                  (wc.initialize
                    >>= on_answer
                        (rollout_failing rt now)
                        (transition rt http parent spec now rolling_initialized_event))
                  r'
                  w')
                (λ _ r2. P r2)
        go true r' w' same =
            answered rt http parent spec now r P closed sound wc.initialize _ r' w' _
              obeys.initialize same (λ m r2 same2. closed.failing m r2 same2 (inl p))
              (λ r2 w2 same2.
                closed.sent r2 rolling_initialized_event same2 (initialized (same2.0 ∙ p)))
        go false r' w' same = closed.same r' same
    rolling_cases rolling_in_batches_state w p c = batches_roll w p
    rolling_cases rollout_failing_state w p c = ends false w (rw p refl)
    rolling_cases rollout_abandoning_state w p c = ends false w (rw p refl)
    rolling_cases rollout_deleting_state w p c = ends false w (rw p refl)
    rolling_cases finalising_state w p c = ends true w (rw p refl)
    rolling_cases rollout_succeed_state w p c = closed.same r here
    rolling_cases rollout_failed_state w p c = closed.same r here
    rolling_cases locating_target_app_state w p c = cc
    rolling_cases (other_rolling_state s) w p c = cc

  reconciles :
      (controllers : ControllerKind → WorkloadController W) (k : Result ControllerKind) (w : W)
      → ((kind : ControllerKind) → Obeys spec (controllers kind))
      → ((m : String) → k ≡ err m → P (rollout_failed rt now m r))
      → is_reconciled r.rolling_state ≡ true
      → Ensures (reconcile_with rt http parent spec now (chosen controllers k) r w) (λ _ r'. P r')
  unfolding reconcile_with
  reconciles controllers (err m) w obeys unsupported c = unsupported m refl
  reconciles controllers (ok k) w obeys unsupported c =
      rolling_cases (controllers k) (obeys k) r.rolling_state w refl c

  -- The rule for `Reconcile`.
  pub reconcile_rule :
      (controllers : ControllerKind → WorkloadController W) (target : Workload)
      (source : Option Workload) (w : W)
      → ((kind : ControllerKind) → Obeys spec (controllers kind))
      → ((m : String)
          → get_workload_controller target source ≡ err m
          → P (rollout_failed rt now m r))
      → is_reconciled r.rolling_state ≡ true
      → Ensures (reconcile rt http parent spec now controllers target source r w) (λ _ r'. P r')
  unfolding reconcile
  reconcile_rule controllers target source w obeys unsupported c =
      ensures_bind
        (reconcile_with rt http parent spec now
          (chosen controllers (get_workload_controller target source)) r w)
        (λ _ r' w'. done (requeue_after r'.rolling_state, r', w')) (λ _ r'. P r') _
        (reconciles controllers (get_workload_controller target source) w obeys unsupported c)
        (λ _ r' w' h. h)
