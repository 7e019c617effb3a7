-- ===== src/Rollout/Plan.antt =====
-- The controller of pkg/controller/common/rollout/rollout_plan_controller.go. Events that it records
-- and lines that it logs are left out. `now` is the reading of the clock in a round, and `Reconcile`
-- returns the seconds after which it wants to run again, 0 for never.
pub mod Ensures
pub mod Safety
pub mod Rule
pub mod Round
pub mod Moves
pub mod Control
pub mod Progress
pub mod Promises
pub mod Liveness
pub mod Success
use rudr_x.Base.{
  Bool, List, Option, String, [], false, if◌then◌else◌, length, none, some, str_eq, true, ℕ, ◌++◌,
  ◌∷◌,
}
use rudr_x.Base.Int.{ltb_ℤ, pos, ℤ, ◌-ℤ◌, ◌==ℤ◌}
use rudr_x.Rollout.Action.{
  Action, Outcome, Result, WorkloadController, done, err, external, modify, ok, or_panic, panic,
  panics, pure, status, when, ◌>>=◌, ◌>>◌,
}
use rudr_x.Rollout.Selection.{ControllerKind, Workload, chosen, get_workload_controller}
use rudr_x.Rollout.Status.{
  new_positive_condition, rollout_failed, rollout_failing, rollout_retry, state_transition,
}
use rudr_x.Rollout.Status.Graph.{initialize}
use rudr_x.Rollout.Texts.{rolling_text}
use rudr_x.Rollout.Types.{
  BatchRollingState, HookType, RollingState, RolloutEvent, RolloutPlan, RolloutStatus,
  RolloutWebhook, Runtime, all_batch_finished_event, batch_at, batch_finalizing_state,
  batch_in_rolling_state, batch_initializing_state, batch_ready_state, batch_rollout_approved_event,
  batch_verifying_state, batches, finalising_state, finalize_rollout_hook, finished_one_batch_event,
  initialize_rollout_hook, initialized_one_batch_event, initializing_state,
  one_batch_available_event, other_batch_rolling_state, other_hook, post_batch_rollout_hook,
  pre_batch_rollout_hook, rolling_finalized_event, rolling_in_batches_state,
  rolling_initialized_event, rolling_spec_verified_event, rollout_abandoning_state,
  rollout_deleting_state, rollout_failed_state, rollout_failing_state, rollout_one_batch_event,
  rollout_succeed_state, verifying_spec_state,
}
use rudr_x.Rollout.Webhook.{Http, Parent, call_webhook}
use rudr_x.Rollout.Workloads.Batch.{current_batch}
use rudr_x.Rollout.Workloads.CloneSetScale.{
  check_one_batch_pods, finalize, rollout_one_batch_pods, verify_spec,
}

unfoldable pub same_hook : HookType → HookType → Bool
same_hook initialize_rollout_hook initialize_rollout_hook = true
same_hook pre_batch_rollout_hook pre_batch_rollout_hook = true
same_hook post_batch_rollout_hook post_batch_rollout_hook = true
same_hook finalize_rollout_hook finalize_rollout_hook = true
same_hook (other_hook a) (other_hook b) = str_eq a b
same_hook _ _ = false

-- `NewRolloutPlanController` gives a status without a batch state the first one.
unfoldable pub first_batch_state : BatchRollingState → BatchRollingState
first_batch_state (other_batch_rolling_state s) =
    if str_eq s "" then batch_initializing_state else other_batch_rolling_state s
first_batch_state b = b

unfoldable pub initialized_status : RolloutStatus → RolloutStatus
unfolding first_batch_state
initialized_status r = record r { batch_rolling_state = first_batch_state r.batch_rolling_state }

-- May the rollout go on after the batch `current`?
unfoldable pub may_move : Option ℤ → ℤ → Bool
may_move none current = true
may_move (some p) current = ltb_ℤ current p

-- The event at the end of a batch, by whether it is the last one.
unfoldable pub next_event : RolloutPlan → ℤ → RolloutEvent
next_event spec current =
    if current ==ℤ (pos (length (batches spec)) -ℤ pos 1)
    then all_batch_finished_event
    else finished_one_batch_event

-- An error of the workload fails the rollout, a true answer is passed on, a false one waits.
unfoldable pub on_answer :
    {W : Type 0}
    → (String → RolloutStatus → RolloutStatus)
    → Action W (Unit {0})
    → Result Bool
    → Action W (Unit {0})
on_answer failed next (err m) = modify (failed m)
on_answer failed next (ok true) = next
on_answer failed next (ok false) = pure tt

-- The deferred function: terminal states are not queued again, others run again in 5 seconds.
unfoldable pub requeue_after : RollingState → ℕ
requeue_after rollout_failed_state = 0
requeue_after rollout_succeed_state = 0
requeue_after _ = 5

module _ {W : Type 0} (rt : Runtime) (http : Http W) (parent : Parent) (spec : RolloutPlan)
    (now : ℕ) where
  -- A loop over webhooks: it calls those of one type, stops at the first failure and notes it.
  unfoldable pub call_webhooks : HookType → String → String → List RolloutWebhook → Action W Bool
  unfolding same_hook
  call_webhooks want phase reason [] = pure true
  call_webhooks want phase reason (h ∷ hs) =
      let rest = call_webhooks want phase reason hs in
      if same_hook h.type want
      then (external (call_webhook http parent phase h) >>= λ e. elim e [
        | none ↦ rest
        | some m ↦ modify (rollout_retry rt now reason) >> pure false
      ])
      else rest

  -- `StateTransition`.
  unfoldable pub transition : RolloutEvent → Action W (Unit {0})
  transition e = modify (state_transition rt now e)

  -- `initializeRollout`: true where Go returns nil.
  unfoldable pub initialize_rollout : Action W Bool
  unfolding call_webhooks
  initialize_rollout =
      call_webhooks initialize_rollout_hook "initializing" "failed to invoke a webhook"
        spec.rollout_webhooks

  -- `gatherAllWebhooks`; an index out of range panics.
  unfoldable pub gather_all_webhooks : Action W (List RolloutWebhook)
  gather_all_webhooks = do
    r ← status
    b ← or_panic (batch_at (batches spec) r.current_batch)
    pure (spec.rollout_webhooks ++ b.batch_rollout_webhooks)

  -- `initializeOneBatch`.
  unfoldable pub initialize_one_batch : Action W (Unit {0})
  unfolding gather_all_webhooks call_webhooks transition
  initialize_one_batch = do
    hooks ← gather_all_webhooks
    called ←
        call_webhooks pre_batch_rollout_hook "batchInitializing" "failed to invoke a webhook" hooks
    when called (transition initialized_one_batch_event)

  -- `tryMovingToNextBatch`.
  unfoldable pub try_moving_to_next_batch : Action W (Unit {0})
  unfolding may_move transition
  try_moving_to_next_batch = do
    r ← status
    when (may_move spec.batch_partition r.current_batch) (transition batch_rollout_approved_event)

  -- `finalizeOneBatch`.
  unfoldable pub finalize_one_batch : Action W (Unit {0})
  unfolding gather_all_webhooks call_webhooks transition next_event
  finalize_one_batch = do
    hooks ← gather_all_webhooks
    called ←
        call_webhooks post_batch_rollout_hook "batchFinalizing" "failed to invoke a webhook" hooks
    r ← status
    when called (transition (next_event spec r.current_batch))

  -- `finalizeRollout`.
  unfoldable pub finalize_rollout : Action W (Unit {0})
  unfolding call_webhooks transition
  finalize_rollout = do
    r ← status
    called ←
        call_webhooks finalize_rollout_hook (rolling_text r.rolling_state)
          "failed to invoke a post rollout webhook" spec.rollout_webhooks
    when called (transition rolling_finalized_event)

  module _ (wc : WorkloadController W) where
    -- The `switch` of `reconcileBatchInRolling`.
    unfoldable pub batch_switch : BatchRollingState → Action W (Unit {0})
    unfolding initialize_one_batch on_answer transition finalize_one_batch try_moving_to_next_batch
    batch_switch batch_initializing_state = initialize_one_batch
    batch_switch batch_in_rolling_state =
        wc.rollout_one_batch_pods
        >>= on_answer (rollout_failing rt now) (transition rollout_one_batch_event)
    batch_switch batch_verifying_state =
        wc.check_one_batch_pods
        >>= on_answer (rollout_failing rt now) (transition one_batch_available_event)
    batch_switch batch_finalizing_state =
        wc.finalize_one_batch >>= on_answer (rollout_failing rt now) finalize_one_batch
    batch_switch batch_ready_state = try_moving_to_next_batch
    batch_switch _ = panics

    -- `reconcileBatchInRolling`.
    unfoldable pub reconcile_batch_in_rolling : Action W (Unit {0})
    unfolding batch_switch
    reconcile_batch_in_rolling r w =
        if spec.paused
        then done (
          tt,
          record r {
            conditions = rt.set_conditions r.conditions (new_positive_condition now "BatchPaused");
          },
          w,
        )
        else batch_switch r.batch_rolling_state r w

    -- The `switch` of `Reconcile`.
    unfoldable pub rolling_switch : RollingState → Action W (Unit {0})
    unfolding on_answer transition initialize_rollout reconcile_batch_in_rolling finalize_rollout
    rolling_switch verifying_spec_state =
        wc.verify_spec
        >>= on_answer (rollout_failed rt now) (transition rolling_spec_verified_event)
    rolling_switch initializing_state = do
      called ← initialize_rollout
      when called (
          wc.initialize
          >>= on_answer (rollout_failing rt now) (transition rolling_initialized_event))
    rolling_switch rolling_in_batches_state = reconcile_batch_in_rolling
    rolling_switch rollout_failing_state = do
      succeeded ← wc.finalize false
      when succeeded finalize_rollout
    rolling_switch rollout_abandoning_state = do
      succeeded ← wc.finalize false
      when succeeded finalize_rollout
    rolling_switch rollout_deleting_state = do
      succeeded ← wc.finalize false
      when succeeded finalize_rollout
    rolling_switch finalising_state = do
      succeeded ← wc.finalize true
      when succeeded finalize_rollout
    rolling_switch rollout_succeed_state = pure tt
    rolling_switch rollout_failed_state = pure tt
    rolling_switch _ = panics

  -- The body of `Reconcile` once the controller is looked for.
  unfoldable pub reconcile_with : Result (WorkloadController W) → Action W (Unit {0})
  unfolding rolling_switch
  reconcile_with (err m) r w = done (tt, rollout_failed rt now m r, w)
  reconcile_with (ok wc) r w = rolling_switch wc r.rolling_state r w

  -- `Reconcile`.
  unfoldable pub reconcile :
      (ControllerKind → WorkloadController W)
      → Workload
      → Option Workload
      → RolloutStatus
      → W
      → Outcome (ℕ × RolloutStatus × W)
  unfolding reconcile_with requeue_after
  reconcile controllers target source r w =
      elim (reconcile_with (chosen controllers (get_workload_controller target source)) r w) [
        | panic ↦ panic
        | done (_, r', w') ↦ done (requeue_after r'.rolling_state, r', w')
      ]

-- Rounds of `Reconcile`, one for each reading of the clock; the workload controllers are made anew in
-- each round.
unfoldable pub reconcile_rounds :
    {W : Type 0}
    → Runtime
    → Http W
    → Parent
    → RolloutPlan
    → (ℕ → ControllerKind → WorkloadController W)
    → Workload
    → Option Workload
    → List ℕ
    → Action W (Unit {0})
unfolding reconcile
reconcile_rounds rt http parent spec controllers target source [] = pure tt
reconcile_rounds rt http parent spec controllers target source (now ∷ nows) = do
  reconcile rt http parent spec now (controllers now) target source
  reconcile_rounds rt http parent spec controllers target source nows
