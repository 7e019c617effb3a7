-- ===== src/Rollout/Plan/Safety.antt =====
-- A reconcile does not panic, and keeps the current batch one of the plan's.
use rudr_x.Base.{Bool, String, arith, false, true, ℕ, ◌+◌, ◌∙◌, ◌≡◌}
use rudr_x.Base.Int.{
  +ℤ_parts, IsInt32, negsuc, pos, to_int32, to_int32_of_IsInt32, ℤ, ◌+ℤ◌, ◌<ℤ◌, ◌≤ℤ◌,
}
use rudr_x.Rollout.Batches.Bounds.{last_index}
use rudr_x.Rollout.Plan.{may_move}
use rudr_x.Rollout.Plan.Ensures.{SamePlace}
use rudr_x.Rollout.Status.{
  reset_status, rollout_failed, rollout_failing, set_positive, state_transition,
}
use rudr_x.Rollout.Types.{
  BatchRollingState, RollingState, RolloutEvent, RolloutPlan, RolloutStatus, Runtime,
  all_batch_finished_event, batch_finalizing_state, batch_in_rolling_state,
  batch_initializing_state, batch_ready_state, batch_rollout_approved_event,
  batch_rollout_failed_state, batch_verifying_state, finalising_state, finished_one_batch_event,
  initialized_one_batch_event, initializing_state, locating_target_app_state,
  one_batch_available_event, other_batch_rolling_state, other_rolling_state,
  rolling_in_batches_state, rolling_initialized_event, rolling_spec_verified_event,
  rollout_abandoning_state, rollout_deleting_state, rollout_failing_state, rollout_one_batch_event,
  verifying_spec_state,
}
use rudr_x.Rollout.Webhook.{Http, Parent}

abbrev pub is_known : RollingState → Bool
is_known (other_rolling_state s) = false
is_known _ = true

-- The states that `Reconcile` has a case for.
abbrev pub is_reconciled : RollingState → Bool
is_reconciled locating_target_app_state = false
is_reconciled (other_rolling_state s) = false
is_reconciled _ = true

abbrev pub is_batch_step : BatchRollingState → Bool
is_batch_step batch_rollout_failed_state = false
is_batch_step (other_batch_rolling_state s) = false
is_batch_step _ = true

-- The states in which a finalized workload ends the rollout.
abbrev pub is_finalized : RollingState → Bool
is_finalized finalising_state = true
is_finalized rollout_failing_state = true
is_finalized rollout_abandoning_state = true
is_finalized rollout_deleting_state = true
is_finalized _ = false

-- The current batch is one of the plan's; while batches roll the batch state is one of the steps of
-- a batch, and a batch that is ready is not the last one.
pub record IsSound (spec : RolloutPlan) (r : RolloutStatus) : Type 0 where
  pub low : pos 0 ≤ℤ r.current_batch
  pub high : r.current_batch ≤ℤ last_index spec
  pub known : is_known r.rolling_state ≡ true
  pub in_step :
      r.rolling_state ≡ rolling_in_batches_state → is_batch_step r.batch_rolling_state ≡ true
  pub more :
      r.rolling_state ≡ rolling_in_batches_state
      → r.batch_rolling_state ≡ batch_ready_state
      → r.current_batch <ℤ last_index spec

pub SamePlace-IsSound :
    (spec : RolloutPlan) (r r' : RolloutStatus) → SamePlace r r' → IsSound spec r → IsSound spec r'
SamePlace-IsSound spec r r' same h = ground arith

pub pos-suc : (i : ℕ) → pos i +ℤ pos 1 ≡ pos (i + 1)
unfolding ◌+ℤ◌
pos-suc i = ground arith

pub fewer : (i : ℤ) → pos 0 ≤ℤ i → pos 0 ≤ℤ i +ℤ pos 1
fewer (pos i) h = rw (pos-suc i) (omega arith)
fewer (negsuc i) h = absurd (omega arith)

-- The next batch fits an `int32`, as the last one does.
pub next_batch :
    (i last : ℤ) → IsInt32 last → pos 0 ≤ℤ i → i <ℤ last → to_int32 (i +ℤ pos 1) ≡ i +ℤ pos 1
next_batch (pos i) last fits low below =
    rw (pos-suc i) (to_int32_of_IsInt32 (pos (i + 1)) (omega arith))
next_batch (negsuc i) last fits low below = absurd (omega arith)

module _ {W : Type 0} (rt : Runtime) (http : Http W) (parent : Parent) (spec : RolloutPlan)
    (now : ℕ) where
  -- The condition update of the two failures keeps the range.
  pub rollout_failed-IsSound :
      (m : String) (r : RolloutStatus) → IsSound spec r → IsSound spec (rollout_failed rt now m r)
  unfolding rollout_failed
  rollout_failed-IsSound m r h = ground arith

  pub rollout_failing-IsSound :
      (m : String) (r : RolloutStatus) → IsSound spec r → IsSound spec (rollout_failing rt now m r)
  unfolding rollout_failing
  rollout_failing-IsSound m r h = ground arith

  -- The events of the plan controller, where it sends them.
  pub data Sends (r : RolloutStatus) : RolloutEvent → Type 0 where
    verified : r.rolling_state ≡ verifying_spec_state → Sends r rolling_spec_verified_event
    initialized : r.rolling_state ≡ initializing_state → Sends r rolling_initialized_event
    batch_initialized :
        r.rolling_state ≡ rolling_in_batches_state
        → r.batch_rolling_state ≡ batch_initializing_state
        → Sends r initialized_one_batch_event
    rolled :
        r.rolling_state ≡ rolling_in_batches_state
        → r.batch_rolling_state ≡ batch_in_rolling_state
        → Sends r rollout_one_batch_event
    available :
        r.rolling_state ≡ rolling_in_batches_state
        → r.batch_rolling_state ≡ batch_verifying_state
        → Sends r one_batch_available_event
    finished :
        r.rolling_state ≡ rolling_in_batches_state
        → r.batch_rolling_state ≡ batch_finalizing_state
        → r.current_batch <ℤ last_index spec
        → Sends r finished_one_batch_event
    finished_all :
        r.rolling_state ≡ rolling_in_batches_state
        → r.batch_rolling_state ≡ batch_finalizing_state
        → Sends r all_batch_finished_event
    approved :
        r.rolling_state ≡ rolling_in_batches_state
        → r.batch_rolling_state ≡ batch_ready_state
        → may_move spec.batch_partition r.current_batch ≡ true
        → Sends r batch_rollout_approved_event
    finalized : is_finalized r.rolling_state ≡ true → Sends r all_batch_finished_event

  pub Sends-IsSound :
      (r : RolloutStatus) {e : RolloutEvent}
      → IsInt32 (last_index spec)
      → IsSound spec r
      → Sends r e
      → IsSound spec (state_transition rt now e r)
  unfolding state_transition set_positive rollout_failed reset_status
  Sends-IsSound r fits h (verified p) = ground arith
  Sends-IsSound r fits h (initialized p) = ground arith
  Sends-IsSound r fits h (batch_initialized p q) = ground arith
  Sends-IsSound r fits h (rolled p q) = ground arith
  Sends-IsSound r fits h (available p q) = ground arith
  Sends-IsSound r fits h (finished p q k) = ground arith
  Sends-IsSound r fits h (finished_all p q) = ground arith
  Sends-IsSound r fits h (approved p q m) = ground (
    arith,
    next_batch r.current_batch (last_index spec) fits h.low (h.more p q),
    +ℤ_parts r.current_batch (pos 1),
    fewer r.current_batch h.low,
  )
  Sends-IsSound r fits h (finalized p) = ground arith

  -- What a sender meets after calls that leave the states and the batch alone.
  pub Sends-SamePlace :
      (r r' : RolloutStatus) {e : RolloutEvent} → SamePlace r r' → Sends r e → Sends r' e
  Sends-SamePlace r r' same (verified p) = verified (same.0 ∙ p)
  Sends-SamePlace r r' same (initialized p) = initialized (same.0 ∙ p)
  Sends-SamePlace r r' same (batch_initialized p q) = batch_initialized (same.0 ∙ p) (same.1 ∙ q)
  Sends-SamePlace r r' same (rolled p q) = rolled (same.0 ∙ p) (same.1 ∙ q)
  Sends-SamePlace r r' same (available p q) = available (same.0 ∙ p) (same.1 ∙ q)
  Sends-SamePlace r r' same (finished p q k) = finished (same.0 ∙ p) (same.1 ∙ q) (rw same.2 k)
  Sends-SamePlace r r' same (finished_all p q) = finished_all (same.0 ∙ p) (same.1 ∙ q)
  Sends-SamePlace r r' same (approved p q m) = approved (same.0 ∙ p) (same.1 ∙ q) (rw same.2 m)
  Sends-SamePlace r r' same (finalized p) = finalized (rw same.0 p)
