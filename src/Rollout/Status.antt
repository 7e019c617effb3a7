-- ===== src/Rollout/Status.antt =====
-- The methods of `RolloutStatus` in apis/standard.oam.dev/v1alpha1/rollout_state.go. A method that
-- mutates the status returns the new one; `now` is the reading of the clock in `time.Now()`.
pub mod Conditions
pub mod Graph
use rudr_x.Base.{
  Bool, List, String, [], false, if◌then◌else◌, str_eq, true, ℕ, ◌&&◌, ◌++◌, ◌==◌, ◌∷◌,
}
use rudr_x.Base.Int.{negsuc, pos, to_int32, ◌+ℤ◌}
use rudr_x.Base.Text.{◌+++◌}
use rudr_x.Rollout.Texts.{
  batch_text, invalid_batch_rolling_state_transition, invalid_rolling_state_transition,
}
use rudr_x.Rollout.Types.{
  BatchRollingState, Condition, ConditionType, RollingState, RolloutEvent, RolloutStatus, Runtime,
  all_batch_finished_event, app_located_event, batch_finalizing_state, batch_in_rolling_state,
  batch_initializing_state, batch_ready_state, batch_rollout_approved_event,
  batch_rollout_failed_event, batch_rollout_failed_state, batch_verifying_state, finalising_state,
  finished_one_batch_event, initialized_one_batch_event, initializing_state,
  locating_target_app_state, one_batch_available_event, other_batch_rolling_state,
  other_rolling_state, rolling_deleted_event, rolling_failed_event, rolling_in_batches_state,
  rolling_initialized_event, rolling_modified_event, rolling_retriable_failure_event,
  rolling_spec_verified_event, rollout_abandoning_state, rollout_deleting_state,
  rollout_failed_state, rollout_failing_state, rollout_one_batch_event, rollout_succeed_state,
  verifying_spec_state,
}

-- `NewPositiveCondition` and `NewNegativeCondition`.
unfoldable pub new_positive_condition : ℕ → ConditionType → Condition
new_positive_condition now t = record {
  type = t;
  status = "True";
  last_transition_time = now;
  reason = "";
  message = "";
}

unfoldable pub new_negative_condition : ℕ → ConditionType → String → Condition
new_negative_condition now t m = record {
  type = t;
  status = "False";
  last_transition_time = now;
  reason = "";
  message = m;
}

-- The inner `switch` of `getRolloutConditionType`.
batch_condition_type : BatchRollingState → ConditionType
batch_condition_type batch_initializing_state = "BatchInitializing"
batch_condition_type batch_verifying_state = "BatchVerifying"
batch_condition_type batch_finalizing_state = "BatchFinalizing"
batch_condition_type batch_rollout_failed_state = "BatchRolloutFailed"
batch_condition_type batch_ready_state = "BatchReady"
batch_condition_type _ = "RolloutInProgress"

condition_type_of : RollingState → BatchRollingState → ConditionType
unfolding batch_condition_type
condition_type_of verifying_spec_state b = "RolloutSpecVerifying"
condition_type_of initializing_state b = "RolloutInitializing"
condition_type_of rolling_in_batches_state b = batch_condition_type b
condition_type_of finalising_state b = "RolloutFinalizing"
condition_type_of rollout_failing_state b = "RolloutFailing"
condition_type_of rollout_abandoning_state b = "RolloutAbandoning"
condition_type_of rollout_deleting_state b = "RolloutDeleting"
condition_type_of rollout_succeed_state b = "RolloutSucceed"
condition_type_of _ b = "RolloutFailed"

-- `getRolloutConditionType`.
unfoldable pub get_rollout_condition_type : RolloutStatus → ConditionType
unfolding condition_type_of
get_rollout_condition_type r = condition_type_of r.rolling_state r.batch_rolling_state

-- `ResetStatus`.
unfoldable pub reset_status : RolloutStatus → RolloutStatus
reset_status r = record r {
  new_pod_template_identifier = "";
  rollout_target_size = negsuc 0;
  last_applied_pod_template_identifier = "";
  rolling_state = locating_target_app_state;
  batch_rolling_state = batch_initializing_state;
  current_batch = pos 0;
  upgraded_replicas = pos 0;
  upgraded_ready_replicas = pos 0;
}

-- The comparison in `SetRolloutCondition`, field by field.
unfoldable pub same_condition : Condition → Condition → Bool
same_condition a b =
    str_eq a.type b.type
    && (str_eq a.status b.status
        && (str_eq a.reason b.reason
            && (str_eq a.message b.message && a.last_transition_time == b.last_transition_time)))

-- The loop of `SetRolloutCondition` over the conditions left, with its variable `exists`.
unfoldable pub set_loop : Condition → Bool → List Condition → List Condition × Bool
set_loop new exists [] = ([], exists)
set_loop new exists (c ∷ cs) =
    let other = set_loop new exists cs in
    let met = set_loop new true cs in
    if str_eq c.type new.type
    then (if same_condition c new then (c ∷ met.0, met.1) else (new ∷ met.0, met.1))
    else (c ∷ other.0, other.1)

-- The conditions that `SetRolloutCondition` leaves.
unfoldable pub conditions_set : Condition → List Condition → List Condition
conditions_set new cs =
    let (cs', exists) = set_loop new false cs in if exists then cs' else cs' ++ (new ∷ [])

-- `SetRolloutCondition`.
unfoldable pub set_rollout_condition : Condition → RolloutStatus → RolloutStatus
set_rollout_condition new r = record r { conditions = conditions_set new r.conditions }

-- `r.SetRolloutCondition(NewPositiveCondition(r.getRolloutConditionType()))`.
unfoldable pub set_positive : ℕ → RolloutStatus → RolloutStatus
unfolding set_rollout_condition
set_positive now r =
    set_rollout_condition (new_positive_condition now (get_rollout_condition_type r)) r

module _ (rt : Runtime) where
  -- `r.SetConditions(NewNegativeCondition(r.getRolloutConditionType(), reason))`.
  unfoldable pub rollout_retry : ℕ → String → RolloutStatus → RolloutStatus
  rollout_retry now reason r = record r {
    conditions =
        rt.set_conditions r.conditions
          (new_negative_condition now (get_rollout_condition_type r) reason);
  }

  -- `RolloutFailed`.
  unfoldable pub rollout_failed : ℕ → String → RolloutStatus → RolloutStatus
  unfolding rollout_retry
  rollout_failed now reason r = record (rollout_retry now reason r) {
    rolling_state = rollout_failed_state;
  }

  -- `RolloutFailing`.
  unfoldable pub rollout_failing : ℕ → String → RolloutStatus → RolloutStatus
  unfolding rollout_retry
  rollout_failing now reason r = record (rollout_retry now reason r) {
    rolling_state = rollout_failing_state;
    batch_rolling_state = batch_initializing_state;
  }

  illegal_rolling : ℕ → RolloutEvent → RolloutStatus → RolloutStatus
  unfolding rollout_failed
  illegal_rolling now e r =
      rollout_failed now (invalid_rolling_state_transition r.rolling_state e) r

  illegal_batch : ℕ → RolloutEvent → RolloutStatus → RolloutStatus
  unfolding rollout_failed
  illegal_batch now e r =
      rollout_failed now (invalid_batch_rolling_state_transition r.batch_rolling_state e) r

  -- The `switch` of `batchStateTransition`.
  batch_switch : ℕ → BatchRollingState → RolloutEvent → RolloutStatus → RolloutStatus
  unfolding illegal_batch set_positive rollout_failed
  batch_switch now batch_initializing_state initialized_one_batch_event r = record r {
    batch_rolling_state = batch_in_rolling_state;
  }
  batch_switch now batch_in_rolling_state rollout_one_batch_event r = record (set_positive now r) {
    batch_rolling_state = batch_verifying_state;
  }
  batch_switch now batch_verifying_state one_batch_available_event r = record (set_positive now r) {
    batch_rolling_state = batch_finalizing_state;
  }
  batch_switch now batch_finalizing_state finished_one_batch_event r = record (set_positive now r) {
    batch_rolling_state = batch_ready_state;
  }
  batch_switch now batch_finalizing_state all_batch_finished_event r = record (set_positive now r) {
    batch_rolling_state = batch_ready_state;
    rolling_state = finalising_state;
  }
  batch_switch now batch_ready_state batch_rollout_approved_event r = record (set_positive now r) {
    batch_rolling_state = batch_initializing_state;
    current_batch = to_int32 (r.current_batch +ℤ pos 1);
  }
  batch_switch now batch_rollout_failed_state e r =
      rollout_failed now ("invalid batch rolling state " +++ batch_text batch_rollout_failed_state)
        r
  batch_switch now (other_batch_rolling_state s) e r =
      rollout_failed now ("invalid batch rolling state " +++ s) r
  batch_switch now _ e r = illegal_batch now e r

  -- `batchStateTransition`.
  unfoldable pub batch_state_transition : ℕ → RolloutEvent → RolloutStatus → RolloutStatus
  unfolding batch_switch
  batch_state_transition now batch_rollout_failed_event r =
      let r' = record r {
        batch_rolling_state = batch_rollout_failed_state;
        rolling_state = rollout_failed_state;
      } in
      rollout_retry now "failed" r'
  batch_state_transition now e r = batch_switch now r.batch_rolling_state e r

  -- The `switch` over the rolling state.
  rolling_switch : ℕ → RollingState → RolloutEvent → RolloutStatus → RolloutStatus
  unfolding batch_state_transition illegal_rolling set_positive rollout_failed
  rolling_switch now verifying_spec_state rolling_spec_verified_event r =
      record (set_positive now r) { rolling_state = initializing_state }
  rolling_switch now initializing_state rolling_initialized_event r = record (set_positive now r) {
    rolling_state = rolling_in_batches_state;
    batch_rolling_state = batch_initializing_state;
  }
  rolling_switch now rolling_in_batches_state e r = batch_state_transition now e r
  rolling_switch now rollout_abandoning_state all_batch_finished_event r =
      reset_status (set_positive now r)
  rolling_switch now rollout_deleting_state all_batch_finished_event r =
      record (set_positive now r) { rolling_state = rollout_failed_state }
  rolling_switch now finalising_state all_batch_finished_event r = record (set_positive now r) {
    rolling_state = rollout_succeed_state;
  }
  rolling_switch now rollout_failing_state all_batch_finished_event r =
      record (set_positive now r) { rolling_state = rollout_failed_state }
  rolling_switch now locating_target_app_state e r =
      rollout_failed now ("invalid rolling state locatingTargetApp before transition") r
  rolling_switch now (other_rolling_state s) e r =
      rollout_failed now ("invalid rolling state " +++ s +++ " before transition") r
  rolling_switch now _ e r = illegal_rolling now e r

  -- The event that says that the source or the target changed, by state.
  modified_switch : ℕ → RollingState → RolloutStatus → RolloutStatus
  unfolding illegal_rolling
  modified_switch now rollout_deleting_state r = illegal_rolling now rolling_modified_event r
  modified_switch now rollout_failed_state r = reset_status r
  modified_switch now rollout_succeed_state r = reset_status r
  modified_switch now _ r =
      record (set_rollout_condition
        (new_negative_condition now (get_rollout_condition_type r) "Rollout Spec is modified") r) {
          rolling_state = rollout_abandoning_state;
          batch_rolling_state = batch_initializing_state;
        }

  deleted_switch : ℕ → RollingState → RolloutStatus → RolloutStatus
  unfolding illegal_rolling
  deleted_switch now rollout_failed_state r = illegal_rolling now rolling_deleted_event r
  deleted_switch now rollout_succeed_state r = illegal_rolling now rolling_deleted_event r
  deleted_switch now _ r =
      record (set_rollout_condition
        (new_negative_condition now (get_rollout_condition_type r) "Rollout is being deleted") r) {
          rolling_state = rollout_deleting_state;
          batch_rolling_state = batch_initializing_state;
        }

  located_switch : RollingState → RolloutStatus → RolloutStatus
  located_switch locating_target_app_state r = record r { rolling_state = verifying_spec_state }
  located_switch _ r = r

  -- `StateTransition`.
  unfoldable pub state_transition : ℕ → RolloutEvent → RolloutStatus → RolloutStatus
  unfolding illegal_rolling modified_switch deleted_switch located_switch rolling_switch
  state_transition now rolling_failed_event r = illegal_rolling now rolling_failed_event r
  state_transition now rolling_retriable_failure_event r =
      illegal_rolling now rolling_retriable_failure_event r
  state_transition now rolling_modified_event r = modified_switch now r.rolling_state r
  state_transition now rolling_deleted_event r = deleted_switch now r.rolling_state r
  state_transition now app_located_event r = located_switch r.rolling_state r
  state_transition now e r = rolling_switch now r.rolling_state e r
