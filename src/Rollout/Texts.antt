-- ===== src/Rollout/Texts.antt =====
-- The texts of the states and the events of apis/standard.oam.dev/v1alpha1, and the messages about an
-- event that is illegal in a state, of rollout_state.go.
use rudr_x.Base.{String}
use rudr_x.Base.Text.{◌+++◌}
use rudr_x.Rollout.Types.{
  BatchRollingState, RollingState, RolloutEvent, all_batch_finished_event, app_located_event,
  batch_finalizing_state, batch_in_rolling_state, batch_initializing_state, batch_ready_state,
  batch_rollout_approved_event, batch_rollout_failed_event, batch_rollout_failed_state,
  batch_verifying_state, finalising_state, finished_one_batch_event, initialized_one_batch_event,
  initializing_state, locating_target_app_state, one_batch_available_event,
  other_batch_rolling_state, other_rolling_state, rolling_deleted_event, rolling_failed_event,
  rolling_in_batches_state, rolling_initialized_event, rolling_modified_event,
  rolling_retriable_failure_event, rolling_spec_verified_event, rollout_abandoning_state,
  rollout_deleting_state, rollout_failed_state, rollout_failing_state, rollout_one_batch_event,
  rollout_succeed_state, verifying_spec_state,
}

-- The texts of the states and events in messages.
pub rolling_text : RollingState → String
rolling_text locating_target_app_state = "locatingTargetApp"
rolling_text verifying_spec_state = "verifyingSpec"
rolling_text initializing_state = "initializing"
rolling_text rolling_in_batches_state = "rollingInBatches"
rolling_text finalising_state = "finalising"
rolling_text rollout_failing_state = "rolloutFailing"
rolling_text rollout_succeed_state = "rolloutSucceed"
rolling_text rollout_abandoning_state = "rolloutAbandoning"
rolling_text rollout_deleting_state = "RolloutDeletingState"
rolling_text rollout_failed_state = "rolloutFailed"
rolling_text (other_rolling_state s) = s

pub batch_text : BatchRollingState → String
batch_text batch_initializing_state = "batchInitializing"
batch_text batch_in_rolling_state = "batchInRolling"
batch_text batch_verifying_state = "batchVerifying"
batch_text batch_rollout_failed_state = "batchVerifyFailed"
batch_text batch_finalizing_state = "batchFinalizing"
batch_text batch_ready_state = "batchReady"
batch_text (other_batch_rolling_state s) = s

event_text : RolloutEvent → String
event_text rolling_failed_event = "RollingFailedEvent"
event_text rolling_retriable_failure_event = "RollingRetriableFailureEvent"
event_text app_located_event = "AppLocatedEvent"
event_text rolling_modified_event = "RollingModifiedEvent"
event_text rolling_deleted_event = "RollingDeletedEvent"
event_text rolling_spec_verified_event = "RollingSpecVerifiedEvent"
event_text rolling_initialized_event = "RollingInitializedEvent"
event_text all_batch_finished_event = "AllBatchFinishedEvent"
event_text initialized_one_batch_event = "InitializedOneBatchEvent"
event_text finished_one_batch_event = "FinishedOneBatchEvent"
event_text rollout_one_batch_event = "RolloutOneBatchEvent"
event_text one_batch_available_event = "OneBatchAvailable"
event_text batch_rollout_approved_event = "BatchRolloutApprovedEvent"
event_text batch_rollout_failed_event = "BatchRolloutFailedEvent"

-- `fmt.Errorf(invalidRollingStateTransition, state, event)`.
pub invalid_rolling_state_transition : RollingState → RolloutEvent → String
invalid_rolling_state_transition s e =
    "the rollout state transition from `"
    +++ rolling_text s
    +++ "` state  with `"
    +++ event_text e
    +++ "` is invalid"

pub invalid_batch_rolling_state_transition : BatchRollingState → RolloutEvent → String
invalid_batch_rolling_state_transition s e =
    "the batch rolling state transition from `"
    +++ batch_text s
    +++ "` state  with `"
    +++ event_text e
    +++ "` is invalid"
