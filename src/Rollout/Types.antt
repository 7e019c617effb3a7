-- ===== src/Rollout/Types.antt =====
-- The types of apis/standard.oam.dev/v1alpha1/rollout_plan_types.go and the events and conditions
-- of rollout_state.go. Go's open string types whose values a `switch` reads are data types with a
-- constructor for any other text; those that are only compared are texts.
use rudr_x.Base.{Bool, List, Option, String, [], get_elem?, none, some, ℕ}
use rudr_x.Base.Int.{negsuc, pos, ℤ}

pub data RolloutEvent : Type 0 where
  rolling_failed_event rolling_retriable_failure_event app_located_event : RolloutEvent
  rolling_modified_event rolling_deleted_event rolling_spec_verified_event : RolloutEvent
  rolling_initialized_event all_batch_finished_event : RolloutEvent
  initialized_one_batch_event finished_one_batch_event rollout_one_batch_event : RolloutEvent
  one_batch_available_event batch_rollout_approved_event batch_rollout_failed_event : RolloutEvent

-- `RollingFinalizedEvent` is declared with the text "AllBatchFinishedEvent", so the two are one.
pattern abbrev pub rolling_finalized_event : RolloutEvent
rolling_finalized_event = all_batch_finished_event

pub data RollingState : Type 0 where
  locating_target_app_state verifying_spec_state initializing_state : RollingState
  rolling_in_batches_state finalising_state rollout_failing_state : RollingState
  rollout_succeed_state rollout_abandoning_state rollout_deleting_state : RollingState
  rollout_failed_state : RollingState
  other_rolling_state : String → RollingState

pub data BatchRollingState : Type 0 where
  batch_initializing_state batch_in_rolling_state batch_verifying_state : BatchRollingState
  batch_rollout_failed_state batch_finalizing_state batch_ready_state : BatchRollingState
  other_batch_rolling_state : String → BatchRollingState

-- The condition types of rollout_state.go.
abbrev pub ConditionType : Type 0
ConditionType = String

-- crossplane's `Condition`; `last_transition_time` is the reading of the clock.
pub record Condition : Type 0 where
  pub type : ConditionType
  pub status : String
  pub last_transition_time : ℕ
  pub reason : String
  pub message : String

-- `intstr.IntOrString`.
pub data IntOrString : Type 0 where
  int_val : ℤ → IntOrString
  str_val : String → IntOrString

pub data RolloutStrategyType : Type 0 where
  unset_strategy increase_first_strategy decrease_first_strategy : RolloutStrategyType
  other_strategy : String → RolloutStrategyType

pub data HookType : Type 0 where
  initialize_rollout_hook pre_batch_rollout_hook post_batch_rollout_hook : HookType
  finalize_rollout_hook : HookType
  other_hook : String → HookType

pub record RolloutWebhook : Type 0 where
  pub type : HookType
  pub name : String
  pub url : String
  pub method : String
  pub expected_status : List ℤ
  pub metadata : Option (List (String × String))

-- The fields of `RolloutBatch` that the code reads.
pub record RolloutBatch : Type 0 where
  pub replicas : IntOrString
  pub max_unavailable : Option IntOrString
  pub batch_rollout_webhooks : List RolloutWebhook

-- The fields of `RolloutPlan` that the code reads; `rollout_batches` is `none` where Go has nil.
pub record RolloutPlan : Type 0 where
  pub rollout_strategy : RolloutStrategyType
  pub target_size : Option ℤ
  pub num_batches : Option ℤ
  pub rollout_batches : Option (List RolloutBatch)
  pub batch_partition : Option ℤ
  pub paused : Bool
  pub rollout_webhooks : List RolloutWebhook

-- The batches as `len`, `range` and indexing see them: a nil slice is empty.
unfoldable pub batches : RolloutPlan → List RolloutBatch
batches p = elim p.rollout_batches [ none ↦ [] | some bs ↦ bs ]

-- `bs[i]`, which panics out of range: `none`.
unfoldable pub batch_at : List RolloutBatch → ℤ → Option RolloutBatch
batch_at bs (pos i) = get_elem? bs i
batch_at bs (negsuc i) = none

pub record RolloutStatus : Type 0 where
  pub conditions : List Condition
  pub rollout_original_size : ℤ
  pub rollout_target_size : ℤ
  pub new_pod_template_identifier : String
  pub last_applied_pod_template_identifier : String
  pub rolling_state : RollingState
  pub batch_rolling_state : BatchRollingState
  pub current_batch : ℤ
  pub upgraded_replicas : ℤ
  pub upgraded_ready_replicas : ℤ

-- What the code takes from libraries: crossplane's `ConditionedStatus.SetConditions`, and
-- `intstr.GetValueFromIntOrPercent` with rounding up, which returns a value and an error.
pub record Runtime : Type 0 where
  pub set_conditions : List Condition → Condition → List Condition
  pub get_value : IntOrString → ℤ → ℤ × Option String
