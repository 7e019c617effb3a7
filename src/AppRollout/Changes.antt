-- ===== src/AppRollout/Changes.antt =====
-- helper.go and `handleRolloutModified` of rollout_handler.go: whether a rollout is over, whether its
-- target or source has changed since, and which revisions a round works on.
use rudr_x.Base.{Bool, String, false, if◌then◌else◌, none, not, some, str_eq, true, ℕ, ◌&&◌, ◌||◌}
use rudr_x.Base.Int.{negsuc, ◌==ℤ◌}
use rudr_x.AppRollout.Types.{AppRollout}
use rudr_x.Rollout.Status.{state_transition}
use rudr_x.Rollout.Types.{
  RollingState, RolloutEvent, Runtime, rolling_modified_event, rollout_deleting_state,
  rollout_failed_state, rollout_succeed_state,
}

unfoldable pub is_ended : RollingState → Bool
is_ended rollout_succeed_state = true
is_ended rollout_failed_state = true
is_ended _ = false

unfoldable pub is_deleting : RollingState → Bool
is_deleting rollout_deleting_state = true
is_deleting _ = false

unfoldable pub same_revisions : AppRollout → Bool
same_revisions a =
    str_eq a.last_upgraded_target_app_revision a.target_app_revision_name
    && str_eq a.last_source_app_revision a.source_app_revision_name

-- No size is asked for, or the one that the rollout had.
unfoldable pub same_size : AppRollout → Bool
same_size a = elim a.rollout_plan.target_size [
  | none ↦ true
  | some n ↦ a.rollout_status.rollout_target_size ==ℤ n
]

unfoldable pub handle_rolling_terminated : AppRollout → Bool
unfolding is_ended same_revisions same_size
handle_rolling_terminated a =
    is_ended a.rollout_status.rolling_state && same_revisions a && same_size a

-- A recorded name that is another one than that of the spec.
unfoldable pub moved : String → String → Bool
moved last name = not (str_eq last "") && not (str_eq last name)

unfoldable pub resized : AppRollout → Bool
resized a = elim a.rollout_plan.target_size [
  | none ↦ false
  | some n ↦
      not (a.rollout_status.rollout_target_size ==ℤ negsuc 0)
      && not (a.rollout_status.rollout_target_size ==ℤ n)
]

unfoldable pub is_rollout_modified : AppRollout → Bool
unfolding is_deleting moved resized
is_rollout_modified a =
    not (is_deleting a.rollout_status.rolling_state)
    && (moved a.last_upgraded_target_app_revision a.target_app_revision_name
        || moved a.last_source_app_revision a.source_app_revision_name
        || resized a)

-- `sourceRevName` and `targetRevName` of the handler.
pub record RoundRevisions : Type 0 where
  pub source_rev_name : String
  pub target_rev_name : String

unfoldable pub spec_revisions : AppRollout → RoundRevisions
spec_revisions a = record {
  source_rev_name = a.source_app_revision_name;
  target_rev_name = a.target_app_revision_name;
}

unfoldable pub last_revisions : AppRollout → RoundRevisions
last_revisions a = record {
  source_rev_name = a.last_source_app_revision;
  target_rev_name = a.last_upgraded_target_app_revision;
}

-- The revisions of the spec as the last ones.
unfoldable pub marked : AppRollout → AppRollout
marked a = record a {
  last_upgraded_target_app_revision = a.target_app_revision_name;
  last_source_app_revision = a.source_app_revision_name;
}

module _ (rt : Runtime) (now : ℕ) where
  unfoldable pub with_event : RolloutEvent → AppRollout → AppRollout
  with_event e a = record a { rollout_status = state_transition rt now e a.rollout_status }

  unfoldable pub handle_rollout_modified : AppRollout → RoundRevisions × AppRollout
  unfolding is_ended spec_revisions last_revisions marked with_event
  handle_rollout_modified a =
      if is_ended a.rollout_status.rolling_state
      then (spec_revisions a, with_event rolling_modified_event (marked a))
      else (last_revisions a, with_event rolling_modified_event a)

  -- The revisions of the round, and the object after a change of the spec is handled.
  unfoldable pub round_revisions : AppRollout → RoundRevisions × AppRollout
  unfolding is_rollout_modified handle_rollout_modified spec_revisions
  round_revisions a =
      if is_rollout_modified a then handle_rollout_modified a else (spec_revisions a, a)
