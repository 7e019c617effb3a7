-- ===== src/Rollout/Status/Graph.antt =====
-- The state diagram of a rollout: which event moves which pair of states to which pair.
use rudr_x.Base.{Bool, arith, false, refl, true, ℕ, ◌≡◌, ◌⊎◌}
use rudr_x.Rollout.Status.{reset_status, rollout_failed, set_positive, state_transition}
use rudr_x.Rollout.Types.{
  BatchRollingState, RollingState, RolloutEvent, RolloutStatus, Runtime, all_batch_finished_event,
  app_located_event, batch_finalizing_state, batch_in_rolling_state, batch_initializing_state,
  batch_ready_state, batch_rollout_approved_event, batch_rollout_failed_event,
  batch_rollout_failed_state, batch_verifying_state, finalising_state, finished_one_batch_event,
  initialized_one_batch_event, initializing_state, locating_target_app_state,
  one_batch_available_event, rolling_deleted_event, rolling_finalized_event,
  rolling_in_batches_state, rolling_initialized_event, rolling_modified_event,
  rolling_spec_verified_event, rollout_abandoning_state, rollout_deleting_state,
  rollout_failed_state, rollout_failing_state, rollout_one_batch_event, rollout_succeed_state,
  verifying_spec_state,
}

abbrev pub is_ended : RollingState → Bool
is_ended rollout_failed_state = true
is_ended rollout_succeed_state = true
is_ended _ = false

abbrev is_deleting : RollingState → Bool
is_deleting rollout_deleting_state = true
is_deleting _ = false

abbrev is_locating : RollingState → Bool
is_locating locating_target_app_state = true
is_locating _ = false

-- `Edge s b e s' b'`: the event `e` is legal in `(s, b)` and leads to `(s', b')`.
pub data Edge
    : RollingState
      → BatchRollingState
      → RolloutEvent
      → RollingState
      → BatchRollingState
      → Type 0 where
  locate :
      {b : BatchRollingState}
      → Edge locating_target_app_state b app_located_event verifying_spec_state b
  located :
      {s : RollingState} {b : BatchRollingState}
      → is_locating s ≡ false
      → Edge s b app_located_event s b
  verify :
      {b : BatchRollingState}
      → Edge verifying_spec_state b rolling_spec_verified_event initializing_state b
  initialize :
      {b : BatchRollingState}
      → Edge initializing_state b rolling_initialized_event rolling_in_batches_state
          batch_initializing_state
  start_batch :
      Edge rolling_in_batches_state batch_initializing_state initialized_one_batch_event
        rolling_in_batches_state batch_in_rolling_state
  roll_batch :
      Edge rolling_in_batches_state batch_in_rolling_state rollout_one_batch_event
        rolling_in_batches_state batch_verifying_state
  check_batch :
      Edge rolling_in_batches_state batch_verifying_state one_batch_available_event
        rolling_in_batches_state batch_finalizing_state
  finish_batch :
      Edge rolling_in_batches_state batch_finalizing_state finished_one_batch_event
        rolling_in_batches_state batch_ready_state
  finish_all :
      Edge rolling_in_batches_state batch_finalizing_state all_batch_finished_event finalising_state
        batch_ready_state
  approve :
      Edge rolling_in_batches_state batch_ready_state batch_rollout_approved_event
        rolling_in_batches_state batch_initializing_state
  fail_batch :
      {b : BatchRollingState}
      → Edge rolling_in_batches_state b batch_rollout_failed_event rollout_failed_state
          batch_rollout_failed_state
  succeed :
      {b : BatchRollingState}
      → Edge finalising_state b rolling_finalized_event rollout_succeed_state b
  fail :
      {b : BatchRollingState}
      → Edge rollout_failing_state b rolling_finalized_event rollout_failed_state b
  delete_done :
      {b : BatchRollingState}
      → Edge rollout_deleting_state b rolling_finalized_event rollout_failed_state b
  abandon_done :
      {b : BatchRollingState}
      → Edge rollout_abandoning_state b rolling_finalized_event locating_target_app_state
          batch_initializing_state
  restart :
      {s : RollingState} {b : BatchRollingState}
      → is_ended s ≡ true
      → Edge s b rolling_modified_event locating_target_app_state batch_initializing_state
  abandon :
      {s : RollingState} {b : BatchRollingState}
      → is_ended s ≡ false
      → is_deleting s ≡ false
      → Edge s b rolling_modified_event rollout_abandoning_state batch_initializing_state
  delete :
      {s : RollingState} {b : BatchRollingState}
      → is_ended s ≡ false
      → Edge s b rolling_deleted_event rollout_deleting_state batch_initializing_state

ruleset edges = (
  locate, located, verify, initialize, start_batch, roll_batch, check_batch, finish_batch,
  finish_all, approve, fail_batch, succeed, fail, delete_done, abandon_done, restart, abandon,
  delete,
)

module _ (rt : Runtime) where
  -- The states after an event.
  abbrev Lands : ℕ → RolloutEvent → RolloutStatus → RollingState → BatchRollingState → Type 0
  Lands now e r s b =
      ((state_transition rt now e r).rolling_state ≡ s)
      × ((state_transition rt now e r).batch_rolling_state ≡ b)

  lands :
      (now : ℕ) (r : RolloutStatus) {s s' : RollingState} {b b' : BatchRollingState}
      {e : RolloutEvent}
      → Edge s b e s' b'
      → r.rolling_state ≡ s
      → r.batch_rolling_state ≡ b
      → Lands now e r s' b'
  unfolding state_transition set_positive rollout_failed reset_status
  lands now r locate p q = ground arith
  lands now r (located h) p q = ground arith
  lands now r verify p q = ground arith
  lands now r initialize p q = ground arith
  lands now r start_batch p q = ground arith
  lands now r roll_batch p q = ground arith
  lands now r check_batch p q = ground arith
  lands now r finish_batch p q = ground arith
  lands now r finish_all p q = ground arith
  lands now r approve p q = ground arith
  lands now r fail_batch p q = ground arith
  lands now r succeed p q = ground arith
  lands now r fail p q = ground arith
  lands now r delete_done p q = ground arith
  lands now r abandon_done p q = ground arith
  lands now r (restart h) p q = ground arith
  lands now r (abandon h k) p q = ground arith
  lands now r (delete h) p q = ground arith

  -- The status with the rollout failed, and with the conditions that the event leaves.
  abbrev Refused : ℕ → RolloutEvent → RolloutStatus → Type 0
  Refused now e r = state_transition rt now e r ≡ record r {
    conditions = (state_transition rt now e r).conditions;
    rolling_state = rollout_failed_state;
  }

  follows :
      (now : ℕ) (s : RollingState) (b : BatchRollingState) (e : RolloutEvent) (r : RolloutStatus)
      → r.rolling_state ≡ s
      → r.batch_rolling_state ≡ b
      → Edge s b e
          (state_transition rt now e r).rolling_state
          (state_transition rt now e r).batch_rolling_state
        ⊎ Refused now e r
  unfolding state_transition set_positive rollout_failed reset_status
  follows now s b rolling_spec_verified_event r p q = grind (arith, edges)
  follows now s b e r p q = grind (arith, edges)

  -- Every event, in every status, either follows an edge of the diagram from the old pair of states
  -- to the new one, or fails the rollout and changes nothing else than the conditions.
  pub state_transition-Edge :
      (now : ℕ) (e : RolloutEvent) (r : RolloutStatus)
      → let r' = state_transition rt now e r in
        Edge r.rolling_state r.batch_rolling_state e r'.rolling_state r'.batch_rolling_state
        ⊎ (r' ≡ record r { conditions = r'.conditions; rolling_state = rollout_failed_state })
  state_transition-Edge now e r = follows now r.rolling_state r.batch_rolling_state e r refl refl

  -- Every edge of the diagram is taken: an event that is legal in the states of a status leads to
  -- the states that the diagram gives.
  pub Edge-state_transition :
      (now : ℕ) (e : RolloutEvent) (r : RolloutStatus) {s' : RollingState} {b' : BatchRollingState}
      → Edge r.rolling_state r.batch_rolling_state e s' b'
      → ((state_transition rt now e r).rolling_state ≡ s')
        × ((state_transition rt now e r).batch_rolling_state ≡ b')
  Edge-state_transition now e r h = lands now r h refl refl
