-- ===== src/Rollout/Plan/Moves.antt =====
-- How a round moves the current batch, and where it may end a rollout.
use rudr_x.Base.{Bool, String, arith, false, some, sym, true, ◌∙◌, ◌≡◌, ◌≢◌}
use rudr_x.Base.Int.{+ℤ_parts, pos, ℤ, ◌+ℤ◌, ◌≤ℤ◌}
use rudr_x.Rollout.Action.{err, ok}
use rudr_x.Rollout.Plan.{may_move}
use rudr_x.Rollout.Plan.Ensures.{SamePlace}
use rudr_x.Rollout.Types.{
  RollingState, RolloutPlan, RolloutStatus, batch_initializing_state, batch_ready_state,
  finalising_state, locating_target_app_state, rolling_in_batches_state, rollout_abandoning_state,
  rollout_deleting_state, rollout_failed_state, rollout_failing_state, rollout_succeed_state,
  verifying_spec_state,
}

-- How a round moves the current batch.
pub data BatchMove (spec : RolloutPlan) (r r' : RolloutStatus) : Type 0 where
  kept : r'.current_batch ≡ r.current_batch → BatchMove spec r r'
  advanced :
      r.rolling_state ≡ rolling_in_batches_state
      → r.batch_rolling_state ≡ batch_ready_state
      → may_move spec.batch_partition r.current_batch ≡ true
      → r'.batch_rolling_state ≡ batch_initializing_state
      → r'.current_batch ≡ r.current_batch +ℤ pos 1
      → BatchMove spec r r'
  reset :
      r.rolling_state ≡ rollout_abandoning_state
      → r'.rolling_state ≡ locating_target_app_state
      → r'.current_batch ≡ pos 0
      → BatchMove spec r r'

-- The states from which a round may fail the rollout.
abbrev pub may_fail : RollingState → Bool
may_fail verifying_spec_state = true
may_fail rollout_failing_state = true
may_fail rollout_deleting_state = true
may_fail rollout_failed_state = true
may_fail _ = false

abbrev pub may_succeed : RollingState → Bool
may_succeed finalising_state = true
may_succeed rollout_succeed_state = true
may_succeed _ = false

-- A rollout ends only from the states that may end it.
abbrev pub EndsFrom : RolloutStatus → RolloutStatus → Type 0
EndsFrom r r' =
    (r'.rolling_state ≡ rollout_failed_state → may_fail r.rolling_state ≡ true)
    × (r'.rolling_state ≡ rollout_succeed_state → may_succeed r.rolling_state ≡ true)

pub BatchMove-SamePlace :
    (spec : RolloutPlan) (r r' r2 : RolloutStatus)
    → SamePlace r r'
    → BatchMove spec r' r2
    → BatchMove spec r r2
BatchMove-SamePlace spec r r' r2 same (kept e) = kept (e ∙ same.2)
BatchMove-SamePlace spec r r' r2 same (advanced p q m b e) =
    advanced (sym same.0 ∙ p) (sym same.1 ∙ q) (rw (sym same.2) m) b (rw (sym same.2) e)
BatchMove-SamePlace spec r r' r2 same (reset p s e) = reset (sym same.0 ∙ p) s e

pub BatchMove-partition :
    (spec : RolloutPlan) (r r' : RolloutStatus) (p : ℤ)
    → spec.batch_partition ≡ some p
    → pos 0 ≤ℤ p
    → r.current_batch ≤ℤ p
    → BatchMove spec r r'
    → r'.current_batch ≤ℤ p
unfolding may_move
BatchMove-partition spec r r' p part low below (kept e) = rw e below
BatchMove-partition spec r r' p part low below (advanced q b m s e) =
    ground (arith, +ℤ_parts r.current_batch (pos 1))
BatchMove-partition spec r r' p part low below (reset q s e) = rw e low

pub ok_not_err : {A : Type 0} {a : A} {m : String} → ok a ≢ err m
ok_not_err = cc

pub EndsFrom-SamePlace : (r r' r2 : RolloutStatus) → SamePlace r r' → EndsFrom r' r2 → EndsFrom r r2
EndsFrom-SamePlace r r' r2 same h = (λ e. rw (sym same.0) (h.0 e), λ e. rw (sym same.0) (h.1 e))
