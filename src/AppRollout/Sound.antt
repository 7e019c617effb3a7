-- ===== src/AppRollout/Sound.antt =====
-- What a round of the rollout controller does to the status keeps it sound.
use rudr_x.Base.{Bool-cases, arith, false, inl, inr, refl, true, ℕ, ◌≡◌, ◌⊎◌}
use rudr_x.Base.Int.{int_laws, pos, ◌≤ℤ◌}
use rudr_x.AppRollout.{is_locating, started, started_status}
use rudr_x.AppRollout.Changes.{
  handle_rollout_modified, is_ended, is_rollout_modified, marked, round_revisions, with_event,
}
use rudr_x.AppRollout.Types.{AppRollout}
use rudr_x.Rollout.Batches.Bounds.{last_index}
use rudr_x.Rollout.Plan.{first_batch_state, initialized_status}
use rudr_x.Rollout.Plan.Safety.{IsSound, is_known, is_reconciled}
use rudr_x.Rollout.Status.{reset_status, state_transition}
use rudr_x.Rollout.Types.{
  RollingState, RolloutPlan, RolloutStatus, Runtime, app_located_event, other_rolling_state,
  rolling_modified_event,
}

-- A status that no round has touched has no state.
abbrev pub StartsFrom : RolloutPlan → RolloutStatus → Type 0
StartsFrom spec r = IsSound spec r ⊎ (r.rolling_state ≡ other_rolling_state "")

reset-IsSound :
    (spec : RolloutPlan) (r : RolloutStatus)
    → pos 0 ≤ℤ last_index spec
    → IsSound spec (reset_status r)
unfolding reset_status
reset-IsSound spec r some_batch = record {
  low = ground arith;
  high = some_batch;
  known = refl;
  in_step = λ e. absurd (ground arith);
  more = λ e. absurd (ground arith);
}

is_sound-batches :
    (spec : RolloutPlan) (r : RolloutStatus) → IsSound spec r → pos 0 ≤ℤ last_index spec
is_sound-batches spec r h = omega (int_laws, h.low, h.high)

pub started-IsSound :
    (a : AppRollout)
    → pos 0 ≤ℤ last_index a.rollout_plan
    → StartsFrom a.rollout_plan a.rollout_status
    → IsSound a.rollout_plan (started a).rollout_status
unfolding started started_status reset_status
started-IsSound a some_batch (inl h) = ground (arith, h.known)
started-IsSound a some_batch (inr e) =
    rw e (reset-IsSound a.rollout_plan a.rollout_status some_batch)

module _ (rt : Runtime) (now : ℕ) (spec : RolloutPlan) where
  modified-IsSound :
      (r : RolloutStatus)
      → IsSound spec r
      → IsSound spec (state_transition rt now rolling_modified_event r)
  unfolding state_transition reset_status
  modified-IsSound r h = ground arith

  pub located-IsSound :
      (r : RolloutStatus)
      → IsSound spec r
      → IsSound spec (state_transition rt now app_located_event r)
  unfolding state_transition
  located-IsSound r h = ground arith

pub initialized-IsSound :
    (spec : RolloutPlan) (r : RolloutStatus) → IsSound spec r → IsSound spec (initialized_status r)
unfolding initialized_status first_batch_state
initialized-IsSound spec r h = ground arith

pub round_revisions-IsSound :
    (rt : Runtime) (now : ℕ) (a : AppRollout)
    → IsSound a.rollout_plan a.rollout_status
    → let a' = (round_revisions rt now a).1 in
      (a'.rollout_plan ≡ a.rollout_plan) × IsSound a.rollout_plan a'.rollout_status
unfolding round_revisions handle_rollout_modified with_event marked
round_revisions-IsSound rt now a h =
    let modified = modified-IsSound rt now a.rollout_plan a.rollout_status h in
    elim (Bool-cases (is_rollout_modified a)) [
      | inr e ↦ rw e (refl, h)
      | inl e ↦ elim (Bool-cases (is_ended a.rollout_status.rolling_state)) [
        | inl ended ↦ rw (e, ended) (refl, modified)
        | inr rolling ↦ rw (e, rolling) (refl, modified)
      ]
    ]

pub reconciled-unless_locating :
    (s : RollingState) → is_known s ≡ true → is_locating s ≡ false → is_reconciled s ≡ true
unfolding is_locating
reconciled-unless_locating s known elsewhere = ground arith
