-- ===== src/Rollout/Workloads/DeploymentRollout/Halves.antt =====
-- The two halves of a batch that moves pods: what they leave alone, and where they end.
use rudr_x.Base.{Bool, arith, false, if◌then◌else◌, some, true, ℕ, ◌≡◌, ◌⊎◌}
use rudr_x.Base.Int.{to_int32, ℤ, ◌+ℤ◌, ◌==ℤ◌}
use rudr_x.Rollout.Action.{Action, Outcome, done, panic, ◌>>=◌}
use rudr_x.Rollout.Defaults.{default_strategy}
use rudr_x.Rollout.Types.{RolloutPlan, RolloutStatus, Runtime, decrease_first_strategy}
use rudr_x.Rollout.Workloads.{Api, Deployment, NamespacedName, noted, scale_deployment}
use rudr_x.Rollout.Workloads.DeploymentRollout.{
  current_source, current_target, first_half, half_due, not_yet, scale_done, second_done,
  second_half, upgraded,
}

-- What is outside the program after a call that returns.
abbrev pub Leaves : {A W : Type 0} → Outcome (A × RolloutStatus × W) → (W → Type 0) → Type 0
Leaves panic P = ⊥
Leaves (done (a, r, w)) P = P w

leaves_if :
    {A W : Type 0} (b : Bool) (m k : Action W A) (r : RolloutStatus) (w : W) (P : W → Type 0)
    → Leaves (m r w) P
    → Leaves (k r w) P
    → Leaves ((if b then m else k) r w) P
leaves_if true m k r w P p q = p
leaves_if false m k r w P p q = q

-- The world after one patch that scales a Deployment.
abbrev pub after_scaling : {W : Type 0} → Api W → Deployment → ℤ → W → W
after_scaling api d size w = (api.patch_deployment d (record d { replicas = some size }) w).1

module _ {W : Type 0} (rt : Runtime) (api : Api W) (spec : RolloutPlan) (now : ℕ)
    (source target : NamespacedName) (s t : Deployment) (m n : ℤ) (r : RolloutStatus) (w : W) where
  goal : ℤ
  goal = current_target rt api spec now source target r

  rest : ℤ
  rest = current_source rt api spec now source target r

  first_decrease :
      Leaves
        (first_half rt api spec now source target decrease_first_strategy s t r w)
        (λ w'. (w' ≡ w) ⊎ (w' ≡ after_scaling api s rest w))
  unfolding first_half upgraded scale_deployment noted rest
  first_decrease = ground arith

  second_decrease :
      (s.status_replicas ==ℤ rest) ≡ false
      → Leaves
          ((second_half rt api spec now source target decrease_first_strategy s t
              >>= second_done rt api spec now source target goal)
            r w)
          (λ w'. (w' ≡ w) ⊎ (w' ≡ after_scaling api s rest w))
  unfolding second_half second_done upgraded scale_deployment noted scale_done not_yet rest
  second_decrease many = ground arith

  -- With the strategy that decreases first, the target Deployment is not touched while the source
  -- still has a number of pods other than its size after the batch: the round leaves the cluster as
  -- it was or scales the source.
  pub half_due-decrease_first :
      default_strategy spec.rollout_strategy ≡ decrease_first_strategy
      → (s.status_replicas ==ℤ current_source rt api spec now source target r) ≡ false
      → Leaves (half_due rt api spec now source target s t m n r w) (λ w'.
        (w' ≡ w) ⊎ (w' ≡ after_scaling api s (current_source rt api spec now source target r) w))
  unfolding half_due goal rest
  half_due-decrease_first how many =
      rw (how, half_due)
        (leaves_if (to_int32 (m +ℤ n) ==ℤ r.rollout_target_size) _ _ r w _ first_decrease
          (second_decrease many))
