-- ===== src/Rollout/Running/Rounds.antt =====
-- The rounds of the scaling: the controller keeps what a rollout that goes well relies on.
use rudr_x.Base.{arith, refl, suc, true, zero, ℕ, ◌≡◌}
use rudr_x.Base.Int.{to_int32, ◌+ℤ◌, ◌-ℤ◌}
use rudr_x.Rollout.Action.{Outcome, WorkloadController, ok}
use rudr_x.Rollout.Batches.{
  batch_size, calculate_new_batch_target, get_deploy_replica_size, verify_batches_with_scale,
}
use rudr_x.Rollout.Plan.{next_event}
use rudr_x.Rollout.Plan.Promises.{Accepts, Answers}
use rudr_x.Rollout.Samples.{parent, runtime}
use rudr_x.Rollout.Status.{set_positive, state_transition}
use rudr_x.Rollout.Types.{
  RolloutEvent, RolloutStatus, all_batch_finished_event, batch_at, batch_finalizing_state,
  batch_in_rolling_state, batch_initializing_state, batch_ready_state, batch_rollout_approved_event,
  batch_verifying_state, batches, finalising_state, initialized_one_batch_event, initializing_state,
  one_batch_available_event, rolling_in_batches_state, rolling_initialized_event,
  rolling_spec_verified_event, rollout_one_batch_event, verifying_spec_state,
}
use rudr_x.Rollout.Webhook.{call_webhook, make_http_request, requested, tries}
use rudr_x.Rollout.Workloads.{Deployment, NamespacedName, claim_deployment, noted}
use rudr_x.Rollout.Workloads.Batch.{check_scaled_pods, scale_target}
use rudr_x.Rollout.Workloads.DeploymentScale.{deployment_scale_controller}
use rudr_x.Rollout.Running.{
  Going, confirmed, ending, fresh, grown, hooked_plan, opening, prompt_api, prompt_http, succeeded,
  upgrading, verified, waiting,
}

module _ (now : ℕ) (name : NamespacedName) where
  abbrev scaler : WorkloadController Deployment
  scaler = deployment_scale_controller runtime prompt_api hooked_plan now name

  abbrev Next :
      {A : Type 0}
      → A
      → RolloutStatus
      → RolloutEvent
      → Outcome (A × RolloutStatus × Deployment)
      → Type 0
  Next a r e o = Answers runtime prompt_http parent hooked_plan Going now a r e o

  verifying-Going :
      {r : RolloutStatus} {w : Deployment}
      → Going r w
      → r.rolling_state ≡ verifying_spec_state
      → Next (ok true) r rolling_spec_verified_event (scaler.verify_spec r w)
  unfolding deployment_scale_controller state_transition batches batch_size set_positive
      verify_batches_with_scale ◌-ℤ◌ ◌+ℤ◌ to_int32 calculate_new_batch_target claim_deployment
      get_deploy_replica_size noted next_event check_scaled_pods scale_target batch_at
  verifying-Going (fresh cs m n u v s t b) p = (refl, (refl, refl, refl), verified _ m n u v b)
  verifying-Going (verified cs m n u v b) p = cc
  verifying-Going (opening i cs m n u v h) p = cc
  verifying-Going (upgrading i cs m n u v h) p = cc
  verifying-Going (grown i cs m n u h) p = cc
  verifying-Going (confirmed i cs m n u h) p = cc
  verifying-Going (waiting i cs m n u h) p = cc
  verifying-Going (ending cs m n u) p = cc
  verifying-Going (succeeded cs m n u) p = cc

  initializing-Going :
      {r : RolloutStatus} {w : Deployment}
      → Going r w
      → r.rolling_state ≡ initializing_state
      → Next (ok true) r rolling_initialized_event (scaler.initialize r w)
  unfolding deployment_scale_controller state_transition batches batch_size set_positive
      verify_batches_with_scale ◌-ℤ◌ ◌+ℤ◌ to_int32 calculate_new_batch_target claim_deployment
      get_deploy_replica_size noted next_event check_scaled_pods scale_target batch_at
  initializing-Going (fresh cs m n u v s t b) p = cc
  initializing-Going (verified cs m n u v b) p =
      (refl, (refl, refl, refl), opening zero _ m n u v (omega arith))
  initializing-Going (opening i cs m n u v h) p = cc
  initializing-Going (upgrading i cs m n u v h) p = cc
  initializing-Going (grown i cs m n u h) p = cc
  initializing-Going (confirmed i cs m n u h) p = cc
  initializing-Going (waiting i cs m n u h) p = cc
  initializing-Going (ending cs m n u) p = cc
  initializing-Going (succeeded cs m n u) p = cc

  opening-Going :
      {r : RolloutStatus} {w : Deployment}
      → Going r w
      → r.rolling_state ≡ rolling_in_batches_state
      → r.batch_rolling_state ≡ batch_initializing_state
      → Going (state_transition runtime now initialized_one_batch_event r) w
  unfolding deployment_scale_controller state_transition batches batch_size set_positive
      verify_batches_with_scale ◌-ℤ◌ ◌+ℤ◌ to_int32 calculate_new_batch_target claim_deployment
      get_deploy_replica_size noted next_event check_scaled_pods scale_target batch_at
  opening-Going (fresh cs m n u v s t b) p q = cc
  opening-Going (verified cs m n u v b) p q = cc
  opening-Going (opening i cs m n u v h) p q = upgrading i _ m n u v h
  opening-Going (upgrading i cs m n u v h) p q = cc
  opening-Going (grown i cs m n u h) p q = cc
  opening-Going (confirmed i cs m n u h) p q = cc
  opening-Going (waiting i cs m n u h) p q = cc
  opening-Going (ending cs m n u) p q = cc
  opening-Going (succeeded cs m n u) p q = cc

  upgrading-Going :
      {r : RolloutStatus} {w : Deployment}
      → Going r w
      → r.rolling_state ≡ rolling_in_batches_state
      → r.batch_rolling_state ≡ batch_in_rolling_state
      → Next (ok true) r rollout_one_batch_event (scaler.rollout_one_batch_pods r w)
  unfolding deployment_scale_controller state_transition batches batch_size set_positive
      verify_batches_with_scale ◌-ℤ◌ ◌+ℤ◌ to_int32 calculate_new_batch_target claim_deployment
      get_deploy_replica_size noted next_event check_scaled_pods scale_target batch_at
  upgrading-Going (fresh cs m n u v s t b) p q = cc
  upgrading-Going (verified cs m n u v b) p q = cc
  upgrading-Going (opening i cs m n u v h) p q = cc
  upgrading-Going (upgrading zero cs m n u v h) p q =
      (refl, (refl, refl, refl), grown zero _ m n u h)
  upgrading-Going (upgrading (suc zero) cs m n u v h) p q =
      (refl, (refl, refl, refl), grown (suc zero) _ m n u h)
  upgrading-Going (upgrading (suc (suc zero)) cs m n u v h) p q =
      (refl, (refl, refl, refl), grown (suc (suc zero)) _ m n u h)
  upgrading-Going (upgrading (suc (suc (suc i))) cs m n u v h) p q = absurd (omega arith)
  upgrading-Going (grown i cs m n u h) p q = cc
  upgrading-Going (confirmed i cs m n u h) p q = cc
  upgrading-Going (waiting i cs m n u h) p q = cc
  upgrading-Going (ending cs m n u) p q = cc
  upgrading-Going (succeeded cs m n u) p q = cc

  grown-Going :
      {r : RolloutStatus} {w : Deployment}
      → Going r w
      → r.rolling_state ≡ rolling_in_batches_state
      → r.batch_rolling_state ≡ batch_verifying_state
      → Next (ok true) r one_batch_available_event (scaler.check_one_batch_pods r w)
  unfolding deployment_scale_controller state_transition batches batch_size set_positive
      verify_batches_with_scale ◌-ℤ◌ ◌+ℤ◌ to_int32 calculate_new_batch_target claim_deployment
      get_deploy_replica_size noted next_event check_scaled_pods scale_target batch_at
  grown-Going (fresh cs m n u v s t b) p q = cc
  grown-Going (verified cs m n u v b) p q = cc
  grown-Going (opening i cs m n u v h) p q = cc
  grown-Going (upgrading i cs m n u v h) p q = cc
  grown-Going (grown zero cs m n u h) p q = (refl, (refl, refl, refl), confirmed zero _ m n _ h)
  grown-Going (grown (suc zero) cs m n u h) p q =
      (refl, (refl, refl, refl), confirmed (suc zero) _ m n _ h)
  grown-Going (grown (suc (suc zero)) cs m n u h) p q =
      (refl, (refl, refl, refl), confirmed (suc (suc zero)) _ m n _ h)
  grown-Going (grown (suc (suc (suc i))) cs m n u h) p q = absurd (omega arith)
  grown-Going (confirmed i cs m n u h) p q = cc
  grown-Going (waiting i cs m n u h) p q = cc
  grown-Going (ending cs m n u) p q = cc
  grown-Going (succeeded cs m n u) p q = cc

  confirmed-Going :
      {r : RolloutStatus} {w : Deployment}
      → Going r w
      → r.rolling_state ≡ rolling_in_batches_state
      → r.batch_rolling_state ≡ batch_finalizing_state
      → Next (ok true) r (next_event hooked_plan r.current_batch) (scaler.finalize_one_batch r w)
  unfolding deployment_scale_controller state_transition batches batch_size set_positive
      verify_batches_with_scale ◌-ℤ◌ ◌+ℤ◌ to_int32 calculate_new_batch_target claim_deployment
      get_deploy_replica_size noted next_event check_scaled_pods scale_target batch_at
  confirmed-Going (fresh cs m n u v s t b) p q = cc
  confirmed-Going (verified cs m n u v b) p q = cc
  confirmed-Going (opening i cs m n u v h) p q = cc
  confirmed-Going (upgrading i cs m n u v h) p q = cc
  confirmed-Going (grown i cs m n u h) p q = cc
  confirmed-Going (confirmed zero cs m n u h) p q =
      (refl, (refl, refl, refl), waiting zero _ m n u (omega arith))
  confirmed-Going (confirmed (suc zero) cs m n u h) p q =
      (refl, (refl, refl, refl), waiting (suc zero) _ m n u (omega arith))
  confirmed-Going (confirmed (suc (suc zero)) cs m n u h) p q =
      (refl, (refl, refl, refl), ending _ m n u)
  confirmed-Going (confirmed (suc (suc (suc i))) cs m n u h) p q = absurd (omega arith)
  confirmed-Going (waiting i cs m n u h) p q = cc
  confirmed-Going (ending cs m n u) p q = cc
  confirmed-Going (succeeded cs m n u) p q = cc

  waiting-Going :
      {r : RolloutStatus} {w : Deployment}
      → Going r w
      → r.rolling_state ≡ rolling_in_batches_state
      → r.batch_rolling_state ≡ batch_ready_state
      → Going (state_transition runtime now batch_rollout_approved_event r) w
  unfolding deployment_scale_controller state_transition batches batch_size set_positive
      verify_batches_with_scale ◌-ℤ◌ ◌+ℤ◌ to_int32 calculate_new_batch_target claim_deployment
      get_deploy_replica_size noted next_event check_scaled_pods scale_target batch_at
  waiting-Going (fresh cs m n u v s t b) p q = cc
  waiting-Going (verified cs m n u v b) p q = cc
  waiting-Going (opening i cs m n u v h) p q = cc
  waiting-Going (upgrading i cs m n u v h) p q = cc
  waiting-Going (grown i cs m n u h) p q = cc
  waiting-Going (confirmed i cs m n u h) p q = cc
  waiting-Going (waiting zero cs m n u h) p q = opening (suc zero) _ m n u _ (omega arith)
  waiting-Going (waiting (suc zero) cs m n u h) p q =
      opening (suc (suc zero)) _ m n u _ (omega arith)
  waiting-Going (waiting (suc (suc i)) cs m n u h) p q = absurd (omega arith)
  waiting-Going (ending cs m n u) p q = cc
  waiting-Going (succeeded cs m n u) p q = cc

  ending-Going :
      {r : RolloutStatus} {w : Deployment}
      → Going r w
      → r.rolling_state ≡ finalising_state
      → Next true r all_batch_finished_event (scaler.finalize true r w)
  unfolding deployment_scale_controller state_transition batches batch_size set_positive
      verify_batches_with_scale ◌-ℤ◌ ◌+ℤ◌ to_int32 calculate_new_batch_target claim_deployment
      get_deploy_replica_size noted next_event check_scaled_pods scale_target batch_at
  ending-Going (fresh cs m n u v s t b) p = cc
  ending-Going (verified cs m n u v b) p = cc
  ending-Going (opening i cs m n u v h) p = cc
  ending-Going (upgrading i cs m n u v h) p = cc
  ending-Going (grown i cs m n u h) p = cc
  ending-Going (confirmed i cs m n u h) p = cc
  ending-Going (waiting i cs m n u h) p = cc
  ending-Going (ending cs m n u) p = (refl, (refl, refl, refl), succeeded _ m n u)
  ending-Going (succeeded cs m n u) p = cc

  pub scaler-Accepts : Accepts runtime prompt_http parent hooked_plan Going now scaler
  unfolding call_webhook make_http_request requested tries
  scaler-Accepts = record {
    verifying = λ r w met. verifying-Going met.1 met.2;
    initializing = λ r w met. initializing-Going met.1 met.2;
    batch_initializing = λ r w met. opening-Going met.0.1 met.0.2 met.1;
    batch_rolling = λ r w met. upgrading-Going met.0.1 met.0.2 met.1;
    batch_verifying = λ r w met. grown-Going met.0.1 met.0.2 met.1;
    batch_finalizing = λ r w met. confirmed-Going met.0.1 met.0.2 met.1;
    batch_ready = λ r w met. waiting-Going met.0.1 met.0.2 met.1;
    finalising = λ r w met. ending-Going met.1 met.2;
    hooked = λ phase h r w good. good;
  }
