-- ===== src/Rollout/Witnesses.antt =====
-- The theorems about rollouts at concrete inputs, and tests of the definitions.
-- A runtime: `SetConditions` puts the condition first, and a percentage that cannot be read counts 0.
use rudr_x.Base.{List, String, [], ap, arith, inr, none, refl, some, sym, ℕ, ◌+◌, ◌∷◌, ◌≡◌, ◌⊎◌}
use rudr_x.Base.Int.{pos, ℤ, ◌+ℤ◌, ◌-ℤ◌, ◌≤ℤ◌}
use rudr_x.Rollout.Action.{Result, err, ok}
use rudr_x.Rollout.Batches.{
  batch_size, calculate_new_batch_target, verify_batches_with_rollout, verify_batches_with_scale,
}
use rudr_x.Rollout.Batches.Bounds.{HasSizesOnWay, Towards, last_index, pod_target-Towards}
use rudr_x.Rollout.Batches.Steps.{pod_target-step, rollout_target_bounds}
use rudr_x.Rollout.Batches.Sums.{HasSizes}
use rudr_x.Rollout.Plan.{may_move, reconcile, reconcile_rounds}
use rudr_x.Rollout.Plan.Control.{
  reconcile-BatchMove, reconcile-EndsFrom, reconcile-IsSound, reconcile-partition,
}
use rudr_x.Rollout.Plan.Ensures.{Ensures, Leads, Obeys}
use rudr_x.Rollout.Plan.Promises.{Accepts, HooksAccept, IsAutomatic}
use rudr_x.Rollout.Plan.Moves.{BatchMove, EndsFrom}
use rudr_x.Rollout.Plan.Progress.{OnWay, rounds_left}
use rudr_x.Rollout.Plan.Safety.{IsSound}
use rudr_x.Rollout.Plan.Success.{reconcile_rounds-succeed}
use rudr_x.Rollout.Samples.{batch_of, deployment_of, parent, runtime, willing}
use rudr_x.Rollout.Running.{Going, hook, hooked_plan, prompt_api, prompt_http}
use rudr_x.Rollout.Running.Rounds.{scaler-Accepts}
use rudr_x.Rollout.Workloads.System.{name_of, workload_controllers}
use rudr_x.Rollout.Workloads.{Deployment}
use rudr_x.Rollout.Action.{WorkloadController}
use rudr_x.Rollout.Selection.{ControllerKind, Workload, deployment_scale, get_workload_controller}
use rudr_x.Rollout.Status.{state_transition}
use rudr_x.Rollout.Status.Graph.{Edge, Edge-state_transition, state_transition-Edge, verify}
use rudr_x.Rollout.Types.{
  RolloutPlan, RolloutStatus, RolloutWebhook, batch_initializing_state, batch_ready_state, batches,
  finished_one_batch_event, initializing_state, rolling_in_batches_state,
  rolling_spec_verified_event, rollout_failed_state, rollout_succeed_state, verifying_spec_state,
}
use rudr_x.Rollout.Webhook.{
  Http, call_webhook, judge, make_http_request, method_or_post, requested, tries,
}
use rudr_x.Rollout.Webhook.Answers.{Fails, call_webhook-Fails, sent}

-- Three batches of 2, 3 and 5 pods.
abbrev plan : RolloutPlan
plan = hooked_plan

abbrev start : RolloutStatus
start = record {
  conditions = [];
  rollout_original_size = pos 0;
  rollout_target_size = pos 10;
  new_pod_template_identifier = "v2";
  last_applied_pod_template_identifier = "v1";
  rolling_state = verifying_spec_state;
  batch_rolling_state = batch_initializing_state;
  current_batch = pos 0;
  upgraded_replicas = pos 0;
  upgraded_ready_replicas = pos 0;
}

-- The world counts the requests, and answers 200.
abbrev http : Http ℕ
http = record {
  request_error = λ url method payload. none;
  send = λ url method payload w. (ok (pos 200), w + 1);
  retries = 3;
}

abbrev deployment : Workload
deployment = record { group = "apps"; kind = "Deployment"; namespace = "default"; name = "web" }

-- Seventeen rounds for three batches.
abbrev nows : List ℕ
nows = 1 ∷ 2 ∷ 3 ∷ 4 ∷ 5 ∷ 6 ∷ 7 ∷ 8 ∷ 9 ∷ 10 ∷ 11 ∷ 12 ∷ 13 ∷ 14 ∷ 15 ∷ 16 ∷ 17 ∷ []

Edge-state_transition_example :
    ((state_transition runtime 7 rolling_spec_verified_event start).rolling_state
      ≡ initializing_state)
    × ((state_transition runtime 7 rolling_spec_verified_event start).batch_rolling_state
        ≡ batch_initializing_state)
Edge-state_transition_example =
    Edge-state_transition runtime 7 rolling_spec_verified_event start verify

state_transition-Edge_example :
    let r' = state_transition runtime 7 finished_one_batch_event start in
    Edge verifying_spec_state batch_initializing_state finished_one_batch_event r'.rolling_state
      r'.batch_rolling_state
    ⊎ (r' ≡ record start { conditions = r'.conditions; rolling_state = rollout_failed_state })
state_transition-Edge_example = state_transition-Edge runtime 7 finished_one_batch_event start

plan_scales : verify_batches_with_scale runtime plan (pos 0) (pos 10) ≡ none
unfolding verify_batches_with_scale batches ◌+ℤ◌ ◌-ℤ◌ batch_size
plan_scales = refl

plan_rolls : verify_batches_with_rollout runtime plan (pos 10) ≡ none
unfolding verify_batches_with_rollout batches ◌+ℤ◌ batch_size
plan_rolls = refl

plan_sizes : HasSizes runtime (pos 10) (batches plan)
unfolding batches batch_size
plan_sizes = omega arith

plan_sizes_on_way : HasSizesOnWay runtime plan (pos 0) (pos 10)
unfolding batches batch_size
plan_sizes_on_way = omega arith

pod_target-Towards_example :
    Towards
      (pos 0)
      (pos 10)
      (calculate_new_batch_target runtime plan (pos 0) (pos 10) (pos 0))
      (calculate_new_batch_target runtime plan (pos 0) (pos 10) (pos 1))
unfolding batches ◌-ℤ◌
pod_target-Towards_example =
    pod_target-Towards runtime plan (pos 0) (pos 10) (pos 0) (pos 1) plan_scales plan_sizes_on_way
      (omega arith) (omega arith)

pod_target-step_example :
    calculate_new_batch_target runtime plan (pos 0) (pos 10) (pos 2)
    ≡ calculate_new_batch_target runtime plan (pos 0) (pos 10) (pos 2 -ℤ pos 1)
      +ℤ batch_size runtime (pos 10 -ℤ pos 0) (batch_of (pos 5))
unfolding batches
pod_target-step_example =
    pod_target-step runtime plan (pos 0) (pos 10) 2 {b = batch_of (pos 5)} refl plan_scales
      (λ n total. refl) (inr (pos 5, refl))

rollout_target_bounds_example :
    (pos 0 ≤ℤ calculate_new_batch_target runtime plan (pos 0) (pos 10) (pos 0))
    × (calculate_new_batch_target runtime plan (pos 0) (pos 10) (pos 0)
        ≤ℤ calculate_new_batch_target runtime plan (pos 0) (pos 10) (pos 1))
    × (calculate_new_batch_target runtime plan (pos 0) (pos 10) (pos 1) ≤ℤ pos 10)
unfolding batches ◌-ℤ◌
rollout_target_bounds_example =
    rollout_target_bounds runtime plan (pos 10) (pos 0) (pos 1) plan_rolls plan_sizes (omega arith)
      (omega arith)

start-IsSound : IsSound plan start
unfolding batches ◌-ℤ◌
start-IsSound = ground arith

willing-Obeys : Obeys plan willing
willing-Obeys = record {
  verify_spec = λ r w h. (refl, refl, refl);
  initialize = λ r w h. (refl, refl, refl);
  rollout_one_batch_pods = λ r w h. (refl, refl, refl);
  check_one_batch_pods = λ r w h. (refl, refl, refl);
  finalize_one_batch = λ r w h. (refl, refl, refl);
  finalize = λ well r w h. (refl, refl, refl);
}

plan-HooksAccept : HooksAccept prompt_http parent plan
unfolding batches call_webhook make_http_request requested tries judge
plan-HooksAccept = record { of_plan = (λ phase w. refl, tt); of_batches = (tt, (tt, (tt, tt))) }

plan-IsAutomatic : IsAutomatic plan
unfolding may_move
plan-IsAutomatic = record { running = refl; unparted = λ i h. refl }

start-OnWay : OnWay plan start
start-OnWay = record {
  sound = start-IsSound;
  forward = refl;
  first_verifying = λ e. refl;
  first_initializing = λ e. refl;
  last_finalising = λ e. cc;
  last_succeed = λ e. cc;
}

reconcile-IsSound_example :
    Ensures
      (reconcile runtime http parent plan 7 (λ k. willing) deployment none start 0)
      (λ _ r'. IsSound plan r')
unfolding batches ◌-ℤ◌
reconcile-IsSound_example =
    reconcile-IsSound runtime http parent plan 7 (λ k. willing) deployment none start 0
      (λ k. willing-Obeys) (omega arith) start-IsSound refl

-- The controllers of the repository, made anew in each round.
abbrev real_controllers : ℕ → ControllerKind → WorkloadController Deployment
real_controllers now = workload_controllers runtime prompt_api plan now deployment none

real-Accepts :
    (now : ℕ)
    → Accepts runtime prompt_http parent plan Going now (real_controllers now deployment_scale)
unfolding workload_controllers
real-Accepts now = scaler-Accepts now (name_of deployment)

reconcile_rounds-succeed_example :
    Leads
      (reconcile_rounds runtime prompt_http parent plan real_controllers deployment none nows start
        (deployment_of (pos 0)))
      (λ _ r' w'.
        (r'.rolling_state ≡ rollout_succeed_state)
        × (r'.current_batch ≡ last_index plan)
        × Going r' w')
unfolding batches rounds_left get_workload_controller ◌-ℤ◌
reconcile_rounds-succeed_example =
    reconcile_rounds-succeed runtime prompt_http parent plan real_controllers deployment none
      deployment_scale refl plan-HooksAccept (omega arith) plan-IsAutomatic Going real-Accepts nows
      start (deployment_of (pos 0)) start-OnWay
      (Going.fresh [] "v2" "v1" (pos 0) (pos 0) (pos 0) (pos 10) batch_initializing_state) refl

abbrev to_roll : RolloutStatus
to_roll = record start {
  rolling_state = rolling_in_batches_state;
  batch_rolling_state = batch_ready_state;
}

-- The plan with a partition after its first batch.
abbrev held_plan : RolloutPlan
held_plan = record plan { batch_partition = some (pos 0) }

to_roll-IsSound : IsSound held_plan to_roll
unfolding batches ◌-ℤ◌
to_roll-IsSound = ground arith

willing-held : Obeys held_plan willing
willing-held = record {
  verify_spec = λ r w h. (refl, refl, refl);
  initialize = λ r w h. (refl, refl, refl);
  rollout_one_batch_pods = λ r w h. (refl, refl, refl);
  check_one_batch_pods = λ r w h. (refl, refl, refl);
  finalize_one_batch = λ r w h. (refl, refl, refl);
  finalize = λ well r w h. (refl, refl, refl);
}

reconcile-BatchMove_example :
    Ensures
      (reconcile runtime http parent held_plan 7 (λ k. willing) deployment none to_roll 0)
      (λ _ r'. BatchMove held_plan to_roll r')
unfolding batches ◌-ℤ◌
reconcile-BatchMove_example =
    reconcile-BatchMove runtime http parent held_plan 7 (λ k. willing) deployment none to_roll 0
      (λ k. willing-held) (omega arith) to_roll-IsSound refl

reconcile-EndsFrom_example :
    Ensures
      (reconcile runtime http parent held_plan 7 (λ k. willing) deployment none to_roll 0)
      (λ _ r'. EndsFrom to_roll r')
unfolding get_workload_controller
reconcile-EndsFrom_example =
    reconcile-EndsFrom runtime http parent held_plan 7 (λ k. willing) deployment none to_roll 0
      {kind = deployment_scale} refl (λ k. willing-held) to_roll-IsSound refl

reconcile-partition_example :
    Ensures
      (reconcile runtime http parent held_plan 7 (λ k. willing) deployment none to_roll 0)
      (λ _ r'. r'.current_batch ≤ℤ pos 0)
unfolding batches ◌-ℤ◌
reconcile-partition_example =
    reconcile-partition runtime http parent held_plan 7 (λ k. willing) deployment none to_roll 0
      (pos 0) refl (omega arith) (omega arith) (λ k. willing-held) (omega arith) to_roll-IsSound
      refl

-- An endpoint that answers 503, which the webhook would even expect.
abbrev failing_http : Http ℕ
failing_http = record {
  request_error = λ url method payload. none;
  send = λ url method payload w. (ok (pos 503), w + 1);
  retries = 3;
}

abbrev expecting : RolloutWebhook
expecting = record hook { expected_status = pos 503 ∷ [] }

abbrev code_of : Result ℤ → ℤ
code_of (ok code) = code
code_of (err m) = pos 503

always-Fails : Fails failing_http expecting.url "POST" (sent failing_http parent "phase" expecting)
always-Fails w code e = rw (ap code_of (sym e)) (omega arith)

call_webhook-Fails_example :
    (m : String) × ((call_webhook failing_http parent "phase" expecting 0).0 ≡ some m)
unfolding method_or_post
call_webhook-Fails_example = call_webhook-Fails failing_http parent "phase" expecting 0 always-Fails

-- Four requests: the first one and three retries.
four_requests : (call_webhook failing_http parent "phase" expecting 0).1 ≡ 4
unfolding call_webhook make_http_request requested tries
four_requests = refl
