-- ===== src/Rollout/Running.antt =====
-- A rollout that goes well: a Deployment is scaled from 0 pods to 10 in the three batches of the test
-- plan, with a webhook, by the controller of deployment_scale_controller.go, over a cluster whose pods are ready at
-- once.
pub mod Rounds
use rudr_x.Base.{List, String, [], arith, none, refl, some, suc, true, zero, ℕ, ◌<◌, ◌∷◌, ◌≡◌}
use rudr_x.Base.Int.{pos, to_int32, ℤ, ◌+ℤ◌, ◌-ℤ◌}
use rudr_x.Rollout.Action.{Outcome, WorkloadController, err, ok}
use rudr_x.Rollout.Batches.{
  batch_size, calculate_new_batch_target, get_deploy_replica_size, verify_batches_with_scale,
}
use rudr_x.Rollout.Plan.{next_event}
use rudr_x.Rollout.Plan.Promises.{Accepts, Answers}
use rudr_x.Rollout.Samples.{deployment_of, parent, plan, rollout_owner, runtime}
use rudr_x.Rollout.Status.{set_positive, state_transition}
use rudr_x.Rollout.Types.{
  BatchRollingState, Condition, RollingState, RolloutEvent, RolloutPlan, RolloutStatus,
  RolloutWebhook, all_batch_finished_event, batch_at, batch_finalizing_state,
  batch_in_rolling_state, batch_initializing_state, batch_ready_state, batch_rollout_approved_event,
  batch_verifying_state, batches, finalising_state, initialized_one_batch_event, initializing_state,
  one_batch_available_event, pre_batch_rollout_hook, rolling_in_batches_state,
  rolling_initialized_event, rolling_spec_verified_event, rollout_one_batch_event,
  rollout_succeed_state, verifying_spec_state,
}
use rudr_x.Rollout.Webhook.{Http, call_webhook, make_http_request, requested, tries}
use rudr_x.Rollout.Workloads.{Api, Deployment, NamespacedName, claim_deployment, noted}
use rudr_x.Rollout.Workloads.Batch.{check_scaled_pods, scale_target}
use rudr_x.Rollout.Workloads.DeploymentScale.{deployment_scale_controller}

-- The cluster is the one Deployment; a patch of its replicas is carried out before the answer.
abbrev pub settled_pods : Deployment → Deployment
settled_pods d = record d {
  status_replicas = get_deploy_replica_size d.replicas;
  ready_replicas = get_deploy_replica_size d.replicas;
  updated_replicas = get_deploy_replica_size d.replicas;
}

abbrev pub prompt_api : Api Deployment
prompt_api = record {
  get_deployment = λ name w. (ok w, w);
  patch_deployment = λ old new w. (ok (settled_pods new), settled_pods new);
  get_clone_set = λ name w. (err "not found", w);
  patch_clone_set = λ old new w. (err "not found", w);
  get_controller_of = λ os. elim os [ [] ↦ none | o ∷ rest ↦ some o ];
  controller_ref = rollout_owner;
  owner_text = λ o. o.name;
  compute_spec_hash = λ d. ok "v2";
}

abbrev pub prompt_http : Http Deployment
prompt_http = record {
  request_error = λ url method payload. none;
  send = λ url method payload w. (ok (pos 200), w);
  retries = 3;
}

abbrev pub hook : RolloutWebhook
hook = record {
  type = pre_batch_rollout_hook;
  name = "check";
  url = "http://check";
  method = "";
  expected_status = pos 200 ∷ [];
  metadata = none;
}

-- The batches of 2, 3 and 5 pods, with a webhook that is called before each.
abbrev pub hooked_plan : RolloutPlan
hooked_plan = record plan { rollout_webhooks = hook ∷ [] }

-- The pods before the batch `i` and after it.
abbrev pub before : ℕ → ℤ
before zero = pos 0
before (suc zero) = pos 2
before (suc (suc i)) = pos 5

abbrev pub after : ℕ → ℤ
after zero = pos 2
after (suc zero) = pos 5
after (suc (suc i)) = pos 10

abbrev pub claimed_of : ℤ → Deployment
claimed_of n = record (deployment_of n) { owner_references = rollout_owner ∷ [] }

-- A status by its fields.
abbrev pub at :
    List Condition
    → String
    → String
    → ℤ
    → ℤ
    → ℤ
    → ℤ
    → RollingState
    → BatchRollingState
    → ℤ
    → RolloutStatus
at cs new_hash old_hash upgraded_ready scaled from to rolling batch current = record {
  conditions = cs;
  rollout_original_size = from;
  rollout_target_size = to;
  new_pod_template_identifier = new_hash;
  last_applied_pod_template_identifier = old_hash;
  rolling_state = rolling;
  batch_rolling_state = batch;
  current_batch = current;
  upgraded_replicas = scaled;
  upgraded_ready_replicas = upgraded_ready;
}

-- The statuses that the scaling passes through, with the Deployment as it is then.
pub data Going : RolloutStatus → Deployment → Type 0 where
  fresh :
      (cs : List Condition) (m n : String) (u v s t : ℤ) (b : BatchRollingState)
      → Going (at cs m n u v s t verifying_spec_state b (pos 0)) (deployment_of (pos 0))
  verified :
      (cs : List Condition) (m n : String) (u v : ℤ) (b : BatchRollingState)
      → Going (at cs m n u v (pos 0) (pos 10) initializing_state b (pos 0)) (deployment_of (pos 0))
  opening :
      (i : ℕ) (cs : List Condition) (m n : String) (u v : ℤ)
      → i < 3
      → Going
          (at cs m n u v (pos 0) (pos 10) rolling_in_batches_state batch_initializing_state (pos i))
          (claimed_of (before i))
  upgrading :
      (i : ℕ) (cs : List Condition) (m n : String) (u v : ℤ)
      → i < 3
      → Going
          (at cs m n u v (pos 0) (pos 10) rolling_in_batches_state batch_in_rolling_state (pos i))
          (claimed_of (before i))
  grown :
      (i : ℕ) (cs : List Condition) (m n : String) (u : ℤ)
      → i < 3
      → Going
          (at cs m n u
            (after i)
            (pos 0)
            (pos 10)
            rolling_in_batches_state
            batch_verifying_state
            (pos i))
          (claimed_of (after i))
  confirmed :
      (i : ℕ) (cs : List Condition) (m n : String) (u : ℤ)
      → i < 3
      → Going
          (at cs m n u
            (after i)
            (pos 0)
            (pos 10)
            rolling_in_batches_state
            batch_finalizing_state
            (pos i))
          (claimed_of (after i))
  waiting :
      (i : ℕ) (cs : List Condition) (m n : String) (u : ℤ)
      → i < 2
      → Going
          (at cs m n u
            (after i)
            (pos 0)
            (pos 10)
            rolling_in_batches_state
            batch_ready_state
            (pos i))
          (claimed_of (after i))
  ending :
      (cs : List Condition) (m n : String) (u : ℤ)
      → Going
          (at cs m n u (pos 10) (pos 0) (pos 10) finalising_state batch_ready_state (pos 2))
          (claimed_of (pos 10))
  succeeded :
      (cs : List Condition) (m n : String) (u : ℤ)
      → Going
          (at cs m n u (pos 10) (pos 0) (pos 10) rollout_succeed_state batch_ready_state (pos 2))
          (deployment_of (pos 10))
