-- ===== src/Rollout/Samples.antt =====
-- Test data of the witnesses: a plan, a status, and a cluster that counts its patches.
use rudr_x.Base.{[], ap, arith, false, none, some, sym, true, ℕ, ◌+◌, ◌∷◌}
use rudr_x.Base.Int.{pos, ℤ, ◌-ℤ◌}
use rudr_x.Rollout.Action.{Action, WorkloadController, done, err, ok}
use rudr_x.Rollout.Plan.Safety.{IsSound}
use rudr_x.Rollout.Types.{
  RolloutBatch, RolloutPlan, RolloutStatus, Runtime, batch_in_rolling_state, batches,
  increase_first_strategy, int_val, rolling_in_batches_state, str_val,
}
use rudr_x.Rollout.Webhook.{Http, Parent}
use rudr_x.Rollout.Workloads.{Api, CloneSet, Deployment, OwnerReference}
use rudr_x.Rollout.Workloads.DeploymentRollout.Contract.{FillsReplicas}

abbrev pub runtime : Runtime
runtime = record {
  set_conditions = λ cs c. c ∷ cs;
  get_value = λ v total. elim v [ int_val n ↦ (n, none) | str_val s ↦ (pos 0, some s) ];
}

abbrev pub batch_of : ℤ → RolloutBatch
batch_of n = record { replicas = int_val n; max_unavailable = none; batch_rollout_webhooks = [] }

-- Three batches of 2, 3 and 5 pods.
abbrev pub plan : RolloutPlan
plan = record {
  rollout_strategy = increase_first_strategy;
  target_size = some (pos 10);
  num_batches = none;
  rollout_batches = some (batch_of (pos 2) ∷ batch_of (pos 3) ∷ batch_of (pos 5) ∷ []);
  batch_partition = none;
  paused = false;
  rollout_webhooks = [];
}

-- The second batch is rolling, from 0 pods to 10.
abbrev pub rolling : RolloutStatus
rolling = record {
  conditions = [];
  rollout_original_size = pos 0;
  rollout_target_size = pos 10;
  new_pod_template_identifier = "v2";
  last_applied_pod_template_identifier = "v1";
  rolling_state = rolling_in_batches_state;
  batch_rolling_state = batch_in_rolling_state;
  current_batch = pos 1;
  upgraded_replicas = pos 2;
  upgraded_ready_replicas = pos 2;
}

abbrev pub deployment_of : ℤ → Deployment
deployment_of n = record {
  name = "web";
  owner_references = [];
  paused = false;
  replicas = some n;
  status_replicas = n;
  ready_replicas = n;
  updated_replicas = n;
}

abbrev pub clone_set : CloneSet
clone_set = record {
  name = "web";
  owner_references = [];
  paused = true;
  partition = none;
  replicas = some (pos 2);
  status_replicas = pos 2;
  ready_replicas = pos 2;
  updated_replicas = pos 2;
  updated_ready_replicas = pos 2;
  update_revision = "v2";
}

abbrev pub rollout_owner : OwnerReference
rollout_owner = record {
  api_version = "core.oam.dev/v1beta1";
  kind = "AppRollout";
  name = "app";
  controller = true;
}

-- A cluster that counts the patches and accepts each.
abbrev pub api : Api ℕ
api = record {
  get_deployment = λ name w. (ok (deployment_of (pos 2)), w);
  patch_deployment = λ old new w. (ok new, w + 1);
  get_clone_set = λ name w. (ok clone_set, w);
  patch_clone_set = λ old new w. (ok new, w + 1);
  get_controller_of = λ os. elim os [ [] ↦ none | o ∷ rest ↦ some o ];
  controller_ref = rollout_owner;
  owner_text = λ o. o.name;
  compute_spec_hash = λ d. ok "v2";
}

abbrev pub http : Http ℕ
http = record {
  request_error = λ url method payload. none;
  send = λ url method payload w. (ok (pos 200), w);
  retries = 3;
}

abbrev pub parent : Parent
parent = record { name = "app"; namespace = "default" }

abbrev pub says : {A : Type 0} → A → Action ℕ A
says a r w = done (a, r, w)

-- A workload whose operations answer true.
abbrev pub willing : WorkloadController ℕ
willing = record {
  verify_spec = says (ok true);
  initialize = says (ok true);
  rollout_one_batch_pods = says (ok true);
  check_one_batch_pods = says (ok true);
  finalize_one_batch = says (ok true);
  finalize = λ well. says true;
}

pub fills : FillsReplicas api
fills name w d e = (pos 2, sym (ap (λ a. elim a [ ok x ↦ x.replicas | err m ↦ none ]) e))

pub rolling-IsSound : IsSound plan rolling
unfolding batches ◌-ℤ◌
rolling-IsSound = ground arith
