-- ===== src/Rollout/Workloads/DeploymentRollout.antt =====
-- The controller of deployment_rollout_controller.go, which moves pods from a source Deployment to a
-- target Deployment.
pub mod Contract
pub mod Halves
use rudr_x.Base.{Bool, Option, String, false, if◌then◌else◌, none, not, some, str_eq, true, ℕ, ◌&&◌}
use rudr_x.Base.Int.{leb_ℤ, ltb_ℤ, pos, to_int32, ℤ, ◌+ℤ◌, ◌-ℤ◌, ◌==ℤ◌}
use rudr_x.Base.Text.{decimal, ◌+++◌}
use rudr_x.Rollout.Action.{
  Action, Result, WorkloadController, err, external, modify, ok, or_panic, pure, status, ◌>>=◌,
  ◌>>◌,
}
use rudr_x.Rollout.Batches.{
  calculate_new_batch_target, get_deploy_replica_size, verify_batches_with_rollout,
}
use rudr_x.Rollout.Defaults.{default_strategy}
use rudr_x.Rollout.Status.{rollout_retry}
use rudr_x.Rollout.Types.{
  RolloutBatch, RolloutPlan, RolloutStatus, RolloutStrategyType, Runtime, decrease_first_strategy,
  increase_first_strategy, other_strategy, unset_strategy,
}
use rudr_x.Rollout.Workloads.{
  Api, Deployment, NamespacedName, claim_deployment, fails_if, release_deployment, scale_deployment,
  settle, waits, ◌or_else◌,
}
use rudr_x.Rollout.Workloads.Batch.{current_batch, max_unavailable_of}

-- The text of a strategy.
unfoldable pub strategy_text : RolloutStrategyType → String
strategy_text unset_strategy = ""
strategy_text increase_first_strategy = "IncreaseFirst"
strategy_text decrease_first_strategy = "DecreaseFirst"
strategy_text (other_strategy s) = s

-- What a Deployment that is not paused has to be: settled at its size.
abbrev pub is_moving : Deployment → Bool
is_moving d = not d.paused && not (get_deploy_replica_size d.replicas ==ℤ d.status_replicas)

module _ {W : Type 0} (rt : Runtime) (api : Api W) (spec : RolloutPlan) (now : ℕ)
    (source target : NamespacedName) where
  unfoldable pub with_source : Result Deployment → Action W (Result (Deployment × Deployment))
  with_source (err m) = pure (err m)
  with_source (ok s) = external (api.get_deployment target) >>= λ t.
      pure (elim t [ err m ↦ err m | ok d ↦ ok (s, d) ])

  -- `fetchDeployments`: the source, then the target.
  unfoldable pub fetch_deployments : Action W (Result (Deployment × Deployment))
  unfolding with_source
  fetch_deployments = external (api.get_deployment source) >>= with_source

  -- `calculateRolloutTotalSize`.
  unfoldable pub calculate_rollout_total_size : Deployment → Result ℤ
  unfolding get_deploy_replica_size
  calculate_rollout_total_size s =
      let size = get_deploy_replica_size s.replicas in
      elim spec.target_size [
        | none ↦ ok size
        | some n ↦
            if ltb_ℤ n size
            then err (
                "target size `"
                +++ decimal n
                +++ "` less than source size `"
                +++ decimal size
                +++ "`")
            else ok n
      ]

  unfoldable pub controlled : String → Deployment → Option String
  controlled which d = elim (api.get_controller_of d.owner_references) [
    | none ↦ none
    | some o ↦ some (
        "the "
        +++ which
        +++ " deployment "
        +++ d.name
        +++ " has a controller owner "
        +++ api.owner_text o)
  ]

  unfoldable pub moving : String → Deployment → Option String
  moving which d = fails_if (is_moving d) (
      "the " +++ which +++ " deployment " +++ d.name
      +++ " is still being reconciled, need to be paused or stable")

  -- The checks of `VerifySpec` in their order, once the hash of the target is known.
  unfoldable pub rollout_error :
      Deployment → Deployment → ℤ → String → RolloutStatus → Option String
  unfolding moving controlled
  rollout_error s t total hash r =
      fails_if (str_eq hash r.last_applied_pod_template_identifier)
        ("there is no difference between the source and target, hash = " +++ hash)
      or_else verify_batches_with_rollout rt spec total
      or_else moving "source" s
      or_else moving "target" t
      or_else controlled "target" t
      or_else controlled "source" s

  -- `VerifySpec` once the hash of the target is computed.
  unfoldable pub verify_hash : Deployment → Deployment → ℤ → String → Action W (Result Bool)
  unfolding rollout_error
  verify_hash s t total hash = status >>= λ r. elim (rollout_error s t total hash r) [
    | some m ↦ pure (err m)
    | none ↦ modify (λ r'. record r' { new_pod_template_identifier = hash }) >> pure (ok true)
  ]

  unfoldable pub verify_total : Deployment → Deployment → Result ℤ → Action W (Result Bool)
  unfolding verify_hash waits
  verify_total s t (err m) = pure (err m)
  verify_total s t (ok total) =
      modify (λ r. record r { rollout_target_size = total }) >> elim (api.compute_spec_hash t) [
        | err m ↦ waits rt now m
        | ok hash ↦ verify_hash s t total hash
      ]

  -- `VerifySpec`.
  unfoldable pub verify_spec : Action W (Result Bool)
  unfolding fetch_deployments settle waits verify_total calculate_rollout_total_size
  verify_spec =
      fetch_deployments
      >>= settle (waits rt now) (λ (s, t). verify_total s t (calculate_rollout_total_size s))

  unfoldable pub claim_target : Deployment → Deployment × Result Bool → Action W (Result Bool)
  unfolding claim_deployment get_deploy_replica_size
  claim_target t (s, err m) = pure (ok false)
  claim_target t (s, ok before) = status >>= λ r.
      claim_deployment rt api now t
        (some (to_int32 (r.rollout_target_size -ℤ get_deploy_replica_size s.replicas)))
      >>= λ (d, c). pure (elim c [ err m ↦ ok false | ok b ↦ ok true ])

  -- `Initialize`: the source is claimed, then the target, which gets the pods that the source lacks.
  unfoldable pub initialize : Action W (Result Bool)
  unfolding fetch_deployments settle waits claim_deployment claim_target
  initialize =
      fetch_deployments
      >>= settle (waits rt now) (λ (s, t). claim_deployment rt api now s none >>= claim_target t)

  -- `calculateCurrentTarget` and `calculateCurrentSource`.
  unfoldable pub current_target : RolloutStatus → ℤ
  current_target r =
      to_int32 (calculate_new_batch_target rt spec (pos 0) r.rollout_target_size r.current_batch)

  unfoldable pub current_source : RolloutStatus → ℤ
  unfolding current_target
  current_source r = to_int32 (r.rollout_target_size -ℤ current_target r)

  -- A batch whose pods are all asked for.
  unfoldable pub upgraded : ℤ → Action W (Result Bool)
  upgraded goal = modify (λ r. record r { upgraded_replicas = goal }) >> pure (ok true)

  -- `rolloutBatchFirstHalf`.
  unfoldable pub first_half : RolloutStrategyType → Deployment → Deployment → Action W (Result Bool)
  unfolding current_target current_source upgraded get_deploy_replica_size scale_deployment
      strategy_text
  first_half increase_first_strategy s t = status >>= λ r.
      if ltb_ℤ (get_deploy_replica_size t.replicas) (current_target r)
      then (scale_deployment rt api now t (current_target r) >> pure (ok false))
      else upgraded (current_target r)
  first_half decrease_first_strategy s t = status >>= λ r.
      if ltb_ℤ (current_source r) (get_deploy_replica_size s.replicas)
      then (scale_deployment rt api now s (current_source r) >> pure (ok false))
      else upgraded (current_target r)
  first_half other s t =
      pure (err ("encountered an unknown rolloutStrategy `" +++ strategy_text other +++ "`"))

  -- A half that waits, or the scaling that it asks for.
  unfoldable pub not_yet : String → Action W Bool
  not_yet m = modify (rollout_retry rt now m) >> pure false

  unfoldable pub scale_done : Option String → Action W Bool
  scale_done none = pure true
  scale_done (some m) = pure false

  -- The ready pods of the target, with those that may be missing, reach the goal.
  unfoldable pub enough_ready : Deployment → RolloutBatch → RolloutStatus → Bool
  unfolding max_unavailable_of current_target
  enough_ready t b r =
      leb_ℤ (current_target r)
        (to_int32 (t.ready_replicas +ℤ to_int32 (max_unavailable_of rt r.rollout_target_size b)))

  -- `rolloutBatchSecondHalf`: a strategy that is neither of the two does nothing.
  unfoldable pub second_half : RolloutStrategyType → Deployment → Deployment → Action W Bool
  unfolding current_batch enough_ready current_source current_target scale_deployment scale_done
      not_yet
  second_half increase_first_strategy s t = current_batch spec >>= λ b. status >>= λ r.
      if enough_ready t b r
      then (scale_deployment rt api now s (current_source r) >>= scale_done)
      else not_yet (
          "the batch "
          +++ decimal r.current_batch
          +++ " is not ready yet with "
          +++ decimal t.ready_replicas
          +++ " target pods ready")
  second_half decrease_first_strategy s t = status >>= λ r.
      if s.status_replicas ==ℤ current_source r
      then (scale_deployment rt api now t (current_target r) >>= scale_done)
      else not_yet (
          "the batch "
          +++ decimal r.current_batch
          +++ " is not ready yet with "
          +++ decimal s.status_replicas
          +++ " source pods")
  second_half _ s t = pure true

  unfoldable pub second_done : ℤ → Bool → Action W (Result Bool)
  unfolding upgraded
  second_done goal true = upgraded goal
  second_done goal false = pure (ok false)

  -- The half of the batch that is due, for the two sizes: the first one while they add up to the
  -- total.
  unfoldable pub half_due : Deployment → Deployment → ℤ → ℤ → Action W (Result Bool)
  unfolding first_half second_half second_done current_target
  half_due s t m n = status >>= λ r.
      if to_int32 (m +ℤ n) ==ℤ r.rollout_target_size
      then first_half (default_strategy spec.rollout_strategy) s t
      else (second_half (default_strategy spec.rollout_strategy) s t
          >>= second_done (current_target r))

  -- A nil pointer to the replicas panics.
  unfoldable pub one_batch : Deployment → Deployment → Action W (Result Bool)
  unfolding half_due
  one_batch s t = or_panic s.replicas >>= λ m. or_panic t.replicas >>= λ n. half_due s t m n

  -- `RolloutOneBatchPods`.
  unfoldable pub rollout_one_batch_pods : Action W (Result Bool)
  unfolding fetch_deployments settle waits one_batch
  rollout_one_batch_pods = fetch_deployments >>= settle (waits rt now) (λ (s, t). one_batch s t)

  -- The test of `CheckOneBatchPods` that the batch has not reached its end.
  unfoldable pub not_reached :
      RolloutStrategyType → Deployment → Deployment → ℤ → RolloutStatus → Bool
  unfolding current_source current_target
  not_reached increase_first_strategy s t unavail r = ltb_ℤ (current_source r) s.status_replicas
  not_reached decrease_first_strategy s t unavail r =
      ltb_ℤ (to_int32 (to_int32 unavail +ℤ t.ready_replicas)) (current_target r)
  not_reached _ s t unavail r = false

  unfoldable pub check_pods : Deployment → Deployment → Action W (Result Bool)
  unfolding current_batch max_unavailable_of not_reached waits
  check_pods s t = current_batch spec >>= λ b. status >>= λ r.
      let unavail = max_unavailable_of rt r.rollout_target_size b in
      if not_reached (default_strategy spec.rollout_strategy) s t unavail r
      then waits rt now (
          "the batch "
          +++ decimal r.current_batch
          +++ " is not ready yet with "
          +++ decimal t.ready_replicas
          +++ " target pods ready and "
          +++ decimal s.status_replicas
          +++ " source pods with "
          +++ decimal unavail
          +++ " unavailable allowed")
      else (modify (λ r'. record r' { upgraded_ready_replicas = t.ready_replicas })
          >> pure (ok true))

  -- `CheckOneBatchPods`: a read that fails leaves no condition.
  unfoldable pub check_one_batch_pods : Action W (Result Bool)
  unfolding fetch_deployments settle check_pods
  check_one_batch_pods =
      fetch_deployments >>= settle (λ m. pure (ok false)) (λ (s, t). check_pods s t)

  -- The sizes add up to the total.
  unfoldable pub finalize_sizes : Deployment → Deployment → RolloutStatus → Result Bool
  unfolding get_deploy_replica_size
  finalize_sizes s t r =
      let source_target = get_deploy_replica_size s.replicas in
      let target_target = get_deploy_replica_size t.replicas in
      if to_int32 (source_target +ℤ target_target) ==ℤ r.rollout_target_size
      then ok true
      else err (
          "deployment targets don't match total rollout, sourceTarget = "
          +++ decimal source_target
          +++ ", targetTarget = "
          +++ decimal target_target
          +++ ", rolloutTargetSize = "
          +++ decimal r.rollout_target_size)

  -- `FinalizeOneBatch`.
  unfoldable pub finalize_one_batch : Action W (Result Bool)
  unfolding fetch_deployments settle finalize_sizes
  finalize_one_batch =
      fetch_deployments
      >>= settle (λ m. pure (ok false)) (λ (s, t). status >>= λ r. pure (finalize_sizes s t r))

  unfoldable pub release_target : Deployment → Result Bool → Action W (Result Bool)
  unfolding release_deployment
  release_target t (err m) = pure (err m)
  release_target t (ok before) = release_deployment rt api now t

  unfoldable pub finish_release : Result Bool → Action W Bool
  finish_release (err m) = pure false
  finish_release (ok before) =
      modify
        (λ r. record r { last_applied_pod_template_identifier = r.new_pod_template_identifier })
      >> pure true

  -- `Finalize`.
  unfoldable pub finalize : Bool → Action W Bool
  unfolding fetch_deployments settle release_deployment release_target finish_release
  finalize well =
      fetch_deployments
      >>= settle (λ m. pure false)
          (λ (s, t). release_deployment rt api now s >>= release_target t >>= finish_release)

-- `NewDeploymentRolloutController`.
unfoldable pub deployment_rollout_controller :
    {W : Type 0}
    → Runtime
    → Api W
    → RolloutPlan
    → ℕ
    → NamespacedName
    → NamespacedName
    → WorkloadController W
unfolding verify_spec initialize rollout_one_batch_pods check_one_batch_pods finalize_one_batch
    finalize
deployment_rollout_controller rt api spec now source target = record {
  verify_spec = verify_spec rt api spec now source target;
  initialize = initialize rt api spec now source target;
  rollout_one_batch_pods = rollout_one_batch_pods rt api spec now source target;
  check_one_batch_pods = check_one_batch_pods rt api spec now source target;
  finalize_one_batch = finalize_one_batch rt api spec now source target;
  finalize = finalize rt api spec now source target;
}
