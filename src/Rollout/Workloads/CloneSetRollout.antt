-- ===== src/Rollout/Workloads/CloneSetRollout.antt =====
-- The controller of cloneset_rollout_controller.go, which upgrades the pods of one CloneSet by moving
-- its partition.
pub mod Contract
pub mod Recorded
use rudr_x.Base.{Bool, Option, String, if◌then◌else◌, length, none, not, some, str_eq, true, ℕ}
use rudr_x.Base.Int.{leb_ℤ, ltb_ℤ, pos, to_int32, ℤ, ◌+ℤ◌, ◌-ℤ◌, ◌==ℤ◌}
use rudr_x.Base.Text.{decimal, ◌+++◌}
use rudr_x.Rollout.Action.{
  Action, Result, WorkloadController, err, external, modify, ok, pure, status, ◌>>=◌, ◌>>◌,
}
use rudr_x.Rollout.Batches.{calculate_new_batch_target, verify_batches_with_rollout}
use rudr_x.Rollout.Types.{RolloutBatch, RolloutPlan, RolloutStatus, Runtime, batches, int_val}
use rudr_x.Rollout.Workloads.{
  Api, CloneSet, NamespacedName, fails_if, gives_up, settle, waits, ◌or_else◌,
}
use rudr_x.Rollout.Workloads.Batch.{current_batch, max_unavailable_of, past_partition}
use rudr_x.Rollout.Workloads.CloneSets.{
  claim_clone_set, clone_set_size, fetch_clone_set, patched, release_clone_set, uncontrolled,
}
use rudr_x.Rollout.Workloads.DeploymentRollout.{upgraded}

module _ {W : Type 0} (rt : Runtime) (api : Api W) (spec : RolloutPlan) (now : ℕ)
    (target : NamespacedName) where
  -- The CloneSet is still scaling: its replicas are set and not those of its status.
  unfoldable pub scaling : CloneSet → Option String
  scaling c = elim c.replicas [
    | none ↦ none
    | some n ↦ fails_if (not (n ==ℤ c.status_replicas)) (
        "the cloneset is still scaling, target = "
        +++ decimal n
        +++ ", cloneset size = "
        +++ decimal c.status_replicas)
  ]

  -- `verifyRolloutBatchReplicaValue`.
  unfoldable pub verify_rollout_batch_replica_value : ℤ → Option String
  verify_rollout_batch_replica_value size =
      elim spec.target_size [
        | none ↦ none
        | some n ↦ fails_if (not (n ==ℤ size)) (
            "the rollout plan is attempting to scale the cloneset, target = "
            +++ decimal n
            +++ ", cloneset size = "
            +++ decimal size)
      ]
      or_else verify_batches_with_rollout rt spec size

  -- The checks of `VerifySpec` that are left once the sizes are recorded.
  unfoldable pub verify_idle : CloneSet → Action W (Result Bool)
  unfolding uncontrolled
  verify_idle c =
      if c.paused
      then elim (uncontrolled rt api now c) [
        | err m ↦ pure (err m)
        | ok b ↦
            modify (λ r. record r { new_pod_template_identifier = c.update_revision })
            >> pure (ok true)
      ]
      else pure (
          err (
            "the cloneset " +++ c.name
            +++ " is in the middle of updating, need to be paused first"))

  unfoldable pub verify_sizes : CloneSet → Action W (Result Bool)
  unfolding verify_rollout_batch_replica_value verify_idle clone_set_size
  verify_sizes c = elim (verify_rollout_batch_replica_value (clone_set_size c)) [
    | some m ↦ pure (err m)
    | none ↦
        modify (λ r. record r {
          rollout_target_size = clone_set_size c;
          rollout_original_size = clone_set_size c;
        })
        >> verify_idle c
  ]

  unfoldable pub verify_revision : CloneSet → Action W (Result Bool)
  unfolding scaling waits verify_sizes
  verify_revision c = elim (scaling c) [
    | some m ↦ waits rt now m
    | none ↦ status >>= λ r.
        if str_eq c.update_revision r.last_applied_pod_template_identifier
        then pure (
            err (
              "there is no difference between the source and target, hash = "
              +++ c.update_revision))
        else verify_sizes c
  ]

  -- `VerifySpec`.
  unfoldable pub verify_spec : Action W (Result Bool)
  unfolding fetch_clone_set settle waits verify_revision
  verify_spec = fetch_clone_set rt api now target >>= settle (waits rt now) verify_revision

  -- `Initialize`: the partition holds every pod back.
  unfoldable pub initialize : Action W (Result Bool)
  unfolding fetch_clone_set settle waits claim_clone_set clone_set_size
  initialize =
      fetch_clone_set rt api now target
      >>= settle (waits rt now)
          (λ c. claim_clone_set rt api now c (some (int_val (clone_set_size c))))

  -- The pods to upgrade up to the current batch, of a CloneSet of this size.
  unfoldable pub upgrade_target : ℤ → RolloutStatus → ℤ
  upgrade_target size r = calculate_new_batch_target rt spec (pos 0) size r.current_batch

  -- `RolloutOneBatchPods` once the CloneSet is read.
  unfoldable pub move_partition : CloneSet → Action W (Result Bool)
  unfolding upgrade_target clone_set_size patched
  move_partition c = status >>= λ r.
      let goal = upgrade_target (clone_set_size c) r in
      external (
        api.patch_clone_set c
          (record c { partition = some (int_val (to_int32 (clone_set_size c -ℤ to_int32 goal))) }))
      >>= patched rt api now
          (modify (λ r'. record r' { upgraded_replicas = to_int32 goal }) >> pure (ok true))

  -- `RolloutOneBatchPods`.
  unfoldable pub rollout_one_batch_pods : Action W (Result Bool)
  unfolding fetch_clone_set settle waits move_partition
  rollout_one_batch_pods =
      fetch_clone_set rt api now target >>= settle (waits rt now) move_partition

  -- `CheckOneBatchPods` where the current batch is one of the plan's.
  unfoldable pub check_upgraded : CloneSet → RolloutBatch → Action W (Result Bool)
  unfolding upgrade_target clone_set_size max_unavailable_of waits
  check_upgraded c b = status >>= λ r.
      let reached =
        leb_ℤ (upgrade_target (clone_set_size c) r)
          (max_unavailable_of rt (clone_set_size c) b +ℤ c.updated_ready_replicas) in
      modify (λ r'. record r' { upgraded_ready_replicas = to_int32 c.updated_ready_replicas })
      >> (if reached then pure (ok true) else waits rt now "the batch is not ready yet")

  -- `CheckOneBatchPods` once the CloneSet is read: a batch past the last one is an error.
  unfoldable pub check_clone_set : CloneSet → Action W (Result Bool)
  unfolding check_upgraded current_batch
  check_clone_set c = status >>= λ r.
      if leb_ℤ (pos (length (batches spec))) r.current_batch
      then pure (err "somehow, currentBatch number exceeded the rolloutBatches spec")
      else (current_batch spec >>= check_upgraded c)

  -- `CheckOneBatchPods`.
  unfoldable pub check_one_batch_pods : Action W (Result Bool)
  unfolding fetch_clone_set settle waits check_clone_set
  check_one_batch_pods = fetch_clone_set rt api now target >>= settle (waits rt now) check_clone_set

  -- The checks of `FinalizeOneBatch`.
  unfoldable pub finalize_upgraded : RolloutStatus → Result Bool
  unfolding past_partition
  finalize_upgraded r =
      let before =
        calculate_new_batch_target rt spec (pos 0) r.rollout_target_size
          (r.current_batch -ℤ pos 1) in
      let after =
        calculate_new_batch_target rt spec (pos 0) r.rollout_target_size r.current_batch in
      if past_partition spec.batch_partition r.current_batch
      then err "the current batch value in the status is greater than the batch partition"
      else if ltb_ℤ r.upgraded_replicas before
      then err "the upgraded replica in the status is less than all the pods in the previous batch"
      else if ltb_ℤ after r.upgraded_replicas
      then err
          "the upgraded replica in the status is greater than all the pods in the current batch"
      else ok true

  -- `FinalizeOneBatch`.
  unfoldable pub finalize_one_batch : Action W (Result Bool)
  unfolding finalize_upgraded
  finalize_one_batch = status >>= λ r. pure (finalize_upgraded r)

  -- `Finalize`: a rollout that failed leaves the CloneSet paused.
  unfoldable pub finalize : Bool → Action W Bool
  unfolding fetch_clone_set settle gives_up release_clone_set
  finalize well =
      fetch_clone_set rt api now target
      >>= settle (gives_up rt now) (λ c.
        release_clone_set rt api now c (if well then c.paused else true) (
          modify
            (λ r. record r { last_applied_pod_template_identifier = r.new_pod_template_identifier })
          >> pure true))

-- `NewCloneSetRolloutController`.
unfoldable pub clone_set_rollout_controller :
    {W : Type 0} → Runtime → Api W → RolloutPlan → ℕ → NamespacedName → WorkloadController W
unfolding verify_spec initialize rollout_one_batch_pods check_one_batch_pods finalize_one_batch
    finalize
clone_set_rollout_controller rt api spec now target = record {
  verify_spec = verify_spec rt api spec now target;
  initialize = initialize rt api spec now target;
  rollout_one_batch_pods = rollout_one_batch_pods rt api spec now target;
  check_one_batch_pods = check_one_batch_pods rt api spec now target;
  finalize_one_batch = finalize_one_batch rt api spec now target;
  finalize = finalize rt api spec now target;
}
