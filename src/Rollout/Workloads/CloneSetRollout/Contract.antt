-- ===== src/Rollout/Workloads/CloneSetRollout/Contract.antt =====
-- What the controller of an upgraded CloneSet leaves to the plan controller.
use rudr_x.Base.{Bool, arith, refl, ℕ}
use rudr_x.Base.Int.{int_laws}
use rudr_x.Rollout.Plan.Ensures.{Obeys, Stays, batch_at_in_range}
use rudr_x.Rollout.Status.{rollout_retry}
use rudr_x.Rollout.Types.{RolloutPlan, Runtime, batches}
use rudr_x.Rollout.Workloads.{Api, NamespacedName, gives_up, settle, waits}
use rudr_x.Rollout.Workloads.Batch.{current_batch}
use rudr_x.Rollout.Workloads.CloneSetRollout.{
  check_clone_set, check_one_batch_pods, check_upgraded, clone_set_rollout_controller, finalize,
  finalize_one_batch, initialize, move_partition, rollout_one_batch_pods, scaling, verify_idle,
  verify_revision, verify_sizes, verify_spec,
}
use rudr_x.Rollout.Workloads.CloneSets.{
  claim_clone_set, fetch_clone_set, patched, release_clone_set, release_patched, uncontrolled,
}

module _ {W : Type 0} (rt : Runtime) (api : Api W) (spec : RolloutPlan) (now : ℕ)
    (target : NamespacedName) where
  upgrade_verify : Stays spec (verify_spec rt api spec now target)
  unfolding verify_spec fetch_clone_set settle waits verify_revision verify_sizes verify_idle
      uncontrolled scaling rollout_retry
  upgrade_verify r w h = ground arith

  upgrade_initialize : Stays spec (initialize rt api spec now target)
  unfolding initialize fetch_clone_set settle waits claim_clone_set patched rollout_retry
  upgrade_initialize r w h = ground arith

  upgrade_rollout : Stays spec (rollout_one_batch_pods rt api spec now target)
  unfolding rollout_one_batch_pods fetch_clone_set settle waits move_partition patched rollout_retry
  upgrade_rollout r w h = ground arith

  upgrade_check : Stays spec (check_one_batch_pods rt api spec now target)
  unfolding check_one_batch_pods fetch_clone_set settle waits check_clone_set check_upgraded
      current_batch rollout_retry
  upgrade_check r w h =
      let (b, e) = batch_at_in_range (batches spec) r.current_batch h.0 (omega (int_laws, h.1)) in
      ground arith

  upgrade_finalize_batch : Stays spec (finalize_one_batch rt api spec now target)
  unfolding finalize_one_batch
  upgrade_finalize_batch r w h = (refl, refl, refl)

  upgrade_finalize : (well : Bool) → Stays spec (finalize rt api spec now target well)
  unfolding finalize fetch_clone_set settle gives_up release_clone_set release_patched rollout_retry
  upgrade_finalize well r w h = ground arith

-- The controller of a CloneSet that is upgraded keeps the contract of its interface, whatever the API
-- server answers: called with a batch of the plan, its operations return, and leave the states and
-- the current batch alone.
pub clone_set_rollout-Obeys :
    {W : Type 0} (rt : Runtime) (api : Api W) (spec : RolloutPlan) (now : ℕ)
    (target : NamespacedName)
    → Obeys spec (clone_set_rollout_controller rt api spec now target)
unfolding clone_set_rollout_controller
clone_set_rollout-Obeys rt api spec now target = record {
  verify_spec = upgrade_verify rt api spec now target;
  initialize = upgrade_initialize rt api spec now target;
  rollout_one_batch_pods = upgrade_rollout rt api spec now target;
  check_one_batch_pods = upgrade_check rt api spec now target;
  finalize_one_batch = upgrade_finalize_batch rt api spec now target;
  finalize = upgrade_finalize rt api spec now target;
}
