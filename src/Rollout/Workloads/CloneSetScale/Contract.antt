-- ===== src/Rollout/Workloads/CloneSetScale/Contract.antt =====
-- What the controller of a scaled CloneSet leaves to the plan controller.
use rudr_x.Base.{Bool, Option, String, arith, none, refl, some, ℕ}
use rudr_x.Base.Int.{int_laws, ℤ}
use rudr_x.Rollout.Action.{Result, err, modify, ok, pure, ◌>>◌}
use rudr_x.Rollout.Batches.{verify_batches_with_scale}
use rudr_x.Rollout.Plan.Ensures.{Obeys, Stays, batch_at_in_range}
use rudr_x.Rollout.Status.{rollout_retry}
use rudr_x.Rollout.Types.{RolloutPlan, Runtime, batches}
use rudr_x.Rollout.Workloads.{Api, CloneSet, NamespacedName, gives_up, settle, waits}
use rudr_x.Rollout.Workloads.Batch.{check_scaled_pods, current_batch}
use rudr_x.Rollout.Workloads.CloneSetScale.{
  check_one_batch_pods, clone_set_scale_controller, finalize, finalize_one_batch, initialize,
  rollout_one_batch_pods, scale_clone_set, unstable, verify_scale, verify_spec, verify_spec_with,
}
use rudr_x.Rollout.Workloads.CloneSets.{
  claim_clone_set, clone_set_size, fetch_clone_set, patched, release_clone_set, release_patched,
  uncontrolled,
}

module _ {W : Type 0} (rt : Runtime) (api : Api W) (spec : RolloutPlan) (now : ℕ)
    (target : NamespacedName) where
  -- Checks that fail or wait, in a row.
  checked :
      (size : ℤ) (failure wait : Option String) (answer : Result Bool)
      → Stays spec (
          modify {W = W} (λ r. record r { rollout_original_size = size }) >> elim failure [
            | some m ↦ pure (err m)
            | none ↦ elim wait [ some m ↦ waits rt now m | none ↦ pure answer ]
          ])
  unfolding waits rollout_retry
  checked size none none answer r w h = (refl, refl, refl)
  checked size none (some m) answer r w h = (refl, refl, refl)
  checked size (some m) wait answer r w h = (refl, refl, refl)

  verify_read :
      (n : ℤ) (a : Result CloneSet)
      → Stays spec (settle (waits rt now) (verify_scale rt api spec now target n) a)
  unfolding settle waits rollout_retry verify_scale
  verify_read n (err m) r w h = (refl, refl, refl)
  verify_read n (ok c) r w h =
      checked (clone_set_size c) (verify_batches_with_scale rt spec (clone_set_size c) n)
        (unstable rt api spec now target c (clone_set_size c)) (uncontrolled rt api now c) r w h

  verify_sized : (o : Option ℤ) → Stays spec (verify_spec_with rt api spec now target o)
  unfolding verify_spec_with fetch_clone_set
  verify_sized none r w h = (refl, refl, refl)
  verify_sized (some n) r w h =
      verify_read n (api.get_clone_set target w).0 (record r { rollout_target_size = n })
        (api.get_clone_set target w).1 h

  scale_verify : Stays spec (verify_spec rt api spec now target)
  unfolding verify_spec
  scale_verify = verify_sized spec.target_size

  scale_initialize : Stays spec (initialize rt api spec now target)
  unfolding initialize fetch_clone_set settle waits claim_clone_set patched rollout_retry
  scale_initialize r w h = ground arith

  scale_rollout : Stays spec (rollout_one_batch_pods rt api spec now target)
  unfolding rollout_one_batch_pods fetch_clone_set settle waits scale_clone_set patched
      rollout_retry
  scale_rollout r w h = ground arith

  scale_check : Stays spec (check_one_batch_pods rt api spec now target)
  unfolding check_one_batch_pods fetch_clone_set settle waits check_scaled_pods current_batch
      rollout_retry
  scale_check r w h =
      let (b, e) = batch_at_in_range (batches spec) r.current_batch h.0 (omega (int_laws, h.1)) in
      ground arith

  scale_finalize_batch : Stays spec (finalize_one_batch rt api spec now target)
  unfolding finalize_one_batch
  scale_finalize_batch r w h = (refl, refl, refl)

  scale_finalize : (well : Bool) → Stays spec (finalize rt api spec now target well)
  unfolding finalize fetch_clone_set settle gives_up release_clone_set release_patched rollout_retry
  scale_finalize well r w h = ground arith

-- The controller of a CloneSet that is scaled keeps the contract of its interface, whatever the API
-- server answers: called with a batch of the plan, its operations return, and leave the states and
-- the current batch alone.
pub clone_set_scale-Obeys :
    {W : Type 0} (rt : Runtime) (api : Api W) (spec : RolloutPlan) (now : ℕ)
    (target : NamespacedName)
    → Obeys spec (clone_set_scale_controller rt api spec now target)
unfolding clone_set_scale_controller
clone_set_scale-Obeys rt api spec now target = record {
  verify_spec = scale_verify rt api spec now target;
  initialize = scale_initialize rt api spec now target;
  rollout_one_batch_pods = scale_rollout rt api spec now target;
  check_one_batch_pods = scale_check rt api spec now target;
  finalize_one_batch = scale_finalize_batch rt api spec now target;
  finalize = scale_finalize rt api spec now target;
}
