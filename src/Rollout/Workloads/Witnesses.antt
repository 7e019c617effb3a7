-- ===== src/Rollout/Workloads/Witnesses.antt =====
-- The theorems about the workload controllers at a concrete cluster and plan.
use rudr_x.Rollout.Workloads.DeploymentScale as DeploymentScale
use rudr_x.Rollout.Workloads.CloneSetRollout as CloneSetRollout
use rudr_x.Base.{[], ap, arith, false, refl, some, sym, true, ℕ, ◌∷◌, ◌≡◌, ◌⊎◌}
use rudr_x.Base.Int.{pos, to_int32, ◌+ℤ◌, ◌-ℤ◌}
use rudr_x.Rollout.Action.{done, err, ok}
use rudr_x.Rollout.Batches.{
  batch_size, calculate_new_batch_target, verify_batches_with_rollout, verify_batches_with_scale,
}
use rudr_x.Rollout.Plan.{reconcile}
use rudr_x.Rollout.Plan.Ensures.{Ensures, Obeys}
use rudr_x.Rollout.Plan.Safety.{IsSound}
use rudr_x.Rollout.Samples.{
  api, clone_set, deployment_of, fills, http, parent, plan, rolling, rolling-IsSound, rollout_owner,
  runtime,
}
use rudr_x.Rollout.Selection.{Workload}
use rudr_x.Rollout.Types.{RolloutPlan, RolloutStatus, batches, decrease_first_strategy}
use rudr_x.Rollout.Workloads.{
  Api, CloneSet, Deployment, NamespacedName, claim_deployment, is_claimed, is_rollout_owner,
  release_deployment,
}
use rudr_x.Rollout.Workloads.Batch.{past_partition, scale_target}
use rudr_x.Rollout.Workloads.CloneSetRollout.{upgrade_target}
use rudr_x.Rollout.Workloads.CloneSetRollout.Recorded.{IsUpgrade, upgrade_batch-finalized}
use rudr_x.Rollout.Workloads.CloneSets.{clone_set_size}
use rudr_x.Rollout.Workloads.DeploymentRollout.{current_source, current_target, half_due}
use rudr_x.Rollout.Workloads.DeploymentRollout.Halves.{
  Leaves, after_scaling, half_due-decrease_first,
}
use rudr_x.Rollout.Workloads.DeploymentScale.{deployment_scale_controller}
use rudr_x.Rollout.Workloads.DeploymentScale.Contract.{deployment_scale-Obeys}
use rudr_x.Rollout.Workloads.DeploymentScale.Recorded.{deployment_batch-finalized}
use rudr_x.Rollout.Workloads.Owners.{PatchesOwners, release-claim}
use rudr_x.Rollout.Workloads.Scaling.{IsScaling}
use rudr_x.Rollout.Workloads.System.{engine-IsSound, workload_controllers}

abbrev target : NamespacedName
target = record { namespace = "default"; name = "web" }

abbrev web : Workload
web = record { group = "apps"; kind = "Deployment"; namespace = "default"; name = "web" }

deployment_scale-Obeys_example : Obeys plan (deployment_scale_controller runtime api plan 7 target)
deployment_scale-Obeys_example = deployment_scale-Obeys runtime api plan 7 target

engine-IsSound_example :
    Ensures
      (reconcile runtime http parent plan 7
        (workload_controllers runtime api plan 7 web (some web))
        web
        (some web)
        rolling
        0)
      (λ _ r'. IsSound plan r')
unfolding batches ◌-ℤ◌
engine-IsSound_example =
    engine-IsSound runtime http parent api plan 7 web (some web) fills rolling 0 (omega arith)
      rolling-IsSound refl

rolling-IsScaling : IsScaling runtime plan rolling
unfolding batches batch_size verify_batches_with_scale past_partition ◌+ℤ◌ ◌-ℤ◌
rolling-IsScaling = record {
  verified = refl;
  sizes = omega arith;
  original = omega arith;
  target = omega arith;
  low = omega arith;
  high = omega arith;
  unparted = refl;
}

abbrev scaled : RolloutStatus
scaled = record rolling { upgraded_replicas = pos 5 }

deployment_batch-finalized_example :
    DeploymentScale.finalize_one_batch runtime api plan 7 target scaled 1
    ≡ done (ok true, scaled, 1)
unfolding DeploymentScale.rollout_one_batch_pods scale_target batches calculate_new_batch_target
    batch_size ◌+ℤ◌ ◌-ℤ◌ to_int32
deployment_batch-finalized_example =
    deployment_batch-finalized runtime api plan 7 target rolling 0 {r' = scaled} {w' = 1} 1
      rolling-IsScaling refl

-- The source has 8 pods, the target 5 with only 2 ready.
abbrev lagging : Deployment
lagging = record (deployment_of (pos 5)) { ready_replicas = pos 2 }

abbrev decreasing : RolloutPlan
decreasing = record plan { rollout_strategy = decrease_first_strategy }

half_due-decrease_first_example :
    Leaves
      (half_due runtime api decreasing 7 target target
        (deployment_of (pos 8))
        lagging
        (pos 8)
        (pos 2)
        rolling
        0)
      (λ w'.
        (w' ≡ 0)
        ⊎ (w'
            ≡ after_scaling api
                (deployment_of (pos 8))
                (current_source runtime api decreasing 7 target target rolling)
                0))
unfolding batches current_source current_target calculate_new_batch_target batch_size ◌+ℤ◌ ◌-ℤ◌
    to_int32
half_due-decrease_first_example =
    half_due-decrease_first runtime api decreasing 7 target target (deployment_of (pos 8)) lagging
      (pos 8) (pos 2) rolling 0 refl refl

abbrev claimed : Deployment
claimed = record (deployment_of (pos 2)) {
  owner_references = rollout_owner ∷ [];
  paused = false;
  replicas = some (pos 5);
}

claim_goes_through :
    claim_deployment runtime api 7 (deployment_of (pos 2)) (some (pos 5)) rolling 0
    ≡ done ((claimed, ok false), rolling, 1)
unfolding claim_deployment is_claimed
claim_goes_through = refl

api-PatchesOwners : PatchesOwners api
api-PatchesOwners d asked w d' w' changed h = cc h

release-claim_example :
    (release_deployment runtime api 20 claimed rolling 3 ≡ done (ok false, rolling, 4))
    × ([] ≡ (deployment_of (pos 2)).owner_references)
unfolding is_rollout_owner
release-claim_example =
    release-claim runtime api 7 20 (deployment_of (pos 2)) (some (pos 5)) rolling rolling rolling 0
      3 {d' = record claimed { owner_references = [] }} api-PatchesOwners refl tt claim_goes_through
      refl

abbrev ten_set : CloneSet
ten_set = record clone_set { replicas = some (pos 10) }

abbrev ten_api : Api ℕ
ten_api = record api { get_clone_set = λ name w. (ok ten_set, w) }

ten_size : (c : CloneSet) → (ten_api.get_clone_set target 0).0 ≡ ok c → clone_set_size c ≡ pos 10
unfolding clone_set_size
ten_size c e = ap (λ a. elim a [ ok x ↦ clone_set_size x | err m ↦ pos 10 ]) (sym e)

rolling-IsUpgrade : IsUpgrade runtime plan rolling
unfolding batches batch_size verify_batches_with_rollout past_partition ◌+ℤ◌ ◌-ℤ◌
rolling-IsUpgrade = record {
  verified = refl;
  sizes = omega arith;
  total = omega arith;
  high = omega arith;
  unparted = refl;
}

upgrade_batch-finalized_example :
    CloneSetRollout.finalize_one_batch runtime ten_api plan 7 target scaled 1
    ≡ done (ok true, scaled, 1)
unfolding CloneSetRollout.rollout_one_batch_pods CloneSetRollout.upgrade_target clone_set_size
    batches calculate_new_batch_target batch_size ◌+ℤ◌ ◌-ℤ◌ to_int32
upgrade_batch-finalized_example =
    upgrade_batch-finalized runtime ten_api plan 7 target rolling 0 {r' = scaled} {w' = 1} 1
      rolling-IsUpgrade ten_size refl
