-- ===== src/Rollout/Workloads/DeploymentRollout/Contract.antt =====
-- What the controller that moves pods between two Deployments leaves to the plan controller.
use rudr_x.Base.{Bool, Option, String, arith, false, if◌then◌else◌, none, refl, some, true, ℕ, ◌≡◌}
use rudr_x.Base.Int.{int_laws, to_int32, ℤ, ◌+ℤ◌, ◌==ℤ◌}
use rudr_x.Rollout.Action.{Action, Result, err, modify, ok, or_panic, pure, ◌>>=◌, ◌>>◌}
use rudr_x.Rollout.Defaults.{default_strategy}
use rudr_x.Rollout.Plan.Ensures.{Ensures, Obeys, SamePlace, Stays, batch_at_in_range}
use rudr_x.Rollout.Plan.Rule.{range}
use rudr_x.Rollout.Status.{rollout_retry}
use rudr_x.Rollout.Types.{
  RolloutPlan, RolloutStatus, RolloutStrategyType, Runtime, batches, decrease_first_strategy,
  increase_first_strategy, other_strategy, unset_strategy,
}
use rudr_x.Rollout.Workloads.{
  Api, Deployment, NamespacedName, claim_answer, claim_deployment, noted, release_answer,
  release_deployment, scale_deployment, settle, waits,
}
use rudr_x.Rollout.Workloads.Batch.{current_batch}
use rudr_x.Rollout.Workloads.DeploymentRollout.{
  calculate_rollout_total_size, check_one_batch_pods, check_pods, claim_target, current_target,
  deployment_rollout_controller, fetch_deployments, finalize, finalize_one_batch, finish_release,
  first_half, half_due, initialize, not_yet, one_batch, release_target, rollout_error,
  rollout_one_batch_pods, scale_done, second_done, second_half, upgraded, verify_hash, verify_spec,
  verify_total, with_source,
}

-- The API server fills in the replicas of a Deployment that leaves them out.
abbrev pub FillsReplicas : {W : Type 0} → Api W → Type 0
FillsReplicas {W = W} api =
    (name : NamespacedName) (w : W) (d : Deployment)
    → (api.get_deployment name w).0 ≡ ok d
    → (n : ℤ) × (d.replicas ≡ some n)

module _ {W : Type 0} (rt : Runtime) (api : Api W) (spec : RolloutPlan) (now : ℕ)
    (source target : NamespacedName) where
  checked :
      (failure : Option String) (hash : String)
      → Stays spec (elim failure [
        | some m ↦ pure (err m)
        | none ↦
            modify {W = W} (λ r'. record r' { new_pod_template_identifier = hash })
            >> pure (ok true)
      ])
  checked none hash r w h = (refl, refl, refl)
  checked (some m) hash r w h = (refl, refl, refl)

  verify_hash-Stays :
      (s t : Deployment) (total : ℤ) (hash : String)
      → Stays spec (verify_hash rt api spec now source target s t total hash)
  unfolding verify_hash
  verify_hash-Stays s t total hash r w h =
      checked (rollout_error rt api spec now source target s t total hash r) hash r w h

  verify_total-Stays :
      (s t : Deployment) (total : Result ℤ)
      → Stays spec (verify_total rt api spec now source target s t total)
  unfolding verify_total waits rollout_retry
  verify_total-Stays s t (err m) r w h = (refl, refl, refl)
  verify_total-Stays s t (ok total) r w h = hashed (api.compute_spec_hash t)
    where
      hashed :
          (a : Result String)
          → Ensures
              ((modify {W = W} (λ r'. record r' { rollout_target_size = total }) >> elim a [
                | err m ↦ waits rt now m
                | ok hash ↦ verify_hash rt api spec now source target s t total hash
              ])
                r w)
              (λ _ r'. SamePlace r r')
      hashed (err m) = (refl, refl, refl)
      hashed (ok hash) =
          verify_hash-Stays s t total hash (record r { rollout_target_size = total }) w h

  -- A Deployment that the API server gave for a name.
  abbrev IsGot : NamespacedName → Deployment → Type 0
  IsGot name d = (w : W) × ((api.get_deployment name w).0 ≡ ok d)

  module _ {A : Type 0} (fails : String → Action W A) (next : Deployment × Deployment → Action W A)
      (k : (m : String) → Stays spec (fails m))
      (h : (s t : Deployment) → IsGot source s → IsGot target t → Stays spec (next (s, t))) where
    target_fetched :
        (s : Deployment) (w' : W) (t : Result Deployment)
        → IsGot source s
        → (api.get_deployment target w').0 ≡ t
        → Stays spec (settle fails next (elim t [ err m ↦ err m | ok d ↦ ok (s, d) ]))
    unfolding settle
    target_fetched s w' (err m) got e = k m
    target_fetched s w' (ok t) got e = h s t got (w', e)

    source_fetched :
        (w' : W) (s : Result Deployment)
        → (api.get_deployment source w').0 ≡ s
        → Stays spec (with_source rt api spec now source target s >>= settle fails next)
    unfolding with_source settle
    source_fetched w' (err m) e r w range = k m r w range
    source_fetched w' (ok s) e r w range =
        target_fetched s w (api.get_deployment target w).0 (w', e) refl r
          (api.get_deployment target w).1 range

    -- The two reads of an operation, and what follows them.
    fetched : Stays spec (fetch_deployments rt api spec now source target >>= settle fails next)
    unfolding fetch_deployments
    fetched r w range =
        source_fetched w (api.get_deployment source w).0 refl r (api.get_deployment source w).1
          range

  waits-Stays : (m : String) → Stays spec (waits {W = W} rt now m)
  unfolding waits rollout_retry
  waits-Stays m r w h = (refl, refl, refl)

  false-Stays : {A : Type 0} (a : A) → Stays spec (pure {W = W} a)
  false-Stays a r w h = (refl, refl, refl)

  move_verify : Stays spec (verify_spec rt api spec now source target)
  unfolding verify_spec
  move_verify = fetched (waits rt now) _ waits-Stays (λ s t got_s got_t.
      verify_total-Stays s t (calculate_rollout_total_size rt api spec now source target s))

  initialize_fetched :
      (s t : Deployment)
      → Stays spec
          (claim_deployment rt api now s none >>= claim_target rt api spec now source target t)
  unfolding claim_deployment claim_answer claim_target rollout_retry
  initialize_fetched s t r w h = ground arith

  move_initialize : Stays spec (initialize rt api spec now source target)
  unfolding initialize
  move_initialize = fetched (waits rt now) _ waits-Stays (λ s t got_s got_t. initialize_fetched s t)

  check_fetched : (s t : Deployment) → Stays spec (check_pods rt api spec now source target s t)
  unfolding check_pods current_batch waits rollout_retry
  check_fetched s t r w h =
      let (b, e) = batch_at_in_range (batches spec) r.current_batch h.0 (omega (int_laws, h.1)) in
      ground arith

  move_check : Stays spec (check_one_batch_pods rt api spec now source target)
  unfolding check_one_batch_pods
  move_check = fetched _ _ (λ m. false-Stays (ok false)) (λ s t got_s got_t. check_fetched s t)

  move_finalize_batch : Stays spec (finalize_one_batch rt api spec now source target)
  unfolding finalize_one_batch
  move_finalize_batch =
      fetched _ _ (λ m. false-Stays (ok false)) (λ s t got_s got_t r w h. (refl, refl, refl))

  finalize_fetched :
      (s t : Deployment)
      → Stays spec (
          release_deployment rt api now s
          >>= release_target rt api spec now source target t
          >>= finish_release rt api spec now source target)
  unfolding release_deployment noted release_answer release_target finish_release rollout_retry
  finalize_fetched s t r w h = ground arith

  move_finalize : (well : Bool) → Stays spec (finalize rt api spec now source target well)
  unfolding finalize
  move_finalize well =
      fetched _ _ (λ m. false-Stays false) (λ s t got_s got_t. finalize_fetched s t)

  first-Stays :
      (how : RolloutStrategyType) (s t : Deployment)
      → Stays spec (first_half rt api spec now source target how s t)
  unfolding first_half upgraded scale_deployment noted rollout_retry
  first-Stays unset_strategy s t r w h = (refl, refl, refl)
  first-Stays increase_first_strategy s t r w h = ground arith
  first-Stays decrease_first_strategy s t r w h = ground arith
  first-Stays (other_strategy x) s t r w h = (refl, refl, refl)

  second-Stays :
      (how : RolloutStrategyType) (s t : Deployment) (goal : ℤ)
      → Stays spec (
          second_half rt api spec now source target how s t
          >>= second_done rt api spec now source target goal)
  unfolding second_half second_done upgraded current_batch scale_deployment noted scale_done not_yet
      rollout_retry
  second-Stays unset_strategy s t goal r w h = (refl, refl, refl)
  second-Stays increase_first_strategy s t goal r w h =
      let (b, e) = batch_at_in_range (batches spec) r.current_batch h.0 (omega (int_laws, h.1)) in
      ground arith
  second-Stays decrease_first_strategy s t goal r w h = ground arith
  second-Stays (other_strategy x) s t goal r w h = (refl, refl, refl)

  if_here :
      {A : Type 0} (b : Bool) (m k : Action W A) (r : RolloutStatus) (w : W)
      → Ensures (m r w) (λ _ r'. SamePlace r r')
      → Ensures (k r w) (λ _ r'. SamePlace r r')
      → Ensures ((if b then m else k) r w) (λ _ r'. SamePlace r r')
  if_here true m k r w p q = p
  if_here false m k r w p q = q

  half_due-Stays :
      (s t : Deployment) (m n : ℤ) → Stays spec (half_due rt api spec now source target s t m n)
  unfolding half_due
  half_due-Stays s t m n r w h =
      if_here (to_int32 (m +ℤ n) ==ℤ r.rollout_target_size) _ _ r w
        (first-Stays (default_strategy spec.rollout_strategy) s t r w h)
        (second-Stays (default_strategy spec.rollout_strategy) s t
          (current_target rt api spec now source target r) r w h)

  both_set :
      (o1 o2 : Option ℤ) {m n : ℤ} (f : ℤ → ℤ → Action W (Result Bool))
      → o1 ≡ some m
      → o2 ≡ some n
      → ((m n : ℤ) → Stays spec (f m n))
      → Stays spec (or_panic o1 >>= λ m. or_panic o2 >>= λ n. f m n)
  both_set none o2 f e1 e2 k = cc
  both_set (some m) none f e1 e2 k = cc
  both_set (some m) (some n) f e1 e2 k = k m n

  half_fetched :
      (s t : Deployment) {m n : ℤ}
      → s.replicas ≡ some m
      → t.replicas ≡ some n
      → Stays spec (one_batch rt api spec now source target s t)
  unfolding one_batch
  half_fetched s t e1 e2 = both_set s.replicas t.replicas _ e1 e2 (half_due-Stays s t)

  move_rollout :
      FillsReplicas api → Stays spec (rollout_one_batch_pods rt api spec now source target)
  unfolding rollout_one_batch_pods
  move_rollout filled_in = fetched (waits rt now) _ waits-Stays (λ s t got_s got_t.
      let (m, e1) = filled_in source got_s.0 s got_s.1 in
      let (n, e2) = filled_in target got_t.0 t got_t.1 in half_fetched s t e1 e2)

-- The controller that moves pods between two Deployments keeps the contract of its interface where
-- the API server fills in the replicas of the Deployments: called with a batch of the plan, its
-- operations return, whatever else the API server answers, and leave the states and the current
-- batch alone.
pub deployment_rollout-Obeys :
    {W : Type 0} (rt : Runtime) (api : Api W) (spec : RolloutPlan) (now : ℕ)
    (source target : NamespacedName)
    → FillsReplicas api
    → Obeys spec (deployment_rollout_controller rt api spec now source target)
unfolding deployment_rollout_controller
deployment_rollout-Obeys rt api spec now source target filled_in = record {
  verify_spec = move_verify rt api spec now source target;
  initialize = move_initialize rt api spec now source target;
  rollout_one_batch_pods = move_rollout rt api spec now source target filled_in;
  check_one_batch_pods = move_check rt api spec now source target;
  finalize_one_batch = move_finalize_batch rt api spec now source target;
  finalize = move_finalize rt api spec now source target;
}
