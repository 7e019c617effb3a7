-- ===== src/Rollout/Validation.antt =====
-- The validation of a new rollout plan, of pkg/webhook/common/rollout/rollout_plan.go.
-- `ValidateUpdate` of the same file returns no error, whatever it is given.
pub mod Valid
pub mod Defaulted
mod Witnesses
use rudr_x.Base.{
  Bool, List, Option, String, [], false, if◌then◌else◌, length, none, not, some, str_eq, suc, true,
  ℕ, ◌++◌, ◌||◌, ◌∷◌,
}
use rudr_x.Base.Int.{ltb_ℤ, pos, ℤ, ◌==ℤ◌}
use rudr_x.Base.Text.{◌+++◌}
use rudr_x.Rollout.Action.{err}
use rudr_x.Rollout.Types.{
  HookType, IntOrString, RolloutBatch, RolloutPlan, RolloutStrategyType, RolloutWebhook, Runtime,
  batches, decrease_first_strategy, finalize_rollout_hook, increase_first_strategy,
  initialize_rollout_hook, post_batch_rollout_hook, pre_batch_rollout_hook,
}

-- `field.Path` of apimachinery.
pub record Paths (FieldPath : Type 0) : Type 0 where
  pub child : FieldPath → String → FieldPath
  pub index : FieldPath → ℕ → FieldPath

-- The value that an error shows.
pub data BadValue : Type 0 where
  pointer_value : Option ℤ → BadValue
  number_value : ℤ → BadValue
  text_value : String → BadValue
  strategy_value : RolloutStrategyType → BadValue
  hook_value : HookType → BadValue
  replicas_value : IntOrString → BadValue

-- `field.Error`: `Required` and `Invalid`.
pub data FieldError (FieldPath : Type 0) : Type 0 where
  required : FieldPath → String → FieldError FieldPath
  invalid : FieldPath → BadValue → String → FieldError FieldPath

abbrev pub is_plan_hook : HookType → Bool
is_plan_hook initialize_rollout_hook = true
is_plan_hook finalize_rollout_hook = true
is_plan_hook _ = false

abbrev pub is_batch_hook : HookType → Bool
is_batch_hook post_batch_rollout_hook = true
is_batch_hook pre_batch_rollout_hook = true
is_batch_hook _ = false

abbrev pub is_known_strategy : RolloutStrategyType → Bool
is_known_strategy increase_first_strategy = true
is_known_strategy decrease_first_strategy = true
is_known_strategy _ = false

abbrev pub is_method : String → Bool
is_method m = str_eq m "POST" || (str_eq m "GET" || str_eq m "PUT")

-- An error unless the test holds.
abbrev pub unless : {FieldPath : Type 0} → Bool → FieldError FieldPath → List (FieldError FieldPath)
unless holds e = if holds then [] else e ∷ []

module _ {FieldPath : Type 0} (rt : Runtime) (paths : Paths FieldPath) where
  -- The loop over the webhooks of the plan, from the index `i` on.
  unfoldable pub plan_hook_errors :
      FieldPath → ℕ → List RolloutWebhook → List (FieldError FieldPath)
  plan_hook_errors path i [] = []
  plan_hook_errors path i (rw ∷ rws) =
      unless (is_plan_hook rw.type) (
        invalid (paths.index path i) (hook_value rw.type)
          "the rollout webhook type can only be initialize or finalize webhook")
      ++ (unless (is_method rw.method) (
            invalid (paths.index path i) (text_value rw.method)
              "the rollout webhook method can only be Get/PUT/POST")
          ++ plan_hook_errors path (suc i) rws)

  unfoldable pub batch_hook_errors :
      FieldPath → ℕ → List RolloutWebhook → List (FieldError FieldPath)
  batch_hook_errors path j [] = []
  batch_hook_errors path j (brw ∷ brws) =
      unless (is_batch_hook brw.type) (
        invalid (paths.index (paths.child path "batchRolloutWebhooks") j) (hook_value brw.type)
          "the batch webhook type can only be pre or post batch webhook")
      ++ batch_hook_errors path (suc j) brws

  unfoldable pub all_batch_hook_errors :
      FieldPath → ℕ → List RolloutBatch → List (FieldError FieldPath)
  unfolding batch_hook_errors
  all_batch_hook_errors path i [] = []
  all_batch_hook_errors path i (rb ∷ rbs) =
      batch_hook_errors (paths.index path i) 0 rb.batch_rollout_webhooks
      ++ all_batch_hook_errors path (suc i) rbs

  -- `validateWebhook`.
  unfoldable pub validate_webhook : RolloutPlan → FieldPath → List (FieldError FieldPath)
  unfolding plan_hook_errors all_batch_hook_errors
  validate_webhook p root =
      plan_hook_errors (paths.child root "rolloutWebhooks") 0 p.rollout_webhooks
      ++ all_batch_hook_errors (paths.child root "rolloutBatches") 0 (batches p)

  -- The check of the replicas of one batch, against a total of 100.
  unfoldable pub replica_errors :
      FieldPath → IntOrString → ℤ × Option String → List (FieldError FieldPath)
  replica_errors path replicas (value, some reason) =
      invalid (paths.child path "replicas") (replicas_value replicas)
        ("invalid replica value, err = " +++ reason)
      ∷ []
  replica_errors path replicas (value, none) =
      unless (not (ltb_ℤ value (pos 0)))
        (invalid (paths.child path "replicas") (number_value value) "negative replica value")

  unfoldable pub batch_errors : FieldPath → ℕ → List RolloutBatch → List (FieldError FieldPath)
  unfolding replica_errors
  batch_errors path i [] = []
  batch_errors path i (rb ∷ rbs) =
      replica_errors (paths.index path i) rb.replicas (rt.get_value rb.replicas (pos 100))
      ++ batch_errors path (suc i) rbs

  -- `validateRolloutBatches`.
  unfoldable pub validate_rollout_batches : RolloutPlan → FieldPath → List (FieldError FieldPath)
  unfolding batch_errors
  validate_rollout_batches p root = batch_errors (paths.child root "rolloutBatches") 0 (batches p)

  unfoldable pub batches_required :
      Option (List RolloutBatch) → FieldPath → List (FieldError FieldPath)
  batches_required none root =
      required (paths.child root "rolloutBatches") "the rollout has to have batches" ∷ []
  batches_required (some bs) root = []

  unfoldable pub partition_errors : Option ℤ → FieldPath → List (FieldError FieldPath)
  partition_errors none root = []
  partition_errors (some p) root = unless (not (ltb_ℤ p (pos 0))) (
      invalid (paths.child root "batchPartition") (pointer_value (some p))
        "the rollout plan has to be positive")

  unfoldable pub number_errors : Option ℤ → ℕ → FieldPath → List (FieldError FieldPath)
  number_errors none len root = []
  number_errors (some n) len root = unless (pos len ==ℤ n) (
      invalid (paths.child root "numBatches") (pointer_value (some n))
        "the num batches does not match the rollout batch size")

  -- `ValidateCreate`.
  unfoldable pub validate_create : RolloutPlan → FieldPath → List (FieldError FieldPath)
  unfolding validate_webhook validate_rollout_batches batches_required partition_errors
      number_errors
  validate_create p root =
      batches_required p.rollout_batches root
      ++ (partition_errors p.batch_partition root
          ++ (number_errors p.num_batches (length (batches p)) root
              ++ (unless (is_known_strategy p.rollout_strategy) (
                    invalid (paths.child root "rolloutStrategy") (strategy_value p.rollout_strategy)
                      "the rolloutStrategy can only be IncreaseFirst or DecreaseFirst")
                  ++ (validate_webhook p root ++ validate_rollout_batches p root))))
