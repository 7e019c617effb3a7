-- ===== src/Rollout/Validation/Witnesses.antt =====
-- The theorems about default plans and their validation at a concrete plan: 10 pods in 4 batches.
use rudr_x.Base.{
  List, String, [], arith, false, length, none, refl, some, ℕ, ◌*◌, ◌+◌, ◌<◌, ◌↔◌, ◌∷◌, ◌≡◌,
}
use rudr_x.Base.Int.{pos, to_int32, ℤ, ◌+ℤ◌}
use rudr_x.Rollout.Batches.{verify_batches_with_rollout}
use rudr_x.Rollout.Defaults.{
  default_rollout_batches, default_rollout_plan, filled, made_batches, still_filling,
}
use rudr_x.Rollout.Defaults.Accepted.{default_rollout_batches-verified}
use rudr_x.Rollout.Defaults.Filling.{shared}
use rudr_x.Rollout.Defaults.Shares.{
  Asks, default_rollout_batches-runs_on, default_rollout_batches-shared,
}
use rudr_x.Rollout.Samples.{runtime}
use rudr_x.Rollout.Types.{IntOrString, RolloutPlan, batches, int_val, str_val, unset_strategy}
use rudr_x.Rollout.Validation.{Paths, validate_create}
use rudr_x.Rollout.Validation.Defaulted.{validate_create-defaulted}
use rudr_x.Rollout.Validation.Valid.{IsValid, validate_create-IsValid}

abbrev int_value : IntOrString → ℤ
int_value (int_val n) = n
int_value (str_val s) = pos 0

abbrev asking : ℕ → ℕ → RolloutPlan
asking t n = record {
  rollout_strategy = unset_strategy;
  target_size = some (pos t);
  num_batches = some (pos n);
  rollout_batches = none;
  batch_partition = none;
  paused = false;
  rollout_webhooks = [];
}

asking-Asks : (t n : ℕ) → Asks (asking t n) t n
asking-Asks t n = record { target = refl; number = refl; unset = refl }

-- Batches of 2, 2, 3 and 3 pods.
ten_in_four :
    default_rollout_batches int_value 11 (asking 10 4)
    ≡ filled (record (asking 10 4) { rollout_batches = some (shared 4 2 2) })
unfolding default_rollout_batches made_batches ◌+ℤ◌ to_int32
ten_in_four = refl

default_rollout_batches-shared_example :
    (q : ℕ) × (r : ℕ) × (10 ≡ q * 4 + r)
    × (r < 4)
    × (default_rollout_batches int_value 11 (asking 10 4)
        ≡ filled (record (asking 10 4) { rollout_batches = some (shared 4 r q) }))
default_rollout_batches-shared_example =
    default_rollout_batches-shared int_value (λ n. refl) (asking 10 4) 10 4 11 (asking-Asks 10 4)
      (omega arith) (omega arith) (omega arith)

default_rollout_batches-runs_on_example :
    default_rollout_batches int_value 100 (asking 10 0) ≡ still_filling
default_rollout_batches-runs_on_example =
    default_rollout_batches-runs_on int_value (asking 10 0) 9 100 (asking-Asks 10 0)

default_rollout_batches-verified_example :
    (p' : RolloutPlan) × (default_rollout_batches int_value 11 (asking 10 4) ≡ filled p')
    × (verify_batches_with_rollout runtime p' (pos 10) ≡ none)
default_rollout_batches-verified_example =
    default_rollout_batches-verified runtime (λ n total. refl) int_value (asking 10 4) 10 4 11
      (λ n. refl) (asking-Asks 10 4) (omega arith) (omega arith) (omega arith) (omega arith)

-- Paths as lists of their parts, the last part first.
abbrev paths : Paths (List String)
paths = record { child = λ p s. s ∷ p; index = λ p i. "[]" ∷ p }

validate_create-IsValid_example :
    (validate_create runtime paths (asking 10 4) [] ≡ []) ↔ IsValid runtime (asking 10 4)
validate_create-IsValid_example = validate_create-IsValid runtime paths (asking 10 4) []

-- A plan without batches and without a strategy: three errors.
no_batches : length (validate_create runtime paths (asking 10 4) []) ≡ 3
unfolding validate_create batches
no_batches = refl

validate_create-defaulted_example :
    (p' : RolloutPlan) × (default_rollout_batches int_value 11 (asking 10 4) ≡ filled p')
    × (validate_create runtime paths (default_rollout_plan p') [] ≡ [])
validate_create-defaulted_example =
    validate_create-defaulted runtime (λ n total. refl) int_value paths [] (asking 10 4) 10 4 11
      (λ n. refl) (asking-Asks 10 4) (omega arith) (omega arith) (omega arith) tt tt tt
