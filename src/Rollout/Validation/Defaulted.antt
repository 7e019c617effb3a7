-- ===== src/Rollout/Validation/Defaulted.antt =====
-- The defaults pass the validation: the two webhooks agree.
use rudr_x.Base.{
  All, List, Option, [], arith, length, length-replicate, none, refl, replicate, some, suc, true,
  zero, ℕ, ◌++◌, ◌+◌, ◌-◌, ◌<◌, ◌∷◌, ◌≡◌, ◌≤◌,
}
use rudr_x.Base.Int.{pos, two_31, ℤ}
use rudr_x.Rollout.Defaults.{
  default_rollout_batches, default_rollout_plan, default_strategy, filled,
}
use rudr_x.Rollout.Defaults.Filling.{IsIntValue, batch_of_size, shared}
use rudr_x.Rollout.Defaults.Shares.{Asks, default_rollout_batches-shared}
use rudr_x.Rollout.Types.{
  IntOrString, RolloutBatch, RolloutPlan, RolloutStrategyType, Runtime, batches,
  decrease_first_strategy, increase_first_strategy, int_val, other_strategy, unset_strategy,
}
use rudr_x.Rollout.Validation.{Paths, is_known_strategy, validate_create}
use rudr_x.Rollout.Validation.Valid.{
  HasBatchHooks, HasReplicas, IsNumber, IsPartition, IsPlanHook, IsValid, validate_create-IsValid,
}

-- A number is read as itself, without an error.
abbrev pub ReadsNumbers : Runtime → Type 0
ReadsNumbers rt = (n total : ℤ) → rt.get_value (int_val n) total ≡ (n, none)

-- A strategy that is set is one of the two.
abbrev pub IsSetWell : RolloutStrategyType → Type 0
IsSetWell unset_strategy = Unit
IsSetWell s = is_known_strategy s ≡ true

All-append : {A : Type 0} (P : A → Type 0) (xs ys : List A) → All P xs → All P ys → All P (xs ++ ys)
All-append P [] ys h k = k
All-append P (x ∷ xs) ys h k = (h.0, All-append P xs ys h.1 k)

All-replicate : {A : Type 0} (P : A → Type 0) (n : ℕ) (x : A) → P x → All P (replicate n x)
All-replicate P zero x h = tt
All-replicate P (suc n) x h = (h, All-replicate P n x h)

length-append : {A : Type 0} (xs ys : List A) → length (xs ++ ys) ≡ length xs + length ys
length-append [] ys = omega arith
length-append (x ∷ xs) ys = omega (arith, length-append xs ys)

length-shared : (n r q : ℕ) → r < n → length (shared n r q) ≡ n
length-shared n r q less = omega (
  arith,
  length-append (replicate (n - r) (batch_of_size q)) (replicate r (batch_of_size (suc q))),
  length-replicate (n - r) (batch_of_size q),
  length-replicate r (batch_of_size (suc q)),
)

known_by_default :
    (s : RolloutStrategyType) → IsSetWell s → is_known_strategy (default_strategy s) ≡ true
known_by_default unset_strategy h = refl
known_by_default increase_first_strategy h = refl
known_by_default decrease_first_strategy h = refl
known_by_default (other_strategy s) h = h

module _ (rt : Runtime) (reads : ReadsNumbers rt) where
  HasReplicas-of_size : (c : ℕ) → HasReplicas rt (batch_of_size c)
  HasReplicas-of_size c = rw (reads (pos c) (pos 100)) (refl, omega arith)

  All-shared :
      (P : RolloutBatch → Type 0) (n r q : ℕ)
      → ((c : ℕ) → P (batch_of_size c))
      → All P (shared n r q)
  All-shared P n r q h =
      All-append P (replicate (n - r) (batch_of_size q)) _ (All-replicate P (n - r) _ (h q))
        (All-replicate P r _ (h (suc q)))

  IsNumber-shared :
      (n r q : ℕ) (o : Option ℤ) → r < n → o ≡ some (pos n) → IsNumber (length (shared n r q)) o
  IsNumber-shared n r q o less e = rw (e, length-shared n r q less) refl

  IsValid-shared :
      (p : RolloutPlan) (n r q : ℕ)
      → r < n
      → p.num_batches ≡ some (pos n)
      → IsSetWell p.rollout_strategy
      → IsPartition p.batch_partition
      → All IsPlanHook p.rollout_webhooks
      → IsValid rt (default_rollout_plan (record p { rollout_batches = some (shared n r q) }))
  unfolding default_rollout_plan batches
  IsValid-shared p n r q less number set partition hooks = record {
    has_batches = (shared n r q, refl);
    partition = partition;
    number = IsNumber-shared n r q p.num_batches less number;
    strategy = known_by_default p.rollout_strategy set;
    plan_hooks = hooks;
    batch_hooks = All-shared HasBatchHooks n r q (λ c. tt);
    replicas = All-shared (HasReplicas rt) n r q HasReplicas-of_size;
  }

  -- A plan that gives a target size below the `int32` limit and at least one batch but no batches,
  -- whose own webhooks and partition are allowed and whose strategy is one of the two or not set,
  -- passes `ValidateCreate` once `DefaultRolloutBatches` and `DefaultRolloutPlan` have filled it
  -- in, where numbers are read as themselves.
  pub validate_create-defaulted :
      (int_value : IntOrString → ℤ) {FieldPath : Type 0} (paths : Paths FieldPath)
      (root : FieldPath) (p : RolloutPlan) (t n fuel : ℕ)
      → IsIntValue int_value
      → Asks p t n
      → 0 < n
      → t + 1 ≤ fuel
      → t + 1 < two_31
      → IsSetWell p.rollout_strategy
      → IsPartition p.batch_partition
      → All IsPlanHook p.rollout_webhooks
      → (p' : RolloutPlan) × (default_rollout_batches int_value fuel p ≡ filled p')
        × (validate_create rt paths (default_rollout_plan p') root ≡ [])
  validate_create-defaulted int_value paths root p t n fuel is asks some_batch enough fits set
        partition hooks =
      let (q, r, split, less, e) =
        default_rollout_batches-shared int_value is p t n fuel asks some_batch enough fits in
      (
        _,
        e,
        (validate_create-IsValid rt paths _ root).1
            (IsValid-shared p n r q less asks.number set partition hooks),
      )
