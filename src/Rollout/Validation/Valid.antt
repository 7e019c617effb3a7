-- ===== src/Rollout/Validation/Valid.antt =====
-- The plans that `ValidateCreate` accepts.
use rudr_x.Base.{
  All, Bool, List, Option, String, [], arith, false, length, none, not, refl, some, suc, true, ℕ,
  ◌++◌, ◌↔◌, ◌∷◌, ◌≡◌, ◌≢◌,
}
use rudr_x.Base.Int.{ltb_ℤ, pos, ℤ, ◌==ℤ◌, ◌≤ℤ◌}
use rudr_x.Rollout.Types.{IntOrString, RolloutBatch, RolloutPlan, RolloutWebhook, Runtime, batches}
use rudr_x.Rollout.Validation.{
  FieldError, Paths, all_batch_hook_errors, batch_errors, batch_hook_errors, batches_required,
  is_batch_hook, is_known_strategy, is_method, is_plan_hook, number_errors, partition_errors,
  plan_hook_errors, replica_errors, unless, validate_create, validate_rollout_batches,
  validate_webhook,
}

-- No error, hook by hook and batch by batch.
abbrev pub IsPlanHook : RolloutWebhook → Type 0
IsPlanHook h = (is_plan_hook h.type ≡ true) × (is_method h.method ≡ true)

abbrev pub IsBatchHook : RolloutWebhook → Type 0
IsBatchHook h = is_batch_hook h.type ≡ true

-- The replicas of a batch can be read, and are not negative.
abbrev pub IsReplicas : ℤ × Option String → Type 0
IsReplicas v = (v.1 ≡ none) × (pos 0 ≤ℤ v.0)

abbrev pub HasBatchHooks : RolloutBatch → Type 0
HasBatchHooks b = All IsBatchHook b.batch_rollout_webhooks

abbrev pub HasReplicas : Runtime → RolloutBatch → Type 0
HasReplicas rt b = IsReplicas (rt.get_value b.replicas (pos 100))

abbrev pub IsPartition : Option ℤ → Type 0
IsPartition none = Unit
IsPartition (some p) = pos 0 ≤ℤ p

abbrev pub IsNumber : ℕ → Option ℤ → Type 0
IsNumber len none = Unit
IsNumber len (some n) = n ≡ pos len

-- What `ValidateCreate` asks of a plan.
pub record IsValid (rt : Runtime) (p : RolloutPlan) : Type 0 where
  pub has_batches : (bs : List RolloutBatch) × (p.rollout_batches ≡ some bs)
  pub partition : IsPartition p.batch_partition
  pub number : IsNumber (length (batches p)) p.num_batches
  pub strategy : is_known_strategy p.rollout_strategy ≡ true
  pub plan_hooks : All IsPlanHook p.rollout_webhooks
  pub batch_hooks : All HasBatchHooks (batches p)
  pub replicas : All (HasReplicas rt) (batches p)

cons_not_nil : {A : Type 0} {x : A} {xs : List A} → (x ∷ xs) ≢ []
cons_not_nil = cc

both : {A P Q : Type 0} (xs ys : List A) → (xs ≡ []) ↔ P → (ys ≡ []) ↔ Q → (xs ++ ys ≡ []) ↔ (P × Q)
both [] ys p q = (λ e. (p.0 refl, q.0 e), λ h. q.1 h.1)
both (x ∷ xs) ys p q = (λ e. absurd (cons_not_nil e), λ h. absurd (cons_not_nil (p.1 h.0)))

unless-empty :
    {FieldPath : Type 0} (b : Bool) (e : FieldError FieldPath) → (unless b e ≡ []) ↔ (b ≡ true)
unless-empty true e = (λ _. refl, λ _. refl)
unless-empty false e = (λ h. absurd (cons_not_nil h), λ h. cc)

not_negative : (z : ℤ) → (not (ltb_ℤ z (pos 0)) ≡ true) ↔ (pos 0 ≤ℤ z)
not_negative z = (λ h. ground arith, λ h. ground arith)

length_is : (n : ℤ) (len : ℕ) → ((pos len ==ℤ n) ≡ true) ↔ (n ≡ pos len)
length_is n len = (λ h. ground arith, λ h. ground arith)

then_iff : {A B C : Type 0} → A ↔ B → B ↔ C → A ↔ C
then_iff p q = (λ a. q.0 (p.0 a), λ c. p.1 (q.1 c))

module _ {FieldPath : Type 0} (rt : Runtime) (paths : Paths FieldPath) where
  plan_hook_errors-empty :
      (path : FieldPath) (i : ℕ) (hs : List RolloutWebhook)
      → (plan_hook_errors rt paths path i hs ≡ []) ↔ All IsPlanHook hs
  unfolding plan_hook_errors
  plan_hook_errors-empty path i [] = (λ e. tt, λ h. refl)
  plan_hook_errors-empty path i (h ∷ hs) =
      let parts =
        both _ _ (unless-empty (is_plan_hook h.type) _) (
          both _ _ (unless-empty (is_method h.method) _)
            (plan_hook_errors-empty path (suc i) hs)) in
      (λ e. let (a, (b, c)) = parts.0 e in ((a, b), c), λ p. parts.1 (p.0.0, (p.0.1, p.1)))

  batch_hook_errors-empty :
      (path : FieldPath) (j : ℕ) (hs : List RolloutWebhook)
      → (batch_hook_errors rt paths path j hs ≡ []) ↔ All IsBatchHook hs
  unfolding batch_hook_errors
  batch_hook_errors-empty path j [] = (λ e. tt, λ h. refl)
  batch_hook_errors-empty path j (h ∷ hs) =
      both _ _ (unless-empty (is_batch_hook h.type) _) (batch_hook_errors-empty path (suc j) hs)

  replica_errors-empty :
      (path : FieldPath) (replicas : IntOrString) (v : ℤ × Option String)
      → (replica_errors rt paths path replicas v ≡ []) ↔ IsReplicas v
  unfolding replica_errors
  replica_errors-empty path replicas (z, some reason) = (λ e. absurd (cons_not_nil e), λ h. cc)
  replica_errors-empty path replicas (z, none) =
      then_iff (unless-empty (not (ltb_ℤ z (pos 0))) _)
        (λ h. (refl, (not_negative z).0 h), λ h. (not_negative z).1 h.1)

  all_batch_hook_errors-empty :
      (path : FieldPath) (i : ℕ) (bs : List RolloutBatch)
      → (all_batch_hook_errors rt paths path i bs ≡ []) ↔ All HasBatchHooks bs
  unfolding all_batch_hook_errors
  all_batch_hook_errors-empty path i [] = (λ e. tt, λ h. refl)
  all_batch_hook_errors-empty path i (b ∷ bs) =
      both _ _ (batch_hook_errors-empty (paths.index path i) 0 b.batch_rollout_webhooks)
        (all_batch_hook_errors-empty path (suc i) bs)

  batch_errors-empty :
      (path : FieldPath) (i : ℕ) (bs : List RolloutBatch)
      → (batch_errors rt paths path i bs ≡ []) ↔ All (HasReplicas rt) bs
  unfolding batch_errors
  batch_errors-empty path i [] = (λ e. tt, λ h. refl)
  batch_errors-empty path i (b ∷ bs) =
      both _ _
        (replica_errors-empty (paths.index path i) b.replicas (rt.get_value b.replicas (pos 100)))
        (batch_errors-empty path (suc i) bs)

  batches_required-empty :
      (o : Option (List RolloutBatch)) (root : FieldPath)
      → (batches_required rt paths o root ≡ []) ↔ ((bs : List RolloutBatch) × (o ≡ some bs))
  unfolding batches_required
  batches_required-empty none root = (λ e. absurd (cons_not_nil e), λ (bs, e). cc)
  batches_required-empty (some bs) root = (λ e. (bs, refl), λ h. refl)

  partition_errors-empty :
      (o : Option ℤ) (root : FieldPath) → (partition_errors rt paths o root ≡ []) ↔ IsPartition o
  unfolding partition_errors
  partition_errors-empty none root = (λ e. tt, λ h. refl)
  partition_errors-empty (some p) root =
      then_iff (unless-empty (not (ltb_ℤ p (pos 0))) _) (not_negative p)

  number_errors-empty :
      (o : Option ℤ) (len : ℕ) (root : FieldPath)
      → (number_errors rt paths o len root ≡ []) ↔ IsNumber len o
  unfolding number_errors
  number_errors-empty none len root = (λ e. tt, λ h. refl)
  number_errors-empty (some n) len root =
      then_iff (unless-empty (pos len ==ℤ n) _) (length_is n len)

  -- `ValidateCreate` reports no error exactly for the plans that are valid: that have batches, a
  -- partition that is not negative, the number of batches that they say, one of the two strategies,
  -- hooks of the types and methods allowed at their places, and replicas that can be read and are
  -- not negative.
  pub validate_create-IsValid :
      (p : RolloutPlan) (root : FieldPath) → (validate_create rt paths p root ≡ []) ↔ IsValid rt p
  unfolding validate_create validate_webhook validate_rollout_batches
  validate_create-IsValid p root =
      let parts = both _ _ (batches_required-empty p.rollout_batches root) (
        both _ _ (partition_errors-empty p.batch_partition root) (
          both _ _ (number_errors-empty p.num_batches (length (batches p)) root) (
            both _ _ (unless-empty (is_known_strategy p.rollout_strategy) _) (
              both _ _
                (both _ _ (plan_hook_errors-empty _ 0 p.rollout_webhooks)
                  (all_batch_hook_errors-empty _ 0 (batches p)))
                (batch_errors-empty _ 0 (batches p)))))) in
      (
        λ e.
            let (a, (b, (c, (d, ((f, g), h))))) = parts.0 e in
            record {
              has_batches = a;
              partition = b;
              number = c;
              strategy = d;
              plan_hooks = f;
              batch_hooks = g;
              replicas = h;
            },
        λ v. parts.1 (
          v.has_batches,
          (v.partition, (v.number, (v.strategy, ((v.plan_hooks, v.batch_hooks), v.replicas)))),
        ),
      )
