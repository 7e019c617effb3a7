-- ===== src/Rollout/Batches/Steps.antt =====
-- How far each batch moves the pod target, and the check of a rollout as one of a scaling from
-- nothing.
use rudr_x.Base.{
  Bool-cases, List, [], arith, get_elem?, if◌then◌else◌, inl, inr, length, none, refl, some, suc,
  zero, ℕ, ◌-◌, ◌<◌, ◌==◌, ◌∷◌, ◌≡◌, ◌⊎◌,
}
use rudr_x.Base.Int.{+ℤ_parts, eq_of_parts, int_laws, ltb_ℤ, pos, ℤ, ◌+ℤ◌, ◌-ℤ◌, ◌<ℤ◌, ◌≤ℤ◌}
use rudr_x.Rollout.Batches.{
  add_but_last, batch_size, calculate_new_batch_target, last_batch, rounds, scaled_but_last,
  subtract_but_last, verify_batches_with_rollout, verify_batches_with_scale,
}
use rudr_x.Rollout.Batches.Bounds.{
  all_up, last_index, pod_target, pod_target-last, pod_target_down, pod_target_up,
}
use rudr_x.Rollout.Batches.Sums.{
  HasSizes, add_but_last-eq, subtract_but_last-eq, sum_first, sum_first-suc, sum_first_nonneg,
}
use rudr_x.Rollout.Types.{RolloutBatch, RolloutPlan, Runtime, batches, int_val}

rounds_pred : (k : ℕ) → rounds (pos k -ℤ pos 1) ≡ k
unfolding rounds ◌-ℤ◌
rounds_pred zero = refl
rounds_pred (suc k) = ground arith

last_batch_at :
    (bs : List RolloutBatch) (k : ℕ) {b : RolloutBatch}
    → get_elem? bs k ≡ some b
    → suc k ≡ length bs
    → last_batch bs ≡ some b
unfolding last_batch
last_batch_at [] k h e = cc
last_batch_at (c ∷ []) zero h e = h
last_batch_at (c ∷ []) (suc k) h e = cc
last_batch_at (c ∷ d ∷ bs) zero h e = absurd (omega arith)
last_batch_at (c ∷ d ∷ bs) (suc k) h e = last_batch_at (d ∷ bs) k h (omega arith)

length_of_get :
    (bs : List RolloutBatch) (k : ℕ) {b : RolloutBatch} → get_elem? bs k ≡ some b → k < length bs
length_of_get [] k h = cc
length_of_get (c ∷ bs) zero h = omega arith
length_of_get (c ∷ bs) (suc k) h = omega (arith, length_of_get bs k h)

-- The documented value of a number: itself.
abbrev pub ReadsInts : Runtime → Type 0
ReadsInts rt = (n total : ℤ) → (rt.get_value (int_val n) total).0 ≡ n

module _ (rt : Runtime) (spec : RolloutPlan) (o t : ℤ) where
  -- The way from `o` to `t`, and a point of it moved on.
  abbrev pub span : ℤ
  span = if ltb_ℤ o t then t -ℤ o else o -ℤ t

  abbrev pub moved : ℤ → ℤ → ℤ
  moved x d = if ltb_ℤ o t then x +ℤ d else x -ℤ d

  verified_last :
      {b : RolloutBatch} {n : ℤ}
      → verify_batches_with_scale rt spec o t ≡ none
      → last_batch (batches spec) ≡ some b
      → b.replicas ≡ int_val n
      → moved (scaled_but_last rt o t (batches spec)) n ≡ t
  unfolding verify_batches_with_scale
  verified_last {n = n} ok last ints = ground (
    arith,
    eq_of_parts (add_but_last rt (t -ℤ o) o (batches spec) +ℤ n) t,
    eq_of_parts (subtract_but_last rt (o -ℤ t) o (batches spec) -ℤ n) t,
  )

  module _ (k : ℕ) {b : RolloutBatch} (h : get_elem? (batches spec) k ≡ some b) where
    -- Before the last batch.
    step_up :
        pos k <ℤ last_index spec
        → o <ℤ t
        → pod_target rt spec o t (pos k)
          ≡ pod_target rt spec o t (pos k -ℤ pos 1) +ℤ batch_size rt (t -ℤ o) b
    unfolding rounds
    step_up before up = rw (pod_target_up rt spec o t (pos k) before up) (
        rw (pod_target_up rt spec o t (pos k -ℤ pos 1) (omega int_laws) up)
          (rw (rounds_pred k, sum_first-suc rt (t -ℤ o) k (batches spec) h) (omega int_laws)))

    step_down :
        pos k <ℤ last_index spec
        → t ≤ℤ o
        → pod_target rt spec o t (pos k)
          ≡ pod_target rt spec o t (pos k -ℤ pos 1) -ℤ batch_size rt (o -ℤ t) b
    unfolding rounds
    step_down before down = rw (pod_target_down rt spec o t (pos k) before down) (
        rw (pod_target_down rt spec o t (pos k -ℤ pos 1) (omega int_laws) down)
          (rw (rounds_pred k, sum_first-suc rt (o -ℤ t) k (batches spec) h) (omega int_laws)))

    before_last : suc k ≡ length (batches spec) → pod_target rt spec o t (pos k) ≡ t
    before_last e =
        let at_last : pos k ≡ last_index spec = eq_of_parts _ _ (omega int_laws) in
        rw at_last (pod_target-last rt spec o t)

    last_up :
        {n : ℤ}
        → verify_batches_with_scale rt spec o t ≡ none
        → ReadsInts rt
        → b.replicas ≡ int_val n
        → suc k ≡ length (batches spec)
        → o <ℤ t
        → pod_target rt spec o t (pos k)
          ≡ pod_target rt spec o t (pos k -ℤ pos 1) +ℤ batch_size rt (t -ℤ o) b
    unfolding batch_size scaled_but_last
    last_up {n = n} ok reads ints e up =
        let k' : length (batches spec) - 1 ≡ k = omega arith in
        rw (before_last e) (
          rw (pod_target_up rt spec o t (pos k -ℤ pos 1) (omega int_laws) up) (
            rw (rounds_pred k, ints, reads n (t -ℤ o))
              (ground (
                arith,
                k',
                verified_last ok (last_batch_at (batches spec) k h e) ints,
                add_but_last-eq rt (t -ℤ o) o (batches spec),
              ))))

    last_down :
        {n : ℤ}
        → verify_batches_with_scale rt spec o t ≡ none
        → ReadsInts rt
        → b.replicas ≡ int_val n
        → suc k ≡ length (batches spec)
        → t ≤ℤ o
        → pod_target rt spec o t (pos k)
          ≡ pod_target rt spec o t (pos k -ℤ pos 1) -ℤ batch_size rt (o -ℤ t) b
    unfolding batch_size scaled_but_last
    last_down {n = n} ok reads ints e down =
        let k' : length (batches spec) - 1 ≡ k = omega arith in
        rw (before_last e) (
          rw (pod_target_down rt spec o t (pos k -ℤ pos 1) (omega int_laws) down) (
            rw (rounds_pred k, ints, reads n (o -ℤ t))
              (ground (
                arith,
                k',
                verified_last ok (last_batch_at (batches spec) k h e) ints,
                subtract_but_last-eq rt (o -ℤ t) o (batches spec),
              ))))

    step_counted :
        {n : ℤ}
        → verify_batches_with_scale rt spec o t ≡ none
        → ReadsInts rt
        → b.replicas ≡ int_val n
        → suc k ≡ length (batches spec)
        → pod_target rt spec o t (pos k)
          ≡ moved (pod_target rt spec o t (pos k -ℤ pos 1)) (batch_size rt span b)
    step_counted ok reads ints e = elim (Bool-cases (ltb_ℤ o t)) [
      | inl up ↦ rw up (last_up ok reads ints e (ground arith))
      | inr down ↦ rw down (last_down ok reads ints e (ground arith))
    ]

    step_uncounted :
        suc k < length (batches spec)
        → pod_target rt spec o t (pos k)
          ≡ moved (pod_target rt spec o t (pos k -ℤ pos 1)) (batch_size rt span b)
    step_uncounted before = elim (Bool-cases (ltb_ℤ o t)) [
      | inl up ↦ rw up (step_up (omega int_laws) (ground arith))
      | inr down ↦ rw down (step_down (omega int_laws) (ground arith))
    ]

    -- Where `verifyBatchesWithScale` accepts a plan and numbers are read as themselves, each batch
    -- but the last, and the last one too if its size is a number, moves the pod target from the
    -- original size towards the target size by exactly the size of the batch.
    pub pod_target-step :
        verify_batches_with_scale rt spec o t ≡ none
        → ReadsInts rt
        → (suc k < length (batches spec)) ⊎ ((n : ℤ) × (b.replicas ≡ int_val n))
        → calculate_new_batch_target rt spec o t (pos k)
          ≡ moved (calculate_new_batch_target rt spec o t (pos k -ℤ pos 1)) (batch_size rt span b)
    pod_target-step ok reads (inl before) = step_uncounted before
    pod_target-step ok reads (inr (n, ints)) = elim (Bool-cases (suc k == length (batches spec))) [
      | inl e ↦ step_counted ok reads ints (ground arith)
      | inr ne ↦ step_uncounted (ground (arith, length_of_get (batches spec) k h))
    ]

module _ (rt : Runtime) (spec : RolloutPlan) (total : ℤ) where
  sub_zero : total -ℤ pos 0 ≡ total
  sub_zero = omega int_laws

  rollout_positive :
      verify_batches_with_rollout rt spec total ≡ none
      → HasSizes rt total (batches spec)
      → pos 0 <ℤ total
  unfolding verify_batches_with_rollout
  rollout_positive ok sizes =
      let n = length (batches spec) - 1 in
      ground (
        arith,
        add_but_last-eq rt total (pos 0) (batches spec),
        +ℤ_parts (pos 0) (sum_first rt total n (batches spec)),
        sum_first_nonneg rt total n (batches spec) sizes,
      )

  -- A plan that passes as a rollout passes as a scaling from nothing.
  pub rollout-scale :
      verify_batches_with_rollout rt spec total ≡ none
      → HasSizes rt total (batches spec)
      → verify_batches_with_scale rt spec (pos 0) total ≡ none
  unfolding verify_batches_with_scale verify_batches_with_rollout
  rollout-scale ok sizes = ground (arith, sub_zero, rollout_positive ok sizes)

-- Where `verifyBatchesWithRollout` accepts a plan without negative sizes, the pods to upgrade go from
-- none to all: the target of a batch is no more than that of every later batch, and none passes the
-- total.
pub rollout_target_bounds :
    (rt : Runtime) (spec : RolloutPlan) (total i j : ℤ)
    → verify_batches_with_rollout rt spec total ≡ none
    → HasSizes rt total (batches spec)
    → i ≤ℤ j
    → j ≤ℤ last_index spec
    → (pos 0 ≤ℤ calculate_new_batch_target rt spec (pos 0) total i)
      × (calculate_new_batch_target rt spec (pos 0) total i
          ≤ℤ calculate_new_batch_target rt spec (pos 0) total j)
      × (calculate_new_batch_target rt spec (pos 0) total j ≤ℤ total)
rollout_target_bounds rt spec total i j ok sizes le at_most =
    all_up rt spec (pos 0) total i j (rollout-scale rt spec total ok sizes)
      (rw (sub_zero rt spec total) sizes) (rollout_positive rt spec total ok sizes) le at_most
