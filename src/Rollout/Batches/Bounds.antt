-- ===== src/Rollout/Batches/Bounds.antt =====
-- What the checks of common.go promise of the pod targets that the batches aim at.
use rudr_x.Base.{Bool-cases, arith, if◌then◌else◌, inl, inr, length, none, ℕ, ◌-◌, ◌≡◌, ◌≤◌, ◌⊎◌}
use rudr_x.Base.Int.{eq_of_parts, int_laws, ltb_ℤ, negsuc, pos, ℤ, ◌+ℤ◌, ◌-ℤ◌, ◌<ℤ◌, ◌==ℤ◌, ◌≤ℤ◌}
use rudr_x.Rollout.Batches.{calculate_new_batch_target, rounds, verify_batches_with_scale}
use rudr_x.Rollout.Batches.Sums.{
  HasSizes, add_but_last-eq, grow-eq, shrink-eq, subtract_but_last-eq, sum_first, sum_first_mono,
  sum_first_nonneg,
}
use rudr_x.Rollout.Types.{RolloutPlan, Runtime, batches}

abbrev pub last_index : RolloutPlan → ℤ
last_index spec = pos (length (batches spec)) -ℤ pos 1

-- On the way from `o` to `t`, `x` comes no later than `y`.
abbrev pub Towards : ℤ → ℤ → ℤ → ℤ → Type 0
Towards o t x y = ((o ≤ℤ x) × (x ≤ℤ y) × (y ≤ℤ t)) ⊎ ((t ≤ℤ y) × (y ≤ℤ x) × (x ≤ℤ o))

rounds_mono : (i j : ℤ) → i ≤ℤ j → rounds i ≤ rounds j
unfolding rounds
rounds_mono (pos i) (pos j) h = omega arith
rounds_mono (pos i) (negsuc j) h = absurd (omega arith)
rounds_mono (negsuc i) j h = omega arith

rounds_below : (j : ℤ) (n : ℕ) → j <ℤ pos n -ℤ pos 1 → rounds j ≤ n - 1
unfolding rounds
rounds_below (pos j) n h = omega int_laws
rounds_below (negsuc j) n h = omega arith

eq_or_lt : (a b : ℤ) → b ≤ℤ a → (a ≡ b) ⊎ (b <ℤ a)
eq_or_lt a b h = elim (Bool-cases (a ==ℤ b)) [
  | inl e ↦ inl (eq_of_parts a b (ground arith))
  | inr n ↦ inr (ground arith)
]

module _ (rt : Runtime) (spec : RolloutPlan) (o t : ℤ) where
  -- The pods that the batches up to `i` aim at.
  abbrev pub pod_target : ℤ → ℤ
  pod_target i = calculate_new_batch_target rt spec o t i

  -- The last batch aims at the target, whatever the sizes are.
  pub pod_target-last : pod_target (last_index spec) ≡ t
  unfolding calculate_new_batch_target
  pod_target-last = ground arith

  pub pod_target_up :
      (i : ℤ)
      → i <ℤ last_index spec
      → o <ℤ t
      → pod_target i ≡ o +ℤ sum_first rt (t -ℤ o) (rounds i) (batches spec)
  unfolding calculate_new_batch_target
  pod_target_up i h k = ground (arith, grow-eq rt (t -ℤ o) o (rounds i) (batches spec))

  pub pod_target_down :
      (i : ℤ)
      → i <ℤ last_index spec
      → t ≤ℤ o
      → pod_target i ≡ o -ℤ sum_first rt (o -ℤ t) (rounds i) (batches spec)
  unfolding calculate_new_batch_target
  pod_target_down i h k = ground (arith, shrink-eq rt (o -ℤ t) o (rounds i) (batches spec))

  -- The sizes of the batches, as fractions of the way, are not negative.
  abbrev pub HasSizesOnWay : Type 0
  HasSizesOnWay = HasSizes rt (if ltb_ℤ o t then t -ℤ o else o -ℤ t) (batches spec)

  verified_up :
      verify_batches_with_scale rt spec o t ≡ none
      → o <ℤ t
      → o +ℤ sum_first rt (t -ℤ o) (length (batches spec) - 1) (batches spec) <ℤ t
  unfolding verify_batches_with_scale
  verified_up ok up = ground (arith, add_but_last-eq rt (t -ℤ o) o (batches spec))

  verified_down :
      verify_batches_with_scale rt spec o t ≡ none
      → t <ℤ o
      → t <ℤ o -ℤ sum_first rt (o -ℤ t) (length (batches spec) - 1) (batches spec)
  unfolding verify_batches_with_scale
  verified_down ok down = ground (arith, subtract_but_last-eq rt (o -ℤ t) o (batches spec))

  verified_same :
      verify_batches_with_scale rt spec o t ≡ none
      → o ≡ t
      → t ≡ o -ℤ sum_first rt (o -ℤ t) (length (batches spec) - 1) (batches spec)
  unfolding verify_batches_with_scale
  verified_same ok same = ground (
    arith,
    subtract_but_last-eq rt (o -ℤ t) o (batches spec),
    eq_of_parts (o -ℤ sum_first rt (o -ℤ t) (length (batches spec) - 1) (batches spec)) t,
  )

  verified_at_most :
      verify_batches_with_scale rt spec o t ≡ none
      → t ≤ℤ o
      → t ≤ℤ o -ℤ sum_first rt (o -ℤ t) (length (batches spec) - 1) (batches spec)
  verified_at_most ok down = elim (eq_or_lt o t down) [
    | inl same ↦ ground (arith, verified_same ok same)
    | inr below ↦ omega (arith, verified_down ok below)
  ]

  towards_up :
      (i j : ℤ)
      → verify_batches_with_scale rt spec o t ≡ none
      → HasSizes rt (t -ℤ o) (batches spec)
      → o <ℤ t
      → i ≤ℤ j
      → j <ℤ last_index spec
      → (o ≤ℤ pod_target i) × (pod_target i ≤ℤ pod_target j) × (pod_target j <ℤ t)
  towards_up i j ok sizes up le before =
      let below : i <ℤ last_index spec = omega arith in
      let bs = batches spec in
      let n = length bs - 1 in
      rw (pod_target_up i below up) (
        rw (pod_target_up j before up) (
          omega (
            int_laws,
            verified_up ok up,
            sum_first_nonneg rt (t -ℤ o) (rounds i) bs sizes,
            sum_first_mono rt (t -ℤ o) (rounds i) (rounds j) bs sizes (rounds_mono i j le),
            sum_first_mono rt (t -ℤ o) (rounds j) n bs sizes (rounds_below j (length bs) before),
          )))

  towards_down :
      (i j : ℤ)
      → verify_batches_with_scale rt spec o t ≡ none
      → HasSizes rt (o -ℤ t) (batches spec)
      → t ≤ℤ o
      → i ≤ℤ j
      → j <ℤ last_index spec
      → (t ≤ℤ pod_target j) × (pod_target j ≤ℤ pod_target i) × (pod_target i ≤ℤ o)
  towards_down i j ok sizes down le before =
      let below : i <ℤ last_index spec = omega arith in
      let bs = batches spec in
      let n = length bs - 1 in
      rw (pod_target_down i below down) (
        rw (pod_target_down j before down) (
          omega (
            int_laws,
            verified_at_most ok down,
            sum_first_nonneg rt (o -ℤ t) (rounds i) bs sizes,
            sum_first_mono rt (o -ℤ t) (rounds i) (rounds j) bs sizes (rounds_mono i j le),
            sum_first_mono rt (o -ℤ t) (rounds j) n bs sizes (rounds_below j (length bs) before),
          )))

  pod_target_at_last : (i : ℤ) → last_index spec ≡ i → pod_target i ≡ t
  pod_target_at_last i e = rw (← e) pod_target-last

  pub all_up :
      (i j : ℤ)
      → verify_batches_with_scale rt spec o t ≡ none
      → HasSizes rt (t -ℤ o) (batches spec)
      → o <ℤ t
      → i ≤ℤ j
      → j ≤ℤ last_index spec
      → (o ≤ℤ pod_target i) × (pod_target i ≤ℤ pod_target j) × (pod_target j ≤ℤ t)
  all_up i j ok sizes up le at_most = elim (eq_or_lt (last_index spec) j at_most) [
    | inl ends ↦ elim (eq_or_lt (last_index spec) i (omega arith)) [
      | inl here ↦ ground (arith, pod_target_at_last i here, pod_target_at_last j ends)
      | inr there ↦
          ground (arith, pod_target_at_last j ends, towards_up i i ok sizes up (omega arith) there)
    ]
    | inr before ↦ omega (arith, towards_up i j ok sizes up le before)
  ]

  all_down :
      (i j : ℤ)
      → verify_batches_with_scale rt spec o t ≡ none
      → HasSizes rt (o -ℤ t) (batches spec)
      → t ≤ℤ o
      → i ≤ℤ j
      → j ≤ℤ last_index spec
      → (t ≤ℤ pod_target j) × (pod_target j ≤ℤ pod_target i) × (pod_target i ≤ℤ o)
  all_down i j ok sizes down le at_most = elim (eq_or_lt (last_index spec) j at_most) [
    | inl ends ↦ elim (eq_or_lt (last_index spec) i (omega arith)) [
      | inl here ↦ ground (arith, pod_target_at_last i here, pod_target_at_last j ends)
      | inr there ↦
          ground
            (arith, pod_target_at_last j ends, towards_down i i ok sizes down (omega arith) there)
    ]
    | inr before ↦ omega (arith, towards_down i j ok sizes down le before)
  ]

  -- Where `verifyBatchesWithScale` accepts a plan without negative sizes, the pod targets go from
  -- the original size to the target: the target of a batch lies between the original size and that
  -- of every later batch, and none passes the target size.
  pub pod_target-Towards :
      (i j : ℤ)
      → verify_batches_with_scale rt spec o t ≡ none
      → HasSizesOnWay
      → i ≤ℤ j
      → j ≤ℤ last_index spec
      → Towards o t
          (calculate_new_batch_target rt spec o t i)
          (calculate_new_batch_target rt spec o t j)
  pod_target-Towards i j ok sizes le at_most = elim (Bool-cases (ltb_ℤ o t)) [
    | inl up ↦ inl (all_up i j ok (rw up at sizes) (ground arith) le at_most)
    | inr down ↦ inr (all_down i j ok (rw down at sizes) (ground arith) le at_most)
  ]
