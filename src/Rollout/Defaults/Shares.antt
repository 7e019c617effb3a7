-- ===== src/Rollout/Defaults/Shares.antt =====
-- What `DefaultRolloutBatches` makes of a plan that asks for batches.
use rudr_x.Base.{
  Bool-cases, List, Option, [], ap, arith, inl, inr, ltb, none, refl, replicate, some, suc, zero, ℕ,
  ◌*◌, ◌+◌, ◌<◌, ◌∙◌, ◌≡◌, ◌≤◌,
}
use rudr_x.Base.Int.{pos, two_31, ℤ}
use rudr_x.Rollout.Defaults.{
  default_of, default_rollout_batches, fill, fill_rollout_batches, filled, made_batches,
  still_filling, sweep, with_batches, zero_batch,
}
use rudr_x.Rollout.Defaults.Filling.{IsIntValue, fill_shares, shared}
use rudr_x.Rollout.Types.{IntOrString, RolloutBatch, RolloutPlan}

-- A plan that asks for `n` batches of `t` pods in all and gives none.
pub record Asks (p : RolloutPlan) (t n : ℕ) : Type 0 where
  pub target : p.target_size ≡ some (pos t)
  pub number : p.num_batches ≡ some (pos n)
  pub unset : p.rollout_batches ≡ none

-- Quotient and remainder.
divided : (t k : ℕ) → 0 < k → (q : ℕ) × (r : ℕ) × (t ≡ q * k + r) × (r < k)
divided zero k h = (0, 0, omega arith, omega arith)
divided (suc t) k h =
    let (q, r, e, less) = divided t k h in
    elim (Bool-cases (ltb (suc r) k)) [
      | inl more ↦ (q, suc r, omega arith, ground arith)
      | inr full ↦
          let same : suc r ≡ k = ground arith in (suc q, 0, ground (arith, same), omega arith)
    ]

quotient_small : (q k r t : ℕ) → 0 < k → t ≡ q * k + r → q ≤ t
quotient_small q zero r t h e = absurd (omega arith)
quotient_small q (suc k) r t h e = omega arith

module _ (int_value : IntOrString → ℤ) (reads : IsIntValue int_value) where
  filled_with :
      (p : RolloutPlan) (t n fuel : ℕ) (bs : List RolloutBatch) (size number : Option ℤ)
      (given : Option (List RolloutBatch))
      → size ≡ some (pos t)
      → number ≡ some (pos n)
      → given ≡ none
      → fill int_value fuel n (replicate n zero_batch) t ≡ filled bs
      → default_of int_value size number given fuel p
        ≡ filled (record p { rollout_batches = some bs })
  unfolding default_of made_batches fill_rollout_batches with_batches
  filled_with p t n fuel bs size number given e1 e2 e3 e = simp (e1, e2, e3, e) refl

  -- Where a plan gives a target size below the `int32` limit and at least one batch but no batches,
  -- and `IntValue` reads a number as itself, `DefaultRolloutBatches` ends, with fuel for as many
  -- rounds as pods and one more, and shares the pods out evenly: with `t = q * n + r`, each of the
  -- `n` batches has `q` pods, and each of the last `r` one more.
  pub default_rollout_batches-shared :
      (p : RolloutPlan) (t n fuel : ℕ)
      → Asks p t n
      → 0 < n
      → t + 1 ≤ fuel
      → t + 1 < two_31
      → (q : ℕ) × (r : ℕ) × (t ≡ q * n + r)
        × (r < n)
        × (default_rollout_batches int_value fuel p
            ≡ filled (record p { rollout_batches = some (shared n r q) }))
  unfolding default_rollout_batches
  default_rollout_batches-shared p t n fuel asks some_batch enough fits =
      let (q, r, e, less) = divided t n some_batch in
      let small = quotient_small q n r t some_batch e in
      let none_before : 0 + q ≡ q = omega arith in
      let shares =
        fill_shares int_value reads q fuel n r 0 t less (omega arith) (omega arith) e
        ∙ ap (λ m. filled (shared n r m)) none_before in
      (
        q,
        r,
        e,
        less,
        filled_with p t n fuel _ p.target_size p.num_batches p.rollout_batches asks.target
            asks.number asks.unset shares,
      )

module _ (int_value : IntOrString → ℤ) where
  fill_nothing :
      (fuel total : ℕ) (bs : List RolloutBatch)
      → fill int_value fuel 0 bs (suc total) ≡ still_filling
  unfolding fill sweep
  fill_nothing zero total bs = refl
  fill_nothing (suc fuel) total bs = fill_nothing fuel total bs

  runs_on_with :
      (p : RolloutPlan) (t fuel : ℕ) (size number : Option ℤ) (given : Option (List RolloutBatch))
      → size ≡ some (pos (suc t))
      → number ≡ some (pos 0)
      → given ≡ none
      → default_of int_value size number given fuel p ≡ still_filling
  unfolding default_of made_batches fill_rollout_batches with_batches
  runs_on_with p t fuel size number given e1 e2 e3 = simp (e1, e2, e3, fill_nothing fuel t []) refl

  -- For a plan that asks for pods in 0 batches, `DefaultRolloutBatches` never ends: no number of
  -- rounds of its outer loop is enough.
  pub default_rollout_batches-runs_on :
      (p : RolloutPlan) (t fuel : ℕ)
      → Asks p (suc t) 0
      → default_rollout_batches int_value fuel p ≡ still_filling
  unfolding default_rollout_batches
  default_rollout_batches-runs_on p t fuel asks =
      runs_on_with p t fuel p.target_size p.num_batches p.rollout_batches asks.target asks.number
        asks.unset
