-- ===== src/Rollout/Defaults/Accepted.antt =====
-- The plans that `DefaultRolloutBatches` makes, and the check of their sizes.
use mathlib.Core.Path.{subst}
use mathlib.Core.List.{append-nil}
use rudr_x.Base.{
  List, [], arith, false, length, none, refl, replicate, some, suc, zero, ℕ, ◌*◌, ◌++◌, ◌+◌, ◌-◌,
  ◌<◌, ◌==◌, ◌∷◌, ◌≡◌, ◌≤◌,
}
use rudr_x.Base.Int.{pos, two_31, ℤ, ◌+ℤ◌}
use rudr_x.Rollout.Batches.{
  add_but_last, batch_size, check_last, last_batch, last_int, verify_batches_with_rollout,
}
use rudr_x.Rollout.Batches.Steps.{ReadsInts}
use rudr_x.Rollout.Defaults.{default_rollout_batches, filled}
use rudr_x.Rollout.Defaults.Filling.{IsIntValue, batch_of_size, shared}
use rudr_x.Rollout.Defaults.Shares.{Asks, default_rollout_batches-shared}
use rudr_x.Rollout.Types.{IntOrString, RolloutBatch, RolloutPlan, Runtime, batches}

-- Batches of numbers, with their sum and the last of them.
data Sized : List RolloutBatch → ℕ → ℕ → Type 0 where
  one : {c : ℕ} → Sized (batch_of_size c ∷ []) c c
  more :
      {bs : List RolloutBatch} {c s l : ℕ} → Sized bs s l → Sized (batch_of_size c ∷ bs) (c + s) l

resized : {bs : List RolloutBatch} {s s' l : ℕ} → Sized bs s l → s ≡ s' → Sized bs s' l
resized {bs = bs} {l = l} h e = subst (λ s. Sized bs s l) e h

replicate-Sized : (k c : ℕ) → Sized (replicate (suc k) (batch_of_size c)) (suc k * c) c
replicate-Sized zero c = resized one (omega arith)
replicate-Sized (suc k) c = resized (more (replicate-Sized k c)) (omega arith)

prepend-Sized :
    (k c : ℕ) {bs : List RolloutBatch} {s l : ℕ}
    → Sized bs s l
    → Sized (replicate k (batch_of_size c) ++ bs) (k * c + s) l
prepend-Sized zero c h = resized h (omega arith)
prepend-Sized (suc k) c h = resized (more (prepend-Sized k c h)) (omega arith)

spread : (m r q n : ℕ) → n ≡ m + suc r → m * q + suc r * suc q ≡ q * n + suc r
spread m r q n e = rw e (omega arith)

shared-Sized :
    (n r q : ℕ) → r < n → 0 < q * n + r → (l : ℕ) × (0 < l) × Sized (shared n r q) (q * n + r) l
shared-Sized zero zero q less some_pod = absurd (omega arith)
shared-Sized (suc n) zero zero less some_pod = absurd (omega arith)
shared-Sized (suc n) zero (suc q) less some_pod =
    let all : suc n - 0 ≡ suc n = omega arith in
    (suc q, omega arith, rw append-nil (rw all (resized (replicate-Sized n (suc q)) (omega arith))))
shared-Sized n (suc r) q less some_pod = (
  suc q,
  omega arith,
  resized (prepend-Sized (n - suc r) q (replicate-Sized r (suc q)))
      (spread (n - suc r) r q n (omega arith)),
)

Sized-last_int : {bs : List RolloutBatch} {s l : ℕ} → Sized bs s l → last_int bs ≡ some (pos l)
unfolding last_int last_batch
Sized-last_int one = refl
Sized-last_int (more one) = refl
Sized-last_int (more (more h)) = Sized-last_int (more h)

Sized-nonempty : {bs : List RolloutBatch} {s l : ℕ} → Sized bs s l → (length bs == 0) ≡ false
Sized-nonempty one = refl
Sized-nonempty (more h) = ground arith

pos_sum : (a b : ℕ) → pos a +ℤ pos b ≡ pos (a + b)
unfolding ◌+ℤ◌
pos_sum a b = ground arith

module _ (rt : Runtime) (reads : ReadsInts rt) where
  -- All but the last batch, added up.
  Sized-add_but_last :
      (total : ℤ) (a : ℕ) {bs : List RolloutBatch} {s l : ℕ}
      → Sized bs s l
      → (b : ℕ) × (add_but_last rt total (pos a) bs ≡ pos b) × (b + l ≡ a + s)
  unfolding add_but_last batch_size
  Sized-add_but_last total a one = (a, refl, refl)
  Sized-add_but_last total a (more {c = c} one) =
      (a + c, rw (reads (pos c) total) (pos_sum a c), omega arith)
  Sized-add_but_last total a (more {c = c} (more {bs = bs} {c = c'} {l = l} h)) =
      let (b, e, sum) =
        Sized-add_but_last total (a + c) {bs = batch_of_size c' ∷ bs} {l = l} (more h) in
      (b, rw (reads (pos c) total) (rw (pos_sum a c) e), omega (arith, sum))

  verified_of :
      (p : RolloutPlan) (bs : List RolloutBatch) (b l t : ℕ)
      → add_but_last rt (pos t) (pos 0) bs ≡ pos b
      → last_int bs ≡ some (pos l)
      → (length bs == 0) ≡ false
      → 0 < l
      → b + l ≡ t
      → verify_batches_with_rollout rt (record p { rollout_batches = some bs }) (pos t) ≡ none
  unfolding verify_batches_with_rollout batches check_last
  verified_of p bs b l t e some_last nonempty positive sum = ground (arith, pos_sum b l)

  shared-verified :
      (p : RolloutPlan) (n r q t : ℕ)
      → r < n
      → 0 < t
      → t ≡ q * n + r
      → verify_batches_with_rollout rt (record p { rollout_batches = some (shared n r q) }) (pos t)
        ≡ none
  shared-verified p n r q t less some_pod split =
      let (l, some_last, sized) = shared-Sized n r q less (omega arith) in
      let (b, e, sum) = Sized-add_but_last (pos t) 0 sized in
      verified_of p (shared n r q) b l t e (Sized-last_int sized) (Sized-nonempty sized) some_last
        (omega (arith, sum, split))

  -- Where a plan gives a positive target size below the `int32` limit and at least one batch but no
  -- batches, and numbers are read as themselves, the plan that `DefaultRolloutBatches` makes passes
  -- the check `verifyBatchesWithRollout` for that size.
  pub default_rollout_batches-verified :
      (int_value : IntOrString → ℤ) (p : RolloutPlan) (t n fuel : ℕ)
      → IsIntValue int_value
      → Asks p t n
      → 0 < n
      → 0 < t
      → t + 1 ≤ fuel
      → t + 1 < two_31
      → (p' : RolloutPlan) × (default_rollout_batches int_value fuel p ≡ filled p')
        × (verify_batches_with_rollout rt p' (pos t) ≡ none)
  default_rollout_batches-verified int_value p t n fuel is asks some_batch some_pod enough fits =
      let (q, r, split, less, e) =
        default_rollout_batches-shared int_value is p t n fuel asks some_batch enough fits in
      (_, e, shared-verified p n r q t less some_pod split)
