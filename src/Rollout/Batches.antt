-- ===== src/Rollout/Batches.antt =====
-- The arithmetic of batches in pkg/controller/common/rollout/workloads/common.go. Go's `int` sums of
-- `int32` sizes cannot leave 64 bits, so they are plain integers. An error is the text of its
-- message, and `none` is Go's nil.
pub mod Sums
pub mod Bounds
pub mod Steps
use rudr_x.Base.{
  List, Option, String, [], if◌then◌else◌, length, none, some, suc, zero, ℕ, ◌==◌, ◌∷◌,
}
use rudr_x.Base.Int.{leb_ℤ, ltb_ℤ, negsuc, pos, ℤ, ◌+ℤ◌, ◌-ℤ◌, ◌==ℤ◌}
use rudr_x.Base.Text.{decimal, ◌+++◌}
use rudr_x.Rollout.Types.{RolloutBatch, RolloutPlan, Runtime, batches, int_val, str_val}

unfoldable pub mismatch : String → ℤ → String → ℤ → String
mismatch what total name size =
    "the rollout plan "
    +++ what
    +++ ", total batch size = "
    +++ decimal total
    +++ ", "
    +++ name
    +++ " size = "
    +++ decimal size

-- `RolloutBatches[len-1]`.
unfoldable pub last_batch : List RolloutBatch → Option RolloutBatch
last_batch [] = none
last_batch (b ∷ []) = some b
last_batch (b ∷ c ∷ bs) = last_batch (c ∷ bs)

-- The size of the last batch, if it is a number.
unfoldable pub last_int : List RolloutBatch → Option ℤ
unfolding last_batch
last_int bs = elim (last_batch bs) [
  | none ↦ none
  | some b ↦ elim b.replicas [ int_val n ↦ some n | str_val s ↦ none ]
]

-- The check that the sizes add up, once the last batch is in.
unfoldable pub check_last : ℤ → String → ℤ → Option String
check_last total name size =
    if total ==ℤ size then none else some (mismatch "batch size mismatch" total name size)

-- The checks between the loop and the last batch.
check_scaled : ℤ → ℤ → ℤ → Option String
unfolding mismatch
check_scaled original target total =
    if ltb_ℤ original target
    then (if leb_ℤ target total
        then some (mismatch "increased too much" total "targetSize" target)
        else none)
    else if ltb_ℤ target original
    then (if leb_ℤ total target
        then some (mismatch "reduced too much" total "targetSize" target)
        else none)
    else if total ==ℤ target
    then none
    else some (mismatch "changed on no-op scale" total "targetSize" target)

-- The rounds of the loop `for i := 0; i <= currentBatch && …`.
unfoldable pub rounds : ℤ → ℕ
rounds (pos n) = suc n
rounds (negsuc n) = 0

module _ (rt : Runtime) where
  -- `batchSize, _ := GetValueFromIntOrPercent(&rb.Replicas, total, true)`: the error is dropped.
  unfoldable pub batch_size : ℤ → RolloutBatch → ℤ
  batch_size total b = (rt.get_value b.replicas total).0

  -- A sum over all the batches but the last.
  unfoldable pub add_but_last : ℤ → ℤ → List RolloutBatch → ℤ
  add_but_last total acc [] = acc
  add_but_last total acc (b ∷ []) = acc
  add_but_last total acc (b ∷ c ∷ bs) = add_but_last total (acc +ℤ batch_size total b) (c ∷ bs)

  unfoldable pub subtract_but_last : ℤ → ℤ → List RolloutBatch → ℤ
  subtract_but_last total acc [] = acc
  subtract_but_last total acc (b ∷ []) = acc
  subtract_but_last total acc (b ∷ c ∷ bs) =
      subtract_but_last total (acc -ℤ batch_size total b) (c ∷ bs)

  -- `verifyBatchesWithRollout`.
  unfoldable pub verify_batches_with_rollout : RolloutPlan → ℤ → Option String
  unfolding add_but_last last_int check_last mismatch
  verify_batches_with_rollout spec total_replicas =
      let total_rollout = add_but_last total_replicas (pos 0) (batches spec) in
      if length (batches spec) == 0
      then some "the rolloutPlan must have batches"
      else if leb_ℤ total_replicas total_rollout
      then some (mismatch "batch size mismatch" total_rollout "totalReplicas" total_replicas)
      else elim (last_int (batches spec)) [
        | none ↦ none
        | some n ↦ check_last (total_rollout +ℤ n) "totalReplicas" total_replicas
      ]

  -- `totalRollout` after the loop of `verifyBatchesWithScale`.
  unfoldable pub scaled_but_last : ℤ → ℤ → List RolloutBatch → ℤ
  unfolding add_but_last subtract_but_last
  scaled_but_last original target bs =
      if ltb_ℤ original target
      then add_but_last (target -ℤ original) original bs
      else subtract_but_last (original -ℤ target) original bs

  -- `verifyBatchesWithScale`.
  unfoldable pub verify_batches_with_scale : RolloutPlan → ℤ → ℤ → Option String
  unfolding scaled_but_last check_scaled last_int check_last
  verify_batches_with_scale spec original target =
      let total = scaled_but_last original target (batches spec) in
      if length (batches spec) == 0
      then some "the rolloutPlan must have batches"
      else elim (check_scaled original target total) [
        | some e ↦ some e
        | none ↦ elim (last_int (batches spec)) [
          | none ↦ none
          | some n ↦
              check_last (if ltb_ℤ original target then total +ℤ n else total -ℤ n) "targetSize"
                target
        ]
      ]

  unfoldable pub grow : ℤ → ℤ → ℕ → List RolloutBatch → ℤ
  grow total acc zero bs = acc
  grow total acc (suc k) [] = acc
  grow total acc (suc k) (b ∷ bs) = grow total (acc +ℤ batch_size total b) k bs

  unfoldable pub shrink : ℤ → ℤ → ℕ → List RolloutBatch → ℤ
  shrink total acc zero bs = acc
  shrink total acc (suc k) [] = acc
  shrink total acc (suc k) (b ∷ bs) = shrink total (acc -ℤ batch_size total b) k bs

  -- `calculateNewBatchTarget`.
  unfoldable pub calculate_new_batch_target : RolloutPlan → ℤ → ℤ → ℤ → ℤ
  unfolding rounds grow shrink
  calculate_new_batch_target spec original target current =
      if current ==ℤ (pos (length (batches spec)) -ℤ pos 1)
      then target
      else if ltb_ℤ original target
      then grow (target -ℤ original) original (rounds current) (batches spec)
      else shrink (original -ℤ target) original (rounds current) (batches spec)

-- `getDeployReplicaSize`: the replicas, 1 where they are not set.
unfoldable pub get_deploy_replica_size : Option ℤ → ℤ
get_deploy_replica_size (some n) = n
get_deploy_replica_size none = pos 1
