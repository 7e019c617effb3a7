-- ===== src/Rollout/Plan/Success.antt =====
-- The rounds of a rollout that goes well, counted.
use rudr_x.Base.{List, Option, [], arith, length, refl, suc, sym, ℕ, ◌*◌, ◌+◌, ◌∷◌, ◌≡◌, ◌≢◌}
use rudr_x.Base.Int.{IsInt32}
use rudr_x.Rollout.Action.{Result, WorkloadController, done, err, ok}
use rudr_x.Rollout.Batches.Bounds.{last_index}
use rudr_x.Rollout.Plan.{reconcile, reconcile_rounds, reconcile_with, requeue_after}
use rudr_x.Rollout.Plan.Ensures.{Leads, leads_bind}
use rudr_x.Rollout.Plan.Liveness.{forward_cases}
use rudr_x.Rollout.Plan.Progress.{Nearer, OnWay, last_pos, rounds_left}
use rudr_x.Rollout.Plan.Promises.{Accepts, HooksAccept, IsAutomatic}
use rudr_x.Rollout.Selection.{ControllerKind, Workload, chosen, get_workload_controller}
use rudr_x.Rollout.Types.{
  RolloutPlan, RolloutStatus, Runtime, batches, rollout_succeed_state, verifying_spec_state,
}
use rudr_x.Rollout.Webhook.{Http, Parent}

module _ {W : Type 0} (rt : Runtime) (http : Http W) (parent : Parent) (spec : RolloutPlan)
    (controllers : ℕ → ControllerKind → WorkloadController W) (target : Workload)
    (source : Option Workload) (kind : ControllerKind)
    (supported : get_workload_controller target source ≡ ok kind)
    (accepting : HooksAccept http parent spec) (fits : IsInt32 (last_index spec))
    (automatic : IsAutomatic spec) (Good : RolloutStatus → W → Type 0)
    (accepts : (now : ℕ) → Accepts rt http parent spec Good now (controllers now kind)) where
  round_with :
      (now : ℕ) (k : Result ControllerKind) (r : RolloutStatus) (w : W)
      → k ≡ ok kind
      → OnWay spec r
      → Good r w
      → r.rolling_state ≢ rollout_succeed_state
      → Leads
          (reconcile_with rt http parent spec now (chosen (controllers now) k) r w)
          (λ _ r' w'. Nearer spec r r' × Good r' w')
  unfolding reconcile_with
  round_with now (err m) r w e h good more = cc
  round_with now (ok k) r w e h good more =
      let same : k ≡ kind = cc e in
      rw same (
        forward_cases rt http parent spec now accepting fits automatic Good (controllers now kind)
          (accepts now) r h r.rolling_state w good refl h.forward more)

  round :
      (now : ℕ) (r : RolloutStatus) (w : W)
      → OnWay spec r
      → Good r w
      → r.rolling_state ≢ rollout_succeed_state
      → Leads
          (reconcile rt http parent spec now (controllers now) target source r w)
          (λ _ r' w'. Nearer spec r r' × Good r' w')
  unfolding reconcile
  round now r w h good more =
      leads_bind
        (reconcile_with rt http parent spec now
          (chosen (controllers now) (get_workload_controller target source)) r w)
        (λ _ r' w'. done (requeue_after r'.rolling_state, r', w')) _ _
        (round_with now (get_workload_controller target source) r w supported h good more)
        (λ _ r' w' near. near)

  -- Where no round is left, the rollout has succeeded.
  none_left :
      (r : RolloutStatus)
      → OnWay spec r
      → rounds_left spec r ≡ 0
      → r.rolling_state ≡ rollout_succeed_state
  unfolding rounds_left
  none_left r h e = ground (
    arith,
    h.sound.in_step,
    last_pos rt http parent spec 0 r.current_batch h.sound.low h.sound.high,
  )

  some_left :
      (r : RolloutStatus) (k : ℕ)
      → rounds_left spec r ≡ suc k
      → r.rolling_state ≢ rollout_succeed_state
  unfolding rounds_left
  some_left r k e = ground arith

  -- A rollout that goes well ends in success. The plan is not paused, its batches have `int32` indices,
  -- its partition holds no batch back, its webhooks are all accepted, and the workload is supported;
  -- and some invariant `Good` of the status and the world says how the rollout goes. In each round,
  -- with a controller of this workload made for it: where the plan controller calls an operation with
  -- what is `Good`, the operation answers true, keeps the states and the batch, and leaves what is
  -- `Good` after the event that is sent then; the moves into a batch and to the next one keep `Good`,
  -- and so do webhooks. Then, at any readings of the clock, as many rounds as are left lead from any
  -- status on the way, with the world `Good`, to one that has succeeded, with the current batch the
  -- last one and the world `Good`; no round panics.
  pub reconcile_rounds-succeed :
      (nows : List ℕ) (r : RolloutStatus) (w : W)
      → OnWay spec r
      → Good r w
      → length nows ≡ rounds_left spec r
      → Leads (reconcile_rounds rt http parent spec controllers target source nows r w) (λ _ r' w'.
        (r'.rolling_state ≡ rollout_succeed_state)
        × (r'.current_batch ≡ last_index spec)
        × Good r' w')
  unfolding reconcile_rounds
  reconcile_rounds-succeed [] r w h good e =
      let succeeded = none_left r h (sym e) in (succeeded, h.last_succeed succeeded, good)
  reconcile_rounds-succeed (now ∷ nows) r w h good e =
      leads_bind (reconcile rt http parent spec now (controllers now) target source r w) _ _ _
        (round now r w h good (some_left r (length nows) (sym e)))
        (λ _ r' w' near.
          reconcile_rounds-succeed nows r' w' near.0.0 near.1 (omega (arith, near.0.1)))

-- A rollout of `n` batches that begins at the verification has 5 n + 2 rounds left.
pub rounds_left-verifying :
    (spec : RolloutPlan) (r : RolloutStatus)
    → r.rolling_state ≡ verifying_spec_state
    → rounds_left spec r ≡ 5 * length (batches spec) + 2
unfolding rounds_left
rounds_left-verifying spec r e = rw e refl
