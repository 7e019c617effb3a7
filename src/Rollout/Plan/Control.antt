-- ===== src/Rollout/Plan/Control.antt =====
-- What one round of `Reconcile` may do to a status: to the current batch, past the partition, and on
-- the way to an end.
use rudr_x.Base.{
  Bool-cases, List, Option, arith, false, inl, inr, refl, some, sym, true, ℕ, ◌∙◌, ◌≡◌, ◌⊎◌,
}
use rudr_x.Base.Int.{IsInt32, pos, ℤ, ◌≤ℤ◌}
use rudr_x.Rollout.Action.{WorkloadController, done, ok}
use rudr_x.Rollout.Batches.Bounds.{last_index}
use rudr_x.Rollout.Plan.{
  batch_switch, may_move, reconcile, reconcile_batch_in_rolling, reconcile_with, rolling_switch,
  try_moving_to_next_batch,
}
use rudr_x.Rollout.Plan.Ensures.{Ensures, Obeys, SamePlace, ensures_map}
use rudr_x.Rollout.Plan.Moves.{
  BatchMove, BatchMove-SamePlace, BatchMove-partition, EndsFrom, EndsFrom-SamePlace, advanced, kept,
  ok_not_err, reset,
}
use rudr_x.Rollout.Plan.Round.{reconcile_rule}
use rudr_x.Rollout.Plan.Rule.{Closed}
use rudr_x.Rollout.Plan.Safety.{
  IsSound, SamePlace-IsSound, Sends, Sends-IsSound, approved, available, batch_initialized,
  finalized, finished, finished_all, initialized, is_finalized, is_reconciled, next_batch, rolled,
  rollout_failed-IsSound, rollout_failing-IsSound, verified,
}
use rudr_x.Rollout.Selection.{ControllerKind, Workload, get_workload_controller}
use rudr_x.Rollout.Status.{
  new_positive_condition, reset_status, rollout_failed, rollout_failing, set_positive,
  state_transition,
}
use rudr_x.Rollout.Status.Graph.{is_ended}
use rudr_x.Rollout.Types.{
  Condition, RolloutEvent, RolloutPlan, RolloutStatus, Runtime, all_batch_finished_event,
  batch_ready_state, rolling_in_batches_state, rollout_abandoning_state,
}
use rudr_x.Rollout.Webhook.{Http, Parent}

module _ {W : Type 0} (rt : Runtime) (http : Http W) (parent : Parent) (spec : RolloutPlan)
    (now : ℕ) where
  sent-IsSound :
      (r r' : RolloutStatus) (e : RolloutEvent)
      → IsInt32 (last_index spec)
      → IsSound spec r
      → SamePlace r r'
      → Sends rt http parent spec now r' e
      → IsSound spec (state_transition rt now e r')
  sent-IsSound r r' e fits h same s =
      Sends-IsSound rt http parent spec now r' fits (SamePlace-IsSound spec r r' same h) s

  keeps_soundness :
      (r : RolloutStatus)
      → IsInt32 (last_index spec)
      → IsSound spec r
      → Closed rt http parent spec now r (IsSound spec)
  keeps_soundness r fits h = record {
    same = λ r' same. SamePlace-IsSound spec r r' same h;
    failed = λ m r' same p.
        rollout_failed-IsSound rt http parent spec now m r' (SamePlace-IsSound spec r r' same h);
    failing = λ m r' same p.
        rollout_failing-IsSound rt http parent spec now m r' (SamePlace-IsSound spec r r' same h);
    sent = λ r' e same s. sent-IsSound r r' e fits h same s;
  }

  -- Of the states that a finalized workload ends, abandoning alone resets the batch.
  finalized-kept :
      (r : RolloutStatus)
      → is_finalized r.rolling_state ≡ true
      → (r.rolling_state ≡ rollout_abandoning_state)
        ⊎ ((state_transition rt now all_batch_finished_event r).current_batch ≡ r.current_batch)
  unfolding state_transition set_positive
  finalized-kept r p = ground arith

  sent-BatchMove :
      (r : RolloutStatus) {e : RolloutEvent}
      → IsInt32 (last_index spec)
      → IsSound spec r
      → Sends rt http parent spec now r e
      → BatchMove spec r (state_transition rt now e r)
  unfolding state_transition set_positive rollout_failed reset_status
  sent-BatchMove r fits h (verified p) = kept (ground arith)
  sent-BatchMove r fits h (initialized p) = kept (ground arith)
  sent-BatchMove r fits h (batch_initialized p q) = kept (ground arith)
  sent-BatchMove r fits h (rolled p q) = kept (ground arith)
  sent-BatchMove r fits h (available p q) = kept (ground arith)
  sent-BatchMove r fits h (finished p q k) = kept (ground arith)
  sent-BatchMove r fits h (finished_all p q) = kept (ground arith)
  sent-BatchMove r fits h (approved p q m) =
      advanced p q m (ground arith)
        (ground (arith, next_batch r.current_batch (last_index spec) fits h.low (h.more p q)))
  sent-BatchMove r fits h (finalized p) = elim (finalized-kept r p) [
    | inl a ↦ reset a (ground arith) (ground arith)
    | inr k ↦ kept k
  ]

  moves_closed :
      (r : RolloutStatus)
      → IsInt32 (last_index spec)
      → IsSound spec r
      → Closed rt http parent spec now r (BatchMove spec r)
  unfolding rollout_failed rollout_failing
  moves_closed r fits h = record {
    same = λ r' same. kept same.2;
    failed = λ m r' same p. kept same.2;
    failing = λ m r' same p. kept same.2;
    sent = λ r' e same s.
        BatchMove-SamePlace spec r r' _ same
          (sent-BatchMove r' fits (SamePlace-IsSound spec r r' same h) s);
  }

  sent-EndsFrom :
      (r : RolloutStatus) {e : RolloutEvent}
      → IsSound spec r
      → Sends rt http parent spec now r e
      → EndsFrom r (state_transition rt now e r)
  unfolding state_transition set_positive rollout_failed reset_status
  sent-EndsFrom r h (verified p) = ground arith
  sent-EndsFrom r h (initialized p) = ground arith
  sent-EndsFrom r h (batch_initialized p q) = ground arith
  sent-EndsFrom r h (rolled p q) = ground arith
  sent-EndsFrom r h (available p q) = ground arith
  sent-EndsFrom r h (finished p q k) = ground arith
  sent-EndsFrom r h (finished_all p q) = ground arith
  sent-EndsFrom r h (approved p q m) = ground arith
  sent-EndsFrom r h (finalized p) = ground arith

  ends_closed : (r : RolloutStatus) → IsSound spec r → Closed rt http parent spec now r (EndsFrom r)
  unfolding rollout_failed rollout_failing
  ends_closed r h = record {
    same = λ r' same. ground arith;
    failed = λ m r' same p. ground arith;
    failing = λ m r' same p. ground arith;
    sent = λ r' e same s.
        EndsFrom-SamePlace r r' (state_transition rt now e r') same
          (sent-EndsFrom r' (SamePlace-IsSound spec r r' same h) s);
  }

  module _ (controllers : ControllerKind → WorkloadController W) (target : Workload)
      (source : Option Workload) (r : RolloutStatus) (w : W) where
    -- On a sound status in a state that `Reconcile` has a case for, with a plan whose batches have
    -- `int32` indices and workloads that obey the contract of the interface, one round of
    -- `Reconcile` does not panic, whatever the webhooks answer, and the status it leaves is sound.
    pub reconcile-IsSound :
        ((kind : ControllerKind) → Obeys spec (controllers kind))
        → IsInt32 (last_index spec)
        → IsSound spec r
        → is_reconciled r.rolling_state ≡ true
        → Ensures
            (reconcile rt http parent spec now controllers target source r w)
            (λ _ r'. IsSound spec r')
    reconcile-IsSound obeys fits h c =
        reconcile_rule rt http parent spec now r (IsSound spec) (keeps_soundness r fits h) h
          controllers target source w obeys
          (λ m e. rollout_failed-IsSound rt http parent spec now m r h) c

    -- From a sound status in a state that `Reconcile` has a case for, with a plan whose batches
    -- have `int32` indices and workloads that obey the contract of the interface, one round returns
    -- and keeps the current batch, except that it goes to the next one when a batch is ready and
    -- the partition allows it, and back to 0 when an abandoned rollout is finalized.
    pub reconcile-BatchMove :
        ((kind : ControllerKind) → Obeys spec (controllers kind))
        → IsInt32 (last_index spec)
        → IsSound spec r
        → is_reconciled r.rolling_state ≡ true
        → Ensures
            (reconcile rt http parent spec now controllers target source r w)
            (λ _ r'. BatchMove spec r r')
    unfolding rollout_failed
    reconcile-BatchMove obeys fits h c =
        reconcile_rule rt http parent spec now r (BatchMove spec r) (moves_closed r fits h) h
          controllers target source w obeys (λ m e. kept refl) c

    -- From a sound status in a state that `Reconcile` has a case for, with workloads that obey the
    -- contract of the interface, a round for a supported workload returns, and fails the rollout
    -- only at the verification or from a state whose workload is finalized first or that has failed
    -- already, and lets it succeed only from the finalising state or one that has succeeded.
    pub reconcile-EndsFrom :
        {kind : ControllerKind}
        → get_workload_controller target source ≡ ok kind
        → ((kind : ControllerKind) → Obeys spec (controllers kind))
        → IsSound spec r
        → is_reconciled r.rolling_state ≡ true
        → Ensures
            (reconcile rt http parent spec now controllers target source r w)
            (λ _ r'. EndsFrom r r')
    reconcile-EndsFrom supported obeys h c =
        reconcile_rule rt http parent spec now r (EndsFrom r) (ends_closed r h) h controllers target
          source w obeys (λ m e. absurd (ok_not_err (sym supported ∙ e))) c

    -- A batch past the partition is not begun: from a sound status in a state that `Reconcile` has
    -- a case for, whose current batch is at most a partition that is not negative, with a plan
    -- whose batches have `int32` indices and workloads that obey the contract of the interface, one
    -- round returns and leaves the current batch at most the partition.
    pub reconcile-partition :
        (p : ℤ)
        → spec.batch_partition ≡ some p
        → pos 0 ≤ℤ p
        → r.current_batch ≤ℤ p
        → ((kind : ControllerKind) → Obeys spec (controllers kind))
        → IsInt32 (last_index spec)
        → IsSound spec r
        → is_reconciled r.rolling_state ≡ true
        → Ensures
            (reconcile rt http parent spec now controllers target source r w)
            (λ _ r'. r'.current_batch ≤ℤ p)
    reconcile-partition p part low below obeys fits h c =
        ensures_map _ _ _ (λ _ r' m. BatchMove-partition spec r r' p part low below m)
          (reconcile-BatchMove obeys fits h c)

    -- While batches roll, for a supported workload, a paused plan, and a ready batch that the
    -- partition holds back, wait: the round calls no webhook and no workload, leaves all but the
    -- conditions as it was, and runs again in 5 seconds.
    pub reconcile-held :
        {kind : ControllerKind}
        → get_workload_controller target source ≡ ok kind
        → r.rolling_state ≡ rolling_in_batches_state
        → (spec.paused ≡ true)
          ⊎ ((r.batch_rolling_state ≡ batch_ready_state)
              × (may_move spec.batch_partition r.current_batch ≡ false))
        → (cs : List Condition) × (reconcile rt http parent spec now controllers target source r w
            ≡ done (5, record r { conditions = cs }, w))
    unfolding reconcile reconcile_with rolling_switch reconcile_batch_in_rolling batch_switch
        try_moving_to_next_batch
    reconcile-held supported p (inl paused) =
        (rt.set_conditions r.conditions (new_positive_condition now "BatchPaused"), ground arith)
    reconcile-held supported p (inr (ready, held)) = elim (Bool-cases spec.paused) [
      | inl paused ↦
          (rt.set_conditions r.conditions (new_positive_condition now "BatchPaused"), ground arith)
      | inr running ↦ (r.conditions, ground arith)
    ]

    -- A rollout of a supported workload that has failed or succeeded is left as it is and is not
    -- run again.
    pub reconcile-ended :
        {kind : ControllerKind}
        → get_workload_controller target source ≡ ok kind
        → is_ended r.rolling_state ≡ true
        → reconcile rt http parent spec now controllers target source r w ≡ done (0, r, w)
    unfolding reconcile reconcile_with rolling_switch
    reconcile-ended supported e = ground arith
