-- ===== src/Rollout/Plan/Rule.antt =====
-- A rule for one round of `Reconcile`: what holds of each status that the round can leave holds after
-- it, and the round does not panic.
use rudr_x.Base.{
  Bool, Bool-cases, List, String, arith, false, inl, inr, refl, true, ℕ, ◌∙◌, ◌≡◌, ◌⊎◌,
}
use rudr_x.Base.Int.{◌==ℤ◌, ◌≤ℤ◌}
use rudr_x.Rollout.Action.{Action, Result, err, ok, status, when, ◌>>=◌}
use rudr_x.Rollout.Batches.Bounds.{last_index}
use rudr_x.Rollout.Plan.{call_webhooks, gather_all_webhooks, next_event, on_answer, transition}
use rudr_x.Rollout.Plan.Ensures.{
  Ensures, InRange, SamePlace, Stays, call_webhooks-SamePlace, ensures_bind, ensures_same,
  gather_all_webhooks-SamePlace,
}
use rudr_x.Rollout.Plan.Safety.{IsSound, Sends, finished, finished_all}
use rudr_x.Rollout.Status.{rollout_failed, rollout_failing, state_transition}
use rudr_x.Rollout.Types.{
  HookType, RolloutEvent, RolloutPlan, RolloutStatus, RolloutWebhook, Runtime,
  batch_finalizing_state, initializing_state, rolling_in_batches_state, verifying_spec_state,
}
use rudr_x.Rollout.Webhook.{Http, Parent}

module _ {W : Type 0} (rt : Runtime) (http : Http W) (parent : Parent) (spec : RolloutPlan)
    (now : ℕ) (r : RolloutStatus) where
  -- The statuses that a round from `r` can leave satisfy `P`: the place kept, a failure at the
  -- verification or for an unsupported workload, a failure that is still to be finalized, and an event.
  pub record Closed (P : RolloutStatus → Type 0) : Type 0 where
    pub same : (r' : RolloutStatus) → SamePlace r r' → P r'
    pub failed :
        (m : String) (r' : RolloutStatus)
        → SamePlace r r'
        → r.rolling_state ≡ verifying_spec_state
        → P (rollout_failed rt now m r')
    pub failing :
        (m : String) (r' : RolloutStatus)
        → SamePlace r r'
        → (r.rolling_state ≡ initializing_state) ⊎ (r.rolling_state ≡ rolling_in_batches_state)
        → P (rollout_failing rt now m r')
    pub sent :
        (r' : RolloutStatus) (e : RolloutEvent)
        → SamePlace r r'
        → Sends rt http parent spec now r' e
        → P (state_transition rt now e r')

  module _ (P : RolloutStatus → Type 0) (closed : Closed P) (sound : IsSound spec r) where
    abbrev pub Post : Unit {0} → RolloutStatus → Type 0
    Post _ r' = P r'

    pub range : InRange spec r
    range = (sound.low, sound.high)

    pub sends :
        (r' : RolloutStatus) (w : W) (b : Bool) (e : RolloutEvent)
        → SamePlace r r'
        → (b ≡ true → Sends rt http parent spec now r' e)
        → Ensures (when b (transition rt http parent spec now e) r' w) Post
    unfolding transition
    sends r' w true e same s = closed.sent r' e same (s refl)
    sends r' w false e same s = closed.same r' same

    pub hooks_called :
        (want : HookType) (phase reason : String) (hs : List RolloutWebhook) (r' : RolloutStatus)
        (w : W) (next : RolloutStatus → RolloutEvent)
        → SamePlace r r'
        → ((r2 : RolloutStatus) → SamePlace r r2 → Sends rt http parent spec now r2 (next r2))
        → Ensures
            ((call_webhooks rt http parent spec now want phase reason hs >>= λ called.
                status >>= λ r2. when called (transition rt http parent spec now (next r2)))
              r' w)
            Post
    hooks_called want phase reason hs r' w next same s =
        ensures_bind (call_webhooks rt http parent spec now want phase reason hs r' w) _
          (λ _ r2. SamePlace r r2) _
          (ensures_same _ r r'
            (call_webhooks-SamePlace rt http parent spec now want phase reason hs r' w) same)
          (λ called r2 w2 same2. sends r2 w2 called (next r2) same2 (λ e. s r2 same2))

    -- An operation of the workload, its failure, and what follows a true answer.
    pub answered :
        (op : Action W (Result Bool)) (next : Action W (Unit {0})) (r0 : RolloutStatus) (w : W)
        (fails : String → RolloutStatus → RolloutStatus)
        → Stays spec op
        → SamePlace r r0
        → ((m : String) (r' : RolloutStatus) → SamePlace r r' → P (fails m r'))
        → ((r' : RolloutStatus) (w' : W) → SamePlace r r' → Ensures (next r' w') Post)
        → Ensures ((op >>= on_answer fails next) r0 w) Post
    unfolding on_answer
    answered op next r0 w fails stays same keep k =
        ensures_bind (op r0 w) _ (λ _ r'. SamePlace r r') _
          (ensures_same _ r r0 (stays r0 w (rw same.2 range)) same) go
      where
        go :
            (a : Result Bool) (r' : RolloutStatus) (w' : W)
            → SamePlace r r'
            → Ensures (on_answer fails next a r' w') Post
        go (err m) r' w' same = keep m r' same
        go (ok true) r' w' same = k r' w' same
        go (ok false) r' w' same = closed.same r' same

    pub gathered :
        (r0 : RolloutStatus) (w : W) (next : List RolloutWebhook → Action W (Unit {0}))
        → SamePlace r r0
        → ((hs : List RolloutWebhook) (r' : RolloutStatus) (w' : W)
            → SamePlace r r'
            → Ensures (next hs r' w') Post)
        → Ensures ((gather_all_webhooks rt http parent spec now >>= next) r0 w) Post
    gathered r0 w next same k =
        ensures_bind (gather_all_webhooks rt http parent spec now r0 w) _ (λ _ r'. SamePlace r r') _
          (ensures_same _ r r0
            (gather_all_webhooks-SamePlace rt http parent spec now r0 w (rw same.2 range)) same)
          k

    pub finishing :
        (r' : RolloutStatus)
        → r.rolling_state ≡ rolling_in_batches_state
        → r.batch_rolling_state ≡ batch_finalizing_state
        → SamePlace r r'
        → Sends rt http parent spec now r' (next_event spec r'.current_batch)
    unfolding next_event
    finishing r' p q same =
        let high : r'.current_batch ≤ℤ last_index spec = rw same.2 sound.high in
        elim (Bool-cases (r'.current_batch ==ℤ last_index spec)) [
          | inl last ↦ simp last (finished_all (same.0 ∙ p) (same.1 ∙ q))
          | inr more ↦ simp more (finished (same.0 ∙ p) (same.1 ∙ q) (ground (arith, high)))
        ]
