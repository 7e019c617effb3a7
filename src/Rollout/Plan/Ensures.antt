-- ===== src/Rollout/Plan/Ensures.antt =====
-- Postconditions of actions that may panic, and the one for the loops over webhooks.
-- The call does not panic, and what it returns and the status it leaves satisfy `P`.
use rudr_x.Base.{
  Bool, List, String, [], arith, false, get_elem?-some, if◌then◌else◌, length, refl, some, true, ℕ,
  ◌∙◌, ◌∷◌, ◌≡◌,
}
use rudr_x.Base.Int.{int_laws, negsuc, pos, ℤ, ◌<ℤ◌, ◌≤ℤ◌}
use rudr_x.Rollout.Action.{Action, Outcome, WorkloadController, done, panic}
use rudr_x.Rollout.Batches.Bounds.{last_index}
use rudr_x.Rollout.Plan.{call_webhooks, gather_all_webhooks}
use rudr_x.Rollout.Status.{rollout_retry}
use rudr_x.Rollout.Types.{
  HookType, RolloutBatch, RolloutPlan, RolloutStatus, RolloutWebhook, Runtime, batch_at, batches,
}
use rudr_x.Rollout.Webhook.{Http, Parent, call_webhook}

abbrev pub Ensures :
    {A W : Type 0} → Outcome (A × RolloutStatus × W) → (A → RolloutStatus → Type 0) → Type 0
Ensures panic P = ⊥
Ensures (done (a, r, w)) P = P a r

module _ {A B W : Type 0} where
  pub ensures_bind :
      (o : Outcome (A × RolloutStatus × W)) (f : A → Action W B) (P : A → RolloutStatus → Type 0)
      (Q : B → RolloutStatus → Type 0)
      → Ensures o P
      → ((a : A) (r : RolloutStatus) (w : W) → P a r → Ensures (f a r w) Q)
      → Ensures (elim o [ panic ↦ panic | done (a, r', w') ↦ f a r' w' ]) Q
  ensures_bind panic f P Q h next = h
  ensures_bind (done (a, r, w)) f P Q h next = next a r w h

-- The same with the world that the action leaves.
abbrev pub Leads :
    {A W : Type 0} → Outcome (A × RolloutStatus × W) → (A → RolloutStatus → W → Type 0) → Type 0
Leads panic P = ⊥
Leads (done (a, r, w)) P = P a r w

module _ {A B W : Type 0} where
  pub leads_bind :
      (o : Outcome (A × RolloutStatus × W)) (f : A → Action W B)
      (P : A → RolloutStatus → W → Type 0) (Q : B → RolloutStatus → W → Type 0)
      → Leads o P
      → ((a : A) (r : RolloutStatus) (w : W) → P a r w → Leads (f a r w) Q)
      → Leads (elim o [ panic ↦ panic | done (a, r', w') ↦ f a r' w' ]) Q
  leads_bind panic f P Q h next = h
  leads_bind (done (a, r, w)) f P Q h next = next a r w h

pub ensures_map :
    {A W : Type 0} (o : Outcome (A × RolloutStatus × W)) (P Q : A → RolloutStatus → Type 0)
    → ((a : A) (r : RolloutStatus) → P a r → Q a r)
    → Ensures o P
    → Ensures o Q
ensures_map panic P Q weaker h = h
ensures_map (done (a, r, w)) P Q weaker h = weaker a r h

pub ensures_if :
    {A W : Type 0} (b : Bool) (yes_case no_case : Outcome (A × RolloutStatus × W))
    (P : A → RolloutStatus → Type 0)
    → Ensures yes_case P
    → Ensures no_case P
    → Ensures (if b then yes_case else no_case) P
ensures_if true yes_case no_case P h k = h
ensures_if false yes_case no_case P h k = k

-- The states and the batch are those of `r`.
abbrev pub SamePlace : RolloutStatus → RolloutStatus → Type 0
SamePlace r r' =
    (r'.rolling_state ≡ r.rolling_state)
    × (r'.batch_rolling_state ≡ r.batch_rolling_state)
    × (r'.current_batch ≡ r.current_batch)

-- The place of `r` after calls that keep the place of `r'`, which is that of `r`.
pub ensures_same :
    {A W : Type 0} (o : Outcome (A × RolloutStatus × W)) (r r' : RolloutStatus)
    → Ensures o (λ _ r''. SamePlace r' r'')
    → SamePlace r r'
    → Ensures o (λ _ r''. SamePlace r r'')
ensures_same panic r r' h same = h
ensures_same (done (a, r'', w)) r r' h same = (h.0 ∙ same.0, h.1 ∙ same.1, h.2 ∙ same.2)

-- The current batch is one of the plan's.
abbrev pub InRange : RolloutPlan → RolloutStatus → Type 0
InRange spec r = (pos 0 ≤ℤ r.current_batch) × (r.current_batch ≤ℤ last_index spec)

-- An index in range has a batch.
pub batch_at_in_range :
    (bs : List RolloutBatch) (i : ℤ)
    → pos 0 ≤ℤ i
    → i <ℤ pos (length bs)
    → (b : RolloutBatch) × (batch_at bs i ≡ some b)
unfolding batch_at
batch_at_in_range bs (pos i) low high = get_elem?-some bs i (omega arith)
batch_at_in_range bs (negsuc i) low high = absurd (omega arith)

-- What the plan controller relies on: an operation that is called with a batch of the plan returns,
-- and leaves the states and the batch to the plan controller.
abbrev pub Stays : {A W : Type 0} → RolloutPlan → Action W A → Type 0
Stays {W = W} spec m =
    (r : RolloutStatus) (w : W) → InRange spec r → Ensures (m r w) (λ _ r'. SamePlace r r')

pub record Obeys {W : Type 0} (spec : RolloutPlan) (wc : WorkloadController W) : Type 0 where
  pub verify_spec : Stays spec wc.verify_spec
  pub initialize : Stays spec wc.initialize
  pub rollout_one_batch_pods : Stays spec wc.rollout_one_batch_pods
  pub check_one_batch_pods : Stays spec wc.check_one_batch_pods
  pub finalize_one_batch : Stays spec wc.finalize_one_batch
  pub finalize : (succeed : Bool) → Stays spec (wc.finalize succeed)

module _ {W : Type 0} (rt : Runtime) (http : Http W) (parent : Parent) (spec : RolloutPlan)
    (now : ℕ) where
  pub call_webhooks-SamePlace :
      (want : HookType) (phase reason : String) (hs : List RolloutWebhook) (r : RolloutStatus)
      (w : W)
      → Ensures
          (call_webhooks rt http parent spec now want phase reason hs r w)
          (λ _ r'. SamePlace r r')
  unfolding call_webhooks rollout_retry
  call_webhooks-SamePlace want phase reason [] r w = (refl, refl, refl)
  call_webhooks-SamePlace want phase reason (h ∷ hs) r w = ground (
    arith,
    call_webhooks-SamePlace want phase reason hs r w,
    call_webhooks-SamePlace want phase reason hs r (call_webhook http parent phase h w).1,
  )

  pub gather_all_webhooks-SamePlace :
      (r : RolloutStatus) (w : W)
      → InRange spec r
      → Ensures (gather_all_webhooks rt http parent spec now r w) (λ _ r'. SamePlace r r')
  unfolding gather_all_webhooks
  gather_all_webhooks-SamePlace r w h =
      let (b, e) = batch_at_in_range (batches spec) r.current_batch h.0 (omega (int_laws, h.1)) in
      rw e (refl, refl, refl)
