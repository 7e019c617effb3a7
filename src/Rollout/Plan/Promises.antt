-- ===== src/Rollout/Plan/Promises.antt =====
-- What the workload and the webhooks are to do in a rollout that goes well.
use mathlib.Core.Path.{subst}
use mathlib.Core.Option.{some-injective}
use rudr_x.Base.{
  All, Bool, List, Option, String, [], false, get_elem?, if◌then◌else◌, none, refl, some, suc, true,
  zero, ℕ, ◌++◌, ◌∷◌, ◌≡◌,
}
use rudr_x.Base.Int.{negsuc, pos, ℤ, ◌<ℤ◌}
use rudr_x.Rollout.Action.{
  Action, Outcome, WorkloadController, external, modify, ok, pure, ◌>>=◌, ◌>>◌,
}
use rudr_x.Rollout.Batches.Bounds.{last_index}
use rudr_x.Rollout.Plan.{call_webhooks, may_move, next_event, same_hook}
use rudr_x.Rollout.Plan.Ensures.{Leads, SamePlace}
use rudr_x.Rollout.Plan.Progress.{OnWay}
use rudr_x.Rollout.Status.{rollout_retry, state_transition}
use rudr_x.Rollout.Types.{
  BatchRollingState, HookType, RollingState, RolloutBatch, RolloutEvent, RolloutPlan, RolloutStatus,
  RolloutWebhook, Runtime, all_batch_finished_event, batch_at, batch_finalizing_state,
  batch_in_rolling_state, batch_initializing_state, batch_ready_state, batch_rollout_approved_event,
  batch_verifying_state, batches, finalising_state, initialized_one_batch_event, initializing_state,
  one_batch_available_event, rolling_in_batches_state, rolling_initialized_event,
  rolling_spec_verified_event, rollout_one_batch_event, verifying_spec_state,
}
use rudr_x.Rollout.Webhook.{Http, Parent, call_webhook}

-- What a rollout that goes well relies on, in a round at `now`. `Good` describes the statuses and
-- worlds that it passes through. Where the plan controller calls an operation, the operation answers
-- true, leaves the states and the batch as they were, and leaves what is `Good` once the plan
-- controller has sent its event; what the plan controller does on its own keeps `Good`, and so do the
-- webhooks.
module _ {W : Type 0} (rt : Runtime) (http : Http W) (parent : Parent) (spec : RolloutPlan)
    (Good : RolloutStatus → W → Type 0) (now : ℕ) where
  abbrev pub Answers :
      {A : Type 0} → A → RolloutStatus → RolloutEvent → Outcome (A × RolloutStatus × W) → Type 0
  Answers a r e o =
      Leads o (λ a' r' w'. (a' ≡ a) × SamePlace r r' × Good (state_transition rt now e r') w')

  -- A status on the way, and the world as it is to be then, in a given state.
  abbrev pub Met : RollingState → RolloutStatus → W → Type 0
  Met s r w = OnWay spec r × Good r w × (r.rolling_state ≡ s)

  abbrev pub MetBatch : BatchRollingState → RolloutStatus → W → Type 0
  MetBatch b r w = Met rolling_in_batches_state r w × (r.batch_rolling_state ≡ b)

  pub record Accepts (wc : WorkloadController W) : Type 0 where
    pub verifying :
        (r : RolloutStatus) (w : W)
        → Met verifying_spec_state r w
        → Answers (ok true) r rolling_spec_verified_event (wc.verify_spec r w)
    pub initializing :
        (r : RolloutStatus) (w : W)
        → Met initializing_state r w
        → Answers (ok true) r rolling_initialized_event (wc.initialize r w)
    pub batch_initializing :
        (r : RolloutStatus) (w : W)
        → MetBatch batch_initializing_state r w
        → Good (state_transition rt now initialized_one_batch_event r) w
    pub batch_rolling :
        (r : RolloutStatus) (w : W)
        → MetBatch batch_in_rolling_state r w
        → Answers (ok true) r rollout_one_batch_event (wc.rollout_one_batch_pods r w)
    pub batch_verifying :
        (r : RolloutStatus) (w : W)
        → MetBatch batch_verifying_state r w
        → Answers (ok true) r one_batch_available_event (wc.check_one_batch_pods r w)
    pub batch_finalizing :
        (r : RolloutStatus) (w : W)
        → MetBatch batch_finalizing_state r w
        → Answers (ok true) r (next_event spec r.current_batch) (wc.finalize_one_batch r w)
    pub batch_ready :
        (r : RolloutStatus) (w : W)
        → MetBatch batch_ready_state r w
        → Good (state_transition rt now batch_rollout_approved_event r) w
    pub finalising :
        (r : RolloutStatus) (w : W)
        → Met finalising_state r w
        → Answers true r all_batch_finished_event (wc.finalize true r w)
    pub hooked :
        (phase : String) (h : RolloutWebhook) (r : RolloutStatus) (w : W)
        → Good r w
        → Good r (call_webhook http parent phase h w).1

-- The plan is not paused, and its partition, if it has one, lets all the batches go.
pub record IsAutomatic (spec : RolloutPlan) : Type 0 where
  pub running : spec.paused ≡ false
  pub unparted : (i : ℤ) → i <ℤ last_index spec → may_move spec.batch_partition i ≡ true

-- The webhook accepts, whatever the phase and the world.
abbrev pub IsAccepting : {W : Type 0} → Http W → Parent → RolloutWebhook → Type 0
IsAccepting {W = W} http parent h =
    (phase : String) (w : W) → (call_webhook http parent phase h w).0 ≡ none

-- All the webhooks of the plan and of its batches accept.
pub record HooksAccept {W : Type 0} (http : Http W) (parent : Parent) (spec : RolloutPlan)
    : Type 0 where
  pub of_plan : All (IsAccepting http parent) spec.rollout_webhooks
  pub of_batches : All (λ b. All (IsAccepting http parent) b.batch_rollout_webhooks) (batches spec)

pub All-append {ℓ κ} :
    {A : Type ℓ} (P : A → Type κ) (xs ys : List A) → All P xs → All P ys → All P (xs ++ ys)
All-append P [] ys h k = k
All-append P (x ∷ xs) ys h k = (h.0, All-append P xs ys h.1 k)

All-get {ℓ κ} :
    {A : Type ℓ} (P : A → Type κ) (xs : List A) (i : ℕ) {a : A}
    → All P xs
    → get_elem? xs i ≡ some a
    → P a
All-get P [] i h e = cc
All-get P (x ∷ xs) zero h e = subst P (some-injective _ _ e) h.0
All-get P (x ∷ xs) (suc i) h e = All-get P xs i h.1 e

pub All-at :
    (P : RolloutBatch → Type 0) (bs : List RolloutBatch) (i : ℤ) {b : RolloutBatch}
    → All P bs
    → batch_at bs i ≡ some b
    → P b
unfolding batch_at
All-at P bs (pos i) h e = All-get P bs i h e
All-at P bs (negsuc i) h e = cc

module _ {W : Type 0} where
  abbrev on_hook : Action W Bool → (String → Action W Bool) → Option String → Action W Bool
  on_hook rest refused answer = elim answer [ none ↦ rest | some m ↦ refused m ]

  answer_case :
      (answer : Option String) (rest : Action W Bool) (refused : String → Action W Bool)
      (r : RolloutStatus) (w : W) (Q : Bool → RolloutStatus → W → Type 0)
      → answer ≡ none
      → Leads (rest r w) Q
      → Leads (on_hook rest refused answer r w) Q
  answer_case none rest refused r w Q e h = h
  answer_case (some m) rest refused r w Q e h = cc

  hook_case :
      (same : Bool) (call : W → Option String × W) (rest : Action W Bool)
      (refused : String → Action W Bool) (r : RolloutStatus) (w : W)
      (Q : Bool → RolloutStatus → W → Type 0)
      → (call w).0 ≡ none
      → Leads (rest r (call w).1) Q
      → Leads (rest r w) Q
      → Leads ((if same then (external call >>= λ e. on_hook rest refused e) else rest) r w) Q
  hook_case true call rest refused r w Q e h k =
      answer_case (call w).0 rest refused r (call w).1 Q e h
  hook_case false call rest refused r w Q e h k = k

module _ {W : Type 0} (rt : Runtime) (http : Http W) (parent : Parent) (spec : RolloutPlan)
    (now : ℕ) (accepting : HooksAccept http parent spec) where
  pub hooks_accepted :
      (P : W → Type 0)
      → ((phase : String) (h : RolloutWebhook) (w : W)
          → P w
          → P (call_webhook http parent phase h w).1)
      → (want : HookType) (phase reason : String) (hs : List RolloutWebhook) (r : RolloutStatus)
        (w : W)
      → All (IsAccepting http parent) hs
      → P w
      → Leads
          (call_webhooks rt http parent spec now want phase reason hs r w)
          (λ b r' w'. (b ≡ true) × (r' ≡ r) × P w')
  unfolding call_webhooks
  hooks_accepted P keep want phase reason [] r w all p = (refl, refl, p)
  hooks_accepted P keep want phase reason (h ∷ hs) r w all p =
      hook_case (same_hook h.type want) (call_webhook http parent phase h)
        (call_webhooks rt http parent spec now want phase reason hs)
        (λ m. modify (rollout_retry rt now reason) >> pure false) r w
        (λ b r' w'. (b ≡ true) × (r' ≡ r) × P w') (all.0 phase w)
        (hooks_accepted P keep want phase reason hs r (call_webhook http parent phase h w).1 all.1
          (keep phase h w p))
        (hooks_accepted P keep want phase reason hs r w all.1 p)
