-- ===== src/Rollout/Plan/Progress.antt =====
-- A rollout whose workload and webhooks accept everything: how many rounds are left.
use rudr_x.Base.{Bool, arith, false, length, refl, suc, true, ℕ, ◌*◌, ◌+◌, ◌-◌, ◌≡◌}
use rudr_x.Base.Int.{+ℤ_parts, IsInt32, negsuc, pos, pos_part, ℤ, ◌-ℤ◌, ◌<ℤ◌, ◌≤ℤ◌}
use rudr_x.Rollout.Batches.Bounds.{last_index}
use rudr_x.Rollout.Plan.{may_move}
use rudr_x.Rollout.Plan.Ensures.{SamePlace}
use rudr_x.Rollout.Plan.Safety.{IsSound, SamePlace-IsSound, Sends, Sends-IsSound, fewer, next_batch}
use rudr_x.Rollout.Status.{set_positive, state_transition}
use rudr_x.Rollout.Types.{
  BatchRollingState, RollingState, RolloutEvent, RolloutPlan, RolloutStatus, Runtime,
  all_batch_finished_event, batch_finalizing_state, batch_in_rolling_state,
  batch_initializing_state, batch_ready_state, batch_rollout_approved_event, batch_verifying_state,
  batches, finalising_state, finished_one_batch_event, initialized_one_batch_event,
  initializing_state, one_batch_available_event, rolling_in_batches_state,
  rolling_initialized_event, rolling_spec_verified_event, rollout_one_batch_event,
  rollout_succeed_state, verifying_spec_state,
}
use rudr_x.Rollout.Webhook.{Http, Parent}

batch_offset : BatchRollingState → ℕ
batch_offset batch_initializing_state = 0
batch_offset batch_in_rolling_state = 1
batch_offset batch_verifying_state = 2
batch_offset batch_finalizing_state = 3
batch_offset batch_ready_state = 4
batch_offset _ = 0

left_in : ℕ → RollingState → BatchRollingState → ℕ → ℕ
left_in n verifying_spec_state b i = 5 * n + 2
left_in n initializing_state b i = 5 * n + 1
left_in n rolling_in_batches_state b i = 5 * (n - i) - batch_offset b
left_in n finalising_state b i = 1
left_in n _ b i = 0

-- The rounds until the rollout has succeeded: five for a batch, and one each to verify, to
-- initialize and to finalize, less the one that a last batch does not wait.
unfoldable pub rounds_left : RolloutPlan → RolloutStatus → ℕ
unfolding batch_offset left_in
rounds_left spec r =
    left_in (length (batches spec)) r.rolling_state r.batch_rolling_state (pos_part r.current_batch)

abbrev pub is_forward : RollingState → Bool
is_forward verifying_spec_state = true
is_forward initializing_state = true
is_forward rolling_in_batches_state = true
is_forward finalising_state = true
is_forward rollout_succeed_state = true
is_forward _ = false

-- A status on the way to success: sound, at the first batch before the batches roll, and at the last
-- one after.
pub record OnWay (spec : RolloutPlan) (r : RolloutStatus) : Type 0 where
  pub sound : IsSound spec r
  pub forward : is_forward r.rolling_state ≡ true
  pub first_verifying : r.rolling_state ≡ verifying_spec_state → r.current_batch ≡ pos 0
  pub first_initializing : r.rolling_state ≡ initializing_state → r.current_batch ≡ pos 0
  pub last_finalising : r.rolling_state ≡ finalising_state → r.current_batch ≡ last_index spec
  pub last_succeed : r.rolling_state ≡ rollout_succeed_state → r.current_batch ≡ last_index spec

-- One round nearer to success.
abbrev pub Nearer : RolloutPlan → RolloutStatus → RolloutStatus → Type 0
Nearer spec r r' = OnWay spec r' × (suc (rounds_left spec r') ≡ rounds_left spec r)

pub SamePlace-OnWay :
    (spec : RolloutPlan) (r r' : RolloutStatus) → SamePlace r r' → OnWay spec r → OnWay spec r'
SamePlace-OnWay spec r r' same h = record {
  sound = SamePlace-IsSound spec r r' same h.sound;
  forward = ground arith;
  first_verifying = ground arith;
  first_initializing = ground arith;
  last_finalising = ground arith;
  last_succeed = ground arith;
}

pub SamePlace-left :
    (spec : RolloutPlan) (r r' : RolloutStatus)
    → SamePlace r r'
    → rounds_left spec r' ≡ rounds_left spec r
unfolding rounds_left
SamePlace-left spec r r' same = rw (same.0, same.1, same.2)

module _ {W : Type 0} (rt : Runtime) (http : Http W) (parent : Parent) (spec : RolloutPlan)
    (now : ℕ) where
  -- The events of a rollout that goes well, where they are sent.
  pub data Advances (r : RolloutStatus) : RolloutEvent → Type 0 where
    verified : r.rolling_state ≡ verifying_spec_state → Advances r rolling_spec_verified_event
    initialized : r.rolling_state ≡ initializing_state → Advances r rolling_initialized_event
    batch_initialized :
        r.rolling_state ≡ rolling_in_batches_state
        → r.batch_rolling_state ≡ batch_initializing_state
        → Advances r initialized_one_batch_event
    rolled :
        r.rolling_state ≡ rolling_in_batches_state
        → r.batch_rolling_state ≡ batch_in_rolling_state
        → Advances r rollout_one_batch_event
    available :
        r.rolling_state ≡ rolling_in_batches_state
        → r.batch_rolling_state ≡ batch_verifying_state
        → Advances r one_batch_available_event
    finished :
        r.rolling_state ≡ rolling_in_batches_state
        → r.batch_rolling_state ≡ batch_finalizing_state
        → r.current_batch <ℤ last_index spec
        → Advances r finished_one_batch_event
    finished_all :
        r.rolling_state ≡ rolling_in_batches_state
        → r.batch_rolling_state ≡ batch_finalizing_state
        → r.current_batch ≡ last_index spec
        → Advances r all_batch_finished_event
    approved :
        r.rolling_state ≡ rolling_in_batches_state
        → r.batch_rolling_state ≡ batch_ready_state
        → may_move spec.batch_partition r.current_batch ≡ true
        → Advances r batch_rollout_approved_event
    finalized : r.rolling_state ≡ finalising_state → Advances r all_batch_finished_event

  Advances-Sends :
      (r : RolloutStatus) {e : RolloutEvent} → Advances r e → Sends rt http parent spec now r e
  Advances-Sends r (verified p) = Sends.verified p
  Advances-Sends r (initialized p) = Sends.initialized p
  Advances-Sends r (batch_initialized p q) = Sends.batch_initialized p q
  Advances-Sends r (rolled p q) = Sends.rolled p q
  Advances-Sends r (available p q) = Sends.available p q
  Advances-Sends r (finished p q k) = Sends.finished p q k
  Advances-Sends r (finished_all p q e) = Sends.finished_all p q
  Advances-Sends r (approved p q m) = Sends.approved p q m
  Advances-Sends r (finalized p) = Sends.finalized (rw p refl)

  -- The number of the last batch.
  pub last_pos :
      (i : ℤ)
      → pos 0 ≤ℤ i
      → i ≤ℤ last_index spec
      → suc (pos_part (last_index spec)) ≡ length (batches spec)
  unfolding ◌-ℤ◌
  last_pos (pos i) low high = ground arith
  last_pos (negsuc i) low high = absurd (omega arith)

  pub Advances-left :
      (r : RolloutStatus) {e : RolloutEvent}
      → IsInt32 (last_index spec)
      → OnWay spec r
      → Advances r e
      → suc (rounds_left spec (state_transition rt now e r)) ≡ rounds_left spec r
  unfolding rounds_left state_transition set_positive
  Advances-left r fits h (verified p) = ground arith
  Advances-left r fits h (initialized p) = ground (arith, h.first_initializing p)
  Advances-left r fits h (batch_initialized p q) =
      ground (arith, last_pos r.current_batch h.sound.low h.sound.high)
  Advances-left r fits h (rolled p q) =
      ground (arith, last_pos r.current_batch h.sound.low h.sound.high)
  Advances-left r fits h (available p q) =
      ground (arith, last_pos r.current_batch h.sound.low h.sound.high)
  Advances-left r fits h (finished p q k) =
      ground (arith, last_pos r.current_batch h.sound.low h.sound.high)
  Advances-left r fits h (finished_all p q e) =
      ground (arith, last_pos r.current_batch h.sound.low h.sound.high)
  Advances-left r fits h (approved p q m) = ground (
    arith,
    next_batch r.current_batch (last_index spec) fits h.sound.low (h.sound.more p q),
    last_pos r.current_batch h.sound.low h.sound.high,
    h.sound.more p q,
    +ℤ_parts r.current_batch (pos 1),
    fewer r.current_batch h.sound.low,
  )
  Advances-left r fits h (finalized p) = ground arith

  -- The fields of `OnWay` after an event, without the soundness.
  fields :
      (r : RolloutStatus) {e : RolloutEvent}
      → OnWay spec r
      → Advances r e
      → let r' = state_transition rt now e r in
        (is_forward r'.rolling_state ≡ true)
        × (r'.rolling_state ≡ verifying_spec_state → r'.current_batch ≡ pos 0)
        × (r'.rolling_state ≡ initializing_state → r'.current_batch ≡ pos 0)
        × (r'.rolling_state ≡ finalising_state → r'.current_batch ≡ last_index spec)
        × (r'.rolling_state ≡ rollout_succeed_state → r'.current_batch ≡ last_index spec)
  unfolding state_transition set_positive
  fields r h (verified p) = ground (arith, h.first_verifying p)
  fields r h (initialized p) = ground arith
  fields r h (batch_initialized p q) = ground arith
  fields r h (rolled p q) = ground arith
  fields r h (available p q) = ground arith
  fields r h (finished p q k) = ground arith
  fields r h (finished_all p q e) = ground arith
  fields r h (approved p q m) = ground arith
  fields r h (finalized p) = ground (arith, h.last_finalising p)

  pub Advances-OnWay :
      (r : RolloutStatus) {e : RolloutEvent}
      → IsInt32 (last_index spec)
      → OnWay spec r
      → Advances r e
      → OnWay spec (state_transition rt now e r)
  Advances-OnWay r fits h a = record {
    sound = Sends-IsSound rt http parent spec now r fits h.sound (Advances-Sends r a);
    forward = (fields r h a).0;
    first_verifying = (fields r h a).1;
    first_initializing = (fields r h a).2;
    last_finalising = (fields r h a).3;
    last_succeed = (fields r h a).4;
  }
