-- ===== src/Rollout/Action.antt =====
-- Code that mutates the rollout status and the world around it (the cluster, the webhooks), and
-- that may panic. `W` stands for all that is outside the program.
use rudr_x.Base.{Bool, Option, String, if◌then◌else◌, none, some}
use rudr_x.Rollout.Types.{RolloutStatus}

pub data Outcome (A : Type 0) : Type 0 where
  done : A → Outcome A
  panic : Outcome A

-- Go's `(A, error)`, where the value beside an error is not read.
pub data Result (A : Type 0) : Type 0 where
  ok : A → Result A
  err : String → Result A

abbrev pub Action : Type 0 → Type 0 → Type 0
Action W A = RolloutStatus → W → Outcome (A × RolloutStatus × W)

module _ {W : Type 0} where
  abbrev pub pure : {A : Type 0} → A → Action W A
  pure a r w = done (a, r, w)

  abbrev pub panics : {A : Type 0} → Action W A
  panics r w = panic

  infixl 5 ◌>>=◌ ◌>>◌
  abbrev pub ◌>>=◌ : {A B : Type 0} → Action W A → (A → Action W B) → Action W B
  ◌>>=◌ m f r w = elim (m r w) [ panic ↦ panic | done (a, r', w') ↦ f a r' w' ]

  abbrev pub ◌>>◌ : {A B : Type 0} → Action W A → Action W B → Action W B
  m >> k = m >>= λ _. k

  -- A method of the status.
  abbrev pub modify : (RolloutStatus → RolloutStatus) → Action W (Unit {0})
  modify f r w = done (tt, f r, w)

  abbrev pub status : Action W RolloutStatus
  status r w = done (r, r, w)

  -- A call to the outside that leaves the status alone.
  abbrev pub external : {A : Type 0} → (W → A × W) → Action W A
  external f r w = let (a, w') = f w in done (a, r, w')

  abbrev pub or_panic : {A : Type 0} → Option A → Action W A
  or_panic none = panics
  or_panic (some a) = pure a

  -- A statement under a condition.
  abbrev pub when : Bool → Action W (Unit {0}) → Action W (Unit {0})
  when b m = if b then m else pure tt

-- The interface `WorkloadController` of workloads/controller.go.
pub record WorkloadController (W : Type 0) : Type 0 where
  pub verify_spec : Action W (Result Bool)
  pub initialize : Action W (Result Bool)
  pub rollout_one_batch_pods : Action W (Result Bool)
  pub check_one_batch_pods : Action W (Result Bool)
  pub finalize_one_batch : Action W (Result Bool)
  pub finalize : Bool → Action W Bool
