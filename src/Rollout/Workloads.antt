-- ===== src/Rollout/Workloads.antt =====
-- The Kubernetes objects that the workload controllers of
-- pkg/controller/common/rollout/workloads work on, what the controllers take from the API server and
-- from apimachinery, and `deploymentController` of delopyment_controller.go. Recorded events and log
-- lines are left out. A controller lives for one round of `Reconcile`, which calls one operation, and
-- every operation reads its objects first: they are values of the operation, not a state.
pub mod Batch
pub mod DeploymentRollout
pub mod DeploymentScale
pub mod CloneSets
pub mod CloneSetRollout
pub mod CloneSetScale
pub mod System
pub mod Scaling
pub mod Owners
mod Witnesses
use rudr_x.Base.{
  Bool, List, Option, String, [], false, if◌then◌else◌, none, some, str_eq, true, ℕ, ◌&&◌, ◌++◌,
  ◌∷◌,
}
use rudr_x.Base.Int.{ℤ}
use rudr_x.Rollout.Action.{Action, Result, err, external, modify, ok, pure, ◌>>=◌, ◌>>◌}
use rudr_x.Rollout.Status.{rollout_retry}
use rudr_x.Rollout.Types.{IntOrString, Runtime}

pub record NamespacedName : Type 0 where
  pub namespace : String
  pub name : String

-- The fields of `metav1.OwnerReference` that the code reads.
pub record OwnerReference : Type 0 where
  pub api_version : String
  pub kind : String
  pub name : String
  pub controller : Bool

-- The fields of a Deployment that the code reads or writes; `replicas` is a pointer.
pub record Deployment : Type 0 where
  pub name : String
  pub owner_references : List OwnerReference
  pub paused : Bool
  pub replicas : Option ℤ
  pub status_replicas : ℤ
  pub ready_replicas : ℤ
  pub updated_replicas : ℤ

-- The fields of OpenKruise's CloneSet that the code reads or writes.
pub record CloneSet : Type 0 where
  pub name : String
  pub owner_references : List OwnerReference
  pub paused : Bool
  pub partition : Option IntOrString
  pub replicas : Option ℤ
  pub status_replicas : ℤ
  pub ready_replicas : ℤ
  pub updated_replicas : ℤ
  pub updated_ready_replicas : ℤ
  pub update_revision : String

-- The API server, as `client.Client`: a patch goes from the object as it was read to the object
-- wanted, and its answer replaces the object. And `GetControllerOf`, `NewControllerRef` for the
-- parent, `OwnerReference.String` of apimachinery, and `utils.ComputeSpecHash`, which calls
-- hashstructure.
pub record Api (W : Type 0) : Type 0 where
  pub get_deployment : NamespacedName → W → Result Deployment × W
  pub patch_deployment : Deployment → Deployment → W → Result Deployment × W
  pub get_clone_set : NamespacedName → W → Result CloneSet × W
  pub patch_clone_set : CloneSet → CloneSet → W → Result CloneSet × W
  pub get_controller_of : List OwnerReference → Option OwnerReference
  pub controller_ref : OwnerReference
  pub owner_text : OwnerReference → String
  pub compute_spec_hash : Deployment → Result String

-- An owner that is an application rollout.
unfoldable pub is_rollout_owner : OwnerReference → Bool
is_rollout_owner o = str_eq o.kind "AppRollout" && str_eq o.api_version "core.oam.dev/v1beta1"

-- The controller, if any, is an application rollout.
unfoldable pub is_claimed : Option OwnerReference → Bool
unfolding is_rollout_owner
is_claimed none = false
is_claimed (some o) = is_rollout_owner o

-- The loop of the release: the owners that are left, and whether one was found.
unfoldable pub released : List OwnerReference → List OwnerReference × Bool
unfolding is_rollout_owner
released [] = ([], false)
released (o ∷ os) =
    let (rest, found) = released os in
    if is_rollout_owner o then (rest, true) else (o ∷ rest, found)

-- `if err != nil { … }` after a call that gives an object or an error.
unfoldable pub settle :
    {W D A : Type 0} → (String → Action W A) → (D → Action W A) → Result D → Action W A
settle fails next (err m) = fails m
settle fails next (ok d) = next d

-- The first error of a row of checks.
infixr 20 ◌or_else◌
abbrev pub ◌or_else◌ : Option String → Option String → Option String
none or_else e = e
(some m) or_else e = some m

abbrev pub fails_if : Bool → String → Option String
fails_if b m = if b then some m else none

module _ {W : Type 0} (rt : Runtime) (now : ℕ) where
  -- `rolloutStatus.RolloutRetry(err)` and `return false, nil`.
  unfoldable pub waits : String → Action W (Result Bool)
  waits m = modify (rollout_retry rt now m) >> pure (ok false)

  -- The same in `Finalize`, which only returns whether it is done.
  unfoldable pub gives_up : String → Action W Bool
  gives_up m = modify (rollout_retry rt now m) >> pure false

  -- What an error or none gives, with the condition of a retry.
  unfoldable pub noted : Result Deployment → Action W (Option String)
  noted (err m) = modify (rollout_retry rt now m) >> pure (some m)
  noted (ok d) = pure none

  -- The object after a claim that the API server answered, and what `claimDeployment` returns.
  unfoldable pub claim_answer : Deployment → Result Deployment → Action W (Deployment × Result Bool)
  claim_answer d (err m) = modify (rollout_retry rt now m) >> pure (d, err m)
  claim_answer d (ok d') = pure (d', ok false)

unfoldable pub release_done : Result Bool → Bool
release_done (err m) = false
release_done (ok before) = true

unfoldable pub release_answer : {W : Type 0} → Option String → Action W (Result Bool)
release_answer none = pure (ok false)
release_answer (some m) = pure (err m)

module _ {W : Type 0} (rt : Runtime) (api : Api W) (now : ℕ) where
  -- `claimDeployment`.
  unfoldable pub claim_deployment : Deployment → Option ℤ → Action W (Deployment × Result Bool)
  unfolding is_claimed claim_answer
  claim_deployment d init_size =
      let claim = record d {
        owner_references = d.owner_references ++ (api.controller_ref ∷ []);
        paused = false;
        replicas = elim init_size [ none ↦ d.replicas | some n ↦ some n ];
      } in
      if is_claimed (api.get_controller_of d.owner_references)
      then pure (d, ok true)
      else (external (api.patch_deployment d claim) >>= claim_answer rt now claim)

  -- `scaleDeployment`: the error or none.
  unfoldable pub scale_deployment : Deployment → ℤ → Action W (Option String)
  unfolding noted
  scale_deployment d size =
      external (api.patch_deployment d (record d { replicas = some size })) >>= noted rt now

  -- `releaseDeployment`.
  unfoldable pub release_deployment : Deployment → Action W (Result Bool)
  unfolding released noted release_answer
  release_deployment d =
      let (owners, found) = released d.owner_references in
      if found
      then (external (api.patch_deployment d (record d { owner_references = owners }))
          >>= noted rt now
          >>= release_answer)
      else pure (ok true)
