-- ===== src/Rollout/Workloads/Owners.antt =====
-- Claiming a workload and releasing it: the owners of its metadata.
use rudr_x.Base.{
  All, Bool-cases, List, Option, [], ap, false, inl, inr, none, refl, some, sym, true, ℕ, ◌++◌, ◌∙◌,
  ◌∷◌, ◌≡◌, ◌≢◌,
}
use rudr_x.Base.Int.{ℤ}
use rudr_x.Rollout.Action.{Result, done, err, external, ok, ◌>>=◌}
use rudr_x.Rollout.Types.{RolloutStatus, Runtime}
use rudr_x.Rollout.Workloads.{
  Api, Deployment, OwnerReference, claim_answer, claim_deployment, is_claimed, is_rollout_owner,
  noted, release_answer, release_deployment, released,
}

-- No owner is an application rollout.
abbrev pub IsFree : List OwnerReference → Type 0
IsFree os = All (λ o. is_rollout_owner o ≡ false) os

released-append :
    (os : List OwnerReference) (o : OwnerReference)
    → IsFree os
    → is_rollout_owner o ≡ true
    → released (os ++ (o ∷ [])) ≡ (os, true)
unfolding released
released-append [] o free claims = simp claims refl
released-append (x ∷ os) o free claims = simp (released-append os o free.1 claims, free.0) refl

released-IsFree : (os : List OwnerReference) → IsFree (released os).0
unfolding released
released-IsFree [] = tt
released-IsFree (o ∷ os) = elim (Bool-cases (is_rollout_owner o)) [
  | inl claims ↦ rw claims (released-IsFree os)
  | inr other ↦ rw other (other, released-IsFree os)
]

module _ {W : Type 0} (rt : Runtime) (api : Api W) (now : ℕ) where
  patch_accepted :
      (a : Result Deployment) (r : RolloutStatus) (w : W) {d' : Deployment}
      → a ≡ ok d'
      → (noted rt now a >>= release_answer) r w ≡ done (ok false, r, w)
  unfolding noted release_answer
  patch_accepted (err m) r w e = cc
  patch_accepted (ok d) r w e = refl

  release_found :
      (d : Deployment) (owners : List OwnerReference) (r : RolloutStatus) (w : W) {d' : Deployment}
      → released d.owner_references ≡ (owners, true)
      → (api.patch_deployment d (record d { owner_references = owners }) w).0 ≡ ok d'
      → release_deployment rt api now d r w
        ≡ done (ok false, r, (api.patch_deployment d (record d { owner_references = owners }) w).1)
  unfolding release_deployment noted release_answer
  release_found d owners r w e accepts = simp e (patch_accepted _ r _ accepts)

-- What the code relies on: a merge patch that changes the owners replaces the list of them, and the
-- answer is the object that came out.
abbrev pub PatchesOwners : {W : Type 0} → Api W → Type 0
PatchesOwners {W = W} api =
    (d asked : Deployment) (w : W) (d' : Deployment) (w' : W)
    → asked.owner_references ≢ d.owner_references
    → api.patch_deployment d asked w ≡ (ok d', w')
    → d'.owner_references ≡ asked.owner_references

appended-longer : (os : List OwnerReference) (o : OwnerReference) → (os ++ (o ∷ [])) ≢ os
appended-longer [] o e = cc
appended-longer (x ∷ os) o e = appended-longer os o (cc e)

module _ {W : Type 0} (rt : Runtime) (api : Api W) where
  claim_answered :
      (now : ℕ) (claim : Deployment) (x : Result Deployment × W) (r r₁ : RolloutStatus)
      {claimed : Deployment} {w₁ : W}
      → (external (λ w. x) >>= claim_answer rt now claim) r x.1 ≡ done ((claimed, ok false), r₁, w₁)
      → x ≡ (ok claimed, w₁)
  unfolding claim_answer
  claim_answered now claim (err m, w) r r₁ h = cc h
  claim_answered now claim (ok d, w) r r₁ h = cc h

  -- A claim that goes through adds the controller to the owners.
  claim_deployment-owners :
      (now : ℕ) (d : Deployment) (init_size : Option ℤ) (r r₁ : RolloutStatus) (w : W)
      {claimed : Deployment} {w₁ : W}
      → PatchesOwners api
      → claim_deployment rt api now d init_size r w ≡ done ((claimed, ok false), r₁, w₁)
      → claimed.owner_references ≡ d.owner_references ++ (api.controller_ref ∷ [])
  unfolding claim_deployment
  claim_deployment-owners now d init_size r r₁ w patches =
      let claim = record d {
        owner_references = d.owner_references ++ (api.controller_ref ∷ []);
        paused = false;
        replicas = elim init_size [ none ↦ d.replicas | some n ↦ some n ];
      } in
      elim (Bool-cases (is_claimed (api.get_controller_of d.owner_references))) [
        | inl mine ↦ rw mine (λ h. cc h)
        | inr free ↦ rw free (λ h.
            patches d claim w _ _ (appended-longer d.owner_references api.controller_ref)
              (claim_answered now claim (api.patch_deployment d claim w) r r₁ h))
      ]

  -- Claiming and releasing is a round trip on the owners. A Deployment that no rollout owns is claimed,
  -- and the claim, with or without an initial size, goes through. Then the release of the claimed
  -- Deployment, at any later time and in any status, asks for exactly the owners that it had before
  -- the claim, and if the API server accepts that, the Deployment has these owners again.
  pub release-claim :
      (now later : ℕ) (d : Deployment) (init_size : Option ℤ) (r r₁ r₂ : RolloutStatus) (w w₂ : W)
      {claimed d' : Deployment} {w₁ w₃ : W}
      → PatchesOwners api
      → is_rollout_owner api.controller_ref ≡ true
      → IsFree d.owner_references
      → claim_deployment rt api now d init_size r w ≡ done ((claimed, ok false), r₁, w₁)
      → api.patch_deployment claimed (record claimed { owner_references = d.owner_references }) w₂
        ≡ (ok d', w₃)
      → (release_deployment rt api later claimed r₂ w₂ ≡ done (ok false, r₂, w₃))
        × (d'.owner_references ≡ d.owner_references)
  release-claim now later d init_size r r₁ r₂ w w₂ {claimed = claimed} patches claims free h
        accepts =
      let owners = claim_deployment-owners now d init_size r r₁ w patches h in
      (
        release_found rt api later claimed d.owner_references r₂ w₂
              (rw owners (released-append d.owner_references api.controller_ref free claims))
              (ap (λ x. x.0) accepts)
            ∙ ap (λ x. done (ok false, r₂, x.1)) accepts,
        patches claimed (record claimed { owner_references = d.owner_references }) w₂ _ _
            (λ e. appended-longer d.owner_references api.controller_ref (sym owners ∙ sym e))
            accepts,
      )
