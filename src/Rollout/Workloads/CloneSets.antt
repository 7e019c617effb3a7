-- ===== src/Rollout/Workloads/CloneSets.antt =====
-- `cloneSetController` of controller.go, and what the two controllers of CloneSets do alike.
use rudr_x.Base.{Bool, Option, [], false, if◌then◌else◌, none, some, true, ℕ, ◌++◌, ◌∷◌}
use rudr_x.Base.Int.{pos, ℤ}
use rudr_x.Base.Text.{◌+++◌}
use rudr_x.Rollout.Action.{Action, Result, err, external, ok, pure, ◌>>=◌}
use rudr_x.Rollout.Types.{IntOrString, Runtime}
use rudr_x.Rollout.Workloads.{Api, CloneSet, NamespacedName, gives_up, is_claimed, released, waits}

-- The replicas of a CloneSet, 1 where they are not set.
unfoldable pub clone_set_size : CloneSet → ℤ
clone_set_size c = elim c.replicas [ none ↦ pos 1 | some n ↦ n ]

module _ {W : Type 0} (rt : Runtime) (api : Api W) (now : ℕ) where
  -- `fetchCloneSet`; `size` reads the object too, since an operation starts without one.
  unfoldable pub fetch_clone_set : NamespacedName → Action W (Result CloneSet)
  fetch_clone_set target = external (api.get_clone_set target)

  unfoldable pub uncontrolled : CloneSet → Result Bool
  uncontrolled c = elim (api.get_controller_of c.owner_references) [
    | none ↦ ok true
    | some o ↦ err ("the cloneset " +++ c.name +++ " has a controller owner " +++ api.owner_text o)
  ]

  -- A patch whose failure is waited for, and what follows it.
  unfoldable pub patched : Action W (Result Bool) → Result CloneSet → Action W (Result Bool)
  unfolding waits
  patched next (err m) = waits rt now m
  patched next (ok c) = next

  -- `Initialize` once the CloneSet is read, with the partition that it sets.
  unfoldable pub claim_clone_set : CloneSet → Option IntOrString → Action W (Result Bool)
  unfolding is_claimed patched
  claim_clone_set c partition =
      let claim = record c {
        owner_references = c.owner_references ++ (api.controller_ref ∷ []);
        paused = false;
        partition = partition;
      } in
      if is_claimed (api.get_controller_of c.owner_references)
      then pure (ok true)
      else (external (api.patch_clone_set c claim) >>= patched (pure (ok true)))

  unfoldable pub release_patched : Action W Bool → Result CloneSet → Action W Bool
  unfolding gives_up
  release_patched next (err m) = gives_up rt now m
  release_patched next (ok c) = next

  -- `Finalize` once the CloneSet is read: it is released, paused as told, and `next` follows.
  unfoldable pub release_clone_set : CloneSet → Bool → Action W Bool → Action W Bool
  unfolding released release_patched
  release_clone_set c paused next =
      let (owners, is_owner) = released c.owner_references in
      if is_owner
      then (external
            (api.patch_clone_set c (record c { owner_references = owners; paused = paused }))
          >>= release_patched next)
      else pure true
