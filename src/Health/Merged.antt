-- ===== src/Health/Merged.antt =====
-- What the merged conditions of peers and of child resources say.
use rudr_x.Base.{
  Bool, Bool-cases, List, String, [], ap, arith, false, if◌then◌else◌, inl, inr, length, not, refl,
  str_eq, true, ◌&&◌, ◌++◌, ◌==◌, ◌||◌, ◌↔◌, ◌∙◌, ◌∷◌, ◌≡◌,
}
use rudr_x.Base.Sorting.{insert_by, sort_by}
use rudr_x.Health.Checkers.{
  check_deployment_health, merge_sub_conditions, sub_conditions, update_child_resources_condition,
}
use rudr_x.Health.Peers.{
  any_unhealthy, is_unhealthy, merge_peer_workloads_conditions, newer, reformatted,
}
use rudr_x.Health.Types.{
  Checked, Reader, WorkloadHealthCondition, WorkloadReference, condition, panics, unhealthy,
  unmatched,
}

any-insert :
    (c : WorkloadHealthCondition) (cs : List WorkloadHealthCondition)
    → any_unhealthy (insert_by newer c cs) ≡ any_unhealthy (c ∷ cs)
unfolding any_unhealthy insert_by
any-insert c [] = refl
any-insert c (d ∷ cs) = ground (arith, any-insert c cs)

any-sort : (cs : List WorkloadHealthCondition) → any_unhealthy (sort_by newer cs) ≡ any_unhealthy cs
unfolding any_unhealthy sort_by
any-sort [] = refl
any-sort (c ∷ cs) = any-insert c (sort_by newer cs) ∙ ground (arith, any-sort cs)

any-append :
    (cs : List WorkloadHealthCondition) (c : WorkloadHealthCondition)
    → any_unhealthy (cs ++ (c ∷ [])) ≡ any_unhealthy (c ∷ cs)
unfolding any_unhealthy
any-append [] c = refl
any-append (d ∷ cs) c = ground (arith, any-append cs c)

reformatted-status :
    (cs : List WorkloadHealthCondition) (basic : WorkloadHealthCondition)
    → (reformatted cs basic).health_status ≡ basic.health_status
unfolding reformatted
reformatted-status [] basic = refl
reformatted-status (c ∷ cs) basic = ground arith

status-if :
    (b : Bool) (c : WorkloadHealthCondition)
    → (if b then record c { health_status = unhealthy } else c).health_status
      ≡ (if b then unhealthy else c.health_status)
status-if true c = refl
status-if false c = refl

-- A workload is unhealthy if it or one of its peers is, in whatever order these are listed; otherwise
-- its peers leave its status alone.
pub merge_peers-status :
    (peers : List WorkloadHealthCondition) (basic : WorkloadHealthCondition)
    → (merge_peer_workloads_conditions peers basic).health_status
      ≡ (if any_unhealthy (basic ∷ peers) then unhealthy else basic.health_status)
unfolding merge_peer_workloads_conditions any_unhealthy is_unhealthy
merge_peers-status [] basic = ground arith
merge_peers-status (p ∷ ps) basic =
    reformatted-status (sort_by newer ((p ∷ ps) ++ (basic ∷ []))) _
    ∙ status-if (any_unhealthy (sort_by newer ((p ∷ ps) ++ (basic ∷ [])))) basic
    ∙ ap (λ b. if b then unhealthy else basic.health_status)
        (any-sort ((p ∷ ps) ++ (basic ∷ [])) ∙ any-append (p ∷ ps) basic)

-- A child of kind Deployment that is of another API version than `apps/v1`.
unfoldable pub is_foreign : WorkloadReference → Bool
is_foreign ref = str_eq ref.kind "Deployment" && not (str_eq ref.api_version "apps/v1")

unfoldable pub any_foreign : List WorkloadReference → Bool
unfolding is_foreign
any_foreign [] = false
any_foreign (ref ∷ refs) = is_foreign ref || any_foreign refs

-- The loop over the children ends in a panic, or gives a condition.
abbrev PanicsIf : Bool → Checked → Type 0
PanicsIf b panics = b ≡ true
PanicsIf b unmatched = ⊥
PanicsIf b (condition c) = b ≡ false

merge_sub-panics :
    (rd : Reader) (ns : String) (refs : List WorkloadReference) (r : WorkloadHealthCondition)
    → PanicsIf (any_foreign refs) (merge_sub_conditions (sub_conditions rd ns refs) r)
unfolding merge_sub_conditions sub_conditions any_foreign check_deployment_health
merge_sub-panics rd ns [] r = refl
merge_sub-panics rd ns (ref ∷ refs) r = elim (Bool-cases (str_eq ref.kind "Deployment")) [
  | inl deployed ↦ elim (Bool-cases (str_eq ref.api_version "apps/v1")) [
    | inl apps ↦ rw (deployed, apps) (merge_sub-panics rd ns refs _)
    | inr other ↦ rw (deployed, other) refl
  ]
  | inr another ↦ elim (Bool-cases (str_eq ref.kind "Service")) [
    | inl service ↦ rw (another, service) (merge_sub-panics rd ns refs _)
    | inr other ↦ rw (another, other) (merge_sub-panics rd ns refs r)
  ]
]

panics→ : (b : Bool) (x : Checked) → PanicsIf b x → x ≡ panics → b ≡ true
panics→ b panics h e = h
panics→ b unmatched h e = absurd h
panics→ b (condition c) h e = cc

→panics : (b : Bool) (x : Checked) → PanicsIf b x → b ≡ true → x ≡ panics
→panics b panics h e = refl
→panics b unmatched h e = absurd h
→panics b (condition c) h e = cc

-- The check of a workload with child resources ends in a panic just if there are two of them and one is
-- a Deployment of another API version than `apps/v1`.
pub update_child_resources-panics :
    (rd : Reader) (ns : String) (r : WorkloadHealthCondition) (ref : WorkloadReference)
    (refs : List WorkloadReference)
    → (update_child_resources_condition rd ns r ref refs ≡ panics)
      ↔ ((length refs ≡ 2) × (any_foreign refs ≡ true))
unfolding update_child_resources_condition
update_child_resources-panics rd ns r ref refs = elim (Bool-cases (length refs == 2)) [
  | inl two ↦ rw two (
    (λ e. (ground arith, panics→ (any_foreign refs) _ (merge_sub-panics rd ns refs r) e)),
    (λ h. →panics (any_foreign refs) _ (merge_sub-panics rd ns refs r) h.1),
  )
  | inr other ↦ rw other ((λ e. cc), (λ h. ground arith))
]
