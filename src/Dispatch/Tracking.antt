-- ===== src/Dispatch/Tracking.antt =====
-- What the resource tracker of a dispatch holds: every applied manifest and all that it held before,
-- each once; and what the owners of a manifest are when it is applied.
use rudr_x.Base.{
  All, Bool-cases, List, String, [], arith, eq_iff, false, inl, inr, map, refl, some, sym, true,
  ◌++◌, ◌∙◌, ◌∷◌, ◌≡◌,
}
use rudr_x.Cluster.References.{
  Manifest, OwnerReference, TypedReference, reference, same_reference, same_reference_iff,
}
use rudr_x.Dispatch.{
  already_tracked, controller_owner, demoted, merge_tracked, set_or_override_controller_owner,
  with_reference,
}
use rudr_x.Dispatch.Collected.{Tracked}
use rudr_x.Dispatch.Collector.{still_tracked}
use rudr_x.Dispatch.Trackers.{ResourceTracker}

-- No reference stands twice.
unfoldable pub IsUnique : List TypedReference → Type 0
IsUnique [] = Unit
IsUnique (r ∷ rs) = (still_tracked r rs ≡ false) × IsUnique rs

tracked-append-old :
    (r : TypedReference) (xs ys : List TypedReference)
    → still_tracked r xs ≡ true
    → still_tracked r (xs ++ ys) ≡ true
unfolding still_tracked
tracked-append-old r [] ys h = cc
tracked-append-old r (x ∷ xs) ys h = ground (arith, tracked-append-old r xs ys)

tracked-append-new :
    (r : TypedReference) (xs : List TypedReference) → still_tracked r (xs ++ (r ∷ [])) ≡ true
unfolding still_tracked
tracked-append-new r [] = rw ((same_reference_iff r r).1 refl) refl
tracked-append-new r (x ∷ xs) = ground (arith, tracked-append-new r xs)

same_symm : (a b : TypedReference) → same_reference a b ≡ same_reference b a
same_symm a b = elim (Bool-cases (same_reference a b)) [
  | inl h ↦ h ∙ sym ((same_reference_iff b a).1 (sym ((same_reference_iff a b).0 h)))
  | inr h ↦ elim (Bool-cases (same_reference b a)) [
    | inl k ↦ (same_reference_iff a b).1 (sym ((same_reference_iff b a).0 k)) ∙ sym k
    | inr k ↦ h ∙ sym k
  ]
]

already-tracked :
    (r : TypedReference) (xs : List TypedReference) → already_tracked r xs ≡ still_tracked r xs
unfolding already_tracked still_tracked
already-tracked r [] = refl
already-tracked r (x ∷ xs) = ground (arith, already-tracked r xs, same_symm x r)

untracked-append :
    (x r : TypedReference) (xs : List TypedReference)
    → still_tracked x xs ≡ false
    → same_reference x r ≡ false
    → still_tracked x (xs ++ (r ∷ [])) ≡ false
unfolding still_tracked
untracked-append x r [] h k = rw k refl
untracked-append x r (y ∷ xs) h k = ground (arith, untracked-append x r xs)

append-IsUnique :
    (xs : List TypedReference) (r : TypedReference)
    → IsUnique xs
    → still_tracked r xs ≡ false
    → IsUnique (xs ++ (r ∷ []))
unfolding IsUnique still_tracked
append-IsUnique [] r u new = (refl, tt)
append-IsUnique (x ∷ xs) r u new = (
  untracked-append x r xs u.0 (same_symm x r ∙ ground arith),
  append-IsUnique xs r u.1 (ground arith),
)

-- Merging keeps what is tracked.
pub merge_tracked-old :
    (r : TypedReference) (tracked : List TypedReference) (applied : List Manifest)
    → Tracked r tracked
    → Tracked r (merge_tracked tracked applied)
unfolding merge_tracked
merge_tracked-old r tracked [] h = h
merge_tracked-old r tracked (m ∷ ms) h =
    merge_tracked-old r (with_reference (reference m) tracked) ms
      (elim (Bool-cases (already_tracked (reference m) tracked)) [
        | inl old ↦ rw (old, with_reference) h
        | inr new ↦ rw (new, with_reference) (tracked-append-old r tracked (reference m ∷ []) h)
      ])

with_reference-Tracked :
    (r : TypedReference) (tracked : List TypedReference) → Tracked r (with_reference r tracked)
unfolding with_reference
with_reference-Tracked r tracked = elim (Bool-cases (already_tracked r tracked)) [
  | inl old ↦ rw old (sym (already-tracked r tracked) ∙ old)
  | inr new ↦ rw new (tracked-append-new r tracked)
]

pub merge_tracked-new :
    (tracked : List TypedReference) (applied : List Manifest)
    → All (λ m. Tracked (reference m) (merge_tracked tracked applied)) applied
unfolding merge_tracked
merge_tracked-new tracked [] = tt
merge_tracked-new tracked (m ∷ ms) = (
  merge_tracked-old (reference m) (with_reference (reference m) tracked) ms
      (with_reference-Tracked (reference m) tracked),
  merge_tracked-new (with_reference (reference m) tracked) ms,
)

-- The tracked references stay without repetition.
pub merge_tracked-IsUnique :
    (tracked : List TypedReference) (applied : List Manifest)
    → IsUnique tracked
    → IsUnique (merge_tracked tracked applied)
unfolding merge_tracked
merge_tracked-IsUnique tracked [] u = u
merge_tracked-IsUnique tracked (m ∷ ms) u =
    merge_tracked-IsUnique (with_reference (reference m) tracked) ms
      (elim (Bool-cases (already_tracked (reference m) tracked)) [
        | inl old ↦ rw (old, with_reference) u
        | inr new ↦ rw new (
            append-IsUnique tracked (reference m) u
              (sym (already-tracked (reference m) tracked) ∙ new))
      ])

-- An owner that controls the object is the one with this UID.
abbrev pub Controls : String → OwnerReference → Type 0
Controls uid o = o.controller ≡ some true → o.uid ≡ uid

demoted-Controls : (uid : String) (o : OwnerReference) → Controls uid (demoted uid o)
unfolding demoted
demoted-Controls uid o = ground (arith, eq_iff o.uid uid)

owners-Controls :
    (uid : String) (os : List OwnerReference) → All (Controls uid) (map (demoted uid) os)
owners-Controls uid [] = tt
owners-Controls uid (o ∷ os) = (demoted-Controls uid o, owners-Controls uid os)

-- When a manifest is applied, no owner but the tracker controls it.
pub set_or_override-Controls :
    (obj : Manifest) (rt : ResourceTracker)
    → All
        (Controls rt.uid)
        (set_or_override_controller_owner obj (controller_owner rt)).owner_references
unfolding set_or_override_controller_owner controller_owner
set_or_override-Controls obj rt = ((λ h. refl), owners-Controls rt.uid obj.owner_references)
