-- ===== src/Revisions/Identity/Agreed.antt =====
-- Revisions that are found equal have the same definitions, though only the new ones are compared.
use mathlib.Core.Path.{subst}
use rudr_x.Base.{
  All, Bool, Bool-cases, List, Option, Option-cases, String, [], ap, arith, eq_iff, false,
  if◌then◌else◌, inl, inr, length, none, refl, some, str_eq, suc, true, ◌∙◌, ◌∷◌, ◌≡◌,
}
use rudr_x.Revisions.{in_use}
use rudr_x.Revisions.Chosen.{IsUnique}
use rudr_x.Revisions.Identity.{
  Definitions, RevisionSpec, all_equal, current_app_rev_is_new, deep_equal_revision,
  find_definition, same_definitions, spec_at,
}

unfoldable pub keys : {A : Type 0} → Definitions A → List String
keys [] = []
keys ((k, a) ∷ ds) = k ∷ keys ds

-- The first occurrence is left out.
without : String → List String → List String
without n [] = []
without n (m ∷ ms) = if str_eq m n then ms else m ∷ without n ms

length-without :
    (n : String) (ms : List String) → in_use n ms ≡ true → length ms ≡ suc (length (without n ms))
unfolding in_use without
length-without n [] h = absurd (ground arith)
length-without n (m ∷ ms) h = ground (arith, eq_iff m n, eq_iff n m, length-without n ms)

-- Another name stays.
in_use-without :
    (n k : String) (ms : List String) → str_eq k n ≡ false → in_use k (without n ms) ≡ in_use k ms
unfolding in_use without
in_use-without n k [] h = refl
in_use-without n k (m ∷ ms) h =
    ground (arith, eq_iff m n, eq_iff k m, eq_iff k n, in_use-without n k ms h)

abbrev Within : List String → List String → Type 0
Within ns ms = All (λ n. in_use n ms ≡ true) ns

Within-without :
    (n : String) (ns ms : List String)
    → in_use n ns ≡ false
    → Within ns ms
    → Within ns (without n ms)
unfolding in_use
Within-without n [] ms h w = tt
Within-without n (k ∷ ns) ms h w = (
  in_use-without n k ms (ground (arith, eq_iff n k, eq_iff k n)) ∙ w.0,
  Within-without n ns ms (ground arith) w.1,
)

-- Names without repetition that are all on a list of the same length are all of that list.
Within-full :
    (k : String) (ns ms : List String)
    → IsUnique ns
    → Within ns ms
    → length ns ≡ length ms
    → in_use k ms ≡ true
    → in_use k ns ≡ true
unfolding in_use IsUnique
Within-full k [] [] u w l h = h
Within-full k [] (m ∷ ms) u w l h = absurd (ground arith)
Within-full k (n ∷ ns) ms u w l h = elim (Bool-cases (str_eq k n)) [
  | inl e ↦ ground (arith, e)
  | inr e ↦
      let rest =
        Within-full k ns (without n ms) u.1 (Within-without n ns ms u.0 w.1)
          (ground (arith, l, length-without n ms w.0)) (in_use-without n k ms e ∙ h) in
      ground (arith, rest, e)
]

length-keys : {A : Type 0} (ds : Definitions A) → length (keys ds) ≡ length ds
unfolding keys
length-keys [] = refl
length-keys ((k, a) ∷ ds) = ap suc (length-keys ds)

absent :
    {A : Type 0} (n : String) (ds : Definitions A)
    → in_use n (keys ds) ≡ false
    → find_definition n ds ≡ none
unfolding in_use keys find_definition
absent n [] h = refl
absent n ((k, a) ∷ ds) h = ground (arith, eq_iff n k, eq_iff k n, absent n ds)

present :
    {A : Type 0} (n : String) (ds : Definitions A) {a : A}
    → find_definition n ds ≡ some a
    → in_use n (keys ds) ≡ true
unfolding in_use keys find_definition
present n [] h = absurd (ground arith)
present n ((k, x) ∷ ds) {a} h = ground (arith, eq_iff n k, eq_iff k n, present n ds {a = a})

module _ {A : Type 0} (equal : A → A → Bool) (zero : A) where
  -- Both have a definition, with equal specs, or none has.
  unfoldable pub Agree : Option A → Option A → Type 0
  Agree none none = Unit
  Agree (some a) (some b) = equal a b ≡ true
  Agree _ _ = ⊥

  -- No definition has an empty spec.
  abbrev pub HasSpecs : Definitions A → Type 0
  HasSpecs ds = All (λ (d : String × A). equal zero d.1 ≡ false) ds

  spec-found :
      (n : String) (old : Definitions A) (a : A)
      → equal (spec_at equal zero n old) a ≡ true
      → equal zero a ≡ false
      → (in_use n (keys old) ≡ true) × Agree (find_definition n old) (some a)
  unfolding spec_at Agree
  spec-found n old a same full = elim (Option-cases (find_definition n old)) [
    | inl e ↦ absurd (ground (arith, e, same, full))
    | inr (b, e) ↦ (present n old e, rw e (ground (arith, e, same)))
  ]

  new-Within :
      (old new : Definitions A)
      → all_equal equal zero old new ≡ true
      → HasSpecs new
      → Within (keys new) (keys old)
  unfolding all_equal keys
  new-Within old [] h full = tt
  new-Within old ((k, a) ∷ ds) h full =
      ((spec-found k old a (ground arith) full.0).0, new-Within old ds (ground arith) full.1)

  new-Agree :
      (n : String) (old new : Definitions A)
      → all_equal equal zero old new ≡ true
      → HasSpecs new
      → in_use n (keys new) ≡ true
      → Agree (find_definition n old) (find_definition n new)
  unfolding all_equal keys find_definition in_use
  new-Agree n old [] h full there = absurd (ground arith)
  new-Agree n old ((k, a) ∷ ds) h full there = elim (Bool-cases (str_eq k n)) [
    | inl e ↦ rw e (
        subst (λ s. Agree (find_definition s old) (some a)) ((eq_iff k n).0 e)
          (spec-found k old a (ground arith) full.0).1)
    | inr e ↦
        rw e (new-Agree n old ds (ground arith) full.1 (ground (arith, e, eq_iff k n, eq_iff n k)))
  ]

  -- Definitions that are found the same agree at every name, also at the names of old ones that the loop
  -- does not visit.
  same_definitions-Agree :
      (old new : Definitions A) (n : String)
      → IsUnique (keys new)
      → HasSpecs new
      → same_definitions equal zero old new ≡ true
      → Agree (find_definition n old) (find_definition n new)
  unfolding same_definitions Agree
  same_definitions-Agree old new n unique full h =
      let all : all_equal equal zero old new ≡ true = ground arith in
      let lengths : length (keys new) ≡ length (keys old) =
        ground (arith, length-keys old, length-keys new) in
      elim (Bool-cases (in_use n (keys new))) [
        | inl e ↦ new-Agree n old new all full e
        | inr e ↦ elim (Bool-cases (in_use n (keys old))) [
          | inl o ↦ absurd (
              ground (
                arith,
                e,
                Within-full n (keys new) (keys old) unique (new-Within old new all full) lengths o,
              ))
          | inr o ↦ rw (absent n old o, absent n new e) tt
        ]
      ]

  -- The definitions of a revision are Go maps, and each has a spec.
  pub record IsComplete (r : RevisionSpec A) : Type 0 where
    pub workloads : IsUnique (keys r.workload_definitions) × HasSpecs r.workload_definitions
    pub components : IsUnique (keys r.component_definitions) × HasSpecs r.component_definitions
    pub traits : IsUnique (keys r.trait_definitions) × HasSpecs r.trait_definitions
    pub scopes : IsUnique (keys r.scope_definitions) × HasSpecs r.scope_definitions

  -- The same definitions of the name, and the same application.
  pub record AgreesAt (old new : RevisionSpec A) (n : String) : Type 0 where
    pub workload :
        Agree
          (find_definition n old.workload_definitions)
          (find_definition n new.workload_definitions)
    pub component :
        Agree
          (find_definition n old.component_definitions)
          (find_definition n new.component_definitions)
    pub trait :
        Agree (find_definition n old.trait_definitions) (find_definition n new.trait_definitions)
    pub scope :
        Agree (find_definition n old.scope_definitions) (find_definition n new.scope_definitions)
    pub application : equal old.application new.application ≡ true

  deep_equal-AgreesAt :
      (old new : RevisionSpec A) (n : String)
      → IsComplete new
      → deep_equal_revision equal zero old new ≡ true
      → AgreesAt old new n
  unfolding deep_equal_revision
  deep_equal-AgreesAt old new n c h = record {
    workload =
        same_definitions-Agree old.workload_definitions new.workload_definitions n c.workloads.0
          c.workloads.1 (ground arith);
    component =
        same_definitions-Agree old.component_definitions new.component_definitions n c.components.0
          c.components.1 (ground arith);
    trait =
        same_definitions-Agree old.trait_definitions new.trait_definitions n c.traits.0 c.traits.1
          (ground arith);
    scope =
        same_definitions-Agree old.scope_definitions new.scope_definitions n c.scopes.0 c.scopes.1
          (ground arith);
    application = ground arith;
  }

  -- A revision that is found to be the latest one again, with complete definitions: it has the hash of
  -- the latest one, the latest one was read, and the two have the same application and agree on every
  -- name in each of the four maps of definitions, though the code visits the names of the current
  -- revision alone.
  pub current_app_rev-AgreesAt :
      (hash : Option String) (latest : Option (RevisionSpec A)) (current_hash : String)
      (current : RevisionSpec A) (n : String)
      → IsComplete current
      → current_app_rev_is_new equal zero hash latest current_hash current ≡ some false
      → (old : RevisionSpec A) × (latest ≡ some old)
        × (hash ≡ some current_hash)
        × AgreesAt old current n
  unfolding current_app_rev_is_new
  current_app_rev-AgreesAt none latest current_hash current n c h = absurd (ground arith)
  current_app_rev-AgreesAt (some hash) none current_hash current n c h = absurd (ground arith)
  current_app_rev-AgreesAt (some hash) (some old) current_hash current n c h = (
    old,
    refl,
    ap some ((eq_iff hash current_hash).0 (ground arith)),
    deep_equal-AgreesAt old current n c (ground arith),
  )
