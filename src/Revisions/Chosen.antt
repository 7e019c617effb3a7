-- ===== src/Revisions/Chosen.antt =====
-- Which revisions a clean-up deletes: the oldest of those that are not in use, as many as are over the
-- limit.
use rudr_x.Base.{
  All, Bool-cases, List, String, [], arith, eq_iff, false, if◌then◌else◌, inl, inr, length, refl,
  str_eq, suc, take, true, zero, ℕ, ◌+◌, ◌-◌, ◌∙◌, ◌∷◌, ◌≡◌, ◌≢◌, ◌≤◌,
}
use rudr_x.Base.Int.{pos, pos_part, ◌-ℤ◌, ◌≤ℤ◌}
use rudr_x.Base.Sorting.{insert_by, sort_by}
use rudr_x.Revisions.{AppHandler, in_use, less, sorted_revision}
use rudr_x.Revisions.Numbers.{extract_revision_num}

-- The revisions that are not in use.
unfoldable pub free : List String → List String → List String
free used [] = []
free used (n ∷ ns) = if in_use n used then free used ns else n ∷ free used ns

-- No name stands twice.
unfoldable pub IsUnique : List String → Type 0
IsUnique [] = Unit
IsUnique (n ∷ ns) = (in_use n ns ≡ false) × IsUnique ns

-- How many revisions are over the limit.
unfoldable pub surplus : AppHandler → List String → List String → ℕ
surplus h items used = pos_part (pos (length items) -ℤ h.app_revision_limit -ℤ pos (length used))

unfoldable pub chosen : AppHandler → List String → List String → List String
chosen h items used = take (surplus h items used) (free used (sorted_revision items))

length-free-insert :
    (used ns : List String) (n : String)
    → length (free used (insert_by less n ns)) ≡ length (free used (n ∷ ns))
unfolding free insert_by
length-free-insert used [] n = refl
length-free-insert used (m ∷ ms) n = ground (arith, length-free-insert used ms n)

length-free-sorted :
    (used ns : List String) → length (free used (sorted_revision ns)) ≡ length (free used ns)
unfolding free sorted_revision sort_by
length-free-sorted used [] = refl
length-free-sorted used (n ∷ ns) =
    length-free-insert used (sorted_revision ns) n ∙ ground (arith, length-free-sorted used ns)

-- One more name in use takes at most one revision away.
free-unused :
    (u : String) (used ns : List String)
    → in_use u ns ≡ false
    → length (free (u ∷ used) ns) ≡ length (free used ns)
unfolding free in_use
free-unused u used [] h = refl
free-unused u used (n ∷ ns) h = ground (arith, eq_iff u n, eq_iff n u, free-unused u used ns)

free-use :
    (u : String) (used ns : List String)
    → IsUnique ns
    → length (free used ns) ≤ length (free (u ∷ used) ns) + 1
unfolding free in_use IsUnique
free-use u used [] h = omega arith
free-use u used (n ∷ ns) h =
    ground (arith, eq_iff n u, free-use u used ns h.1, free-unused u used ns)

length-free_nil : (ns : List String) → length (free [] ns) ≡ length ns
unfolding free in_use
length-free_nil [] = refl
length-free_nil (n ∷ ns) = omega (arith, length-free_nil ns)

length-free :
    (used ns : List String) → IsUnique ns → length ns ≤ length (free used ns) + length used
unfolding free in_use
length-free [] ns h = omega (arith, length-free_nil ns)
length-free (u ∷ used) ns h = omega (arith, length-free used ns h, free-use u used ns h)

length-take : (k : ℕ) (ns : List String) → k ≤ length ns → length (take k ns) ≡ k
length-take zero ns h = refl
length-take (suc k) [] h = absurd (omega arith)
length-take (suc k) (n ∷ ns) h = omega (arith, length-take k ns)

surplus_lem :
    (h : AppHandler) (items used : List String) {limit : ℕ}
    → h.app_revision_limit ≡ pos limit
    → surplus h items used ≡ length items - (limit + length used)
unfolding surplus ◌-ℤ◌
surplus_lem h items used limited = rw limited (ground arith)

-- With no name twice among the revisions, all that are over the limit and its exceptions are chosen.
pub length-chosen :
    (h : AppHandler) (items used : List String) {limit : ℕ}
    → h.app_revision_limit ≡ pos limit
    → IsUnique items
    → length (chosen h items used) ≡ length items - (limit + length used)
unfolding chosen
length-chosen h items used limited unique =
    length-take (surplus h items used) (free used (sorted_revision items)) (
      omega (
        arith,
        surplus_lem h items used limited,
        length-free-sorted used items,
        length-free used items unique,
      ))
    ∙ surplus_lem h items used limited

-- Every revision of the list has the property.
free-All : (P : String → Type 0) (used ns : List String) → All P ns → All P (free used ns)
unfolding free
free-All P used [] h = tt
free-All P used (n ∷ ns) h = elim (Bool-cases (in_use n used)) [
  | inl used_one ↦ rw used_one (free-All P used ns h.1)
  | inr unused ↦ rw unused (h.0, free-All P used ns h.1)
]

free-unused-All : (used ns : List String) → All (λ n. in_use n used ≡ false) (free used ns)
unfolding free
free-unused-All used [] = tt
free-unused-All used (n ∷ ns) = elim (Bool-cases (in_use n used)) [
  | inl used_one ↦ rw used_one (free-unused-All used ns)
  | inr unused ↦ rw unused (unused, free-unused-All used ns)
]

take-All : (P : String → Type 0) (k : ℕ) (ns : List String) → All P ns → All P (take k ns)
take-All P zero ns h = tt
take-All P (suc k) [] h = tt
take-All P (suc k) (n ∷ ns) h = (h.0, take-All P k ns h.1)

-- No revision that is in use is chosen.
pub chosen-unused :
    (h : AppHandler) (items used : List String)
    → All (λ n. in_use n used ≡ false) (chosen h items used)
unfolding chosen
chosen-unused h items used =
    take-All (λ n. in_use n used ≡ false) (surplus h items used) (free used (sorted_revision items))
      (free-unused-All used (sorted_revision items))

abbrev pub Older : String → String → Type 0
Older n m = extract_revision_num n ≤ℤ extract_revision_num m

-- Every revision is older than those after it, or as old.
abbrev IsSorted : List String → Type 0
IsSorted [] = Unit
IsSorted (n ∷ ns) = All (Older n) ns × IsSorted ns

insert-All :
    (P : String → Type 0) (n : String) (ns : List String)
    → P n
    → All P ns
    → All P (insert_by less n ns)
unfolding insert_by
insert-All P n [] p h = (p, tt)
insert-All P n (m ∷ ms) p h = elim (Bool-cases (less m n)) [
  | inl lt ↦ rw lt (h.0, insert-All P n ms p h.1)
  | inr ge ↦ rw ge (p, h)
]

All-mono :
    {P Q : String → Type 0} (ns : List String) → ((n : String) → P n → Q n) → All P ns → All Q ns
All-mono [] imp h = tt
All-mono (n ∷ ns) imp h = (imp n h.0, All-mono ns imp h.1)

less→Older : (m n : String) → less m n ≡ true → Older m n
unfolding less
less→Older m n h = ground arith

not_less→Older : (m n : String) → less m n ≡ false → Older n m
unfolding less
not_less→Older m n h = ground arith

Older-trans : (a b c : String) → Older a b → Older b c → Older a c
Older-trans a b c h k = omega arith

insert-IsSorted : (n : String) (ns : List String) → IsSorted ns → IsSorted (insert_by less n ns)
unfolding insert_by less
insert-IsSorted n [] h = (tt, tt)
insert-IsSorted n (m ∷ ms) h = elim (Bool-cases (less m n)) [
  | inl lt ↦ rw lt (insert-All (Older m) n ms (less→Older m n lt) h.0, insert-IsSorted n ms h.1)
  | inr ge ↦ rw ge (
    (not_less→Older m n ge, All-mono ms (λ k le. Older-trans n m k (not_less→Older m n ge) le) h.0),
    h,
  )
]

sorted_revision-IsSorted : (ns : List String) → IsSorted (sorted_revision ns)
unfolding sorted_revision sort_by
sorted_revision-IsSorted [] = tt
sorted_revision-IsSorted (n ∷ ns) =
    insert-IsSorted n (sorted_revision ns) (sorted_revision-IsSorted ns)

free-IsSorted : (used ns : List String) → IsSorted ns → IsSorted (free used ns)
unfolding free
free-IsSorted used [] h = tt
free-IsSorted used (n ∷ ns) h = elim (Bool-cases (in_use n used)) [
  | inl used_one ↦ rw used_one (free-IsSorted used ns h.1)
  | inr unused ↦ rw unused (free-All (Older n) used ns h.0, free-IsSorted used ns h.1)
]

All-at : (P : String → Type 0) (m : String) (ns : List String) → All P ns → in_use m ns ≡ true → P m
unfolding in_use
All-at P m [] h k = cc
All-at P m (n ∷ ns) h k = elim (Bool-cases (str_eq m n)) [
  | inl same ↦ rw ((eq_iff m n).0 same) h.0
  | inr other ↦ All-at P m ns h.1 (rw other at k)
]

take-Older :
    (k : ℕ) (m : String) (ns : List String)
    → IsSorted ns
    → in_use m ns ≡ true
    → in_use m (take k ns) ≡ false
    → All (λ n. Older n m) (take k ns)
unfolding in_use
take-Older zero m ns sorted here out = tt
take-Older (suc k) m [] sorted here out = tt
take-Older (suc k) m (n ∷ ns) sorted here out =
    let others : in_use m ns ≡ true = ground arith in
    (All-at (λ x. Older n x) m ns sorted.0 others, take-Older k m ns sorted.1 others (ground arith))

in_use-insert :
    (m n : String) (ns : List String) → in_use m (insert_by less n ns) ≡ in_use m (n ∷ ns)
unfolding in_use insert_by
in_use-insert m n [] = refl
in_use-insert m n (x ∷ ns) = ground (arith, in_use-insert m n ns)

in_use-sorted : (m : String) (ns : List String) → in_use m (sorted_revision ns) ≡ in_use m ns
unfolding in_use sorted_revision sort_by
in_use-sorted m [] = refl
in_use-sorted m (n ∷ ns) =
    in_use-insert m n (sorted_revision ns) ∙ ground (arith, in_use-sorted m ns)

-- A revision that is not on the list is not chosen.
listed-apart : (m : String) (ns : List String) → in_use m ns ≡ false → All (λ n. m ≢ n) ns
unfolding in_use
listed-apart m [] h = tt
listed-apart m (n ∷ ns) h =
    (λ e. ground (arith, eq_iff m n, e, h), listed-apart m ns (ground arith))

pub chosen-apart :
    (h : AppHandler) (items used : List String) (m : String)
    → in_use m items ≡ false
    → All (λ n. m ≢ n) (chosen h items used)
unfolding chosen
chosen-apart h items used m out =
    take-All (λ n. m ≢ n) (surplus h items used) (free used (sorted_revision items))
      (free-All (λ n. m ≢ n) used (sorted_revision items)
        (listed-apart m (sorted_revision items) (in_use-sorted m items ∙ out)))

in_use-free :
    (m : String) (used ns : List String)
    → in_use m used ≡ false
    → in_use m (free used ns) ≡ in_use m ns
unfolding in_use free
in_use-free m used [] h = refl
in_use-free m used (n ∷ ns) h = ground (arith, eq_iff m n, in_use-free m used ns)

-- A revision that is neither in use nor chosen is as young as every chosen one, or younger.
pub chosen-Older :
    (h : AppHandler) (items used : List String) (m : String)
    → in_use m items ≡ true
    → in_use m used ≡ false
    → in_use m (chosen h items used) ≡ false
    → All (λ n. Older n m) (chosen h items used)
unfolding chosen
chosen-Older h items used m here unused out =
    take-Older (surplus h items used) m (free used (sorted_revision items))
      (free-IsSorted used (sorted_revision items) (sorted_revision-IsSorted items))
      (in_use-free m used (sorted_revision items) unused ∙ in_use-sorted m items ∙ here) out
