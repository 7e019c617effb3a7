-- ===== src/Rollout/Status/Conditions.antt =====
-- What `SetRolloutCondition` promises of the list of conditions.

use rudr_x.Base.{
  Bool, List, Option, [], arith, eq_iff, false, if◌then◌else◌, none, refl, some, str_eq, true, ◌&&◌,
  ◌++◌, ◌||◌, ◌∷◌, ◌≡◌,
}
use rudr_x.Rollout.Status.{conditions_set, same_condition, set_loop, set_rollout_condition}
use rudr_x.Rollout.Types.{Condition, ConditionType, RolloutStatus}

-- The condition of a type: the first one in the list.
pub find_condition : ConditionType → List Condition → Option Condition
find_condition t [] = none
find_condition t (c ∷ cs) = if str_eq c.type t then some c else find_condition t cs

-- Is there a condition of the type?
has_type : ConditionType → List Condition → Bool
has_type t [] = false
has_type t (c ∷ cs) = if str_eq c.type t then true else has_type t cs

same_condition-eq : (a b : Condition) → same_condition a b ≡ true → a ≡ b
unfolding same_condition
same_condition-eq a b h = ground (
  arith,
  eq_iff a.type b.type,
  eq_iff a.status b.status,
  eq_iff a.reason b.reason,
  eq_iff a.message b.message,
)

set_loop-exists :
    (new : Condition) (ex : Bool) (cs : List Condition)
    → (set_loop new ex cs).1 ≡ ex || has_type new.type cs
unfolding set_loop has_type
set_loop-exists new ex [] = ground arith
set_loop-exists new ex (c ∷ cs) =
    ground (arith, set_loop-exists new ex cs, set_loop-exists new true cs)

set_loop-find :
    (new : Condition) (ex : Bool) (t : ConditionType) (cs : List Condition)
    → find_condition t (set_loop new ex cs).0
      ≡ (if str_eq new.type t && has_type t cs then some new else find_condition t cs)
unfolding set_loop find_condition has_type
set_loop-find new ex t [] = ground arith
set_loop-find new ex t (c ∷ cs) = ground (
  arith,
  set_loop-find new ex t cs,
  set_loop-find new true t cs,
  eq_iff c.type new.type,
  eq_iff c.type t,
  eq_iff new.type t,
  same_condition-eq c new,
)

find-append :
    (t : ConditionType) (cs : List Condition) (new : Condition)
    → find_condition t (cs ++ new ∷ []) ≡ (
        if has_type t cs then find_condition t cs else if str_eq new.type t then some new else none)
unfolding find_condition has_type
find-append t [] new = refl
find-append t (c ∷ cs) new = ground (arith, find-append t cs new)

find-none :
    (t : ConditionType) (cs : List Condition) → has_type t cs ≡ false → find_condition t cs ≡ none
unfolding find_condition has_type
find-none t [] h = refl
find-none t (c ∷ cs) h = ground (arith, find-none t cs)

set_loop-types :
    (new : Condition) (ex : Bool) (t : ConditionType) (cs : List Condition)
    → has_type t (set_loop new ex cs).0 ≡ has_type t cs
unfolding set_loop has_type
set_loop-types new ex t [] = refl
set_loop-types new ex t (c ∷ cs) =
    ground (arith, set_loop-types new ex t cs, set_loop-types new true t cs, eq_iff c.type new.type)

-- After `SetRolloutCondition` the condition of the new one's type is the new one, and the condition
-- of every other type is the one that was there before.
pub set_rollout_condition-find :
    (new : Condition) (r : RolloutStatus) (t : ConditionType)
    → find_condition t (set_rollout_condition new r).conditions
      ≡ (if str_eq new.type t then some new else find_condition t r.conditions)
unfolding set_rollout_condition conditions_set
set_rollout_condition-find new r t = ground (
  arith,
  eq_iff new.type t,
  set_loop-exists new false r.conditions,
  set_loop-find new false t r.conditions,
  find-append t (set_loop new false r.conditions).0 new,
  set_loop-types new false t r.conditions,
  find-none t r.conditions,
)

-- No two conditions have one type.
abbrev pub IsUnique : List Condition → Type 0
IsUnique [] = Unit
IsUnique (c ∷ cs) = (find_condition c.type cs ≡ none) × IsUnique cs

find-none_iff :
    (t : ConditionType) (cs : List Condition) → find_condition t cs ≡ none → has_type t cs ≡ false
unfolding find_condition has_type
find-none_iff t [] h = refl
find-none_iff t (c ∷ cs) h = ground (arith, find-none_iff t cs)

set_loop-IsUnique :
    (new : Condition) (ex : Bool) (cs : List Condition)
    → IsUnique cs
    → IsUnique (set_loop new ex cs).0
unfolding set_loop
set_loop-IsUnique new ex [] h = tt
set_loop-IsUnique new ex (c ∷ cs) h = ground (
  arith,
  set_loop-IsUnique new ex cs h.1,
  set_loop-IsUnique new true cs h.1,
  find-none_iff c.type cs,
  set_loop-types new true c.type cs,
  set_loop-types new ex c.type cs,
  eq_iff c.type new.type,
  find-none c.type (set_loop new ex cs).0,
  find-none c.type (set_loop new true cs).0,
)

append-IsUnique :
    (cs : List Condition) (new : Condition)
    → IsUnique cs
    → has_type new.type cs ≡ false
    → IsUnique (cs ++ new ∷ [])
unfolding has_type find_condition
append-IsUnique [] new h k = (refl, tt)
append-IsUnique (c ∷ cs) new h k = ground (
  arith,
  append-IsUnique cs new h.1,
  find-append c.type cs new,
  eq_iff c.type new.type,
  eq_iff new.type c.type,
  find-none_iff c.type cs,
)

-- A list that holds one condition a type at most still does after `SetRolloutCondition`.
pub set_rollout_condition-IsUnique :
    (new : Condition) (r : RolloutStatus)
    → IsUnique r.conditions
    → IsUnique (set_rollout_condition new r).conditions
unfolding set_rollout_condition conditions_set
set_rollout_condition-IsUnique new r h = ground (
  arith,
  set_loop-exists new false r.conditions,
  set_loop-IsUnique new false r.conditions h,
  append-IsUnique (set_loop new false r.conditions).0 new,
  set_loop-types new false new.type r.conditions,
)
