-- ===== src/Health/Arrivals.antt =====
-- The conditions of a scope's workloads arrive in any order: the scope's condition does not depend on
-- it, counts every workload once, and is healthy just if every workload is.
use rudr_x.Base.{
  All, List, Option-cases, String, [], ap, arith, if◌then◌else◌, inl, inr, length, ltb, refl, some,
  ℕ, ◌+◌, ◌||◌, ◌↔◌, ◌∙◌, ◌∷◌, ◌≡◌,
}
use rudr_x.Health.{Counts, check_all, counted, get_scope_health_status, receive}
use rudr_x.Health.Checkers.{is_healthy}
use rudr_x.Health.Types.{
  HealthStatus, Reader, WorkloadHealthCondition, WorkloadReference, healthy, unhealthy,
}

-- `x` somewhere among `ys`.
pub data Inserted {A : Type 0} (x : A) : List A → List A → Type 0 where
  here : (ys : List A) → Inserted x ys (x ∷ ys)
  later : (y : A) {ys zs : List A} → Inserted x ys zs → Inserted x (y ∷ ys) (y ∷ zs)

-- What was sent, by a goroutine for each element, and an order in which it is received.
pub data Received {A : Type 0} : List A → List A → Type 0 where
  closed : Received [] []
  sent : (x : A) {xs ys zs : List A} → Received xs ys → Inserted x ys zs → Received (x ∷ xs) zs

counted_comm : (a b : HealthStatus) (n : Counts) → counted a (counted b n) ≡ counted b (counted a n)
unfolding counted
counted_comm a b n = ground arith

receive-Inserted :
    {c : WorkloadHealthCondition} {cs ds : List WorkloadHealthCondition}
    → Inserted c cs ds
    → (n : Counts) → receive ds n ≡ receive (c ∷ cs) n
unfolding receive
receive-Inserted (here cs) n = refl
receive-Inserted {c} (later d {ys = cs} i) n =
    receive-Inserted i (counted d.health_status n)
    ∙ ap (receive cs) (counted_comm c.health_status d.health_status n)

receive-received :
    {cs ds : List WorkloadHealthCondition}
    → Received cs ds
    → (n : Counts) → receive ds n ≡ receive cs n
unfolding receive
receive-received closed n = refl
receive-received (sent c r i) n =
    receive-Inserted i n ∙ receive-received r (counted c.health_status n)

-- How many are not healthy.
sick : List WorkloadHealthCondition → ℕ
sick [] = 0
sick (c ∷ cs) = (if is_healthy c.health_status then 0 else 1) + sick cs

abbrev sum_of : Counts → ℕ
sum_of n = n.healthy_count + n.unhealthy_count + n.unknown_count

counted_sum : (a : HealthStatus) (n : Counts) → sum_of (counted a n) ≡ sum_of n + 1
unfolding counted
counted_sum a n = ground arith

counted_sick :
    (a : HealthStatus) (n : Counts)
    → (counted a n).unhealthy_count + (counted a n).unknown_count
      ≡ n.unhealthy_count + n.unknown_count + (if is_healthy a then 0 else 1)
unfolding counted is_healthy
counted_sick a n = ground arith

receive_sum :
    (cs : List WorkloadHealthCondition) (n : Counts) → sum_of (receive cs n) ≡ sum_of n + length cs
unfolding receive
receive_sum [] n = omega arith
receive_sum (c ∷ cs) n =
    receive_sum cs (counted c.health_status n) ∙ omega (arith, counted_sum c.health_status n)

receive-sick :
    (cs : List WorkloadHealthCondition) (n : Counts)
    → (receive cs n).unhealthy_count + (receive cs n).unknown_count
      ≡ n.unhealthy_count + n.unknown_count + sick cs
unfolding receive sick
receive-sick [] n = omega arith
receive-sick (c ∷ cs) n =
    receive-sick cs (counted c.health_status n) ∙ omega (arith, counted_sick c.health_status n)

abbrev pub IsHealthy : WorkloadHealthCondition → Type 0
IsHealthy c = c.health_status ≡ healthy

sick→healthy : (cs : List WorkloadHealthCondition) → sick cs ≡ 0 → All IsHealthy cs
unfolding sick is_healthy
sick→healthy [] h = tt
sick→healthy (c ∷ cs) h = (ground arith, sick→healthy cs (ground arith))

healthy→sick : (cs : List WorkloadHealthCondition) → All IsHealthy cs → sick cs ≡ 0
unfolding sick is_healthy
healthy→sick [] h = refl
healthy→sick (c ∷ cs) h = rw h.0 (omega (arith, healthy→sick cs h.1))

length-check_all :
    (rd : Reader) (ns : String) (refs : List WorkloadReference)
    {results : List WorkloadHealthCondition}
    → check_all rd ns refs ≡ some results
    → length results ≡ length refs
unfolding check_all
length-check_all rd ns [] {results} h = ground arith
length-check_all rd ns (ref ∷ refs) {results} h = elim (Option-cases (check_all rd ns refs)) [
  | inl e ↦ ground arith
  | inr (cs, e) ↦ ground (arith, length-check_all rd ns refs e)
]

abbrev zero_counts : Counts
zero_counts = record { healthy_count = 0; unhealthy_count = 0; unknown_count = 0 }

nothing-sent :
    (rd : Reader) (ns : String) (results : List WorkloadHealthCondition)
    → check_all rd ns [] ≡ some results
    → All IsHealthy results
unfolding check_all
nothing-sent rd ns [] h = tt
nothing-sent rd ns (c ∷ cs) h = cc

abbrev scope_status : Counts → HealthStatus
scope_status n = if ltb 0 n.unhealthy_count || ltb 0 n.unknown_count then unhealthy else healthy

healthy→none : (n : Counts) → scope_status n ≡ healthy → n.unhealthy_count + n.unknown_count ≡ 0
healthy→none n h = ground arith

none→healthy : (n : Counts) → n.unhealthy_count + n.unknown_count ≡ 0 → scope_status n ≡ healthy
none→healthy n h = ground arith

-- The condition of a scope whose workloads have these results, which arrive in any order: it counts
-- every workload once, as healthy, unhealthy or unknown; it is healthy just if the result of every
-- workload is; and it is the same in every order.
pub scope_health-received :
    (rd : Reader) (ns : String) (refs : List WorkloadReference)
    {results arrivals : List WorkloadHealthCondition}
    → check_all rd ns refs ≡ some results
    → Received results arrivals
    → (let s = (get_scope_health_status refs arrivals).0 in
        (s.total ≡ length refs)
        × (s.healthy_workloads + s.unhealthy_workloads + s.unknown_workloads ≡ s.total)
        × ((s.health_status ≡ healthy) ↔ All IsHealthy results)
        × (s ≡ (get_scope_health_status refs results).0))
unfolding get_scope_health_status
scope_health-received rd ns [] {results} {arrivals} h r =
    (refl, refl, ((λ e. nothing-sent rd ns results h), (λ all. refl)), refl)
scope_health-received rd ns (ref ∷ refs) {results} {arrivals} h r =
    let same = receive-received r zero_counts in
    let sum = receive_sum results zero_counts in
    let sick_sum = receive-sick results zero_counts in
    let n = receive results zero_counts in
    let known = length-check_all rd ns (ref ∷ refs) h in
    rw same (
      refl,
      omega (arith, sum, known),
      (
        (λ e. sick→healthy results (omega (arith, sick_sum, healthy→none n e))),
        (λ all. none→healthy n (omega (arith, sick_sum, healthy→sick results all))),
      ),
      refl,
    )
