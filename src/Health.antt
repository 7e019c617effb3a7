-- ===== src/Health.antt =====
-- pkg/controller/core.oam.dev/v1alpha2/core/scopes/healthscope: the health of a scope. Health/Types has
-- the conditions and what is read from the API server, Health/Checkers the checks of healthscope.go and
-- standard.go, Health/Peers the workloads of a component with versions, and this file
-- `GetScopeHealthStatus` of healthscope_controller.go. The checks run concurrently; they only read. Log
-- lines, events and time-outs are left out.
pub mod Types
pub mod Checkers
pub mod Peers
pub mod Arrivals
pub mod Merged
use rudr_x.Base.{
  List, Option, String, [], if◌then◌else◌, length, ltb, none, some, ℕ, ◌+◌, ◌||◌, ◌∷◌,
}
use rudr_x.Health.Checkers.{
  check_containerized_workload_health, check_daemonset_health, check_deployment_health,
  check_pod_spec_workload_health, check_statefulset_health, check_unknown_workload,
}
use rudr_x.Health.Peers.{check, first_of}
use rudr_x.Health.Types.{
  Checked, HealthStatus, Reader, WorkloadHealthCondition, WorkloadReference, condition, healthy,
  other_status, panics, unhealthy, unknown, unmatched,
}
mod Witnesses

-- The built-in checkers in their order; `CheckByHealthCheckTrait`, which comes first, returns nil.
unfoldable pub check_workload : Reader → String → WorkloadReference → Checked
check_workload rd ns ref = first_of (check rd ns (check_pod_spec_workload_health rd ns) ref) (
    first_of (check rd ns (check_containerized_workload_health rd ns) ref) (
      first_of (check rd ns (check_deployment_health rd ns) ref) (
        first_of (check rd ns (check_statefulset_health rd ns) ref) (
          first_of (check rd ns (check_daemonset_health rd ns) ref)
            (check rd ns (check_unknown_workload rd ns) ref)))))

-- What the goroutines send; a panic in one of them ends the program.
unfoldable pub check_all :
    Reader → String → List WorkloadReference → Option (List WorkloadHealthCondition)
unfolding check_workload
check_all rd ns [] = some []
check_all rd ns (ref ∷ refs) = elim (check_workload rd ns ref) [
  | unmatched ↦ none
  | panics ↦ none
  | condition c ↦ elim (check_all rd ns refs) [ none ↦ none | some cs ↦ some (c ∷ cs) ]
]

pub record ScopeHealthCondition : Type 0 where
  pub health_status : HealthStatus
  pub total : ℕ
  pub healthy_workloads : ℕ
  pub unhealthy_workloads : ℕ
  pub unknown_workloads : ℕ

-- The counters of the loop that receives the conditions.
pub record Counts : Type 0 where
  pub healthy_count : ℕ
  pub unhealthy_count : ℕ
  pub unknown_count : ℕ

unfoldable pub counted : HealthStatus → Counts → Counts
counted healthy n = record n { healthy_count = n.healthy_count + 1 }
counted unhealthy n = record n { unhealthy_count = n.unhealthy_count + 1 }
counted unknown n = record n { unknown_count = n.unknown_count + 1 }
counted (other_status s) n = record n { unknown_count = n.unknown_count + 1 }

unfoldable pub receive : List WorkloadHealthCondition → Counts → Counts
unfolding counted
receive [] n = n
receive (c ∷ cs) n = receive cs (counted c.health_status n)

-- The condition of a scope with these workloads, from the conditions in the order in which they arrive,
-- and the list of these.
unfoldable pub get_scope_health_status :
    List WorkloadReference
    → List WorkloadHealthCondition
    → ScopeHealthCondition × List WorkloadHealthCondition
unfolding receive
get_scope_health_status [] arrivals = (
  record {
    health_status = healthy;
    total = 0;
    healthy_workloads = 0;
    unhealthy_workloads = 0;
    unknown_workloads = 0;
  },
  [],
)
get_scope_health_status (ref ∷ refs) arrivals =
    let n =
      receive arrivals (record { healthy_count = 0; unhealthy_count = 0; unknown_count = 0 }) in
    (
      record {
        health_status =
            if ltb 0 n.unhealthy_count || ltb 0 n.unknown_count then unhealthy else healthy;
        total = length (ref ∷ refs);
        healthy_workloads = n.healthy_count;
        unhealthy_workloads = n.unhealthy_count;
        unknown_workloads = n.unknown_count;
      },
      arrivals,
    )
