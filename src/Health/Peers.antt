-- ===== src/Health/Peers.antt =====
-- The other workloads of a component with versions: a workload is as healthy as the worst of them.
use rudr_x.Base.{
  Bool, List, Option, String, [], false, if◌then◌else◌, ltb, none, some, str_eq, true, ℕ, ◌&&◌,
  ◌++◌, ◌+◌, ◌||◌, ◌∷◌,
}
use rudr_x.Base.Int.{ltb_ℤ, pos, ℤ}
use rudr_x.Base.Sorting.{sort_by}
use rudr_x.Base.Text.{◌+++◌}
use rudr_x.Cluster.Calls.{Result, err, error_text, ok}
use rudr_x.Health.Checkers.{
  get_app_config_name_from_label, get_component_name_from_label, ready_text,
}
use rudr_x.Health.Types.{
  Checked, HealthStatus, Reader, WorkloadHealthCondition, WorkloadReference, condition, panics,
  unhealthy, unknown, unmatched,
}
use rudr_x.Revisions.Numbers.{atoi}

-- The loop over the listed workloads, without the workload itself.
unfoldable pub others : String → List WorkloadReference → List WorkloadReference
others name [] = []
others name (obj ∷ items) =
    if str_eq obj.name name then others name items else record obj { uid = "" } ∷ others name items

unfoldable pub get_versioning_peer_workload_refs :
    Reader → String → WorkloadReference → Result (List WorkloadReference)
get_versioning_peer_workload_refs rd ns wl_ref = elim (rd.get_workload wl_ref ns) [
  | err e ↦ err e
  | ok o ↦
      let comp_name = get_component_name_from_label o.labels in
      let app_name = get_app_config_name_from_label o.labels in
      if str_eq comp_name "" || str_eq app_name ""
      then ok []
      else elim (rd.list_workloads wl_ref ns comp_name app_name) [
        | err e ↦ err e
        | ok items ↦ ok (others o.name items)
      ]
]

-- The name after its last `v`, and the whole name where there is none.
unfoldable pub after_last_v : String → Option String
after_last_v String.[] = none
after_last_v (String.◌∷◌ c s) = elim (after_last_v s) [
  | some rest ↦ some rest
  | none ↦ if str_eq (String.◌∷◌ c String.[]) "v" then some s else none
]

unfoldable pub extract_revision : String → ℤ
unfolding after_last_v
extract_revision name = elim (after_last_v name) [ some number ↦ atoi number | none ↦ atoi name ]

-- `Less` of `PeerHealthConditions`: descending revision numbers.
unfoldable pub newer : WorkloadHealthCondition → WorkloadHealthCondition → Bool
unfolding extract_revision
newer a b =
    ltb_ℤ (extract_revision b.target_workload.name) (extract_revision a.target_workload.name)

unfoldable pub is_unhealthy : HealthStatus → Bool
is_unhealthy unhealthy = true
is_unhealthy _ = false

unfoldable pub any_unhealthy : List WorkloadHealthCondition → Bool
unfolding is_unhealthy
any_unhealthy [] = false
any_unhealthy (c ∷ cs) = is_unhealthy c.health_status || any_unhealthy cs

unfoldable pub join_statuses : String → List WorkloadHealthCondition → String
join_statuses text [] = text
join_statuses text (c ∷ cs) =
    join_statuses (text +++ " " +++ c.target_workload.name +++ ":" +++ c.workload_status) cs

-- The diagnoses after the first; all but the second are left out where nothing is ready or required.
unfoldable pub join_diagnoses : ℕ → String → List WorkloadHealthCondition → String
join_diagnoses i text [] = text
join_diagnoses i text (c ∷ cs) =
    join_diagnoses (i + 1)
      (if ltb 0 i && str_eq c.diagnosis (ready_text (pos 0) (pos 0))
        then text
        else text +++ " " +++ c.target_workload.name +++ ":" +++ c.diagnosis)
      cs

unfoldable pub reformatted :
    List WorkloadHealthCondition → WorkloadHealthCondition → WorkloadHealthCondition
reformatted [] basic = basic
reformatted (first ∷ rest) basic = elim basic.health_status [
  | unknown ↦ record basic {
    workload_status =
        join_statuses (first.target_workload.name +++ ":" +++ first.workload_status) rest;
  }
  | _ ↦ record basic {
    diagnosis = join_diagnoses 0 (first.target_workload.name +++ ":" +++ first.diagnosis) rest;
  }
]

unfoldable pub merge_peer_workloads_conditions :
    List WorkloadHealthCondition → WorkloadHealthCondition → WorkloadHealthCondition
unfolding newer any_unhealthy reformatted sort_by
merge_peer_workloads_conditions [] basic = basic
merge_peer_workloads_conditions (p ∷ ps) basic =
    let peer_hcs = sort_by newer ((p ∷ ps) ++ (basic ∷ [])) in
    reformatted peer_hcs
      (if any_unhealthy peer_hcs then record basic { health_status = unhealthy } else basic)

-- The conditions of the peers that the check is for.
unfoldable pub peer_conditions :
    (WorkloadReference → Checked) → List WorkloadReference → Option (List WorkloadHealthCondition)
peer_conditions fn [] = some []
peer_conditions fn (ref ∷ refs) = elim (fn ref) [
  | panics ↦ none
  | unmatched ↦ peer_conditions fn refs
  | condition c ↦ elim (peer_conditions fn refs) [ none ↦ none | some cs ↦ some (c ∷ cs) ]
]

-- `WorkloadHealthCheckFn.Check`.
unfoldable pub check : Reader → String → (WorkloadReference → Checked) → WorkloadReference → Checked
unfolding get_versioning_peer_workload_refs peer_conditions merge_peer_workloads_conditions
check rd ns fn tr = elim (fn tr) [
  | unmatched ↦ unmatched
  | panics ↦ panics
  | condition r ↦ elim (get_versioning_peer_workload_refs rd ns tr) [
    | err e ↦ condition (record r {
      health_status = unhealthy;
      diagnosis =
          r.diagnosis
          +++ " "
          +++ "error occurs when get versioning peer workloads refs"
          +++ ":"
          +++ error_text e;
    })
    | ok peer_refs ↦ elim (peer_conditions fn peer_refs) [
      | none ↦ panics
      | some peers ↦ condition (merge_peer_workloads_conditions peers r)
    ]
  ]
]

-- The first checker that is for the workload.
unfoldable pub first_of : Checked → Checked → Checked
first_of unmatched next = next
first_of c next = c
