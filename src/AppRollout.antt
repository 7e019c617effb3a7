-- ===== src/AppRollout.antt =====
-- pkg/controller/core.oam.dev/v1alpha2/applicationrollout: the controller of AppRollout objects, which
-- brings the manifests of two revisions to the cluster and runs the rollout plan controller on the
-- workload that they share. Events and log lines are left out.
pub mod Types
pub mod Owners
pub mod Changes
pub mod Handler
pub mod Templates
pub mod Landing
pub mod Covered
pub mod Sound
pub mod Steps
pub mod Safe
pub mod System
pub mod Rest
pub mod Deleted
mod Witnesses
use rudr_x.Base.{
  Bool, Option, String, false, if◌then◌else◌, inl, inr, none, not, some, str_eq, true, ℕ, ◌⊎◌,
}
use rudr_x.AppRollout.Changes.{
  RoundRevisions, handle_rolling_terminated, is_ended, marked, round_revisions, with_event,
}
use rudr_x.AppRollout.Handler.{Prepared, determine_rollout_component, prepare_rollout}
use rudr_x.AppRollout.Templates.{
  fetch_source_and_target_workload, finalize_rolling_succeeded, template_source_manifest,
  template_target_manifest,
}
use rudr_x.AppRollout.Types.{AppRollout, Assembler, RolloutApi, Round, called, ◌>>=◌, ◌>>◌}
use rudr_x.Apply.{Library}
use rudr_x.Cluster.Calls.{
  Call, Result, err, fails, is_not_found, ok, on_error, pure, retry_on_conflict, returned, wrapping,
}
use rudr_x.Cluster.References.{Manifest}
use rudr_x.Rollout.Action.{Outcome, WorkloadController, done, panic}
use rudr_x.Rollout.Plan.{initialized_status, reconcile}
use rudr_x.Rollout.Selection.{ControllerKind, Workload}
use rudr_x.Rollout.Status.{reset_status}
use rudr_x.Rollout.Types.{
  RollingState, RolloutPlan, RolloutStatus, Runtime, app_located_event, locating_target_app_state,
  other_rolling_state, rolling_deleted_event, rollout_abandoning_state, rollout_succeed_state,
}
use rudr_x.Rollout.Webhook.{Http}

abbrev pub app_rollout_finalizer : String
app_rollout_finalizer = "finalizers.approllout.oam.dev"

-- A status without a state is reset.
unfoldable pub started_status : RolloutStatus → RolloutStatus
started_status r = elim r.rolling_state [
  | other_rolling_state s ↦ if str_eq s "" then reset_status r else r
  | _ ↦ r
]

unfoldable pub started : AppRollout → AppRollout
unfolding started_status
started a = record a { rollout_status = started_status a.rollout_status }

unfoldable pub is_locating : RollingState → Bool
is_locating locating_target_app_state = true
is_locating _ = false

unfoldable pub is_abandoning : RollingState → Bool
is_abandoning rollout_abandoning_state = true
is_abandoning _ = false

unfoldable pub is_succeeded : RollingState → Bool
is_succeeded rollout_succeed_state = true
is_succeeded _ = false

-- The object with the status of the plan controller; while an earlier rollout is abandoned, the last
-- revisions stay.
unfoldable pub with_status : RolloutStatus → AppRollout → AppRollout
unfolding is_abandoning marked
with_status r a =
    let a' = record a { rollout_status = r } in
    if is_abandoning r.rolling_state then a' else marked a'

-- The workload controllers that the plan controller makes, by the plan, the clock and the workloads.
abbrev pub Controllers : Type 0 → Type 0
Controllers W = RolloutPlan → ℕ → Workload → Option Workload → ControllerKind → WorkloadController W

module _ {W Patch : Type 0} (rt : Runtime) (http : Http W) (controllers : Controllers W)
    (lib : Library Patch) (api : RolloutApi W Patch) (asm : Assembler) (now : ℕ) where
  unfoldable pub workload_of : Manifest → Workload
  workload_of m = record {
    group = api.group_of m.api_version;
    kind = m.kind;
    namespace = m.namespace;
    name = m.name;
  }

  unfoldable pub source_workload_of : Option Manifest → Option Workload
  unfolding workload_of
  source_workload_of none = none
  source_workload_of (some m) = some (workload_of m)

  -- `NewRolloutPlanController` and its `Reconcile`.
  unfoldable pub reconcile_plan :
      AppRollout → Option Manifest × Manifest → Round W (ℕ × RolloutStatus)
  unfolding workload_of source_workload_of
  reconcile_plan a (source, target) w =
      elim (reconcile rt http (record { name = a.name; namespace = a.namespace }) a.rollout_plan now
        (controllers a.rollout_plan now (workload_of target) (source_workload_of source))
        (workload_of target) (source_workload_of source) (initialized_status a.rollout_status) w) [
          | panic ↦ panic
          | done (seconds, r, w') ↦ done (ok (seconds, r), w')
        ]

  -- The end of a round that runs the plan controller.
  unfoldable pub finish :
      String → Prepared → AppRollout → ℕ × RolloutStatus → Round W (ℕ × AppRollout)
  unfolding is_succeeded with_status
  finish c p a (seconds, r) =
      let result = called (pure (seconds, with_status r a)) in
      if is_succeeded r.rolling_state
      then (finalize_rolling_succeeded lib api c p >>= λ u. result)
      else result

  -- The rounds on a target that is located.
  unfoldable pub roll : RoundRevisions → String → Prepared → AppRollout → Round W (ℕ × AppRollout)
  unfolding reconcile_plan finish
  roll revs c p a = do
    workloads ← fetch_source_and_target_workload lib api revs c p
    planned ← reconcile_plan a workloads
    finish c p a planned

  -- The round that brings the manifests to the cluster.
  unfoldable pub locate : String → Prepared → AppRollout → Round W (ℕ × AppRollout)
  locate c p a = do
    template_source_manifest lib api c p
    template_target_manifest lib api a c p
    called (pure (3, with_event rt now app_located_event a))

  unfoldable pub rolling_round :
      RoundRevisions → String → Prepared → AppRollout → Round W (ℕ × AppRollout)
  unfolding is_locating roll locate
  rolling_round revs c p a =
      if is_locating a.rollout_status.rolling_state then locate c p a else roll revs c p a

  -- `DoReconcile`, with the seconds after which it wants to run again, 0 for never. Its case of a
  -- rollout that is deleted while neither revision is there is never reached: `prepareRollout` sets
  -- the target revision or fails.
  unfoldable pub do_reconcile : AppRollout → Round W (ℕ × AppRollout)
  unfolding started round_revisions prepare_rollout determine_rollout_component rolling_round
      handle_rolling_terminated
  do_reconcile given =
      let a = started given in
      let (revs, a') = round_revisions rt now a in
      if handle_rolling_terminated a then called (pure (0, a)) else do
        p ← called (prepare_rollout api asm revs a.namespace)
        c ← called (returned (determine_rollout_component a.component_list p))
        rolling_round revs c p a'

  -- `handleFinalizer`: what it returns where it ends the round, and the object where it goes on.
  unfoldable pub handle_finalizer : AppRollout → Call W (Unit {0}) ⊎ AppRollout
  unfolding is_ended
  handle_finalizer a =
      if not a.deleted
      then if api.finalizer_exists a.finalizers app_rollout_finalizer
        then inr a
        else inl (
            wrapping "failed to update the app rollout" (
              api.update
                (record a { finalizers = api.add_finalizer a.finalizers app_rollout_finalizer })))
      else if not (api.finalizer_exists a.finalizers app_rollout_finalizer)
      then inr a
      else if is_ended a.rollout_status.rolling_state
      then inl (
          wrapping "failed to update the app rollout" (
            api.update
              (record a { finalizers = api.remove_finalizer a.finalizers app_rollout_finalizer })))
      else inr (with_event rt now rolling_deleted_event a)

  -- `updateStatus`, on the object as it is then.
  unfoldable pub update_status : AppRollout → Call W (Unit {0})
  update_status a = retry_on_conflict api.dispatching.retries (
      on_error api.get_app_rollout
        (λ current. api.update_status (record current {
          rollout_status = a.rollout_status;
          last_upgraded_target_app_revision = a.last_upgraded_target_app_revision;
          last_source_app_revision = a.last_source_app_revision;
        }))
        fails)

  -- `Reconcile` of an object that is there.
  unfoldable pub reconcile_found : AppRollout → Round W ℕ
  unfolding handle_finalizer do_reconcile update_status
  reconcile_found a = elim (handle_finalizer a) [
    | inl update ↦ called update >>= λ u. called (pure 0)
    | inr a' ↦ do ended ← do_reconcile a'; called (update_status ended.1); called (pure ended.0)
  ]

  -- What follows the read of the object; one that is gone is no error.
  unfoldable pub reconcile_answer : Result AppRollout × W → Outcome (Result ℕ × W)
  unfolding reconcile_found
  reconcile_answer (ok a, w) = reconcile_found a w
  reconcile_answer (err e, w) = if is_not_found e then done (ok 0, w) else done (err e, w)

  -- `Reconcile`.
  unfoldable pub reconcile_app_rollout : Round W ℕ
  unfolding reconcile_answer
  reconcile_app_rollout w = reconcile_answer (api.get_app_rollout w)
