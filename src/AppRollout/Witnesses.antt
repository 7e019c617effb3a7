-- ===== src/AppRollout/Witnesses.antt =====
-- The theorems about the rollout controller at a concrete rollout.
use rudr_x.Base.{[], arith, false, inl, none, refl, str_eq, true, ℕ, ◌+◌, ◌∷◌, ◌≡◌}
use rudr_x.Base.Int.{◌-ℤ◌}
use rudr_x.AppRollout.{Controllers, app_rollout_finalizer, do_reconcile, reconcile_app_rollout}
use rudr_x.AppRollout.Changes.{is_ended, same_size}
use rudr_x.AppRollout.Deleted.{reconcile-stuck}
use rudr_x.AppRollout.Landing.{Lands}
use rudr_x.AppRollout.Rest.{do_reconcile-rests}
use rudr_x.AppRollout.Safe.{KeptSound}
use rudr_x.AppRollout.System.{app_rollout-IsSound}
use rudr_x.AppRollout.Templates.{fetch_source_and_target_workload, finalize_rolling_succeeded}
use rudr_x.AppRollout.Types.{AppRollout, Assembler, RolloutApi}
use rudr_x.Apply.{ObjectApi}
use rudr_x.Cluster.Calls.{err, not_found, ok}
use rudr_x.Cluster.References.{Manifest}
use rudr_x.Dispatch.Samples.{library}
use rudr_x.Dispatch.Trackers.{DispatchApi, ResourceTracker}
use rudr_x.Rollout.Action.{done}
use rudr_x.Rollout.Plan.{initialized_status, reconcile}
use rudr_x.Rollout.Samples.{api, fills, http, plan, rolling, rolling-IsSound, runtime, willing}
use rudr_x.Rollout.Selection.{get_workload_controller}
use rudr_x.Rollout.Status.{conditions_set, set_loop, state_transition}
use rudr_x.Rollout.Types.{all_batch_finished_event, batches, finalising_state}
use rudr_x.Rollout.Workloads.System.{workload_controllers}

abbrev workload : Manifest
workload = record {
  api_version = "apps/v1";
  kind = "Deployment";
  name = "web";
  namespace = "default";
  generate_name = "";
  owner_references = [];
  labels = ("app.oam.dev/revision", "web-v2") ∷ [];
  annotations = none;
  content = "image: v2";
}

abbrev assembler : Assembler
assembler = record {
  prepare_workload_for_rollout = λ m. ok m;
  assembled_manifests = λ options rev. ok (workload ∷ []);
  group_assembled_manifests = λ options rev. ok (("web", workload) ∷ []);
}

abbrev objects_api : ObjectApi ℕ (Unit {0})
objects_api = record {
  get_object = λ m w. (err (not_found m.name), w);
  create_object = λ m w. (ok m, w + 1);
  patch_object = λ m p w. (ok m, w + 1);
}

abbrev tracker : ResourceTracker
tracker = record { name = "app-v2-default"; uid = "uid-2"; labels = []; tracked_resources = [] }

abbrev dispatching : DispatchApi ℕ (Unit {0})
dispatching = record {
  objects = objects_api;
  delete_object = λ d w. (ok tt, w + 1);
  get_tracker = λ name w. (ok tracker, w);
  create_tracker = λ rt w. (ok rt, w + 1);
  update_tracker_status = λ rt w. (ok rt, w + 1);
  delete_tracker = λ rt w. (ok tt, w + 1);
  retries = 3;
}

-- The second of three batches is rolling.
abbrev app : AppRollout
app = record {
  name = "app";
  namespace = "default";
  deleted = false;
  finalizers = app_rollout_finalizer ∷ [];
  target_app_revision_name = "app-v2";
  source_app_revision_name = "";
  component_list = [];
  rollout_plan = plan;
  rollout_status = rolling;
  last_upgraded_target_app_revision = "app-v2";
  last_source_app_revision = "";
}

abbrev rollout_api : AppRollout → RolloutApi ℕ (Unit {0})
rollout_api a = record {
  get_app_rollout = λ w. (ok a, w);
  update = λ a w. (ok tt, w + 1);
  update_status = λ a w. (ok tt, w + 1);
  get_app_revision = λ ns name w. (ok (record { name = name; namespace = ns }), w);
  get_workload = λ m w. (ok m, w);
  patch_workload = λ old new w. (ok tt, w + 1);
  dispatching = dispatching;
  group_of = λ v. "apps";
  finalizer_exists = λ fs f. elim fs [ [] ↦ false | x ∷ rest ↦ str_eq x f ];
  add_finalizer = λ fs f. f ∷ fs;
  remove_finalizer = λ fs f. [];
}

app_rollout-IsSound_example : Lands ⊥ (KeptSound app) (
    do_reconcile runtime http
      (workload_controllers runtime api)
      library
      (rollout_api app)
      assembler
      7
      app
      0)
unfolding batches ◌-ℤ◌
app_rollout-IsSound_example =
    app_rollout-IsSound runtime http api library (rollout_api app) assembler 7 fills app 0
      (omega arith) (omega arith) tt (inl rolling-IsSound)

-- The last step of the rollout.
abbrev finishing : AppRollout
finishing = record app { rollout_status = record rolling { rolling_state = finalising_state } }

abbrev all_willing : Controllers ℕ
all_willing spec now target source kind = willing

abbrev over : AppRollout
over = record app {
  rollout_status = state_transition runtime 7 all_batch_finished_event finishing.rollout_status;
}

finished_round :
    do_reconcile runtime http all_willing library (rollout_api finishing) assembler 7 finishing 0
    ≡ done (ok (0, over), 1)
unfolding do_reconcile fetch_source_and_target_workload reconcile get_workload_controller
    initialized_status state_transition finalize_rolling_succeeded conditions_set set_loop
finished_round = refl

over_ended : (is_ended over.rollout_status.rolling_state ≡ true) × (same_size over ≡ true)
unfolding is_ended state_transition same_size conditions_set set_loop
over_ended = (refl, refl)

do_reconcile-rests_example :
    do_reconcile runtime http all_willing library (rollout_api finishing) assembler 20 over 9
    ≡ done (ok (0, over), 9)
do_reconcile-rests_example =
    do_reconcile-rests runtime http all_willing library (rollout_api finishing) assembler 7 20
      finishing 0 9 finished_round over_ended.0 over_ended.1

-- It is deleted while its second batch rolls, and the target revision is gone.
abbrev deleted_app : AppRollout
deleted_app = record app { deleted = true }

abbrev bare_api : RolloutApi ℕ (Unit {0})
bare_api = record (rollout_api deleted_app) {
  get_app_revision = λ ns name w. (err (not_found name), w);
}

finalizer_held : bare_api.finalizer_exists deleted_app.finalizers app_rollout_finalizer ≡ true
finalizer_held = refl

still_rolling : is_ended rolling.rolling_state ≡ false
unfolding is_ended
still_rolling = refl

reconcile-stuck_example :
    reconcile_app_rollout runtime http all_willing library bare_api assembler 7 0
    ≡ done (err (not_found "app-v2"), 0)
reconcile-stuck_example =
    reconcile-stuck runtime http all_willing library bare_api assembler 7 deleted_app 0 refl refl
      finalizer_held still_rolling refl
