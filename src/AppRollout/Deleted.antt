-- ===== src/AppRollout/Deleted.antt =====
-- What a deletion does to a rollout that is not over.
use rudr_x.Base.{arith, false, inr, refl, true, ℕ, ◌≡◌}
use rudr_x.AppRollout.{
  Controllers, app_rollout_finalizer, do_reconcile, handle_finalizer, reconcile_answer,
  reconcile_app_rollout, reconcile_found, started, started_status,
}
use rudr_x.AppRollout.Changes.{
  handle_rolling_terminated, is_deleting, is_ended, is_rollout_modified, round_revisions,
  spec_revisions, with_event,
}
use rudr_x.AppRollout.Handler.{prepare_rollout}
use rudr_x.AppRollout.Types.{AppRollout, Assembler, RolloutApi}
use rudr_x.Apply.{Library}
use rudr_x.Cluster.Calls.{Error, err, ok}
use rudr_x.Rollout.Action.{done}
use rudr_x.Rollout.Status.{state_transition}
use rudr_x.Rollout.Types.{RollingState, RolloutStatus, Runtime, rolling_deleted_event}
use rudr_x.Rollout.Webhook.{Http}

deleting-started : (r : RolloutStatus) → is_deleting r.rolling_state ≡ true → started_status r ≡ r
unfolding is_deleting started_status
deleting-started r h = ground arith

deleting-running : (s : RollingState) → is_deleting s ≡ true → is_ended s ≡ false
unfolding is_deleting is_ended
deleting-running s h = ground arith

deleted-deleting :
    (rt : Runtime) (now : ℕ) (r : RolloutStatus)
    → is_ended r.rolling_state ≡ false
    → is_deleting (state_transition rt now rolling_deleted_event r).rolling_state ≡ true
unfolding state_transition is_ended is_deleting
deleted-deleting rt now r h = ground arith

module _ {W Patch : Type 0} (rt : Runtime) (http : Http W) (controllers : Controllers W)
    (lib : Library Patch) (api : RolloutApi W Patch) (asm : Assembler) (now : ℕ) where
  do_reconcile-missing :
      (a : AppRollout) (w : W) {w' : W} {e : Error}
      → is_deleting a.rollout_status.rolling_state ≡ true
      → api.get_app_revision a.namespace a.target_app_revision_name w ≡ (err e, w')
      → do_reconcile rt http controllers lib api asm now a w ≡ done (err e, w')
  unfolding do_reconcile started round_revisions handle_rolling_terminated is_rollout_modified
      spec_revisions prepare_rollout
  do_reconcile-missing a w h missing =
      rw
        (
          deleting-started a.rollout_status h,
          deleting-running a.rollout_status.rolling_state h,
          h,
          missing,
        )
        refl

  handle_finalizer-deletes :
      (a : AppRollout)
      → a.deleted ≡ true
      → api.finalizer_exists a.finalizers app_rollout_finalizer ≡ true
      → is_ended a.rollout_status.rolling_state ≡ false
      → handle_finalizer rt http controllers lib api asm now a
        ≡ inr (with_event rt now rolling_deleted_event a)
  unfolding handle_finalizer
  handle_finalizer-deletes a deleted held going = simp (deleted, held, going)

  -- A rollout that is deleted before it is over, and whose target revision cannot be read, for example
  -- because it is gone: the round, `Reconcile`, returns the error of that read and has called nothing
  -- after it. Neither the status nor the finalizer is written, so the next round meets the same
  -- object.
  pub reconcile-stuck :
      (a : AppRollout) (w : W) {w₁ w₂ : W} {e : Error}
      → api.get_app_rollout w ≡ (ok a, w₁)
      → a.deleted ≡ true
      → api.finalizer_exists a.finalizers app_rollout_finalizer ≡ true
      → is_ended a.rollout_status.rolling_state ≡ false
      → api.get_app_revision a.namespace a.target_app_revision_name w₁ ≡ (err e, w₂)
      → reconcile_app_rollout rt http controllers lib api asm now w ≡ done (err e, w₂)
  unfolding reconcile_app_rollout reconcile_answer reconcile_found with_event
  reconcile-stuck a w {w₁} read deleted held going missing =
      rw (read, reconcile_answer, reconcile_found, handle_finalizer-deletes a deleted held going)
        (rw
          (do_reconcile-missing (with_event rt now rolling_deleted_event a) w₁
            (deleted-deleting rt now a.rollout_status going) missing)
          refl)
