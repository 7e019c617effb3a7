-- ===== src/Workflow/Steps.antt =====
-- What a run of a workflow may do, and that `ExecuteSteps` does no more: the steps are taken in their
-- order, and only after a step that succeeded does the next one follow.
use mathlib.Core.List.{append-nil, append_assoc}
use rudr_x.Base.{
  List, String, [], ap, false, inl, inr, refl, some, sym, true, ℕ, ◌++◌, ◌+◌, ◌∙◌, ◌∷◌, ◌≡◌, ◌≢◌,
  ◌⊎◌,
}
use rudr_x.Cluster.Calls.{Error, Result, err, fails, ok, returned, settled}
use rudr_x.Workflow.{
  Application, Ending, Run, StepApi, StepObject, WorkflowStep, WorkflowStepPhase,
  WorkflowStepStatus, after_phase, after_step, apply_workflow_step, errs, execute_steps, failed,
  index_out_of_range, prepared, returns, run_step, run_steps, running, status_in, step_phase,
  stopped, succeeded, sync_workflow_status,
}

-- The status is that of the step, in this phase.
pub record IsOf (step : WorkflowStep) (status : WorkflowStepStatus) : Type 0 where
  pub same_name : status.name ≡ step.name
  pub same_type : status.type ≡ step.type

-- The steps, the statuses of those that were taken, and how that ended.
pub data Progress : List WorkflowStep → List WorkflowStepStatus → Ending → Type 0 where
  all_done : Progress [] [] (returns true)
  no_object :
      (step : WorkflowStep) (steps : List WorkflowStep)
      → Progress (step ∷ steps) [] index_out_of_range
  gives_up :
      (step : WorkflowStep) (steps : List WorkflowStep) (e : Error)
      → Progress (step ∷ steps) [] (errs e)
  waits :
      (step : WorkflowStep) (steps : List WorkflowStep) (status : WorkflowStepStatus)
      → IsOf step status
      → status.phase ≡ running
      → Progress (step ∷ steps) (status ∷ []) (returns false)
  ends :
      (step : WorkflowStep) (steps : List WorkflowStep) (status : WorkflowStepStatus)
      → IsOf step status
      → (status.phase ≡ failed) ⊎ (status.phase ≡ stopped)
      → Progress (step ∷ steps) (status ∷ []) (returns true)
  goes_on :
      (step : WorkflowStep) (status : WorkflowStepStatus) {steps : List WorkflowStep}
      {statuses : List WorkflowStepStatus} {ending : Ending}
      → IsOf step status
      → status.phase ≡ succeeded
      → Progress steps statuses ending
      → Progress (step ∷ steps) (status ∷ statuses) ending

-- A run that adds these statuses to the ones before.
abbrev Added : {W : Type 0} → List WorkflowStep → List WorkflowStepStatus → Run W → Type 0
Added steps before (ending, after, w) =
    (new : List WorkflowStepStatus) × (after ≡ before ++ new) × Progress steps new ending

prepend :
    {W : Type 0} {step : WorkflowStep} {steps : List WorkflowStep}
    (before : List WorkflowStepStatus) (s : WorkflowStepStatus) (run : Run W)
    → IsOf step s
    → s.phase ≡ succeeded
    → Added steps (before ++ (s ∷ [])) run
    → Added (step ∷ steps) before run
prepend {step = step} before s (ending, after, w) of done (new, e, p) =
    (s ∷ new, e ∙ append_assoc before (s ∷ []) new, goes_on step s of done p)

phase-Added :
    {W : Type 0} (step : WorkflowStep) (steps : List WorkflowStep)
    (before : List WorkflowStepStatus) (next : List WorkflowStepStatus → W → Run W)
    (s : WorkflowStepStatus) (phase : WorkflowStepPhase) (w : W)
    → IsOf step s
    → s.phase ≡ phase
    → ((w' : W) → Added steps (before ++ (s ∷ [])) (next (before ++ (s ∷ [])) w'))
    → Added (step ∷ steps) before (after_phase next (before ++ (s ∷ [])) phase w)
unfolding after_phase
phase-Added step steps before next s succeeded w of e go =
    prepend before s (next (before ++ (s ∷ [])) w) of e (go w)
phase-Added step steps before next s running w of e go = (s ∷ [], refl, waits step steps s of e)
phase-Added step steps before next s failed w of e go = (s ∷ [], refl, ends step steps s of (inl e))
phase-Added step steps before next s stopped w of e go =
    (s ∷ [], refl, ends step steps s of (inr e))

abbrev Names : WorkflowStep → Result WorkflowStepStatus → Type 0
Names step (ok s) = IsOf step s
Names step (err e) = Unit {0}

step-Added :
    {W : Type 0} (step : WorkflowStep) (steps : List WorkflowStep)
    (before : List WorkflowStepStatus) (next : List WorkflowStepStatus → W → Run W)
    (x : Result WorkflowStepStatus × W)
    → Names step x.0
    → ((s : WorkflowStepStatus) (w' : W)
        → Added steps (before ++ (s ∷ [])) (next (before ++ (s ∷ [])) w'))
    → Added (step ∷ steps) before (after_step next before x)
unfolding after_step
step-Added step steps before next (err e, w) of go =
    ([], sym (append-nil before), gives_up step steps e)
step-Added step steps before next (ok s, w) of go =
    phase-Added step steps before next s s.phase w of refl (go s)

status-IsOf :
    (step : WorkflowStep) (obj : StepObject) (phase : Result WorkflowStepPhase)
    → Names step (status_in step obj phase)
unfolding status_in
status-IsOf step obj (ok phase) = record { same_name = refl; same_type = refl }
status-IsOf step obj (err e) = tt

module _ {W : Type 0} (api : StepApi W) where
  settled-IsOf :
      (step : WorkflowStep) (x : Result StepObject × W)
      → Names step (settled (λ applied. returned (sync_workflow_status api step applied)) fails x).0
  unfolding sync_workflow_status
  settled-IsOf step (ok obj, w) = status-IsOf step obj (step_phase api obj)
  settled-IsOf step (err e, w) = tt

  run_step-IsOf :
      (app : Application) (rev : String) (i : ℕ) (step : WorkflowStep) (obj : StepObject) (w : W)
      → Names step (run_step api app rev i step obj w).0
  unfolding run_step
  run_step-IsOf app rev i step obj w = settled-IsOf step (
      apply_workflow_step api (prepared api app step obj)
        (record { app_name = app.name; app_revision = rev; workflow_index = i }) w)

  run_steps-Added :
      (app : Application) (rev : String) (i : ℕ) (steps : List WorkflowStep)
      (objects : List StepObject) (before : List WorkflowStepStatus) (w : W)
      → Added steps before (run_steps api app rev i steps objects before w)
  unfolding run_steps
  run_steps-Added app rev i [] objects before w = ([], sym (append-nil before), all_done)
  run_steps-Added app rev i (step ∷ steps) [] before w =
      ([], sym (append-nil before), no_object step steps)
  run_steps-Added app rev i (step ∷ steps) (obj ∷ objects) before w =
      step-Added step steps before
        (λ taken w'. run_steps api app rev (i + 1) steps objects taken w')
        (run_step api app rev i step obj w) (run_step-IsOf app rev i step obj w)
        (λ s w'. run_steps-Added app rev (i + 1) steps objects (before ++ (s ∷ [])) w')

  -- A run of a workflow that has steps, from any world: the application goes to the phase of a running
  -- workflow, its status has one entry for each step that was taken, in the order of the steps and under
  -- their names and types, and every step that another one follows has succeeded. It is done where all
  -- steps have succeeded, or where the last step that was taken has failed or was stopped; it is not
  -- done where that step is running.
  pub execute_steps-Progress :
      (app : Application) (rev : String) (objects : List StepObject) (w : W)
      (steps : List WorkflowStep)
      → app.workflow ≡ some steps
      → steps ≢ []
      → (let (ending, app', w') = execute_steps api app rev objects w in
          (statuses : List WorkflowStepStatus) × (app'.steps_status ≡ some statuses)
          × (app'.phase ≡ "runningWorkflow")
          × Progress steps statuses ending)
  unfolding execute_steps
  execute_steps-Progress app rev objects w [] h ne = absurd (ne refl)
  execute_steps-Progress app rev objects w (step ∷ steps) h ne =
      let (new, e, p) = run_steps-Added app rev 0 (step ∷ steps) objects [] w in
      rw h (new, ap some e, refl, p)
