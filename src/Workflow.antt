-- ===== src/Workflow.antt =====
-- pkg/workflow/workflow.go: the steps of an application's workflow are applied one after the other, and
-- the next one only after the one before has succeeded. `apply` is the applicator's `Apply`; what it
-- makes of the object is what the rest of the step reads. JSON is read and written by parameters.
pub mod Steps
use rudr_x.Base.{
  Bool, List, Option, String, [], false, if◌then◌else◌, none, not, some, str_eq, true, ℕ, ◌++◌, ◌+◌,
  ◌∷◌,
}
use rudr_x.Base.Int.{ℤ, ◌==ℤ◌}
use rudr_x.Apply.{apply}
use rudr_x.Cluster.Calls.{Call, Error, Result, err, fails, ok, returned, ◌>>=◌, ◌>>◌}
use rudr_x.Cluster.References.{put}
mod Witnesses

pub data WorkflowStepPhase : Type 0 where
  succeeded failed stopped running : WorkflowStepPhase

pub record WorkflowStep : Type 0 where
  pub name : String
  pub type : String

-- `common.WorkflowStepStatus`.
pub record WorkflowStepStatus : Type 0 where
  pub name : String
  pub type : String
  pub phase : WorkflowStepPhase
  pub resource_api_version : String
  pub resource_kind : String
  pub resource_name : String
  pub resource_uid : String

-- The fields of a condition that the code reads.
pub record StatusCondition : Type 0 where
  pub type : String
  pub status : String
  pub reason : String
  pub message : String

-- The rendered object of a step, with the fields that the code reads or writes; `conditions` is what
-- `status.conditions` decodes to, one condition or an error for each element, or an error, or none.
pub record StepObject : Type 0 where
  pub api_version : String
  pub kind : String
  pub name : String
  pub namespace : String
  pub uid : String
  pub generation : ℤ
  pub annotations : List (String × String)
  pub owner : Option String
  pub conditions : Result (Option (List (Result StatusCondition)))
  pub content : String

-- `types.WorkflowContext`; the config map has the name of the revision.
pub record WorkflowContext : Type 0 where
  pub app_name : String
  pub app_revision : String
  pub workflow_index : ℕ

-- The fields of the application that the code reads or writes. `workflow` is `Spec.Workflow`, a
-- pointer, and `steps_status` is `Status.Workflow`.
pub record Application : Type 0 where
  pub name : String
  pub namespace : String
  pub workflow : Option (List WorkflowStep)
  pub phase : String
  pub steps_status : Option (List WorkflowStepStatus)

-- What the code takes from elsewhere: `Apply`, `json.Marshal` of a context, and the observed
-- generation that `json.Unmarshal` reads from a message.
pub record StepApi (W : Type 0) : Type 0 where
  pub apply : StepObject → Call W StepObject
  pub marshal_context : WorkflowContext → Result String
  pub observed_generation : String → Result ℤ

-- `GetUnstructuredObjectStatusCondition`: the first condition of the type, unless one before it cannot
-- be decoded.
unfoldable pub find_condition :
    String → List (Result StatusCondition) → Result (Option StatusCondition)
find_condition type [] = ok none
find_condition type (err e ∷ cs) = err e
find_condition type (ok c ∷ cs) = if str_eq c.type type then ok (some c) else find_condition type cs

unfoldable pub get_status_condition : StepObject → String → Result (Option StatusCondition)
unfolding find_condition
get_status_condition obj type = elim obj.conditions [
  | err e ↦ err e
  | ok none ↦ ok none
  | ok (some cs) ↦ find_condition type cs
]

-- How a run of the steps ends: with `done` or an error, or by a panic where there is no object for a
-- step.
pub data Ending : Type 0 where
  returns : Bool → Ending
  errs : Error → Ending
  index_out_of_range : Ending

-- How it ends, with the statuses and the world.
abbrev pub Run : Type 0 → Type 0
Run W = Ending × List WorkflowStepStatus × W

-- The `switch` on the phase: the loop goes on after a success only.
unfoldable pub after_phase :
    {W : Type 0}
    → (List WorkflowStepStatus → W → Run W)
    → List WorkflowStepStatus
    → WorkflowStepPhase
    → W
    → Run W
after_phase next taken succeeded w = next taken w
after_phase next taken running w = (returns false, taken, w)
after_phase next taken failed w = (returns true, taken, w)
after_phase next taken stopped w = (returns true, taken, w)

-- What follows a step, with the statuses before it.
unfoldable pub after_step :
    {W : Type 0}
    → (List WorkflowStepStatus → W → Run W)
    → List WorkflowStepStatus
    → Result WorkflowStepStatus × W
    → Run W
unfolding after_phase
after_step next before (err e, w) = (errs e, before, w)
after_step next before (ok s, w) = after_phase next (before ++ (s ∷ [])) s.phase w

-- The status of a step whose phase is known.
unfoldable pub status_in :
    WorkflowStep → StepObject → Result WorkflowStepPhase → Result WorkflowStepStatus
status_in step obj (err e) = err e
status_in step obj (ok phase) = ok (record {
  name = step.name;
  type = step.type;
  phase = phase;
  resource_api_version = obj.api_version;
  resource_kind = obj.kind;
  resource_name = obj.name;
  resource_uid = obj.uid;
})

module _ {W : Type 0} (api : StepApi W) where
  -- The phase, by the condition on the progress of the workflow.
  unfoldable pub phase_of : StepObject → StatusCondition → Result WorkflowStepPhase
  phase_of obj cond =
      if not (str_eq cond.status "True")
      then ok running
      else if str_eq cond.reason "Succeeded"
      then elim (api.observed_generation cond.message) [
        | err e ↦ err e
        | ok observed ↦ if observed ==ℤ obj.generation then ok succeeded else ok running
      ]
      else if str_eq cond.reason "Failed"
      then ok failed
      else if str_eq cond.reason "Stopped"
      then ok stopped
      else ok running

  unfoldable pub step_phase : StepObject → Result WorkflowStepPhase
  unfolding get_status_condition phase_of
  step_phase obj = elim (get_status_condition obj "workflow-progress") [
    | err e ↦ err e
    | ok none ↦ ok running
    | ok (some cond) ↦ phase_of obj cond
  ]

  unfoldable pub sync_workflow_status : WorkflowStep → StepObject → Result WorkflowStepStatus
  unfolding step_phase status_in
  sync_workflow_status step obj = status_in step obj (step_phase obj)

  -- `MergeMapOverrideWithDst` with the annotations of the object as the map that overrides.
  unfoldable pub overridden :
      List (String × String) → List (String × String) → List (String × String)
  overridden base [] = base
  overridden base ((k, v) ∷ dst) = put k v (overridden base dst)

  unfoldable pub apply_workflow_step : StepObject → WorkflowContext → Call W StepObject
  unfolding overridden
  apply_workflow_step obj wctx = elim (api.marshal_context wctx) [
    | err e ↦ fails e
    | ok text ↦ api.apply (record obj {
      annotations = overridden (("app.oam.dev/workflow-context", text) ∷ []) obj.annotations;
    })
  ]

  -- The object of a step, before it is applied.
  unfoldable pub prepared : Application → WorkflowStep → StepObject → StepObject
  prepared app step obj = record obj {
    name = step.name;
    namespace = app.namespace;
    owner = some app.name;
  }

  -- One step: its object applied, and its status.
  unfoldable pub run_step :
      Application → String → ℕ → WorkflowStep → StepObject → Call W WorkflowStepStatus
  unfolding prepared apply_workflow_step sync_workflow_status
  run_step app rev i step obj = do
    applied ←
        apply_workflow_step (prepared app step obj)
          (record { app_name = app.name; app_revision = rev; workflow_index = i })
    returned (sync_workflow_status step applied)

  -- The loop over the steps, with the objects that are left, the index and the status so far.
  unfoldable pub run_steps :
      Application
      → String
      → ℕ
      → List WorkflowStep
      → List StepObject
      → List WorkflowStepStatus
      → W
      → Run W
  unfolding run_step after_step
  run_steps app rev i [] objects status w = (returns true, status, w)
  run_steps app rev i (step ∷ steps) [] status w = (index_out_of_range, status, w)
  run_steps app rev i (step ∷ steps) (obj ∷ objects) status w =
      after_step (λ taken w'. run_steps app rev (i + 1) steps objects taken w') status
        (run_step app rev i step obj w)

  -- `ExecuteSteps`, with the application as it leaves it.
  unfoldable pub execute_steps :
      Application → String → List StepObject → W → Ending × Application × W
  unfolding run_steps
  execute_steps app rev objects w = elim app.workflow [
    | none ↦ (returns true, app, w)
    | some [] ↦ (returns true, app, w)
    | some (step ∷ steps) ↦
        let (ending, status, w') = run_steps app rev 0 (step ∷ steps) objects [] w in
        (ending, record app { phase = "runningWorkflow"; steps_status = some status }, w')
  ]
