-- ===== src/Workflow/Witnesses.antt =====
-- A workflow of three steps whose second one fails. The world counts the objects that are applied.
use rudr_x.Base.{List, String, [], if◌then◌else◌, none, refl, some, ℕ, ◌+◌, ◌==◌, ◌∷◌, ◌≡◌}
use rudr_x.Base.Int.{pos}
use rudr_x.Cluster.Calls.{ok}
use rudr_x.Workflow.{
  Application, StepApi, StepObject, WorkflowStep, WorkflowStepStatus, execute_steps,
}
use rudr_x.Workflow.Steps.{Progress, execute_steps-Progress}

abbrev api : StepApi ℕ
api = record {
  apply = λ obj n. (
    ok (record obj {
      generation = pos 1;
      conditions = ok (
          some (
            ok (record { type = "Ready"; status = "False"; reason = ""; message = "" })
            ∷ ok (record {
              type = "workflow-progress";
              status = "True";
              reason = if n == 0 then "Succeeded" else "Failed";
              message = "1";
            })
            ∷ []));
    }),
    n + 1,
  );
  marshal_context = λ c. ok c.app_revision;
  observed_generation = λ m. ok (pos 1);
}

abbrev step_named : String → WorkflowStep
step_named n = record { name = n; type = "apply" }

abbrev object : StepObject
object = record {
  api_version = "v1";
  kind = "Step";
  name = "";
  namespace = "";
  uid = "u";
  generation = pos 0;
  annotations = [];
  owner = none;
  conditions = ok none;
  content = "";
}

abbrev steps : List WorkflowStep
steps = step_named "build" ∷ step_named "test" ∷ step_named "ship" ∷ []

abbrev application : Application
application = record {
  name = "app";
  namespace = "ns";
  workflow = some steps;
  phase = "rendering";
  steps_status = none;
}

abbrev objects : List StepObject
objects = object ∷ object ∷ object ∷ []

-- The third object is not applied.
stops_at_failure : (execute_steps api application "app-v1" objects 0).2 ≡ 2
unfolding execute_steps
stops_at_failure = refl

execute_steps-Progress_example :
    (let (ending, app', w') = execute_steps api application "app-v1" objects 0 in
      (statuses : List WorkflowStepStatus) × (app'.steps_status ≡ some statuses)
      × (app'.phase ≡ "runningWorkflow")
      × Progress steps statuses ending)
execute_steps-Progress_example =
    execute_steps-Progress api application "app-v1" objects 0 steps refl (λ e. cc)
