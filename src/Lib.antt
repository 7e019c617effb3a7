-- ===== src/Lib.antt =====
-- A model of the core controllers of KubeVela: the rollout engine of the controller manager, which
-- moves the pods of a workload to a new version, or to a new size, in batches; the dispatcher, which
-- applies the manifests of an application and collects what is left of older ones; the controller of
-- application rollouts, which joins the two; the comparison and the clean-up of revisions; the health
-- of a scope; and the steps of a workflow.
--
-- The program's parts, and the files that model them:
--
-- * The types of a rollout plan and of a rollout's status (apis/standard.oam.dev/v1alpha1:
--   rollout_plan_types.go): Rollout/Types. An open string type whose values a `switch` reads is a
--   data type with one constructor for every other text. `int32` values are integers, and a
--   conversion or a sum that Go does in 32 bits keeps its wrap-around (`to_int32` of Base/Int).
-- * The state machine of a rollout (rollout_state.go): Rollout/Status has `StateTransition` as
--   `state_transition`, with its helpers (`RolloutRetry`, `RolloutFailed`, `RolloutFailing`,
--   `ResetStatus`, `SetRolloutCondition`), and Rollout/Texts the texts of its messages.
--   Rollout/Status/Graph gives the state diagram as an inductive relation `Edge`,
--   Rollout/Status/Conditions a finite map of conditions.
-- * The plan controller (pkg/controller/common/rollout/rollout_plan_controller.go): Rollout/Plan
--   has `Reconcile` as `reconcile`, with a definition for every handler that it calls, as state
--   passing over the rollout's status and the world outside (`Action` of Rollout/Action), where a
--   Go panic is an outcome; Rollout/Selection has `GetWorkloadController`. `callWebhook` and
--   `makeHTTPRequest` of rollout_webhook.go are in Rollout/Webhook; one exchange with an endpoint
--   is part of the parameter `Http`.
-- * The arithmetic of batches (pkg/controller/common/rollout/workloads/common.go): Rollout/Batches.
-- * The workload controllers (the rest of pkg/controller/common/rollout/workloads):
--   Rollout/Workloads has the objects, the API server as the parameter `Api`, and
--   `deploymentController`; its children DeploymentRollout, DeploymentScale, CloneSetRollout and
--   CloneSetScale have one definition for each method of the four controllers. They fill the
--   interface `WorkloadController`, whose contract `Obeys` the plan controller's theorems assume;
--   Workloads/System puts the whole together the way `GetWorkloadController` does.
-- * The defaults and the validation of a plan (pkg/webhook/common/rollout/rollout_plan.go):
--   Rollout/Defaults and Rollout/Validation.
-- * What the other controllers share: Cluster/Calls has the call to an API server, which returns a
--   value or an error and leaves a new world, and the retries after a conflict; Cluster/References
--   the references, the owners and the manifests; Cluster/Names the splitting of names at dashes;
--   Cluster/Posts the rules for what a call keeps and what it gives.
-- * The apply utilities (pkg/utils/apply: apply.go, patch.go): Apply has one definition for each
--   function, with the last-applied annotation as part of the manifest.
-- * The dispatcher (pkg/controller/core.oam.dev/v1alpha2/application/dispatch: dispatch.go, gc.go,
--   name.go): Dispatch has `Dispatch` as `dispatch`, with its steps; Dispatch/Trackers the resource
--   trackers, Dispatch/Collector `GarbageCollect`, Dispatch/Names the names of the trackers.
-- * The revisions (pkg/controller/core.oam.dev/v1alpha2/application/revision.go from
--   cleanUpApplicationRevision to historiesByRevision, and CheckAppDeploymentUsingAppRevision of
--   pkg/controller/utils/utils.go): Revisions; ExtractRevisionNum of pkg/oam/util/helper.go:
--   Revisions/Numbers; currentAppRevIsNew and DeepEqualRevision: Revisions/Identity;
--   cleanUpComponentRevision: Revisions/Components.
-- * The health scope (pkg/controller/core.oam.dev/v1alpha2/core/scopes/healthscope: healthscope.go,
--   standard.go, healthscope_controller.go): Health/Checkers, Health/Peers, and `GetScopeHealthStatus`
--   in Health. The goroutines only read, and send their results on a channel: Health/Arrivals has the
--   orders in which these arrive as the relation `Received`.
-- * The workflow (pkg/workflow/workflow.go): Workflow.
-- * The rollout controller (pkg/controller/core.oam.dev/v1alpha2/applicationrollout):
--   AppRollout has `DoReconcile` as `do_reconcile` and `Reconcile` as `reconcile_app_rollout`;
--   AppRollout/Changes and AppRollout/Owners have helper.go, AppRollout/Handler and
--   AppRollout/Templates rollout_handler.go. A round is a function of the object and the world that
--   may panic, since the handler dereferences entries of maps. AppRollout/System puts the plan
--   controller and the workload controllers of the repository in.
--
-- How they interact: the admission webhooks fill in and validate a plan; the plan controller is
-- called again and again with the plan and the status, picks a workload controller, calls one of
-- its operations and the webhooks of the plan, and sends an event to the state machine, which moves
-- the status on. One call is `reconcile`; a run of calls is `reconcile_rounds`, one for each
-- reading of the clock, with workload controllers made anew. The dispatcher applies its manifests through the apply utilities, with the
-- options that check their controllers, records them in the resource tracker of the revision, and
-- hands the tracker of the older revision to the collector; the clean-up of revisions reads the
-- trackers and spares the revisions they name. The rollout controller dispatches the manifests of two
-- revisions, runs a round of the plan controller on the workload that they share, and has the
-- dispatcher collect the source after a success. Each of these is a function of the world.
--
-- Parameters: `Runtime` has the condition list of crossplane and the reading of a number or
-- percentage of apimachinery, `Http` the exchange with an endpoint and the number of retries, `Api`
-- the API server and the owner references of apimachinery. Named hypotheses state what the code
-- relies on: a number is read as itself (`ReadsInts`, `ReadsNumbers`, `IsIntValue`), and the API
-- server fills in the replicas of a Deployment (`FillsReplicas`). `ObjectApi`, `DispatchApi`,
-- `RevisionApi`, `ComponentApi`, `Reader` and `StepApi` are the API server as the other controllers
-- call it, `Library` the JSON and the merge patches of apimachinery, `RolloutApi` the API server as
-- the rollout controller calls it, `Assembler` the package assemble of the repository, whose
-- results it uses. What they rely on is named `KeepsObjects`, `Spares`, `Deletes`, `KeepsCluster`,
-- `KeepsRevisions`, `KeepsComponents` and `PatchesOwners`: an object that is created or patched is
-- there; no call takes away another object than the one it names, where references that differ in
-- the API version may name one object (`Same`); a deleted object is gone, or has a deletion timestamp
-- while its finalizers hold it; a patch that changes the owners replaces their list.
--
-- What the plan controller relies on is a contract of the workload controllers: `Obeys`, for safety,
-- which the four controllers of the repository keep whatever the API server answers, and `Accepts`,
-- for a rollout that goes well, which is about the calls that such a rollout makes, with an invariant
-- of the status and the world. Rollout/Running has a cluster whose pods are ready at once, on which
-- the Deployment scale controller of the repository keeps `Accepts`.
--
-- Fuel: only the loop `for total > 0` of `FillRolloutBatches` runs on fuel, one unit for each round
-- of the outer loop; a round gives out at least one pod if there is a batch, so the target size and
-- one more is enough. `retry_on_conflict` counts the steps of client-go's DefaultBackoff, which are
-- part of the parameter `DispatchApi`. Every other loop is structural recursion.
--
-- Not modelled: events that are recorded and lines that are logged, the deep copies, the fields
-- that no modelled code reads; the hash of a revision and the making of revisions,
-- the assembling of manifests, the reconcile loop of the health scope, and the other controllers,
-- webhooks and commands of the repository.
pub mod AppRollout
pub mod Apply
pub mod Base
pub mod Cluster
pub mod Dispatch
pub mod Health
pub mod Revisions
pub mod Rollout
pub mod Workflow
