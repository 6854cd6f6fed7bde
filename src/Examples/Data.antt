-- ===== src/Examples/Data.antt =====
-- A repository, an item, a workflow of three jobs and a ledger to run examples on.
use linear_pi_orchestrator.Prelude.{String, true, Option, none, some, List, [], ◌∷◌}
use linear_pi_orchestrator.Domain.{
  RepositoryScope, WorkItem, WorkflowJobDefinition, WorkflowJobTransition, WorkflowRunIdentity,
  WorkflowJobStatus, WorkflowNeed, WorkflowJobState,
}
use linear_pi_orchestrator.Domain.Status.{pending_state}
use linear_pi_orchestrator.Domain.{RunIdentity}
use linear_pi_orchestrator.RunStore.{OpenInput}
use linear_pi_orchestrator.RunStore.Job.{Claim}
use linear_pi_orchestrator.RunStore.Ops.{Call, opens, claims, updates}

abbrev pub repository : RepositoryScope
repository = record { id = "relay"; root = "/work/relay" }

abbrev pub item : WorkItem
item = record {
  source_id = "linear";
  id = "ENG-1";
  title = "Fix \"login\"";
  description = none;
  url = none;
  state = none;
  terminal = none;
  metadata = none;
  trigger_event = none;
}

abbrev pub identity_of : String → WorkflowRunIdentity
identity_of occurrence = record {
  repository = repository;
  workflow_id = "ship";
  source_id = "linear";
  item_id = "ENG-1";
  occurrence = occurrence;
}

abbrev pub identity : WorkflowRunIdentity
identity = identity_of "run-1"

abbrev pub other_identity : WorkflowRunIdentity
other_identity = identity_of "run-2"

abbrev pub worker_identity : RunIdentity
worker_identity = record {
  repository = repository;
  source_id = "linear";
  item_id = "ENG-1";
  trigger_id = "t";
}

abbrev pub input : OpenInput
input = record {
  identity = identity;
  item = item;
  started_at = 1000;
  timeout_at = none;
  concurrency_group = some "ship";
  definition = none;
}

abbrev pub claim_as : String → Claim
claim_as token = record {
  at = 2000;
  attempt_id = token;
  input = none;
  lease_expires_at = some 302000;
}

abbrev pub settle_as : WorkflowJobStatus → Option String → WorkflowJobTransition
settle_as status token = record {
  status = status;
  expected_attempt_id = token;
  input = none;
  needs_attention = none;
  retry_at = none;
  operation = none;
  run_id = none;
  worker_id = none;
  outputs = none;
  message = none;
  error = none;
  at = 3000;
  attempted = some true;
}

-- The job `plan` is claimed by the attempt `a1` and succeeds.
abbrev pub planned : List Call
planned =
    opens input
    ∷ claims identity "plan" (claim_as "a1")
    ∷ updates identity "plan" (settle_as WorkflowJobStatus.succeeded (some "a1"))
    ∷ []

abbrev pub need_on : String → WorkflowNeed
need_on job = record { job = job; status = none }

abbrev pub job_named : String → List WorkflowNeed → Option String → WorkflowJobDefinition
job_named id needs condition = record {
  id = id;
  action_use = "command";
  config = none;
  needs = needs;
  condition = condition;
  continue_on_error = none;
  group = none;
  matrix = none;
  timeout_ms = none;
}

abbrev pub plan : WorkflowJobDefinition
plan = job_named "plan" [] none

abbrev pub build : WorkflowJobDefinition
build = job_named "build" (need_on "plan" ∷ []) none

abbrev pub cleanup : WorkflowJobDefinition
cleanup = job_named "cleanup" (need_on "build" ∷ []) (some "${{ always() }}")

abbrev pub workflow_jobs : List WorkflowJobDefinition
workflow_jobs = plan ∷ build ∷ cleanup ∷ []

abbrev pub state_with : WorkflowJobStatus → WorkflowJobState
state_with status = record pending_state { status = status }
