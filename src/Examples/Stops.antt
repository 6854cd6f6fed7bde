-- ===== src/Examples/Stops.antt =====
-- The theorems on cancellation at concrete inputs.
use linear_pi_orchestrator.Prelude.{
  true, false, none, some, List, [], ◌∷◌, ◌≡◌, refl, All, get_or_else,
}
use linear_pi_orchestrator.Prelude.Table
use linear_pi_orchestrator.Prelude.Results.{ok}
use linear_pi_orchestrator.Domain.{
  WorkflowJobStatus, WorkflowDefinition, WorkflowRunRecord, WorkflowRunStatus,
}
use linear_pi_orchestrator.Domain.Key.{
  json_array, json_texts, json_text, escape, escape_char, create_workflow_run_key,
}
use linear_pi_orchestrator.RunStore.{open_workflow_run, update_workflow_job, new_run, job_of}
use linear_pi_orchestrator.RunStore.Ops.{Call, opens, updates, call, calls}
use linear_pi_orchestrator.RunStore.Keyed.{calls-empty-Inv}
use linear_pi_orchestrator.Cancellation.{
  CancelPorts, cancel, cancel_job, cancel_jobs, cancelling, is_uncertain, expire_jobs,
  recorded_jobs,
}
use linear_pi_orchestrator.Cancellation.Verified.{IsStopped, cancel-over}
use linear_pi_orchestrator.Cancellation.Expiry.{expire_jobs-stops}
use linear_pi_orchestrator.Examples.Data.{
  repository, identity, input, settle_as, workflow_jobs, plan, build, cleanup,
}

-- A host whose workers can be stopped, and no action that can be cancelled.
abbrev pub host : CancelPorts
host = record {
  is_date = λ s. false;
  stop_worker = some (λ state. ok tt);
  cancel_operation = λ name. none;
  parse_action_output = none;
  now = 7000;
}

abbrev pub workflow : WorkflowDefinition
workflow = record {
  id = "ship";
  source_id = "linear";
  repository = repository;
  enabled = true;
  selector = none;
  fire_policy = none;
  max_concurrent = none;
  targets = none;
  metadata = none;
  timeout_ms = none;
  concurrency = none;
  jobs = workflow_jobs;
}

-- `plan` is running.
abbrev pub started_plan : List Call
started_plan = opens input ∷ updates identity "plan" (settle_as WorkflowJobStatus.started none) ∷ []

abbrev started_run : WorkflowRunRecord
unfolding calls call open_workflow_run update_workflow_job Table.get Table.set
started_run =
    get_or_else (Table.get (calls [] started_plan) (create_workflow_run_key identity))
      (new_run input)

cancel-over_example :
    (final : WorkflowRunRecord) × (Table.get
        (cancel host workflow started_run "Stopped." (calls [] started_plan)).0
        (create_workflow_run_key started_run.identity)
      ≡ some final)
    × (final.status ≡ WorkflowRunStatus.failed)
    × All
        (λ job. IsStopped started_run "Stopped." job.id (job_of final job.id))
        (recorded_jobs started_run.definition workflow)
unfolding calls call open_workflow_run update_workflow_job Table.get Table.set
    create_workflow_run_key json_array json_texts json_text escape escape_char cancel cancel_jobs
    cancel_job is_uncertain
cancel-over_example =
    cancel-over host workflow started_run "Stopped." (calls [] started_plan)
      (calls-empty-Inv started_plan) refl refl refl

-- A host that cannot stop workers, and a running worker.
abbrev helpless : CancelPorts
helpless = record host { stop_worker = none }

abbrev with_worker : List Call
with_worker =
    opens input
    ∷ updates identity "plan"
        (record (settle_as WorkflowJobStatus.started none) { worker_id = some "w1" })
    ∷ []

abbrev worker_run : WorkflowRunRecord
unfolding calls call open_workflow_run update_workflow_job Table.get Table.set
worker_run =
    get_or_else (Table.get (calls [] with_worker) (create_workflow_run_key identity))
      (new_run input)

expire_jobs-stops_example :
    expire_jobs helpless worker_run workflow_jobs (calls [] with_worker) false ≡ (
      (update_workflow_job (calls [] with_worker) worker_run.identity "plan" (
          cancelling helpless
            (job_of worker_run "plan")
            "Workflow run timed out."
            WorkflowJobStatus.omitted
            true)).0,
      true,
    )
unfolding calls call open_workflow_run update_workflow_job Table.get Table.set
    create_workflow_run_key json_array json_texts json_text escape escape_char is_uncertain
expire_jobs-stops_example =
    expire_jobs-stops helpless worker_run plan (build ∷ cleanup ∷ []) (job_of worker_run "plan")
      (calls [] with_worker) refl refl refl
