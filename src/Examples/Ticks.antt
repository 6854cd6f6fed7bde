-- ===== src/Examples/Ticks.antt =====
-- The theorems on a pass at concrete inputs.
use linear_pi_orchestrator.Prelude.{true, false, none, some, [], ◌∷◌, ◌≡◌, refl, get_or_else}
use linear_pi_orchestrator.Prelude.Table
use linear_pi_orchestrator.Prelude.Results.{ok}
use linear_pi_orchestrator.Domain.{WorkflowDefinition, WorkflowRunRecord}
use linear_pi_orchestrator.Domain.Key.{
  json_array, json_texts, json_text, escape, escape_char, create_workflow_run_key,
}
use linear_pi_orchestrator.Expressions.{Evaluated}
use linear_pi_orchestrator.RunStore.{
  open_workflow_run, claim_workflow_job, update_workflow_job, new_run, job_of,
}
use linear_pi_orchestrator.RunStore.Ops.{claims, call, calls}
use linear_pi_orchestrator.RunStore.Keyed.{calls-empty-Inv}
use linear_pi_orchestrator.RunStore.States.{state_at}
use linear_pi_orchestrator.Advance.{AdvancePorts, Effect, is_legacy_pipeline, advance}
use linear_pi_orchestrator.Advance.Passes.{advance-terminal}
use linear_pi_orchestrator.Examples.Data.{
  repository, identity, input, claim_as, planned, workflow_jobs,
}

abbrev workflow : WorkflowDefinition
workflow = record {
  id = "ship";
  source_id = "linear";
  repository = repository;
  enabled = true;
  selector = none;
  fire_policy = none;
  max_concurrent = none;
  targets = none;
  metadata = none;
  timeout_ms = none;
  concurrency = none;
  jobs = workflow_jobs;
}

abbrev nothing : Effect
nothing = record { made = []; returned = ok none }

-- A host that claims each job it is told to run.
abbrev host : AdvancePorts
host = record {
  cancelling = record {
    is_date = λ s. false;
    stop_worker = none;
    cancel_operation = λ name. none;
    parse_action_output = none;
    now = 7000;
  };
  evaluator = λ source contexts functions. some (Evaluated.boolean true);
  has_source = true;
  is_aborted = λ job. false;
  reconcile_operations = λ w r. nothing;
  refresh_jobs = λ w r. nothing;
  execute_job = λ w job r. record {
    made = claims r.identity job.id (claim_as "a9") ∷ [];
    returned = ok none;
  };
  message_of = λ reason. "settled";
}

abbrev planned_run : WorkflowRunRecord
unfolding calls call open_workflow_run claim_workflow_job update_workflow_job Table.get Table.set
planned_run =
    get_or_else (Table.get (calls [] planned) (create_workflow_run_key identity)) (new_run input)

advance-terminal_example :
    state_at
      (advance host workflow (calls [] planned, planned_run)).0
      (create_workflow_run_key identity)
      "plan"
    ≡ some (job_of planned_run "plan")
unfolding calls call open_workflow_run claim_workflow_job update_workflow_job Table.get Table.set
    create_workflow_run_key json_array json_texts json_text escape escape_char state_at
    is_legacy_pipeline
advance-terminal_example =
    advance-terminal host workflow (calls [] planned) planned_run (create_workflow_run_key identity)
      "plan" (job_of planned_run "plan") (λ w r. tt) (λ w r. tt) (λ w job r. (tt, tt)) refl
      (calls-empty-Inv planned) refl refl
