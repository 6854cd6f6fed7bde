-- ===== src/Examples/Starts.antt =====
-- StartWorkflow at concrete inputs.
use linear_pi_orchestrator.Prelude.{true, some, none, [], ◌≡◌, refl, All, ltb, if◌then◌else◌}
use linear_pi_orchestrator.Prelude.Table
use linear_pi_orchestrator.Prelude.Texts.{strip_prefix}
use linear_pi_orchestrator.Domain.{WorkflowConcurrency, WorkflowDefinition, WorkflowRunRecord}
use linear_pi_orchestrator.Domain.Key.{
  json_array, json_texts, json_text, escape, escape_char, create_workflow_run_key,
}
use linear_pi_orchestrator.RunStore.{
  Records, open_workflow_run, update_workflow_job, finish_workflow_run, find_workflow_run,
  find_running_in_group, new_run,
}
use linear_pi_orchestrator.RunStore.Ops.{call, calls}
use linear_pi_orchestrator.RunStore.Keyed.{calls-empty-Inv}
use linear_pi_orchestrator.Cancellation.{cancel, cancel_jobs, cancel_job, is_uncertain}
use linear_pi_orchestrator.Starting.{
  StartPorts, start_workflow, workflow_occurrence, cancel_others, clear_group, identity_of, opening,
  live_others, run_number, read_digits,
}
use linear_pi_orchestrator.Starting.Touches.{IsFailed}
use linear_pi_orchestrator.Starting.Exclusive.{start_workflow-excludes}
use linear_pi_orchestrator.Examples.Data.{item}
use linear_pi_orchestrator.Examples.Stops.{host, workflow, started_plan}

abbrev start_host : StartPorts
start_host = record {
  cancelling = host;
  has_source = λ id. true;
  render = λ template item. template;
  item_text = λ item. item.title;
  decimal = λ n. if ltb n 2 then "1" else "2";
  revision = λ name. none;
}

abbrev exclusive : WorkflowConcurrency
exclusive = record { group = "ship"; cancel_in_progress = true }

abbrev shipping : WorkflowDefinition
shipping = record workflow { concurrency = some exclusive }

abbrev ledger : Records
ledger = calls [] started_plan

abbrev new_item_run : WorkflowRunRecord
unfolding workflow_occurrence
new_item_run =
    new_run
      (opening start_host shipping item (some "ship") (identity_of start_host shipping item ledger))

started_new : (start_workflow start_host none shipping item ledger).1 ≡ some new_item_run
unfolding calls call open_workflow_run update_workflow_job finish_workflow_run Table.get Table.set
    create_workflow_run_key json_array json_texts json_text escape escape_char cancel cancel_jobs
    cancel_job is_uncertain start_workflow workflow_occurrence cancel_others clear_group
    find_workflow_run find_running_in_group
started_new = refl

start_workflow-excludes_example :
    (find_workflow_run
        (start_workflow start_host none shipping item ledger).0
        (identity_of start_host shipping item ledger)
      ≡ some new_item_run)
    × All
        (λ other. other.id ≡ create_workflow_run_key (identity_of start_host shipping item ledger))
        (find_running_in_group
          (start_workflow start_host none shipping item ledger).0
          shipping.repository
          (start_host.render exclusive.group item))
    × All
        (λ other.
          IsFailed
            (start_workflow start_host none shipping item ledger).0
            (create_workflow_run_key other.identity))
        (live_others start_host ledger shipping
          (some (start_host.render exclusive.group item))
          (identity_of start_host shipping item ledger))
start_workflow-excludes_example =
    start_workflow-excludes start_host shipping item ledger exclusive new_item_run
      (calls-empty-Inv started_plan) refl refl started_new

twelve : run_number "run-12" ≡ 12
unfolding run_number strip_prefix read_digits
twelve = refl

no_number : run_number "run-1x" ≡ 0
unfolding run_number strip_prefix read_digits
no_number = refl
