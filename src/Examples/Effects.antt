-- ===== src/Examples/Effects.antt =====
-- The theorems on executions and on persisted operations at concrete inputs.
use linear_pi_orchestrator.Prelude.{
  String, true, false, Option, none, some, List, [], ◌∷◌, ◌≡◌, refl, Any, All, ◌≤◌, if◌then◌else◌,
  ◌==◌,
}
use linear_pi_orchestrator.Prelude.Results.{Result, ok, thrown}
use linear_pi_orchestrator.Execution.Values.{Value, undefined, text, object, member, close}
use linear_pi_orchestrator.Execution.Outcomes.{Outcome, select_outcome}
use linear_pi_orchestrator.Execution.{execute_job}
use linear_pi_orchestrator.Execution.Host.{JobAttempt, ExecuteJobOperations}
use linear_pi_orchestrator.Execution.Order.{IsOrdered, execute_job-Follows}
use linear_pi_orchestrator.Execution.Selection.{rank, select_outcome-least}
use linear_pi_orchestrator.Operations.{run_action}
use linear_pi_orchestrator.Operations.Ports.{
  PersistedOperation, ReconcileAction, ReconcileOperationsPorts, ReconcileResult,
}
use linear_pi_orchestrator.Operations.Handling.{IsComplete, run_action-IsComplete}
use linear_pi_orchestrator.Operations.Completion.{run_action-returns}

abbrev attempt : JobAttempt
attempt = record { attempt_id = "a1"; lease_expires_at = none }

abbrev success : Value
success = object (member "status" (text "succeeded") close)

abbrev second_throws : Option (String × JobAttempt) → Result Value
second_throws none = ok success
second_throws (some (w, a)) = if w == "w2" then thrown "lost" else ok success

-- A worker action on two workers, the second of which throws.
abbrev two_workers : ExecuteJobOperations String String String String
two_workers = record {
  is_date = λ s. false;
  resolve_input = λ log. ok "input";
  parse_input = λ raw. ok raw;
  claim_job = λ log i. ok (some attempt);
  list_targets = some (λ log. ok ("w1" ∷ "w2" ∷ []));
  no_targets_outcome = none;
  claim_target = some (λ log t i. ok (some (record { attempt_id = t; lease_expires_at = none })));
  execute = λ log a t i. second_throws t;
  adapt_outcome = none;
  parse_output = λ v. ok "output";
  finish_job = λ log a o rs. ok tt;
  finish_target = some (λ log t a o. ok tt);
  finish_uncertain = λ log a m rs. ok tt;
  heartbeat = some (λ log a t. none);
  valid_interval = true;
}

execute_job-Follows_example : IsOrdered two_workers (execute_job two_workers [])
execute_job-Follows_example = execute_job-Follows two_workers

abbrev outcome : String → Outcome String
outcome status = record {
  status = text status;
  output = "";
  message = undefined;
  retry_at = undefined;
  reason = undefined;
  operation = undefined;
  error = undefined;
}

select_outcome-least_example :
    (b : Outcome String) × (select_outcome (outcome "succeeded" ∷ outcome "failed" ∷ []) ≡ ok b)
    × Any (λ x. x ≡ b) (outcome "succeeded" ∷ outcome "failed" ∷ [])
    × All (λ x. rank b ≤ rank x) (outcome "succeeded" ∷ outcome "failed" ∷ [])
select_outcome-least_example = select_outcome-least (outcome "succeeded") (outcome "failed" ∷ [])

abbrev operations : List PersistedOperation
operations =
    record { job_id = "deploy"; plugin_use = "cloud"; attempt = attempt; operation = success } ∷ []

-- The plugin observes by throwing.
abbrev ports : ReconcileOperationsPorts String
ports = record {
  is_date = λ s. false;
  list_operations = ok operations;
  plugin =
      λ name job. some (record { reconcile = some (λ log a o. thrown "offline"); cancel = none });
  parse_output = λ v name. ok "output";
  transition = λ log job token t. ok none;
}

run_action-IsComplete_example :
    IsComplete ports ReconcileAction.reconcile operations
      (run_action ports ReconcileAction.reconcile)
run_action-IsComplete_example =
    run_action-IsComplete ports ReconcileAction.reconcile operations refl

run_action-returns_example :
    (results : List ReconcileResult) × ((run_action ports ReconcileAction.reconcile).1 ≡ ok results)
run_action-returns_example =
    run_action-returns ports (λ log job token t. (none, refl)) ReconcileAction.reconcile operations
      refl
