-- ===== src/Operations.antt =====
-- packages/application/src/reconcile-operations.ts: ReconcileOperations, over its ports.
pub mod Ports
pub mod Handling
pub mod Completion
use linear_pi_orchestrator.Prelude.{
  String, Bool, true, false, not, ◌||◌, ◌==◌, Option, none, some, List, [], ◌∷◌, ◌++◌,
  if◌then◌else◌,
}
use linear_pi_orchestrator.Prelude.Texts.{append}
use linear_pi_orchestrator.Prelude.Results.{Result, ok, thrown, ◌>>=◌}
use linear_pi_orchestrator.Execution.Values.{
  Value, Members, undefined, null, boolean, number, text, object, array, opaque, is_defined,
}
use linear_pi_orchestrator.Execution.Outcomes.{
  Outcome, has_status, assert_explicit_outcome, valid_date,
}
use linear_pi_orchestrator.Execution.Host.{JobAttempt}
use linear_pi_orchestrator.Operations.Ports.{
  Event, Observer, OperationStatus, OperationTransition, PersistedOperation, ReconcileAction,
  ReconcileOperationsPorts, ReconcileOutcome, ReconcileResult, VersionedOperationPlugin,
  action_text, cancel, failed, needs_attention, object_handle, observes, pending, reconcile,
  skipped, stale, started, succeeded, transitioned, writes,
}

abbrev is_truthy : Value → Bool
is_truthy undefined = false
is_truthy null = false
is_truthy (boolean b) = b
is_truthy (number s finite) = not (s == "0" || s == "-0" || s == "NaN")
is_truthy (text s) = not (s == "")
is_truthy (array vs) = true
is_truthy (object ms) = true
is_truthy opaque = true

abbrev pub rescue_message : ReconcileAction → String → String
rescue_message action m = append (append "Operation " (action_text action)) (append " failed: " m)

module _ {Output : Type 0} (ports : ReconcileOperationsPorts Output) where
  abbrev pub Log : Type 0
  Log = List (Event Output)

  abbrev plain : OperationStatus → Option Output → OperationTransition Output
  plain status output = record {
    status = status;
    output = output;
    operation = none;
    retry_at = undefined;
    error = undefined;
    message = undefined;
    needs_attention = false;
  }

  abbrev failed_at : Outcome Value → Option Output → Value → OperationTransition Output
  failed_at raw output at =
      record (plain (if is_truthy raw.retry_at then pending else failed) output) {
        retry_at = at;
        error = raw.error;
      }

  abbrev retry_of : Value → Result Value
  retry_of undefined = ok undefined
  retry_of v = valid_date ports.is_date v "An operation outcome"

  -- The `switch` over the status.
  unfoldable pub transition_of :
      Outcome Value → Option Output → Result (Option (OperationTransition Output))
  transition_of raw output =
      if has_status raw "succeeded"
      then ok (some (record (plain succeeded output) { message = raw.message }))
      else if has_status raw "skipped"
      then ok (some (record (plain skipped output) { message = raw.message }))
      else if has_status raw "deferred"
      then (valid_date ports.is_date raw.retry_at "An operation outcome" >>= λ at.
          ok (some (record (plain pending output) { retry_at = at; message = raw.reason })))
      else if has_status raw "running"
      then ok (
          some (record (plain started output) {
            operation = object_handle raw.operation;
            message = raw.message;
          }))
      else if has_status raw "failed"
      then (retry_of raw.retry_at >>= λ at. ok (some (failed_at raw output at)))
      else ok none

  abbrev parsed : Value → String → Result (Option Output)
  parsed undefined plugin_use = ok none
  parsed v plugin_use = ports.parse_output v plugin_use >>= λ output. ok (some output)

  unfoldable pub validated_transition :
      Value → String → Result (Option (OperationTransition Output))
  unfolding transition_of
  validated_transition value plugin_use = assert_explicit_outcome ports.is_date value >>= λ raw.
      parsed raw.output plugin_use >>= λ output. transition_of raw output

  abbrev pub attention : String → OperationTransition Output
  attention message = record (plain started none) { message = text message; needs_attention = true }

  abbrev pub outcome_after : ReconcileOutcome → Option Bool → ReconcileOutcome
  outcome_after outcome (some false) = stale
  outcome_after outcome (some true) = outcome
  outcome_after outcome none = outcome

  -- A fenced write under the attempt that started the operation.
  abbrev pub write :
      PersistedOperation
      → Option (OperationTransition Output)
      → ReconcileOutcome
      → Log
      → Log × Result ReconcileOutcome
  write p transition outcome log = (
    log ++ writes p.job_id p.attempt.attempt_id transition ∷ [],
    ports.transition log p.job_id p.attempt.attempt_id transition >>= λ written.
        ok (outcome_after outcome written),
  )

  abbrev pub need_attention : PersistedOperation → String → Log → Log × Result ReconcileOutcome
  need_attention p message log = write p (some (attention message)) needs_attention log

  -- The `catch` branch around the write.
  abbrev pub rescue :
      ReconcileAction
      → PersistedOperation
      → Log × Result ReconcileOutcome
      → Log × Result ReconcileOutcome
  rescue action p (log, ok outcome) = (log, ok outcome)
  rescue action p (log, thrown m) = need_attention p (rescue_message action m) log

  abbrev pub apply :
      PersistedOperation
      → Result (Option (OperationTransition Output))
      → Log
      → Log × Result ReconcileOutcome
  apply p (thrown m) log = (log, thrown m)
  apply p (ok transition) log = write p transition transitioned log

  abbrev pub observer_of :
      ReconcileAction → Option (VersionedOperationPlugin Output) → Option (Observer Output)
  observer_of action none = none
  observer_of reconcile (some plugin) = plugin.reconcile
  observer_of cancel (some plugin) = plugin.cancel

  abbrev pub cannot : ReconcileAction → String → String
  cannot action plugin_use =
      append (append "Action '" plugin_use)
        (append (append "' cannot " (action_text action)) " its saved operation.")

  abbrev pub handle :
      ReconcileAction
      → PersistedOperation
      → Option Members
      → Option (Observer Output)
      → Log
      → Log × Result ReconcileOutcome
  handle action p (some operation) (some observe) log = rescue action p (
      apply p (observe log p.attempt operation >>= λ raw. validated_transition raw p.plugin_use)
        (log ++ observes p operation ∷ []))
  handle action p _ _ log = need_attention p (cannot action p.plugin_use) log

  unfoldable pub handle_operation :
      ReconcileAction → PersistedOperation → Log → Log × Result ReconcileOutcome
  unfolding validated_transition
  handle_operation action p log =
      handle action p (object_handle p.operation)
        (observer_of action (ports.plugin p.plugin_use p.job_id)) log

  abbrev pub result_for : PersistedOperation → ReconcileOutcome → ReconcileResult
  result_for p outcome = record { job_id = p.job_id; outcome = outcome }

  abbrev pub go_on :
      PersistedOperation
      → List ReconcileResult
      → (List ReconcileResult → Log → Log × Result (List ReconcileResult))
      → Log × Result ReconcileOutcome
      → Log × Result (List ReconcileResult)
  go_on p results rest (log, ok outcome) = rest (results ++ result_for p outcome ∷ []) log
  go_on p results rest (log, thrown m) = (log, thrown m)

  unfoldable pub run_operations :
      ReconcileAction
      → List PersistedOperation
      → List ReconcileResult
      → Log
      → Log × Result (List ReconcileResult)
  unfolding handle_operation
  run_operations action [] results log = (log, ok results)
  run_operations action (p ∷ ps) results log =
      go_on p results (run_operations action ps) (handle_operation action p log)

  abbrev pub on_listed :
      ReconcileAction → Result (List PersistedOperation) → Log × Result (List ReconcileResult)
  on_listed action (thrown m) = ([], thrown m)
  on_listed action (ok ps) = run_operations action ps [] []

  -- `reconcile` and `cancel`
  unfoldable pub run_action : ReconcileAction → Log × Result (List ReconcileResult)
  unfolding run_operations
  run_action action = on_listed action ports.list_operations
