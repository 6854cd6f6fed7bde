-- ===== src/Cancellation.antt =====
-- packages/application/src/workflow-engine.ts: CancelWorkflow, over the ledger. Stopping a worker and
-- cancelling an operation are the host's and a plugin's, and answer as they like.
pub mod Writes
pub mod Verified
pub mod Expiry
use linear_pi_orchestrator.Prelude.{
  String, Bool, true, false, not, ◌&&◌, ◌||◌, ◌==◌, Option, none, some, List, [], ◌∷◌,
  if◌then◌else◌, get_or_else, is_some, truthy, ◌≡◌,
}
use linear_pi_orchestrator.Prelude.Table
use linear_pi_orchestrator.Prelude.Texts.{append}
use linear_pi_orchestrator.Prelude.Results.{Result, ok, thrown, ◌>>=◌, ◌>>◌}
use linear_pi_orchestrator.Domain.{
  Timestamp, WorkflowJobStatus, WorkflowJobState, WorkflowJobDefinition, WorkflowDefinition,
  WorkflowRunRecord, WorkflowJobTransition, RunResult,
}
use linear_pi_orchestrator.Domain.Status.{pending_state, is_terminal_job_status, same_status}
use linear_pi_orchestrator.Execution.Values.{
  Value, Members, undefined, null, boolean, number, text, array, object, opaque, is_defined,
  is_text, string_of,
}
use linear_pi_orchestrator.Execution.Outcomes.{Outcome, outcome_of, has_status}
use linear_pi_orchestrator.RunStore.{Records, update_workflow_job, finish_workflow_run, job_of}

-- `cancel_operation` has no entry for an action that is unknown, or that cannot cancel.
pub record CancelPorts : Type 0 where
  pub is_date : String → Bool
  pub stop_worker : Option (WorkflowJobState → Result (Unit {0}))
  pub cancel_operation : String → Option (WorkflowJobState → Result Value)
  pub parse_action_output : Option (String → Value → Result Value)
  pub now : Timestamp

abbrev is_plain_object : Value → Bool
is_plain_object (object ms) = true
is_plain_object v = false

abbrev pub recorded_jobs :
    Option WorkflowDefinition → WorkflowDefinition → List WorkflowJobDefinition
recorded_jobs none workflow = workflow.jobs
recorded_jobs (some definition) workflow = definition.jobs

module _ (ports : CancelPorts) where
  abbrev outcome_status : Value → Bool
  outcome_status (text s) =
      s == "succeeded" || s == "skipped" || s == "deferred" || s == "running" || s == "failed"
  outcome_status v = false

  abbrev valid_members : String → Outcome Value → Result (Outcome Value)
  valid_members action_use o =
      if not (outcome_status o.status)
      then thrown (append (append "Action '" action_use) "' returned an invalid outcome status.")
      else if has_status o "running" && not (is_plain_object o.operation)
      then thrown "A running action must return an object operation handle."
      else if (has_status o "deferred" || has_status o "failed")
          && is_defined o.retry_at
          && not (ports.is_date (string_of o.retry_at))
      then thrown "An action retryAt must be a valid timestamp."
      else ok o

  unfoldable pub validate_explicit_outcome : Value → String → Result (Outcome Value)
  validate_explicit_outcome (object ms) action_use = valid_members action_use (outcome_of ms)
  validate_explicit_outcome v action_use =
      thrown (append (append "Action '" action_use) "' returned an invalid outcome.")

  abbrev parsed : Option (String → Value → Result Value) → String → Value → Result Value
  parsed o action_use undefined = ok undefined
  parsed none action_use v = ok v
  parsed (some parse) action_use v = parse action_use v

  -- `started`, `pending` and `failed` are what running, deferred and failed outcomes become.
  abbrev is_unsettled : Outcome Value → Bool
  is_unsettled o = has_status o "running" || has_status o "deferred" || has_status o "failed"

  abbrev unsettled_result : Result Bool → Bool
  unsettled_result (thrown m) = true
  unsettled_result (ok b) = b

  abbrev cancel_result : Option (WorkflowJobState → Result Value) → String → WorkflowJobState → Bool
  cancel_result none action_use state = true
  cancel_result (some cancel) action_use state = unsettled_result (
      cancel state >>= λ value. validate_explicit_outcome value action_use >>= λ raw.
      parsed ports.parse_action_output action_use raw.output >>= λ output. ok (is_unsettled raw))

  abbrev stop_failed : Result (Unit {0}) → Bool
  stop_failed (ok u) = false
  stop_failed (thrown m) = true

  abbrev stop_uncertain : Option (WorkflowJobState → Result (Unit {0})) → WorkflowJobState → Bool
  stop_uncertain none state = true
  stop_uncertain (some stop) state = stop_failed (stop state)

  abbrev is_started : WorkflowJobState → Bool
  is_started state = same_status state.status WorkflowJobStatus.started

  -- Whether a worker or an operation of the job may be left behind.
  unfoldable pub is_uncertain : WorkflowJobDefinition → WorkflowJobState → Bool
  unfolding validate_explicit_outcome
  is_uncertain job state =
      is_started state && truthy state.worker_id && stop_uncertain ports.stop_worker state
      || is_started state
        && is_some state.operation
        && cancel_result (ports.cancel_operation job.action_use) job.action_use state

  abbrev cancelled_error : WorkflowJobStatus → String → Option String
  cancelled_error WorkflowJobStatus.failed reason = some reason
  cancelled_error status reason = none

  -- A job that is verified to be over is settled with `terminal`, any other is left for an operator.
  abbrev pub cancelling :
      WorkflowJobState → String → WorkflowJobStatus → Bool → WorkflowJobTransition
  cancelling state reason terminal true = record {
    status = WorkflowJobStatus.started;
    expected_attempt_id = state.attempt_id;
    input = none;
    needs_attention = some true;
    retry_at = none;
    operation = none;
    run_id = none;
    worker_id = none;
    outputs = none;
    message = some (append reason " Cancellation could not be verified; inspect before retrying.");
    error = none;
    at = ports.now;
    attempted = none;
  }
  cancelling state reason terminal false = record {
    status = terminal;
    expected_attempt_id = state.attempt_id;
    input = none;
    needs_attention = some false;
    retry_at = none;
    operation = none;
    run_id = none;
    worker_id = none;
    outputs = none;
    message = some reason;
    error = cancelled_error terminal reason;
    at = ports.now;
    attempted = none;
  }

  -- Whether the cancellation is verified. `terminal` is omitted or failed.
  unfoldable pub cancel_job :
      WorkflowRunRecord
      → WorkflowJobDefinition
      → WorkflowJobState
      → String
      → WorkflowJobStatus
      → Records
      → Records × Bool
  unfolding is_uncertain
  cancel_job run job state reason terminal records =
      if is_terminal_job_status state.status then (records, true) else (
        (update_workflow_job records run.identity job.id
            (cancelling state reason terminal (is_uncertain job state))).0,
        not (is_uncertain job state),
      )

  -- The loop of `cancel` from whether some job is uncertain so far; a job with no state is pending.
  unfoldable pub cancel_jobs :
      WorkflowRunRecord → String → List WorkflowJobDefinition → Records → Bool → Records × Bool
  unfolding cancel_job
  cancel_jobs run reason [] records uncertain = (records, uncertain)
  cancel_jobs run reason (job ∷ jobs) records uncertain =
      let (records', verified) =
        cancel_job run job (job_of run job.id) reason WorkflowJobStatus.omitted records in
      cancel_jobs run reason jobs records' (uncertain || not verified)

  -- Finishes the run if no job is uncertain; the result is what `cancel` returns. The sweep of workers
  -- and the event that follow change neither.
  abbrev pub conclude : WorkflowRunRecord → Records × Bool → Records × Bool
  conclude run (records, true) = (records, false)
  conclude run (records, false) =
      ((finish_workflow_run records run.identity RunResult.failed ports.now).0, true)

  unfoldable pub cancel : WorkflowDefinition → WorkflowRunRecord → String → Records → Records × Bool
  unfolding cancel_jobs
  cancel workflow run reason records =
      conclude run (cancel_jobs run reason (recorded_jobs run.definition workflow) records false)

  -- One round of `expire`: a job with no state is passed over, and once a job is uncertain,
  -- `uncertain ||= …` does not evaluate the cancellation of another.
  abbrev pub expire_job :
      WorkflowRunRecord
      → WorkflowJobDefinition
      → Option WorkflowJobState
      → Records
      → Bool
      → Records × Bool
  expire_job run job none records uncertain = (records, uncertain)
  expire_job run job (some state) records true = (records, true)
  expire_job run job (some state) records false =
      let (records', verified) =
        cancel_job run job state "Workflow run timed out." WorkflowJobStatus.omitted records in
      (records', not verified)

  unfoldable pub expire_jobs :
      WorkflowRunRecord → List WorkflowJobDefinition → Records → Bool → Records × Bool
  expire_jobs run [] records uncertain = (records, uncertain)
  expire_jobs run (job ∷ jobs) records uncertain =
      let (records', uncertain') =
        expire_job run job (Table.get run.jobs job.id) records uncertain in
      expire_jobs run jobs records' uncertain'

  unfoldable pub expire : WorkflowDefinition → WorkflowRunRecord → Records → Records × Bool
  unfolding expire_jobs
  expire workflow run records = conclude run (expire_jobs run workflow.jobs records false)
