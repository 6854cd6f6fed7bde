-- ===== src/Advance.antt =====
-- packages/application/src/workflow-engine.ts: AdvanceWorkflow, one pass over the jobs of a run. The
-- steps that the host or another part takes on the ledger are given as the calls they make and the
-- run they return, or what they throw. What is thrown ends the pass and leaves the ledger as it is
-- then. The clock stands still during a pass.
pub mod Preserved
pub mod Passes
use linear_pi_orchestrator.Prelude.{
  ℕ, String, Bool, true, false, not, ◌&&◌, ◌||◌, ◌==◌, Option, none, some, List, [], ◌∷◌,
  if◌then◌else◌, get_or_else, flag, ltb, map,
}
use linear_pi_orchestrator.Prelude.Table
use linear_pi_orchestrator.Prelude.Results.{Result, ok, thrown}
use linear_pi_orchestrator.Domain.JsonValue.{Json, Fields, string, number, object, close, field}
use linear_pi_orchestrator.Domain.{
  Timestamp, WorkflowJobStatus, WorkflowJobState, WorkflowJobDefinition, WorkflowDefinition,
  WorkflowRunRecord, WorkflowJobTransition, RunResult,
}
use linear_pi_orchestrator.Domain.Status.{same_status, status_of}
use linear_pi_orchestrator.Expressions.{Evaluator}
use linear_pi_orchestrator.Reconciler.Groups.{job_instances}
use linear_pi_orchestrator.Reconciler.Outcome.{job_timed_out, timed_out, run_outcome, RunOutcome}
use linear_pi_orchestrator.Reconciler.{
  JobDecision, run, hold, settle, Settled, SettleReason, settled_status, decide_job,
}
use linear_pi_orchestrator.RunStore.{
  Records, find_workflow_run, retry_workflow_jobs, update_workflow_job, finish_workflow_run,
  is_running, job_of,
}
use linear_pi_orchestrator.RunStore.Ops.{Call, calls}
use linear_pi_orchestrator.Cancellation.{CancelPorts, cancel_job, expire}

-- What a step does to the ledger, and the run that it returns, if it returns one and does not throw.
pub record Effect : Type 0 where
  pub made : List Call
  pub returned : Result (Option WorkflowRunRecord)

-- `reconcile_operations` is ReconcileWorkflowOperations, `message_of` the text of a reason.
pub record AdvancePorts : Type 0 where
  pub cancelling : CancelPorts
  pub evaluator : Evaluator
  pub has_source : Bool
  pub is_aborted : String → Bool
  pub reconcile_operations : WorkflowDefinition → WorkflowRunRecord → Effect
  pub refresh_jobs : WorkflowDefinition → WorkflowRunRecord → Effect
  pub execute_job : WorkflowDefinition → WorkflowJobDefinition → WorkflowRunRecord → Effect
  pub message_of : SettleReason → String

abbrev json_member : Fields → String → Option Json
json_member close k = none
json_member (field j v fs) k = if j == k then some v else json_member fs k

abbrev is_mode : Option Json → Bool
is_mode (some (string s)) = s == "legacy-pipeline"
is_mode _ = false

abbrev is_version : Option Json → Bool
is_version (some (number n)) = n == "1"
is_version _ = false

abbrev is_legacy_marker : Option Json → Bool
is_legacy_marker (some (object fs)) =
    is_mode (json_member fs "mode") && is_version (json_member fs "version")
is_legacy_marker _ = false

abbrev legacy_marker : Option (Table.Table Json) → Option Json
legacy_marker none = none
legacy_marker (some metadata) = Table.get metadata "legacyPipeline"

unfoldable pub is_legacy_pipeline : WorkflowDefinition → Bool
is_legacy_pipeline workflow = is_legacy_marker (legacy_marker workflow.metadata)

abbrev pub settling :
    WorkflowJobState → WorkflowJobStatus → String → Timestamp → WorkflowJobTransition
settling state status message at = record {
  status = status;
  expected_attempt_id = state.attempt_id;
  input = none;
  needs_attention = none;
  retry_at = none;
  operation = none;
  run_id = none;
  worker_id = none;
  outputs = none;
  message = some message;
  error = none;
  at = at;
  attempted = none;
}

-- `return ?? run`
abbrev pub or_run : Option WorkflowRunRecord → WorkflowRunRecord → WorkflowRunRecord
or_run o r = get_or_else o r

-- The ledger and the run as the pass knows it.
abbrev pub Pass : Type 0
Pass = Records × WorkflowRunRecord

abbrev pub with_result : Records × Option WorkflowRunRecord → WorkflowRunRecord → Pass
with_result (records, o) r = (records, or_run o r)

-- The ledger after a part of the pass, with the run or what was thrown.
abbrev pub Ended : Type 0
Ended = Records × Result WorkflowRunRecord

abbrev pub go_on : Pass → Ended
go_on (records, r) = (records, ok r)

abbrev returning : Result (Option WorkflowRunRecord) → WorkflowRunRecord → Result WorkflowRunRecord
returning (thrown m) r = thrown m
returning (ok o) r = ok (or_run o r)

abbrev pub with_effect : Effect → Pass → Ended
with_effect e (records, r) = (calls records e.made, returning e.returned r)

abbrev pub and_then : Ended → (Pass → Ended) → Ended
and_then (records, thrown m) rest = (records, thrown m)
and_then (records, ok r) rest = rest (records, r)

module _ (ports : AdvancePorts) where
  abbrev pub now : Timestamp
  now = ports.cancelling.now

  abbrev pub is_early : Option Timestamp → Bool
  is_early none = false
  is_early (some at) = ltb now at

  abbrev pub needs_attention_of : Option WorkflowJobState → Bool
  needs_attention_of none = false
  needs_attention_of (some s) = flag s.needs_attention

  abbrev pub retries_failed : WorkflowDefinition → Option WorkflowJobState → Bool
  retries_failed workflow state =
      is_legacy_pipeline workflow
      && same_status (status_of state) WorkflowJobStatus.failed
      && not (needs_attention_of state)

  -- A handled failure of an old pipeline is reopened.
  abbrev pub reopen : WorkflowDefinition → WorkflowJobDefinition → Pass → Pass
  reopen workflow job (records, r) =
      if retries_failed workflow (Table.get r.jobs job.id)
      then with_result (retry_workflow_jobs records r.identity (some (job.id ∷ [])) now) r
      else (records, r)

  abbrev pub stop_late : WorkflowJobDefinition → Pass → Pass
  stop_late job (records, r) =
      let records' =
        (cancel_job ports.cancelling r job (job_of r job.id) "Job timed out."
          WorkflowJobStatus.failed records).0 in
      (records', or_run (find_workflow_run records' r.identity) r)

  abbrev pub apply_decision :
      WorkflowDefinition → WorkflowJobDefinition → Pass → Option JobDecision → Ended
  apply_decision workflow job (records, r) none = (records, thrown "RelayExpressionError")
  apply_decision workflow job (records, r) (some (hold reason)) = (records, ok r)
  apply_decision workflow job (records, r) (some (settle status reason)) = go_on (
      with_result
        (update_workflow_job records r.identity job.id
          (settling (job_of r job.id) (settled_status status) (ports.message_of reason) now))
        r)
  apply_decision workflow job (records, r) (some run) =
      with_effect (ports.execute_job workflow job r) (records, r)

  abbrev pub is_waiting : Option WorkflowJobState → Bool
  is_waiting none = false
  is_waiting (some s) = is_early s.retry_at

  abbrev pub decide_round : WorkflowDefinition → WorkflowJobDefinition → Pass → Ended
  decide_round workflow job (records, r) =
      if job_timed_out job (Table.get r.jobs job.id) now
      then go_on (stop_late job (records, r))
      else if is_waiting (Table.get r.jobs job.id)
      then (records, ok r)
      else apply_decision workflow job (records, r)
          (decide_job ports.evaluator (record {
            job = job;
            states = r.jobs;
            item = r.item;
            known = Table.keys (job_instances workflow.jobs);
            instances = some (job_instances workflow.jobs);
          }))

  -- The loop over the jobs; an abort ends it.
  unfoldable pub advance_jobs : WorkflowDefinition → List WorkflowJobDefinition → Pass → Ended
  unfolding is_legacy_pipeline
  advance_jobs workflow [] p = go_on p
  advance_jobs workflow (job ∷ jobs) p =
      let rest =
        and_then (decide_round workflow job (reopen workflow job p)) (advance_jobs workflow jobs) in
      if ports.is_aborted job.id then go_on p else rest

  abbrev pub finish_pass : WorkflowDefinition → Pass → Pass
  finish_pass workflow (records, r) =
      let outcome = run_outcome workflow.jobs r.jobs in
      if outcome.done
      then with_result (finish_workflow_run records r.identity outcome.status now) r
      else (records, r)

  abbrev pub expired : WorkflowDefinition → Pass → Pass
  expired workflow (records, r) =
      let records' = (expire ports.cancelling workflow r records).0 in
      (records', or_run (find_workflow_run records' r.identity) r)

  abbrev pub on_time : WorkflowDefinition → Pass → Ended
  on_time workflow p =
      if timed_out p.1 now
      then go_on (expired workflow p)
      else and_then (advance_jobs workflow workflow.jobs p)
          (λ last. go_on (finish_pass workflow last))

  abbrev pub refreshed : WorkflowDefinition → Pass → Ended
  refreshed workflow (records, r) =
      and_then (with_effect (ports.refresh_jobs workflow r) (records, r)) (on_time workflow)

  unfoldable pub advance : WorkflowDefinition → Pass → Ended
  unfolding advance_jobs
  advance input (records, r) =
      let workflow = get_or_else r.definition input in
      if not ports.has_source || not (is_running r.status) || flag r.needs_attention
      then (records, ok r)
      else and_then (with_effect (ports.reconcile_operations workflow r) (records, r))
          (refreshed workflow)
