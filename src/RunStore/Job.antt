-- ===== src/RunStore/Job.antt =====
-- src/application/in-memory-workflow-run-store.ts: what claiming, retrying and updating do to the
-- state of one job.
use linear_pi_orchestrator.Prelude.{
  ◌+◌, String, Bool, false, not, ◌&&◌, ◌||◌, Option, none, some, List, [], ◌∷◌, ◌++◌, map,
  if◌then◌else◌, is_some, get_or_else, patch, truthy, flag, text_eq?, includes,
}
use linear_pi_orchestrator.Prelude.Table
use linear_pi_orchestrator.Prelude.Table.{Table}
use linear_pi_orchestrator.Domain.JsonValue.{Json}
use linear_pi_orchestrator.Domain.{
  Timestamp, pending, completed, AttemptEntry, WorkflowJobState, WorkflowJobTransition,
}
use linear_pi_orchestrator.Domain.Status.{is_terminal_job_status, same_status}

pub record Claim : Type 0 where
  pub at : Timestamp
  pub attempt_id : String
  pub input : Option Json
  pub lease_expires_at : Option Timestamp

-- A job that is not pending, is owned, or needs attention is not claimed.
abbrev pub unclaimable : WorkflowJobState → Bool
unclaimable old =
    not (same_status old.status pending) || truthy old.attempt_id || flag old.needs_attention

abbrev pub claim_entry : Claim → AttemptEntry
claim_entry claim = record {
  attempt_id = claim.attempt_id;
  claimed_at = claim.at;
  completed_at = none;
  status = some pending;
  outcome = none;
}

abbrev pub claimed_job : WorkflowJobState → Claim → WorkflowJobState
claimed_job old claim = record old {
  status = pending;
  attempts = old.attempts + 1;
  started_at = some (get_or_else old.started_at claim.at);
  attempt_id = some claim.attempt_id;
  input = patch claim.input old.input;
  lease_expires_at = patch claim.lease_expires_at old.lease_expires_at;
  attempt_history = some (get_or_else old.attempt_history [] ++ claim_entry claim ∷ []);
}

-- `jobIds?.length ? new Set(jobIds) : undefined`
abbrev pub wanted_jobs : Option (List String) → Option (List String)
wanted_jobs none = none
wanted_jobs (some []) = none
wanted_jobs (some (j ∷ js)) = some (j ∷ js)

abbrev pub unwanted : Option (List String) → String → Bool
unwanted none id = false
unwanted (some js) id = not (includes js id)

abbrev pub reset_job : WorkflowJobState → WorkflowJobState
reset_job state = record state {
  status = pending;
  error = none;
  message = none;
  completed_at = none;
  attempt_id = none;
  needs_attention = none;
  retry_at = none;
  lease_expires_at = none;
  operation = none;
  run_id = none;
  worker_id = none;
}

abbrev pub retried_job : Option (List String) → String → WorkflowJobState → WorkflowJobState
retried_job wanted id state =
    if unwanted wanted id
      || not (is_terminal_job_status state.status) && not (flag state.needs_attention)
    then state
    else reset_job state

unfoldable pub retried_jobs : Option (List String) → Table WorkflowJobState → Table WorkflowJobState
retried_jobs wanted [] = []
retried_jobs wanted ((id, state) ∷ jobs) =
    (id, retried_job wanted id state) ∷ retried_jobs wanted jobs

-- A terminal job, and a job owned by another attempt, refuses the write.
abbrev pub fenced_off : WorkflowJobState → WorkflowJobTransition → Bool
fenced_off old transition =
    is_terminal_job_status old.status
    || not (text_eq? old.attempt_id transition.expected_attempt_id) && is_some old.attempt_id

abbrev pub completed_entry : WorkflowJobTransition → AttemptEntry → AttemptEntry
completed_entry transition entry =
    if text_eq? (some entry.attempt_id) transition.expected_attempt_id
    then record entry {
      status = some transition.status;
      completed_at = some transition.at;
      outcome = if is_terminal_job_status transition.status then some completed else entry.outcome;
    }
    else entry

abbrev pub next_history : WorkflowJobState → WorkflowJobTransition → Option (List AttemptEntry)
next_history old transition =
    if is_some transition.expected_attempt_id
    then some (map (completed_entry transition) (get_or_else old.attempt_history []))
    else old.attempt_history

abbrev pub merged_outputs : Option (Table Json) → Option (Table Json) → Option (Table Json)
merged_outputs none old = old
merged_outputs (some new) old = some (Table.merge (get_or_else old []) new)

abbrev pub updated_job : WorkflowJobState → WorkflowJobTransition → WorkflowJobState
updated_job old transition = record old {
  status = transition.status;
  started_at = some (get_or_else old.started_at transition.at);
  completed_at = if is_terminal_job_status transition.status then some transition.at else none;
  attempts =
      old.attempts + (if flag transition.attempted && not (truthy old.attempt_id) then 1 else 0);
  attempt_id = if is_some transition.expected_attempt_id then none else old.attempt_id;
  lease_expires_at = if is_some transition.expected_attempt_id then none else old.lease_expires_at;
  run_id = patch transition.run_id old.run_id;
  worker_id = patch transition.worker_id old.worker_id;
  outputs = merged_outputs transition.outputs old.outputs;
  message = patch transition.message old.message;
  error = patch transition.error old.error;
  input = patch transition.input old.input;
  operation = patch transition.operation old.operation;
  needs_attention = patch transition.needs_attention old.needs_attention;
  retry_at = patch transition.retry_at old.retry_at;
  attempt_history = patch (next_history old transition) old.attempt_history;
}
