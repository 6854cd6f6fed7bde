-- ===== src/Domain/Status.antt =====
-- packages/domain/src/index.ts: what the statuses of jobs, runs and items tell, and when a need is met.
use linear_pi_orchestrator.Prelude.{
  Bool, true, false, Option, none, some, ◌||◌, flag, if◌then◌else◌,
}
use linear_pi_orchestrator.Domain.{
  WorkItem, WorkItemState, opened, active, terminal, unknown, NeedStatus, WorkflowNeed,
  WorkflowJobStatus, pending, omitted, WorkflowJobState,
}

-- { status: "pending", attempts: 0 }
abbrev pub pending_state : WorkflowJobState
pending_state = record {
  status = pending;
  attempt_id = none;
  lease_expires_at = none;
  attempt_history = none;
  input = none;
  needs_attention = none;
  retry_at = none;
  operation = none;
  run_id = none;
  worker_id = none;
  outputs = none;
  message = none;
  error = none;
  started_at = none;
  completed_at = none;
  attempts = 0;
}

abbrev pub is_terminal_job_status : WorkflowJobStatus → Bool
is_terminal_job_status pending = false
is_terminal_job_status WorkflowJobStatus.started = false
is_terminal_job_status WorkflowJobStatus.succeeded = true
is_terminal_job_status WorkflowJobStatus.failed = true
is_terminal_job_status WorkflowJobStatus.skipped = true
is_terminal_job_status omitted = true

abbrev is_terminal_state : Option WorkItemState → Bool
is_terminal_state none = false
is_terminal_state (some opened) = false
is_terminal_state (some active) = false
is_terminal_state (some terminal) = true
is_terminal_state (some unknown) = false

unfoldable pub is_terminal_work_item : WorkItem → Bool
is_terminal_work_item item = flag item.terminal || is_terminal_state item.state

-- `a === b` on job statuses.
abbrev pub same_status : WorkflowJobStatus → WorkflowJobStatus → Bool
same_status pending pending = true
same_status WorkflowJobStatus.started WorkflowJobStatus.started = true
same_status WorkflowJobStatus.succeeded WorkflowJobStatus.succeeded = true
same_status WorkflowJobStatus.failed WorkflowJobStatus.failed = true
same_status WorkflowJobStatus.skipped WorkflowJobStatus.skipped = true
same_status omitted omitted = true
same_status _ _ = false

-- A need's status among the job's statuses.
abbrev pub job_status : NeedStatus → WorkflowJobStatus
job_status NeedStatus.started = WorkflowJobStatus.started
job_status NeedStatus.succeeded = WorkflowJobStatus.succeeded
job_status NeedStatus.failed = WorkflowJobStatus.failed
job_status NeedStatus.skipped = WorkflowJobStatus.skipped

-- `state?.status ?? "pending"`
abbrev pub status_of : Option WorkflowJobState → WorkflowJobStatus
status_of none = pending
status_of (some s) = s.status

pub data Satisfaction : Type 0 where
  met waiting impossible : Satisfaction

-- `needSatisfaction` where the need names no status.
abbrev pub default_satisfaction : WorkflowJobStatus → Satisfaction
default_satisfaction pending = waiting
default_satisfaction WorkflowJobStatus.started = waiting
default_satisfaction WorkflowJobStatus.succeeded = met
default_satisfaction WorkflowJobStatus.failed = impossible
default_satisfaction WorkflowJobStatus.skipped = met
default_satisfaction omitted = impossible

-- `needSatisfaction` of a need and a job's status.
abbrev pub satisfaction_at : Option NeedStatus → WorkflowJobStatus → Satisfaction
satisfaction_at none status = default_satisfaction status
satisfaction_at (some wanted) status =
    if same_status status (job_status wanted)
    then met
    else if is_terminal_job_status status
    then impossible
    else waiting

unfoldable pub need_satisfaction : WorkflowNeed → Option WorkflowJobState → Satisfaction
need_satisfaction need state = satisfaction_at need.status (status_of state)
