-- ===== src/Reconciler/Outcome.antt =====
-- src/workflows/reconciler.ts: deadlines, and when a run is finished.
use linear_pi_orchestrator.Prelude.{
  ℕ, ◌+◌, Bool, true, false, not, ◌&&◌, Option, none, some, List, [], ◌∷◌, leb, nat_eq,
  if◌then◌else◌, flag,
}
use linear_pi_orchestrator.Prelude.Table
use linear_pi_orchestrator.Prelude.Table.{Table}
use linear_pi_orchestrator.Domain.{
  Timestamp, WorkflowJobStatus, WorkflowJobDefinition, WorkflowJobState, WorkflowRunRecord,
  RunResult,
}
use linear_pi_orchestrator.Domain.Status.{is_terminal_job_status, same_status, status_of}
use linear_pi_orchestrator.Reconciler.Groups.{States}

abbrev past_deadline : Option ℕ → Option Timestamp → Timestamp → Bool
past_deadline none started now = false
past_deadline (some timeout) none now = false
past_deadline (some timeout) (some started) now =
    not (nat_eq timeout 0) && leb (started + timeout) now

abbrev timed_out_state : WorkflowJobDefinition → Option WorkflowJobState → Timestamp → Bool
timed_out_state job none now = false
timed_out_state job (some s) now =
    not (is_terminal_job_status s.status) && past_deadline job.timeout_ms s.started_at now

-- `now - startedAt >= timeout`; a timeout of 0 is none.
unfoldable pub job_timed_out : WorkflowJobDefinition → Option WorkflowJobState → Timestamp → Bool
job_timed_out job state now = timed_out_state job state now

pub record RunOutcome : Type 0 where
  pub done : Bool
  pub status : RunResult

-- The loop of `runOutcome` over its two variables.
unfoldable pub outcome_loop : List WorkflowJobDefinition → States → Bool → Bool → Bool × Bool
outcome_loop [] states done failed = (done, failed)
outcome_loop (job ∷ jobs) states done failed =
    let status = status_of (Table.get states job.id) in
    outcome_loop jobs states (if is_terminal_job_status status then done else false) (
      if same_status status WorkflowJobStatus.failed && not (flag job.continue_on_error)
      then true
      else failed)

unfoldable pub run_outcome : List WorkflowJobDefinition → States → RunOutcome
run_outcome jobs states =
    let (done, failed) = outcome_loop jobs states true false in
    record { done = done; status = if failed then RunResult.failed else RunResult.succeeded }

abbrev deadline_passed : Option Timestamp → Timestamp → Bool
deadline_passed none now = false
deadline_passed (some deadline) now = leb deadline now

unfoldable pub timed_out : WorkflowRunRecord → Timestamp → Bool
timed_out r now = deadline_passed r.timeout_at now
