-- ===== src/RunStore/Ops.antt =====
-- The calls that change the store, as data, and sequences of them.
use linear_pi_orchestrator.Prelude.{String, Option, List, [], ◌∷◌}
use linear_pi_orchestrator.Domain.{Timestamp, WorkflowRunIdentity, WorkflowJobTransition, RunResult}
use linear_pi_orchestrator.RunStore.Job.{Claim}
use linear_pi_orchestrator.RunStore.{
  Records, OpenInput, open_workflow_run, claim_workflow_job, retry_workflow_jobs,
  update_workflow_job, finish_workflow_run,
}

pub data Call : Type 0 where
  opens : OpenInput → Call
  claims : WorkflowRunIdentity → String → Claim → Call
  retries : WorkflowRunIdentity → Option (List String) → Timestamp → Call
  updates : WorkflowRunIdentity → String → WorkflowJobTransition → Call
  finishes : WorkflowRunIdentity → RunResult → Timestamp → Call

unfoldable pub call : Records → Call → Records
call records (opens input) = (open_workflow_run records input).0
call records (claims identity job_id claim) = (claim_workflow_job records identity job_id claim).0
call records (retries identity job_ids at) = (retry_workflow_jobs records identity job_ids at).0
call records (updates identity job_id transition) =
    (update_workflow_job records identity job_id transition).0
call records (finishes identity result at) = (finish_workflow_run records identity result at).0

unfoldable pub calls : Records → List Call → Records
calls records [] = records
calls records (c ∷ cs) = calls (call records c) cs

-- Each call of a list meets a condition.
abbrev pub Each : (Call → Type 0) → List Call → Type 0
Each P [] = Unit
Each P (c ∷ cs) = P c × Each P cs
