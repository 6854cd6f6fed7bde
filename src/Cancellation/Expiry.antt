-- ===== src/Cancellation/Expiry.antt =====
-- CancelWorkflow.expire in packages/application/src/workflow-engine.ts.
use linear_pi_orchestrator.Prelude.{
  true, false, Option, none, some, List, [], ◌∷◌, ◌≡◌, refl, ap, ◌∙◌,
}
use linear_pi_orchestrator.Prelude.Table
use linear_pi_orchestrator.Domain.{
  WorkflowJobStatus, WorkflowJobState, WorkflowJobDefinition, WorkflowRunRecord,
}
use linear_pi_orchestrator.Domain.Status.{is_terminal_job_status}
use linear_pi_orchestrator.RunStore.{Records, update_workflow_job}
use linear_pi_orchestrator.Cancellation.{
  CancelPorts, is_uncertain, cancelling, cancel_job, expire_job, expire_jobs,
}

module _ (ports : CancelPorts) (run : WorkflowRunRecord) where
  expire_job-uncertain :
      (job : WorkflowJobDefinition) (o : Option WorkflowJobState) (records : Records)
      → expire_job ports run job o records true ≡ (records, true)
  expire_job-uncertain job none records = refl
  expire_job-uncertain job (some s) records = refl

  expire_jobs-uncertain :
      (jobs : List WorkflowJobDefinition) (records : Records)
      → expire_jobs ports run jobs records true ≡ (records, true)
  unfolding expire_jobs
  expire_jobs-uncertain [] records = refl
  expire_jobs-uncertain (job ∷ jobs) records =
      ap (λ p. expire_jobs ports run jobs p.0 p.1)
        (expire_job-uncertain job (Table.get run.jobs job.id) records)
      ∙ expire_jobs-uncertain jobs records

  -- When a deadline passes and the cancellation of one job cannot be verified, the jobs that are
  -- declared after it are left as they are: all that is written is that this job needs attention.
  pub expire_jobs-stops :
      (job : WorkflowJobDefinition) (jobs : List WorkflowJobDefinition) (state : WorkflowJobState)
      (records : Records)
      → Table.get run.jobs job.id ≡ some state
      → is_terminal_job_status state.status ≡ false
      → is_uncertain ports job state ≡ true
      → expire_jobs ports run (job ∷ jobs) records false ≡ (
        (update_workflow_job records run.identity job.id
            (cancelling ports state "Workflow run timed out." WorkflowJobStatus.omitted true)).0,
        true,
      )
  unfolding expire_jobs cancel_job
  expire_jobs-stops job jobs state records found open_yet uncertain =
      rw found (rw (open_yet, uncertain) (expire_jobs-uncertain jobs _))
