-- ===== src/Reconciler/Finish.antt =====
-- runOutcome in src/workflows/reconciler.ts.
use linear_pi_orchestrator.Prelude.{
  Bool, true, false, not, ◌&&◌, ◌||◌, List, [], ◌∷◌, ◌≡◌, ◌↔◌, ◌∙◌, arith, any, all, flag,
  if◌then◌else◌,
}
use linear_pi_orchestrator.Prelude.Table
use linear_pi_orchestrator.Domain.{WorkflowJobStatus, WorkflowJobDefinition, RunResult}
use linear_pi_orchestrator.Domain.Status.{status_of, is_terminal_job_status, same_status}
use linear_pi_orchestrator.Reconciler.Groups.{States}
use linear_pi_orchestrator.Reconciler.Outcome.{run_outcome, outcome_loop}

module _ (states : States) where
  abbrev pub is_over : WorkflowJobDefinition → Bool
  is_over job = is_terminal_job_status (status_of (Table.get states job.id))

  -- The job failed, and a failure of it counts.
  abbrev pub failed_run : WorkflowJobDefinition → Bool
  failed_run job =
      same_status (status_of (Table.get states job.id)) WorkflowJobStatus.failed
      && not (flag job.continue_on_error)

  outcome_loop_lem :
      (jobs : List WorkflowJobDefinition) (done failed : Bool)
      → outcome_loop jobs states done failed
        ≡ (done && all is_over jobs, failed || any failed_run jobs)
  unfolding outcome_loop
  outcome_loop_lem [] done failed = ground arith
  outcome_loop_lem (job ∷ jobs) done failed =
      outcome_loop_lem jobs (if is_over job then done else false)
        (if failed_run job then true else failed)
      ∙ ground arith

  -- A run is done exactly when every declared job is over, and its result is a failure exactly when
  -- some job that does not opt into continuing on an error failed.
  pub run_outcome_iff :
      (jobs : List WorkflowJobDefinition)
      → ((run_outcome jobs states).done ≡ all is_over jobs)
        × (((run_outcome jobs states).status ≡ RunResult.failed) ↔ (any failed_run jobs ≡ true))
  unfolding run_outcome
  run_outcome_iff jobs = ground (arith, outcome_loop_lem jobs true false)
