-- ===== src/RunStore/Cases.antt =====
-- src/application/in-memory-workflow-run-store.ts: a rule for the ends of each method, for any property
-- of the records and the result.
use linear_pi_orchestrator.Prelude.{
  ℕ, String, true, false, not, ◌||◌, Option, none, some, List, ◌≡◌, inl, inr, arith, Bool-cases,
  Option-cases,
}
use linear_pi_orchestrator.Prelude.Table
use linear_pi_orchestrator.Domain.{
  WorkflowRunIdentity, WorkflowRunRecord, WorkflowJobTransition, RunResult,
}
use linear_pi_orchestrator.Domain.Key.{create_workflow_run_key}
use linear_pi_orchestrator.RunStore.Job.{
  Claim, unclaimable, claimed_job, wanted_jobs, fenced_off, updated_job,
}
use linear_pi_orchestrator.RunStore.{
  Records, OpenInput, open_workflow_run, claim_workflow_job, retry_workflow_jobs,
  update_workflow_job, finish_workflow_run, is_running, job_of, new_run, save, with_job,
  retried_run, finished_run,
}

module _ {ℓ} (records : Records) (identity : WorkflowRunIdentity)
    (P : Records × Option WorkflowRunRecord → Type ℓ) where
  abbrev IsCurrent : WorkflowRunRecord → Type 0
  IsCurrent current = Table.get records (create_workflow_run_key identity) ≡ some current

  pub claim_cases :
      (id : String) (c : Claim)
      → P (records, none)
      → ((current : WorkflowRunRecord)
          → IsCurrent current
          → is_running current.status ≡ true
          → unclaimable (job_of current id) ≡ false
          → P (save records current (with_job current id (claimed_job (job_of current id) c) c.at)))
      → P (claim_workflow_job records identity id c)
  unfolding claim_workflow_job
  claim_cases id c refused claimed =
      elim (Option-cases (Table.get records (create_workflow_run_key identity))) [
        | inl e ↦ rw (e, claim_workflow_job) refused
        | inr (r, e) ↦
            rw (e, claim_workflow_job)
              (elim (Bool-cases (not (is_running r.status) || unclaimable (job_of r id))) [
                | inl b ↦ rw b refused
                | inr b ↦ rw b (claimed r e (ground arith) (ground arith))
              ])
      ]

  pub retry_cases :
      (ids : Option (List String)) (at : ℕ)
      → P (records, none)
      → ((current : WorkflowRunRecord)
          → IsCurrent current
          → P (save records current (retried_run (wanted_jobs ids) current at)))
      → P (retry_workflow_jobs records identity ids at)
  unfolding retry_workflow_jobs
  retry_cases ids at refused retried =
      elim (Option-cases (Table.get records (create_workflow_run_key identity))) [
        | inl e ↦ rw (e, retry_workflow_jobs) refused
        | inr (r, e) ↦ rw (e, retry_workflow_jobs) (retried r e)
      ]

  pub update_cases :
      (id : String) (t : WorkflowJobTransition)
      → P (records, none)
      → ((current : WorkflowRunRecord)
          → IsCurrent current
          → is_running current.status ≡ true
          → fenced_off (job_of current id) t ≡ false
          → P (save records current (with_job current id (updated_job (job_of current id) t) t.at)))
      → P (update_workflow_job records identity id t)
  unfolding update_workflow_job
  update_cases id t refused updated =
      elim (Option-cases (Table.get records (create_workflow_run_key identity))) [
        | inl e ↦ rw (e, update_workflow_job) refused
        | inr (r, e) ↦
            rw (e, update_workflow_job)
              (elim (Bool-cases (not (is_running r.status) || fenced_off (job_of r id) t)) [
                | inl b ↦ rw b refused
                | inr b ↦ rw b (updated r e (ground arith) (ground arith))
              ])
      ]

  pub finish_cases :
      (result : RunResult) (at : ℕ)
      → P (records, none)
      → ((current : WorkflowRunRecord)
          → IsCurrent current
          → is_running current.status ≡ true
          → P (save records current (finished_run result current at)))
      → P (finish_workflow_run records identity result at)
  unfolding finish_workflow_run
  finish_cases result at refused finished =
      elim (Option-cases (Table.get records (create_workflow_run_key identity))) [
        | inl e ↦ rw (e, finish_workflow_run) refused
        | inr (r, e) ↦
            rw (e, finish_workflow_run)
              (elim (Bool-cases (is_running r.status)) [
                | inl b ↦ rw b (finished r e b)
                | inr b ↦ rw b refused
              ])
      ]

pub open_cases {ℓ} :
    (records : Records) (input : OpenInput) (P : Records × WorkflowRunRecord → Type ℓ)
    → ((existing : WorkflowRunRecord)
        → Table.get records (create_workflow_run_key input.identity) ≡ some existing
        → P (records, existing))
    → (Table.get records (create_workflow_run_key input.identity) ≡ none
        → P (
          Table.set records (create_workflow_run_key input.identity) (new_run input),
          new_run input,
        ))
    → P (open_workflow_run records input)
unfolding open_workflow_run
open_cases records input P old new =
    elim (Option-cases (Table.get records (create_workflow_run_key input.identity))) [
      | inl e ↦ rw (e, open_workflow_run) (new e)
      | inr (r, e) ↦ rw (e, open_workflow_run) (old r e)
    ]
