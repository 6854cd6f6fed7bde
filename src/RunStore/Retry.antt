-- ===== src/RunStore/Retry.antt =====
-- retryWorkflowJobs in src/application/in-memory-workflow-run-store.ts, and a claim after it.
use linear_pi_orchestrator.Prelude.{
  ◌+◌, String, true, false, Option, none, some, List, [], ◌∷◌, ◌++◌, ◌≡◌, refl, sym, ap, subst, ◌∙◌,
  ◌⊎◌, inl, inr, arith, eq_iff, flag, get_or_else, ◌==◌, Bool-cases,
}
use linear_pi_orchestrator.Prelude.Table
use linear_pi_orchestrator.Prelude.Table.{Table}
use linear_pi_orchestrator.Prelude.Table
use linear_pi_orchestrator.Domain.{
  Timestamp, WorkflowJobState, WorkflowRunRecord, WorkflowRunIdentity,
}
use linear_pi_orchestrator.Domain.Status.{pending_state, is_terminal_job_status}
use linear_pi_orchestrator.Domain.Key.{create_workflow_run_key}
use linear_pi_orchestrator.RunStore.Job.{
  Claim, claim_entry, unclaimable, claimed_job, reset_job, retried_job, retried_jobs,
}
use linear_pi_orchestrator.RunStore.{
  Records, claim_workflow_job, retry_workflow_jobs, job_of, is_running, save, with_job, retried_run,
}
use linear_pi_orchestrator.RunStore.Keyed.{Inv}
use linear_pi_orchestrator.RunStore.Tracked.{history_of}
use linear_pi_orchestrator.RunStore.Keeps.{own_id}

-- `Option.map` of a job's state.
abbrev retried_state :
    Option (List String) → String → Option WorkflowJobState → Option WorkflowJobState
retried_state wanted id none = none
retried_state wanted id (some s) = some (retried_job wanted id s)

get-retried_jobs :
    (wanted : Option (List String)) (jobs : Table WorkflowJobState) (id : String)
    → Table.get (retried_jobs wanted jobs) id ≡ retried_state wanted id (Table.get jobs id)
unfolding Table.get retried_jobs
get-retried_jobs wanted [] id = refl
get-retried_jobs wanted ((j, s) ∷ jobs) id = elim (Bool-cases (j == id)) [
  | inl b ↦ rw b (rw ((eq_iff j id).0 b))
  | inr b ↦ rw b (get-retried_jobs wanted jobs id)
]

-- A job that is over or needs attention.
abbrev pub IsRetryable : WorkflowJobState → Type 0
IsRetryable s = (is_terminal_job_status s.status ≡ true) ⊎ (flag s.needs_attention ≡ true)

reset_of_IsRetryable :
    (id : String) (s : WorkflowJobState) → IsRetryable s → retried_job none id s ≡ reset_job s
reset_of_IsRetryable id s (inl over) = rw over
reset_of_IsRetryable id s (inr attention) = rw attention (ground arith)

retried_or_pending :
    (id : String) (o : Option WorkflowJobState)
    → IsRetryable (get_or_else o pending_state)
    → get_or_else (retried_state none id o) pending_state ≡ reset_job (get_or_else o pending_state)
retried_or_pending id none again = refl
retried_or_pending id (some s) again = reset_of_IsRetryable id s again

job_of-retried_run :
    (r : WorkflowRunRecord) (id : String) (at : Timestamp)
    → IsRetryable (job_of r id)
    → job_of (retried_run none r at) id ≡ reset_job (job_of r id)
job_of-retried_run r id at again =
    rw (get-retried_jobs none r.jobs id) (retried_or_pending id (Table.get r.jobs id) again)

claim-accepts :
    (records : Records) (i : WorkflowRunIdentity) (id : String) (c : Claim) (r : WorkflowRunRecord)
    → Table.get records (create_workflow_run_key i) ≡ some r
    → is_running r.status ≡ true
    → unclaimable (job_of r id) ≡ false
    → claim_workflow_job records i id c
      ≡ save records r (with_job r id (claimed_job (job_of r id) c) c.at)
unfolding claim_workflow_job
claim-accepts records i id c r e running free = rw (e, claim_workflow_job) (rw running (rw free))

retry-saves :
    (records : Records) (i : WorkflowRunIdentity) (at : Timestamp) (r : WorkflowRunRecord)
    → Table.get records (create_workflow_run_key i) ≡ some r
    → retry_workflow_jobs records i none at ≡ save records r (retried_run none r at)
unfolding retry_workflow_jobs
retry-saves records i at r e = rw (e, retry_workflow_jobs)

job_of-with_job :
    (r : WorkflowRunRecord) (id : String) (s : WorkflowJobState) (at : Timestamp)
    → job_of (with_job r id s at) id ≡ s
job_of-with_job r id s at = ap (λ o. get_or_else o pending_state) (Table.get-set_self r.jobs id s)

get-saved :
    (records : Records) (key : String) (r next : WorkflowRunRecord)
    → Inv records
    → Table.get records key ≡ some r
    → Table.get (Table.set records r.id next) key ≡ some next
get-saved records key r next v e =
    subst (λ k. Table.get (Table.set records k next) key ≡ some next) (sym (own_id records key v e))
      (Table.get-set_self records key next)

-- Retrying all jobs of a run lets one that is over, or that needs attention, be claimed at once: the
-- claim succeeds, is one attempt more, and its entry comes last in the trail that the job had.
pub retry-claim :
    (records : Records) (i : WorkflowRunIdentity) (id : String) (c : Claim) (at : Timestamp)
    (r : WorkflowRunRecord)
    → Inv records
    → Table.get records (create_workflow_run_key i) ≡ some r
    → IsRetryable (job_of r id)
    → (run : WorkflowRunRecord) × ((claim_workflow_job
          (retry_workflow_jobs records i none at).0
          i
          id
          c).1
        ≡ some run)
      × ((job_of run id).attempts ≡ (job_of r id).attempts + 1)
      × (history_of (job_of run id) ≡ history_of (job_of r id) ++ claim_entry c ∷ [])
retry-claim records i id c at r v e again =
    let key = create_workflow_run_key i in
    let next = retried_run none r at in
    let reset = job_of-retried_run r id at again in
    let free = subst (λ s. unclaimable s ≡ false) (sym reset) refl in
    let written = job_of-with_job next id (claimed_job (job_of next id) c) c.at in
    (
      with_job next id (claimed_job (job_of next id) c) c.at,
      subst
          (λ x.
            (claim_workflow_job x.0 i id c).1
            ≡ some (with_job next id (claimed_job (job_of next id) c) c.at))
          (sym (retry-saves records i at r e))
          (ap (λ x. x.1)
            (claim-accepts (Table.set records r.id next) i id c next
              (get-saved records key r next v e) refl free)),
      ap (λ s. s.attempts) written ∙ ap (λ s. s.attempts + 1) reset,
      ap history_of written ∙ ap (λ s. history_of s ++ claim_entry c ∷ []) reset,
    )
