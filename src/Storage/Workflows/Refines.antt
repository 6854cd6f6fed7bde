-- ===== src/Storage/Workflows/Refines.antt =====
-- The SQLite ledger of workflow runs (packages/storage-sqlite/src/index.ts) refines the ledger in
-- memory (src/application/in-memory-workflow-run-store.ts).
use linear_pi_orchestrator.Prelude.{
  String, false, not, ◌||◌, Option, some, List, [], ◌∷◌, ◌≡◌, ◌⊎◌, refl, sym, ap, ◌∙◌, arith,
  Bool-cases, Option-cases, inl, inr,
}
use linear_pi_orchestrator.Prelude.Table
use linear_pi_orchestrator.Prelude.Table.{Table}
use linear_pi_orchestrator.Domain.{
  Timestamp, WorkflowJobStatus, pending, WorkflowJobState, WorkflowRunIdentity, WorkflowRunRecord,
  WorkflowJobTransition, RunResult,
}
use linear_pi_orchestrator.Domain.Key.{create_workflow_run_key}
use linear_pi_orchestrator.RunStore.Job.{
  Claim, unclaimable, claimed_job, wanted_jobs, fenced_off, updated_job,
}
use linear_pi_orchestrator.RunStore.{
  Records, OpenInput, open_workflow_run, claim_workflow_job, retry_workflow_jobs,
  update_workflow_job, finish_workflow_run, is_running, job_of, new_run, with_job, retried_run,
  finished_run,
}
use linear_pi_orchestrator.RunStore.Ops.{
  Call, opens, claims, retries, updates, finishes, call, calls,
}
use linear_pi_orchestrator.Storage.Workflows.{
  Ledger, revised, is_occupied, stored_update, stored_claim, save_workflow, stored_call,
  stored_calls,
}
use linear_pi_orchestrator.Storage.Workflows
use linear_pi_orchestrator.Storage.Workflows.View.{
  clear, view, view_all, view_all-set, view-same_job,
}
use linear_pi_orchestrator.Storage.Workflows.Seen.{call-view}

-- A run that is opened finds its concurrency group free, if it is new.
abbrev pub IsFree : Ledger → Call → Type 0
IsFree ledger (opens input) =
    (is_occupied ledger input ≡ false)
    ⊎ ((run : WorkflowRunRecord) × (Table.get ledger.workflows
            (create_workflow_run_key input.identity)
          ≡ some run))
IsFree ledger c = Unit

stored_claim-same :
    (job : WorkflowJobState) (c : Claim)
    → unclaimable job ≡ false
    → clear (stored_claim job c) ≡ clear (claimed_job job c)
stored_claim-same job c free =
    let is_pending : job.status ≡ pending = ground (arith, free) in
    ap (λ (status : WorkflowJobStatus). record (clear (claimed_job job c)) { status = status })
      is_pending

module _ (job_text : WorkflowJobState → String) where
  -- The two ledgers write runs that look the same.
  same_write :
      (ledger : Ledger) (run run' : WorkflowRunRecord)
      → run.id ≡ run'.id
      → view run ≡ view run'
      → view_all (save_workflow job_text ledger run).workflows
        ≡ view_all (Table.set ledger.workflows run'.id run')
  unfolding save_workflow
  same_write ledger run run' id e =
      view_all-set ledger.workflows run.id (revised (Table.get ledger.workflows run.id) run)
      ∙ (λ i. Table.set (view_all ledger.workflows) (id i) (e i))
      ∙ sym (view_all-set ledger.workflows run'.id run')

  stored-claim :
      (ledger : Ledger) (identity : WorkflowRunIdentity) (id : String) (c : Claim)
      → view_all (Workflows.claim_workflow_job job_text ledger identity id c).0.workflows
        ≡ view_all (claim_workflow_job ledger.workflows identity id c).0
  unfolding claim_workflow_job Workflows.claim_workflow_job
  stored-claim ledger identity id c =
      elim (Option-cases (Table.get ledger.workflows (create_workflow_run_key identity))) [
        | inl e ↦ rw (e, claim_workflow_job, Workflows.claim_workflow_job)
        | inr (r, e) ↦ elim (Bool-cases (not (is_running r.status) || unclaimable (job_of r id))) [
          | inl b ↦ rw (e, claim_workflow_job, Workflows.claim_workflow_job, b)
          | inr b ↦
              rw (e, claim_workflow_job, Workflows.claim_workflow_job, b)
                (same_write ledger (with_job r id (stored_claim (job_of r id) c) c.at)
                  (with_job r id (claimed_job (job_of r id) c) c.at) refl
                  (view-same_job r id (stored_claim (job_of r id) c) (claimed_job (job_of r id) c)
                    c.at (stored_claim-same (job_of r id) c (ground (arith, b)))))
        ]
      ]

  stored-update :
      (ledger : Ledger) (identity : WorkflowRunIdentity) (id : String) (t : WorkflowJobTransition)
      → view_all (Workflows.update_workflow_job job_text ledger identity id t).0.workflows
        ≡ view_all (update_workflow_job ledger.workflows identity id t).0
  unfolding update_workflow_job Workflows.update_workflow_job
  stored-update ledger identity id t =
      elim (Option-cases (Table.get ledger.workflows (create_workflow_run_key identity))) [
        | inl e ↦ rw (e, update_workflow_job, Workflows.update_workflow_job)
        | inr (r, e) ↦ elim (Bool-cases (not (is_running r.status) || fenced_off (job_of r id) t)) [
          | inl b ↦ rw (e, update_workflow_job, Workflows.update_workflow_job, b)
          | inr b ↦
              rw (e, update_workflow_job, Workflows.update_workflow_job, b)
                (same_write ledger (with_job r id (stored_update (job_of r id) t) t.at)
                  (with_job r id (updated_job (job_of r id) t) t.at) refl
                  (view-same_job r id (stored_update (job_of r id) t) (updated_job (job_of r id) t)
                    t.at refl))
        ]
      ]

  stored-finish :
      (ledger : Ledger) (identity : WorkflowRunIdentity) (result : RunResult) (at : Timestamp)
      → view_all (Workflows.finish_workflow_run job_text ledger identity result at).0.workflows
        ≡ view_all (finish_workflow_run ledger.workflows identity result at).0
  unfolding finish_workflow_run Workflows.finish_workflow_run
  stored-finish ledger identity result at =
      elim (Option-cases (Table.get ledger.workflows (create_workflow_run_key identity))) [
        | inl e ↦ rw (e, finish_workflow_run, Workflows.finish_workflow_run)
        | inr (r, e) ↦ elim (Bool-cases (not (is_running r.status))) [
          | inl b ↦ rw (e, finish_workflow_run, Workflows.finish_workflow_run, b)
          | inr b ↦
              rw (e, finish_workflow_run, Workflows.finish_workflow_run, b)
                (same_write ledger (finished_run result r at) (finished_run result r at) refl refl)
        ]
      ]

  stored-retry :
      (ledger : Ledger) (identity : WorkflowRunIdentity) (ids : Option (List String))
      (at : Timestamp)
      → view_all (Workflows.retry_workflow_jobs job_text ledger identity ids at).0.workflows
        ≡ view_all (retry_workflow_jobs ledger.workflows identity ids at).0
  unfolding retry_workflow_jobs Workflows.retry_workflow_jobs
  stored-retry ledger identity ids at =
      elim (Option-cases (Table.get ledger.workflows (create_workflow_run_key identity))) [
        | inl e ↦ rw (e, retry_workflow_jobs, Workflows.retry_workflow_jobs)
        | inr (r, e) ↦
            rw (e, retry_workflow_jobs, Workflows.retry_workflow_jobs)
              (same_write ledger (retried_run (wanted_jobs ids) r at)
                (retried_run (wanted_jobs ids) r at) refl refl)
      ]

  stored-open :
      (ledger : Ledger) (input : OpenInput)
      → IsFree ledger (opens input)
      → view_all (stored_call job_text ledger (opens input)).workflows
        ≡ view_all (open_workflow_run ledger.workflows input).0
  unfolding stored_call open_workflow_run Workflows.open_workflow_run
  stored-open ledger input free =
      elim (Option-cases (Table.get ledger.workflows (create_workflow_run_key input.identity))) [
        | inl e ↦
            let unoccupied : is_occupied ledger input ≡ false = elim free [
              | inl f ↦ f
              | inr (run, found) ↦ absurd (cc)
            ] in
            rw (e, open_workflow_run, Workflows.open_workflow_run, unoccupied)
              (same_write ledger (new_run input) (new_run input) refl refl)
        | inr (r, e) ↦ rw (e, open_workflow_run, Workflows.open_workflow_run)
      ]

  stored_call-call :
      (ledger : Ledger) (c : Call)
      → IsFree ledger c
      → view_all (stored_call job_text ledger c).workflows ≡ view_all (call ledger.workflows c)
  unfolding stored_call call
  stored_call-call ledger (opens input) free = stored-open ledger input free
  stored_call-call ledger (claims identity id c) free = stored-claim ledger identity id c
  stored_call-call ledger (retries identity ids at) free = stored-retry ledger identity ids at
  stored_call-call ledger (updates identity id t) free = stored-update ledger identity id t
  stored_call-call ledger (finishes identity result at) free =
      stored-finish ledger identity result at

  -- No run is opened in a group that another one holds.
  abbrev pub AllFree : Ledger → List Call → Type 0
  AllFree ledger [] = Unit
  AllFree ledger (c ∷ cs) = IsFree ledger c × AllFree (stored_call job_text ledger c) cs

  -- The SQLite ledger and the ledger in memory that look the same (up to the revisions of runs and
  -- the errors of jobs) still look the same after any sequence of calls, if no call opens a new run in
  -- a concurrency group that is held, which the SQLite ledger alone refuses.
  pub stored_calls-Refines :
      (cs : List Call) (ledger : Ledger) (records : Records)
      → view_all ledger.workflows ≡ view_all records
      → AllFree ledger cs
      → view_all (stored_calls job_text ledger cs).workflows ≡ view_all (calls records cs)
  unfolding stored_calls calls
  stored_calls-Refines [] ledger records same free = same
  stored_calls-Refines (c ∷ cs) ledger records same free =
      stored_calls-Refines cs (stored_call job_text ledger c) (call records c)
        (stored_call-call ledger c free.0
          ∙ sym (call-view ledger.workflows c)
          ∙ ap (λ (m : Records). view_all (call m c)) same
          ∙ call-view records c)
        free.1
