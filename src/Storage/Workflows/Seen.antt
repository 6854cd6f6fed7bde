-- ===== src/Storage/Workflows/Seen.antt =====
-- The ledger in memory (src/application/in-memory-workflow-run-store.ts), up to what is seen of it.
use linear_pi_orchestrator.Prelude.{
  String, not, ◌||◌, Option, none, some, List, ◌≡◌, refl, ap, ◌∙◌, Bool-cases, Option-cases, inl,
  inr,
}
use linear_pi_orchestrator.Prelude.Table
use linear_pi_orchestrator.Prelude.Table.{Table}
use linear_pi_orchestrator.Domain.{
  Timestamp, WorkflowJobState, WorkflowRunIdentity, WorkflowRunRecord, WorkflowJobTransition,
  RunResult,
}
use linear_pi_orchestrator.Domain.Key.{create_workflow_run_key}
use linear_pi_orchestrator.RunStore.Job.{
  Claim, unclaimable, claimed_job, wanted_jobs, fenced_off, updated_job,
}
use linear_pi_orchestrator.RunStore.{
  Records, OpenInput, open_workflow_run, claim_workflow_job, retry_workflow_jobs,
  update_workflow_job, finish_workflow_run, is_running, job_of, new_run, retried_run, finished_run,
}
use linear_pi_orchestrator.RunStore.Ops.{Call, opens, claims, retries, updates, finishes, call}
use linear_pi_orchestrator.Storage.Workflows.View.{
  clear, view, view_all, view_some, get-view_all, view_twice, view_all_twice, view-with_job,
  view_all-save, get-clear_jobs, clear_jobs-retried,
}

-- The ledger in memory does the same to what is seen of it as to itself.
module _ (m : Records) (identity : WorkflowRunIdentity) where
  abbrev key : String
  key = create_workflow_run_key identity

  seen_none : Table.get m key ≡ none → Table.get (view_all m) key ≡ none
  seen_none e = get-view_all m key ∙ ap view_some e

  seen_some :
      (r : WorkflowRunRecord)
      → Table.get m key ≡ some r
      → Table.get (view_all m) key ≡ some (view r)
  seen_some r e = get-view_all m key ∙ ap view_some e

  claim-view :
      (id : String) (c : Claim)
      → view_all (claim_workflow_job (view_all m) identity id c).0
        ≡ view_all (claim_workflow_job m identity id c).0
  unfolding claim_workflow_job
  claim-view id c = elim (Option-cases (Table.get m key)) [
    | inl e ↦ rw (e, seen_none e, claim_workflow_job) (view_all_twice m)
    | inr (r, e) ↦ elim (Bool-cases (not (is_running r.status) || unclaimable (job_of r id))) [
      | inl b ↦
          rw (e, seen_some r e, claim_workflow_job, get-clear_jobs r.jobs id, b) (view_all_twice m)
      | inr b ↦
          rw (e, seen_some r e, claim_workflow_job, get-clear_jobs r.jobs id, b)
            (view_all-save m _ _ refl (
              view-with_job r id (claimed_job (clear (job_of r id)) c) (claimed_job (job_of r id) c)
                c.at refl))
    ]
  ]

  update-view :
      (id : String) (t : WorkflowJobTransition)
      → view_all (update_workflow_job (view_all m) identity id t).0
        ≡ view_all (update_workflow_job m identity id t).0
  unfolding update_workflow_job
  update-view id t = elim (Option-cases (Table.get m key)) [
    | inl e ↦ rw (e, seen_none e, update_workflow_job) (view_all_twice m)
    | inr (r, e) ↦ elim (Bool-cases (not (is_running r.status) || fenced_off (job_of r id) t)) [
      | inl b ↦
          rw (e, seen_some r e, update_workflow_job, get-clear_jobs r.jobs id, b) (view_all_twice m)
      | inr b ↦
          rw (e, seen_some r e, update_workflow_job, get-clear_jobs r.jobs id, b)
            (view_all-save m _ _ refl (
              view-with_job r id (updated_job (clear (job_of r id)) t) (updated_job (job_of r id) t)
                t.at refl))
    ]
  ]

  retry-view :
      (ids : Option (List String)) (at : Timestamp)
      → view_all (retry_workflow_jobs (view_all m) identity ids at).0
        ≡ view_all (retry_workflow_jobs m identity ids at).0
  unfolding retry_workflow_jobs
  retry-view ids at = elim (Option-cases (Table.get m key)) [
    | inl e ↦ rw (e, seen_none e, retry_workflow_jobs) (view_all_twice m)
    | inr (r, e) ↦
        rw (e, seen_some r e, retry_workflow_jobs)
          (view_all-save m (retried_run (wanted_jobs ids) (view r) at)
            (retried_run (wanted_jobs ids) r at) refl
            (ap
              (λ (jobs : Table WorkflowJobState).
                record (view (retried_run (wanted_jobs ids) r at)) { jobs = jobs })
              (clear_jobs-retried (wanted_jobs ids) r.jobs)))
  ]

  finish-view :
      (result : RunResult) (at : Timestamp)
      → view_all (finish_workflow_run (view_all m) identity result at).0
        ≡ view_all (finish_workflow_run m identity result at).0
  unfolding finish_workflow_run
  finish-view result at = elim (Option-cases (Table.get m key)) [
    | inl e ↦ rw (e, seen_none e, finish_workflow_run) (view_all_twice m)
    | inr (r, e) ↦ elim (Bool-cases (not (is_running r.status))) [
      | inl b ↦ rw (e, seen_some r e, finish_workflow_run, b) (view_all_twice m)
      | inr b ↦
          rw (e, seen_some r e, finish_workflow_run, b)
            (view_all-save m (finished_run result (view r) at) (finished_run result r at) refl
              (view_twice (finished_run result r at)))
    ]
  ]

open-view :
    (m : Records) (input : OpenInput)
    → view_all (open_workflow_run (view_all m) input).0 ≡ view_all (open_workflow_run m input).0
unfolding open_workflow_run
open-view m input = elim (Option-cases (Table.get m (create_workflow_run_key input.identity))) [
  | inl e ↦
      rw (e, seen_none m input.identity e, open_workflow_run)
        (view_all-save m (new_run input) (new_run input) refl refl)
  | inr (r, e) ↦ rw (e, seen_some m input.identity r e, open_workflow_run) (view_all_twice m)
]

pub call-view : (m : Records) (c : Call) → view_all (call (view_all m) c) ≡ view_all (call m c)
unfolding call
call-view m (opens input) = open-view m input
call-view m (claims identity id c) = claim-view m identity id c
call-view m (retries identity ids at) = retry-view m identity ids at
call-view m (updates identity id t) = update-view m identity id t
call-view m (finishes identity result at) = finish-view m identity result at
