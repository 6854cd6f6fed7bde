-- ===== src/Starting/Touches.antt =====
-- What a cancellation leaves alone: packages/application/src/workflow-engine.ts, CancelWorkflow.
use linear_pi_orchestrator.Prelude.{
  arith, ap, String, Bool, true, false, some, List, [], ◌∷◌, ◌≡◌, refl, sym, ◌∙◌, subst, ◌==◌,
  Bool-cases, inl, inr,
}
use linear_pi_orchestrator.Prelude.Table
use linear_pi_orchestrator.Domain.{
  WorkflowJobStatus, WorkflowJobState, WorkflowJobDefinition, WorkflowDefinition,
  WorkflowRunIdentity, WorkflowRunRecord, WorkflowJobTransition, WorkflowRunStatus, RunResult,
  Timestamp,
}
use linear_pi_orchestrator.Domain.Status.{is_terminal_job_status}
use linear_pi_orchestrator.Domain.Key.{create_workflow_run_key}
use linear_pi_orchestrator.RunStore.{
  Records, update_workflow_job, finish_workflow_run, is_running, job_of,
}
use linear_pi_orchestrator.RunStore.Cases.{update_cases, finish_cases}
use linear_pi_orchestrator.RunStore.Keyed.{Inv, call-Inv}
use linear_pi_orchestrator.RunStore.Keeps.{own_id}
use linear_pi_orchestrator.RunStore.Ops.{call, updates, finishes}
use linear_pi_orchestrator.Cancellation.{
  CancelPorts, cancel_job, cancel_jobs, cancel, conclude, cancelling, recorded_jobs, is_uncertain,
}

-- The ledger holds a run that has failed under the key.
abbrev pub IsFailed : Records → String → Type 0
IsFailed records key =
    (final : WorkflowRunRecord) × (Table.get records key ≡ some final)
    × (final.status ≡ WorkflowRunStatus.failed)

-- A change of the ledger that is only about the run under `key`, and leaves it failed if it was.
pub record Touches (key : String) (records records' : Records) : Type 0 where
  pub inv : Inv records'
  pub others : (j : String) → (key == j) ≡ false → Table.get records' j ≡ Table.get records j
  pub stays : IsFailed records key → IsFailed records' key

Touches-same : (key : String) (records : Records) → Inv records → Touches key records records
Touches-same key records v = record { inv = v; others = λ j other. refl; stays = λ o. o }

Touches-then :
    (key : String) {r s t : Records} → Touches key r s → Touches key s t → Touches key r t
Touches-then key a b = record {
  inv = b.inv;
  others = λ j other. b.others j other ∙ a.others j other;
  stays = λ o. b.stays (a.stays o);
}

module _ (identity : WorkflowRunIdentity) (records : Records) (v : Inv records) where
  abbrev key : String
  key = create_workflow_run_key identity

  found_status :
      (current final : WorkflowRunRecord)
      → Table.get records key ≡ some current
      → Table.get records key ≡ some final
      → current.status ≡ final.status
  found_status current final found at =
      let same : current ≡ final = ground (arith, found, at) in
      ap (λ (r : WorkflowRunRecord). r.status) same

  written-Touches :
      (current next : WorkflowRunRecord)
      → Table.get records key ≡ some current
      → is_running current.status ≡ true
      → Inv (Table.set records current.id next)
      → Touches key records (Table.set records current.id next)
  written-Touches current next found running inv = record {
    inv = inv;
    others = λ j other.
        let own = own_id records key v found in
        Table.get-set_ne records current.id j next (subst (λ k. (k == j) ≡ false) (sym own) other);
    stays = λ (final, at, failed).
        absurd (ground (arith, found_status current final found at, running, failed));
  }

  update-Touches :
      (id : String) (t : WorkflowJobTransition)
      → Touches key records (update_workflow_job records identity id t).0
  unfolding call
  update-Touches id t =
      update_cases records identity (λ p. Inv p.0 → Touches key records p.0) id t
        (λ inv. Touches-same key records v)
        (λ current found running free inv. written-Touches current _ found running inv)
        (call-Inv records (updates identity id t) v)

  finish-Touches :
      (result : RunResult) (at : Timestamp)
      → Touches key records (finish_workflow_run records identity result at).0
  unfolding call
  finish-Touches result at =
      finish_cases records identity (λ p. Inv p.0 → Touches key records p.0) result at
        (λ inv. Touches-same key records v)
        (λ current found running inv. written-Touches current _ found running inv)
        (call-Inv records (finishes identity result at) v)

module _ (ports : CancelPorts) (run : WorkflowRunRecord) (reason : String) where
  abbrev run_key : String
  run_key = create_workflow_run_key run.identity

  cancel_job-Touches :
      (job : WorkflowJobDefinition) (state : WorkflowJobState) (terminal : WorkflowJobStatus)
      (records : Records)
      → Inv records
      → Touches run_key records (cancel_job ports run job state reason terminal records).0
  unfolding cancel_job
  cancel_job-Touches job state terminal records v =
      elim (Bool-cases (is_terminal_job_status state.status)) [
        | inl over ↦ rw over (Touches-same run_key records v)
        | inr open_yet ↦ rw open_yet (
            update-Touches run.identity records v job.id
              (cancelling ports state reason terminal (is_uncertain ports job state)))
      ]

  cancel_jobs-Touches :
      (jobs : List WorkflowJobDefinition) (records : Records) (uncertain : Bool)
      → Inv records
      → Touches run_key records (cancel_jobs ports run reason jobs records uncertain).0
  unfolding cancel_jobs
  cancel_jobs-Touches [] records uncertain v = Touches-same run_key records v
  cancel_jobs-Touches (job ∷ jobs) records uncertain v =
      let first = cancel_job-Touches job (job_of run job.id) WorkflowJobStatus.omitted records v in
      Touches-then run_key first (cancel_jobs-Touches jobs _ _ first.inv)

  conclude-Touches : (p : Records × Bool) → Inv p.0 → Touches run_key p.0 (conclude ports run p).0
  conclude-Touches (records, true) v = Touches-same run_key records v
  conclude-Touches (records, false) v =
      finish-Touches run.identity records v RunResult.failed ports.now

  pub cancel-Touches :
      (workflow : WorkflowDefinition) (records : Records)
      → Inv records
      → Touches run_key records (cancel ports workflow run reason records).0
  unfolding cancel
  cancel-Touches workflow records v =
      let jobs = cancel_jobs-Touches (recorded_jobs run.definition workflow) records false v in
      Touches-then run_key jobs (
        conclude-Touches
          (cancel_jobs ports run reason (recorded_jobs run.definition workflow) records false)
          jobs.inv)
