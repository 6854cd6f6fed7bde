-- ===== src/Advance/Passes.antt =====
-- AdvanceWorkflow in packages/application/src/workflow-engine.ts: the ledger after a pass.
use linear_pi_orchestrator.Prelude.{String, true, false, some, [], ◌∷◌, ◌≡◌, get_or_else}
use linear_pi_orchestrator.Domain.{
  WorkflowJobState, WorkflowJobDefinition, WorkflowDefinition, WorkflowRunRecord,
}
use linear_pi_orchestrator.Domain.Status.{is_terminal_job_status}
use linear_pi_orchestrator.RunStore.{Records}
use linear_pi_orchestrator.RunStore.Ops.{Call, call, calls, Each}
use linear_pi_orchestrator.RunStore.Keyed.{Inv, call-Inv}
use linear_pi_orchestrator.RunStore.States.{state_at}
use linear_pi_orchestrator.RunStore.Settled.{NoRetry, terminal-calls}
use linear_pi_orchestrator.Advance.{AdvancePorts, is_legacy_pipeline, advance}
use linear_pi_orchestrator.Advance.Preserved.{advance-kept}

terminal-one :
    (records : Records) (c : Call) (key id : String) (s : WorkflowJobState)
    → Inv records
    → NoRetry key c
    → is_terminal_job_status s.status ≡ true
    → state_at records key id ≡ some s
    → state_at (call records c) key id ≡ some s
unfolding calls
terminal-one records c key id s v clear over now =
    terminal-calls records (c ∷ []) key id s v (clear, tt) over now

-- A pass lets a job that is over be: its whole state is the same after it, whether the pass returns or
-- throws. The run is not an old pipeline, whose failed jobs a pass reopens, and the host's steps make
-- no retry of the run.
pub advance-terminal :
    (ports : AdvancePorts) (input : WorkflowDefinition) (records : Records) (r : WorkflowRunRecord)
    (key id : String) (s : WorkflowJobState)
    → ((w : WorkflowDefinition) (r : WorkflowRunRecord)
        → Each (NoRetry key) (ports.reconcile_operations w r).made)
    → ((w : WorkflowDefinition) (r : WorkflowRunRecord)
        → Each (NoRetry key) (ports.refresh_jobs w r).made)
    → ((w : WorkflowDefinition) (job : WorkflowJobDefinition) (r : WorkflowRunRecord)
        → Each (NoRetry key) (ports.execute_job w job r).made)
    → is_legacy_pipeline (get_or_else r.definition input) ≡ false
    → Inv records
    → is_terminal_job_status s.status ≡ true
    → state_at records key id ≡ some s
    → state_at (advance ports input (records, r)).0 key id ≡ some s
advance-terminal ports input records r key id s reconcile refresh execute modern v over now =
    let (_, same) =
      advance-kept (λ records. Inv records × (state_at records key id ≡ some s)) (NoRetry key)
        (λ records c clear p.
          (call-Inv records c p.0, terminal-one records c key id s p.0 clear over p.1))
        (λ i id t. tt) (λ i result at. tt) ports reconcile refresh execute input records r
        (λ legacy. absurd (cc (legacy, modern))) (v, now) in
    same
