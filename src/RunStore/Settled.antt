-- ===== src/RunStore/Settled.antt =====
-- src/application/in-memory-workflow-run-store.ts: jobs that are over.
use linear_pi_orchestrator.Prelude.{
  String, subst, true, false, some, List, [], ◌∷◌, ◌≡◌, ◌≢◌, refl, arith,
}
use linear_pi_orchestrator.Domain.{WorkflowJobState}
use linear_pi_orchestrator.Domain.Status.{is_terminal_job_status}
use linear_pi_orchestrator.Domain.Key.{create_workflow_run_key}
use linear_pi_orchestrator.RunStore.Job.{unclaimable, fenced_off}
use linear_pi_orchestrator.RunStore.{Records}
use linear_pi_orchestrator.RunStore.Cases.{claim_cases, retry_cases, update_cases, finish_cases}
use linear_pi_orchestrator.RunStore.Keyed.{Inv, call-Inv}
use linear_pi_orchestrator.RunStore.States.{state_at}
use linear_pi_orchestrator.RunStore.Ops.{
  Call, opens, claims, retries, updates, finishes, call, calls, Each,
}
use linear_pi_orchestrator.RunStore.Keeps.{write-keeps, same_jobs-keeps, retry-keeps, open-keeps}

-- A call that does not retry the run under this key.
abbrev pub NoRetry : String → Call → Type 0
NoRetry key (retries identity ids at) = create_workflow_run_key identity ≢ key
NoRetry key (opens input) = Unit
NoRetry key (claims identity id c) = Unit
NoRetry key (updates identity id t) = Unit
NoRetry key (finishes identity result at) = Unit

terminal-call :
    (records : Records) (c : Call) (key id : String) (s : WorkflowJobState)
    → Inv records
    → NoRetry key c
    → is_terminal_job_status s.status ≡ true
    → state_at records key id ≡ some s
    → state_at (call records c) key id ≡ some s
unfolding call
terminal-call records (opens input) key id s v clear over now =
    open-keeps records v key id s now input
terminal-call records (claims identity job c) key id s v clear over now =
    claim_cases records identity (λ r. state_at r.0 key id ≡ some s) job c now
      λ r e running free.
        write-keeps records v key id s now _ job r _ c.at e
          λ _ _ same. let free' = subst (λ x. unclaimable x ≡ false) same free in ground arith
terminal-call records (retries identity ids at) key id s v clear over now =
    retry_cases records identity (λ r. state_at r.0 key id ≡ some s) ids at now
      λ r e. retry-keeps records v key id s now _ r _ e clear
terminal-call records (updates identity job t) key id s v clear over now =
    update_cases records identity (λ r. state_at r.0 key id ≡ some s) job t now
      λ r e running free.
        write-keeps records v key id s now _ job r _ t.at e
          λ _ _ same. let free' = subst (λ x. fenced_off x t ≡ false) same free in ground arith
terminal-call records (finishes identity result at) key id s v clear over now =
    finish_cases records identity (λ r. state_at r.0 key id ≡ some s) result at now
      λ r e running. same_jobs-keeps records v key id s now _ r _ e refl

-- A job that succeeded, failed, was skipped or was omitted keeps its whole state through any
-- sequence of calls on a well-kept ledger that does not retry its run.
pub terminal-calls :
    (records : Records) (cs : List Call) (key id : String) (s : WorkflowJobState)
    → Inv records
    → Each (NoRetry key) cs
    → is_terminal_job_status s.status ≡ true
    → state_at records key id ≡ some s
    → state_at (calls records cs) key id ≡ some s
unfolding calls
terminal-calls records [] key id s v clear over now = now
terminal-calls records (c ∷ cs) key id s v clear over now =
    terminal-calls (call records c) cs key id s (call-Inv records c v) clear.1 over
      (terminal-call records c key id s v clear.0 over now)
