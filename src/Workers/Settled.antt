-- ===== src/Workers/Settled.antt =====
-- packages/application/src/manage-workers.ts: what a dispatch leaves in the ledger.
use linear_pi_orchestrator.Prelude.{String, true, false, some, ◌≡◌, ◌⊎◌, is_some}
use linear_pi_orchestrator.Prelude.Table
use linear_pi_orchestrator.Prelude.Results.{Result, ok}
use linear_pi_orchestrator.Domain.{RunStatus}
use linear_pi_orchestrator.Domain.Runs.{RunRecord}
use linear_pi_orchestrator.Storage.Runs.{Runs}
use linear_pi_orchestrator.Workers.{WorkerHost, DispatchOutcome}

-- The run is running in a workspace, with a worker.
abbrev pub IsRunning : DispatchOutcome → RunRecord → Type 0
IsRunning outcome run =
    (outcome.launched ≡ true)
    × (run.status ≡ RunStatus.running)
    × (is_some run.workspace ≡ true)
    × (is_some run.worker ≡ true)

-- The run has failed, for a reason that the outcome repeats.
abbrev pub HasFailed : DispatchOutcome → RunRecord → Type 0
HasFailed outcome run =
    (outcome.launched ≡ false)
    × (run.status ≡ RunStatus.failed)
    × (is_some run.completed_at ≡ true)
    × (is_some run.error ≡ true)
    × (outcome.reason ≡ run.error)

-- A run was claimed and is in the ledger as it is returned.
abbrev pub IsSettled : String → Runs × DispatchOutcome → Type 0
IsSettled key (runs, outcome) =
    (run : RunRecord) × (outcome.claimed ≡ true)
    × (outcome.run ≡ some run)
    × (Table.get runs key ≡ some run)
    × (IsRunning outcome run ⊎ HasFailed outcome run)

module _ (host : WorkerHost) where
  -- What is returned, if something is, is settled.
  abbrev Settles : String → Runs × Result DispatchOutcome → Type 0
  Settles key p = (outcome : DispatchOutcome) → p.1 ≡ ok outcome → IsSettled key (p.0, outcome)
