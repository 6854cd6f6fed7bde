-- ===== src/Storage/Runs/Steps.antt =====
-- packages/storage-sqlite/src/index.ts: what happens to the runs of workers, as steps.
use linear_pi_orchestrator.Prelude.{ℕ, ◌≤◌, true, some, ◌≡◌}
use linear_pi_orchestrator.Prelude.Table
use linear_pi_orchestrator.Prelude.Table.{Table}
use linear_pi_orchestrator.Domain.JsonValue.{Json}
use linear_pi_orchestrator.Domain.{Timestamp, RunIdentity, is_active_run}
use linear_pi_orchestrator.Domain.Runs.{
  RunRecord, RunClaim, RunTerminalTransition, WorkerChildHandle,
}
use linear_pi_orchestrator.Storage.Runs.{
  Runs, same_trigger, claim, finish_active, mark_workspace_cleaned, record_worker_child,
  record_worker_outputs, update,
}

-- What happens to the runs, where each claim for a trigger has a limit of at most `n`, and an update
-- writes a run back that is stored under its id, for the same identity, and does not revive it.
pub data Step (who : RunIdentity) (n : ℕ) (runs : Runs) : Runs → Type 0 where
  claims :
      (c : RunClaim)
      → (same_trigger c.identity who ≡ true → c.max_concurrent ≤ n)
      → Step who n runs (claim runs c).0
  finishes :
      (identity : RunIdentity) (claimed_at : Timestamp) (t : RunTerminalTransition)
      → Step who n runs (finish_active runs identity claimed_at t).0
  cleans :
      (identity : RunIdentity) (claimed_at at : Timestamp)
      → Step who n runs (mark_workspace_cleaned runs identity claimed_at at).0
  opens :
      (identity : RunIdentity) (claimed_at : Timestamp) (child : WorkerChildHandle) (at : Timestamp)
      → Step who n runs (record_worker_child runs identity claimed_at child at).0
  reports :
      (identity : RunIdentity) (claimed_at : Timestamp) (outputs : Table Json) (at : Timestamp)
      → Step who n runs (record_worker_outputs runs identity claimed_at outputs at).0
  updates :
      (run old : RunRecord)
      → Table.get runs run.id ≡ some old
      → run.identity ≡ old.identity
      → (is_active_run run.status ≡ true → is_active_run old.status ≡ true)
      → Step who n runs (update runs run)

pub data Steps (who : RunIdentity) (n : ℕ) (runs : Runs) : Runs → Type 0 where
  start : Steps who n runs runs
  later : {r s : Runs} → Steps who n runs r → Step who n r s → Steps who n runs s

pub Steps-then :
    {who : RunIdentity} {n : ℕ} {r s t : Runs} → Steps who n r s → Steps who n s t → Steps who n r t
Steps-then first start = first
Steps-then first (later rest step) = later (Steps-then first rest) step

pub one : {who : RunIdentity} {n : ℕ} {r s : Runs} → Step who n r s → Steps who n r s
one step = later start step
