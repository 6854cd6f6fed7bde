-- ===== src/Storage/Runs/Generations.antt =====
-- packages/storage-sqlite/src/index.ts: a run's generation, which is when it was claimed.
use linear_pi_orchestrator.Prelude.{
  false, not, Option, none, some, ◌≡◌, ◌≢◌, arith, nat_eq, Bool-cases, inl, inr,
}
use linear_pi_orchestrator.Prelude.Table
use linear_pi_orchestrator.Prelude.Table.{Table}
use linear_pi_orchestrator.Domain.JsonValue.{Json}
use linear_pi_orchestrator.Domain.{Timestamp, RunIdentity, is_active_run}
use linear_pi_orchestrator.Domain.Key.{create_run_key}
use linear_pi_orchestrator.Domain.Runs.{
  RunRecord, RunClaim, RunTerminalTransition, WorkerChildHandle,
}
use linear_pi_orchestrator.Storage.Runs.{
  Runs, save_run, claimed_run, claim, finish_active, mutate, cleaned_record, mark_workspace_cleaned,
  child_record, record_worker_child, outputs_record, record_worker_outputs,
}
use linear_pi_orchestrator.Storage.Runs.Limit.{claim-granted}

module _ (runs : Runs) (identity : RunIdentity) (run : RunRecord) (claimed_at : Timestamp)
    (found : Table.get runs (create_run_key identity) ≡ some run)
    (other : run.claimed_at ≢ claimed_at) where
  finish_active-stale :
      (t : RunTerminalTransition) → finish_active runs identity claimed_at t ≡ (runs, none)
  unfolding finish_active
  finish_active-stale t =
      let differs : nat_eq run.claimed_at claimed_at ≡ false = ground (arith, other) in
      elim (Bool-cases (not (is_active_run run.status))) [
        | inl over ↦ rw (found, finish_active, over)
        | inr active ↦ rw (found, finish_active, active, differs)
      ]

  mutate-stale :
      (change : RunRecord → Option RunRecord)
      → mutate runs identity claimed_at change ≡ (runs, none)
  unfolding mutate
  mutate-stale change =
      let differs : nat_eq run.claimed_at claimed_at ≡ false = ground (arith, other) in
      rw (found, mutate, differs)

-- After a claim is granted, whoever holds another generation of the run changes nothing: it neither
-- finishes the run nor records a cleaned workspace, a child or outputs.
pub claim-fences :
    (runs : Runs) (c : RunClaim) (run : RunRecord) (claimed_at : Timestamp)
    → (claim runs c).1 ≡ some run
    → c.claimed_at ≢ claimed_at
    → ((t : RunTerminalTransition)
        → finish_active (claim runs c).0 c.identity claimed_at t ≡ ((claim runs c).0, none))
      × ((at : Timestamp)
          → mark_workspace_cleaned (claim runs c).0 c.identity claimed_at at
            ≡ ((claim runs c).0, none))
      × ((child : WorkerChildHandle) (at : Timestamp)
          → record_worker_child (claim runs c).0 c.identity claimed_at child at
            ≡ ((claim runs c).0, none))
      × ((outputs : Table Json) (at : Timestamp)
          → record_worker_outputs (claim runs c).0 c.identity claimed_at outputs at
            ≡ ((claim runs c).0, none))
unfolding mark_workspace_cleaned record_worker_child record_worker_outputs
claim-fences runs c run claimed_at e other =
    let (_, _, granted) = claim-granted runs c run e in
    let key = create_run_key c.identity in
    let stored = Table.get-set_self runs key (claimed_run c) in
    let after = save_run runs (claimed_run c) in
    rw granted (
      finish_active-stale after c.identity (claimed_run c) claimed_at stored other,
      λ at.
          mutate-stale after c.identity (claimed_run c) claimed_at stored other (cleaned_record at),
      λ child at.
          mutate-stale after c.identity (claimed_run c) claimed_at stored other
            (child_record child at),
      λ outputs at.
          mutate-stale after c.identity (claimed_run c) claimed_at stored other
            (outputs_record outputs at),
    )
