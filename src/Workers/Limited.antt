-- ===== src/Workers/Limited.antt =====
-- packages/application/src/manage-workers.ts: the limit of a trigger holds whatever becomes of workers.
use linear_pi_orchestrator.Prelude.{ℕ, ◌≤◌, String, Bool, Option, List, [], ◌∷◌, All}
use linear_pi_orchestrator.Domain.Key.{create_run_key}
use linear_pi_orchestrator.Domain.{WorkItem, RunIdentity, RepositoryScope}
use linear_pi_orchestrator.Domain.Runs.{TriggerDefinition, RunRecord}
use linear_pi_orchestrator.Storage.Runs.{Runs, active_count_for}
use linear_pi_orchestrator.Storage.Runs.Steps.{Steps, start, Steps-then}
use linear_pi_orchestrator.Storage.Runs.Active.{active_count-le}
use linear_pi_orchestrator.Workers.{WorkerHost, CompletionStatus, run_identity, dispatch}
use linear_pi_orchestrator.Workers.Ending.{
  Generation, ResolvedWorker, finish_observed_run, reconcile_persisted_runs, repositories_of,
  stop_workers, stop_and_cleanup_active_runs,
}
use linear_pi_orchestrator.Workers.Dispatching.{IsBounded, IsBeside, dispatch-Steps}
use linear_pi_orchestrator.Workers.Stopping.{
  StopsBy, finish_observed-Steps, reconcile_repositories-Steps, stop_workers-Steps,
  stop_and_cleanup_active-Steps,
}

-- The operations on workers that change the ledger of runs.
pub data Operation : Type 0 where
  dispatches : String → TriggerDefinition → WorkItem → Bool → Operation
  observes : RunRecord → CompletionStatus → Option String → Operation
  reconciles : List Generation → List TriggerDefinition → Operation
  stops : List ResolvedWorker → Operation
  stops_all : List RepositoryScope → Operation

unfoldable pub perform : WorkerHost → Runs → Operation → Runs
unfolding dispatch finish_observed_run reconcile_persisted_runs stop_workers
    stop_and_cleanup_active_runs
perform host runs (dispatches source_id trigger item sidecar) =
    (dispatch host runs source_id trigger item sidecar).0
perform host runs (observes run status error) = finish_observed_run host runs run status error
perform host runs (reconciles observed triggers) =
    reconcile_persisted_runs host observed runs triggers
perform host runs (stops targets) = let result = stop_workers host runs targets [] in result.runs
perform host runs (stops_all repositories) = stop_and_cleanup_active_runs host runs repositories

-- Each operation finds the host as it is then.
unfoldable pub perform_all : Runs → List (WorkerHost × Operation) → Runs
unfolding perform
perform_all runs [] = runs
perform_all runs ((host, operation) ∷ operations) =
    perform_all (perform host runs operation) operations

-- A dispatch for the trigger `who` has a limit of at most `n`, and what others write while a dispatch
-- waits for the host is steps within the limit that leave the run of the dispatch alone.
abbrev pub AllowsAtMost : RunIdentity → ℕ → WorkerHost × Operation → Type 0
AllowsAtMost who n (host, dispatches source_id trigger item sidecar) =
    IsBounded host who n source_id trigger item
    × IsBeside host who n (create_run_key (run_identity source_id trigger item))
AllowsAtMost who n (host, operation) = Unit

module _ (who : RunIdentity) (n : ℕ) where
  perform-Steps :
      (host : WorkerHost) (runs : Runs) (operation : Operation)
      → AllowsAtMost who n (host, operation)
      → Steps who n runs (perform host runs operation)
  unfolding perform reconcile_persisted_runs StopsBy
  perform-Steps host runs (dispatches source_id trigger item sidecar) bound =
      dispatch-Steps host who n runs source_id trigger item sidecar bound.0 bound.1
  perform-Steps host runs (observes run status error) bound =
      finish_observed-Steps host who n runs run status error
  perform-Steps host runs (reconciles observed triggers) bound =
      reconcile_repositories-Steps host who n observed runs (repositories_of [] triggers)
  perform-Steps host runs (stops targets) bound = stop_workers-Steps host who n runs targets []
  perform-Steps host runs (stops_all repositories) bound =
      stop_and_cleanup_active-Steps host who n runs repositories

  perform_all-Steps :
      (runs : Runs) (operations : List (WorkerHost × Operation))
      → All (AllowsAtMost who n) operations
      → Steps who n runs (perform_all runs operations)
  unfolding perform_all
  perform_all-Steps runs [] bounds = start
  perform_all-Steps runs ((host, operation) ∷ operations) bounds =
      Steps-then (perform-Steps host runs operation bounds.0)
        (perform_all-Steps (perform host runs operation) operations bounds.1)

-- From an empty ledger, after a sequence of dispatches, completions, reconciliations and stops that are
-- performed one after another, each under a host of its own, a trigger has at most `n` active runs, if
-- each dispatch for it that has a valid limit has a limit of at most `n`, and if what others write
-- before the claim and between the writes of a dispatch is steps of the ledger, their claims for the
-- trigger within the limit too, which after the claim leave the run in hand as it is: a stop that ends
-- that run meanwhile is not covered, nor is a write of others within one of the other operations.
pub active_count-perform_all :
    (who : RunIdentity) (n : ℕ) (operations : List (WorkerHost × Operation))
    → All (AllowsAtMost who n) operations
    → active_count_for (perform_all [] operations) who ≤ n
active_count-perform_all who n operations bounds =
    active_count-le who n (perform_all-Steps who n [] operations bounds)
