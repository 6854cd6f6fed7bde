-- ===== src/Workers/Stopping.antt =====
-- packages/application/src/manage-workers.ts: what ends the runs of workers is a sequence of steps of
-- the ledger of runs.
use linear_pi_orchestrator.Prelude.{
  ℕ, String, Option, none, some, List, [], ◌∷◌, ◌++◌, Bool-cases, inl, inr, any,
}
use linear_pi_orchestrator.Prelude.Results.{Result, ok, thrown}
use linear_pi_orchestrator.Domain.{RunIdentity, is_active_run, RepositoryScope}
use linear_pi_orchestrator.Domain.Runs.{RunRecord, Workspace, WorkerHandle}
use linear_pi_orchestrator.Storage.Runs.{Runs, list_active}
use linear_pi_orchestrator.Storage.Runs.Steps.{Steps, start, Steps-then, one, finishes, cleans}
use linear_pi_orchestrator.Workers.{WorkerHost, WorkerCompletion, CompletionStatus}
use linear_pi_orchestrator.Workers.Ending.{
  Generation, ResolvedWorker, StopResult, finish_observed_run, completed, asked, found_worker,
  reconcile_run, reconcile_each, reconcile_repositories, stop_answer, stopped_run, stop_workers,
  clean_answer, stop_active, cleaned_active, stop_and_cleanup_run, stop_and_cleanup_each,
  stop_and_cleanup_active_runs, is_generation, stopped_at, stopping, unless_thrown,
}

module _ (host : WorkerHost) (who : RunIdentity) (n : ℕ) where
  pub finish_observed-Steps :
      (runs : Runs) (run : RunRecord) (status : CompletionStatus) (error : Option String)
      → Steps who n runs (finish_observed_run host runs run status error)
  unfolding finish_observed_run
  finish_observed-Steps runs run status error = one (finishes run.identity run.claimed_at _)

  completed-Steps :
      (runs : Runs) (run : RunRecord) (answer : Result (Option WorkerCompletion))
      → Steps who n runs (completed host runs run answer)
  completed-Steps runs run (thrown message) = finish_observed-Steps runs run _ _
  completed-Steps runs run (ok none) = start
  completed-Steps runs run (ok (some completion)) = finish_observed-Steps runs run _ _

  asked-Steps :
      (runs : Runs) (run : RunRecord) (worker : WorkerHandle)
      (reconcile : Option (WorkerHandle → RunRecord → Result (Option WorkerCompletion)))
      → Steps who n runs (asked host runs run worker reconcile)
  asked-Steps runs run worker none = start
  asked-Steps runs run worker (some reconcile) = completed-Steps runs run (reconcile worker run)

  found_worker-Steps :
      (runs : Runs) (run : RunRecord) (worker : Option WorkerHandle)
      → Steps who n runs (found_worker host runs run worker)
  found_worker-Steps runs run none = finish_observed-Steps runs run _ _
  found_worker-Steps runs run (some worker) = asked-Steps runs run worker host.reconcile

  reconcile_run-Steps :
      (observed : List Generation) (runs : Runs) (run : RunRecord)
      → Steps who n runs (reconcile_run host observed runs run)
  unfolding reconcile_run
  reconcile_run-Steps observed runs run = elim (Bool-cases (any (is_generation run) observed)) [
    | inl here ↦ rw here start
    | inr elsewhere ↦ elim (Bool-cases (host.has_source run.identity.source_id)) [
      | inl source ↦ rw (elsewhere, source) (found_worker-Steps runs run run.worker)
      | inr sourceless ↦ rw (elsewhere, sourceless) start
    ]
  ]

  reconcile_each-Steps :
      (observed : List Generation) (runs : Runs) (list : List RunRecord)
      → Steps who n runs (reconcile_each host observed runs list)
  unfolding reconcile_each
  reconcile_each-Steps observed runs [] = start
  reconcile_each-Steps observed runs (run ∷ rest) =
      Steps-then (reconcile_run-Steps observed runs run)
        (reconcile_each-Steps observed (reconcile_run host observed runs run) rest)

  pub reconcile_repositories-Steps :
      (observed : List Generation) (runs : Runs) (repositories : List RepositoryScope)
      → Steps who n runs (reconcile_repositories host observed runs repositories)
  unfolding reconcile_repositories
  reconcile_repositories-Steps observed runs [] = start
  reconcile_repositories-Steps observed runs (repository ∷ rest) =
      Steps-then (reconcile_each-Steps observed runs (list_active runs repository)) (
        reconcile_repositories-Steps observed
          (reconcile_each host observed runs (list_active runs repository)) rest)

  unfoldable pub StopsBy : Runs → StopResult → Type 0
  StopsBy runs result = Steps who n runs result.runs

  stopping-Steps :
      (runs : Runs) (rest : StopResult) (answer : Result (Unit {0}))
      → StopsBy runs rest
      → StopsBy runs (stopping host runs rest answer)
  unfolding StopsBy
  stopping-Steps runs rest (thrown message) steps = start
  stopping-Steps runs rest (ok u) steps = steps

  pub stop_workers-Steps :
      (runs : Runs) (targets : List ResolvedWorker) (ids : List String)
      → StopsBy runs (stop_workers host runs targets ids)
  unfolding stop_workers StopsBy
  stop_workers-Steps runs [] ids = start
  stop_workers-Steps runs (target ∷ targets) ids =
      elim (Bool-cases (is_active_run target.run.status)) [
        | inr over ↦ rw over (stop_workers-Steps runs targets ids)
        | inl active ↦ rw active (
            stopping-Steps runs _ (stop_answer host host.stop target.worker target.run) (
              Steps-then
                (one (finishes target.run.identity target.run.claimed_at (stopped_at host.now)))
                (stop_workers-Steps (stopped_run host runs target.run) targets
                  (ids ++ target.worker.id ∷ []))))
      ]

  unless_thrown-Steps :
      (runs after : Runs) (answer : Result (Unit {0}))
      → Steps who n runs after
      → Steps who n runs (unless_thrown runs after answer)
  unless_thrown-Steps runs after (thrown message) steps = start
  unless_thrown-Steps runs after (ok u) steps = steps

  cleaned-Steps :
      (runs : Runs) (run : RunRecord) (workspace : Option Workspace)
      → Steps who n runs (cleaned_active host runs run workspace)
  cleaned-Steps runs run none = start
  cleaned-Steps runs run (some workspace) =
      unless_thrown-Steps runs _ (clean_answer host host.clean workspace run)
        (one (cleans run.identity run.claimed_at host.now))

  stop_and_cleanup-Steps :
      (runs : Runs) (run : RunRecord) → Steps who n runs (stop_and_cleanup_run host runs run)
  unfolding stop_and_cleanup_run
  stop_and_cleanup-Steps runs run = unless_thrown-Steps runs _ (stop_active host run.worker run) (
      Steps-then (one (finishes run.identity run.claimed_at (stopped_at host.now)))
        (cleaned-Steps (stopped_run host runs run) run run.workspace))

  stop_and_cleanup_each-Steps :
      (runs : Runs) (list : List RunRecord)
      → Steps who n runs (stop_and_cleanup_each host runs list)
  unfolding stop_and_cleanup_each
  stop_and_cleanup_each-Steps runs [] = start
  stop_and_cleanup_each-Steps runs (run ∷ rest) =
      Steps-then (stop_and_cleanup-Steps runs run)
        (stop_and_cleanup_each-Steps (stop_and_cleanup_run host runs run) rest)

  pub stop_and_cleanup_active-Steps :
      (runs : Runs) (repositories : List RepositoryScope)
      → Steps who n runs (stop_and_cleanup_active_runs host runs repositories)
  unfolding stop_and_cleanup_active_runs
  stop_and_cleanup_active-Steps runs [] = start
  stop_and_cleanup_active-Steps runs (repository ∷ rest) =
      Steps-then (stop_and_cleanup_each-Steps runs (list_active runs repository)) (
        stop_and_cleanup_active-Steps
          (stop_and_cleanup_each host runs (list_active runs repository)) rest)
