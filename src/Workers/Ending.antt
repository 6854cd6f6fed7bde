-- ===== src/Workers/Ending.antt =====
-- packages/application/src/manage-workers.ts: how the runs of workers end. The reports to a source
-- change nothing.
use linear_pi_orchestrator.Prelude.{
  String, Bool, not, ◌&&◌, Option, none, some, List, [], ◌∷◌, ◌++◌, ◌==◌, if◌then◌else◌, nat_eq,
  any,
}
use linear_pi_orchestrator.Prelude.Texts.{append}
use linear_pi_orchestrator.Prelude.Results.{Result, ok, thrown}
use linear_pi_orchestrator.Domain.{Timestamp, RepositoryScope, is_active_run}
use linear_pi_orchestrator.Domain.Runs.{
  TriggerDefinition, Workspace, WorkerHandle, RunRecord, TerminalStatus, RunTerminalTransition,
}
use linear_pi_orchestrator.RunStore.{same_repository}
use linear_pi_orchestrator.Storage.Runs.{Runs, finish_active, mark_workspace_cleaned, list_active}
use linear_pi_orchestrator.Workers.{WorkerHost, WorkerCompletion, CompletionStatus, terminal_of}

-- A run and when it was claimed.
pub record Generation : Type 0 where
  pub id : String
  pub claimed_at : Timestamp

abbrev pub is_generation : RunRecord → Generation → Bool
is_generation run generation =
    generation.id == run.id && nat_eq generation.claimed_at run.claimed_at

-- The repositories of the triggers, each once.
abbrev add_repository : List RepositoryScope → RepositoryScope → List RepositoryScope
add_repository repositories repository =
    if any (same_repository repository) repositories
    then repositories
    else repositories ++ repository ∷ []

abbrev pub repositories_of : List RepositoryScope → List TriggerDefinition → List RepositoryScope
repositories_of repositories [] = repositories
repositories_of repositories (trigger ∷ triggers) =
    repositories_of (add_repository repositories trigger.repository) triggers

abbrev pub stopped_at : Timestamp → RunTerminalTransition
stopped_at now = record { status = TerminalStatus.stopped; completed_at = now; error = none }

-- The ledger after a loop, and the workers that it has stopped or what was thrown.
pub record StopResult : Type 0 where
  pub runs : Runs
  pub stopped : Result (List String)

pub record ResolvedWorker : Type 0 where
  pub worker : WorkerHandle
  pub run : RunRecord

-- What a `try` leaves: nothing more, if its first call throws.
abbrev pub unless_thrown : Runs → Runs → Result (Unit {0}) → Runs
unless_thrown before after (thrown message) = before
unless_thrown before after (ok u) = after

module _ (host : WorkerHost) where
  unfoldable pub finish_observed_run : Runs → RunRecord → CompletionStatus → Option String → Runs
  unfolding finish_active
  finish_observed_run runs observed status error =
      (finish_active runs observed.identity observed.claimed_at
        (record { status = terminal_of status; completed_at = host.now; error = error })).0

  abbrev pub completed : Runs → RunRecord → Result (Option WorkerCompletion) → Runs
  completed runs run (thrown message) =
      finish_observed_run runs run CompletionStatus.failed
        (some (append "Worker reconciliation failed: " message))
  completed runs run (ok none) = runs
  completed runs run (ok (some completion)) =
      finish_observed_run runs run completion.status completion.error

  abbrev pub asked :
      Runs
      → RunRecord
      → WorkerHandle
      → Option (WorkerHandle → RunRecord → Result (Option WorkerCompletion))
      → Runs
  asked runs run worker none = runs
  asked runs run worker (some reconcile) = completed runs run (reconcile worker run)

  abbrev pub found_worker : Runs → RunRecord → Option WorkerHandle → Runs
  found_worker runs run none =
      finish_observed_run runs run CompletionStatus.failed
        (some "Relay restarted before the worker was launched.")
  found_worker runs run (some worker) = asked runs run worker host.reconcile

  unfoldable pub reconcile_run : List Generation → Runs → RunRecord → Runs
  unfolding finish_observed_run append
  reconcile_run observed runs run =
      if any (is_generation run) observed
      then runs
      else if not (host.has_source run.identity.source_id)
      then runs
      else found_worker runs run run.worker

  unfoldable pub reconcile_each : List Generation → Runs → List RunRecord → Runs
  reconcile_each observed runs [] = runs
  reconcile_each observed runs (run ∷ rest) =
      reconcile_each observed (reconcile_run observed runs run) rest

  unfoldable pub reconcile_repositories : List Generation → Runs → List RepositoryScope → Runs
  unfolding list_active
  reconcile_repositories observed runs [] = runs
  reconcile_repositories observed runs (repository ∷ repositories) =
      reconcile_repositories observed (reconcile_each observed runs (list_active runs repository))
        repositories

  unfoldable pub reconcile_persisted_runs : List Generation → Runs → List TriggerDefinition → Runs
  reconcile_persisted_runs observed runs triggers =
      reconcile_repositories observed runs (repositories_of [] triggers)

  -- `agentLauncher.stop?.(worker, run)`
  abbrev pub stop_answer :
      Option (WorkerHandle → RunRecord → Result (Unit {0}))
      → WorkerHandle
      → RunRecord
      → Result (Unit {0})
  stop_answer none worker run = ok tt
  stop_answer (some stop) worker run = stop worker run

  abbrev pub stopped_run : Runs → RunRecord → Runs
  stopped_run runs run = (finish_active runs run.identity run.claimed_at (stopped_at host.now)).0

  abbrev pub stopping : Runs → StopResult → Result (Unit {0}) → StopResult
  stopping runs rest (thrown message) = record { runs = runs; stopped = thrown message }
  stopping runs rest (ok u) = rest

  -- The loop of `stopWorker` over the workers of a reference; what is thrown leaves the rest alone.
  unfoldable pub stop_workers : Runs → List ResolvedWorker → List String → StopResult
  unfolding finish_active
  stop_workers runs [] stopped = record { runs = runs; stopped = ok stopped }
  stop_workers runs (target ∷ targets) stopped =
      let passed = stop_workers runs targets stopped in
      let rest =
        stop_workers (stopped_run runs target.run) targets (stopped ++ target.worker.id ∷ []) in
      if not (is_active_run target.run.status)
      then passed
      else stopping runs rest (stop_answer host.stop target.worker target.run)

  abbrev pub clean_answer :
      Option (Workspace → RunRecord → Result (Unit {0})) → Workspace → RunRecord → Result (Unit {0})
  clean_answer none workspace run = ok tt
  clean_answer (some clean) workspace run = clean workspace run

  abbrev pub stop_active : Option WorkerHandle → RunRecord → Result (Unit {0})
  stop_active none run = ok tt
  stop_active (some worker) run = stop_answer host.stop worker run

  abbrev pub cleaned_active : Runs → RunRecord → Option Workspace → Runs
  cleaned_active runs run none = runs
  cleaned_active runs run (some workspace) =
      unless_thrown runs (mark_workspace_cleaned runs run.identity run.claimed_at host.now).0
        (clean_answer host.clean workspace run)

  -- What is thrown for one run is logged, and the next run follows.
  unfoldable pub stop_and_cleanup_run : Runs → RunRecord → Runs
  unfolding finish_active mark_workspace_cleaned
  stop_and_cleanup_run runs run =
      unless_thrown runs (cleaned_active (stopped_run runs run) run run.workspace)
        (stop_active run.worker run)

  unfoldable pub stop_and_cleanup_each : Runs → List RunRecord → Runs
  stop_and_cleanup_each runs [] = runs
  stop_and_cleanup_each runs (run ∷ rest) =
      stop_and_cleanup_each (stop_and_cleanup_run runs run) rest

  unfoldable pub stop_and_cleanup_active_runs : Runs → List RepositoryScope → Runs
  unfolding list_active
  stop_and_cleanup_active_runs runs [] = runs
  stop_and_cleanup_active_runs runs (repository ∷ repositories) =
      stop_and_cleanup_active_runs (stop_and_cleanup_each runs (list_active runs repository))
        repositories
