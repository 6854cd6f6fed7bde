-- ===== src/Workers.antt =====
-- packages/application/src/manage-workers.ts: the life of a worker's run, over the SQLite ledger.
-- What a worker, a workspace or a source does is the host's, and so is what others write to the ledger
-- while a dispatch waits for it. A time is that of the clock, which stands still during one operation.
pub mod Cases
pub mod Settled
pub mod Dispatching
pub mod Stopping
pub mod Limited
pub mod Ending
use linear_pi_orchestrator.Prelude.{
  ℕ, String, Bool, true, false, not, ◌&&◌, ◌||◌, Option, none, some, List, [], ◌∷◌, ◌++◌, ◌==◌,
  if◌then◌else◌, get_or_else, is_some, nat_eq, any, find,
}
use linear_pi_orchestrator.Prelude.Table
use linear_pi_orchestrator.Prelude.Table.{Table}
use linear_pi_orchestrator.Prelude.Texts.{append}
use linear_pi_orchestrator.Prelude.Results.{Result, ok, thrown, ◌>>=◌}
use linear_pi_orchestrator.Domain.{
  Timestamp, RepositoryScope, WorkItem, RunStatus, RunIdentity, is_active_run,
}
use linear_pi_orchestrator.Domain.Status.{is_terminal_work_item}
use linear_pi_orchestrator.Domain.Key.{create_run_key}
use linear_pi_orchestrator.Domain.Runs.{
  AgentProfile, AgentResolution, TriggerDefinition, Workspace, WorkerHandle, RunRecord, RunClaim,
  TerminalStatus, RunTerminalTransition,
}
use linear_pi_orchestrator.RunStore.{same_repository}
use linear_pi_orchestrator.Storage.Runs.{
  Runs, find_active, claim, finish_active, mark_workspace_cleaned, update, list_active,
}
use linear_pi_orchestrator.Storage.Lookup
use linear_pi_orchestrator.Storage.Lookup.{find_runs_for_item}

pub data CompletionStatus : Type 0 where
  succeeded failed : CompletionStatus

abbrev pub terminal_of : CompletionStatus → TerminalStatus
terminal_of CompletionStatus.succeeded = TerminalStatus.succeeded
terminal_of CompletionStatus.failed = TerminalStatus.failed

pub record WorkerCompletion : Type 0 where
  pub status : CompletionStatus
  pub error : Option String

-- `accepts_claim` is whether the report of a claim succeeds; the other reports change nothing.
-- `write_error` is what writing the run throws, when it throws. What others make of the ledger is
-- `before_claim` while the agent is resolved, up to the claim, and `meanwhile` while the run is reported
-- as claimed, is given a workspace, or is launched.
pub record WorkerHost : Type 0 where
  pub has_source : String → Bool
  pub one_worker_per_item : Bool
  pub is_stopping : Bool
  pub resolve : Option AgentProfile → WorkItem → TriggerDefinition → Result AgentResolution
  pub accepts_claim : RunRecord → Bool
  pub provision : RunRecord → Result Workspace
  pub launch : RunRecord → Workspace → Result WorkerHandle
  pub stop : Option (WorkerHandle → RunRecord → Result (Unit {0}))
  pub reconcile : Option (WorkerHandle → RunRecord → Result (Option WorkerCompletion))
  pub clean : Option (Workspace → RunRecord → Result (Unit {0}))
  pub write_error : RunRecord → Option String
  pub before_claim : Runs → Runs
  pub meanwhile : RunRecord → Runs → Runs
  pub now : Timestamp

pub record DispatchOutcome : Type 0 where
  pub claimed : Bool
  pub launched : Bool
  pub skipped : Bool
  pub failed : Option Bool
  pub reason : Option String
  pub run : Option RunRecord

abbrev pub skip : String → DispatchOutcome
skip reason = record {
  claimed = false;
  launched = false;
  skipped = true;
  failed = none;
  reason = some reason;
  run = none;
}

-- A claim whose run has failed.
abbrev pub failure_of : RunRecord → DispatchOutcome
failure_of run = record {
  claimed = true;
  launched = false;
  skipped = false;
  failed = some true;
  reason = run.error;
  run = some run;
}

abbrev pub launch_of : RunRecord → DispatchOutcome
launch_of run = record {
  claimed = true;
  launched = true;
  skipped = false;
  failed = none;
  reason = none;
  run = some run;
}

abbrev pub normalise_concurrency : Option ℕ → Result ℕ
normalise_concurrency none = ok 1
normalise_concurrency (some value) =
    if nat_eq value 0 then thrown "Trigger maxConcurrent must be a positive integer" else ok value

abbrev worker_name : Option WorkerHandle → String → String
worker_name none other = other
worker_name (some worker) other = worker.id

abbrev pub run_identity : String → TriggerDefinition → WorkItem → RunIdentity
run_identity source_id trigger item = record {
  repository = trigger.repository;
  source_id = source_id;
  item_id = item.id;
  trigger_id = trigger.id;
}

module _ (host : WorkerHost) where
  -- A worker of any trigger that is active for the item.
  abbrev pub active_worker_for_item : Runs → TriggerDefinition → String → String → Option RunRecord
  active_worker_for_item runs trigger source_id item_id =
      if not host.one_worker_per_item
      then none
      else find (λ run. is_some run.worker)
          (find_runs_for_item runs (record {
            repository = trigger.repository;
            source_id = source_id;
            item_id = item_id;
            selection = some Lookup.active;
            include_cleaned = none;
          }))

  abbrev pub with_status : RunStatus → RunRecord → RunRecord
  with_status status run = record run { status = status; updated_at = host.now }

  abbrev pub with_failure : String → RunRecord → RunRecord
  with_failure message run = record run {
    status = RunStatus.failed;
    error = some message;
    completed_at = some host.now;
    updated_at = host.now;
  }

  abbrev pub failed_run : Runs → RunRecord → Option String → Runs × Result DispatchOutcome
  failed_run runs run none = (update runs run, ok (failure_of run))
  failed_run runs run (some message) = (runs, thrown message)

  abbrev pub fail_run : Runs → RunRecord → String → Runs × Result DispatchOutcome
  fail_run runs run message =
      let final = with_failure message run in failed_run runs final (host.write_error final)

  abbrev pub with_worker : WorkerHandle → RunRecord → RunRecord
  with_worker worker run = record run {
    worker = some worker;
    status = RunStatus.running;
    updated_at = host.now;
  }

  abbrev pub running_run : Runs → RunRecord → Option String → Runs × Result DispatchOutcome
  running_run runs running none = (update runs running, ok (launch_of running))
  running_run runs running (some message) = fail_run runs running message

  abbrev pub launched_run : Runs → RunRecord → Result WorkerHandle → Runs × Result DispatchOutcome
  launched_run runs run (thrown message) = fail_run runs run message
  launched_run runs run (ok worker) =
      let running = with_worker worker run in running_run runs running (host.write_error running)

  abbrev pub with_workspace : Workspace → RunRecord → RunRecord
  with_workspace workspace run = record run {
    workspace = some workspace;
    status = RunStatus.launching;
    updated_at = host.now;
  }

  abbrev pub launching_run :
      Runs → RunRecord → Workspace → Option String → Runs × Result DispatchOutcome
  launching_run runs launching workspace none =
      launched_run (host.meanwhile launching (update runs launching)) launching
        (host.launch launching workspace)
  launching_run runs launching workspace (some message) = fail_run runs launching message

  abbrev pub provisioned_run : Runs → RunRecord → Result Workspace → Runs × Result DispatchOutcome
  provisioned_run runs run (thrown message) = fail_run runs run message
  provisioned_run runs run (ok workspace) =
      let launching = with_workspace workspace run in
      launching_run runs launching workspace (host.write_error launching)

  abbrev pub provisioning_run : Runs → RunRecord → Option String → Runs × Result DispatchOutcome
  provisioning_run runs provisioning none =
      provisioned_run (host.meanwhile provisioning (update runs provisioning)) provisioning
        (host.provision provisioning)
  provisioning_run runs provisioning (some message) = fail_run runs provisioning message

  -- From the claim to the worker.
  abbrev pub launch_run : Runs → RunRecord → Runs × Result DispatchOutcome
  launch_run runs run =
      if not (host.accepts_claim run)
      then fail_run (host.meanwhile run runs) run "Source rejected or failed to persist the claim."
      else let provisioning = with_status RunStatus.provisioning run in
        provisioning_run (host.meanwhile run runs) provisioning (host.write_error provisioning)

  abbrev pub launch_claim : Runs × Option RunRecord → Runs × Result DispatchOutcome
  launch_claim (runs, none) =
      (runs, ok (skip "Another relay claimed the ticket or the worker limit was reached."))
  launch_claim (runs, some run) = launch_run runs run

  abbrev pub claim_of : String → TriggerDefinition → WorkItem → AgentResolution → ℕ → RunClaim
  claim_of source_id trigger item agent max_concurrent = record {
    id = create_run_key (run_identity source_id trigger item);
    identity = run_identity source_id trigger item;
    item = item;
    trigger = trigger;
    agent = agent;
    claimed_at = host.now;
    max_concurrent = max_concurrent;
  }

  abbrev pub claim_within :
      Runs
      → String
      → TriggerDefinition
      → WorkItem
      → AgentResolution
      → Result ℕ
      → Runs × Result DispatchOutcome
  claim_within runs source_id trigger item agent (thrown message) = (runs, thrown message)
  claim_within runs source_id trigger item agent (ok max_concurrent) =
      launch_claim (claim runs (claim_of source_id trigger item agent max_concurrent))

  abbrev pub dispatch_as :
      Runs
      → String
      → TriggerDefinition
      → WorkItem
      → Result AgentResolution
      → Runs × Result DispatchOutcome
  dispatch_as runs source_id trigger item (thrown message) =
      (runs, ok (skip (append "Agent resolution failed: " message)))
  dispatch_as runs source_id trigger item (ok agent) =
      claim_within runs source_id trigger item agent (normalise_concurrency trigger.max_concurrent)

  abbrev pub dispatch_beside :
      Runs
      → String
      → TriggerDefinition
      → WorkItem
      → Option RunRecord
      → Runs × Result DispatchOutcome
  dispatch_beside runs source_id trigger item (some sibling) = (
    runs,
    ok (
        skip (
          append "Worker " (
            append (worker_name sibling.worker sibling.id)
              (append " is already active for " (append item.id "."))))),
  )
  dispatch_beside runs source_id trigger item none =
      dispatch_as (host.before_claim runs) source_id trigger item
        (host.resolve trigger.agent item trigger)

  abbrev pub dispatch_new :
      Runs
      → String
      → TriggerDefinition
      → WorkItem
      → Bool
      → Option RunRecord
      → Runs × Result DispatchOutcome
  dispatch_new runs source_id trigger item sidecar (some run) = (
    runs,
    ok (skip (append "Worker " (append (worker_name run.worker "run") " is already active."))),
  )
  dispatch_new runs source_id trigger item sidecar none =
      dispatch_beside runs source_id trigger item
        (if sidecar then none else active_worker_for_item runs trigger source_id item.id)

  unfoldable pub dispatch :
      Runs → String → TriggerDefinition → WorkItem → Bool → Runs × Result DispatchOutcome
  unfolding find_active claim update find_runs_for_item append
  dispatch runs source_id trigger item sidecar =
      if host.is_stopping || is_terminal_work_item item
      then (
        runs,
        ok (skip (if host.is_stopping then "Relay is stopping." else "Ticket is terminal.")),
      )
      else if not (item.source_id == source_id)
      then (
        runs,
        ok (
            skip (
              append "Source '"
                (append item.source_id (append "' does not match '" (append source_id "'."))))),
      )
      else dispatch_new runs source_id trigger item sidecar
          (find_active runs (run_identity source_id trigger item))
