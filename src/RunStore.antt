-- ===== src/RunStore.antt =====
-- src/application/in-memory-workflow-run-store.ts: the process-local workflow ledger.
-- A method takes the records and returns them with its result; `undefined` is `none`.
pub mod Job
pub mod Ops
pub mod Cases
pub mod Tracked
pub mod Keyed
pub mod States
pub mod Keeps
pub mod Settled
pub mod Ownership
pub mod Isolation
pub mod Latest
pub mod Retry
use linear_pi_orchestrator.Prelude.{
  String, Bool, true, false, not, ◌&&◌, ◌||◌, Option, none, some, List, [], ◌∷◌, ltb, ◌==◌,
  if◌then◌else◌, get_or_else, truthy, text_eq?, keep, first,
}
use linear_pi_orchestrator.Prelude.Table
use linear_pi_orchestrator.Prelude.Table.{Table}
use linear_pi_orchestrator.Domain.{
  Timestamp, RepositoryScope, WorkItem, WorkflowDefinition, WorkflowJobState, WorkflowRunIdentity,
  WorkflowRunStatus, WorkflowRunRecord, WorkflowJobTransition, RunResult, finished_status,
}
use linear_pi_orchestrator.Domain.Status.{pending_state}
use linear_pi_orchestrator.Domain.Key.{create_workflow_run_key}
use Job.{Claim, unclaimable, claimed_job, wanted_jobs, retried_jobs, fenced_off, updated_job}

-- `this.records`
abbrev pub Records : Type 0
Records = Table WorkflowRunRecord

abbrev pub same_repository : RepositoryScope → RepositoryScope → Bool
same_repository left right = left.id == right.id && left.root == right.root

abbrev pub is_running : WorkflowRunStatus → Bool
is_running WorkflowRunStatus.running = true
is_running WorkflowRunStatus.succeeded = false
is_running WorkflowRunStatus.failed = false

-- `current.jobs[jobId] ?? { status: "pending", attempts: 0 }`
abbrev pub job_of : WorkflowRunRecord → String → WorkflowJobState
job_of run job_id = get_or_else (Table.get run.jobs job_id) pending_state

pub record OpenInput : Type 0 where
  pub identity : WorkflowRunIdentity
  pub item : WorkItem
  pub started_at : Timestamp
  pub timeout_at : Option Timestamp
  pub concurrency_group : Option String
  pub definition : Option WorkflowDefinition

abbrev pub new_run : OpenInput → WorkflowRunRecord
new_run input = record {
  revision = none;
  id = create_workflow_run_key input.identity;
  identity = input.identity;
  item = input.item;
  definition = input.definition;
  status = WorkflowRunStatus.running;
  jobs = [];
  started_at = input.started_at;
  updated_at = input.started_at;
  completed_at = none;
  timeout_at = input.timeout_at;
  concurrency_group = if truthy input.concurrency_group then input.concurrency_group else none;
  needs_attention = none;
  migration = none;
}

unfoldable pub find_workflow_run : Records → WorkflowRunIdentity → Option WorkflowRunRecord
find_workflow_run records identity = Table.get records (create_workflow_run_key identity)

unfoldable pub open_workflow_run : Records → OpenInput → Records × WorkflowRunRecord
open_workflow_run records input =
    elim (Table.get records (create_workflow_run_key input.identity)) [
      | some existing ↦ (records, existing)
      | none ↦ (
        Table.set records (create_workflow_run_key input.identity) (new_run input),
        new_run input,
      )
    ]

-- `this.save(current, patch)`, where `next` is `{ ...current, ...patch }`.
abbrev pub save :
    Records → WorkflowRunRecord → WorkflowRunRecord → Records × Option WorkflowRunRecord
save records current next = (Table.set records current.id next, some next)

abbrev pub with_job : WorkflowRunRecord → String → WorkflowJobState → Timestamp → WorkflowRunRecord
with_job current job_id next at = record current {
  jobs = Table.set current.jobs job_id next;
  updated_at = at;
}

unfoldable pub claim_workflow_job :
    Records → WorkflowRunIdentity → String → Claim → Records × Option WorkflowRunRecord
claim_workflow_job records identity job_id claim =
    elim (Table.get records (create_workflow_run_key identity)) [
      | none ↦ (records, none)
      | some current ↦
          if not (is_running current.status) || unclaimable (job_of current job_id)
          then (records, none)
          else save records current
              (with_job current job_id (claimed_job (job_of current job_id) claim) claim.at)
    ]

unfoldable pub find_running_in_group : Records → RepositoryScope → String → List WorkflowRunRecord
find_running_in_group records repository group =
    keep
      (λ run.
        is_running run.status
        && text_eq? run.concurrency_group (some group)
        && same_repository run.identity.repository repository)
      (Table.values records)

abbrev pub retried_run : Option (List String) → WorkflowRunRecord → Timestamp → WorkflowRunRecord
retried_run wanted current at = record current {
  jobs = retried_jobs wanted current.jobs;
  status = WorkflowRunStatus.running;
  completed_at = none;
  updated_at = at;
}

unfoldable pub retry_workflow_jobs :
    Records
    → WorkflowRunIdentity
    → Option (List String)
    → Timestamp
    → Records × Option WorkflowRunRecord
retry_workflow_jobs records identity job_ids at =
    elim (Table.get records (create_workflow_run_key identity)) [
      | none ↦ (records, none)
      | some current ↦ save records current (retried_run (wanted_jobs job_ids) current at)
    ]

-- `sort` by `startedAt`, the newest first and equals in their order.
unfoldable pub insert_newest : WorkflowRunRecord → List WorkflowRunRecord → List WorkflowRunRecord
insert_newest run [] = run ∷ []
insert_newest run (r ∷ rs) =
    if ltb r.started_at run.started_at then run ∷ r ∷ rs else r ∷ insert_newest run rs

unfoldable pub sort_newest :
    List WorkflowRunRecord → List WorkflowRunRecord → List WorkflowRunRecord
sort_newest sorted [] = sorted
sort_newest sorted (r ∷ rs) = sort_newest (insert_newest r sorted) rs

abbrev pub same_work : WorkflowRunIdentity → WorkflowRunIdentity → Bool
same_work left right =
    same_repository left.repository right.repository
    && left.workflow_id == right.workflow_id
    && left.source_id == right.source_id
    && left.item_id == right.item_id

-- The occurrence of `identity` is not looked at.
unfoldable pub latest_workflow_run : Records → WorkflowRunIdentity → Option WorkflowRunRecord
latest_workflow_run records identity =
    first (sort_newest [] (keep (λ run. same_work run.identity identity) (Table.values records)))

unfoldable pub update_workflow_job :
    Records
    → WorkflowRunIdentity
    → String
    → WorkflowJobTransition
    → Records × Option WorkflowRunRecord
update_workflow_job records identity job_id transition =
    elim (Table.get records (create_workflow_run_key identity)) [
      | none ↦ (records, none)
      | some current ↦
          if not (is_running current.status) || fenced_off (job_of current job_id) transition
          then (records, none)
          else save records current (
              with_job current job_id (updated_job (job_of current job_id) transition)
                transition.at)
    ]

abbrev pub finished_run : RunResult → WorkflowRunRecord → Timestamp → WorkflowRunRecord
finished_run status current completed_at = record current {
  status = finished_status status;
  completed_at = some completed_at;
  updated_at = completed_at;
}

unfoldable pub finish_workflow_run :
    Records → WorkflowRunIdentity → RunResult → Timestamp → Records × Option WorkflowRunRecord
finish_workflow_run records identity status completed_at =
    elim (Table.get records (create_workflow_run_key identity)) [
      | none ↦ (records, none)
      | some current ↦
          if not (is_running current.status)
          then (records, none)
          else save records current (finished_run status current completed_at)
    ]

unfoldable pub list_workflow_runs : Records → RepositoryScope → List WorkflowRunRecord
list_workflow_runs records repository =
    keep (λ run. same_repository run.identity.repository repository) (Table.values records)
