-- ===== src/Domain.antt =====
-- packages/domain/src/index.ts: work items, jobs, workflow runs, and when a dependency is met.
-- A timestamp is the number of milliseconds that its ISO text stands for: `toISOString()` writes
-- texts of one length, whose order as texts is the order of those numbers.
-- An absent list of needs reads as an empty one everywhere, so it is not told apart.
pub mod Status
pub mod JsonValue
pub mod Needs
pub mod Key
pub mod Runs
use linear_pi_orchestrator.Prelude.{
  ℕ, String, Bool, true, false, Option, none, some, List, ◌||◌, flag, if◌then◌else◌,
}
use linear_pi_orchestrator.Prelude.Table.{Table}
use JsonValue.{Json}

abbrev pub Timestamp : Type 0
Timestamp = ℕ

pub record RepositoryScope : Type 0 where
  pub id : String
  pub root : String

pub data WorkItemState : Type 0 where
  opened active terminal unknown : WorkItemState

pub record TriggerEvent : Type 0 where
  pub id : String
  pub payload : Json

pub record WorkItem : Type 0 where
  pub source_id : String
  pub id : String
  pub title : String
  pub description : Option String
  pub url : Option String
  pub state : Option WorkItemState
  pub terminal : Option Bool
  pub metadata : Option (Table Json)
  pub trigger_event : Option TriggerEvent

pub data FirePolicy : Type 0 where
  once_per_match once_per_item on_change every_poll : FirePolicy

pub data WorkflowJobStatus : Type 0 where
  pending started succeeded failed skipped omitted : WorkflowJobStatus

-- The states that a dependency may name.
pub data NeedStatus : Type 0 where
  started succeeded failed skipped : NeedStatus

pub record WorkflowNeed : Type 0 where
  pub job : String
  pub status : Option NeedStatus

-- `action_use` is the field `use`, and `condition` the field `if`.
pub record WorkflowJobDefinition : Type 0 where
  pub id : String
  pub action_use : String
  pub config : Option Json
  pub needs : List WorkflowNeed
  pub condition : Option String
  pub continue_on_error : Option Bool
  pub group : Option String
  pub matrix : Option (Table Json)
  pub timeout_ms : Option ℕ

pub record WorkflowConcurrency : Type 0 where
  pub group : String
  pub cancel_in_progress : Bool

-- `targets` is kept as the JSON value that the configuration holds.
pub record WorkflowDefinition : Type 0 where
  pub id : String
  pub source_id : String
  pub repository : RepositoryScope
  pub enabled : Bool
  pub selector : Option (Table Json)
  pub fire_policy : Option FirePolicy
  pub max_concurrent : Option ℕ
  pub targets : Option Json
  pub metadata : Option (Table Json)
  pub timeout_ms : Option ℕ
  pub concurrency : Option WorkflowConcurrency
  pub jobs : List WorkflowJobDefinition

pub data AttemptOutcome : Type 0 where
  completed uncertain : AttemptOutcome

pub record AttemptEntry : Type 0 where
  pub attempt_id : String
  pub claimed_at : Timestamp
  pub completed_at : Option Timestamp
  pub status : Option WorkflowJobStatus
  pub outcome : Option AttemptOutcome

pub record WorkflowJobState : Type 0 where
  pub status : WorkflowJobStatus
  pub attempt_id : Option String
  pub lease_expires_at : Option Timestamp
  pub attempt_history : Option (List AttemptEntry)
  pub input : Option Json
  pub needs_attention : Option Bool
  pub retry_at : Option Timestamp
  pub operation : Option (Table Json)
  pub run_id : Option String
  pub worker_id : Option String
  pub outputs : Option (Table Json)
  pub message : Option String
  pub error : Option String
  pub started_at : Option Timestamp
  pub completed_at : Option Timestamp
  pub attempts : ℕ

pub record WorkflowRunIdentity : Type 0 where
  pub repository : RepositoryScope
  pub workflow_id : String
  pub source_id : String
  pub item_id : String
  pub occurrence : String

pub data WorkflowRunStatus : Type 0 where
  running succeeded failed : WorkflowRunStatus

-- `"succeeded" | "failed"`, with which a run finishes.
pub data RunResult : Type 0 where
  succeeded failed : RunResult

abbrev pub finished_status : RunResult → WorkflowRunStatus
finished_status RunResult.succeeded = WorkflowRunStatus.succeeded
finished_status RunResult.failed = WorkflowRunStatus.failed

pub record WorkflowRunRecord : Type 0 where
  pub revision : Option ℕ
  pub id : String
  pub identity : WorkflowRunIdentity
  pub item : WorkItem
  pub definition : Option WorkflowDefinition
  pub status : WorkflowRunStatus
  pub jobs : Table WorkflowJobState
  pub started_at : Timestamp
  pub updated_at : Timestamp
  pub completed_at : Option Timestamp
  pub timeout_at : Option Timestamp
  pub concurrency_group : Option String
  pub needs_attention : Option Bool
  pub migration : Option Json

pub record WorkflowJobTransition : Type 0 where
  pub status : WorkflowJobStatus
  pub expected_attempt_id : Option String
  pub input : Option Json
  pub needs_attention : Option Bool
  pub retry_at : Option Timestamp
  pub operation : Option (Table Json)
  pub run_id : Option String
  pub worker_id : Option String
  pub outputs : Option (Table Json)
  pub message : Option String
  pub error : Option String
  pub at : Timestamp
  pub attempted : Option Bool

pub data RunStatus : Type 0 where
  claimed provisioning launching running succeeded failed stopped : RunStatus

unfoldable pub is_active_run : RunStatus → Bool
is_active_run claimed = true
is_active_run provisioning = true
is_active_run launching = true
is_active_run RunStatus.running = true
is_active_run RunStatus.succeeded = false
is_active_run RunStatus.failed = false
is_active_run stopped = false

pub record RunIdentity : Type 0 where
  pub repository : RepositoryScope
  pub source_id : String
  pub item_id : String
  pub trigger_id : String
