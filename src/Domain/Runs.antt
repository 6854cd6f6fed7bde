-- ===== src/Domain/Runs.antt =====
-- packages/domain/src/index.ts: the run of a worker, and what is recorded of it.
-- `requested_agent_id` and the like are kept as the launcher gave them.
use linear_pi_orchestrator.Prelude.{
  ℕ, String, Bool, true, false, ◌&&◌, Option, none, some, List, [], ◌∷◌, ◌++◌, ◌==◌, if◌then◌else◌,
  get_or_else,
}
use linear_pi_orchestrator.Prelude.Table
use linear_pi_orchestrator.Prelude.Table.{Table}
use linear_pi_orchestrator.Domain.JsonValue.{
  Json, Items, Fields, string, array, object, end, item, close, field,
}
use linear_pi_orchestrator.Domain.{
  Timestamp, RepositoryScope, WorkItem, FirePolicy, RunStatus, RunIdentity,
}

pub record AgentProfile : Type 0 where
  pub id : String
  pub model : Option String
  pub prompt_template : Option String
  pub metadata : Option (Table Json)

pub record AgentResolution : Type 0 where
  pub requested_agent_id : Option String
  pub requested_model : Option String
  pub agent_id : String
  pub model : Option String
  pub metadata : Option (Table Json)

-- `actions` and `targets` are kept as JSON; the overrides of the launcher are left out.
pub record TriggerDefinition : Type 0 where
  pub id : String
  pub source_id : String
  pub repository : RepositoryScope
  pub enabled : Bool
  pub selector : Option (Table Json)
  pub max_concurrent : Option ℕ
  pub agent : Option AgentProfile
  pub metadata : Option (Table Json)
  pub actions : Option Json
  pub targets : Option Json
  pub fire_policy : Option FirePolicy

pub record Workspace : Type 0 where
  pub path : String
  pub branch : Option String
  pub metadata : Option (Table Json)

pub record WorkerHandle : Type 0 where
  pub id : String
  pub started_at : Timestamp
  pub metadata : Option (Table Json)

pub record RunRecord : Type 0 where
  pub id : String
  pub identity : RunIdentity
  pub item : WorkItem
  pub trigger : TriggerDefinition
  pub agent : AgentResolution
  pub status : RunStatus
  pub claimed_at : Timestamp
  pub updated_at : Timestamp
  pub workspace : Option Workspace
  pub worker : Option WorkerHandle
  pub workspace_cleaned_at : Option Timestamp
  pub completed_at : Option Timestamp
  pub error : Option String

pub record RunClaim : Type 0 where
  pub id : String
  pub identity : RunIdentity
  pub item : WorkItem
  pub trigger : TriggerDefinition
  pub agent : AgentResolution
  pub claimed_at : Timestamp
  pub max_concurrent : ℕ

pub data TerminalStatus : Type 0 where
  succeeded failed stopped : TerminalStatus

abbrev pub run_status : TerminalStatus → RunStatus
run_status TerminalStatus.succeeded = RunStatus.succeeded
run_status TerminalStatus.failed = RunStatus.failed
run_status TerminalStatus.stopped = RunStatus.stopped

pub record RunTerminalTransition : Type 0 where
  pub status : TerminalStatus
  pub completed_at : Timestamp
  pub error : Option String

pub data WorkerOpenTarget : Type 0 where
  pane window : WorkerOpenTarget

-- A start time is kept as the text that the adapter gave.
pub record WorkerChildHandle : Type 0 where
  pub id : String
  pub kind : WorkerOpenTarget
  pub target : String
  pub name : Option String
  pub command : String
  pub started_at : String

abbrev kind_text : WorkerOpenTarget → String
kind_text pane = "pane"
kind_text window = "window"

abbrev name_field : Option String → Fields → Fields
name_field none fields = fields
name_field (some name) fields = field "name" (string name) fields

-- A child as it stands in the worker's metadata.
abbrev pub child_json : WorkerChildHandle → Json
child_json child = object (
    field "id" (string child.id) (
      field "kind" (string (kind_text child.kind)) (
        field "target" (string child.target) (
          name_field child.name (
            field "command" (string child.command)
              (field "startedAt" (string child.started_at) close))))))

abbrev is_string : Option Json → Bool
is_string none = false
is_string (some (string s)) = true
is_string (some _) = false

unfoldable pub member : Fields → String → Option Json
member close k = none
member (field j v fields) k = if j == k then some v else member fields k

abbrev is_child : Json → Bool
is_child (object fields) = is_string (member fields "id") && is_string (member fields "target")
is_child _ = false

abbrev children_in : Items → List Json
children_in end = []
children_in (item entry items) =
    let rest = children_in items in if is_child entry then entry ∷ rest else rest

abbrev children_of : Option Json → List Json
children_of (some (array items)) = children_in items
children_of _ = []

abbrev items_of : List Json → Items
items_of [] = end
items_of (entry ∷ entries) = item entry (items_of entries)

-- The children of a worker, as they stand in its metadata.
unfoldable pub worker_children : WorkerHandle → List Json
unfolding member Table.get
worker_children worker = children_of (Table.get (get_or_else worker.metadata []) "children")

-- { ...worker, metadata: { ...worker.metadata, [key]: value } }
abbrev pub with_metadata : WorkerHandle → String → Json → WorkerHandle
with_metadata worker key value = record worker {
  metadata = some (Table.set (get_or_else worker.metadata []) key value);
}

abbrev pub with_child : WorkerHandle → WorkerChildHandle → WorkerHandle
with_child worker child =
    with_metadata worker "children"
      (array (items_of (worker_children worker ++ child_json child ∷ [])))
