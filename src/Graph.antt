-- ===== src/Graph.antt =====
-- src/workflows/graph.ts: a workflow as a graph of nodes and edges. `use`, `config` and `condition`
-- are as in `Config`.
pub mod FromRelay
pub mod ToRelay
pub mod Validate
pub mod Valid
pub mod RoundTrip
use Prim.Native.Char.{code}
use linear_pi_orchestrator.Prelude.{
  ℕ, String, Bool, true, false, Option, none, some, List, [], ◌∷◌, ◌==◌, if◌then◌else◌, get_or_else,
  nat_eq,
}
use linear_pi_orchestrator.Prelude.Table.{Table}
use linear_pi_orchestrator.Prelude.Texts.{append}
use linear_pi_orchestrator.Prelude.Results.{Result, ok, thrown, ◌>>=◌}
use linear_pi_orchestrator.Domain.JsonValue.{Json}
use linear_pi_orchestrator.Domain.{NeedStatus, WorkflowConcurrency}
use linear_pi_orchestrator.StringNeed.{need_status, first_component}
use linear_pi_orchestrator.Config.{RelayNeed}

-- `"matched"`, or the status that a dependency waits for.
pub data EdgeCondition : Type 0 where
  matched : EdgeCondition
  on : NeedStatus → EdgeCondition

pub record TriggerNode : Type 0 where
  pub id : String
  pub plugin_use : String
  pub config : Option Json
  pub fire : Option Json

pub record ActionNode : Type 0 where
  pub id : String
  pub plugin_use : String
  pub config : Option Json
  pub enabled : Option Bool
  pub continue_on_error : Option Bool
  pub condition : Option String
  pub timeout_minutes : Option ℕ
  pub strategy : Option Json

pub data WorkflowNode : Type 0 where
  trigger : TriggerNode → WorkflowNode
  action : ActionNode → WorkflowNode

pub record WorkflowEdge : Type 0 where
  pub id : String
  pub source : String
  pub target : String
  pub condition : EdgeCondition
  pub relay_need : Option RelayNeed

pub record Reusable : Type 0 where
  pub plugin_use : String
  pub inputs : Option (Table Json)

pub record WorkflowGraphSettings : Type 0 where
  pub max_concurrent : Option ℕ
  pub targets : Option Json
  pub timeout_minutes : Option ℕ
  pub concurrency : Option WorkflowConcurrency
  pub reusable : Option Reusable

pub record WorkflowGraph : Type 0 where
  pub id : String
  pub name : Option String
  pub enabled : Bool
  pub nodes : List WorkflowNode
  pub edges : List WorkflowEdge
  pub settings : Option WorkflowGraphSettings

abbrev pub node_id : WorkflowNode → String
node_id (trigger node) = node.id
node_id (action node) = node.id

abbrev pub node_use : WorkflowNode → String
node_use (trigger node) = node.plugin_use
node_use (action node) = node.plugin_use

abbrev pub is_action : WorkflowNode → Bool
is_action (trigger node) = false
is_action (action node) = true

abbrev pub is_matched : EdgeCondition → Bool
is_matched matched = true
is_matched (on status) = false

-- What follows the first dot; the empty text where there is none.
unfoldable pub after_dot : String → String
after_dot String.[] = String.[]
after_dot (String.◌∷◌ c s) = let rest = after_dot s in if nat_eq (code c) b'.' then s else rest

abbrev status_error : String → String → String
status_error suffix need = append "Unknown job status '" (
    append suffix
      (append "' in needs '" (append need "'. Use Started, Succeeded, Failed, or Skipped.")))

abbrev pub with_suffix : String → String → String → Result (String × NeedStatus)
with_suffix need job suffix =
    if suffix == "" then ok (job, NeedStatus.succeeded) else elim (need_status suffix) [
      | none ↦ thrown (status_error suffix need)
      | some status ↦ ok (job, status)
    ]

-- The job of a dependency and the status that it waits for. The suffix is need.split(".", 2)[1].
unfoldable pub need_parts : RelayNeed → Result (String × NeedStatus)
unfolding first_component need_status after_dot
need_parts (RelayNeed.object job status) = ok (job, get_or_else status NeedStatus.succeeded)
need_parts (RelayNeed.text need) =
    with_suffix need (first_component need) (first_component (after_dot need))
