-- ===== src/Graph/ToRelay.antt =====
-- graphToRelayWorkflow in src/workflows/graph.ts.
use linear_pi_orchestrator.Prelude.{
  ℕ, String, Bool, true, false, ◌&&◌, Option, none, some, List, [], ◌∷◌, ◌==◌, if◌then◌else◌,
  get_or_else, truthy, nat_eq,
}
use linear_pi_orchestrator.Prelude.Table
use linear_pi_orchestrator.Prelude.Table.{Table}
use linear_pi_orchestrator.Prelude.Results.{Result, ok, thrown, ◌>>=◌, ◌>>◌}
use linear_pi_orchestrator.Domain.JsonValue.{Json, string, object, field, close}
use linear_pi_orchestrator.Domain.{NeedStatus}
use linear_pi_orchestrator.Domain.Status.{same_status, job_status}
use linear_pi_orchestrator.Config.{RelayNeed, RelayNeeds, RelayWorkflowJob, RelayWorkflow}
use linear_pi_orchestrator.Graph.{
  WorkflowNode, WorkflowEdge, WorkflowGraph, WorkflowGraphSettings, EdgeCondition, matched, on,
  TriggerNode, ActionNode, trigger, action, need_parts,
}
use linear_pi_orchestrator.Graph.Validate.{assert_valid_workflow_graph, reusable_in}

unfoldable pub needs_equivalent : RelayNeed → String → NeedStatus → Result Bool
unfolding need_parts
needs_equivalent need source condition = need_parts need >>= λ (job, status).
    ok (job == source && same_status (job_status status) (job_status condition))

-- The need of an edge that no longer has its text.
abbrev pub written_need : String → NeedStatus → RelayNeed
written_need source NeedStatus.succeeded = RelayNeed.text source
written_need source condition = RelayNeed.object source (some condition)

abbrev pub original_or : String → NeedStatus → Option RelayNeed → Result RelayNeed
original_or source condition none = ok (written_need source condition)
original_or source condition (some need) = needs_equivalent need source condition >>= λ same.
    ok (if same then need else written_need source condition)

abbrev pub need_of :
    WorkflowEdge → EdgeCondition → Result (List RelayNeed) → Result (List RelayNeed)
need_of edge matched rest = rest
need_of edge (on status) rest =
    original_or edge.source status edge.relay_need >>= λ need. rest >>= λ needs. ok (need ∷ needs)

-- The needs of a node: those of the edges to it that are not from the trigger.
unfoldable pub needs_of : String → List WorkflowEdge → Result (List RelayNeed)
unfolding needs_equivalent
needs_of id [] = ok []
needs_of id (edge ∷ edges) =
    let rest = needs_of id edges in
    if edge.target == id then need_of edge edge.condition rest else rest

abbrev pub needs_field : List RelayNeed → Option RelayNeeds
needs_field [] = none
needs_field (need ∷ needs) = some (RelayNeeds.many (need ∷ needs))

-- `...(text ? { field: text } : {})`
abbrev pub if_filled : Option String → Option String
if_filled s = if truthy s then s else none

abbrev pub if_positive : Option ℕ → Option ℕ
if_positive none = none
if_positive (some n) = if nat_eq n 0 then none else some n

abbrev pub job_of_node : ActionNode → List RelayNeed → RelayWorkflowJob
job_of_node node needs = record {
  plugin_use = node.plugin_use;
  config = node.config;
  needs = needs_field needs;
  condition = if_filled node.condition;
  continue_on_error = get_or_else node.continue_on_error false;
  enabled = get_or_else node.enabled true;
  strategy = node.strategy;
  timeout_minutes = if_positive node.timeout_minutes;
}

-- The loop over the action nodes.
unfoldable pub collect_jobs :
    List WorkflowEdge → Table RelayWorkflowJob → List WorkflowNode → Result (Table RelayWorkflowJob)
unfolding needs_of Table.set
collect_jobs edges jobs [] = ok jobs
collect_jobs edges jobs (trigger node ∷ nodes) = collect_jobs edges jobs nodes
collect_jobs edges jobs (action node ∷ nodes) = needs_of node.id edges >>= λ needs.
    collect_jobs edges (Table.set jobs node.id (job_of_node node needs)) nodes

-- A graph that passed the checks has a trigger.
abbrev pub find_trigger : List WorkflowNode → Result TriggerNode
find_trigger [] = thrown "Cannot read properties of undefined (reading 'use')"
find_trigger (trigger node ∷ nodes) = ok node
find_trigger (action node ∷ nodes) = find_trigger nodes

abbrev default_fire : Json
default_fire = object (field "policy" (string "once-per-match") close)

abbrev setting {ℓ} :
    {A : Type ℓ} → Option WorkflowGraphSettings → (WorkflowGraphSettings → Option A) → Option A
setting none f = none
setting (some settings) f = f settings

abbrev pub relay_of : WorkflowGraph → TriggerNode → Table RelayWorkflowJob → RelayWorkflow
relay_of graph node jobs = record {
  enabled = graph.enabled;
  source = node.plugin_use;
  match = node.config;
  fire = get_or_else node.fire default_fire;
  max_concurrent = if_positive (setting graph.settings λ s. s.max_concurrent);
  targets = setting graph.settings λ s. s.targets;
  timeout_minutes = get_or_else (setting graph.settings λ s. s.timeout_minutes) 1440;
  concurrency = setting graph.settings λ s. s.concurrency;
  plugin_use = elim (reusable_in graph) [ none ↦ none | some r ↦ some r.plugin_use ];
  inputs = elim (reusable_in graph) [ none ↦ none | some r ↦ r.inputs ];
  jobs = elim (reusable_in graph) [ none ↦ some jobs | some r ↦ none ];
}

unfoldable pub graph_to_relay_workflow : (ℕ → String) → WorkflowGraph → Result RelayWorkflow
unfolding assert_valid_workflow_graph collect_jobs
graph_to_relay_workflow digits graph =
    assert_valid_workflow_graph digits graph
    >> (find_trigger graph.nodes >>= λ node.
        collect_jobs graph.edges [] graph.nodes >>= λ jobs. ok (relay_of graph node jobs))
