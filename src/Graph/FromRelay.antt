-- ===== src/Graph/FromRelay.antt =====
-- relayWorkflowToGraph in src/workflows/graph.ts.
use linear_pi_orchestrator.Prelude.{
  ℕ, suc, String, not, ◌&&◌, Option, none, some, List, [], ◌∷◌, ◌++◌, ◌==◌, if◌then◌else◌,
  get_or_else, truthy, any,
}
use linear_pi_orchestrator.Prelude.Table
use linear_pi_orchestrator.Prelude.Table.{Table}
use linear_pi_orchestrator.Prelude.Texts.{append}
use linear_pi_orchestrator.Prelude.Results.{Result, ok, ◌>>=◌}
use linear_pi_orchestrator.Domain.{NeedStatus}
use linear_pi_orchestrator.Config.{RelayNeed, RelayWorkflowJob, RelayWorkflow, needs_list}
use linear_pi_orchestrator.Graph.{
  WorkflowNode, WorkflowEdge, WorkflowGraph, Reusable, matched, on, trigger, action, need_parts,
}

abbrev pub trigger_id : String
trigger_id = "__trigger__"

abbrev pub action_node : String → RelayWorkflowJob → WorkflowNode
action_node job_id job = action (record {
  id = job_id;
  plugin_use = job.plugin_use;
  config = job.config;
  enabled = some job.enabled;
  continue_on_error = some job.continue_on_error;
  condition = job.condition;
  timeout_minutes = job.timeout_minutes;
  strategy = job.strategy;
})

abbrev pub action_nodes : Table RelayWorkflowJob → List WorkflowNode
action_nodes [] = []
action_nodes ((job_id, job) ∷ jobs) = action_node job_id job ∷ action_nodes jobs

-- A number in an id or a path is printed by `digits`.
module _ (digits : ℕ → String) where
  abbrev pub need_edge : String → ℕ → RelayNeed → String × NeedStatus → WorkflowEdge
  need_edge job_id index need (job, status) = record {
    id = append job (append "--" (append job_id (append "--" (digits index))));
    source = job;
    target = job_id;
    condition = on status;
    relay_need = some need;
  }

  unfoldable pub need_edges : String → ℕ → List RelayNeed → Result (List WorkflowEdge)
  unfolding need_parts
  need_edges job_id index [] = ok []
  need_edges job_id index (need ∷ needs) = need_parts need >>= λ parts.
      need_edges job_id (suc index) needs >>= λ edges.
      ok (need_edge job_id index need parts ∷ edges)

  unfoldable pub jobs_edges : Table RelayWorkflowJob → Result (List WorkflowEdge)
  unfolding need_edges
  jobs_edges [] = ok []
  jobs_edges ((job_id, job) ∷ jobs) = need_edges job_id 0 (needs_list job.needs) >>= λ edges.
      jobs_edges jobs >>= λ rest. ok (edges ++ rest)

abbrev pub trigger_edge : String → WorkflowEdge
trigger_edge job_id = record {
  id = append trigger_id (append "--" job_id);
  source = trigger_id;
  target = job_id;
  condition = matched;
  relay_need = none;
}

-- An edge from the trigger to each job that waits for no other.
unfoldable pub with_trigger_edges : List WorkflowEdge → List String → List WorkflowEdge
with_trigger_edges edges [] = edges
with_trigger_edges edges (job_id ∷ job_ids) =
    with_trigger_edges
      (if any (λ edge. edge.target == job_id && not (edge.source == trigger_id)) edges
        then edges
        else edges ++ trigger_edge job_id ∷ [])
      job_ids

abbrev pub reusable_of : RelayWorkflow → Option Reusable
reusable_of workflow =
    if truthy workflow.plugin_use
    then some (record { plugin_use = get_or_else workflow.plugin_use ""; inputs = workflow.inputs })
    else none

abbrev pub graph_of : String → RelayWorkflow → List WorkflowEdge → WorkflowGraph
graph_of id workflow edges = record {
  id = id;
  name = none;
  enabled = workflow.enabled;
  nodes =
      trigger (record {
        id = trigger_id;
        plugin_use = workflow.source;
        config = workflow.match;
        fire = some workflow.fire;
      })
      ∷ action_nodes (get_or_else workflow.jobs []);
  edges = edges;
  settings = some (record {
    max_concurrent = workflow.max_concurrent;
    targets = workflow.targets;
    timeout_minutes = some workflow.timeout_minutes;
    concurrency = workflow.concurrency;
    reusable = reusable_of workflow;
  });
}

unfoldable pub relay_workflow_to_graph :
    (ℕ → String) → String → RelayWorkflow → Result WorkflowGraph
unfolding jobs_edges with_trigger_edges
relay_workflow_to_graph digits id workflow =
    let jobs = get_or_else workflow.jobs [] in
    jobs_edges digits jobs >>= λ edges.
    ok (graph_of id workflow (with_trigger_edges edges (Table.keys jobs)))
