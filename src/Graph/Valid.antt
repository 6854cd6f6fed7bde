-- ===== src/Graph/Valid.antt =====
-- What validateWorkflowGraph in src/workflows/graph.ts accepts.
mod Nodes
mod Edges
pub mod Accepts
use linear_pi_orchestrator.Prelude.{
  ℕ, String, Bool, true, false, not, ◌&&◌, Option, none, some, List, [], ◌∷◌, ◌++◌, map, ◌==◌, ◌≡◌,
  find, keep, any, if◌then◌else◌, is_some, length, All, Distinct,
}
use linear_pi_orchestrator.Graph.{
  WorkflowNode, WorkflowEdge, WorkflowGraph, EdgeCondition, node_id, node_use, is_action,
  is_matched,
}
use linear_pi_orchestrator.Graph.Validate.{reusable_in, is_trigger}
use linear_pi_orchestrator.Cycles.Walks.{Acyclic}

abbrev pub find_node : List WorkflowNode → String → Option WorkflowNode
find_node nodes id = find (λ node. node_id node == id) nodes

abbrev pub IsNamed : WorkflowNode → Type 0
IsNamed node = (node_id node == "" ≡ false) × (node_use node == "" ≡ false)

-- Both ends exist, the target is an action, and the edge is "matched" if it leaves the trigger.
abbrev pub Joined : EdgeCondition → Option WorkflowNode → Option WorkflowNode → Type 0
Joined condition none target = ⊥
Joined condition (some source) none = ⊥
Joined condition (some source) (some target) =
    (is_action target ≡ true) × (is_matched condition ≡ not (is_action source))

-- The jobs that wait for a job.
abbrev pub dependents : List WorkflowEdge → String → List String
dependents [] id = []
dependents (edge ∷ edges) id =
    (if edge.source == id && not (is_matched edge.condition) then edge.target ∷ [] else [])
    ++ dependents edges id

pub record IsWellFormed (graph : WorkflowGraph) : Type 0 where
  pub named : (graph.id == "") ≡ false
  pub nodes_named : All IsNamed graph.nodes
  pub node_ids : Distinct (map node_id graph.nodes)
  pub one_trigger : length (keep is_trigger graph.nodes) ≡ 1
  pub jobs_or_file : any is_action graph.nodes ≡ not (is_some (reusable_in graph))
  pub edge_ids : Distinct (map (λ edge. edge.id) graph.edges)
  pub joins :
      All
        (λ edge.
          Joined edge.condition
            (find_node graph.nodes edge.source)
            (find_node graph.nodes edge.target))
        graph.edges
  pub acyclic : Acyclic (dependents graph.edges)
