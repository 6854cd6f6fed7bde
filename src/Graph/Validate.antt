-- ===== src/Graph/Validate.antt =====
-- validateWorkflowGraph in src/workflows/graph.ts.
use linear_pi_orchestrator.Prelude.{
  ℕ, suc, ◌+◌, String, Bool, false, not, ◌&&◌, ◌||◌, Option, none, some, List, [], ◌∷◌, ◌++◌, map,
  ◌==◌, if◌then◌else◌, get_or_else, any, is_some, includes, keep, length, nat_eq,
}
use linear_pi_orchestrator.Prelude.Table
use linear_pi_orchestrator.Prelude.Table.{Table}
use linear_pi_orchestrator.Prelude.Texts.{append, join}
use linear_pi_orchestrator.Prelude.Results.{Result, ok, thrown}
use linear_pi_orchestrator.Cycles.{find_cycles, cycles_of}
use linear_pi_orchestrator.Graph.{
  WorkflowNode, WorkflowEdge, WorkflowGraph, Reusable, trigger, action, node_id, node_use,
  is_action, is_matched,
}

pub record Issue : Type 0 where
  pub path : String
  pub message : String

-- The issue, where a check fails.
abbrev pub require : Bool → String → String → List Issue
require holds path message = if holds then [] else record { path = path; message = message } ∷ []

abbrev quoted : String → String → String
quoted what id = append what (append "'" (append id "'"))

abbrev pub Nodes : Type 0
Nodes = Table WorkflowNode

abbrev pub reusable_in : WorkflowGraph → Option Reusable
reusable_in graph = elim graph.settings [ none ↦ none | some settings ↦ settings.reusable ]

-- The number of triggers is one.
abbrev pub is_trigger : WorkflowNode → Bool
is_trigger node = not (is_action node)

abbrev pub graph_issues : WorkflowGraph → List Issue
graph_issues graph =
    require (nat_eq (length (keep is_trigger graph.nodes)) 1) "nodes"
      "a workflow graph must have exactly one trigger"
    ++ require (is_some (reusable_in graph) || any is_action graph.nodes) "nodes"
        "a non-reusable workflow needs at least one action"
    ++ require (not (is_some (reusable_in graph) && any is_action graph.nodes)) "settings.reusable"
        "a reusable workflow cannot also contain action nodes"

-- What an edge between two nodes has to be.
abbrev pub ends_issues : String → WorkflowEdge → WorkflowNode → WorkflowNode → List Issue
ends_issues path edge (trigger _) target =
    require (is_matched edge.condition) (append path ".condition")
      "trigger edges must use 'matched'"
    ++ require (is_action target) (append path ".target") "a trigger must target an action"
ends_issues path edge (action _) target =
    require (is_action target) (append path ".target") "action dependencies must target an action"
    ++ require (not (is_matched edge.condition)) (append path ".condition")
        "action edges must use a job status"

abbrev pub end_issues :
    String → WorkflowEdge → Option WorkflowNode → Option WorkflowNode → List Issue
end_issues path edge none target =
    require false (append path ".source") (quoted "unknown node " edge.source)
end_issues path edge (some source) none =
    require false (append path ".target") (quoted "unknown node " edge.target)
end_issues path edge (some source) (some target) = ends_issues path edge source target

-- Whether an edge counts for the search for cycles.
abbrev pub is_action_edge : Option WorkflowNode → Option WorkflowNode → Bool
is_action_edge none target = false
is_action_edge (some source) none = false
is_action_edge (some source) (some target) = is_action source

-- actionEdges.set(source, [...(actionEdges.get(source) ?? []), target])
abbrev pub add_action_edge : Table (List String) → WorkflowEdge → Table (List String)
add_action_edge targets edge =
    Table.set targets edge.source
      (get_or_else (Table.get targets edge.source) [] ++ edge.target ∷ [])

abbrev pub with_node : Nodes → WorkflowNode → Nodes
with_node by_id node =
    if node_id node == "" || includes (Table.keys by_id) (node_id node)
    then by_id
    else Table.set by_id (node_id node) node

abbrev pub targets_in : Table (List String) → String → List String
targets_in targets id = get_or_else (Table.get targets id) []

abbrev pub action_ids : List WorkflowNode → List String
action_ids [] = []
action_ids (node ∷ nodes) =
    let rest = action_ids nodes in if is_action node then node_id node ∷ rest else rest

abbrev pub cycle_issue : List String → Issue
cycle_issue cycle = record {
  path = "edges";
  message = append "workflow graph contains a cycle: " (join " -> " cycle);
}

abbrev pub cycle_issues : Table (List String) → List WorkflowNode → List Issue
cycle_issues targets nodes =
    map cycle_issue
      (cycles_of (find_cycles (targets_in targets) (length targets + 2) (action_ids nodes)))

abbrev issue_text : Issue → String
issue_text issue = append issue.path (append ": " issue.message)

abbrev pub assert_no_issues : List Issue → Result (Unit {0})
assert_no_issues [] = ok tt
assert_no_issues (issue ∷ issues) =
    thrown (append "Invalid workflow graph: " (join "; " (map issue_text (issue ∷ issues))))

-- A number in a path is printed by `digits`.
module _ (digits : ℕ → String) where
  abbrev at : String → ℕ → String → String
  at list index member = append list (append (digits index) member)

  -- The ids that were seen are the keys of the nodes by id.
  abbrev pub node_issues : ℕ → Nodes → WorkflowNode → List Issue
  node_issues index by_id node =
      (if node_id node == ""
        then require false (at "nodes." index ".id") "node id is required"
        else require (not (includes (Table.keys by_id) (node_id node))) (at "nodes." index ".id")
            (quoted "duplicate node id " (node_id node)))
      ++ require (not (node_use node == "")) (at "nodes." index ".use") "node use is required"

  -- The loop over the nodes: its issues, and the nodes by id.
  unfoldable pub check_nodes : ℕ → Nodes → List WorkflowNode → List Issue × Nodes
  check_nodes index by_id [] = ([], by_id)
  check_nodes index by_id (node ∷ nodes) =
      let (issues, known) = check_nodes (suc index) (with_node by_id node) nodes in
      (node_issues index by_id node ++ issues, known)

  abbrev pub edge_issues : ℕ → List String → Nodes → WorkflowEdge → List Issue
  edge_issues index edge_ids by_id edge =
      require (not (includes edge_ids edge.id)) (at "edges." index ".id")
        (quoted "duplicate edge id " edge.id)
      ++ end_issues (append "edges." (digits index)) edge (Table.get by_id edge.source)
          (Table.get by_id edge.target)

  -- The loop over the edges: its issues, and the edges out of each action.
  unfoldable pub check_edges :
      ℕ
      → List String
      → Table (List String)
      → Nodes
      → List WorkflowEdge
      → List Issue × Table (List String)
  unfolding Table.get Table.set
  check_edges index edge_ids targets by_id [] = ([], targets)
  check_edges index edge_ids targets by_id (edge ∷ edges) =
      let (issues, all_targets) =
        check_edges (suc index) (edge.id ∷ edge_ids)
          (if is_action_edge (Table.get by_id edge.source) (Table.get by_id edge.target)
            then add_action_edge targets edge
            else targets)
          by_id edges in
      (edge_issues index edge_ids by_id edge ++ issues, all_targets)

  unfoldable pub validate_workflow_graph : WorkflowGraph → List Issue
  unfolding check_nodes check_edges find_cycles join
  validate_workflow_graph graph =
      let (own_issues, by_id) = check_nodes 0 [] graph.nodes in
      let (between_issues, targets) = check_edges 0 [] [] by_id graph.edges in
      require (not (graph.id == "")) "id" "workflow id is required"
      ++ (own_issues
          ++ (graph_issues graph ++ (between_issues ++ cycle_issues targets graph.nodes)))

  unfoldable pub assert_valid_workflow_graph : WorkflowGraph → Result (Unit {0})
  unfolding validate_workflow_graph
  assert_valid_workflow_graph graph = assert_no_issues (validate_workflow_graph graph)
