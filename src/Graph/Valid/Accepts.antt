-- ===== src/Graph/Valid/Accepts.antt =====
-- validateWorkflowGraph in src/workflows/graph.ts accepts the well-formed graphs.
use linear_pi_orchestrator.Prelude.{
  ℕ, ◌+◌, String, true, false, not, ◌&&◌, Option, none, some, List, [], ◌∷◌, map, ◌==◌, ◌≡◌, refl,
  sym, subst, arith, eq_iff, includes, All, keep, any, is_some, length, Bool-cases, inl, inr, ◌↔◌,
  append-nil_iff, map-nil_iff,
}
use linear_pi_orchestrator.Prelude.Table
use linear_pi_orchestrator.Prelude.Table.{Table}
use linear_pi_orchestrator.Cycles.{cycles_of}
use linear_pi_orchestrator.Cycles.Walks.{Acyclic}
use linear_pi_orchestrator.Cycles.Fuel.{find_cycles_returns}
use linear_pi_orchestrator.Cycles.Sound.{find_cycles-Acyclic}
use linear_pi_orchestrator.Graph.{
  WorkflowNode, WorkflowEdge, WorkflowGraph, EdgeCondition, node_id, is_action, is_matched,
}
use linear_pi_orchestrator.Graph.Validate.{
  Nodes, graph_issues, reusable_in, is_trigger, check_nodes, check_edges, targets_in, action_ids,
  cycle_issue, cycle_issues, validate_workflow_graph,
}
use linear_pi_orchestrator.Graph.Valid.{Joined, dependents, find_node, IsWellFormed}
use linear_pi_orchestrator.Graph.Valid.Nodes.{
  require_iff, NodesPass, check_nodes_iff, check_nodes-get,
}
use linear_pi_orchestrator.Graph.Valid.Edges.{JoinsBy, check_edges_iff, check_edges-dependents}

graph_issues_iff :
    (graph : WorkflowGraph)
    → (graph_issues graph ≡ []) ↔ (
        (length (keep is_trigger graph.nodes) ≡ 1)
        × (any is_action graph.nodes ≡ not (is_some (reusable_in graph))))
graph_issues_iff graph = (λ e. ground arith, λ h. ground arith)

action_id_found :
    (nodes : List WorkflowNode) (id : String) (node : WorkflowNode)
    → find_node nodes id ≡ some node
    → is_action node ≡ true
    → includes (action_ids nodes) id ≡ true
action_id_found [] id node e a = cc
action_id_found (n ∷ nodes) id node e a =
    ground (arith, action_id_found nodes id node, eq_iff (node_id n) id)

keys_of_targets :
    (targets : Table (List String)) (id t : String)
    → includes (targets_in targets id) t ≡ true
    → includes (Table.keys targets) id ≡ true
keys_of_targets targets id t h = elim (Bool-cases (includes (Table.keys targets) id)) [
  | inl i ↦ i
  | inr i ↦ let absent = rw (Table.get-none_of_not-includes targets id i) at h in cc
]

-- The search reports nothing exactly when the dependencies have no cycle.
cycle_issues_iff :
    (targets : Table (List String)) (nodes : List WorkflowNode) (edges : List WorkflowEdge)
    → ((id : String) → targets_in targets id ≡ dependents edges id)
    → ((id t : String)
        → includes (dependents edges id) t ≡ true
        → includes (action_ids nodes) id ≡ true)
    → (cycle_issues targets nodes ≡ []) ↔ Acyclic (dependents edges)
cycle_issues_iff targets nodes edges same known =
    let followed : targets_in targets ≡ dependents edges = λ i id. same id i in
    let (s, ends) =
      find_cycles_returns (targets_in targets) (Table.keys targets) (keys_of_targets targets)
        (length targets + 2) (action_ids nodes) (omega (arith, Table.length-keys targets)) in
    let found =
      find_cycles-Acyclic (targets_in targets) (action_ids nodes)
        (λ id t i. known id t (rw (same id) at i)) (length targets + 2) s ends in
    (
      λ e.
          subst Acyclic followed (
            found.0 ((map-nil_iff _ _).0 (subst (λ o. map cycle_issue (cycles_of o) ≡ []) ends e))),
      λ a.
          subst (λ o. map cycle_issue (cycles_of o) ≡ []) (sym ends)
            ((map-nil_iff _ s.cycles).1 (found.1 (subst Acyclic (sym followed) a))),
    )

Joined-source :
    (nodes : List WorkflowNode) (condition : EdgeCondition) (id : String)
    (source target : Option WorkflowNode)
    → find_node nodes id ≡ source
    → Joined condition source target
    → is_matched condition ≡ false
    → includes (action_ids nodes) id ≡ true
Joined-source nodes condition id none target e j m = absurd j
Joined-source nodes condition id (some source) none e j m = absurd j
Joined-source nodes condition id (some source) (some target) e j m =
    action_id_found nodes id source e (ground (arith, j.1, m))

source_is_action :
    (nodes : List WorkflowNode) (edges : List WorkflowEdge) (id t : String)
    → All (λ e. Joined e.condition (find_node nodes e.source) (find_node nodes e.target)) edges
    → includes (dependents edges id) t ≡ true
    → includes (action_ids nodes) id ≡ true
source_is_action nodes [] id t h i = cc
source_is_action nodes (edge ∷ edges) id t h i =
    elim (Bool-cases (edge.source == id && not (is_matched edge.condition))) [
      | inl own ↦
          let same : edge.source ≡ id = ground (arith, eq_iff edge.source id) in
          let source =
            Joined-source nodes edge.condition edge.source (find_node nodes edge.source)
              (find_node nodes edge.target) refl h.0 (ground arith) in
          subst (λ k. includes (action_ids nodes) k ≡ true) same source
      | inr other ↦ source_is_action nodes edges id t h.1 (rw other at i)
    ]

All-const : {A : Type 0} (xs : List A) → All (λ x. false ≡ false) xs
All-const [] = tt
All-const (x ∷ xs) = (refl, All-const xs)

module _ (digits : ℕ → String) (graph : WorkflowGraph) where
  abbrev by_id : Nodes
  by_id = (check_nodes digits 0 [] graph.nodes).1

  abbrev found_targets : Table (List String)
  found_targets = (check_edges digits 0 [] [] by_id graph.edges).1

  lookup_path : NodesPass [] graph.nodes → Table.get by_id ≡ find_node graph.nodes
  unfolding Table.get
  lookup_path pass = λ i id. check_nodes-get digits 0 [] graph.nodes id pass i

  -- The search for cycles, where the other checks pass.
  cycles_iff :
      All
        (λ e. Joined e.condition (find_node graph.nodes e.source) (find_node graph.nodes e.target))
        graph.edges
      → All (JoinsBy by_id) graph.edges
      → (cycle_issues found_targets graph.nodes ≡ []) ↔ Acyclic (dependents graph.edges)
  unfolding Table.get
  cycles_iff joins joins_by =
      cycle_issues_iff found_targets graph.nodes graph.edges
        (λ id. check_edges-dependents digits by_id 0 [] [] graph.edges id joins_by)
        (λ id t. source_is_action graph.nodes graph.edges id t joins)

  -- The checks of a graph find no issue exactly if the graph is well-formed: it has an id, its nodes
  -- have ids, all different, and a use, one node is a trigger, it has action nodes exactly if it
  -- does not use a reusable file, the ids of its edges are all different, every edge leads from a
  -- node to an action and is "matched" exactly if it leaves a trigger, and the other edges form no
  -- cycle.
  pub validate_workflow_graph_iff : (validate_workflow_graph digits graph ≡ []) ↔ IsWellFormed graph
  unfolding validate_workflow_graph
  validate_workflow_graph_iff = (
    λ e.
        let (named, e1) = (append-nil_iff _ _).0 e in
        let (nodes, e2) = (append-nil_iff _ _).0 e1 in
        let (kinds, e3) = (append-nil_iff _ _).0 e2 in
        let (between, cycles) = (append-nil_iff _ _).0 e3 in
        let is_named = (require_iff (not (graph.id == "")) _ _).0 named in
        let pass = (check_nodes_iff digits 0 [] graph.nodes).0 nodes in
        let (triggers, content) = (graph_issues_iff graph).0 kinds in
        let (joins_by, edge_ids, _) =
          (check_edges_iff digits by_id 0 [] [] graph.edges).0 between in
        let joins =
          subst (λ find. All (λ e. Joined e.condition (find e.source) (find e.target)) graph.edges)
            (lookup_path pass) joins_by in
        record {
          named = ground arith;
          nodes_named = pass.0;
          node_ids = pass.1;
          one_trigger = triggers;
          jobs_or_file = content;
          edge_ids = edge_ids;
          joins = joins;
          acyclic = (cycles_iff joins joins_by).0 cycles;
        },
    λ w.
        let pass : NodesPass [] graph.nodes = (w.nodes_named, w.node_ids, All-const graph.nodes) in
        let joins_by =
          subst (λ find. All (λ e. Joined e.condition (find e.source) (find e.target)) graph.edges)
            (sym (lookup_path pass)) w.joins in
        (append-nil_iff _ _).1 (
          (require_iff (not (graph.id == "")) _ _).1 (ground (arith, w.named)),
          (append-nil_iff _ _).1 (
            (check_nodes_iff digits 0 [] graph.nodes).1 pass,
            (append-nil_iff _ _).1 (
              (graph_issues_iff graph).1 (w.one_trigger, w.jobs_or_file),
              (append-nil_iff _ _).1 (
                (check_edges_iff digits by_id 0 [] [] graph.edges).1
                    (joins_by, w.edge_ids, All-const graph.edges),
                (cycles_iff w.joins joins_by).1 w.acyclic,
              ),
            ),
          ),
        ),
  )
