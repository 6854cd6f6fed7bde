-- ===== src/Graph/Valid/Nodes.antt =====
-- The loop over the nodes in validateWorkflowGraph (src/workflows/graph.ts).
use linear_pi_orchestrator.Prelude.{
  ℕ, suc, String, Bool, true, false, List, [], ◌∷◌, map, ◌≡◌, refl, sym, subst, arith, eq_iff,
  or_else, includes, All, Distinct, ◌↔◌, append-nil_iff,
}
use linear_pi_orchestrator.Prelude.Table
use linear_pi_orchestrator.Graph.{WorkflowNode, node_id}
use linear_pi_orchestrator.Graph.Validate.{Nodes, require, node_issues, with_node, check_nodes}
use linear_pi_orchestrator.Graph.Valid.{find_node, IsNamed}

pub require_iff : (b : Bool) (path message : String) → (require b path message ≡ []) ↔ (b ≡ true)
require_iff true path message = (λ e. refl, λ e. refl)
require_iff false path message = (λ e. cc, λ e. cc)

-- No node has an id that is known.
abbrev pub NewIds : Nodes → List WorkflowNode → Type 0
NewIds by_id = All (λ node. includes (Table.keys by_id) (node_id node) ≡ false)

abbrev pub NodesPass : Nodes → List WorkflowNode → Type 0
NodesPass by_id nodes = All IsNamed nodes × Distinct (map node_id nodes) × NewIds by_id nodes

module _ (digits : ℕ → String) where
  node_issues_iff :
      (index : ℕ) (by_id : Nodes) (node : WorkflowNode)
      → (node_issues digits index by_id node ≡ [])
        ↔ (IsNamed node × (includes (Table.keys by_id) (node_id node) ≡ false))
  node_issues_iff index by_id node = (λ e. ground arith, λ h. ground arith)

  NewIds-set :
      (by_id : Nodes) (node : WorkflowNode) (nodes : List WorkflowNode)
      → NewIds (Table.set by_id (node_id node) node) nodes
        ↔ (NewIds by_id nodes × (includes (map node_id nodes) (node_id node) ≡ false))
  NewIds-set by_id node [] = (λ h. (tt, refl), λ h. tt)
  NewIds-set by_id node (n ∷ nodes) = (
    λ h. ground (
      arith,
      Table.includes-set by_id (node_id node) (node_id n) node,
      (NewIds-set by_id node nodes).0 h.1,
      eq_iff (node_id node) (node_id n),
      eq_iff (node_id n) (node_id node),
    ),
    λ h. (
      ground (
        arith,
        Table.includes-set by_id (node_id node) (node_id n) node,
        eq_iff (node_id node) (node_id n),
        eq_iff (node_id n) (node_id node),
        h.0.0,
        h.1,
      ),
      (NewIds-set by_id node nodes).1 (h.0.1, ground arith),
    ),
  )

  with_node-new :
      (by_id : Nodes) (node : WorkflowNode)
      → IsNamed node
      → includes (Table.keys by_id) (node_id node) ≡ false
      → with_node by_id node ≡ Table.set by_id (node_id node) node
  with_node-new by_id node n i = ground arith

  pub check_nodes_iff :
      (index : ℕ) (by_id : Nodes) (nodes : List WorkflowNode)
      → ((check_nodes digits index by_id nodes).0 ≡ []) ↔ NodesPass by_id nodes
  unfolding check_nodes
  check_nodes_iff index by_id [] = (λ e. (tt, tt, tt), λ h. refl)
  check_nodes_iff index by_id (node ∷ nodes) = (
    λ e.
        let (own, rest) = (append-nil_iff _ _).0 e in
        let (named, new) = (node_issues_iff index by_id node).0 own in
        let step = with_node-new by_id node named new in
        let (all_named, distinct, fresh) =
          (check_nodes_iff (suc index) (with_node by_id node) nodes).0 rest in
        let (old, apart) =
          (NewIds-set by_id node nodes).0 (subst (λ m. NewIds m nodes) step fresh) in
        ((named, all_named), (apart, distinct), (new, old)),
    λ ((named, all_named), (apart, distinct), (new, old)).
        let step = with_node-new by_id node named new in
        let fresh = (NewIds-set by_id node nodes).1 (old, apart) in
        (append-nil_iff _ _).1 (
          (node_issues_iff index by_id node).1 (named, new),
          (check_nodes_iff (suc index) (with_node by_id node) nodes).1
              (all_named, distinct, subst (λ m. NewIds m nodes) (sym step) fresh),
        ),
  )

  -- A node is found by its id.
  pub check_nodes-get :
      (index : ℕ) (by_id : Nodes) (nodes : List WorkflowNode) (id : String)
      → NodesPass by_id nodes
      → Table.get (check_nodes digits index by_id nodes).1 id
        ≡ or_else (Table.get by_id id) (find_node nodes id)
  unfolding check_nodes
  check_nodes-get index by_id [] id h = ground arith
  check_nodes-get index by_id (node ∷ nodes) id
        ((named, all_named), (apart, distinct), (new, old)) =
      let step = with_node-new by_id node named new in
      let fresh = (NewIds-set by_id node nodes).1 (old, apart) in
      let later =
        check_nodes-get (suc index) (with_node by_id node) nodes id
          (all_named, distinct, subst (λ m. NewIds m nodes) (sym step) fresh) in
      ground (
        arith,
        later,
        step,
        Table.get-set by_id (node_id node) id node,
        eq_iff (node_id node) id,
        Table.get-none_of_not-includes by_id (node_id node) new,
      )
