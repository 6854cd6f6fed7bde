-- ===== src/Graph/Valid/Edges.antt =====
-- The loop over the edges in validateWorkflowGraph (src/workflows/graph.ts).
use linear_pi_orchestrator.Prelude.{
  ℕ, suc, String, Bool, true, false, not, ◌&&◌, Option, none, some, List, [], ◌∷◌, ◌++◌, map, ◌==◌,
  ◌≡◌, refl, sym, ap, ◌∙◌, subst, arith, eq_iff, if◌then◌else◌, get_or_else, includes, All,
  Distinct, append-nil, append_assoc, Bool-cases, inl, inr, ◌↔◌, append-nil_iff,
}
use linear_pi_orchestrator.Prelude.Table
use linear_pi_orchestrator.Prelude.Table.{Table}
use linear_pi_orchestrator.Graph.{
  WorkflowNode, WorkflowEdge, EdgeCondition, trigger, action, is_matched,
}
use linear_pi_orchestrator.Graph.Validate.{
  Nodes, end_issues, edge_issues, is_action_edge, add_action_edge, check_edges, targets_in,
}
use linear_pi_orchestrator.Graph.Valid.{Joined, dependents}
use linear_pi_orchestrator.Graph.Valid.Nodes.{require_iff}

end_issues_iff :
    (path : String) (edge : WorkflowEdge) (source target : Option WorkflowNode)
    → (end_issues path edge source target ≡ []) ↔ Joined edge.condition source target
end_issues_iff path edge none target = (λ e. cc, λ h. absurd h)
end_issues_iff path edge (some source) none = (λ e. cc, λ h. absurd h)
end_issues_iff path edge (some (trigger source)) (some target) =
    (λ e. ground arith, λ h. ground arith)
end_issues_iff path edge (some (action source)) (some target) =
    (λ e. ground arith, λ h. ground arith)

-- An edge that joins two nodes counts exactly if it is not "matched".
is_action_edge_lem :
    (condition : EdgeCondition) (source target : Option WorkflowNode)
    → Joined condition source target
    → is_action_edge source target ≡ not (is_matched condition)
is_action_edge_lem condition none target h = absurd h
is_action_edge_lem condition (some source) none h = absurd h
is_action_edge_lem condition (some source) (some target) h = ground arith

abbrev NewEdges : List String → List WorkflowEdge → Type 0
NewEdges edge_ids = All (λ edge. includes edge_ids edge.id ≡ false)

NewEdges-cons :
    (id : String) (edge_ids : List String) (edges : List WorkflowEdge)
    → NewEdges (id ∷ edge_ids) edges
      ↔ (NewEdges edge_ids edges × (includes (map (λ edge. edge.id) edges) id ≡ false))
NewEdges-cons id edge_ids [] = (λ h. (tt, refl), λ h. tt)
NewEdges-cons id edge_ids (edge ∷ edges) = (
  λ h.
      ground (arith, (NewEdges-cons id edge_ids edges).0 h.1, eq_iff id edge.id, eq_iff edge.id id),
  λ h. (
    ground (arith, eq_iff id edge.id, eq_iff edge.id id, h.0.0, h.1),
    (NewEdges-cons id edge_ids edges).1 (h.0.1, ground arith),
  ),
)

module _ (by_id : Nodes) where
  abbrev pub JoinsBy : WorkflowEdge → Type 0
  JoinsBy edge = Joined edge.condition (Table.get by_id edge.source) (Table.get by_id edge.target)

  abbrev pub EdgesPass : List String → List WorkflowEdge → Type 0
  EdgesPass edge_ids edges =
      All JoinsBy edges × Distinct (map (λ edge. edge.id) edges) × NewEdges edge_ids edges

module _ (digits : ℕ → String) (by_id : Nodes) where
  edge_issues_iff :
      (index : ℕ) (edge_ids : List String) (edge : WorkflowEdge)
      → (edge_issues digits index edge_ids by_id edge ≡ [])
        ↔ (JoinsBy by_id edge × (includes edge_ids edge.id ≡ false))
  edge_issues_iff index edge_ids edge = (
    λ e.
        let (own, ends) = (append-nil_iff _ _).0 e in
        let new = (require_iff (not (includes edge_ids edge.id)) _ _).0 own in
        ((end_issues_iff _ edge _ _).0 ends, ground arith),
    λ h.
        (append-nil_iff _ _).1
          ((require_iff _ _ _).1 (ground (arith, h.1)), (end_issues_iff _ edge _ _).1 h.0),
  )

  pub check_edges_iff :
      (index : ℕ) (edge_ids : List String) (targets : Table (List String))
      (edges : List WorkflowEdge)
      → ((check_edges digits index edge_ids targets by_id edges).0 ≡ [])
        ↔ EdgesPass by_id edge_ids edges
  unfolding check_edges
  check_edges_iff index edge_ids targets [] = (λ e. (tt, tt, tt), λ h. refl)
  check_edges_iff index edge_ids targets (edge ∷ edges) = (
    λ e.
        let (own, rest) = (append-nil_iff _ _).0 e in
        let (joins, new) = (edge_issues_iff index edge_ids edge).0 own in
        let (all_join, distinct, fresh) =
          (check_edges_iff (suc index) (edge.id ∷ edge_ids) _ edges).0 rest in
        let (old, apart) = (NewEdges-cons edge.id edge_ids edges).0 fresh in
        ((joins, all_join), (apart, distinct), (new, old)),
    λ ((joins, all_join), (apart, distinct), (new, old)). (append-nil_iff _ _).1 (
      (edge_issues_iff index edge_ids edge).1 (joins, new),
      (check_edges_iff (suc index) (edge.id ∷ edge_ids) _ edges).1
          (all_join, distinct, (NewEdges-cons edge.id edge_ids edges).1 (old, apart)),
    ),
  )

  targets-add :
      (targets : Table (List String)) (edge : WorkflowEdge) (id : String)
      → targets_in (add_action_edge targets edge) id
        ≡ targets_in targets id ++ (if edge.source == id then edge.target ∷ [] else [])
  targets-add targets edge id = elim (Bool-cases (edge.source == id)) [
    | inl same ↦
        let e = (eq_iff edge.source id).0 same in
        rw
          (
            Table.get-set targets edge.source id
                (get_or_else (Table.get targets edge.source) [] ++ edge.target ∷ []),
            same,
          )
          (subst
            (λ i.
              (get_or_else (Table.get targets edge.source) [] ++ edge.target ∷ [])
              ≡ (get_or_else (Table.get targets i) [] ++ edge.target ∷ []))
            e refl)
    | inr other ↦ rw (
      Table.get-set targets edge.source id
          (get_or_else (Table.get targets edge.source) [] ++ edge.target ∷ []),
      other,
      append-nil,
    )
  ]

  targets_step :
      (counts : Bool) (targets : Table (List String)) (edge : WorkflowEdge) (id : String)
      → targets_in (if counts then add_action_edge targets edge else targets) id
        ≡ targets_in targets id ++ (if edge.source == id && counts then edge.target ∷ [] else [])
  targets_step true targets edge id = elim (Bool-cases (edge.source == id)) [
    | inl same ↦ rw same (targets-add targets edge id ∙ rw same)
    | inr other ↦ rw other (targets-add targets edge id ∙ rw other)
  ]
  targets_step false targets edge id = elim (Bool-cases (edge.source == id)) [
    | inl same ↦ rw same (sym (append-nil _))
    | inr other ↦ rw other (sym (append-nil _))
  ]

  -- The search follows the dependencies of the graph.
  pub check_edges-dependents :
      (index : ℕ) (edge_ids : List String) (targets : Table (List String))
      (edges : List WorkflowEdge) (id : String)
      → All (JoinsBy by_id) edges
      → targets_in (check_edges digits index edge_ids targets by_id edges).1 id
        ≡ targets_in targets id ++ dependents edges id
  unfolding check_edges
  check_edges-dependents index edge_ids targets [] id h = sym (append-nil _)
  check_edges-dependents index edge_ids targets (edge ∷ edges) id h =
      let counts =
        is_action_edge_lem edge.condition (Table.get by_id edge.source)
          (Table.get by_id edge.target) h.0 in
      let adds =
        targets_step (is_action_edge (Table.get by_id edge.source) (Table.get by_id edge.target))
          targets edge id in
      check_edges-dependents (suc index) (edge.id ∷ edge_ids) _ edges id h.1
      ∙ ap (λ (xs : List String). xs ++ dependents edges id) adds
      ∙ append_assoc (targets_in targets id) _ (dependents edges id)
      ∙ ap
          (λ b.
            targets_in targets id
            ++ ((if edge.source == id && b then edge.target ∷ [] else []) ++ dependents edges id))
          counts
