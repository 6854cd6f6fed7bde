-- ===== src/Graph/RoundTrip.antt =====
-- A workflow that becomes a graph and a workflow again (src/workflows/graph.ts).
mod Needs
use linear_pi_orchestrator.Prelude.{
  ℕ, suc, String, Bool, true, false, not, ◌&&◌, Option, none, some, List, [], ◌∷◌, ◌++◌, map, ◌==◌,
  ◌≡◌, refl, sym, ap, ◌∙◌, subst, arith, eq_iff, eq_refl, if◌then◌else◌, get_or_else, truthy,
  includes, Distinct, append-nil, append_assoc, any, is_some, Bool-cases, Option-cases, inl, inr,
}
use linear_pi_orchestrator.Prelude.Table
use linear_pi_orchestrator.Prelude.Table.{Table}
use linear_pi_orchestrator.Prelude.Results.{Result, ok, thrown, ◌>>=◌, ◌>>◌, chain_inv, ok_inj}
use linear_pi_orchestrator.Domain.{NeedStatus}
use linear_pi_orchestrator.Domain.Status.{same_status, job_status}
use linear_pi_orchestrator.Config.{
  RelayNeed, RelayNeeds, RelayWorkflowJob, RelayWorkflow, needs_list,
}
use linear_pi_orchestrator.Graph.{
  WorkflowNode, WorkflowEdge, WorkflowGraph, EdgeCondition, matched, on, TriggerNode, trigger,
  action, node_id, need_parts, is_action,
}
use linear_pi_orchestrator.Graph.FromRelay.{
  trigger_id, action_node, action_nodes, need_edge, need_edges, jobs_edges, trigger_edge,
  with_trigger_edges, graph_of, reusable_of, relay_workflow_to_graph,
}
use linear_pi_orchestrator.Graph.Validate.{
  assert_no_issues, assert_valid_workflow_graph, validate_workflow_graph, reusable_in,
}
use linear_pi_orchestrator.Graph.Valid.Accepts.{validate_workflow_graph_iff}
use linear_pi_orchestrator.Graph.ToRelay.{
  needs_equivalent, original_or, need_of, needs_of, needs_field, if_filled, if_positive,
  job_of_node, collect_jobs, find_trigger, relay_of, graph_to_relay_workflow,
}
use linear_pi_orchestrator.Graph.RoundTrip.Needs.{
  KeepsNeeds, jobs_edges-KeepsNeeds, needs_of-with_trigger_edges,
}

-- A job whose needs are a list, and that leaves out what is empty.
abbrev pub tidy_job : RelayWorkflowJob → RelayWorkflowJob
tidy_job job = record job {
  needs = needs_field (needs_list job.needs);
  condition = if_filled job.condition;
  timeout_minutes = if_positive job.timeout_minutes;
}

abbrev pub tidy_jobs : Table RelayWorkflowJob → Table RelayWorkflowJob
tidy_jobs [] = []
tidy_jobs ((id, job) ∷ jobs) = (id, tidy_job job) ∷ tidy_jobs jobs

-- A workflow has a reusable file or jobs, and only the file has inputs.
abbrev pub tidy : RelayWorkflow → RelayWorkflow
tidy workflow = record workflow {
  max_concurrent = if_positive workflow.max_concurrent;
  plugin_use = if_filled workflow.plugin_use;
  inputs = if truthy workflow.plugin_use then workflow.inputs else none;
  jobs =
      if truthy workflow.plugin_use then none else some (tidy_jobs (get_or_else workflow.jobs []));
}

abbrev Apart : Table RelayWorkflowJob → Table RelayWorkflowJob → Type 0
Apart done = Table.Entries (λ id job. includes (Table.keys done) id ≡ false)

Apart-set :
    (done jobs : Table RelayWorkflowJob) (id : String) (job : RelayWorkflowJob)
    → Apart done jobs
    → includes (Table.keys jobs) id ≡ false
    → Apart (Table.set done id job) jobs
Apart-set done [] id job a n = tt
Apart-set done ((other, j) ∷ jobs) id job a n = (
  ground (arith, Table.includes-set done id other job, eq_iff id other, eq_iff other id, a.0),
  Apart-set done jobs id job a.1 (ground arith),
)

-- The loop over the action nodes gives the jobs back.
collect_jobs-tidy :
    (edges : List WorkflowEdge) (done jobs : Table RelayWorkflowJob)
    → KeepsNeeds edges jobs
    → Distinct (Table.keys jobs)
    → Apart done jobs
    → collect_jobs edges done (action_nodes jobs) ≡ ok (done ++ tidy_jobs jobs)
unfolding collect_jobs
collect_jobs-tidy edges done [] k d a = ap ok (sym (append-nil done))
collect_jobs-tidy edges done ((id, job) ∷ jobs) k d a =
    let later =
      collect_jobs-tidy edges (Table.set done id (tidy_job job)) jobs k.1 d.1
        (Apart-set done jobs id (tidy_job job) a.1 d.0) in
    rw k.0 (
      later
      ∙ ap ok (
          ap (λ (m : Table RelayWorkflowJob). m ++ tidy_jobs jobs)
            (Table.set-new done id (tidy_job job) a.0)
          ∙ append_assoc done ((id, tidy_job job) ∷ []) (tidy_jobs jobs)))

Apart-nil : (jobs : Table RelayWorkflowJob) → Apart [] jobs
Apart-nil [] = tt
Apart-nil ((id, job) ∷ jobs) = (refl, Apart-nil jobs)

node_ids-keys : (jobs : Table RelayWorkflowJob) → map node_id (action_nodes jobs) ≡ Table.keys jobs
node_ids-keys [] = refl
node_ids-keys ((id, job) ∷ jobs) = ap (λ xs. id ∷ xs) (node_ids-keys jobs)

KeepsNeeds-with_trigger_edges :
    (edges : List WorkflowEdge) (job_ids : List String) (jobs : Table RelayWorkflowJob)
    → KeepsNeeds edges jobs
    → KeepsNeeds (with_trigger_edges edges job_ids) jobs
KeepsNeeds-with_trigger_edges edges job_ids [] k = tt
KeepsNeeds-with_trigger_edges edges job_ids ((id, job) ∷ jobs) k = (
  needs_of-with_trigger_edges id job_ids edges ∙ k.0,
  KeepsNeeds-with_trigger_edges edges job_ids jobs k.1,
)

-- The fields of a workflow come back.
relay_of-graph_of :
    (id : String) (workflow : RelayWorkflow) (edges : List WorkflowEdge) (node : TriggerNode)
    → find_trigger (graph_of id workflow edges).nodes ≡ ok node
    → relay_of (graph_of id workflow edges) node (tidy_jobs (get_or_else workflow.jobs []))
      ≡ tidy workflow
relay_of-graph_of id workflow edges node found = elim (Option-cases workflow.plugin_use) [
  | inl absent ↦ ground arith
  | inr (file, named) ↦ ground arith
]

module _ (digits : ℕ → String) where
  accepted :
      (graph : WorkflowGraph)
      → validate_workflow_graph digits graph ≡ []
      → assert_valid_workflow_graph digits graph ≡ ok tt
  unfolding assert_valid_workflow_graph
  accepted graph valid = ap assert_no_issues valid

  graph_to_relay_workflow-graph_of :
      (id : String) (workflow : RelayWorkflow) (edges : List WorkflowEdge)
      → assert_valid_workflow_graph digits (graph_of id workflow edges) ≡ ok tt
      → collect_jobs edges [] (graph_of id workflow edges).nodes
        ≡ ok (tidy_jobs (get_or_else workflow.jobs []))
      → graph_to_relay_workflow digits (graph_of id workflow edges) ≡ ok (tidy workflow)
  unfolding graph_to_relay_workflow
  graph_to_relay_workflow-graph_of id workflow edges valid collected =
      rw (valid, collected) (ap ok (relay_of-graph_of id workflow edges _ refl))

  -- A workflow that becomes a graph which passes the checks comes back from the graph with every
  -- field, except that the needs of a job are a list or left out where there are none, empty texts
  -- and zero limits are left out, and only a reusable file or jobs remain, whichever counts.
  pub graph_to_relay_workflow-relay_workflow_to_graph :
      (id : String) (workflow : RelayWorkflow) (graph : WorkflowGraph)
      → relay_workflow_to_graph digits id workflow ≡ ok graph
      → validate_workflow_graph digits graph ≡ []
      → graph_to_relay_workflow digits graph ≡ ok (tidy workflow)
  unfolding relay_workflow_to_graph
  graph_to_relay_workflow-relay_workflow_to_graph id workflow graph made valid =
      let jobs = get_or_else workflow.jobs [] in
      let (edges, parts, e) = chain_inv (jobs_edges digits jobs) _ _ made in
      let all_edges = with_trigger_edges edges (Table.keys jobs) in
      let same : graph_of id workflow all_edges ≡ graph = ok_inj e in
      let w = (validate_workflow_graph_iff digits graph).0 valid in
      let distinct = subst (λ g. Distinct (map node_id g.nodes)) (sym same) w.node_ids in
      let kept = KeepsNeeds-with_trigger_edges edges (Table.keys jobs) jobs (
        jobs_edges-KeepsNeeds digits jobs edges parts
          (subst Distinct (node_ids-keys jobs) distinct.1)) in
      subst (λ g. graph_to_relay_workflow digits g ≡ ok (tidy workflow)) same
        (graph_to_relay_workflow-graph_of id workflow all_edges
          (accepted (graph_of id workflow all_edges)
            (subst (λ g. validate_workflow_graph digits g ≡ []) (sym same) valid))
          (unfold collect_jobs in
            collect_jobs-tidy all_edges [] jobs kept
              (subst Distinct (node_ids-keys jobs) distinct.1) (Apart-nil jobs)))
