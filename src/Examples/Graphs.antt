-- ===== src/Examples/Graphs.antt =====
-- Workflows as graphs, on small inputs.
use linear_pi_orchestrator.Prelude.{
  ℕ, String, true, false, Option, none, some, List, [], ◌∷◌, ◌≡◌, refl, arith, ◌↔◌, includes,
  eq_iff, ◌==◌, if◌then◌else◌, ltb,
}
use linear_pi_orchestrator.Prelude.Table
use linear_pi_orchestrator.Prelude.Table.{Table}
use linear_pi_orchestrator.Prelude.Texts.{append}
use linear_pi_orchestrator.Prelude.Results.{ok}
use linear_pi_orchestrator.Domain.JsonValue.{null}
use linear_pi_orchestrator.Domain.{NeedStatus}
use linear_pi_orchestrator.Config.{RelayNeed, RelayNeeds, RelayWorkflowJob, RelayWorkflow}
use linear_pi_orchestrator.Config.JobGraph.{validate_job_graph, key}
use linear_pi_orchestrator.Config.JobGraph.Accepts.{IsJobGraph, validate_job_graph_iff}
use linear_pi_orchestrator.Cycles.{Search, find_cycles}
use linear_pi_orchestrator.Cycles.Fuel.{find_cycles_returns}
use linear_pi_orchestrator.Graph.{WorkflowEdge, WorkflowGraph}
use linear_pi_orchestrator.Graph.FromRelay.{
  relay_workflow_to_graph, graph_of, trigger_edge, need_edge,
}
use linear_pi_orchestrator.Graph.Validate.{validate_workflow_graph}
use linear_pi_orchestrator.Graph.Valid.{IsWellFormed}
use linear_pi_orchestrator.Graph.Valid.Accepts.{validate_workflow_graph_iff}
use linear_pi_orchestrator.Graph.ToRelay.{graph_to_relay_workflow}
use linear_pi_orchestrator.Graph.RoundTrip.{tidy, graph_to_relay_workflow-relay_workflow_to_graph}

abbrev tally : ℕ → String
tally n = if ltb n 1 then "0" else "1"

abbrev job_with : Option RelayNeeds → RelayWorkflowJob
job_with needs = record {
  plugin_use = "command";
  config = none;
  needs = needs;
  condition = none;
  continue_on_error = false;
  enabled = true;
  strategy = none;
  timeout_minutes = some 5;
}

abbrev jobs : Table RelayWorkflowJob
jobs =
    ("plan", job_with none)
    ∷ ("build", job_with (some (RelayNeeds.one (RelayNeed.text "plan"))))
    ∷ (
      "ship",
      job_with (
          some (
            RelayNeeds.many (
              RelayNeed.text "build.Started"
              ∷ RelayNeed.object "plan" (some NeedStatus.succeeded)
              ∷ []))),
    )
    ∷ []

abbrev workflow : RelayWorkflow
workflow = record {
  enabled = true;
  source = "linear";
  match = none;
  fire = null;
  max_concurrent = some 2;
  targets = none;
  timeout_minutes = 1440;
  concurrency = none;
  plugin_use = none;
  inputs = none;
  jobs = some jobs;
}

abbrev edges : List WorkflowEdge
edges =
    need_edge tally "build" 0 (RelayNeed.text "plan") ("plan", NeedStatus.succeeded)
    ∷ need_edge tally "ship" 0 (RelayNeed.text "build.Started") ("build", NeedStatus.started)
    ∷ need_edge tally "ship" 1 (RelayNeed.object "plan" (some NeedStatus.succeeded))
        ("plan", NeedStatus.succeeded)
    ∷ trigger_edge "plan"
    ∷ []

abbrev graph : WorkflowGraph
graph = graph_of "release" workflow edges

graph_made : relay_workflow_to_graph tally "release" workflow ≡ ok graph
unfolding relay_workflow_to_graph append
graph_made = refl

graph_valid : validate_workflow_graph tally graph ≡ []
unfolding validate_workflow_graph append Table.get Table.set
graph_valid = refl

validate_workflow_graph_iff_example :
    (validate_workflow_graph tally graph ≡ []) ↔ IsWellFormed graph
validate_workflow_graph_iff_example = validate_workflow_graph_iff tally graph

graph_to_relay_workflow-relay_workflow_to_graph_example :
    graph_to_relay_workflow tally graph ≡ ok (tidy workflow)
graph_to_relay_workflow-relay_workflow_to_graph_example =
    graph_to_relay_workflow-relay_workflow_to_graph tally "release" workflow graph graph_made
      graph_valid

validate_job_graph_iff_example : (validate_job_graph jobs (key "jobs" ∷ []) ≡ []) ↔ IsJobGraph jobs
validate_job_graph_iff_example = validate_job_graph_iff jobs (key "jobs" ∷ [])

jobs_valid : validate_job_graph jobs (key "jobs" ∷ []) ≡ []
unfolding validate_job_graph append Table.get Table.set
jobs_valid = refl

-- A job that needs itself by way of another.
abbrev looped : String → List String
looped id = if id == "plan" then "build" ∷ [] else if id == "build" then "plan" ∷ [] else []

looped_known :
    (id t : String) → includes (looped id) t ≡ true → includes ("plan" ∷ "build" ∷ []) id ≡ true
looped_known id t h =
    ground (arith, eq_iff id "plan", eq_iff id "build", eq_iff "plan" id, eq_iff "build" id)

find_cycles_returns_example : (s : Search) × (find_cycles looped 4 ("ship" ∷ "plan" ∷ []) ≡ some s)
find_cycles_returns_example =
    find_cycles_returns looped ("plan" ∷ "build" ∷ []) looped_known 4 ("ship" ∷ "plan" ∷ [])
      (omega arith)

looped_cycles :
    find_cycles looped 4 ("ship" ∷ "plan" ∷ [])
    ≡ some (record {
      complete = "plan" ∷ "build" ∷ "ship" ∷ [];
      cycles = ("plan" ∷ "build" ∷ "plan" ∷ []) ∷ [];
    })
unfolding find_cycles
looped_cycles = refl
