-- ===== src/Config/JobGraph.antt =====
-- validateJobGraph and dependencyCycles in src/config/v2.ts.
pub mod Accepts
use linear_pi_orchestrator.Prelude.{
  ℕ, suc, ◌+◌, String, Bool, true, false, not, ◌&&◌, Option, none, some, List, [], ◌∷◌, ◌++◌, map,
  ◌==◌, ◌≡◌, if◌then◌else◌, get_or_else, includes, keep, length, is_empty, All,
}
use linear_pi_orchestrator.Prelude.Table
use linear_pi_orchestrator.Prelude.Table.{Table}
use linear_pi_orchestrator.Prelude.Texts.{append, join}
use linear_pi_orchestrator.Domain.{NeedStatus, WorkflowNeed}
use linear_pi_orchestrator.StringNeed.{
  StringWorkflowNeedResolution, ok, unknown_job, unknown_status, resolve_string_workflow_need,
}
use linear_pi_orchestrator.Cycles.{find_cycles, cycles_of}
use linear_pi_orchestrator.Cycles.Walks.{Acyclic}
use linear_pi_orchestrator.Config.{RelayNeed, RelayWorkflowJob, needs_list}

pub data PathPart : Type 0 where
  key : String → PathPart
  position : ℕ → PathPart

pub record SchemaIssue : Type 0 where
  pub path : List PathPart
  pub message : String

abbrev pub Jobs : Type 0
Jobs = Table RelayWorkflowJob

-- The job that a need resolves to, among the declared names.
abbrev pub resolved_job : StringWorkflowNeedResolution → Option String
resolved_job (ok need) = some need.job
resolved_job (unknown_job job) = none
resolved_job (unknown_status target status) = none

unfoldable pub need_target : List String → RelayNeed → Option String
unfolding resolve_string_workflow_need
need_target names (RelayNeed.text need) = resolved_job (resolve_string_workflow_need need names)
need_target names (RelayNeed.object job status) = some job

abbrev pub resolved_jobs : List String → List RelayNeed → List String
resolved_jobs names [] = []
resolved_jobs names (need ∷ needs) =
    elim (need_target names need) [ none ↦ [] | some job ↦ job ∷ [] ] ++ resolved_jobs names needs

-- The edges of each job: the jobs that it needs.
abbrev pub edges_of : List String → Jobs → Table (List String)
edges_of names [] = []
edges_of names ((name, job) ∷ jobs) =
    (name, resolved_jobs names (needs_list job.needs)) ∷ edges_of names jobs

-- The edges that the walk follows.
abbrev pub next_jobs : Table (List String) → String → List String
next_jobs edges name =
    keep (λ next. includes (Table.keys edges) next) (get_or_else (Table.get edges name) [])

unfoldable pub dependency_cycles : Jobs → List (List String)
unfolding need_target find_cycles Table.get
dependency_cycles jobs =
    let edges = edges_of (Table.keys jobs) jobs in
    cycles_of (find_cycles (next_jobs edges) (length edges + 2) (Table.keys edges))

abbrev pub issue : List PathPart → String → SchemaIssue
issue path message = record { path = path; message = message }

abbrev quoted : String → String → String → String
quoted before id after = append before (append id after)

-- A need that resolves has to name another job that is declared.
abbrev pub target_issues : List PathPart → List String → String → String → List SchemaIssue
target_issues path names name target =
    if target == name
    then issue path (quoted "job '" name "' cannot need itself") ∷ []
    else if includes names target
    then []
    else issue path (quoted "unknown job '" target "'") ∷ []

abbrev pub resolution_issues :
    List PathPart → List String → String → String → StringWorkflowNeedResolution → List SchemaIssue
resolution_issues path names name text (ok need) = target_issues path names name need.job
resolution_issues path names name text (unknown_job job) =
    issue path (quoted "unknown job '" job "'") ∷ []
resolution_issues path names name text (unknown_status target status) =
    issue path (
      append (quoted "Unknown job status '" status "' in needs '")
        (append text "'. Use Started, Succeeded, Failed, or Skipped."))
    ∷ []

unfoldable pub need_issues : List PathPart → List String → String → RelayNeed → List SchemaIssue
unfolding resolve_string_workflow_need
need_issues path names name (RelayNeed.text need) =
    resolution_issues path names name need (resolve_string_workflow_need need names)
need_issues path names name (RelayNeed.object job status) = target_issues path names name job

-- The needs of one job.
unfoldable pub needs_issues :
    List PathPart → List String → String → ℕ → List RelayNeed → List SchemaIssue
unfolding need_issues
needs_issues path names name index [] = []
needs_issues path names name index (need ∷ needs) =
    need_issues (path ++ (key name ∷ key "needs" ∷ position index ∷ [])) names name need
    ++ needs_issues path names name (suc index) needs

unfoldable pub jobs_issues : List PathPart → List String → Jobs → List SchemaIssue
unfolding needs_issues
jobs_issues path names [] = []
jobs_issues path names ((name, job) ∷ jobs) =
    needs_issues path names name 0 (needs_list job.needs) ++ jobs_issues path names jobs

abbrev pub cycle_issue : List PathPart → List String → SchemaIssue
cycle_issue path cycle = issue path (append "needs form a cycle: " (join " -> " cycle))

abbrev pub empty_issues : List PathPart → Jobs → List SchemaIssue
empty_issues path [] = issue path "a workflow needs at least one job" ∷ []
empty_issues path (job ∷ jobs) = []

unfoldable pub validate_job_graph : Jobs → List PathPart → List SchemaIssue
unfolding jobs_issues dependency_cycles join
validate_job_graph jobs path =
    empty_issues path jobs
    ++ (jobs_issues path (Table.keys jobs) jobs ++ map (cycle_issue path) (dependency_cycles jobs))
