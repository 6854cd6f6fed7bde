-- ===== src/Reconciler/Contexts.antt =====
-- src/workflows/reconciler.ts: what a job's `if:` may read.
use linear_pi_orchestrator.Prelude.{
  String, Bool, false, not, ◌||◌, Option, none, some, List, [], ◌∷◌, ◌++◌, map, if◌then◌else◌,
  get_or_else, any, all,
}
use linear_pi_orchestrator.Prelude.Table
use linear_pi_orchestrator.Prelude.Table.{Table}
use linear_pi_orchestrator.Domain.JsonValue.{Json, Fields, string, object, close, field}
use linear_pi_orchestrator.Domain.{
  WorkItem, WorkItemState, WorkflowJobStatus, WorkflowNeed, WorkflowJobDefinition, WorkflowJobState,
}
use linear_pi_orchestrator.Domain.Status.{is_terminal_job_status, same_status, status_of}
use linear_pi_orchestrator.Expressions.{ExpressionStatus}
use linear_pi_orchestrator.Reconciler.Groups.{States, Instances, instances_of}

abbrev to_fields : Table Json → Fields
to_fields [] = close
to_fields ((k, v) ∷ m) = field k v (to_fields m)

abbrev to_object : Table Json → Json
to_object m = object (to_fields m)

abbrev pub result_of : WorkflowJobStatus → String
result_of WorkflowJobStatus.succeeded = "success"
result_of WorkflowJobStatus.started = "success"
result_of WorkflowJobStatus.failed = "failure"
result_of WorkflowJobStatus.skipped = "skipped"
result_of WorkflowJobStatus.omitted = "skipped"
result_of WorkflowJobStatus.pending = ""

abbrev pub status_text : WorkflowJobStatus → String
status_text WorkflowJobStatus.pending = "pending"
status_text WorkflowJobStatus.started = "started"
status_text WorkflowJobStatus.succeeded = "succeeded"
status_text WorkflowJobStatus.failed = "failed"
status_text WorkflowJobStatus.skipped = "skipped"
status_text WorkflowJobStatus.omitted = "omitted"

abbrev item_state_text : Option WorkItemState → String
item_state_text none = "unknown"
item_state_text (some WorkItemState.opened) = "open"
item_state_text (some WorkItemState.active) = "active"
item_state_text (some WorkItemState.terminal) = "terminal"
item_state_text (some WorkItemState.unknown) = "unknown"

abbrev is_failed : WorkflowJobStatus → Bool
is_failed status =
    same_status status WorkflowJobStatus.failed || same_status status WorkflowJobStatus.omitted

abbrev is_going : WorkflowJobStatus → Bool
is_going status =
    same_status status WorkflowJobStatus.succeeded || same_status status WorkflowJobStatus.started

-- The worst result of a matrix group.
unfoldable pub worst_of : List WorkflowJobStatus → String
worst_of statuses =
    if any is_failed statuses
    then "failure"
    else if all is_going statuses
    then "success"
    else if all is_terminal_job_status statuses
    then "skipped"
    else ""

abbrev merged_outputs : Table Json → List (Option WorkflowJobState) → Table Json
merged_outputs merged [] = merged
merged_outputs merged (none ∷ states) = merged_outputs merged states
merged_outputs merged (some s ∷ states) =
    merged_outputs (Table.merge merged (get_or_else s.outputs [])) states

-- `result` and `status` of a need: of its one instance, or the worst of several.
abbrev need_result : List WorkflowJobStatus → String × String
need_result (status ∷ []) = (result_of status, status_text status)
need_result statuses = (worst_of statuses, worst_of statuses)

abbrev need_context : List (Option WorkflowJobState) → Json
need_context states =
    let (result, status) = need_result (map status_of states) in
    to_object (
      ("result", string result)
      ∷ ("status", string status)
      ∷ ("outputs", to_object (merged_outputs [] states))
      ∷ [])

abbrev needs_context : List WorkflowNeed → States → Option Instances → Table Json → Table Json
needs_context [] states instances done = done
needs_context (need ∷ needs) states instances done =
    needs_context needs states instances
      (Table.set done need.job (need_context (instances_of need.job states instances)))

abbrev jobs_context : States → Table Json
jobs_context [] = []
jobs_context ((id, s) ∷ states) =
    (
      id,
      to_object (
          ("result", string (result_of s.status))
          ∷ ("status", string (status_text s.status))
          ∷ ("outputs", to_object (get_or_else s.outputs []))
          ∷ []),
    )
    ∷ jobs_context states

unfoldable pub expression_contexts :
    WorkItem → WorkflowJobDefinition → States → Option Instances → Table Json
unfolding Table.merge Table.set
expression_contexts item job states instances =
    (
      "item",
      to_object (
          ("id", string item.id)
          ∷ ("title", string item.title)
          ∷ ("description", string (get_or_else item.description ""))
          ∷ ("url", string (get_or_else item.url ""))
          ∷ ("state", string (item_state_text item.state))
          ∷ ("metadata", to_object (get_or_else item.metadata []))
          ∷ []),
    )
    ∷ ("needs", to_object (needs_context job.needs states instances []))
    ∷ ("jobs", to_object (jobs_context states))
    ∷ ("matrix", to_object (get_or_else job.matrix []))
    ∷ []

-- The statuses of all instances of all needs.
abbrev pub dependencies : List WorkflowNeed → States → Option Instances → List WorkflowJobStatus
dependencies [] states instances = []
dependencies (need ∷ needs) states instances =
    map status_of (instances_of need.job states instances) ++ dependencies needs states instances

unfoldable pub expression_status :
    WorkflowJobDefinition → States → Option Instances → ExpressionStatus
expression_status job states instances =
    let failure = any is_failed (dependencies job.needs states instances) in
    record { success = not failure; failure = failure; cancelled = false }
