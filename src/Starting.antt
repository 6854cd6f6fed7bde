-- ===== src/Starting.antt =====
-- packages/application/src/workflow-engine.ts: StartWorkflow and workflowOccurrence, over the ledger.
-- The events and the counters change neither ledger nor result, and the source acknowledges the item.
pub mod Touches
pub mod Clearing
pub mod Exclusive
use Prim.Native.Char.{Char, code}
use linear_pi_orchestrator.Prelude.{
  ℕ, ◌+◌, ◌-◌, ◌*◌, String, Bool, true, false, not, ◌&&◌, ◌||◌, ◌==◌, Option, none, some, List, [],
  ◌∷◌, map, if◌then◌else◌, get_or_else, truthy, is_some, keep, is_empty, leb, nat_eq,
}
use linear_pi_orchestrator.Prelude.Table
use linear_pi_orchestrator.Prelude.Table.{Table}
use linear_pi_orchestrator.Prelude.Texts.{append, strip_prefix}
use linear_pi_orchestrator.Domain.JsonValue.{Json, string, object, fields_of}
use linear_pi_orchestrator.Domain.{
  Timestamp, WorkItem, FirePolicy, once_per_match, once_per_item, on_change, every_poll,
  TriggerEvent, WorkflowConcurrency, WorkflowDefinition, WorkflowJobDefinition, WorkflowRunIdentity,
  WorkflowRunRecord,
}
use linear_pi_orchestrator.Domain.Key.{create_workflow_run_key}
use linear_pi_orchestrator.RunStore.{
  Records, OpenInput, open_workflow_run, find_workflow_run, find_running_in_group,
  latest_workflow_run, is_running,
}
use linear_pi_orchestrator.Cancellation.{CancelPorts, cancel}

-- `render` is the template engine, `item_text` and `decimal` write an item as JSON and a number, and
-- `revision` is that of the plugin of an action.
pub record StartPorts : Type 0 where
  pub cancelling : CancelPorts
  pub has_source : String → Bool
  pub render : String → WorkItem → String
  pub item_text : WorkItem → String
  pub decimal : ℕ → String
  pub revision : String → Option String

-- The number of `\d+` from the number before it, if the text has nothing else.
unfoldable pub read_digits : ℕ → String → Option ℕ
read_digits n String.[] = some n
read_digits n (String.◌∷◌ c s) =
    let rest = read_digits (n * 10 + (code c - 48)) s in
    if leb 48 (code c) && leb (code c) 57 then rest else none

abbrev digits : Option String → Option ℕ
digits none = none
digits (some String.[]) = none
digits (some (String.◌∷◌ c s)) = read_digits 0 (String.◌∷◌ c s)

-- Number(/^run-(\d+)$/.exec(occurrence)?.[1] ?? "0")
unfoldable pub run_number : String → ℕ
unfolding strip_prefix read_digits
run_number occurrence = get_or_else (digits (strip_prefix "run-" occurrence)) 0

abbrev identity_at : WorkflowDefinition → WorkItem → String → WorkflowRunIdentity
identity_at workflow item occurrence = record {
  repository = workflow.repository;
  workflow_id = workflow.id;
  source_id = item.source_id;
  item_id = item.id;
  occurrence = occurrence;
}

abbrev pub cancels_others : Option WorkflowConcurrency → Bool
cancels_others none = false
cancels_others (some concurrency) = concurrency.cancel_in_progress

abbrev pub opened : Records × WorkflowRunRecord → Records × Option WorkflowRunRecord
opened (records, run) = (records, some run)

abbrev found_or_opened :
    Option WorkflowRunRecord → Records → OpenInput → Records × Option WorkflowRunRecord
found_or_opened (some existing) records input = (records, some existing)
found_or_opened none records input = opened (open_workflow_run records input)

module _ (ports : StartPorts) where
  abbrev poll_occurrence : Option WorkflowRunRecord → String
  poll_occurrence none = "run-1"
  poll_occurrence (some latest) =
      if is_running latest.status
      then latest.identity.occurrence
      else append "run-" (ports.decimal (run_number latest.identity.occurrence + 1))

  abbrev policy_occurrence : FirePolicy → WorkflowDefinition → WorkItem → Records → String
  policy_occurrence every_poll workflow item records =
      poll_occurrence (latest_workflow_run records (identity_at workflow item ""))
  policy_occurrence on_change workflow item records = append "change-" (ports.item_text item)
  policy_occurrence once_per_match workflow item records = "item"
  policy_occurrence once_per_item workflow item records = "item"

  abbrev event_occurrence : Option TriggerEvent → WorkflowDefinition → WorkItem → Records → String
  event_occurrence (some event) workflow item records = append "event-" event.id
  event_occurrence none workflow item records =
      policy_occurrence (get_or_else workflow.fire_policy once_per_match) workflow item records

  unfoldable pub workflow_occurrence : WorkflowDefinition → WorkItem → Records → String
  unfolding append run_number
  workflow_occurrence workflow item records =
      event_occurrence item.trigger_event workflow item records

  abbrev pub rendered_group : Option WorkflowConcurrency → WorkItem → Option String
  rendered_group none item = none
  rendered_group (some concurrency) item = some (ports.render concurrency.group item)

  -- The running runs of the group, but for the run itself.
  abbrev pub live_others :
      Records → WorkflowDefinition → Option String → WorkflowRunIdentity → List WorkflowRunRecord
  live_others records workflow none identity = []
  live_others records workflow (some group) identity =
      keep (λ other. not (other.id == create_workflow_run_key identity))
        (find_running_in_group records workflow.repository group)

  -- Cancels each of the runs, up to the first one whose cancellation cannot be verified.
  unfoldable pub cancel_others :
      WorkflowDefinition → List WorkflowRunRecord → Records → Records × Bool
  unfolding cancel
  cancel_others workflow [] records = (records, true)
  cancel_others workflow (other ∷ others) records =
      let (records', cancelled) =
        cancel ports.cancelling workflow other
          "Superseded by a newer run in the same concurrency group." records in
      let rest = cancel_others workflow others records' in
      if cancelled then rest else (records', false)

  -- Makes room in the group, or says that there is none.
  unfoldable pub clear_group :
      WorkflowDefinition → Option String → WorkflowRunIdentity → Records → Records × Bool
  unfolding find_running_in_group cancel_others
  clear_group workflow group identity records =
      let live = live_others records workflow group identity in
      if not (truthy group) || is_empty live
      then (records, true)
      else if not (cancels_others workflow.concurrency)
      then (records, false)
      else cancel_others workflow live records

  abbrev with_revision : Table Json → String → Option String → Table Json
  with_revision revisions action_use none = revisions
  with_revision revisions action_use (some revision) =
      Table.set revisions action_use (string revision)

  -- Those of the plugins that have one; as JSON, an entry that is undefined is left out.
  abbrev plugin_revisions : Table Json → List WorkflowJobDefinition → Table Json
  plugin_revisions revisions [] = revisions
  plugin_revisions revisions (job ∷ jobs) =
      plugin_revisions (with_revision revisions job.action_use (ports.revision job.action_use)) jobs

  -- The definition that is recorded with a run.
  abbrev pub snapshot : WorkflowDefinition → WorkflowDefinition
  snapshot workflow = record workflow {
    metadata = some (
        Table.set (get_or_else workflow.metadata []) "pluginRevisions"
          (object (fields_of (plugin_revisions [] workflow.jobs))));
  }

  abbrev timeout_at : Option ℕ → Option Timestamp
  timeout_at none = none
  timeout_at (some timeout) =
      if nat_eq timeout 0 then none else some (ports.cancelling.now + timeout)

  abbrev pub opening :
      WorkflowDefinition → WorkItem → Option String → WorkflowRunIdentity → OpenInput
  opening workflow item group identity = record {
    identity = identity;
    item = item;
    started_at = ports.cancelling.now;
    timeout_at = timeout_at workflow.timeout_ms;
    concurrency_group = if truthy group then group else none;
    definition = some (snapshot workflow);
  }

  abbrev pub start_in :
      WorkflowDefinition
      → WorkItem
      → WorkflowRunIdentity
      → Records × Bool
      → Records × Option WorkflowRunRecord
  start_in workflow item identity (records, false) = (records, none)
  start_in workflow item identity (records, true) =
      found_or_opened (find_workflow_run records identity) records
        (opening workflow item (rendered_group workflow.concurrency item) identity)

  abbrev pub identity_of : WorkflowDefinition → WorkItem → Records → WorkflowRunIdentity
  identity_of workflow item records =
      identity_at workflow item (workflow_occurrence workflow item records)

  abbrev start_run :
      Option WorkflowRunRecord
      → WorkflowDefinition
      → WorkItem
      → Records
      → Records × Option WorkflowRunRecord
  start_run (some persisted) workflow item records = (records, some persisted)
  start_run none workflow item records =
      let identity = identity_of workflow item records in
      start_in workflow item identity
        (clear_group workflow (rendered_group workflow.concurrency item) identity records)

  -- No result if there is no source, or the group is held.
  unfoldable pub start_workflow :
      Option WorkflowRunRecord
      → WorkflowDefinition
      → WorkItem
      → Records
      → Records × Option WorkflowRunRecord
  unfolding workflow_occurrence clear_group find_workflow_run open_workflow_run Table.set
  start_workflow persisted workflow item records =
      if not (ports.has_source workflow.source_id)
      then (records, none)
      else start_run persisted workflow item records
