-- ===== src/Reconciler.antt =====
-- src/workflows/reconciler.ts: what happens to one job on one tick, from persisted state alone.
-- The texts of the reasons are kept as the values that they print.
pub mod Groups
pub mod Contexts
pub mod Outcome
pub mod Aggregate
pub mod NeedsLoop
pub mod Runs
pub mod Progress
pub mod Finish
use linear_pi_orchestrator.Prelude.{
  ℕ, ◌+◌, String, Bool, true, false, not, ◌&&◌, ◌||◌, Option, none, some, List, [], ◌∷◌, ◌++◌, map,
  leb, nat_eq, ◌==◌, if◌then◌else◌, get_or_else, truthy, flag, any, all, length, includes,
}
use linear_pi_orchestrator.Prelude.Table
use linear_pi_orchestrator.Prelude.Table.{Table}
use linear_pi_orchestrator.Domain.JsonValue.{Json, Fields, string, object, close, field}
use linear_pi_orchestrator.Domain.{
  Timestamp, WorkItem, WorkItemState, WorkflowJobStatus, NeedStatus, WorkflowNeed,
  WorkflowJobDefinition, WorkflowJobState, WorkflowRunRecord, RunResult,
}
use linear_pi_orchestrator.Domain.Status.{
  Satisfaction, met, waiting, impossible, pending_state, is_terminal_job_status, same_status,
  status_of, need_satisfaction,
}
use linear_pi_orchestrator.Expressions.{ExpressionStatus, Evaluator, evaluate_condition}
use Groups.{States, Instances, group_satisfaction}
use Contexts.{expression_contexts, expression_status}

-- `need.job` with `need.status`, or `Succeeded` without one.
pub record NeedLabel : Type 0 where
  pub job : String
  pub status : Option NeedStatus

pub data HoldReason : Type 0 where
  already : WorkflowJobStatus → HoldReason
  worker_is_running : HoldReason
  blocked_on : List NeedLabel → HoldReason

-- The statuses that a decision settles a job with.
pub data Settled : Type 0 where
  skipped omitted : Settled

abbrev pub settled_status : Settled → WorkflowJobStatus
settled_status skipped = WorkflowJobStatus.skipped
settled_status omitted = WorkflowJobStatus.omitted

pub data SettleReason : Type 0 where
  needs_unknown_job : String → SettleReason
  no_longer_satisfiable : NeedLabel → SettleReason
  if_evaluated_false : SettleReason

pub data JobDecision : Type 0 where
  run : JobDecision
  hold : HoldReason → JobDecision
  settle : Settled → SettleReason → JobDecision

abbrev pub label_of : WorkflowNeed → NeedLabel
label_of need = record { job = need.job; status = need.status }

pub record JobDecisionInput : Type 0 where
  pub job : WorkflowJobDefinition
  pub states : States
  pub item : WorkItem
  pub known : List String
  pub instances : Option Instances

-- How the loop over the needs ends: with a decision, or with what blocks the job.
pub data NeedsOutcome : Type 0 where
  decided : JobDecision → NeedsOutcome
  blocked : List NeedLabel → NeedsOutcome

-- One round after the group's satisfaction is known; `rest` is the loop from here on.
abbrev pub after_need :
    Bool
    → NeedLabel
    → List NeedLabel
    → (List NeedLabel → NeedsOutcome)
    → Satisfaction
    → NeedsOutcome
after_need has_if label held rest met = rest held
after_need has_if label held rest waiting = rest (held ++ label ∷ [])
after_need has_if label held rest impossible =
    if has_if then rest held else decided (settle omitted (no_longer_satisfiable label))

unfoldable pub check_needs : JobDecisionInput → List WorkflowNeed → List NeedLabel → NeedsOutcome
check_needs input [] held = blocked held
check_needs input (need ∷ needs) held =
    let next =
      after_need (truthy input.job.condition) (label_of need) held (check_needs input needs)
        (group_satisfaction need input.states input.instances) in
    if includes input.known need.job
    then next
    else decided (settle omitted (needs_unknown_job need.job))

abbrev pub conditional : Option Bool → Option JobDecision
conditional none = none
conditional (some true) = some run
conditional (some false) = some (settle skipped if_evaluated_false)

module _ (evaluator : Evaluator) where
  -- The job's condition over its contexts; a job without one has none to evaluate.
  abbrev pub condition_holds : JobDecisionInput → String → Option Bool
  condition_holds input condition =
      evaluate_condition evaluator condition
        (expression_contexts input.item input.job input.states input.instances)
        (expression_status input.job input.states input.instances)

  abbrev pub by_condition : JobDecisionInput → Option String → Option JobDecision
  by_condition input none = some run
  by_condition input (some condition) =
      if condition == "" then some run else conditional (condition_holds input condition)

  abbrev pub after_needs : JobDecisionInput → NeedsOutcome → Option JobDecision
  after_needs input (decided d) = some d
  after_needs input (blocked []) = by_condition input input.job.condition
  after_needs input (blocked (l ∷ ls)) = some (hold (blocked_on (l ∷ ls)))

  -- `none` is the exception of a condition that cannot be evaluated.
  unfoldable pub decide_job : JobDecisionInput → Option JobDecision
  decide_job input =
      let status = status_of (Table.get input.states input.job.id) in
      if is_terminal_job_status status
      then some (hold (already status))
      else if same_status status WorkflowJobStatus.started
      then some (hold worker_is_running)
      else after_needs input (check_needs input input.job.needs [])
