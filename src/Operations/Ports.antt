-- ===== src/Operations/Ports.antt =====
-- packages/application/src/reconcile-operations.ts: operations, transitions, and what the host supplies.
use linear_pi_orchestrator.Prelude.{String, Bool, Option, none, some, List}
use linear_pi_orchestrator.Prelude.Results.{Result}
use linear_pi_orchestrator.Execution.Values.{Value, Members, object}
use linear_pi_orchestrator.Execution.Host.{JobAttempt}

pub record PersistedOperation : Type 0 where
  pub job_id : String
  pub plugin_use : String
  pub attempt : JobAttempt
  pub operation : Value

pub data OperationStatus : Type 0 where
  succeeded skipped pending started failed : OperationStatus

pub record OperationTransition (Output : Type 0) : Type 0 where
  pub status : OperationStatus
  pub output : Option Output
  pub operation : Option Members
  pub retry_at : Value
  pub error : Value
  pub message : Value
  pub needs_attention : Bool

pub data ReconcileAction : Type 0 where
  reconcile cancel : ReconcileAction

abbrev pub action_text : ReconcileAction → String
action_text reconcile = "reconcile"
action_text cancel = "cancel"

pub data ReconcileOutcome : Type 0 where
  transitioned needs_attention stale : ReconcileOutcome

pub record ReconcileResult : Type 0 where
  pub job_id : String
  pub outcome : ReconcileOutcome

-- The calls that leave the process: an observer of a plugin, and a fenced write. A write of no
-- transition is that of a status that `switch` does not know.
pub data Event (Output : Type 0) : Type 0 where
  observes : PersistedOperation → Members → Event Output
  writes : String → String → Option (OperationTransition Output) → Event Output

abbrev pub Observer : Type 0 → Type 0
Observer Output = List (Event Output) → JobAttempt → Members → Result Value

pub record VersionedOperationPlugin (Output : Type 0) : Type 0 where
  pub reconcile : Option (Observer Output)
  pub cancel : Option (Observer Output)

-- `transition` answers with a Boolean or with nothing.
pub record ReconcileOperationsPorts (Output : Type 0) : Type 0 where
  pub is_date : String → Bool
  pub list_operations : Result (List PersistedOperation)
  pub plugin : String → String → Option (VersionedOperationPlugin Output)
  pub parse_output : Value → String → Result Output
  pub transition :
      List (Event Output)
      → String
      → String
      → Option (OperationTransition Output)
      → Result (Option Bool)

abbrev pub object_handle : Value → Option Members
object_handle (object ms) = some ms
object_handle v = none
