-- ===== src/Execution/Host.antt =====
-- packages/application/src/execute-job.ts: what the host supplies for an execution, and its results.
use linear_pi_orchestrator.Prelude.{String, Bool, Option, List}
use linear_pi_orchestrator.Prelude.Results.{Result}
use linear_pi_orchestrator.Domain.{Timestamp}
use linear_pi_orchestrator.Execution.Values.{Value}
use linear_pi_orchestrator.Execution.Outcomes.{Outcome}

pub record JobAttempt : Type 0 where
  pub attempt_id : String
  pub lease_expires_at : Option Timestamp

-- An outcome whose output, if it has one, is of the declared type.
abbrev pub Parsed : Type 0 → Type 0
Parsed Output = Outcome (Option Output)

pub record TargetJobResult (Output Target : Type 0) : Type 0 where
  pub target : Target
  pub outcome : Parsed Output

-- The calls of the host's operations that have an effect, in order.
pub data Event (Input Output Target : Type 0) : Type 0 where
  resolves : Event Input Output Target
  claims : Input → Event Input Output Target
  lists : Event Input Output Target
  claims_target : Target → Input → Event Input Output Target
  executes : JobAttempt → Option (Target × JobAttempt) → Input → Event Input Output Target
  finishes_target : Target → String → Parsed Output → Event Input Output Target
  finishes_job :
      String → Parsed Output → List (TargetJobResult Output Target) → Event Input Output Target
  finishes_uncertain :
      String → String → List (TargetJobResult Output Target) → Event Input Output Target

pub data ExecuteJobResult (Output Target : Type 0) : Type 0 where
  not_claimed : ExecuteJobResult Output Target
  completed :
      String → Parsed Output → List (TargetJobResult Output Target) → ExecuteJobResult Output Target
  uncertain :
      String → String → List (TargetJobResult Output Target) → ExecuteJobResult Output Target

-- `heartbeat` answers with the first failure of the renewals during one call of `execute`, if there
-- is one; `valid_interval` tells whether the interval between renewals is positive and finite.
pub record ExecuteJobOperations (Raw Input Output Target : Type 0) : Type 0 where
  pub is_date : String → Bool
  pub resolve_input : List (Event Input Output Target) → Result Raw
  pub parse_input : Raw → Result Input
  pub claim_job : List (Event Input Output Target) → Input → Result (Option JobAttempt)
  pub list_targets : Option (List (Event Input Output Target) → Result (List Target))
  pub no_targets_outcome : Option (Parsed Output)
  pub claim_target :
      Option (List (Event Input Output Target) → Target → Input → Result (Option JobAttempt))
  pub execute :
      List (Event Input Output Target)
      → JobAttempt
      → Option (Target × JobAttempt)
      → Input
      → Result Value
  pub adapt_outcome : Option (Value → Result (Outcome Value))
  pub parse_output : Value → Result Output
  pub finish_job :
      List (Event Input Output Target)
      → String
      → Parsed Output
      → List (TargetJobResult Output Target)
      → Result (Unit {0})
  pub finish_target :
      Option
        (List (Event Input Output Target) → Target → String → Parsed Output → Result (Unit {0}))
  pub finish_uncertain :
      List (Event Input Output Target)
      → String
      → String
      → List (TargetJobResult Output Target)
      → Result (Unit {0})
  pub heartbeat :
      Option (
        List (Event Input Output Target)
        → JobAttempt
        → Option (Target × JobAttempt)
        → Option String)
  pub valid_interval : Bool
