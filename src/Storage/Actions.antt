-- ===== src/Storage/Actions.antt =====
-- packages/storage-sqlite/src/index.ts: the executions of actions, under their idempotency keys.
-- Inputs, outputs and errors are JSON values, so `assertJson` passes them.
pub mod Calls
pub mod Taken
pub mod Once
use linear_pi_orchestrator.Prelude.{
  String, Bool, true, false, not, ◌&&◌, ◌||◌, Option, none, some, List, [], ◌∷◌, ◌==◌,
  if◌then◌else◌, get_or_else, or_else, patch, flag, leb, nat_eq, text_eq?,
}
use linear_pi_orchestrator.Prelude.Table
use linear_pi_orchestrator.Prelude.Table.{Table}
use linear_pi_orchestrator.Prelude.Texts.{append}
use linear_pi_orchestrator.Prelude.Results.{Result, ok, thrown, ◌>>=◌}
use linear_pi_orchestrator.Domain.JsonValue.{Json}
use linear_pi_orchestrator.Domain.{Timestamp}

pub data ActionExecutionStatus : Type 0 where
  running succeeded failed skipped : ActionExecutionStatus

-- `Exclude<ActionExecutionStatus, "running">`
pub data FinalStatus : Type 0 where
  succeeded failed skipped : FinalStatus

abbrev pub final_status : FinalStatus → ActionExecutionStatus
final_status FinalStatus.succeeded = ActionExecutionStatus.succeeded
final_status FinalStatus.failed = ActionExecutionStatus.failed
final_status FinalStatus.skipped = ActionExecutionStatus.skipped

pub record ActionExecutionRecord : Type 0 where
  pub id : String
  pub idempotency_key : String
  pub trigger_id : String
  pub action_id : String
  pub source_id : String
  pub item_id : String
  pub status : ActionExecutionStatus
  pub claimed_at : Timestamp
  pub attempt_id : String
  pub lease_expires_at : Option Timestamp
  pub needs_attention : Option Bool
  pub updated_at : Timestamp
  pub completed_at : Option Timestamp
  pub input : Option Json
  pub output : Option Json
  pub error : Option Json

-- `attempt_id` has the random id, where the caller gave none.
pub record ActionExecutionClaimInput : Type 0 where
  pub idempotency_key : String
  pub trigger_id : String
  pub action_id : String
  pub source_id : String
  pub item_id : String
  pub claimed_at : Timestamp
  pub attempt_id : String
  pub lease_expires_at : Option Timestamp
  pub input : Option Json

pub record ActionExecutionTransition : Type 0 where
  pub status : FinalStatus
  pub completed_at : Timestamp
  pub output : Option Json
  pub error : Option Json

abbrev pub Actions : Type 0
Actions = Table ActionExecutionRecord

abbrev pub is_running : ActionExecutionStatus → Bool
is_running ActionExecutionStatus.running = true
is_running _ = false

-- An execution that runs or has succeeded is not claimed again.
abbrev pub is_taken : Option ActionExecutionRecord → Bool
is_taken none = false
is_taken (some old) = elim old.status [
  | ActionExecutionStatus.running ↦ true
  | ActionExecutionStatus.succeeded ↦ true
  | ActionExecutionStatus.failed ↦ false
  | ActionExecutionStatus.skipped ↦ false
]

abbrev pub save_action : Actions → ActionExecutionRecord → Actions
save_action actions action = Table.set actions action.idempotency_key action

abbrev pub claimed_action : ActionExecutionClaimInput → ActionExecutionRecord
claimed_action claim = record {
  id = claim.idempotency_key;
  idempotency_key = claim.idempotency_key;
  trigger_id = claim.trigger_id;
  action_id = claim.action_id;
  source_id = claim.source_id;
  item_id = claim.item_id;
  status = ActionExecutionStatus.running;
  claimed_at = claim.claimed_at;
  attempt_id = claim.attempt_id;
  lease_expires_at = claim.lease_expires_at;
  needs_attention = none;
  updated_at = claim.claimed_at;
  completed_at = none;
  input = claim.input;
  output = none;
  error = none;
}

abbrev required : String → String → Result (Unit {0}) → Result (Unit {0})
required name value rest =
    if value == ""
    then thrown (append "Action execution " (append name " must be a non-empty string."))
    else rest

abbrev pub assert_claim : ActionExecutionClaimInput → Result (Unit {0})
assert_claim claim = required "idempotencyKey" claim.idempotency_key (
    required "triggerId" claim.trigger_id (
      required "actionId" claim.action_id
        (required "sourceId" claim.source_id (required "itemId" claim.item_id (ok tt)))))

abbrev pub try_claim : Actions → ActionExecutionClaimInput → Actions × Option ActionExecutionRecord
try_claim actions claim =
    if is_taken (Table.get actions claim.idempotency_key)
    then (actions, none)
    else (save_action actions (claimed_action claim), some (claimed_action claim))

unfoldable pub claim_action_execution :
    Actions → ActionExecutionClaimInput → Result (Actions × Option ActionExecutionRecord)
unfolding Table.get Table.set
claim_action_execution actions claim = assert_claim claim >>= λ _. ok (try_claim actions claim)

abbrev pub finished_action :
    ActionExecutionRecord → ActionExecutionTransition → ActionExecutionRecord
finished_action old transition = record old {
  status = final_status transition.status;
  completed_at = some transition.completed_at;
  updated_at = transition.completed_at;
  output = patch transition.output old.output;
  error = patch transition.error old.error;
}

-- Only the attempt that claimed an execution finishes it, and only once.
unfoldable pub finish_action_execution :
    Actions
    → String
    → Timestamp
    → ActionExecutionTransition
    → Option String
    → Actions × Option ActionExecutionRecord
unfolding Table.get Table.set
finish_action_execution actions key claimed_at transition expected_attempt_id =
    elim (Table.get actions key) [
      | none ↦ (actions, none)
      | some old ↦
          if not (is_running old.status)
            || not (nat_eq old.claimed_at claimed_at)
            || not (text_eq? (some old.attempt_id) expected_attempt_id)
          then (actions, none)
          else (
            save_action actions (finished_action old transition),
            some (finished_action old transition),
          )
    ]

abbrev pub renewed_action : ActionExecutionRecord → Timestamp → Timestamp → ActionExecutionRecord
renewed_action current lease_expires_at at = record current {
  lease_expires_at = some lease_expires_at;
  updated_at = at;
}

unfoldable pub renew_action_execution_lease :
    Actions → String → String → Timestamp → Timestamp → Actions × Option ActionExecutionRecord
unfolding Table.get Table.set
renew_action_execution_lease actions key attempt_id lease_expires_at at =
    elim (Table.get actions key) [
      | none ↦ (actions, none)
      | some current ↦
          if not (is_running current.status)
            || not (current.attempt_id == attempt_id)
            || flag current.needs_attention
          then (actions, none)
          else (
            save_action actions (renewed_action current lease_expires_at at),
            some (renewed_action current lease_expires_at at),
          )
    ]

abbrev passed : Option Timestamp → Timestamp → Bool
passed none at = false
passed (some lease) at = leb lease at

abbrev pub is_expired : Timestamp → ActionExecutionRecord → Bool
is_expired at value =
    is_running value.status && passed value.lease_expires_at at && not (flag value.needs_attention)

abbrev pub flagged_action : Timestamp → ActionExecutionRecord → ActionExecutionRecord
flagged_action at value = record value { needs_attention = some true; updated_at = at }

-- Each expired row is written back under its own key.
unfoldable pub mark_expired : Actions → Timestamp → Actions
mark_expired [] at = []
mark_expired ((key, value) ∷ actions) at =
    (key, if is_expired at value then flagged_action at value else value) ∷ mark_expired actions at
