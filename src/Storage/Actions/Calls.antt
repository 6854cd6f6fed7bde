-- ===== src/Storage/Actions/Calls.antt =====
-- packages/storage-sqlite/src/index.ts: the calls about executions of actions.
use linear_pi_orchestrator.Prelude.{String, Option, List, [], ◌∷◌, ◌≡◌}
use linear_pi_orchestrator.Prelude.Table
use linear_pi_orchestrator.Prelude.Table.{Table}
use linear_pi_orchestrator.Prelude.Results.{Result, ok, thrown}
use linear_pi_orchestrator.Domain.{Timestamp}
use linear_pi_orchestrator.Storage.Actions.{
  Actions, ActionExecutionRecord, ActionExecutionClaimInput, ActionExecutionTransition,
  claim_action_execution, finish_action_execution, renew_action_execution_lease, mark_expired,
}

-- The calls that change the executions.
pub data ActionCall : Type 0 where
  claims : ActionExecutionClaimInput → ActionCall
  finishes : String → Timestamp → ActionExecutionTransition → Option String → ActionCall
  renews : String → String → Timestamp → Timestamp → ActionCall
  expires : Timestamp → ActionCall

abbrev pub after_claim : Actions → Result (Actions × Option ActionExecutionRecord) → Actions
after_claim actions (ok (actions', claimed)) = actions'
after_claim actions (thrown message) = actions

unfoldable pub call : Actions → ActionCall → Actions
unfolding claim_action_execution finish_action_execution renew_action_execution_lease mark_expired
call actions (claims claim) = after_claim actions (claim_action_execution actions claim)
call actions (finishes key claimed_at transition attempt_id) =
    (finish_action_execution actions key claimed_at transition attempt_id).0
call actions (renews key attempt_id lease_expires_at at) =
    (renew_action_execution_lease actions key attempt_id lease_expires_at at).0
call actions (expires at) = mark_expired actions at

unfoldable pub calls : Actions → List ActionCall → Actions
unfolding call
calls actions [] = actions
calls actions (c ∷ cs) = calls (call actions c) cs

-- Every execution stands under its key.
abbrev pub IsKeyed : Actions → Type 0
IsKeyed = Table.Entries (λ k action. action.idempotency_key ≡ k)
