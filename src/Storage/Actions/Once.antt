-- ===== src/Storage/Actions/Once.antt =====
-- packages/storage-sqlite/src/index.ts: an execution of an action takes effect once.
use linear_pi_orchestrator.Prelude.{String, true, some, List, [], ◌∷◌, ◌≡◌, ◌≢◌, arith}
use linear_pi_orchestrator.Prelude.Table
use linear_pi_orchestrator.Prelude.Table.{Table}
use linear_pi_orchestrator.Prelude.Results.{Result, ok, thrown, ◌>>=◌}
use linear_pi_orchestrator.Storage.Actions.{
  Actions, ActionExecutionStatus, ActionExecutionRecord, ActionExecutionClaimInput, is_taken,
  assert_claim, try_claim, claim_action_execution,
}
use linear_pi_orchestrator.Storage.Actions.Calls.{ActionCall, call, calls, IsKeyed}
use linear_pi_orchestrator.Storage.Actions.Taken.{call-Taken, Taken-IsKeyed, Taken-succeeded}

claim_taken :
    (actions : Actions) (c : ActionExecutionClaimInput) (checked : Result (Unit {0}))
    → is_taken (Table.get actions c.idempotency_key) ≡ true
    → (m : Actions) (r : ActionExecutionRecord)
    → (checked >>= λ _. ok (try_claim actions c)) ≢ ok (m, some r)
claim_taken actions c (thrown message) taken m r e = cc
claim_taken actions c (ok u) taken m r e = let nothing = rw taken at e in cc

succeeded-stays :
    (actions : Actions) (key : String) (a : ActionExecutionRecord)
    → IsKeyed actions
    → Table.get actions key ≡ some a
    → a.status ≡ ActionExecutionStatus.succeeded
    → (cs : List ActionCall) → Table.get (calls actions cs) key ≡ some a
unfolding calls
succeeded-stays actions key a k found done [] = found
succeeded-stays actions key a k found done (c ∷ cs) =
    let effect = call-Taken actions c in
    succeeded-stays (call actions c) key a (Taken-IsKeyed effect k)
      (Taken-succeeded key a effect k found done) done cs

-- Once an execution has succeeded, no sequence of claims, results, renewals and expiries changes it,
-- and every claim of its key is refused afterwards.
pub succeeded_once :
    (actions : Actions) (key : String) (a : ActionExecutionRecord) (cs : List ActionCall)
    (c : ActionExecutionClaimInput)
    → IsKeyed actions
    → Table.get actions key ≡ some a
    → a.status ≡ ActionExecutionStatus.succeeded
    → c.idempotency_key ≡ key
    → (Table.get (calls actions cs) key ≡ some a)
      × ((m : Actions) (r : ActionExecutionRecord)
          → claim_action_execution (calls actions cs) c ≢ ok (m, some r))
unfolding claim_action_execution
succeeded_once actions key a cs c k found done own =
    let stays = succeeded-stays actions key a k found done cs in
    (
      stays,
      claim_taken (calls actions cs) c (assert_claim c) (ground (arith, rw (← own) at stays, done)),
    )
