-- ===== src/Storage/Actions/Taken.antt =====
-- packages/storage-sqlite/src/index.ts: what a call does to the executions of actions.
use linear_pi_orchestrator.Prelude.{
  String, true, false, not, ◌||◌, Option, some, [], ◌∷◌, ◌==◌, ◌≡◌, ◌⊎◌, ◌∙◌, refl, sym, arith,
  eq_iff, if◌then◌else◌, nat_eq, text_eq?, text_eq?_iff, flag, Bool-cases, Option-cases, inl, inr,
}
use linear_pi_orchestrator.Prelude.Table
use linear_pi_orchestrator.Prelude.Table.{Table}
use linear_pi_orchestrator.Prelude.Results.{Result, ok, thrown, ◌>>=◌}
use linear_pi_orchestrator.Domain.{Timestamp}
use linear_pi_orchestrator.Storage.Actions.{
  Actions, ActionExecutionStatus, ActionExecutionRecord, ActionExecutionClaimInput,
  ActionExecutionTransition, is_running, is_taken, save_action, claimed_action, assert_claim,
  try_claim, claim_action_execution, finished_action, finish_action_execution, renewed_action,
  renew_action_execution_lease, is_expired, flagged_action, mark_expired,
}
use linear_pi_orchestrator.Storage.Actions.Calls.{
  ActionCall, claims, finishes, renews, expires, after_claim, call, IsKeyed,
}

get-mark_expired :
    (actions : Actions) (key : String) (at : Timestamp) {value : ActionExecutionRecord}
    → Table.get actions key ≡ some value
    → Table.get (mark_expired actions at) key
      ≡ some (if is_expired at value then flagged_action at value else value)
unfolding Table.get mark_expired
get-mark_expired [] key at e = cc
get-mark_expired ((k, v) ∷ actions) key at e = elim (Bool-cases (k == key)) [
  | inl own ↦ rw own (ground (arith, rw own at e))
  | inr other ↦ rw other (get-mark_expired actions key at (rw other at e))
]

mark_expired-IsKeyed :
    (actions : Actions) (at : Timestamp) → IsKeyed actions → IsKeyed (mark_expired actions at)
unfolding mark_expired
mark_expired-IsKeyed [] at k = tt
mark_expired-IsKeyed ((key, value) ∷ actions) at k =
    (ground (arith, k.0), mark_expired-IsKeyed actions at k.1)

save-IsKeyed :
    (actions : Actions) (action : ActionExecutionRecord)
    → IsKeyed actions
    → IsKeyed (save_action actions action)
save-IsKeyed actions action k =
    Table.Entries-set (λ j a. a.idempotency_key ≡ j) actions action.idempotency_key action k refl

keyed_at :
    (actions : Actions) (key : String) {action : ActionExecutionRecord}
    → IsKeyed actions
    → Table.get actions key ≡ some action
    → action.idempotency_key ≡ key
keyed_at actions key k found = Table.Entries-get (λ j a. a.idempotency_key ≡ j) actions key k found

-- What a call does to the executions.
pub data Taken (actions : Actions) : ActionCall → Actions → Type 0 where
  refused : (c : ActionCall) → Taken actions c actions
  claimed :
      (c : ActionExecutionClaimInput)
      → is_taken (Table.get actions c.idempotency_key) ≡ false
      → Taken actions (claims c) (save_action actions (claimed_action c))
  finished :
      (old : ActionExecutionRecord) (key : String) (claimed_at : Timestamp)
      (t : ActionExecutionTransition) (attempt_id : Option String)
      → Table.get actions key ≡ some old
      → is_running old.status ≡ true
      → (old.claimed_at ≡ claimed_at) × (some old.attempt_id ≡ attempt_id)
      → Taken actions
          (finishes key claimed_at t attempt_id)
          (save_action actions (finished_action old t))
  renewed :
      (old : ActionExecutionRecord) (key attempt_id : String) (lease at : Timestamp)
      → Table.get actions key ≡ some old
      → is_running old.status ≡ true
      → Taken actions
          (renews key attempt_id lease at)
          (save_action actions (renewed_action old lease at))
  flagged : (at : Timestamp) → Taken actions (expires at) (mark_expired actions at)

claim-Taken :
    (actions : Actions) (c : ActionExecutionClaimInput) (checked : Result (Unit {0}))
    → Taken actions (claims c) (after_claim actions (checked >>= λ _. ok (try_claim actions c)))
claim-Taken actions c (thrown message) = refused (claims c)
claim-Taken actions c (ok u) = elim (Bool-cases (is_taken (Table.get actions c.idempotency_key))) [
  | inl taken ↦ rw taken (refused (claims c))
  | inr free ↦ rw free (claimed c free)
]

finish-Taken :
    (actions : Actions) (key : String) (claimed_at : Timestamp) (t : ActionExecutionTransition)
    (attempt_id : Option String)
    → Taken actions
        (finishes key claimed_at t attempt_id)
        (finish_action_execution actions key claimed_at t attempt_id).0
unfolding finish_action_execution
finish-Taken actions key claimed_at t attempt_id = elim (Option-cases (Table.get actions key)) [
  | inl absent ↦
      rw (absent, finish_action_execution) (refused (finishes key claimed_at t attempt_id))
  | inr (old, found) ↦
      elim (Bool-cases (
        not (is_running old.status)
        || not (nat_eq old.claimed_at claimed_at)
        || not (text_eq? (some old.attempt_id) attempt_id))) [
          | inl stale ↦
              rw (found, finish_action_execution, stale)
                (refused (finishes key claimed_at t attempt_id))
          | inr current ↦
              rw (found, finish_action_execution, current)
                (finished old key claimed_at t attempt_id found (ground (arith, current)) (
                  ground (arith, current),
                  (text_eq?_iff (some old.attempt_id) attempt_id).0 (ground (arith, current)),
                ))
        ]
]

renew-Taken :
    (actions : Actions) (key attempt_id : String) (lease at : Timestamp)
    → Taken actions
        (renews key attempt_id lease at)
        (renew_action_execution_lease actions key attempt_id lease at).0
unfolding renew_action_execution_lease
renew-Taken actions key attempt_id lease at = elim (Option-cases (Table.get actions key)) [
  | inl absent ↦
      rw (absent, renew_action_execution_lease) (refused (renews key attempt_id lease at))
  | inr (old, found) ↦
      elim (Bool-cases (
        not (is_running old.status)
        || not (old.attempt_id == attempt_id)
        || flag old.needs_attention)) [
          | inl stale ↦
              rw (found, renew_action_execution_lease, stale)
                (refused (renews key attempt_id lease at))
          | inr current ↦
              rw (found, renew_action_execution_lease, current)
                (renewed old key attempt_id lease at found (ground (arith, current)))
        ]
]

pub call-Taken : (actions : Actions) (c : ActionCall) → Taken actions c (call actions c)
unfolding call claim_action_execution
call-Taken actions (claims c) = claim-Taken actions c (assert_claim c)
call-Taken actions (finishes key claimed_at t attempt_id) =
    finish-Taken actions key claimed_at t attempt_id
call-Taken actions (renews key attempt_id lease at) = renew-Taken actions key attempt_id lease at
call-Taken actions (expires at) = flagged at

pub Taken-IsKeyed :
    {actions after : Actions} {c : ActionCall}
    → Taken actions c after
    → IsKeyed actions
    → IsKeyed after
Taken-IsKeyed (refused c) k = k
Taken-IsKeyed {actions} (claimed c free) k = save-IsKeyed actions (claimed_action c) k
Taken-IsKeyed {actions} (finished old key claimed_at t attempt_id found r same) k =
    save-IsKeyed actions (finished_action old t) k
Taken-IsKeyed {actions} (renewed old key attempt_id lease at found r) k =
    save-IsKeyed actions (renewed_action old lease at) k
Taken-IsKeyed {actions} (flagged at) k = mark_expired-IsKeyed actions at k

-- A write of an execution that stands under another key, or of this one.
save-get :
    (actions : Actions) (key : String) (action : ActionExecutionRecord)
    → (action.idempotency_key ≡ key)
      ⊎ (Table.get (save_action actions action) key ≡ Table.get actions key)
save-get actions key action = elim (Bool-cases (action.idempotency_key == key)) [
  | inl own ↦ inl ((eq_iff action.idempotency_key key).0 own)
  | inr other ↦ inr (Table.get-set_ne actions action.idempotency_key key action other)
]

pub Taken-succeeded :
    {actions after : Actions} {c : ActionCall} (key : String) (a : ActionExecutionRecord)
    → Taken actions c after
    → IsKeyed actions
    → Table.get actions key ≡ some a
    → a.status ≡ ActionExecutionStatus.succeeded
    → Table.get after key ≡ some a
Taken-succeeded key a (refused c) k found done = found
Taken-succeeded {actions} key a (claimed c free) k found done =
    elim (save-get actions key (claimed_action c)) [
      | inl own ↦ let taken = rw (own, found) at free in absurd (ground (arith, taken, done))
      | inr other ↦ other ∙ found
    ]
Taken-succeeded {actions} key a (finished old k' claimed_at t attempt_id at_k r same) k found done =
    elim (save-get actions key (finished_action old t)) [
      | inl own ↦
          let here = sym (keyed_at actions k' k at_k) ∙ own in
          absurd (ground (arith, rw here at at_k, found, r, done))
      | inr other ↦ other ∙ found
    ]
Taken-succeeded {actions} key a (renewed old k' attempt_id lease at at_k r) k found done =
    elim (save-get actions key (renewed_action old lease at)) [
      | inl own ↦
          let here = sym (keyed_at actions k' k at_k) ∙ own in
          absurd (ground (arith, rw here at at_k, found, r, done))
      | inr other ↦ other ∙ found
    ]
Taken-succeeded {actions} key a (flagged at) k found done =
    get-mark_expired actions key at found ∙ ground (arith, done)
