-- ===== src/RunStore/Isolation.antt =====
-- src/application/in-memory-workflow-run-store.ts: calls about different runs, and opening again.
use linear_pi_orchestrator.Prelude.{some, subst, ◌≡◌, ◌≢◌, refl, sym, arith, eq_iff, String}
use linear_pi_orchestrator.Prelude.Table
use linear_pi_orchestrator.Domain.{WorkflowRunRecord, WorkflowRunIdentity}
use linear_pi_orchestrator.Domain.Key.{create_workflow_run_key}
use linear_pi_orchestrator.Domain.Key.Injective.{create_workflow_run_key_injective}
use linear_pi_orchestrator.RunStore.{
  Records, OpenInput, open_workflow_run, find_workflow_run, new_run,
}
use linear_pi_orchestrator.RunStore.Cases.{
  open_cases, claim_cases, retry_cases, update_cases, finish_cases,
}
use linear_pi_orchestrator.RunStore.Keyed.{Inv}
use linear_pi_orchestrator.RunStore.Keeps.{own_id}
use linear_pi_orchestrator.RunStore.Ops.{Call, opens, claims, retries, updates, finishes, call}

-- The run that a call is about.
abbrev pub target : Call → WorkflowRunIdentity
target (opens input) = input.identity
target (claims identity id c) = identity
target (retries identity ids at) = identity
target (updates identity id t) = identity
target (finishes identity result at) = identity

get-other :
    (records : Records) (k j : String) (next : WorkflowRunRecord)
    → k ≢ j
    → Table.get (Table.set records k next) j ≡ Table.get records j
get-other records k j next other = ground (arith, Table.get-set records k j next, eq_iff k j)

module _ (records : Records) (v : Inv records) (i j : WorkflowRunIdentity) (other : i ≢ j) where
  keys_differ : create_workflow_run_key i ≢ create_workflow_run_key j
  keys_differ e = other (create_workflow_run_key_injective i j e)

  save-isolates :
      (r next : WorkflowRunRecord)
      → Table.get records (create_workflow_run_key i) ≡ some r
      → Table.get (Table.set records r.id next) (create_workflow_run_key j)
        ≡ Table.get records (create_workflow_run_key j)
  save-isolates r next e =
      subst
        (λ k.
          Table.get (Table.set records k next) (create_workflow_run_key j)
          ≡ Table.get records (create_workflow_run_key j))
        (sym (own_id records (create_workflow_run_key i) v e))
        (get-other records _ _ next keys_differ)

-- On a well-kept ledger no call about one run changes what is found for another identity: the same
-- record, or none, is found for every identity other than the call's.
pub call-isolates :
    (records : Records) (c : Call) (j : WorkflowRunIdentity)
    → Inv records
    → target c ≢ j
    → find_workflow_run (call records c) j ≡ find_workflow_run records j
unfolding call find_workflow_run
call-isolates records (opens input) j v other =
    open_cases records input
      (λ r.
        Table.get r.0 (create_workflow_run_key j) ≡ Table.get records (create_workflow_run_key j))
      (λ existing e. refl)
      (λ e. get-other records _ _ (new_run input) (keys_differ records v input.identity j other))
call-isolates records (claims i id c) j v other =
    claim_cases records i
      (λ r.
        Table.get r.0 (create_workflow_run_key j) ≡ Table.get records (create_workflow_run_key j))
      id c refl λ r e running free. save-isolates records v i j other r _ e
call-isolates records (retries i ids at) j v other =
    retry_cases records i
      (λ r.
        Table.get r.0 (create_workflow_run_key j) ≡ Table.get records (create_workflow_run_key j))
      ids at refl λ r e. save-isolates records v i j other r _ e
call-isolates records (updates i id t) j v other =
    update_cases records i
      (λ r.
        Table.get r.0 (create_workflow_run_key j) ≡ Table.get records (create_workflow_run_key j))
      id t refl λ r e running free. save-isolates records v i j other r _ e
call-isolates records (finishes i result at) j v other =
    finish_cases records i
      (λ r.
        Table.get r.0 (create_workflow_run_key j) ≡ Table.get records (create_workflow_run_key j))
      result at refl λ r e running. save-isolates records v i j other r _ e

open-again :
    (records : Records) (input : OpenInput) (i : WorkflowRunIdentity) (r : WorkflowRunRecord)
    → input.identity ≡ i
    → Table.get records (create_workflow_run_key i) ≡ some r
    → open_workflow_run records input ≡ (records, r)
open-again records input i r same e =
    let here : Table.get records (create_workflow_run_key input.identity) ≡ some r =
      subst (λ k. Table.get records (create_workflow_run_key k) ≡ some r) (sym same) e in
    open_cases records input (λ x. x ≡ (records, r)) (λ existing found. cc) (λ missing. absurd (cc))

-- A run is opened once. After opening, the record that was returned is the one found for its
-- identity, and opening the same identity again, with whatever item, times and definition, returns
-- that record and changes nothing.
pub open_once :
    (records : Records) (input again : OpenInput)
    → again.identity ≡ input.identity
    → let (records', run) = open_workflow_run records input in
      (find_workflow_run records' input.identity ≡ some run)
      × (open_workflow_run records' again ≡ (records', run))
unfolding find_workflow_run
open_once records input again same =
    let key = create_workflow_run_key input.identity in
    open_cases records input
      (λ p. (Table.get p.0 key ≡ some p.1) × (open_workflow_run p.0 again ≡ p))
      (λ existing e. (e, open-again records again input.identity existing same e))
      (λ missing.
        let e = Table.get-set_self records key (new_run input) in
        (e, open-again _ again input.identity (new_run input) same e))
