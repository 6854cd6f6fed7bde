-- ===== src/Operations/Completion.antt =====
-- ReconcileOperations in packages/application/src/reconcile-operations.ts: when a run of it returns.
use linear_pi_orchestrator.Prelude.{
  String, Bool, Option, none, some, List, [], ◌∷◌, ◌≡◌, refl, sym, ap, subst,
}
use linear_pi_orchestrator.Prelude.Results.{Result, ok, thrown, ◌>>=◌}
use linear_pi_orchestrator.Execution.Values.{Members}
use linear_pi_orchestrator.Operations.{
  Log, write, rescue, handle, handle_operation, go_on, run_operations, run_action, on_listed,
  observer_of, outcome_after,
}
use linear_pi_orchestrator.Operations.Ports.{
  PersistedOperation, OperationTransition, ReconcileAction, ReconcileOutcome, ReconcileResult,
  Observer, ReconcileOperationsPorts, object_handle, needs_attention,
}

module _ {Output : Type 0} (ports : ReconcileOperationsPorts Output)
    (answers : (log : Log ports) (job token : String) (t : Option (OperationTransition Output))
      → (written : Option Bool) × (ports.transition log job token t ≡ ok written)) where
  -- It is not an exception.
  abbrev IsOk {ℓ} : {A : Type ℓ} → Result A → Type ℓ
  IsOk {A = A} r = (a : A) × (r ≡ ok a)

  write-IsOk :
      (p : PersistedOperation) (t : Option (OperationTransition Output))
      (outcome : ReconcileOutcome) (log : Log ports)
      → IsOk (write ports p t outcome log).1
  write-IsOk p t outcome log =
      let (written, e) = answers log p.job_id p.attempt.attempt_id t in
      (_, ap (λ r. r >>= λ written. ok (outcome_after ports outcome written)) e)

  rescue-IsOk :
      (action : ReconcileAction) (p : PersistedOperation)
      (out : Log ports × Result ReconcileOutcome)
      → IsOk (rescue ports action p out).1
  rescue-IsOk action p (log, ok o) = (o, refl)
  rescue-IsOk action p (log, thrown m) = write-IsOk p _ needs_attention log

  handle-IsOk :
      (action : ReconcileAction) (p : PersistedOperation) (o : Option Members)
      (observer : Option (Observer Output)) (log : Log ports)
      → IsOk (handle ports action p o observer log).1
  handle-IsOk action p none none log = write-IsOk p _ needs_attention log
  handle-IsOk action p none (some f) log = write-IsOk p _ needs_attention log
  handle-IsOk action p (some ms) none log = write-IsOk p _ needs_attention log
  handle-IsOk action p (some ms) (some f) log = rescue-IsOk action p _

  go_on-IsOk :
      (p : PersistedOperation) (results : List ReconcileResult)
      (rest : List ReconcileResult → Log ports → Log ports × Result (List ReconcileResult))
      (out : Log ports × Result ReconcileOutcome)
      → IsOk out.1
      → ((results' : List ReconcileResult) (log' : Log ports) → IsOk (rest results' log').1)
      → IsOk (go_on ports p results rest out).1
  go_on-IsOk p results rest (log, ok o) h next = next _ log
  go_on-IsOk p results rest (log, thrown m) h next = absurd (cc (h.1))

  run_operations-IsOk :
      (action : ReconcileAction) (ps : List PersistedOperation) (results : List ReconcileResult)
      (log : Log ports)
      → IsOk (run_operations ports action ps results log).1
  unfolding run_operations handle_operation
  run_operations-IsOk action [] results log = (results, refl)
  run_operations-IsOk action (p ∷ ps) results log =
      go_on-IsOk p results (run_operations ports action ps) (handle_operation ports action p log)
        (handle-IsOk action p (object_handle p.operation)
          (observer_of ports action (ports.plugin p.plugin_use p.job_id)) log)
        λ results' log'. run_operations-IsOk action ps results' log'

  -- As long as the fenced write itself does not throw, reconciling or cancelling the listed
  -- operations returns: neither a missing observer, nor a handle that is no object, nor an observer
  -- that throws, nor an invalid outcome stops it.
  pub run_action-returns :
      (action : ReconcileAction) (ps : List PersistedOperation)
      → ports.list_operations ≡ ok ps
      → (results : List ReconcileResult) × ((run_action ports action).1 ≡ ok results)
  unfolding run_action
  run_action-returns action ps e =
      subst (λ r. IsOk (on_listed ports action r).1) (sym e) (run_operations-IsOk action ps [] [])
