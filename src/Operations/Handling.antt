-- ===== src/Operations/Handling.antt =====
-- ReconcileOperations in packages/application/src/reconcile-operations.ts: the calls that it makes.
use linear_pi_orchestrator.Prelude.{
  String, Option, none, some, List, [], ◌∷◌, ◌++◌, map, ◌≡◌, refl, sym, ap, ◌∙◌, append-nil,
  append_assoc, subst, ◌⊎◌, inl, inr,
}
use linear_pi_orchestrator.Prelude.Results.{Result, ok, thrown}
use linear_pi_orchestrator.Execution.Values.{Members}
use linear_pi_orchestrator.Operations.{
  Log, rescue, apply, handle, handle_operation, go_on, run_operations, run_action, on_listed,
  result_for, attention, rescue_message, observer_of, cannot,
}
use linear_pi_orchestrator.Operations.Ports.{
  PersistedOperation, OperationTransition, ReconcileAction, ReconcileOutcome, ReconcileResult,
  Event, observes, writes, Observer, ReconcileOperationsPorts, object_handle,
}

module _ {Output : Type 0} (ports : ReconcileOperationsPorts Output)
    (action : ReconcileAction) where
  -- What the plugin of an operation observes it with.
  abbrev pub observer : PersistedOperation → Option (Observer Output)
  observer p = observer_of ports action (ports.plugin p.plugin_use p.job_id)

  -- The calls made for one operation. Without a handle or an observer it is written to need attention;
  -- else its handle is observed, which a write follows, and, if that fails, a write that it needs
  -- attention. Every write is under its token.
  pub data Calls (p : PersistedOperation) : List (Event Output) → Type 0 where
    unobserved :
        (object_handle p.operation ≡ none) ⊎ (observer p ≡ none)
        → Calls p (
            writes p.job_id p.attempt.attempt_id
              (some (attention ports (cannot ports action p.plugin_use)))
            ∷ [])
    unsettled :
        {ms : Members} {f : Observer Output} {t : Option (OperationTransition Output)}
        → object_handle p.operation ≡ some ms
        → observer p ≡ some f
        → Calls p (observes p ms ∷ writes p.job_id p.attempt.attempt_id t ∷ [])
    rewritten :
        {ms : Members} {f : Observer Output} {t : Option (OperationTransition Output)} {m : String}
        → object_handle p.operation ≡ some ms
        → observer p ≡ some f
        → Calls p (
            observes p ms
            ∷ writes p.job_id p.attempt.attempt_id t
            ∷ writes p.job_id p.attempt.attempt_id (some (attention ports m))
            ∷ [])

  -- The calls made for a list of operations, in order, with none left out.
  pub data AllCalls : List PersistedOperation → List (Event Output) → Type 0 where
    no_calls : AllCalls [] []
    calls_then :
        {p : PersistedOperation} {ps : List PersistedOperation} {es fs : List (Event Output)}
        → Calls p es
        → AllCalls ps fs
        → AllCalls (p ∷ ps) (es ++ fs)

  -- The calls made up to an operation whose handling throws, with none left out.
  pub data CallsUntil : List PersistedOperation → List (Event Output) → Type 0 where
    last_calls :
        {p : PersistedOperation} {ps : List PersistedOperation} {es : List (Event Output)}
        → Calls p es
        → CallsUntil (p ∷ ps) es
    calls_before :
        {p : PersistedOperation} {ps : List PersistedOperation} {es fs : List (Event Output)}
        → Calls p es
        → CallsUntil ps fs
        → CallsUntil (p ∷ ps) (es ++ fs)

  -- Calls for `p` have been added to a log.
  abbrev Added : PersistedOperation → Log ports → Log ports → Type 0
  Added p log log' = (es : List (Event Output)) × Calls p es × (log' ≡ log ++ es)

  rescue-Added :
      (p : PersistedOperation) (ms : Members) (f : Observer Output) (log : Log ports)
      (t : Option (OperationTransition Output)) (r : Result ReconcileOutcome)
      → object_handle p.operation ≡ some ms
      → observer p ≡ some f
      → Added p log
          (rescue ports action p
            ((log ++ observes p ms ∷ []) ++ writes p.job_id p.attempt.attempt_id t ∷ [], r)).0
  rescue-Added p ms f log t (ok o) h g = (_, unsettled h g, append_assoc log _ _)
  rescue-Added p ms f log t (thrown m) h g =
      let last =
        writes p.job_id p.attempt.attempt_id (some (attention ports (rescue_message action m))) in
      (
        _,
        rewritten {m = rescue_message action m} h g,
        ap (λ l. l ++ last ∷ []) (append_assoc log _ _) ∙ append_assoc log _ (last ∷ []),
      )

  apply-Added :
      (p : PersistedOperation) (ms : Members) (f : Observer Output) (log : Log ports)
      (r : Result (Option (OperationTransition Output)))
      → object_handle p.operation ≡ some ms
      → observer p ≡ some f
      → Added p log (rescue ports action p (apply ports p r (log ++ observes p ms ∷ []))).0
  apply-Added p ms f log (thrown m) h g = (_, unsettled h g, append_assoc log _ _)
  apply-Added p ms f log (ok t) h g = rescue-Added p ms f log t _ h g

  handle-Added :
      (p : PersistedOperation) (o : Option Members) (g : Option (Observer Output)) (log : Log ports)
      → object_handle p.operation ≡ o
      → observer p ≡ g
      → Added p log (handle ports action p o g log).0
  handle-Added p none none log h g = (_, unobserved (inl h), refl)
  handle-Added p none (some f) log h g = (_, unobserved (inl h), refl)
  handle-Added p (some ms) none log h g = (_, unobserved (inr g), refl)
  handle-Added p (some ms) (some f) log h g = apply-Added p ms f log _ h g

  handle_operation-Added :
      (p : PersistedOperation) (log : Log ports)
      → Added p log (handle_operation ports action p log).0
  unfolding handle_operation
  handle_operation-Added p log = handle-Added p _ _ log refl refl

  -- What a run of the loop from `log` and `results` on ends with.
  abbrev RunsOver :
      List PersistedOperation
      → List ReconcileResult
      → Log ports
      → Log ports × Result (List ReconcileResult)
      → Type 0
  RunsOver ps results log (log', thrown m) =
      (es : List (Event Output)) × CallsUntil ps es × (log' ≡ log ++ es)
  RunsOver ps results log (log', ok rs) =
      (es : List (Event Output)) × AllCalls ps es
      × (log' ≡ log ++ es)
      × (map (λ r. r.job_id) rs ≡ map (λ r. r.job_id) results ++ map (λ p. p.job_id) ps)

  ids_snoc :
      (results : List ReconcileResult) (r : ReconcileResult) (ids : List String)
      → map (λ r. r.job_id) (results ++ r ∷ []) ++ ids
        ≡ map (λ r. r.job_id) results ++ r.job_id ∷ ids
  ids_snoc [] r ids = refl
  ids_snoc (x ∷ results) r ids = ap (λ l. x.job_id ∷ l) (ids_snoc results r ids)

  extend :
      (p : PersistedOperation) (ps : List PersistedOperation) (results : List ReconcileResult)
      (outcome : ReconcileOutcome) (log l : Log ports)
      (out : Log ports × Result (List ReconcileResult))
      → Added p log l
      → RunsOver ps (results ++ result_for ports p outcome ∷ []) l out
      → RunsOver (p ∷ ps) results log out
  extend p ps results outcome log l (log', thrown m) (es, c, e) (fs, cs, f) =
      (es ++ fs, calls_before c cs, f ∙ ap (λ x. x ++ fs) e ∙ append_assoc log es fs)
  extend p ps results outcome log l (log', ok rs) (es, c, e) (fs, cs, f, ids) = (
    es ++ fs,
    calls_then c cs,
    f ∙ ap (λ x. x ++ fs) e ∙ append_assoc log es fs,
    ids ∙ ids_snoc results (result_for ports p outcome) (map (λ p. p.job_id) ps),
  )

  go_on-RunsOver :
      (p : PersistedOperation) (ps : List PersistedOperation) (results : List ReconcileResult)
      (log : Log ports)
      (rest : List ReconcileResult → Log ports → Log ports × Result (List ReconcileResult))
      (r : Log ports × Result ReconcileOutcome)
      → Added p log r.0
      → ((results' : List ReconcileResult) (log' : Log ports)
          → RunsOver ps results' log' (rest results' log'))
      → RunsOver (p ∷ ps) results log (go_on ports p results rest r)
  go_on-RunsOver p ps results log rest (l, thrown m) (es, c, e) next = (es, last_calls c, e)
  go_on-RunsOver p ps results log rest (l, ok outcome) added next =
      extend p ps results outcome log l (rest (results ++ result_for ports p outcome ∷ []) l) added
        (next (results ++ result_for ports p outcome ∷ []) l)

  run_operations-RunsOver :
      (ps : List PersistedOperation) (results : List ReconcileResult) (log : Log ports)
      → RunsOver ps results log (run_operations ports action ps results log)
  unfolding run_operations
  run_operations-RunsOver [] results log = ([], no_calls, sym (append-nil log), sym (append-nil _))
  run_operations-RunsOver (p ∷ ps) results log =
      go_on-RunsOver p ps results log _ (handle_operation ports action p log)
        (handle_operation-Added p log) λ results' log'. run_operations-RunsOver ps results' log'

  -- For the operations `ps`, the calls are those of each in order, with one result for each; or, if
  -- one throws, those of each up to and with that one.
  abbrev pub IsComplete :
      List PersistedOperation → Log ports × Result (List ReconcileResult) → Type 0
  IsComplete ps (log, thrown m) = CallsUntil ps log
  IsComplete ps (log, ok rs) = AllCalls ps log × (map (λ r. r.job_id) rs ≡ map (λ p. p.job_id) ps)

  complete :
      (ps : List PersistedOperation) (out : Log ports × Result (List ReconcileResult))
      → RunsOver ps [] [] out
      → IsComplete ps out
  complete ps (log, thrown m) (es, c, e) = subst (CallsUntil ps) (sym e) c
  complete ps (log, ok rs) (es, c, e, ids) = (subst (AllCalls ps) (sym e) c, ids)

  -- Reconciling or cancelling the operations that are listed makes, for each of them in order: without a
  -- handle or an observer, one write that it needs attention, as the action cannot reconcile or cancel
  -- it; else one observation of its own handle, then one write, which one more that it needs attention
  -- may follow. Every write is under the operation's own job and attempt. If nothing throws, no operation
  -- is left out and there is one result for each, in order; if one throws, the calls are those of the
  -- operations up to that one, its own included.
  pub run_action-IsComplete :
      (ps : List PersistedOperation)
      → ports.list_operations ≡ ok ps
      → IsComplete ps (run_action ports action)
  unfolding run_action
  run_action-IsComplete ps e =
      subst (λ r. IsComplete ps (on_listed ports action r)) (sym e)
        (complete ps _ (run_operations-RunsOver ps [] []))
