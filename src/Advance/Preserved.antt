-- ===== src/Advance/Preserved.antt =====
-- AdvanceWorkflow in packages/application/src/workflow-engine.ts: a property of the ledger, from the
-- calls that a pass makes to the pass.
use linear_pi_orchestrator.Prelude.{
  String, Bool, true, false, not, ◌||◌, Option, none, some, List, [], ◌∷◌, ◌≡◌, inl, inr,
  Bool-cases, get_or_else, flag,
}
use linear_pi_orchestrator.Prelude.Table
use linear_pi_orchestrator.Prelude.Results.{ok, thrown}
use linear_pi_orchestrator.Domain.{
  Timestamp, WorkflowJobStatus, WorkflowJobState, WorkflowJobDefinition, WorkflowDefinition,
  WorkflowRunRecord, WorkflowRunIdentity, WorkflowJobTransition, RunResult,
}
use linear_pi_orchestrator.Domain.Status.{is_terminal_job_status}
use linear_pi_orchestrator.Reconciler.{JobDecision, run, hold, settle}
use linear_pi_orchestrator.Reconciler.Outcome.{run_outcome, timed_out, job_timed_out}
use linear_pi_orchestrator.RunStore.{Records, is_running}
use linear_pi_orchestrator.RunStore.Ops.{Call, retries, updates, finishes, call, calls, Each}
use linear_pi_orchestrator.Cancellation.{
  CancelPorts, cancel_job, expire_job, expire_jobs, expire, conclude,
}
use linear_pi_orchestrator.Advance.{
  AdvancePorts, Pass, is_legacy_pipeline, reopen, apply_decision, decide_round, advance_jobs,
  finish_pass, Ended, with_effect, refreshed, on_time, advance, and_then, is_waiting,
  retries_failed,
}

module _ (P : Records → Type 0) (Allowed : Call → Type 0)
    (step : (records : Records) (c : Call) → Allowed c → P records → P (call records c))
    (may_update : (i : WorkflowRunIdentity) (id : String) (t : WorkflowJobTransition)
      → Allowed (updates i id t))
    (may_finish : (i : WorkflowRunIdentity) (result : RunResult) (at : Timestamp)
      → Allowed (finishes i result at)) where
  calls-kept :
      (records : Records) (cs : List Call) → Each Allowed cs → P records → P (calls records cs)
  unfolding calls
  calls-kept records [] a p = p
  calls-kept records (c ∷ cs) a p = calls-kept (call records c) cs a.1 (step records c a.0 p)

  cancel_job-kept :
      (ports : CancelPorts) (r : WorkflowRunRecord) (job : WorkflowJobDefinition)
      (s : WorkflowJobState) (reason : String) (terminal : WorkflowJobStatus) (records : Records)
      → P records
      → P (cancel_job ports r job s reason terminal records).0
  unfolding cancel_job call
  cancel_job-kept ports r job s reason terminal records p =
      elim (Bool-cases (is_terminal_job_status s.status)) [
        | inl b ↦ rw b p
        | inr b ↦ rw b (step records (updates r.identity job.id _) (may_update _ _ _) p)
      ]

  expire_job-kept :
      (ports : CancelPorts) (r : WorkflowRunRecord) (job : WorkflowJobDefinition)
      (o : Option WorkflowJobState) (records : Records) (uncertain : Bool)
      → P records
      → P (expire_job ports r job o records uncertain).0
  expire_job-kept ports r job none records u p = p
  expire_job-kept ports r job (some s) records true p = p
  expire_job-kept ports r job (some s) records false p = cancel_job-kept ports r job s _ _ records p

  expire_jobs-kept :
      (ports : CancelPorts) (r : WorkflowRunRecord) (jobs : List WorkflowJobDefinition)
      (records : Records) (uncertain : Bool)
      → P records
      → P (expire_jobs ports r jobs records uncertain).0
  unfolding expire_jobs
  expire_jobs-kept ports r [] records u p = p
  expire_jobs-kept ports r (job ∷ jobs) records u p =
      expire_jobs-kept ports r jobs _ _ (expire_job-kept ports r job _ records u p)

  conclude-kept :
      (ports : CancelPorts) (r : WorkflowRunRecord) (q : Records × Bool)
      → P q.0
      → P (conclude ports r q).0
  unfolding call
  conclude-kept ports r (records, true) p = p
  conclude-kept ports r (records, false) p =
      step records (finishes r.identity RunResult.failed ports.now) (may_finish _ _ _) p

  -- What is kept, whether the pass has thrown or not.
  abbrev pub OnPass : Ended → Type 0
  OnPass (records, result) = P records

  module _ (ports : AdvancePorts)
      (may_reconcile : (w : WorkflowDefinition) (r : WorkflowRunRecord)
        → Each Allowed (ports.reconcile_operations w r).made)
      (may_refresh : (w : WorkflowDefinition) (r : WorkflowRunRecord)
        → Each Allowed (ports.refresh_jobs w r).made)
      (may_execute : (w : WorkflowDefinition) (job : WorkflowJobDefinition) (r : WorkflowRunRecord)
        → Each Allowed (ports.execute_job w job r).made) where
    apply_decision-kept :
        (w : WorkflowDefinition) (job : WorkflowJobDefinition) (r : WorkflowRunRecord)
        (records : Records) (d : Option JobDecision)
        → P records
        → OnPass (apply_decision ports w job (records, r) d)
    unfolding call
    apply_decision-kept w job r records none p = p
    apply_decision-kept w job r records (some (hold reason)) p = p
    apply_decision-kept w job r records (some (settle status reason)) p =
        step records (updates r.identity job.id _) (may_update _ _ _) p
    apply_decision-kept w job r records (some run) p = calls-kept records _ (may_execute w job r) p

    decide_round-kept :
        (w : WorkflowDefinition) (job : WorkflowJobDefinition) (r : WorkflowRunRecord)
        (records : Records)
        → P records
        → OnPass (decide_round ports w job (records, r))
    decide_round-kept w job r records p =
        elim (Bool-cases (job_timed_out job (Table.get r.jobs job.id) ports.cancelling.now)) [
          | inl b ↦ rw b (cancel_job-kept ports.cancelling r job _ _ _ records p)
          | inr b ↦ elim (Bool-cases (is_waiting ports (Table.get r.jobs job.id))) [
            | inl w ↦ rw (b, w) p
            | inr w' ↦ rw (b, w') (apply_decision-kept w job r records _ p)
          ]
        ]

    and_then-kept :
        (q : Ended) (rest : Pass → Ended)
        → OnPass q
        → ((records : Records) (r : WorkflowRunRecord) → P records → OnPass (rest (records, r)))
        → OnPass (and_then q rest)
    and_then-kept (records, thrown m) rest p next = p
    and_then-kept (records, ok r) rest p next = next records r p

    module _ (w : WorkflowDefinition)
        (may_retry : is_legacy_pipeline w ≡ true
          → (i : WorkflowRunIdentity) (ids : Option (List String)) (at : Timestamp)
          → Allowed (retries i ids at)) where
      reopen-kept :
          (job : WorkflowJobDefinition) (r : WorkflowRunRecord) (records : Records)
          → P records
          → P (reopen ports w job (records, r)).0
      unfolding call
      reopen-kept job r records p = elim (Bool-cases (is_legacy_pipeline w)) [
        | inr b ↦ rw b p
        | inl b ↦ elim (Bool-cases (retries_failed ports w (Table.get r.jobs job.id))) [
          | inr c ↦ rw c p
          | inl c ↦ rw c (step records (retries r.identity _ _) (may_retry b _ _ _) p)
        ]
      ]

      advance_jobs-kept :
          (jobs : List WorkflowJobDefinition) (records : Records) (r : WorkflowRunRecord)
          → P records
          → OnPass (advance_jobs ports w jobs (records, r))
      unfolding advance_jobs
      advance_jobs-kept [] records r p = p
      advance_jobs-kept (job ∷ jobs) records r p = elim (Bool-cases (ports.is_aborted job.id)) [
        | inl b ↦ rw b p
        | inr b ↦ rw b (
            and_then-kept (decide_round ports w job (reopen ports w job (records, r)))
              (advance_jobs ports w jobs)
              (decide_round-kept w job _ _ (reopen-kept job r records p))
              λ records' r' p'. advance_jobs-kept jobs records' r' p')
      ]

      finish_pass-kept :
          (records : Records) (r : WorkflowRunRecord)
          → P records
          → P (finish_pass ports w (records, r)).0
      unfolding call
      finish_pass-kept records r p = elim (Bool-cases (run_outcome w.jobs r.jobs).done) [
        | inl b ↦ rw b (step records (finishes r.identity _ _) (may_finish _ _ _) p)
        | inr b ↦ rw b p
      ]

      on_time-kept :
          (records : Records) (r : WorkflowRunRecord)
          → P records
          → OnPass (on_time ports w (records, r))
      unfolding expire
      on_time-kept records r p = elim (Bool-cases (timed_out r ports.cancelling.now)) [
        | inl b ↦ rw b (
            conclude-kept ports.cancelling r _
              (expire_jobs-kept ports.cancelling r w.jobs records false p))
        | inr b ↦ rw b (
            and_then-kept (advance_jobs ports w w.jobs (records, r)) _
              (advance_jobs-kept w.jobs records r p)
              λ records' r' p'. finish_pass-kept records' r' p')
      ]

    -- A pass over the run `r`, with the definition that was recorded for it, if one was.
    pub advance-kept :
        (input : WorkflowDefinition) (records : Records) (r : WorkflowRunRecord)
        → (is_legacy_pipeline (get_or_else r.definition input) ≡ true
            → (i : WorkflowRunIdentity) (ids : Option (List String)) (at : Timestamp)
            → Allowed (retries i ids at))
        → P records
        → OnPass (advance ports input (records, r))
    unfolding advance
    advance-kept input records r may_retry p =
        let w = get_or_else r.definition input in
        elim (Bool-cases
          (not ports.has_source || not (is_running r.status) || flag r.needs_attention)) [
            | inl b ↦ rw b p
            | inr b ↦ rw b (
                and_then-kept (with_effect (ports.reconcile_operations w r) (records, r))
                  (refreshed ports w) (calls-kept records _ (may_reconcile w r) p)
                  λ records' r' p'.
                    and_then-kept (with_effect (ports.refresh_jobs w r') (records', r'))
                      (on_time ports w) (calls-kept records' _ (may_refresh w r') p')
                      λ records'' r'' p''. on_time-kept w may_retry records'' r'' p'')
          ]
