-- ===== src/Reconciler/Runs.antt =====
-- decideJob in src/workflows/reconciler.ts: its decisions.
use linear_pi_orchestrator.Prelude.{
  String, true, Option, none, some, [], ◌∷◌, ◌≡◌, ◌≢◌, refl, sym, ap, ◌∙◌, ◌↔◌, ◌⊎◌, inl, inr,
  arith, All, Any, eq_iff,
}
use linear_pi_orchestrator.Prelude.Table
use linear_pi_orchestrator.Domain.{WorkflowJobStatus}
use linear_pi_orchestrator.Domain.Status.{status_of, is_terminal_job_status}
use linear_pi_orchestrator.Expressions.{Evaluator}
use linear_pi_orchestrator.Reconciler.{
  JobDecision, run, hold, settle, omitted, SettleReason, JobDecisionInput, NeedsOutcome, decided,
  blocked, check_needs, condition_holds, by_condition, after_needs, HoldReason, already,
  worker_is_running, decide_job,
}
use linear_pi_orchestrator.Reconciler.NeedsLoop.{
  IsClear, IsClear-check_needs, IsDoomed, IsDoomed-check_needs, check_needs-IsClear,
  check_needs-IsDoomed,
}

pub status-cases :
    (s : WorkflowJobStatus)
    → (s ≡ WorkflowJobStatus.pending)
      ⊎ (s ≡ WorkflowJobStatus.started)
      ⊎ (is_terminal_job_status s ≡ true)
status-cases s = ground arith

module _ (evaluator : Evaluator) (input : JobDecisionInput) where
  -- The job has no condition, or its condition evaluates to true.
  abbrev pub Permitted : Option String → Type 0
  Permitted none = Unit
  Permitted (some condition) =
      (condition ≡ "") ⊎ (condition_holds evaluator input condition ≡ some true)

  abbrev pub needs_outcome : NeedsOutcome
  needs_outcome = check_needs input input.job.needs []

  abbrev pub own_status : WorkflowJobStatus
  own_status = status_of (Table.get input.states input.job.id)

  -- What a job that is not pending is held for.
  abbrev IsHeld : Option JobDecision → Type 0
  IsHeld d = (r : HoldReason) × (d ≡ some (hold r))

  decide_cases :
      ((own_status ≡ WorkflowJobStatus.pending)
        × (decide_job evaluator input ≡ after_needs evaluator input needs_outcome))
      ⊎ IsHeld (decide_job evaluator input)
  unfolding decide_job
  decide_cases = elim (status-cases (status_of (Table.get input.states input.job.id))) [
    | inl e ↦ inl (e, rw e)
    | inr (inl e) ↦ inr (worker_is_running, rw e)
    | inr (inr e) ↦ inr (already (status_of (Table.get input.states input.job.id)), rw e)
  ]

  pub decide_pending :
      own_status ≡ WorkflowJobStatus.pending
      → decide_job evaluator input ≡ after_needs evaluator input needs_outcome
  unfolding decide_job
  decide_pending e = rw e

  run_of_after :
      (o : NeedsOutcome)
      → after_needs evaluator input o ≡ some run
      → (o ≡ decided run)
        ⊎ (o ≡ blocked []) × (by_condition evaluator input input.job.condition ≡ some run)
  run_of_after (decided d) h = inl (cc)
  run_of_after (blocked []) h = inr (refl, h)
  run_of_after (blocked (l ∷ ls)) h = cc

  permitted : (c : Option String) → (by_condition evaluator input c ≡ some run) ↔ Permitted c
  permitted none = (λ _. tt, λ _. refl)
  permitted (some c) = ground (arith, eq_iff c "")

  run-Permitted :
      after_needs evaluator input needs_outcome ≡ some run
      → All (IsClear input) input.job.needs × Permitted input.job.condition
  run-Permitted h = elim (run_of_after needs_outcome h) [
    | inl e ↦
        let (r, e') =
          IsDoomed-check_needs input input.job.needs []
            (check_needs-IsDoomed input input.job.needs [] run e) in
        absurd (cc)
    | inr (e, p) ↦
        ((check_needs-IsClear input input.job.needs [] e).1, (permitted input.job.condition).0 p)
  ]

  by_condition-ne_omitted :
      (c : Option String) (r : SettleReason)
      → by_condition evaluator input c ≢ some (settle omitted r)
  by_condition-ne_omitted none r = λ e. cc
  by_condition-ne_omitted (some c) r = ground arith

  omitted_of_after :
      (o : NeedsOutcome) (r : SettleReason)
      → after_needs evaluator input o ≡ some (settle omitted r)
      → o ≡ decided (settle omitted r)
  omitted_of_after (decided d) r h = cc
  omitted_of_after (blocked []) r h = absurd (by_condition-ne_omitted input.job.condition r h)
  omitted_of_after (blocked (l ∷ ls)) r h = cc

  -- A job runs exactly when it is pending, each of its needs is on a declared job and is met (or can
  -- be met no more while the job has a condition), and its condition, if it has one, is true.
  pub decide_job-run_iff : (decide_job evaluator input ≡ some run) ↔ (
      (status_of (Table.get input.states input.job.id) ≡ WorkflowJobStatus.pending)
      × All (IsClear input) input.job.needs
      × Permitted input.job.condition)
  decide_job-run_iff = (
    λ h. elim decide_cases [
      | inl (e, d) ↦ let (c, p) = run-Permitted (sym d ∙ h) in (e, c, p)
      | inr (r, d) ↦ absurd (cc)
    ],
    λ h.
        decide_pending h.0
        ∙ ap (after_needs evaluator input) (IsClear-check_needs input input.job.needs [] h.1)
        ∙ (permitted input.job.condition).1 h.2,
  )

  -- A pending job is omitted exactly when one of its needs is on an undeclared job, or can be met no
  -- more while the job has no condition; and only a pending job is omitted.
  pub decide_job-omitted_iff :
      ((r : SettleReason) × (decide_job evaluator input ≡ some (settle omitted r))) ↔ (
        (status_of (Table.get input.states input.job.id) ≡ WorkflowJobStatus.pending)
        × Any (IsDoomed input) input.job.needs)
  decide_job-omitted_iff = (
    λ h. elim decide_cases [
      | inl (e, d) ↦ (
        e,
        check_needs-IsDoomed input input.job.needs [] _
            (omitted_of_after needs_outcome h.0 (sym d ∙ h.1)),
      )
      | inr (r, d) ↦ absurd (cc (d, h.1))
    ],
    λ h.
        let (r, e) = IsDoomed-check_needs input input.job.needs [] h.1 in
        (r, decide_pending h.0 ∙ ap (after_needs evaluator input) e),
  )
