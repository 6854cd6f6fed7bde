-- ===== src/Reconciler/NeedsLoop.antt =====
-- decideJob in src/workflows/reconciler.ts: its loop over the needs.
use linear_pi_orchestrator.Prelude.{
  Bool, true, false, List, [], ◌∷◌, ◌++◌, ◌≡◌, ◌≢◌, refl, sym, ◌∙◌, ◌⊎◌, inl, inr, arith, All, Any,
  here, there, includes, truthy, Bool-cases,
}
use linear_pi_orchestrator.Domain.{WorkflowNeed}
use linear_pi_orchestrator.Domain.Status.{Satisfaction, met, waiting, impossible}
use linear_pi_orchestrator.Reconciler.Groups.{group_satisfaction}
use linear_pi_orchestrator.Reconciler.{
  NeedLabel, JobDecision, settle, omitted, SettleReason, needs_unknown_job, no_longer_satisfiable,
  JobDecisionInput, decided, blocked, label_of, check_needs,
}

module _ (input : JobDecisionInput) where
  -- The job declares a condition.
  abbrev pub has_if : Bool
  has_if = truthy input.job.condition

  abbrev pub satisfaction : WorkflowNeed → Satisfaction
  satisfaction need = group_satisfaction need input.states input.instances

  -- The need is on a declared job and met, or can be met no more and the job has a condition.
  abbrev pub IsClear : WorkflowNeed → Type 0
  IsClear need =
      (includes input.known need.job ≡ true)
      × ((satisfaction need ≡ met) ⊎ (satisfaction need ≡ impossible) × (has_if ≡ true))

  -- The need is on no declared job, or can be met no more and the job has no condition.
  abbrev pub IsDoomed : WorkflowNeed → Type 0
  IsDoomed need =
      (includes input.known need.job ≡ false) ⊎ (satisfaction need ≡ impossible) × (has_if ≡ false)

  append-ne-nil : (held : List NeedLabel) (l : NeedLabel) → held ++ l ∷ [] ≢ []
  append-ne-nil [] l e = cc
  append-ne-nil (h ∷ held) l e = cc

  pub check_needs-IsClear :
      (needs : List WorkflowNeed) (held : List NeedLabel)
      → check_needs input needs held ≡ blocked []
      → (held ≡ []) × All IsClear needs
  unfolding check_needs
  check_needs-IsClear [] held h = (cc, tt)
  check_needs-IsClear (need ∷ needs) held h = ground (
    arith,
    check_needs-IsClear needs held,
    check_needs-IsClear needs (held ++ label_of need ∷ []),
    append-ne-nil held (label_of need),
  )

  pub IsClear-check_needs :
      (needs : List WorkflowNeed) (held : List NeedLabel)
      → All IsClear needs
      → check_needs input needs held ≡ blocked held
  unfolding check_needs
  IsClear-check_needs [] held h = refl
  IsClear-check_needs (need ∷ needs) held h = ground (arith, IsClear-check_needs needs held h.1)

  -- The need is on a declared job and is still open.
  abbrev pub IsWaiting : WorkflowNeed → Type 0
  IsWaiting need = (includes input.known need.job ≡ true) × (satisfaction need ≡ waiting)

  pub need_cases : (need : WorkflowNeed) → IsDoomed need ⊎ IsClear need ⊎ IsWaiting need
  need_cases need = ground arith

  step-IsDoomed :
      (need : WorkflowNeed) (needs : List WorkflowNeed) (held : List NeedLabel)
      → IsDoomed need
      → (r : SettleReason) × (check_needs input (need ∷ needs) held ≡ decided (settle omitted r))
  unfolding check_needs
  step-IsDoomed need needs held (inl unknown) = (needs_unknown_job need.job, ground arith)
  step-IsDoomed need needs held (inr never) = elim (Bool-cases (includes input.known need.job)) [
    | inl known ↦ (no_longer_satisfiable (label_of need), ground arith)
    | inr unknown ↦ (needs_unknown_job need.job, ground arith)
  ]

  step-IsClear :
      (need : WorkflowNeed) (needs : List WorkflowNeed) (held : List NeedLabel)
      → IsClear need
      → check_needs input (need ∷ needs) held ≡ check_needs input needs held
  unfolding check_needs
  step-IsClear need needs held c = ground arith

  step-IsWaiting :
      (need : WorkflowNeed) (needs : List WorkflowNeed) (held : List NeedLabel)
      → IsWaiting need
      → check_needs input (need ∷ needs) held ≡ check_needs input needs (held ++ label_of need ∷ [])
  unfolding check_needs
  step-IsWaiting need needs held w = ground arith

  pub check_needs-IsDoomed :
      (needs : List WorkflowNeed) (held : List NeedLabel) (d : JobDecision)
      → check_needs input needs held ≡ decided d
      → Any IsDoomed needs
  unfolding check_needs
  check_needs-IsDoomed [] held d h = cc
  check_needs-IsDoomed (need ∷ needs) held d h = elim (need_cases need) [
    | inl doomed ↦ here doomed
    | inr (inl clear) ↦
        there (check_needs-IsDoomed needs held d (sym (step-IsClear need needs held clear) ∙ h))
    | inr (inr open_yet) ↦ there (
        check_needs-IsDoomed needs (held ++ label_of need ∷ []) d
          (sym (step-IsWaiting need needs held open_yet) ∙ h))
  ]

  pub IsDoomed-check_needs :
      (needs : List WorkflowNeed) (held : List NeedLabel)
      → Any IsDoomed needs
      → (r : SettleReason) × (check_needs input needs held ≡ decided (settle omitted r))
  IsDoomed-check_needs [] held d = elim d [ ]
  IsDoomed-check_needs (need ∷ needs) held (here doomed) = step-IsDoomed need needs held doomed
  IsDoomed-check_needs (need ∷ needs) held (there later) = elim (need_cases need) [
    | inl doomed ↦ step-IsDoomed need needs held doomed
    | inr (inl clear) ↦
        let (r, e) = IsDoomed-check_needs needs held later in
        (r, step-IsClear need needs held clear ∙ e)
    | inr (inr open_yet) ↦
        let (r, e) = IsDoomed-check_needs needs (held ++ label_of need ∷ []) later in
        (r, step-IsWaiting need needs held open_yet ∙ e)
  ]
