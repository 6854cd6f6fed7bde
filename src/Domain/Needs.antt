-- ===== src/Domain/Needs.antt =====
-- needSatisfaction in packages/domain/src/index.ts, against the ways on that a status has.
use linear_pi_orchestrator.Prelude.{
  false, Option, none, some, ◌≡◌, refl, ◌⊎◌, inl, inr, arith, ◌≢◌, ◌↔◌,
}
use linear_pi_orchestrator.Domain.{WorkflowJobStatus, NeedStatus, WorkflowNeed, WorkflowJobState}
use linear_pi_orchestrator.Domain.Status.{
  is_terminal_job_status, need_satisfaction, satisfaction_at, met, waiting, impossible, job_status,
  status_of,
}

-- How a write changes a status while nobody retries the job: a terminal status is final, and any
-- other may be left for any status (a running job may also be deferred, and is pending again).
pub data Advance : WorkflowJobStatus → WorkflowJobStatus → Type 0 where
  move : {s t : WorkflowJobStatus} → is_terminal_job_status s ≡ false → Advance s t

pub data Reaches (s : WorkflowJobStatus) : WorkflowJobStatus → Type 0 where
  here : Reaches s s
  next : {t u : WorkflowJobStatus} → Reaches s t → Advance t u → Reaches s u

impossible_step :
    (need : Option NeedStatus) {s t : WorkflowJobStatus}
    → satisfaction_at need s ≡ impossible
    → Advance s t
    → satisfaction_at need t ≡ impossible
impossible_step none h (move p) = ground arith
impossible_step (some w) h (move p) = ground arith

impossible_final :
    (need : Option NeedStatus) {s t : WorkflowJobStatus}
    → satisfaction_at need s ≡ impossible
    → Reaches s t
    → satisfaction_at need t ≡ impossible
impossible_final need h here = h
impossible_final need h (next r a) = impossible_step need (impossible_final need h r) a

-- The status that a need asks for; without one, a success serves.
abbrev wanted : Option NeedStatus → WorkflowJobStatus
wanted none = WorkflowJobStatus.succeeded
wanted (some w) = job_status w

wanted-met : (need : Option NeedStatus) → satisfaction_at need (wanted need) ≡ met
wanted-met none = refl
wanted-met (some w) = ground arith

waiting-open :
    (need : Option NeedStatus) (s : WorkflowJobStatus)
    → satisfaction_at need s ≡ waiting
    → is_terminal_job_status s ≡ false
waiting-open none s h = ground arith
waiting-open (some w) s h = ground arith

waiting-Reaches :
    (need : Option NeedStatus) (s : WorkflowJobStatus)
    → satisfaction_at need s ≡ waiting
    → Reaches s (wanted need)
waiting-Reaches need s h = next here (move (waiting-open need s h))

met_or_waiting :
    (need : Option NeedStatus) (s : WorkflowJobStatus)
    → (satisfaction_at need s ≡ impossible)
      ⊎ (satisfaction_at need s ≡ met)
      ⊎ (satisfaction_at need s ≡ waiting)
met_or_waiting none s = ground arith
met_or_waiting (some w) s = ground arith

-- A need is judged impossible exactly when no way on from the job's present status meets it: for
-- the status that the job has (pending if it has no state), `impossible` holds if and only if at
-- every status reachable by starting or settling the need is not met.
pub need_satisfaction-impossible_iff :
    (need : WorkflowNeed) (state : Option WorkflowJobState)
    → (need_satisfaction need state ≡ impossible) ↔ (
        (t : WorkflowJobStatus) → Reaches (status_of state) t → satisfaction_at need.status t ≢ met)
unfolding need_satisfaction
need_satisfaction-impossible_iff need state = (
  λ h t r m. cc (impossible_final need.status h r),
  λ never. elim (met_or_waiting need.status (status_of state)) [
    | inl i ↦ i
    | inr (inl m) ↦ absurd (never (status_of state) here m)
    | inr (inr w) ↦
        absurd (never _ (waiting-Reaches need.status (status_of state) w) (wanted-met need.status))
  ],
)
