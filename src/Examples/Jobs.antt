-- ===== src/Examples/Jobs.antt =====
-- The theorems on needs, decisions and outcomes at concrete inputs.
use linear_pi_orchestrator.Prelude.{
  String, true, false, none, some, List, [], ◌∷◌, ◌≡◌, ◌≢◌, refl, ◌↔◌, All, Any, any, all,
  get_or_else,
}
use linear_pi_orchestrator.Prelude.Table
use linear_pi_orchestrator.Domain.{WorkflowJobStatus, NeedStatus, RunResult}
use linear_pi_orchestrator.Domain.Status.{
  met, impossible, need_satisfaction, satisfaction_at, status_of,
}
use linear_pi_orchestrator.Domain.Needs.{Reaches, need_satisfaction-impossible_iff}
use linear_pi_orchestrator.Expressions.{Evaluator, Evaluated}
use linear_pi_orchestrator.Reconciler.Groups.{States, job_instances}
use linear_pi_orchestrator.Reconciler.Outcome.{run_outcome, outcome_loop}
use linear_pi_orchestrator.Reconciler.Aggregate.{declared_under, job_instances-declared_under}
use linear_pi_orchestrator.Reconciler.{
  JobDecisionInput, run, settle, omitted, SettleReason, decide_job,
}
use linear_pi_orchestrator.Reconciler.Runs.{Permitted, decide_job-run_iff, decide_job-omitted_iff}
use linear_pi_orchestrator.Reconciler.NeedsLoop.{IsClear, IsDoomed}
use linear_pi_orchestrator.Reconciler.Progress.{IsDecided, run_outcome-progress}
use linear_pi_orchestrator.Reconciler.Finish.{is_over, failed_run, run_outcome_iff}
use linear_pi_orchestrator.StringNeed.{ok, resolve_string_workflow_need}
use linear_pi_orchestrator.StringNeed.Resolution.{IsShorthand, resolve_string_workflow_need_iff}
use linear_pi_orchestrator.Examples.Data.{item, need_on, build, cleanup, workflow_jobs, state_with}

-- An evaluator to which each condition is true.
abbrev always_true : Evaluator
always_true source contexts functions = some (Evaluated.boolean true)

abbrev plan_failed : States
plan_failed = ("plan", state_with WorkflowJobStatus.failed) ∷ []

plan_failed_unfinished : (run_outcome workflow_jobs plan_failed).done ≡ false
unfolding run_outcome outcome_loop Table.get
plan_failed_unfinished = refl

abbrev decide_for_build : JobDecisionInput
decide_for_build = record {
  job = build;
  states = plan_failed;
  item = item;
  known = "plan" ∷ "build" ∷ "cleanup" ∷ [];
  instances = none;
}

need_satisfaction-impossible_iff_example :
    (need_satisfaction (need_on "plan") (some (state_with WorkflowJobStatus.failed)) ≡ impossible)
    ↔ ((t : WorkflowJobStatus)
        → Reaches WorkflowJobStatus.failed t
        → satisfaction_at (need_on "plan").status t ≢ met)
need_satisfaction-impossible_iff_example =
    need_satisfaction-impossible_iff (need_on "plan") (some (state_with WorkflowJobStatus.failed))

-- `build` needs `plan`, which failed, so it is omitted.
decide_job-omitted_iff_example :
    ((r : SettleReason) × (decide_job always_true decide_for_build ≡ some (settle omitted r))) ↔ (
      (status_of (Table.get plan_failed "build") ≡ WorkflowJobStatus.pending)
      × Any (IsDoomed decide_for_build) build.needs)
decide_job-omitted_iff_example = decide_job-omitted_iff always_true decide_for_build

-- `cleanup` has a condition, so it runs after `build` is omitted.
abbrev decide_for_cleanup : JobDecisionInput
decide_for_cleanup = record decide_for_build {
  job = cleanup;
  states = ("build", state_with WorkflowJobStatus.omitted) ∷ plan_failed;
}

decide_job-run_iff_example : (decide_job always_true decide_for_cleanup ≡ some run) ↔ (
    (status_of (Table.get decide_for_cleanup.states "cleanup") ≡ WorkflowJobStatus.pending)
    × All (IsClear decide_for_cleanup) cleanup.needs
    × Permitted always_true decide_for_cleanup cleanup.condition)
decide_job-run_iff_example = decide_job-run_iff always_true decide_for_cleanup

abbrev known_ids : List String
known_ids = "plan" ∷ "build" ∷ "cleanup" ∷ []

run_outcome-progress_example :
    Any (IsDecided always_true plan_failed item known_ids none) workflow_jobs
unfolding Table.get
run_outcome-progress_example =
    run_outcome-progress always_true plan_failed item known_ids none workflow_jobs
      (tt, (((refl, tt), tt), (((refl, tt), tt), tt))) ((λ e. cc), ((λ e. cc), ((λ e. cc), tt)))
      plan_failed_unfinished

run_outcome_iff_example :
    ((run_outcome workflow_jobs plan_failed).done ≡ all (is_over plan_failed) workflow_jobs)
    × (((run_outcome workflow_jobs plan_failed).status ≡ RunResult.failed)
        ↔ (any (failed_run plan_failed) workflow_jobs ≡ true))
run_outcome_iff_example = run_outcome_iff plan_failed workflow_jobs

job_instances-declared_under_example :
    get_or_else (Table.get (job_instances workflow_jobs) "build") []
    ≡ declared_under "build" workflow_jobs
job_instances-declared_under_example = job_instances-declared_under workflow_jobs "build"

resolve_string_workflow_need_iff_example :
    (resolve_string_workflow_need "plan.Failed" known_ids
      ≡ ok (record { job = "plan"; status = some NeedStatus.failed }))
    ↔ IsShorthand "plan.Failed" known_ids (record { job = "plan"; status = some NeedStatus.failed })
resolve_string_workflow_need_iff_example =
    resolve_string_workflow_need_iff "plan.Failed" known_ids
      (record { job = "plan"; status = some NeedStatus.failed }) refl
