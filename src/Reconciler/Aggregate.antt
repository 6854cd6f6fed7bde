-- ===== src/Reconciler/Aggregate.antt =====
-- aggregate, jobInstances and needs on a group in src/workflows/reconciler.ts.
use linear_pi_orchestrator.Prelude.{
  String, true, false, Option, List, [], ◌∷◌, ◌++◌, map, ◌≡◌, ◌≢◌, refl, sym, ◌∙◌, inl, inr, arith,
  All, any, all, get_or_else, ◌==◌, eq_iff, keep, Bool-cases, append-nil, append_assoc,
}
use linear_pi_orchestrator.Prelude.Table
use linear_pi_orchestrator.Domain.{WorkflowNeed, WorkflowJobState, WorkflowJobDefinition}
use linear_pi_orchestrator.Domain.Status.{
  Satisfaction, met, waiting, impossible, need_satisfaction, is_terminal_job_status, status_of,
}
use linear_pi_orchestrator.Reconciler.Groups.{
  States, Instances, aggregate, is_met, is_impossible, group_satisfaction, instances_of, group_of,
  add_instances, job_instances,
}

settled_result :
    (need : WorkflowNeed) (s : Option WorkflowJobState)
    → is_terminal_job_status (status_of s) ≡ true
    → need_satisfaction need s ≢ waiting
unfolding need_satisfaction
settled_result need s over h = ground arith

no_waiting :
    (rs : List Satisfaction)
    → All (λ r. r ≢ waiting) rs
    → any is_impossible rs ≡ false
    → all is_met rs ≡ true
no_waiting [] h e = refl
no_waiting (met ∷ rs) h e = no_waiting rs h.1 e
no_waiting (waiting ∷ rs) h e = absurd (h.0 refl)
no_waiting (impossible ∷ rs) h e = cc

All-results :
    (need : WorkflowNeed) (states : List (Option WorkflowJobState))
    → All (λ s. is_terminal_job_status (status_of s) ≡ true) states
    → All (λ r. r ≢ waiting) (map (need_satisfaction need) states)
All-results need [] h = tt
All-results need (s ∷ states) h = (settled_result need s h.0, All-results need states h.1)

-- A need on jobs that are all over is decided: it is met or impossible.
pub group_satisfaction-ne_waiting :
    (need : WorkflowNeed) (states : States) (instances : Option Instances)
    → All
        (λ s. is_terminal_job_status (status_of s) ≡ true)
        (instances_of need.job states instances)
    → group_satisfaction need states instances ≢ waiting
unfolding group_satisfaction aggregate
group_satisfaction-ne_waiting need states instances over h =
    let rs = map (need_satisfaction need) (instances_of need.job states instances) in
    ground (arith, no_waiting rs (All-results need _ over))

-- The ids of the jobs that are declared under a name, in declaration order.
abbrev pub declared_under : String → List WorkflowJobDefinition → List String
declared_under name jobs = map (λ job. job.id) (keep (λ job. group_of job == name) jobs)

add_instances_lem :
    (instances : Instances) (jobs : List WorkflowJobDefinition) (name : String)
    → get_or_else (Table.get (add_instances instances jobs) name) []
      ≡ get_or_else (Table.get instances name) [] ++ declared_under name jobs
unfolding add_instances
add_instances_lem instances [] name = sym (append-nil _)
add_instances_lem instances (job ∷ jobs) name =
    let ids = get_or_else (Table.get instances (group_of job)) [] in
    let rest =
      add_instances_lem (Table.set instances (group_of job) (ids ++ job.id ∷ [])) jobs name in
    let written = Table.get-set instances (group_of job) name (ids ++ job.id ∷ []) in
    elim (Bool-cases (group_of job == name)) [
      | inl b ↦
          let same = (eq_iff (group_of job) name).0 b in
          rest ∙ rw (written, b, same) (append_assoc _ (job.id ∷ []) (declared_under name jobs))
      | inr b ↦ rest ∙ rw (written, b)
    ]

-- `jobInstances` maps each name to the ids of the jobs declared under it, in declaration order.
pub job_instances-declared_under :
    (jobs : List WorkflowJobDefinition) (name : String)
    → get_or_else (Table.get (job_instances jobs) name) [] ≡ declared_under name jobs
unfolding job_instances
job_instances-declared_under jobs name = unfold Table.get in add_instances_lem [] jobs name
