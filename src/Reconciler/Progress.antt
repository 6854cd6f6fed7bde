-- ===== src/Reconciler/Progress.antt =====
-- decideJob and runOutcome in src/workflows/reconciler.ts: the jobs of a run together.
use linear_pi_orchestrator.Prelude.{
  String, Bool, true, false, Option, none, some, List, [], ◌∷◌, ◌++◌, ◌≡◌, ◌≢◌, refl, sym, ap, ◌∙◌,
  ◌⊎◌, inl, inr, arith, All, Any, here, there, includes, includes-append, Bool-cases, eq_iff, subst,
  if◌then◌else◌, flag, not, ◌&&◌,
}
use linear_pi_orchestrator.Prelude.Table
use linear_pi_orchestrator.Domain.{WorkItem, WorkflowJobStatus, WorkflowJobDefinition, WorkflowNeed}
use linear_pi_orchestrator.Domain.Status.{waiting, status_of, is_terminal_job_status, same_status}
use linear_pi_orchestrator.Expressions.{Evaluator}
use linear_pi_orchestrator.Reconciler.Groups.{
  States, Instances, instances_of, group_satisfaction, states_of, covered, lookup_instances,
}
use linear_pi_orchestrator.Reconciler.Aggregate.{group_satisfaction-ne_waiting}
use linear_pi_orchestrator.Reconciler.Outcome.{run_outcome, outcome_loop}
use linear_pi_orchestrator.Reconciler.{
  hold, HoldReason, JobDecisionInput, decided, after_needs, by_condition, decide_job, settle,
  omitted, SettleReason,
}
use linear_pi_orchestrator.Reconciler.Runs.{decide_pending, status-cases}
use linear_pi_orchestrator.Reconciler.NeedsLoop.{
  IsClear, IsDoomed, need_cases, IsClear-check_needs, IsDoomed-check_needs,
}

-- The ids of the jobs that a need is about.
abbrev pub covered_ids : String → Option (List String) → List String
covered_ids name none = name ∷ []
covered_ids name (some []) = name ∷ []
covered_ids name (some (id ∷ ids)) = id ∷ ids

abbrev pub ids_of : Option Instances → WorkflowNeed → List String
ids_of instances need = covered_ids need.job (lookup_instances instances need.job)

-- Each job's needs are on jobs that stand before it.
abbrev pub OrderedAfter : Option Instances → List String → List WorkflowJobDefinition → Type 0
OrderedAfter instances earlier [] = Unit
OrderedAfter instances earlier (job ∷ jobs) =
    All (λ need. All (λ id. includes earlier id ≡ true) (ids_of instances need)) job.needs
    × OrderedAfter instances (earlier ++ job.id ∷ []) jobs

abbrev Over : States → String → Type 0
Over states id = is_terminal_job_status (status_of (Table.get states id)) ≡ true

states_of-Over :
    (states : States) (ids : List String)
    → All (Over states) ids
    → All (λ s. is_terminal_job_status (status_of s) ≡ true) (states_of states ids)
states_of-Over states [] h = tt
states_of-Over states (id ∷ ids) h = (h.0, states_of-Over states ids h.1)

covered-Over :
    (states : States) (name : String) (o : Option (List String))
    → All (Over states) (covered_ids name o)
    → All (λ s. is_terminal_job_status (status_of s) ≡ true) (covered name states o)
covered-Over states name none h = h
covered-Over states name (some []) h = h
covered-Over states name (some (id ∷ ids)) h = states_of-Over states (id ∷ ids) h

-- Every job of `earlier` is over.
abbrev AllOver : States → List String → Type 0
AllOver states earlier = (id : String) → includes earlier id ≡ true → Over states id

All-Over :
    (states : States) (earlier ids : List String)
    → AllOver states earlier
    → All (λ id. includes earlier id ≡ true) ids
    → All (Over states) ids
All-Over states earlier [] all h = tt
All-Over states earlier (id ∷ ids) all h = (all id h.0, All-Over states earlier ids all h.1)

module _ (input : JobDecisionInput) where
  -- With no need left open, the needs are all clear or one is doomed.
  needs_settled :
      (needs : List WorkflowNeed)
      → All (λ need. group_satisfaction need input.states input.instances ≢ waiting) needs
      → All (IsClear input) needs ⊎ Any (IsDoomed input) needs
  needs_settled [] h = inl tt
  needs_settled (need ∷ needs) h = elim (need_cases input need) [
    | inl doomed ↦ inr (here doomed)
    | inr (inr open_yet) ↦ absurd (h.0 open_yet.1)
    | inr (inl clear) ↦ elim (needs_settled needs h.1) [
      | inl rest ↦ inl (clear, rest)
      | inr later ↦ inr (there later)
    ]
  ]

module _ (evaluator : Evaluator) (input : JobDecisionInput) where
  settle-ne_hold :
      (why : SettleReason) (r : HoldReason)
      → after_needs evaluator input (decided (settle omitted why)) ≢ some (hold r)
  settle-ne_hold why r e = cc

  by_condition-ne_hold :
      (c : Option String) (r : HoldReason) → by_condition evaluator input c ≢ some (hold r)
  by_condition-ne_hold none r = λ e. cc
  by_condition-ne_hold (some c) r = ground arith

  -- A pending job whose needs are all on finished jobs is not held.
  pub decide_job-ne_hold :
      status_of (Table.get input.states input.job.id) ≡ WorkflowJobStatus.pending
      → All (λ need. group_satisfaction need input.states input.instances ≢ waiting) input.job.needs
      → (r : HoldReason) → decide_job evaluator input ≢ some (hold r)
  decide_job-ne_hold pending settled r e =
      let d = sym (decide_pending evaluator input pending) ∙ e in
      elim (needs_settled input input.job.needs settled) [
        | inl clear ↦ by_condition-ne_hold input.job.condition r (
            sym (
              ap (after_needs evaluator input) (IsClear-check_needs input input.job.needs [] clear))
            ∙ d)
        | inr doomed ↦
            let (why, c) = IsDoomed-check_needs input input.job.needs [] doomed in
            absurd (settle-ne_hold why r (sym (ap (after_needs evaluator input) c) ∙ d))
      ]

module _ (evaluator : Evaluator) (states : States) (item : WorkItem) (known : List String)
    (instances : Option Instances) where
  abbrev pub input_for : WorkflowJobDefinition → JobDecisionInput
  input_for job = record {
    job = job;
    states = states;
    item = item;
    known = known;
    instances = instances;
  }

  -- The job is not held on this tick: it is run or settled, or its condition throws.
  abbrev pub IsDecided : WorkflowJobDefinition → Type 0
  IsDecided job = (r : HoldReason) → decide_job evaluator (input_for job) ≢ some (hold r)

  abbrev pub status_in : WorkflowJobDefinition → WorkflowJobStatus
  status_in job = status_of (Table.get states job.id)

  needs_over :
      (earlier : List String) (needs : List WorkflowNeed)
      → AllOver states earlier
      → All (λ need. All (λ id. includes earlier id ≡ true) (ids_of instances need)) needs
      → All (λ need. group_satisfaction need states instances ≢ waiting) needs
  unfolding instances_of
  needs_over earlier [] all h = tt
  needs_over earlier (need ∷ needs) all h = (
    group_satisfaction-ne_waiting need states instances (
        covered-Over states need.job (lookup_instances instances need.job)
          (All-Over states earlier (ids_of instances need) all h.0)),
    needs_over earlier needs all h.1,
  )

  AllOver-concat :
      (earlier : List String) (id : String)
      → AllOver states earlier
      → Over states id
      → AllOver states (earlier ++ id ∷ [])
  AllOver-concat earlier id all done j m =
      let e = includes-append earlier (id ∷ []) j in
      elim (Bool-cases (includes earlier j)) [
        | inl b ↦ all j b
        | inr b ↦ subst (Over states) ((eq_iff id j).0 (ground arith)) done
      ]

  first_open :
      (earlier : List String) (jobs : List WorkflowJobDefinition)
      → AllOver states earlier
      → OrderedAfter instances earlier jobs
      → All (λ job. status_in job ≢ WorkflowJobStatus.started) jobs
      → Any IsDecided jobs ⊎ All (λ job. is_terminal_job_status (status_in job) ≡ true) jobs
  first_open earlier [] all ordered idle = inr tt
  first_open earlier (job ∷ jobs) all ordered idle = elim (status-cases (status_in job)) [
    | inl pending ↦ inl (
        here (
          decide_job-ne_hold evaluator (input_for job) pending
            (needs_over earlier job.needs all ordered.0)))
    | inr (inl started) ↦ absurd (idle.0 started)
    | inr (inr done) ↦
        elim (first_open (earlier ++ job.id ∷ []) jobs (AllOver-concat earlier job.id all done)
          ordered.1 idle.1) [ inl later ↦ inl (there later) | inr rest ↦ inr (done, rest) ]
  ]

  outcome_loop-done :
      (jobs : List WorkflowJobDefinition) (failed : Bool)
      → All (λ job. is_terminal_job_status (status_in job) ≡ true) jobs
      → (outcome_loop jobs states true failed).0 ≡ true
  unfolding outcome_loop
  outcome_loop-done [] failed h = refl
  outcome_loop-done (job ∷ jobs) failed h =
      rw (h.0, outcome_loop)
        (outcome_loop-done jobs
          (if same_status (status_in job) WorkflowJobStatus.failed
              && not (flag job.continue_on_error)
            then true
            else failed)
          h.1)

  -- No stall: in a workflow whose jobs stand in an order in which every need is on earlier jobs, as
  -- long as the run is not done and no job is started, some job is not held: it is run, skipped or
  -- omitted on this tick, or its condition cannot be evaluated.
  pub run_outcome-progress :
      (jobs : List WorkflowJobDefinition)
      → OrderedAfter instances [] jobs
      → All (λ job. status_in job ≢ WorkflowJobStatus.started) jobs
      → (run_outcome jobs states).done ≡ false
      → Any IsDecided jobs
  unfolding run_outcome
  run_outcome-progress jobs ordered idle unfinished =
      elim (first_open [] jobs (λ id m. cc) ordered idle) [
        | inl decided_job ↦ decided_job
        | inr done ↦ absurd (cc (outcome_loop-done jobs false done))
      ]
