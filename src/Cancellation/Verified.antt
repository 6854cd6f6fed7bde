-- ===== src/Cancellation/Verified.antt =====
-- CancelWorkflow.cancel in packages/application/src/workflow-engine.ts: what is left in the ledger.
use linear_pi_orchestrator.Prelude.{
  String, Bool, true, false, not, some, List, [], ◌∷◌, ◌≡◌, refl, sym, ap, subst, inl, inr, ◌⊎◌,
  arith, Bool-cases, All, text_eq?_iff,
}
use linear_pi_orchestrator.Prelude.Table
use linear_pi_orchestrator.Domain.{
  WorkflowJobStatus, WorkflowJobState, WorkflowJobDefinition, WorkflowDefinition, WorkflowRunRecord,
  WorkflowJobTransition, WorkflowRunStatus, RunResult,
}
use linear_pi_orchestrator.Domain.Status.{is_terminal_job_status}
use linear_pi_orchestrator.Domain.Key.{create_workflow_run_key}
use linear_pi_orchestrator.RunStore.{
  Records, update_workflow_job, finished_run, job_of, is_running, with_job,
}
use linear_pi_orchestrator.RunStore.Job.{fenced_off, updated_job}
use linear_pi_orchestrator.RunStore.Keyed.{Inv, call-Inv}
use linear_pi_orchestrator.RunStore.Ops.{call, updates}
use linear_pi_orchestrator.Cancellation.{
  CancelPorts, is_uncertain, cancelling, cancel_job, cancel_jobs, cancel, conclude, recorded_jobs,
}
use linear_pi_orchestrator.Cancellation.Writes.{
  IsLive, update-accepts, update-refuses, get-saved, IsOmitted, IsOmitted-with_job, IsTold-with_job,
  finish-accepts,
}

-- The job was over in the run that was cancelled, and is as it was, or has been cancelled.
abbrev pub IsStopped : WorkflowRunRecord → String → String → WorkflowJobState → Type 0
IsStopped run reason id s =
    ((is_terminal_job_status (job_of run id).status ≡ true) × (s ≡ job_of run id))
    ⊎ IsOmitted reason s

module _ (ports : CancelPorts) (run : WorkflowRunRecord) (reason : String) where
  transition : WorkflowJobDefinition → WorkflowJobTransition
  transition job = cancelling ports (job_of run job.id) reason WorkflowJobStatus.omitted false

  IsEnded : WorkflowRunRecord → String → Type 0
  IsEnded r id = IsStopped run reason id (job_of r id)

  IsEnded-told :
      (r : WorkflowRunRecord) (id : String) → IsOmitted reason (job_of r id) → IsEnded r id
  unfolding IsEnded
  IsEnded-told r id gone = inr gone

  IsEnded-with_job :
      (r : WorkflowRunRecord) (id j : String) (s : WorkflowJobState)
      → IsOmitted reason s
      → IsEnded r j
      → IsEnded (with_job r id s ports.now) j
  unfolding IsEnded
  IsEnded-with_job r id j s gone (inr t) =
      inr (IsOmitted-with_job reason r id j s ports.now gone (inr t))
  IsEnded-with_job r id j s gone (inl (over, same)) =
      elim (IsTold-with_job run reason r id j s ports.now gone (inr same)) [
        | inl omitted_now ↦ inr omitted_now
        | inr still ↦ inl (over, still)
      ]

  -- After a verified cancellation of the job `id` the run is still live, the job is over, and so is
  -- each that was.
  Cancelled : {records : Records} → IsLive run reason records → String → Records × Bool → Type 0
  unfolding IsEnded
  Cancelled live id p =
      p.1 ≡ true
      → (next : IsLive run reason p.0) × IsEnded next.current id
        × ((j : String) → IsEnded live.current j → IsEnded next.current j)

  unchanged :
      {records : Records} (live : IsLive run reason records) (id : String) (b : Bool)
      → IsEnded live.current id
      → Cancelled live id (records, b)
  unfolding Cancelled
  unchanged live id b t e = (live, t, λ j u. u)

  omitted_job : WorkflowRunRecord → WorkflowJobDefinition → WorkflowJobState
  unfolding transition
  omitted_job r job = updated_job (job_of r job.id) (transition job)

  written :
      {records : Records} (live : IsLive run reason records) (job : WorkflowJobDefinition)
      (b : Bool)
      → fenced_off (job_of live.current job.id) (transition job) ≡ false
      → Cancelled live job.id (
        Table.set records live.current.id
            (with_job live.current job.id (omitted_job live.current job) ports.now),
        b,
      )
  unfolding Cancelled omitted_job transition IsEnded call
  written {records = records} live job b free e =
      let next = with_job live.current job.id (omitted_job live.current job) ports.now in
      let gone : IsOmitted reason (omitted_job live.current job) = (refl, refl, refl) in
      (
        record {
          inv =
              subst Inv
                (ap (λ p. p.0)
                  (update-accepts records run live.current job.id (transition job) live.found
                    live.running free))
                (call-Inv records (updates run.identity job.id (transition job)) live.inv);
          current = next;
          found = get-saved records _ live.current next live.inv live.found;
          running = live.running;
          told =
              λ j. IsTold-with_job run reason live.current job.id j _ ports.now gone (live.told j);
        },
        inr (IsOmitted-with_job reason live.current job.id job.id _ ports.now gone (inl refl)),
        λ j t. IsEnded-with_job live.current job.id j _ gone t,
      )

  updated-Cancelled :
      {records : Records} (live : IsLive run reason records) (job : WorkflowJobDefinition)
      (b : Bool)
      → is_terminal_job_status (job_of run job.id).status ≡ false
      → Cancelled live job.id
          ((update_workflow_job records run.identity job.id (transition job)).0, b)
  unfolding transition IsEnded omitted_job
  updated-Cancelled {records = records} live job b open_yet = elim (live.told job.id) [
    | inl over ↦
        subst (λ r. Cancelled live job.id (r.0, b))
          (sym (
            update-refuses records run live.current job.id (transition job) live.found live.running
              (ground (arith, over.0))))
          (unchanged live job.id b (IsEnded-told live.current job.id over))
    | inr same ↦
        let free =
          subst (λ x. fenced_off x (transition job) ≡ false) (sym same)
            (ground (
              arith,
              text_eq?_iff (job_of run job.id).attempt_id (job_of run job.id).attempt_id,
            )) in
        subst (λ r. Cancelled live job.id (r.0, b))
          (sym (
            update-accepts records run live.current job.id (transition job) live.found live.running
              free))
          (written live job b free)
  ]

  told_over :
      {records : Records} (live : IsLive run reason records) (id : String)
      → is_terminal_job_status (job_of run id).status ≡ true
      → IsEnded live.current id
  unfolding IsEnded
  told_over live id over = elim (live.told id) [ inl t ↦ inr t | inr same ↦ inl (over, same) ]

  cancelled_job : Records → WorkflowJobDefinition → Records × Bool
  cancelled_job records job =
      cancel_job ports run job (job_of run job.id) reason WorkflowJobStatus.omitted records

  cancelled_job-over :
      (records : Records) (job : WorkflowJobDefinition)
      → is_terminal_job_status (job_of run job.id).status ≡ true
      → cancelled_job records job ≡ (records, true)
  unfolding cancelled_job cancel_job
  cancelled_job-over records job over = rw over refl

  cancelled_job-open :
      (records : Records) (job : WorkflowJobDefinition) (u : Bool)
      → is_terminal_job_status (job_of run job.id).status ≡ false
      → is_uncertain ports job (job_of run job.id) ≡ u
      → cancelled_job records job ≡ (
        (update_workflow_job records run.identity job.id
            (cancelling ports (job_of run job.id) reason WorkflowJobStatus.omitted u)).0,
        not u,
      )
  unfolding cancelled_job cancel_job
  cancelled_job-open records job u open_yet e = rw (open_yet, e) refl

  uncertain-Cancelled :
      {records : Records} (live : IsLive run reason records) (id : String) (s : Records)
      → Cancelled live id (s, false)
  unfolding Cancelled
  uncertain-Cancelled live id s = λ e. absurd (cc)

  cancel_job-Cancelled :
      {records : Records} (live : IsLive run reason records) (job : WorkflowJobDefinition)
      → Cancelled live job.id (cancelled_job records job)
  unfolding transition
  cancel_job-Cancelled {records = records} live job =
      elim (Bool-cases (is_terminal_job_status (job_of run job.id).status)) [
        | inl over ↦
            subst (Cancelled live job.id) (sym (cancelled_job-over records job over))
              (unchanged live job.id true (told_over live job.id over))
        | inr open_yet ↦ elim (Bool-cases (is_uncertain ports job (job_of run job.id))) [
          | inl u ↦
              subst (Cancelled live job.id) (sym (cancelled_job-open records job true open_yet u))
                (uncertain-Cancelled live job.id _)
          | inr u ↦
              subst (Cancelled live job.id) (sym (cancelled_job-open records job false open_yet u))
                (updated-Cancelled live job true open_yet)
        ]
      ]

  cancel_jobs-uncertain :
      (jobs : List WorkflowJobDefinition) (records : Records)
      → (cancel_jobs ports run reason jobs records true).1 ≡ true
  unfolding cancel_jobs
  cancel_jobs-uncertain [] records = refl
  cancel_jobs-uncertain (job ∷ jobs) records = cancel_jobs-uncertain jobs _

  -- What the loop leaves when no job is uncertain.
  AllCancelled :
      {records : Records}
      → IsLive run reason records
      → List WorkflowJobDefinition
      → Records × Bool
      → Type 0
  unfolding IsEnded
  AllCancelled live jobs p =
      p.1 ≡ false
      → (next : IsLive run reason p.0) × All (λ job. IsEnded next.current job.id) jobs
        × ((j : String) → IsEnded live.current j → IsEnded next.current j)

  first_then_rest :
      {records : Records} (live : IsLive run reason records) (job : WorkflowJobDefinition)
      (jobs : List WorkflowJobDefinition) (p : Records × Bool)
      → Cancelled live job.id p
      → ((next : IsLive run reason p.0)
          → AllCancelled next jobs (cancel_jobs ports run reason jobs p.0 false))
      → AllCancelled live (job ∷ jobs) (cancel_jobs ports run reason jobs p.0 (not p.1))
  unfolding AllCancelled Cancelled IsEnded
  first_then_rest live job jobs (records, false) c rest e =
      absurd (cc (cancel_jobs-uncertain jobs records, e))
  first_then_rest live job jobs (records, true) c rest e =
      let (next, over, before) = c refl in
      let (last, all, after) = rest next e in
      (last, (after job.id over, all), λ j t. after j (before j t))

  cancel_jobs-AllCancelled :
      (jobs : List WorkflowJobDefinition) {records : Records} (live : IsLive run reason records)
      → AllCancelled live jobs (cancel_jobs ports run reason jobs records false)
  unfolding cancel_jobs AllCancelled cancelled_job
  cancel_jobs-AllCancelled [] live = λ e. (live, tt, λ j t. t)
  cancel_jobs-AllCancelled (job ∷ jobs) {records = records} live =
      first_then_rest live job jobs
        (cancel_job ports run job (job_of run job.id) reason WorkflowJobStatus.omitted records)
        (cancel_job-Cancelled live job) λ next. cancel_jobs-AllCancelled jobs next

  -- The run has failed in the ledger, and the jobs are over.
  EndsOver : List WorkflowJobDefinition → Records × Bool → Type 0
  EndsOver jobs p =
      (final : WorkflowRunRecord) × (Table.get p.0 (create_workflow_run_key run.identity)
        ≡ some final)
      × (final.status ≡ WorkflowRunStatus.failed)
      × All (λ job. IsStopped run reason job.id (job_of final job.id)) jobs

  conclude-EndsOver :
      {records : Records} (live : IsLive run reason records) (jobs : List WorkflowJobDefinition)
      (p : Records × Bool)
      → AllCancelled live jobs p
      → (conclude ports run p).1 ≡ true
      → EndsOver jobs (conclude ports run p)
  unfolding AllCancelled IsEnded EndsOver
  conclude-EndsOver live jobs (records, true) all e = absurd (cc)
  conclude-EndsOver live jobs (records, false) all e =
      let (next, over, before) = all refl in
      let final = finished_run RunResult.failed next.current ports.now in
      (
        final,
        subst (λ p. Table.get p.0 (create_workflow_run_key run.identity) ≡ some final)
            (sym (
              finish-accepts records run next.current RunResult.failed ports.now next.found
                next.running))
            (get-saved records _ next.current final next.inv next.found),
        refl,
        over,
      )

-- When cancelling a run that the ledger holds as running returns that the cancellation is verified,
-- the ledger holds the run as failed, and every job of its recorded definition was over and is as it
-- was, or is omitted with the reason as its message and without the mark that it needs attention.
pub cancel-over :
    (ports : CancelPorts) (workflow : WorkflowDefinition) (run : WorkflowRunRecord)
    (reason : String) (records : Records)
    → Inv records
    → Table.get records (create_workflow_run_key run.identity) ≡ some run
    → is_running run.status ≡ true
    → (cancel ports workflow run reason records).1 ≡ true
    → (final : WorkflowRunRecord) × (Table.get
          (cancel ports workflow run reason records).0
          (create_workflow_run_key run.identity)
        ≡ some final)
      × (final.status ≡ WorkflowRunStatus.failed)
      × All
          (λ job. IsStopped run reason job.id (job_of final job.id))
          (recorded_jobs run.definition workflow)
unfolding cancel EndsOver
cancel-over ports workflow run reason records v found running verified =
    let jobs = recorded_jobs run.definition workflow in
    let live : IsLive run reason records = record {
      inv = v;
      current = run;
      found = found;
      running = running;
      told = λ id. inr refl;
    } in
    conclude-EndsOver ports run reason live jobs (cancel_jobs ports run reason jobs records false)
      (cancel_jobs-AllCancelled ports run reason jobs live) verified
