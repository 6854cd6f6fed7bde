-- ===== src/Storage/Workflows/View.antt =====
-- What the two ledgers of workflow runs have in common: all but the revisions of the runs and the
-- errors of their jobs.
use linear_pi_orchestrator.Prelude.{
  String, not, ◌&&◌, ◌||◌, Option, none, some, List, [], ◌∷◌, ◌==◌, ◌≡◌, refl, sym, ap, ap₂, ◌∙◌,
  get_or_else, flag, Bool-cases, inl, inr,
}
use linear_pi_orchestrator.Prelude.Table
use linear_pi_orchestrator.Prelude.Table.{Table}
use linear_pi_orchestrator.Domain.{Timestamp, WorkflowJobState, WorkflowRunRecord}
use linear_pi_orchestrator.Domain.Status.{pending_state, is_terminal_job_status}
use linear_pi_orchestrator.RunStore.Job.{retried_jobs, retried_job, unwanted}
use linear_pi_orchestrator.RunStore.{Records, with_job}

abbrev pub clear : WorkflowJobState → WorkflowJobState
clear job = record job { error = none }

abbrev pub clear_jobs : Table WorkflowJobState → Table WorkflowJobState
clear_jobs [] = []
clear_jobs ((id, job) ∷ jobs) = (id, clear job) ∷ clear_jobs jobs

abbrev pub view : WorkflowRunRecord → WorkflowRunRecord
view run = record run { revision = none; jobs = clear_jobs run.jobs }

abbrev pub view_all : Records → Records
view_all [] = []
view_all ((id, run) ∷ records) = (id, view run) ∷ view_all records

abbrev pub view_some : Option WorkflowRunRecord → Option WorkflowRunRecord
view_some none = none
view_some (some run) = some (view run)

pub get-view_all :
    (records : Records) (key : String)
    → Table.get (view_all records) key ≡ view_some (Table.get records key)
unfolding Table.get
get-view_all [] key = refl
get-view_all ((k, run) ∷ records) key = elim (Bool-cases (k == key)) [
  | inl own ↦ rw own
  | inr other ↦ rw other (get-view_all records key)
]

pub view_all-set :
    (records : Records) (key : String) (run : WorkflowRunRecord)
    → view_all (Table.set records key run) ≡ Table.set (view_all records) key (view run)
unfolding Table.set
view_all-set [] key run = refl
view_all-set ((k, r) ∷ records) key run = elim (Bool-cases (k == key)) [
  | inl own ↦ rw own
  | inr other ↦ rw other (ap (λ (m : Records). (k, view r) ∷ m) (view_all-set records key run))
]

clear_jobs-set :
    (jobs : Table WorkflowJobState) (id : String) (job : WorkflowJobState)
    → clear_jobs (Table.set jobs id job) ≡ Table.set (clear_jobs jobs) id (clear job)
unfolding Table.set
clear_jobs-set [] id job = refl
clear_jobs-set ((k, j) ∷ jobs) id job = elim (Bool-cases (k == id)) [
  | inl own ↦ rw own
  | inr other ↦
      rw other (ap (λ (m : Table WorkflowJobState). (k, clear j) ∷ m) (clear_jobs-set jobs id job))
]

clear_jobs_twice : (jobs : Table WorkflowJobState) → clear_jobs (clear_jobs jobs) ≡ clear_jobs jobs
clear_jobs_twice [] = refl
clear_jobs_twice ((id, job) ∷ jobs) =
    ap (λ (m : Table WorkflowJobState). (id, clear job) ∷ m) (clear_jobs_twice jobs)

pub view_twice : (run : WorkflowRunRecord) → view (view run) ≡ view run
view_twice run =
    ap (λ (jobs : Table WorkflowJobState). record run { revision = none; jobs = jobs })
      (clear_jobs_twice run.jobs)

pub view_all_twice : (records : Records) → view_all (view_all records) ≡ view_all records
view_all_twice [] = refl
view_all_twice ((id, run) ∷ records) =
    ap₂ (λ (r : WorkflowRunRecord) (m : Records). (id, r) ∷ m) (view_twice run)
      (view_all_twice records)

pub get-clear_jobs :
    (jobs : Table WorkflowJobState) (id : String)
    → get_or_else (Table.get (clear_jobs jobs) id) pending_state
      ≡ clear (get_or_else (Table.get jobs id) pending_state)
unfolding Table.get
get-clear_jobs [] id = refl
get-clear_jobs ((k, j) ∷ jobs) id = elim (Bool-cases (k == id)) [
  | inl own ↦ rw own
  | inr other ↦ rw other (get-clear_jobs jobs id)
]

-- Jobs that agree up to their errors, put into runs that agree.
pub view-with_job :
    (run : WorkflowRunRecord) (id : String) (job job' : WorkflowJobState) (at : Timestamp)
    → clear job ≡ clear job'
    → view (with_job (view run) id job at) ≡ view (with_job run id job' at)
view-with_job run id job job' at e =
    ap
      (λ (jobs : Table WorkflowJobState). record run {
        revision = none;
        jobs = jobs;
        updated_at = at;
      })
      (clear_jobs-set (clear_jobs run.jobs) id job
        ∙ ap₂ (λ (m : Table WorkflowJobState) (j : WorkflowJobState). Table.set m id j)
            (clear_jobs_twice run.jobs) e
        ∙ sym (clear_jobs-set run.jobs id job'))

pub view-same_job :
    (run : WorkflowRunRecord) (id : String) (job job' : WorkflowJobState) (at : Timestamp)
    → clear job ≡ clear job'
    → view (with_job run id job at) ≡ view (with_job run id job' at)
view-same_job run id job job' at e =
    ap
      (λ (jobs : Table WorkflowJobState). record run {
        revision = none;
        jobs = jobs;
        updated_at = at;
      })
      (clear_jobs-set run.jobs id job
        ∙ ap (λ (j : WorkflowJobState). Table.set (clear_jobs run.jobs) id j) e
        ∙ sym (clear_jobs-set run.jobs id job'))

clear-retried_job :
    (wanted : Option (List String)) (id : String) (job : WorkflowJobState)
    → clear (retried_job wanted id (clear job)) ≡ clear (retried_job wanted id job)
clear-retried_job wanted id job =
    elim (Bool-cases (
      unwanted wanted id
      || not (is_terminal_job_status job.status) && not (flag job.needs_attention))) [
        | inl stays ↦ rw stays
        | inr reset ↦ rw reset
      ]

pub clear_jobs-retried :
    (wanted : Option (List String)) (jobs : Table WorkflowJobState)
    → clear_jobs (retried_jobs wanted (clear_jobs jobs)) ≡ clear_jobs (retried_jobs wanted jobs)
unfolding retried_jobs
clear_jobs-retried wanted [] = refl
clear_jobs-retried wanted ((id, job) ∷ jobs) =
    ap₂ (λ (j : WorkflowJobState) (m : Table WorkflowJobState). (id, j) ∷ m)
      (clear-retried_job wanted id job) (clear_jobs-retried wanted jobs)

-- A write of runs that look the same.
pub view_all-save :
    (records : Records) (run run' : WorkflowRunRecord)
    → run.id ≡ run'.id
    → view run ≡ view run'
    → view_all (Table.set (view_all records) run.id run) ≡ view_all (Table.set records run'.id run')
view_all-save records run run' id e =
    view_all-set (view_all records) run.id run
    ∙ (λ i. Table.set (view_all_twice records i) (id i) (e i))
    ∙ sym (view_all-set records run'.id run')
