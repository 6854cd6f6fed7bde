-- ===== src/Cancellation/Writes.antt =====
-- CancelWorkflow in packages/application/src/workflow-engine.ts: its writes to the ledger, on a run that
-- is live.
use linear_pi_orchestrator.Prelude.{
  String, true, false, none, some, ◌≡◌, sym, subst, ◌∙◌, ◌⊎◌, inl, inr, arith, Bool-cases, ◌==◌,
  eq_iff, if◌then◌else◌,
}
use linear_pi_orchestrator.Prelude.Table
use linear_pi_orchestrator.Domain.{
  Timestamp, omitted, WorkflowJobState, WorkflowRunRecord, WorkflowJobTransition, RunResult,
}
use linear_pi_orchestrator.Domain.Key.{create_workflow_run_key}
use linear_pi_orchestrator.RunStore.{
  Records, update_workflow_job, finish_workflow_run, finished_run, job_of, is_running, save,
  with_job,
}
use linear_pi_orchestrator.RunStore.Job.{fenced_off, updated_job}
use linear_pi_orchestrator.RunStore.Keyed.{Inv}
use linear_pi_orchestrator.RunStore.Keeps.{own_id}

-- The job has been cancelled, for a reason, and nobody need look at it.
abbrev pub IsOmitted : String → WorkflowJobState → Type 0
IsOmitted reason s =
    (s.status ≡ omitted) × (s.message ≡ some reason) × (s.needs_attention ≡ some false)

-- The job of the record has been cancelled, or is as in the run that the caller has read.
abbrev pub IsTold : WorkflowRunRecord → String → WorkflowRunRecord → String → Type 0
IsTold run reason r id = IsOmitted reason (job_of r id) ⊎ (job_of r id ≡ job_of run id)

-- The run is in the ledger and is running, and no job has changed but those that have been cancelled.
pub record IsLive (run : WorkflowRunRecord) (reason : String) (records : Records) : Type 0 where
  pub inv : Inv records
  pub current : WorkflowRunRecord
  pub found : Table.get records (create_workflow_run_key run.identity) ≡ some current
  pub running : is_running current.status ≡ true
  pub told : (id : String) → IsTold run reason current id

pub update-accepts :
    (records : Records) (run r : WorkflowRunRecord) (id : String) (t : WorkflowJobTransition)
    → Table.get records (create_workflow_run_key run.identity) ≡ some r
    → is_running r.status ≡ true
    → fenced_off (job_of r id) t ≡ false
    → update_workflow_job records run.identity id t
      ≡ save records r (with_job r id (updated_job (job_of r id) t) t.at)
unfolding update_workflow_job
update-accepts records run r id t e running free =
    rw (e, update_workflow_job) (rw running (rw free))

pub update-refuses :
    (records : Records) (run r : WorkflowRunRecord) (id : String) (t : WorkflowJobTransition)
    → Table.get records (create_workflow_run_key run.identity) ≡ some r
    → is_running r.status ≡ true
    → fenced_off (job_of r id) t ≡ true
    → update_workflow_job records run.identity id t ≡ (records, none)
unfolding update_workflow_job
update-refuses records run r id t e running free =
    rw (e, update_workflow_job) (rw running (rw free))

job_of-with_job :
    (r : WorkflowRunRecord) (id j : String) (s : WorkflowJobState) (at : Timestamp)
    → job_of (with_job r id s at) j ≡ (if id == j then s else job_of r j)
job_of-with_job r id j s at = ground (arith, Table.get-set r.jobs id j s)

pub get-saved :
    (records : Records) (key : String) (r next : WorkflowRunRecord)
    → Inv records
    → Table.get records key ≡ some r
    → Table.get (Table.set records r.id next) key ≡ some next
get-saved records key r next v e =
    subst (λ k. Table.get (Table.set records k next) key ≡ some next) (sym (own_id records key v e))
      (Table.get-set_self records key next)

written-here :
    (r : WorkflowRunRecord) (id j : String) (s : WorkflowJobState) (at : Timestamp)
    → (id == j) ≡ true
    → job_of (with_job r id s at) j ≡ s
written-here r id j s at b = rw b at (job_of-with_job r id j s at)

written-elsewhere :
    (r : WorkflowRunRecord) (id j : String) (s : WorkflowJobState) (at : Timestamp)
    → (id == j) ≡ false
    → job_of (with_job r id s at) j ≡ job_of r j
written-elsewhere r id j s at b = rw b at (job_of-with_job r id j s at)

pub IsOmitted-with_job :
    (reason : String) (r : WorkflowRunRecord) (id j : String) (s : WorkflowJobState)
    (at : Timestamp)
    → IsOmitted reason s
    → (id ≡ j) ⊎ IsOmitted reason (job_of r j)
    → IsOmitted reason (job_of (with_job r id s at) j)
IsOmitted-with_job reason r id j s at gone h = elim (Bool-cases (id == j)) [
  | inl b ↦ subst (IsOmitted reason) (sym (written-here r id j s at b)) gone
  | inr b ↦
      subst (IsOmitted reason) (sym (written-elsewhere r id j s at b))
        (elim h [ inl own ↦ absurd (ground (arith, b, own, eq_iff id j)) | inr before ↦ before ])
]

pub IsTold-with_job :
    (run : WorkflowRunRecord) (reason : String) (r : WorkflowRunRecord) (id j : String)
    (s : WorkflowJobState) (at : Timestamp)
    → IsOmitted reason s
    → IsTold run reason r j
    → IsTold run reason (with_job r id s at) j
IsTold-with_job run reason r id j s at gone (inl t) =
    inl (IsOmitted-with_job reason r id j s at gone (inr t))
IsTold-with_job run reason r id j s at gone (inr same) = elim (Bool-cases (id == j)) [
  | inl b ↦ inl (subst (IsOmitted reason) (sym (written-here r id j s at b)) gone)
  | inr b ↦ inr (written-elsewhere r id j s at b ∙ same)
]

pub finish-accepts :
    (records : Records) (run r : WorkflowRunRecord) (result : RunResult) (at : Timestamp)
    → Table.get records (create_workflow_run_key run.identity) ≡ some r
    → is_running r.status ≡ true
    → finish_workflow_run records run.identity result at ≡ save records r (finished_run result r at)
unfolding finish_workflow_run
finish-accepts records run r result at e running = rw (e, finish_workflow_run) (rw running)
