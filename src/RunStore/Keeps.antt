-- ===== src/RunStore/Keeps.antt =====
-- One job's state through a write of the ledger that is not about this job.
use linear_pi_orchestrator.Prelude.{
  String, subst, some, ◌≡◌, ◌≢◌, sym, ◌∙◌, inl, inr, arith, eq_iff, eq_refl, Bool-cases, ◌==◌, ◌&&◌,
}
use linear_pi_orchestrator.Prelude.Table
use linear_pi_orchestrator.Domain.{Timestamp, WorkflowJobState, WorkflowRunRecord}
use linear_pi_orchestrator.RunStore.{
  Records, OpenInput, open_workflow_run, new_run, job_of, with_job,
}
use linear_pi_orchestrator.RunStore.Cases.{open_cases}
use linear_pi_orchestrator.RunStore.Keyed.{Inv, IsKeyed}
use linear_pi_orchestrator.RunStore.States.{
  state_at, state_at-same_jobs, state_at-with_job, state_at-found, state_at-other, state_at-none,
}

pub own_id :
    (records : Records) (k : String) {r : WorkflowRunRecord}
    → Inv records
    → Table.get records k ≡ some r
    → r.id ≡ k
own_id records k v e = (Table.Entries-get IsKeyed records k v.keyed e).own_id

module _ (records : Records) (v : Inv records) (key id : String) (s : WorkflowJobState)
    (now : state_at records key id ≡ some s) where
  -- A write to a job of a run leaves `s`, unless it is a write to this job.
  pub write-keeps :
      (k job_id : String) (r : WorkflowRunRecord) (next : WorkflowJobState) (at : Timestamp)
      → Table.get records k ≡ some r
      → (k ≡ key → job_id ≡ id → job_of r job_id ≡ s → ⊥)
      → state_at (Table.set records r.id (with_job r job_id next at)) key id ≡ some s
  write-keeps k job_id r next at e other =
      subst (λ i. state_at (Table.set records i (with_job r job_id next at)) key id ≡ some s)
        (sym (own_id records k v e))
        (state_at-with_job records key k id job_id r next at e
          ∙ elim (Bool-cases (k == key && job_id == id)) [
            | inl b ↦
                let k≡key : k ≡ key = ground (arith, eq_iff k key) in
                let job≡id : job_id ≡ id = ground (arith, eq_iff job_id id) in
                absurd (
                  other k≡key job≡id (cc (state_at-found records k job_id r e, k≡key, job≡id, now)))
            | inr b ↦ rw b now
          ])

  pub same_jobs-keeps :
      (k : String) (r next : WorkflowRunRecord)
      → Table.get records k ≡ some r
      → next.jobs ≡ r.jobs
      → state_at (Table.set records r.id next) key id ≡ some s
  same_jobs-keeps k r next e same =
      subst (λ i. state_at (Table.set records i next) key id ≡ some s) (sym (own_id records k v e))
        (state_at-same_jobs records key k id r next e same ∙ now)

  pub retry-keeps :
      (k : String) (r next : WorkflowRunRecord)
      → Table.get records k ≡ some r
      → k ≢ key
      → state_at (Table.set records r.id next) key id ≡ some s
  retry-keeps k r next e other =
      subst (λ i. state_at (Table.set records i next) key id ≡ some s) (sym (own_id records k v e))
        (state_at-other records key k id next other ∙ now)

  pub open-keeps :
      (input : OpenInput) → state_at (open_workflow_run records input).0 key id ≡ some s
  open-keeps input =
      open_cases records input (λ r. state_at r.0 key id ≡ some s) (λ existing e. now)
        (λ e.
          state_at-other records key _ id (new_run input)
            (λ same. cc (state_at-none records _ id e, same, now))
          ∙ now)

-- A write to a job is the job's state from then on.
pub state_at-written :
    (records : Records) (key id : String) (r : WorkflowRunRecord) (s : WorkflowJobState)
    (at : Timestamp)
    → Inv records
    → Table.get records key ≡ some r
    → state_at (Table.set records r.id (with_job r id s at)) key id ≡ some s
state_at-written records key id r s at v e =
    subst (λ i. state_at (Table.set records i (with_job r id s at)) key id ≡ some s)
      (sym (own_id records key v e))
      (state_at-with_job records key key id id r s at e ∙ rw (eq_refl key, eq_refl id))
