-- ===== src/RunStore/Keyed.antt =====
-- src/application/in-memory-workflow-run-store.ts: the invariant of the ledger.
use linear_pi_orchestrator.Prelude.{
  ℕ, String, not, Option, some, List, [], ◌∷◌, ◌≡◌, refl, sym, arith, Distinct, is_some, subst,
}
use linear_pi_orchestrator.Prelude.Table
use linear_pi_orchestrator.Prelude.Table.{Table, Entries}
use linear_pi_orchestrator.Domain.{WorkflowJobState, WorkflowRunRecord, RunResult}
use linear_pi_orchestrator.Domain.Key.{create_workflow_run_key}
use linear_pi_orchestrator.RunStore.Job.{wanted_jobs}
use linear_pi_orchestrator.RunStore.{
  Records, OpenInput, open_workflow_run, retried_run, finished_run, is_running, job_of, new_run,
  with_job,
}
use linear_pi_orchestrator.RunStore.Cases.{
  open_cases, claim_cases, retry_cases, update_cases, finish_cases,
}
use linear_pi_orchestrator.RunStore.Ops.{
  Call, opens, claims, retries, updates, finishes, call, calls,
}
use linear_pi_orchestrator.RunStore.Tracked.{
  IsTracked, claimed-IsTracked, updated-IsTracked, job_of-IsTracked, keys-retried_jobs,
  retried_jobs-IsTracked,
}

pub record IsKeyed (key : String) (run : WorkflowRunRecord) : Type 0 where
  pub own_id : run.id ≡ key
  pub own_key : create_workflow_run_key run.identity ≡ key
  pub completed : is_some run.completed_at ≡ not (is_running run.status)
  pub job_ids : Distinct (Table.keys run.jobs)
  pub tracked : Entries (λ id s. IsTracked s) run.jobs

pub record Inv (records : Records) : Type 0 where
  pub distinct : Distinct (Table.keys records)
  pub keyed : Entries IsKeyed records

with_job-IsKeyed :
    (key : String) (run : WorkflowRunRecord) (id : String) (s : WorkflowJobState) (at : ℕ)
    → IsKeyed key run
    → IsTracked s
    → IsKeyed key (with_job run id s at)
with_job-IsKeyed key run id s at k t = record {
  own_id = k.own_id;
  own_key = k.own_key;
  completed = k.completed;
  job_ids = Table.set-Distinct run.jobs id s k.job_ids;
  tracked = Table.Entries-set (λ id s. IsTracked s) run.jobs id s k.tracked t;
}

-- Writing a well-kept record under its own id.
save-Inv :
    (records : Records) (key : String) (current next : WorkflowRunRecord)
    → Inv records
    → Table.get records key ≡ some current
    → IsKeyed key next
    → Inv (Table.set records current.id next)
save-Inv records key current next v found k =
    let own = (Table.Entries-get IsKeyed records key v.keyed found).own_id in
    record {
      distinct = Table.set-Distinct records current.id next v.distinct;
      keyed =
          Table.Entries-set IsKeyed records current.id next v.keyed
            (subst (λ j. IsKeyed j next) (sym own) k);
    }

open-Inv :
    (records : Records) (input : OpenInput) → Inv records → Inv (open_workflow_run records input).0
open-Inv records input v =
    open_cases records input (λ r. Inv r.0) (λ existing e. v)
      (λ e. record {
        distinct = Table.set-Distinct records _ (new_run input) v.distinct;
        keyed = Table.Entries-set IsKeyed records _ (new_run input) v.keyed (record {
          own_id = refl;
          own_key = refl;
          completed = refl;
          job_ids = tt;
          tracked = tt;
        });
      })

module _ (records : Records) (key : String) (v : Inv records) (current : WorkflowRunRecord)
    (found : Table.get records key ≡ some current) where
  kept : IsKeyed key current
  kept = Table.Entries-get IsKeyed records key v.keyed found

  write-Inv :
      (id : String) (s : WorkflowJobState) (at : ℕ)
      → IsTracked s
      → Inv (Table.set records current.id (with_job current id s at))
  write-Inv id s at t =
      save-Inv records key current _ v found (with_job-IsKeyed key current id s at kept t)

  retry-Inv :
      (wanted : Option (List String)) (at : ℕ)
      → Inv (Table.set records current.id (retried_run wanted current at))
  retry-Inv wanted at = save-Inv records key current _ v found (record {
    own_id = kept.own_id;
    own_key = kept.own_key;
    completed = refl;
    job_ids = subst Distinct (sym (keys-retried_jobs wanted current.jobs)) kept.job_ids;
    tracked = retried_jobs-IsTracked wanted current.jobs kept.tracked;
  })

  finish-Inv :
      (result : RunResult) (at : ℕ)
      → Inv (Table.set records current.id (finished_run result current at))
  finish-Inv result at = save-Inv records key current _ v found (record {
    own_id = kept.own_id;
    own_key = kept.own_key;
    completed = ground arith;
    job_ids = kept.job_ids;
    tracked = kept.tracked;
  })

  current-job : (id : String) → IsTracked (job_of current id)
  current-job id = job_of-IsTracked current id kept.tracked

-- Every call of the ledger keeps the invariant, whether it writes or is refused.
pub call-Inv : (records : Records) (c : Call) → Inv records → Inv (call records c)
unfolding call
call-Inv records (opens input) v = open-Inv records input v
call-Inv records (claims identity id c) v =
    claim_cases records identity (λ r. Inv r.0) id c v
      λ r e running free.
        write-Inv records _ v r e id _ c.at
          (claimed-IsTracked _ c free (current-job records _ v r e id))
call-Inv records (retries identity ids at) v =
    retry_cases records identity (λ r. Inv r.0) ids at v
      λ r e. retry-Inv records _ v r e (wanted_jobs ids) at
call-Inv records (updates identity id t) v =
    update_cases records identity (λ r. Inv r.0) id t v
      λ r e running free.
        write-Inv records _ v r e id _ t.at
          (updated-IsTracked _ t free (current-job records _ v r e id))
call-Inv records (finishes identity result at) v =
    finish_cases records identity (λ r. Inv r.0) result at v
      λ r e running. finish-Inv records _ v r e result at

calls-Inv : (records : Records) (cs : List Call) → Inv records → Inv (calls records cs)
unfolding calls
calls-Inv records [] v = v
calls-Inv records (c ∷ cs) v = calls-Inv (call records c) cs (call-Inv records c v)

-- After any sequence of calls on an empty ledger: keys are distinct, every record stands under the
-- key of its own identity, a completion time is recorded exactly when the run is over, its jobs
-- have distinct ids, and each job has its owner's claim in its trail, at most as many trail entries
-- as attempts, no owner once it is over, and a completion time exactly when it is over.
pub calls-empty-Inv : (cs : List Call) → Inv (calls [] cs)
calls-empty-Inv cs = calls-Inv [] cs (record { distinct = tt; keyed = tt })
