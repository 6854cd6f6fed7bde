-- ===== src/RunStore/States.antt =====
-- The state of one job of one run, and what each write of the ledger makes of it.
use linear_pi_orchestrator.Prelude.{
  ℕ, String, ◌&&◌, Option, none, some, ◌≡◌, ◌≢◌, arith, ◌==◌, eq_iff, if◌then◌else◌,
}
use linear_pi_orchestrator.Prelude.Table
use linear_pi_orchestrator.Domain.{WorkflowJobState, WorkflowRunRecord}
use linear_pi_orchestrator.RunStore.{Records, job_of, with_job}

abbrev pub run_state : String → Option WorkflowRunRecord → Option WorkflowJobState
run_state id none = none
run_state id (some run) = some (job_of run id)

-- The job's state in the run under this key; `none` if there is no such run.
unfoldable pub state_at : Records → String → String → Option WorkflowJobState
state_at records key id = run_state id (Table.get records key)

-- A run's record, written over with the same jobs, has the same states.
pub state_at-same_jobs :
    (records : Records) (key k id : String) (current next : WorkflowRunRecord)
    → Table.get records k ≡ some current
    → next.jobs ≡ current.jobs
    → state_at (Table.set records k next) key id ≡ state_at records key id
unfolding state_at
state_at-same_jobs records key k id current next found same =
    ground (arith, Table.get-set records k key next, eq_iff k key)

pub state_at-with_job :
    (records : Records) (key k id job_id : String) (current : WorkflowRunRecord)
    (s : WorkflowJobState) (at : ℕ)
    → Table.get records k ≡ some current
    → state_at (Table.set records k (with_job current job_id s at)) key id
      ≡ (if k == key && job_id == id then some s else state_at records key id)
unfolding state_at
state_at-with_job records key k id job_id current s at found = ground (
  arith,
  Table.get-set records k key (with_job current job_id s at),
  Table.get-set current.jobs job_id id s,
  eq_iff k key,
  eq_iff job_id id,
)

pub state_at-found :
    (records : Records) (key id : String) (run : WorkflowRunRecord)
    → Table.get records key ≡ some run
    → state_at records key id ≡ some (job_of run id)
unfolding state_at
state_at-found records key id run e = rw e

pub state_at-none :
    (records : Records) (key id : String)
    → Table.get records key ≡ none
    → state_at records key id ≡ none
unfolding state_at
state_at-none records key id e = rw e

pub state_at-other :
    (records : Records) (key k id : String) (next : WorkflowRunRecord)
    → k ≢ key
    → state_at (Table.set records k next) key id ≡ state_at records key id
unfolding state_at
state_at-other records key k id next other =
    ground (arith, Table.get-set records k key next, eq_iff k key)
