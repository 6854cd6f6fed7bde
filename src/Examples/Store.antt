-- ===== src/Examples/Store.antt =====
-- The ledger's theorems at concrete inputs.
use linear_pi_orchestrator.Prelude.{
  String, true, false, Option, none, some, List, [], ◌∷◌, ◌++◌, ◌+◌, ◌≡◌, ◌≢◌, refl, arith, inl, ap,
  eq_iff, ◌==◌, is_some, get_or_else,
}
use linear_pi_orchestrator.Prelude.Table
use linear_pi_orchestrator.Domain.{WorkflowJobStatus, RunResult, WorkflowRunRecord}
use linear_pi_orchestrator.Domain.Status.{pending_state}
use linear_pi_orchestrator.Domain.Key.{
  json_array, json_texts, json_text, escape, escape_char, create_workflow_run_key,
}
use linear_pi_orchestrator.Domain.Key.Injective.{
  create_workflow_run_key_injective, create_run_key_injective,
}
use linear_pi_orchestrator.RunStore.Job.{claim_entry, claimed_job}
use linear_pi_orchestrator.RunStore.{
  Records, claim_workflow_job, update_workflow_job, retry_workflow_jobs, find_workflow_run,
  open_workflow_run, latest_workflow_run, job_of, new_run,
}
use linear_pi_orchestrator.RunStore.Ops.{Call, opens, claims, updates, finishes, call, calls}
use linear_pi_orchestrator.RunStore.Keyed.{Inv, calls-empty-Inv}
use linear_pi_orchestrator.RunStore.Tracked.{history_of}
use linear_pi_orchestrator.RunStore.States.{state_at}
use linear_pi_orchestrator.RunStore.Settled.{terminal-calls}
use linear_pi_orchestrator.RunStore.Ownership.{claim_exclusive, update_fenced}
use linear_pi_orchestrator.RunStore.Isolation.{call-isolates, open_once}
use linear_pi_orchestrator.RunStore.Latest.{IsLatest, latest_workflow_run-IsLatest}
use linear_pi_orchestrator.RunStore.Retry.{retry-claim}
use linear_pi_orchestrator.Examples.Data.{
  identity, identity_of, other_identity, worker_identity, input, claim_as, settle_as, planned,
}

texts_apart : (s t : String) → (s == t) ≡ false → s ≢ t
texts_apart s t b e = absurd (ground (arith, eq_iff s t))

tokens_apart : (s t : String) → (s == t) ≡ false → ◌≢◌ {A = Option String} (some s) (some t)
tokens_apart s t b e = absurd (ground (arith, eq_iff s t))

-- The key of the first run, as `JSON.stringify` writes it.
key_text :
    create_workflow_run_key identity
    ≡ "[\"relay\",\"/work/relay\",\"ship\",\"linear\",\"ENG-1\",\"run-1\"]"
unfolding create_workflow_run_key json_array json_texts json_text escape escape_char
key_text = refl

abbrev opened : Records
opened = calls [] (opens input ∷ [])

abbrev claimed : List Call
claimed = opens input ∷ claims identity "plan" (claim_as "a1") ∷ []

abbrev done_plan : Records
done_plan = calls [] planned

-- The run as it stands once `plan` has succeeded.
abbrev planned_run : WorkflowRunRecord
unfolding calls call open_workflow_run claim_workflow_job update_workflow_job Table.get Table.set
planned_run = get_or_else (Table.get done_plan (create_workflow_run_key identity)) (new_run input)

found_planned : Table.get done_plan (create_workflow_run_key identity) ≡ some planned_run
unfolding calls call open_workflow_run claim_workflow_job update_workflow_job Table.get Table.set
    create_workflow_run_key json_array json_texts json_text escape escape_char
found_planned = refl

claimed_plan : is_some (claim_workflow_job opened identity "plan" (claim_as "a1")).1 ≡ true
unfolding calls call open_workflow_run claim_workflow_job Table.get Table.set
    create_workflow_run_key json_array json_texts json_text escape escape_char
claimed_plan = refl

calls-empty-Inv_example : Inv (calls [] planned)
calls-empty-Inv_example = calls-empty-Inv planned

claim_exclusive_example :
    (claim_workflow_job
      (calls
        (claim_workflow_job opened identity "plan" (claim_as "a1")).0
        (updates identity "plan" (settle_as WorkflowJobStatus.failed (some "a2")) ∷ []))
      identity
      "plan"
      (claim_as "a3")).1
    ≡ none
unfolding calls call open_workflow_run claim_workflow_job Table.get Table.set
    create_workflow_run_key json_array json_texts json_text escape escape_char
claim_exclusive_example =
    claim_exclusive opened identity "plan" (claim_as "a1") (claim_as "a3")
      (updates identity "plan" (settle_as WorkflowJobStatus.failed (some "a2")) ∷ [])
      {run = get_or_else (claim_workflow_job opened identity "plan" (claim_as "a1")).1
        (new_run input)}
      (calls-empty-Inv (opens input ∷ [])) refl refl ((λ e f. tokens_apart "a2" "a1" refl), tt)

update_fenced_example :
    update_workflow_job
      (calls [] claimed)
      identity
      "plan"
      (settle_as WorkflowJobStatus.failed (some "a2"))
    ≡ (calls [] claimed, none)
unfolding calls call open_workflow_run claim_workflow_job update_workflow_job Table.get Table.set
    create_workflow_run_key json_array json_texts json_text escape escape_char state_at
update_fenced_example =
    update_fenced (calls [] claimed) identity "plan" "a1"
      (claimed_job pending_state (claim_as "a1")) (settle_as WorkflowJobStatus.failed (some "a2"))
      refl refl (tokens_apart "a2" "a1" refl)

terminal-calls_example :
    state_at
      (calls done_plan (claims identity "build" (claim_as "a4") ∷ []))
      (create_workflow_run_key identity)
      "plan"
    ≡ some (job_of planned_run "plan")
unfolding calls call open_workflow_run claim_workflow_job update_workflow_job Table.get Table.set
    create_workflow_run_key json_array json_texts json_text escape escape_char state_at
terminal-calls_example =
    terminal-calls done_plan (claims identity "build" (claim_as "a4") ∷ [])
      (create_workflow_run_key identity) "plan" (job_of planned_run "plan")
      (calls-empty-Inv planned) (tt, tt) refl refl

call-isolates_example :
    find_workflow_run (call done_plan (finishes identity RunResult.succeeded 4000)) other_identity
    ≡ find_workflow_run done_plan other_identity
call-isolates_example =
    call-isolates done_plan (finishes identity RunResult.succeeded 4000) other_identity
      (calls-empty-Inv planned) λ e. texts_apart "run-1" "run-2" refl (ap (λ i. i.occurrence) e)

open_once_example :
    let (records', run) = open_workflow_run [] input in
    (find_workflow_run records' identity ≡ some run)
    × (open_workflow_run records' (record input { started_at = 9000 }) ≡ (records', run))
open_once_example = open_once [] input (record input { started_at = 9000 }) refl

latest_workflow_run-IsLatest_example :
    IsLatest done_plan identity (latest_workflow_run done_plan identity)
latest_workflow_run-IsLatest_example = latest_workflow_run-IsLatest done_plan identity

retry-claim_example :
    (run : WorkflowRunRecord) × ((claim_workflow_job
        (retry_workflow_jobs done_plan identity none 5000).0
        identity
        "plan"
        (claim_as "a5")).1
      ≡ some run)
    × ((job_of run "plan").attempts ≡ (job_of planned_run "plan").attempts + 1)
    × (history_of (job_of run "plan")
        ≡ history_of (job_of planned_run "plan") ++ claim_entry (claim_as "a5") ∷ [])
unfolding calls call open_workflow_run claim_workflow_job update_workflow_job Table.get Table.set
    create_workflow_run_key json_array json_texts json_text escape escape_char
retry-claim_example =
    retry-claim done_plan identity "plan" (claim_as "a5") 5000 planned_run (calls-empty-Inv planned)
      found_planned (inl refl)

create_workflow_run_key_injective_example : identity ≡ identity_of "run-1"
create_workflow_run_key_injective_example =
    create_workflow_run_key_injective identity (identity_of "run-1") refl

create_run_key_injective_example : worker_identity ≡ worker_identity
create_run_key_injective_example = create_run_key_injective worker_identity worker_identity refl
