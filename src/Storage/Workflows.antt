-- ===== src/Storage/Workflows.antt =====
-- packages/storage-sqlite/src/index.ts: the workflow runs of the ledger. What claiming, updating and
-- retrying do to a job is said by RunStore.Job, where the two ledgers have the same text.
pub mod View
pub mod Seen
pub mod Refines
pub mod Groups
pub mod Exclusive
use linear_pi_orchestrator.Prelude.{
  ℕ, ◌+◌, String, Bool, true, false, not, ◌&&◌, ◌||◌, Option, none, some, List, [], ◌∷◌, ◌++◌, map,
  ◌==◌, if◌then◌else◌, get_or_else, truthy, flag, is_some, text_eq?, any, keep, leb, find,
}
use linear_pi_orchestrator.Prelude.Table
use linear_pi_orchestrator.Prelude.Table.{Table}
use linear_pi_orchestrator.Prelude.Texts.{append}
use linear_pi_orchestrator.Prelude.Results.{Result, ok, thrown}
use linear_pi_orchestrator.Domain.{
  Timestamp, RepositoryScope, WorkflowDefinition, AttemptEntry, uncertain, WorkflowJobState,
  WorkflowRunIdentity, WorkflowRunRecord, WorkflowJobTransition, RunResult,
}
use linear_pi_orchestrator.Domain.Key.{create_workflow_run_key}
use linear_pi_orchestrator.RunStore.Job.{
  Claim, unclaimable, claimed_job, wanted_jobs, retried_jobs, fenced_off, updated_job,
}
use linear_pi_orchestrator.RunStore.{
  Records, OpenInput, new_run, with_job, job_of, is_running, same_repository, retried_run,
  finished_run,
}
use linear_pi_orchestrator.RunStore.Ops.{Call, opens, claims, retries, updates, finishes}

pub data ProjectionType : Type 0 where
  opened finished job_updated snapshot : ProjectionType

-- A row of the outbox, from which the global index is brought up to date.
pub record Projection : Type 0 where
  pub run : WorkflowRunRecord
  pub kind : ProjectionType
  pub job_id : Option String
  pub created_at : Timestamp

pub record Ledger : Type 0 where
  pub workflows : Records
  pub outbox : List Projection

abbrev projection_type :
    Option WorkflowRunRecord → WorkflowRunRecord → Option String → ProjectionType
projection_type none run job = opened
projection_type (some previous) run job =
    if not (is_running run.status) then finished else if truthy job then job_updated else snapshot

abbrev revision_of : Option WorkflowRunRecord → ℕ
revision_of none = 0
revision_of (some previous) = get_or_else previous.revision 0

abbrev pub revised : Option WorkflowRunRecord → WorkflowRunRecord → WorkflowRunRecord
revised previous run = record run { revision = some (revision_of previous + 1) }

-- Whether a run holds a concurrency group of a repository.
abbrev pub holds_group : RepositoryScope → Option String → WorkflowRunRecord → Bool
holds_group repository group run =
    same_repository run.identity.repository repository
    && text_eq? run.concurrency_group group
    && is_running run.status

abbrev pub is_occupied : Ledger → OpenInput → Bool
is_occupied ledger input =
    truthy input.concurrency_group
    && any (holds_group input.identity.repository input.concurrency_group)
        (Table.values ledger.workflows)

-- Unlike the ledger in memory, this one clears the error of a job whose write has none.
abbrev pub stored_update : WorkflowJobState → WorkflowJobTransition → WorkflowJobState
stored_update old t = record (updated_job old t) { error = t.error }

abbrev pub stored_claim : WorkflowJobState → Claim → WorkflowJobState
stored_claim old claim = record (claimed_job old claim) { status = old.status }

abbrev pub uncertain_entry : WorkflowJobState → String → Timestamp → AttemptEntry → AttemptEntry
uncertain_entry old attempt_id at entry =
    if entry.attempt_id == attempt_id
    then record entry { status = some old.status; completed_at = some at; outcome = some uncertain }
    else entry

abbrev attention_job : WorkflowJobState → String → Timestamp → String → WorkflowJobState
attention_job old attempt_id at message = record old {
  needs_attention = some true;
  message = some message;
  retry_at = none;
  attempt_history =
      some (map (uncertain_entry old attempt_id at) (get_or_else old.attempt_history []));
}

-- The job of a run, where it is owned by an attempt.
abbrev owned_job : WorkflowRunRecord → String → String → Option WorkflowJobState
owned_job run job_id attempt_id = elim (Table.get run.jobs job_id) [
  | none ↦ none
  | some job ↦ if text_eq? job.attempt_id (some attempt_id) then some job else none
]

-- `job_text` is the JSON text of a job.
module _ (job_text : WorkflowJobState → String) where
  abbrev text_of : Option WorkflowJobState → Option String
  text_of none = none
  text_of (some job) = some (job_text job)

  abbrev previous_job : Option WorkflowRunRecord → String → Option WorkflowJobState
  previous_job none id = none
  previous_job (some previous) id = Table.get previous.jobs id

  -- The first job of a run whose text differs from that of the run before.
  abbrev changed_job : Option WorkflowRunRecord → WorkflowRunRecord → Option String
  changed_job previous run =
      find
        (λ id.
          not (text_eq? (text_of (previous_job previous id)) (text_of (Table.get run.jobs id))))
        (Table.keys run.jobs)

  abbrev projected : Option WorkflowRunRecord → WorkflowRunRecord → Projection
  projected previous run = record {
    run = run;
    kind = projection_type previous run (changed_job previous run);
    job_id = changed_job previous run;
    created_at = run.updated_at;
  }

  -- A write gives the run its next revision, and queues it for the index in the same transaction.
  unfoldable pub save_workflow : Ledger → WorkflowRunRecord → Ledger
  unfolding Table.get Table.set
  save_workflow ledger run =
      let previous = Table.get ledger.workflows run.id in
      record {
        workflows = Table.set ledger.workflows run.id (revised previous run);
        outbox = ledger.outbox ++ projected previous (revised previous run) ∷ [];
      }

  abbrev saved : Ledger → WorkflowRunRecord → Ledger × Option WorkflowRunRecord
  saved ledger run =
      (save_workflow ledger run, some (revised (Table.get ledger.workflows run.id) run))

  unfoldable pub open_workflow_run : Ledger → OpenInput → Result (Ledger × WorkflowRunRecord)
  unfolding save_workflow
  open_workflow_run ledger input =
      elim (Table.get ledger.workflows (create_workflow_run_key input.identity)) [
        | some old ↦ ok (ledger, old)
        | none ↦
            if is_occupied ledger input
            then thrown (
                append "Workflow concurrency group '"
                  (append (get_or_else input.concurrency_group "") "' is already occupied."))
            else ok (
              save_workflow ledger (new_run input),
              revised (Table.get ledger.workflows (new_run input).id) (new_run input),
            )
      ]

  unfoldable pub claim_workflow_job :
      Ledger → WorkflowRunIdentity → String → Claim → Ledger × Option WorkflowRunRecord
  unfolding save_workflow
  claim_workflow_job ledger identity job_id claim =
      elim (Table.get ledger.workflows (create_workflow_run_key identity)) [
        | none ↦ (ledger, none)
        | some run ↦
            if not (is_running run.status) || unclaimable (job_of run job_id)
            then (ledger, none)
            else saved ledger
                (with_job run job_id (stored_claim (job_of run job_id) claim) claim.at)
      ]

  unfoldable pub update_workflow_job :
      Ledger
      → WorkflowRunIdentity
      → String
      → WorkflowJobTransition
      → Ledger × Option WorkflowRunRecord
  unfolding save_workflow
  update_workflow_job ledger identity job_id t =
      elim (Table.get ledger.workflows (create_workflow_run_key identity)) [
        | none ↦ (ledger, none)
        | some run ↦
            if not (is_running run.status) || fenced_off (job_of run job_id) t
            then (ledger, none)
            else saved ledger (with_job run job_id (stored_update (job_of run job_id) t) t.at)
      ]

  unfoldable pub finish_workflow_run :
      Ledger → WorkflowRunIdentity → RunResult → Timestamp → Ledger × Option WorkflowRunRecord
  unfolding save_workflow
  finish_workflow_run ledger identity status at =
      elim (Table.get ledger.workflows (create_workflow_run_key identity)) [
        | none ↦ (ledger, none)
        | some old ↦
            if not (is_running old.status)
            then (ledger, none)
            else saved ledger (finished_run status old at)
      ]

  unfoldable pub retry_workflow_jobs :
      Ledger
      → WorkflowRunIdentity
      → Option (List String)
      → Timestamp
      → Ledger × Option WorkflowRunRecord
  unfolding save_workflow retried_jobs
  retry_workflow_jobs ledger identity job_ids at =
      elim (Table.get ledger.workflows (create_workflow_run_key identity)) [
        | none ↦ (ledger, none)
        | some old ↦ saved ledger (retried_run (wanted_jobs job_ids) old at)
      ]

  -- The claim token stays, so that nothing replays the attempt by itself.
  unfoldable pub mark_workflow_job_needs_attention :
      Ledger
      → WorkflowRunIdentity
      → String
      → String
      → Timestamp
      → String
      → Ledger × Option WorkflowRunRecord
  unfolding save_workflow
  mark_workflow_job_needs_attention ledger identity job_id attempt_id at message =
      elim (Table.get ledger.workflows (create_workflow_run_key identity)) [
        | none ↦ (ledger, none)
        | some run ↦ elim (owned_job run job_id attempt_id) [
          | none ↦ (ledger, none)
          | some old ↦
              saved ledger (with_job run job_id (attention_job old attempt_id at message) at)
        ]
      ]

  unfoldable pub renew_workflow_job_lease :
      Ledger
      → WorkflowRunIdentity
      → String
      → String
      → Timestamp
      → Timestamp
      → Ledger × Option WorkflowRunRecord
  unfolding save_workflow
  renew_workflow_job_lease ledger identity job_id attempt_id lease_expires_at at =
      elim (Table.get ledger.workflows (create_workflow_run_key identity)) [
        | none ↦ (ledger, none)
        | some run ↦ elim (owned_job run job_id attempt_id) [
          | none ↦ (ledger, none)
          | some job ↦
              if flag job.needs_attention || not (is_running run.status)
              then (ledger, none)
              else saved ledger
                  (with_job run job_id (record job { lease_expires_at = some lease_expires_at }) at)
        ]
      ]

  -- A transaction that throws is rolled back.
  abbrev kept_or : Ledger → Result (Ledger × WorkflowRunRecord) → Ledger
  kept_or ledger (thrown message) = ledger
  kept_or ledger (ok (ledger', run)) = ledger'

  unfoldable pub stored_call : Ledger → Call → Ledger
  unfolding open_workflow_run claim_workflow_job update_workflow_job finish_workflow_run
      retry_workflow_jobs
  stored_call ledger (opens input) = kept_or ledger (open_workflow_run ledger input)
  stored_call ledger (claims identity job_id claim) =
      (claim_workflow_job ledger identity job_id claim).0
  stored_call ledger (retries identity job_ids at) =
      (retry_workflow_jobs ledger identity job_ids at).0
  stored_call ledger (updates identity job_id t) = (update_workflow_job ledger identity job_id t).0
  stored_call ledger (finishes identity result at) =
      (finish_workflow_run ledger identity result at).0

  unfoldable pub stored_calls : Ledger → List Call → Ledger
  unfolding stored_call
  stored_calls ledger [] = ledger
  stored_calls ledger (c ∷ cs) = stored_calls (stored_call ledger c) cs
