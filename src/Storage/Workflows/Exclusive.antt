-- ===== src/Storage/Workflows/Exclusive.antt =====
-- packages/storage-sqlite/src/index.ts: what each call does about the groups of runs.
use linear_pi_orchestrator.Prelude.{
  String, true, not, ◌||◌, some, List, [], ◌∷◌, ◌≡◌, refl, sym, ◌∙◌, subst, arith, Bool-cases,
  Option-cases, inl, inr, All,
}
use linear_pi_orchestrator.Prelude.Table
use linear_pi_orchestrator.Prelude.Table.{Table}
use linear_pi_orchestrator.Domain.{
  WorkflowJobState, Timestamp, WorkflowRunIdentity, WorkflowRunRecord, WorkflowJobTransition,
  RunResult,
}
use linear_pi_orchestrator.Domain.Key.{create_workflow_run_key}
use linear_pi_orchestrator.RunStore.Job.{Claim, unclaimable, fenced_off}
use linear_pi_orchestrator.RunStore.{
  Records, OpenInput, is_running, job_of, new_run, with_job, finished_run,
}
use linear_pi_orchestrator.RunStore.Ops.{Call, opens, claims, retries, updates, finishes}
use linear_pi_orchestrator.Storage.Workflows
use linear_pi_orchestrator.Storage.Workflows.{
  Ledger, holds_group, is_occupied, save_workflow, revised, stored_claim, stored_update,
  stored_call, stored_calls,
}
use linear_pi_orchestrator.Storage.Workflows.Groups.{
  shares_group, Inv, Follows, written-IsExclusive, opened-IsExclusive, new_run-apart,
}

-- A retry sets a run back to running without a look at its group.
abbrev pub IsNoRetry : Call → Type 0
IsNoRetry (retries identity job_ids at) = ⊥
IsNoRetry call = Unit

none_there : (j : String) {r : WorkflowRunRecord} → Table.get [] j ≡ some r → ⊥
unfolding Table.get
none_there j e = absurd (cc)

module _ (job_text : WorkflowJobState → String) where
  -- A run that is found is written back.
  saved-Inv :
      (ledger : Ledger) (key : String) (old new : WorkflowRunRecord)
      → Inv ledger.workflows
      → Table.get ledger.workflows key ≡ some old
      → Follows old new
      → let next = save_workflow job_text ledger new in Inv next.workflows
  unfolding save_workflow
  saved-Inv ledger key old new inv found f =
      let own = Table.Entries-get (λ k r. r.id ≡ k) ledger.workflows key inv.keyed found in
      let here = subst (λ k. Table.get ledger.workflows k ≡ some old) (sym (f.id ∙ own)) found in
      let next = revised (Table.get ledger.workflows new.id) new in
      record {
        keyed = Table.Entries-set (λ k r. r.id ≡ k) ledger.workflows new.id next inv.keyed refl;
        exclusive =
            written-IsExclusive ledger.workflows new.id next inv old here
              (record { id = f.id; repository = f.repository; group = f.group; alive = f.alive });
      }

  claim-Inv :
      (ledger : Ledger) (identity : WorkflowRunIdentity) (id : String) (c : Claim)
      → Inv ledger.workflows
      → let (next, _) = Workflows.claim_workflow_job job_text ledger identity id c in
        Inv next.workflows
  unfolding Workflows.claim_workflow_job
  claim-Inv ledger identity id c inv =
      elim (Option-cases (Table.get ledger.workflows (create_workflow_run_key identity))) [
        | inl e ↦ rw (e, Workflows.claim_workflow_job) inv
        | inr (r, e) ↦ elim (Bool-cases (not (is_running r.status) || unclaimable (job_of r id))) [
          | inl b ↦ rw (e, Workflows.claim_workflow_job, b) inv
          | inr b ↦
              rw (e, Workflows.claim_workflow_job, b)
                (saved-Inv ledger _ r (with_job r id (stored_claim (job_of r id) c) c.at) inv e
                  (record { id = refl; repository = refl; group = refl; alive = λ a. a }))
        ]
      ]

  update-Inv :
      (ledger : Ledger) (identity : WorkflowRunIdentity) (id : String) (t : WorkflowJobTransition)
      → Inv ledger.workflows
      → let (next, _) = Workflows.update_workflow_job job_text ledger identity id t in
        Inv next.workflows
  unfolding Workflows.update_workflow_job
  update-Inv ledger identity id t inv =
      elim (Option-cases (Table.get ledger.workflows (create_workflow_run_key identity))) [
        | inl e ↦ rw (e, Workflows.update_workflow_job) inv
        | inr (r, e) ↦ elim (Bool-cases (not (is_running r.status) || fenced_off (job_of r id) t)) [
          | inl b ↦ rw (e, Workflows.update_workflow_job, b) inv
          | inr b ↦
              rw (e, Workflows.update_workflow_job, b)
                (saved-Inv ledger _ r (with_job r id (stored_update (job_of r id) t) t.at) inv e
                  (record { id = refl; repository = refl; group = refl; alive = λ a. a }))
        ]
      ]

  finish-Inv :
      (ledger : Ledger) (identity : WorkflowRunIdentity) (result : RunResult) (at : Timestamp)
      → Inv ledger.workflows
      → let (next, _) = Workflows.finish_workflow_run job_text ledger identity result at in
        Inv next.workflows
  unfolding Workflows.finish_workflow_run
  finish-Inv ledger identity result at inv =
      elim (Option-cases (Table.get ledger.workflows (create_workflow_run_key identity))) [
        | inl e ↦ rw (e, Workflows.finish_workflow_run) inv
        | inr (r, e) ↦ elim (Bool-cases (not (is_running r.status))) [
          | inl b ↦ rw (e, Workflows.finish_workflow_run, b) inv
          | inr b ↦
              rw (e, Workflows.finish_workflow_run, b)
                (saved-Inv ledger _ r (finished_run result r at) inv e (record {
                  id = refl;
                  repository = refl;
                  group = refl;
                  alive = λ a. ground (arith, b);
                }))
        ]
      ]

  open-Inv :
      (ledger : Ledger) (input : OpenInput)
      → Inv ledger.workflows
      → let next = stored_call job_text ledger (opens input) in Inv next.workflows
  unfolding stored_call Workflows.open_workflow_run save_workflow
  open-Inv ledger input inv =
      elim (Option-cases (Table.get ledger.workflows (create_workflow_run_key input.identity))) [
        | inr (r, e) ↦ rw (e, Workflows.open_workflow_run) inv
        | inl e ↦ elim (Bool-cases (is_occupied ledger input)) [
          | inl b ↦ rw (e, Workflows.open_workflow_run, b) inv
          | inr b ↦
              let key = create_workflow_run_key input.identity in
              let next = revised (Table.get ledger.workflows key) (new_run input) in
              rw (e, Workflows.open_workflow_run, b)
                (record {
                  keyed =
                      Table.Entries-set (λ k r. r.id ≡ k) ledger.workflows key next inv.keyed refl;
                  exclusive =
                      opened-IsExclusive ledger.workflows key next inv
                        (new_run-apart ledger input next.revision b);
                })
        ]
      ]

  stored_call-Inv :
      (ledger : Ledger) (c : Call)
      → IsNoRetry c
      → Inv ledger.workflows
      → let next = stored_call job_text ledger c in Inv next.workflows
  unfolding stored_call
  stored_call-Inv ledger (opens input) once inv = open-Inv ledger input inv
  stored_call-Inv ledger (claims identity id c) once inv = claim-Inv ledger identity id c inv
  stored_call-Inv ledger (retries identity ids at) once inv = absurd once
  stored_call-Inv ledger (updates identity id t) once inv = update-Inv ledger identity id t inv
  stored_call-Inv ledger (finishes identity result at) once inv =
      finish-Inv ledger identity result at inv

  stored_calls-Inv :
      (ledger : Ledger) (cs : List Call)
      → All IsNoRetry cs
      → Inv ledger.workflows
      → let next = stored_calls job_text ledger cs in Inv next.workflows
  unfolding stored_calls
  stored_calls-Inv ledger [] once inv = inv
  stored_calls-Inv ledger (c ∷ cs) once inv =
      stored_calls-Inv (stored_call job_text ledger c) cs once.1
        (stored_call-Inv ledger c once.0 inv)

  -- The runs that the calls leave in an empty ledger.
  unfoldable pub runs_after : List Call → Records
  unfolding stored_calls
  runs_after cs =
      let ledger = stored_calls job_text (record { workflows = []; outbox = [] }) cs in
      ledger.workflows

  -- After any sequence of openings, claims, updates and finishes on an empty SQLite ledger, two runs
  -- that are running in one named group of one repository are the same run. Retries are left out, since
  -- they set a run back to running whoever holds its group.
  pub stored_calls-excludes :
      (cs : List Call) (j k : String) (r s : WorkflowRunRecord)
      → All IsNoRetry cs
      → Table.get (runs_after cs) j ≡ some r
      → Table.get (runs_after cs) k ≡ some s
      → shares_group r s ≡ true
      → j ≡ k
  unfolding runs_after
  stored_calls-excludes cs j k r s once at_j at_k shared =
      let inv =
        stored_calls-Inv (record { workflows = []; outbox = [] }) cs once
          (record {
            keyed = tt;
            exclusive = λ j k r s at_j at_k shared. absurd (none_there j at_j);
          }) in
      inv.exclusive j k r s at_j at_k shared
