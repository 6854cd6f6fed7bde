-- ===== src/Workers/Cases.antt =====
-- packages/application/src/manage-workers.ts: the ways that a dispatch ends.
use linear_pi_orchestrator.Prelude.{
  ℕ, String, Bool, not, ◌||◌, ◌==◌, Option, none, some, ◌≡◌, refl, sym, subst, if◌then◌else◌,
  Bool-cases, inl, inr,
}
use linear_pi_orchestrator.Prelude.Results.{Result, ok, thrown}
use linear_pi_orchestrator.Domain.{WorkItem}
use linear_pi_orchestrator.Domain.Status.{is_terminal_work_item}
use linear_pi_orchestrator.Domain.Runs.{AgentResolution, TriggerDefinition, RunRecord}
use linear_pi_orchestrator.Storage.Runs.{Runs, claim, find_active}
use linear_pi_orchestrator.Storage.Runs.Limit.{claim-refused}
use linear_pi_orchestrator.Workers.{
  WorkerHost, DispatchOutcome, skip, normalise_concurrency, run_identity, launch_claim, launch_run,
  claim_of, claim_within, dispatch, dispatch_as, dispatch_beside, dispatch_new,
  active_worker_for_item,
}

-- `P` holds of what a dispatch returns if it holds when the item is skipped, before the agent is
-- resolved or later, when the limit is not valid, and after each claim.
module _ {ℓ} (host : WorkerHost) (runs : Runs) (source_id : String) (trigger : TriggerDefinition)
    (item : WorkItem) (P : Runs × Result DispatchOutcome → Type ℓ)
    (skipped : (reason : String) → P (runs, ok (skip reason)))
    (skipped_late : (reason : String) → P (host.before_claim runs, ok (skip reason)))
    (refused : (message : String) → P (host.before_claim runs, thrown message))
    (claimed : (agent : AgentResolution) (n : ℕ) (run : RunRecord)
      → normalise_concurrency trigger.max_concurrent ≡ ok n
      → (claim (host.before_claim runs) (claim_of host source_id trigger item agent n)).1 ≡ some run
      → P (
          launch_run host
            (claim (host.before_claim runs) (claim_of host source_id trigger item agent n)).0
            run)) where
  launched_cases :
      (s : Runs) (o : Option RunRecord)
      → (o ≡ none → s ≡ host.before_claim runs)
      → ((run : RunRecord) → o ≡ some run → P (launch_run host s run))
      → P (launch_claim host (s, o))
  launched_cases s none same launched =
      let reason : String = "Another relay claimed the ticket or the worker limit was reached." in
      subst (λ r. P (r, ok (skip reason))) (sym (same refl)) (skipped_late reason)
  launched_cases s (some run) same launched = launched run refl

  within_cases :
      (agent : AgentResolution) (limit : Result ℕ)
      → normalise_concurrency trigger.max_concurrent ≡ limit
      → P (claim_within host (host.before_claim runs) source_id trigger item agent limit)
  within_cases agent (thrown message) normal = refused message
  within_cases agent (ok n) normal =
      let c = claim_of host source_id trigger item agent n in
      launched_cases (claim (host.before_claim runs) c).0 (claim (host.before_claim runs) c).1
        (λ none_left. claim-refused (host.before_claim runs) c none_left)
        (λ run granted. claimed agent n run normal granted)

  as_cases :
      (agent : Result AgentResolution)
      → P (dispatch_as host (host.before_claim runs) source_id trigger item agent)
  as_cases (thrown message) = skipped_late _
  as_cases (ok agent) = within_cases agent (normalise_concurrency trigger.max_concurrent) refl

  beside_cases :
      (sibling : Option RunRecord) → P (dispatch_beside host runs source_id trigger item sibling)
  beside_cases (some sibling) = skipped _
  beside_cases none = as_cases (host.resolve trigger.agent item trigger)

  new_cases :
      (sidecar : Bool) (active : Option RunRecord)
      → P (dispatch_new host runs source_id trigger item sidecar active)
  new_cases sidecar (some run) = skipped _
  new_cases sidecar none =
      beside_cases
        (if sidecar then none else active_worker_for_item host runs trigger source_id item.id)

  pub dispatch_cases : (sidecar : Bool) → P (dispatch host runs source_id trigger item sidecar)
  unfolding dispatch
  dispatch_cases sidecar = elim (Bool-cases (host.is_stopping || is_terminal_work_item item)) [
    | inl over ↦ rw over (skipped _)
    | inr open_yet ↦ elim (Bool-cases (not (item.source_id == source_id))) [
      | inl other ↦ rw (open_yet, other) (skipped _)
      | inr own ↦
          rw (open_yet, own)
            (new_cases sidecar (find_active runs (run_identity source_id trigger item)))
    ]
  ]
