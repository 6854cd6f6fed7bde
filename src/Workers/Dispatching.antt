-- ===== src/Workers/Dispatching.antt =====
-- packages/application/src/manage-workers.ts: a dispatch is a sequence of steps of the ledger of runs.
use linear_pi_orchestrator.Prelude.{
  ℕ, ◌≤◌, String, Bool, true, some, ◌≡◌, refl, sym, ap, subst, arith, Bool-cases, inl, inr, Option,
  none, Option-cases, ◌∙◌,
}
use linear_pi_orchestrator.Prelude.Table
use linear_pi_orchestrator.Prelude.Results.{Result, ok, thrown}
use linear_pi_orchestrator.Domain.{WorkItem, RunStatus, RunIdentity, is_active_run}
use linear_pi_orchestrator.Domain.Key.{create_run_key}
use linear_pi_orchestrator.Domain.Runs.{TriggerDefinition, RunRecord, Workspace, WorkerHandle}
use linear_pi_orchestrator.Storage.Runs.{Runs, claim, claimed_run, update, same_trigger}
use linear_pi_orchestrator.Storage.Runs.Limit.{claim-granted}
use linear_pi_orchestrator.Storage.Runs.Steps.{Steps, start, Steps-then, one, claims, updates}
use linear_pi_orchestrator.Workers.{
  WorkerHost, normalise_concurrency, run_identity, launch_run, launched_run, provisioned_run,
  with_failure, with_worker, with_workspace, with_status, failed_run, fail_run, provisioning_run,
  dispatch, claim_of,
}
use linear_pi_orchestrator.Workers.Cases.{dispatch_cases}

module _ (host : WorkerHost) (who : RunIdentity) (n : ℕ) where
  -- What others write is steps of the ledger too, and while the host works on a run it leaves what is
  -- under `key` alone.
  unfoldable pub IsBeside : String → Type 0
  IsBeside key =
      ((runs : Runs) → Steps who n runs (host.before_claim runs))
      × ((run : RunRecord) (runs : Runs)
          → Steps who n runs (host.meanwhile run runs)
            × (Table.get (host.meanwhile run runs) key ≡ Table.get runs key))

  module _ (key : String) (beside : IsBeside key) where
    -- The ledger holds the run under the key, and it is active.
    abbrev IsStored : Runs → RunRecord → Type 0
    IsStored runs run =
        (Table.get runs key ≡ some run) × (run.id ≡ key) × (is_active_run run.status ≡ true)

    -- A stored run is written back, with another status.
    written :
        (runs : Runs) (old new : RunRecord)
        → IsStored runs old
        → new.id ≡ old.id
        → new.identity ≡ old.identity
        → Steps who n runs (update runs new)
    written runs old new (found, own, active) id identity = one (
        updates new old (subst (λ k. Table.get runs k ≡ some old) (sym (id ∙ own)) found) identity
          λ alive. active)

    stored :
        (runs : Runs) (old new : RunRecord)
        → IsStored runs old
        → new.id ≡ old.id
        → is_active_run new.status ≡ true
        → IsStored (update runs new) new
    unfolding update
    stored runs old new (found, own, active) id alive = (
      subst (λ k. Table.get (Table.set runs new.id new) k ≡ some new) (id ∙ own)
          (Table.get-set_self runs new.id new),
      id ∙ own,
      alive,
    )

    waited : (run : RunRecord) (runs : Runs) → Steps who n runs (host.meanwhile run runs)
    unfolding IsBeside
    waited run runs = (beside.1 run runs).0

    unmoved :
        (run old : RunRecord) (runs : Runs)
        → IsStored runs old
        → IsStored (host.meanwhile run runs) old
    unfolding IsBeside
    unmoved run old runs (found, own, alive) = ((beside.1 run runs).1 ∙ found, own, alive)

    failed-Steps :
        (runs : Runs) (run : RunRecord) (message : String) (error : Option String)
        → IsStored runs run
        → Steps who n runs (failed_run host runs (with_failure host message run) error).0
    failed-Steps runs run message none here =
        written runs run (with_failure host message run) here refl refl
    failed-Steps runs run message (some error) here = start

    fail-Steps :
        (runs : Runs) (run : RunRecord) (message : String)
        → IsStored runs run
        → Steps who n runs (fail_run host runs run message).0
    fail-Steps runs run message here =
        failed-Steps runs run message (host.write_error (with_failure host message run)) here

    -- A run that could not be written with its new fields fails with them.
    fail_changed-Steps :
        (runs : Runs) (old new : RunRecord) (message : String)
        → IsStored runs old
        → new.id ≡ old.id
        → new.identity ≡ old.identity
        → Steps who n runs (fail_run host runs new message).0
    fail_changed-Steps runs old new message here id identity =
        let final = with_failure host message new in
        elim (Option-cases (host.write_error final)) [
          | inl written_back ↦ rw written_back (written runs old final here id identity)
          | inr (error, refused) ↦ rw refused start
        ]

    launched-Steps :
        (runs : Runs) (run : RunRecord) (worker : Result WorkerHandle)
        → IsStored runs run
        → Steps who n runs (launched_run host runs run worker).0
    launched-Steps runs run (thrown message) here = fail-Steps runs run message here
    launched-Steps runs run (ok worker) here =
        let running = with_worker host worker run in
        elim (Option-cases (host.write_error running)) [
          | inl saved ↦ rw saved (written runs run running here refl refl)
          | inr (error, refused) ↦
              rw refused (fail_changed-Steps runs run running error here refl refl)
        ]

    provisioned-Steps :
        (runs : Runs) (run : RunRecord) (workspace : Result Workspace)
        → IsStored runs run
        → Steps who n runs (provisioned_run host runs run workspace).0
    unfolding is_active_run
    provisioned-Steps runs run (thrown message) here = fail-Steps runs run message here
    provisioned-Steps runs run (ok workspace) here =
        let launching = with_workspace host workspace run in
        let saved_runs = update runs launching in
        elim (Option-cases (host.write_error launching)) [
          | inl saved ↦ rw saved (
              Steps-then (written runs run launching here refl refl) (
                Steps-then (waited launching saved_runs) (
                  launched-Steps (host.meanwhile launching saved_runs) launching
                    (host.launch launching workspace)
                    (unmoved launching launching saved_runs
                      (stored runs run launching here refl refl)))))
          | inr (error, refused) ↦
              rw refused (fail_changed-Steps runs run launching error here refl refl)
        ]

    provisioning-Steps :
        (runs : Runs) (run : RunRecord)
        → IsStored runs run
        → (let provisioning = with_status host RunStatus.provisioning run in
            Steps who n runs
              (provisioning_run host runs provisioning (host.write_error provisioning)).0)
    unfolding is_active_run
    provisioning-Steps runs run here =
        let provisioning = with_status host RunStatus.provisioning run in
        let saved_runs = update runs provisioning in
        elim (Option-cases (host.write_error provisioning)) [
          | inl saved ↦ rw saved (
              Steps-then (written runs run provisioning here refl refl) (
                Steps-then (waited provisioning saved_runs) (
                  provisioned-Steps (host.meanwhile provisioning saved_runs) provisioning
                    (host.provision provisioning)
                    (unmoved provisioning provisioning saved_runs
                      (stored runs run provisioning here refl refl)))))
          | inr (error, refused) ↦
              rw refused (fail_changed-Steps runs run provisioning error here refl refl)
        ]

    launch_run-Steps :
        (runs : Runs) (run : RunRecord)
        → IsStored runs run
        → Steps who n runs (launch_run host runs run).0
    launch_run-Steps runs run here =
        let begun = host.meanwhile run runs in
        let there = unmoved run run runs here in
        Steps-then (waited run runs) (elim (Bool-cases (host.accepts_claim run)) [
          | inr rejected ↦ rw rejected (fail-Steps begun run _ there)
          | inl accepted ↦ rw accepted (provisioning-Steps begun run there)
        ])

  claimed-IsStored :
      (runs : Runs) (source_id : String) (trigger : TriggerDefinition) (item : WorkItem) (agent : _)
      (max : ℕ) (run : RunRecord)
      → (claim runs (claim_of host source_id trigger item agent max)).1 ≡ some run
      → (Table.get
            (claim runs (claim_of host source_id trigger item agent max)).0
            (create_run_key (run_identity source_id trigger item))
          ≡ some run)
        × (run.id ≡ create_run_key (run_identity source_id trigger item))
        × (is_active_run run.status ≡ true)
  unfolding is_active_run
  claimed-IsStored runs source_id trigger item agent max run granted =
      let c = claim_of host source_id trigger item agent max in
      let (inactive, room, same) = claim-granted runs c run granted in
      let own : claimed_run c ≡ run = ground (arith, ap (λ r. r.1) same, granted) in
      subst
        (λ (r : RunRecord).
          (Table.get (claim runs c).0 (create_run_key c.identity) ≡ some r)
          × (r.id ≡ create_run_key c.identity)
          × (is_active_run r.status ≡ true))
        own
        (rw same (Table.get-set_self runs (create_run_key c.identity) (claimed_run c), refl, refl))

  -- The claims of the trigger `who` are for at most `n`.
  abbrev pub IsBounded : String → TriggerDefinition → WorkItem → Type 0
  IsBounded source_id trigger item =
      same_trigger (run_identity source_id trigger item) who ≡ true
      → (max : ℕ) → normalise_concurrency trigger.max_concurrent ≡ ok max
      → max ≤ n

  pub dispatch-Steps :
      (runs : Runs) (source_id : String) (trigger : TriggerDefinition) (item : WorkItem)
      (sidecar : Bool)
      → IsBounded source_id trigger item
      → IsBeside (create_run_key (run_identity source_id trigger item))
      → Steps who n runs (dispatch host runs source_id trigger item sidecar).0
  unfolding IsBeside
  dispatch-Steps runs source_id trigger item sidecar bound beside =
      dispatch_cases host runs source_id trigger item (λ q. Steps who n runs q.0) (λ reason. start)
        (λ reason. beside.0 runs) (λ message. beside.0 runs)
        (λ agent max run normal granted.
          let c = claim_of host source_id trigger item agent max in
          let s = host.before_claim runs in
          Steps-then (beside.0 runs) (
            Steps-then (one (claims c λ own. bound own max normal)) (
              launch_run-Steps (create_run_key c.identity) beside (claim s c).0 run
                (claimed-IsStored s source_id trigger item agent max run granted))))
        sidecar
