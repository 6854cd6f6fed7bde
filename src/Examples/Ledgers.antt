-- ===== src/Examples/Ledgers.antt =====
-- The SQLite ledger, on small inputs.
use linear_pi_orchestrator.Prelude.{
  get_or_else, ℕ, ◌+◌, ◌≤◌, String, true, Option, none, some, List, [], ◌∷◌, ◌≡◌, ◌≢◌, refl, arith,
  inl,
}
use linear_pi_orchestrator.Prelude.Table
use linear_pi_orchestrator.Prelude.Table.{Table}
use linear_pi_orchestrator.Prelude.Results.{ok}
use linear_pi_orchestrator.Domain.JsonValue.{Json}
use linear_pi_orchestrator.Domain.{Timestamp, WorkflowRunRecord, WorkflowJobState}
use linear_pi_orchestrator.Domain.Key.{
  create_run_key, create_workflow_run_key, json_array, json_texts, json_text, escape, escape_char,
}
use linear_pi_orchestrator.Domain.Runs.{
  AgentResolution, TriggerDefinition, RunClaim, RunTerminalTransition, TerminalStatus,
  WorkerChildHandle,
}
use linear_pi_orchestrator.RunStore.{new_run}
use linear_pi_orchestrator.RunStore.Ops.{Call, calls, opens}
use linear_pi_orchestrator.Storage.Runs.{
  Runs, claim, claimed_run, find_active, active_count_for, finish_active, mark_workspace_cleaned,
  record_worker_child, record_worker_outputs,
}
use linear_pi_orchestrator.Storage.Runs.Limit.{claim_within_limit}
use linear_pi_orchestrator.Storage.Runs.Steps.{Step, Steps, start, later}
use linear_pi_orchestrator.Storage.Runs.Active.{active_count-le}
use linear_pi_orchestrator.Storage.Runs.Generations.{claim-fences}
use linear_pi_orchestrator.Storage.Actions.{
  Actions, ActionExecutionRecord, ActionExecutionClaimInput, ActionExecutionTransition, FinalStatus,
  claimed_action, finished_action, claim_action_execution,
}
use linear_pi_orchestrator.Storage.Actions.Calls
use linear_pi_orchestrator.Storage.Actions.Once.{succeeded_once}
use linear_pi_orchestrator.Storage.Actions.Calls.{ActionCall}
use linear_pi_orchestrator.Storage.Workflows.{Ledger, stored_calls}
use linear_pi_orchestrator.Storage.Workflows.Exclusive.{runs_after, stored_calls-excludes}
use linear_pi_orchestrator.Storage.Workflows.View.{view_all}
use linear_pi_orchestrator.Storage.Workflows.Refines.{stored_calls-Refines}
use linear_pi_orchestrator.Examples.Data.{
  repository, item, worker_identity, identity, other_identity, input, planned,
}

abbrev pub trigger : TriggerDefinition
trigger = record {
  id = "t";
  source_id = "linear";
  repository = repository;
  enabled = true;
  selector = none;
  max_concurrent = some 2;
  agent = none;
  metadata = none;
  actions = none;
  targets = none;
  fire_policy = none;
}

abbrev pub agent : AgentResolution
agent = record {
  requested_agent_id = none;
  requested_model = none;
  agent_id = "pi";
  model = none;
  metadata = none;
}

abbrev claim_at : Timestamp → RunClaim
claim_at at = record {
  id = "claim";
  identity = worker_identity;
  item = item;
  trigger = trigger;
  agent = agent;
  claimed_at = at;
  max_concurrent = 2;
}

claimed_first : (claim [] (claim_at 1000)).1 ≡ some (claimed_run (claim_at 1000))
unfolding claim active_count_for
claimed_first = refl

claim_within_limit_example :
    (find_active [] (claim_at 1000).identity ≡ none)
    × (find_active (claim [] (claim_at 1000)).0 (claim_at 1000).identity
        ≡ some (claimed_run (claim_at 1000)))
    × (active_count_for (claim [] (claim_at 1000)).0 (claim_at 1000).identity
        ≡ active_count_for [] (claim_at 1000).identity + 1)
    × (active_count_for (claim [] (claim_at 1000)).0 (claim_at 1000).identity
        ≤ (claim_at 1000).max_concurrent)
claim_within_limit_example =
    claim_within_limit [] (claim_at 1000) (claimed_run (claim_at 1000)) claimed_first

abbrev failure : RunTerminalTransition
failure = record { status = TerminalStatus.failed; completed_at = 2000; error = some "lost" }

-- A run is claimed, fails, and is claimed again.
abbrev again : Runs
again =
    (claim (finish_active (claim [] (claim_at 1000)).0 worker_identity 1000 failure).0
      (claim_at 3000)).0

Steps-again : Steps worker_identity 2 [] again
Steps-again =
    later
      (later (later start (Step.claims (claim_at 1000) (λ same. omega arith)))
        (Step.finishes worker_identity 1000 failure))
      (Step.claims (claim_at 3000) (λ same. omega arith))

active_count-le_example : active_count_for again worker_identity ≤ 2
active_count-le_example = active_count-le worker_identity 2 Steps-again

active_again : active_count_for again worker_identity ≡ 1
unfolding claim active_count_for finish_active create_run_key json_array json_texts json_text escape
    escape_char Table.get Table.set
active_again = refl

claim-fences_example :
    ((t : RunTerminalTransition)
      → finish_active (claim [] (claim_at 1000)).0 (claim_at 1000).identity 900 t
        ≡ ((claim [] (claim_at 1000)).0, none))
    × ((at : Timestamp)
        → mark_workspace_cleaned (claim [] (claim_at 1000)).0 (claim_at 1000).identity 900 at
          ≡ ((claim [] (claim_at 1000)).0, none))
    × ((child : WorkerChildHandle) (at : Timestamp)
        → record_worker_child (claim [] (claim_at 1000)).0 (claim_at 1000).identity 900 child at
          ≡ ((claim [] (claim_at 1000)).0, none))
    × ((outputs : Table Json) (at : Timestamp)
        → record_worker_outputs (claim [] (claim_at 1000)).0 (claim_at 1000).identity 900 outputs at
          ≡ ((claim [] (claim_at 1000)).0, none))
claim-fences_example =
    claim-fences [] (claim_at 1000) (claimed_run (claim_at 1000)) 900 claimed_first (ground arith)

abbrev comment_claim : String → ActionExecutionClaimInput
comment_claim attempt = record {
  idempotency_key = "comment:ENG-1";
  trigger_id = "t";
  action_id = "comment";
  source_id = "linear";
  item_id = "ENG-1";
  claimed_at = 1000;
  attempt_id = attempt;
  lease_expires_at = some 61000;
  input = none;
}

abbrev success : ActionExecutionTransition
success = record {
  status = FinalStatus.succeeded;
  completed_at = 2000;
  output = none;
  error = none;
}

abbrev commented : ActionExecutionRecord
commented = finished_action (claimed_action (comment_claim "a1")) success

abbrev executions : Actions
executions = ("comment:ENG-1", commented) ∷ []

abbrev later_calls : List ActionCall
later_calls = ActionCall.claims (comment_claim "a2") ∷ ActionCall.expires 90000 ∷ []

found_commented : Table.get executions "comment:ENG-1" ≡ some commented
unfolding Table.get
found_commented = refl

succeeded_once_example :
    (Table.get (Calls.calls executions later_calls) "comment:ENG-1" ≡ some commented)
    × ((m : Actions) (r : ActionExecutionRecord)
        → claim_action_execution (Calls.calls executions later_calls) (comment_claim "a3")
          ≢ ok (m, some r))
succeeded_once_example =
    succeeded_once executions "comment:ENG-1" commented later_calls (comment_claim "a3") (refl, tt)
      found_commented refl refl

-- A text that tells jobs apart by their messages.
abbrev text : WorkflowJobState → String
text job = get_or_else job.message ""

abbrev new_ledger : Ledger
new_ledger = record { workflows = []; outbox = [] }

stored_calls-Refines_example :
    view_all (stored_calls text new_ledger planned).workflows ≡ view_all (calls [] planned)
stored_calls-Refines_example =
    stored_calls-Refines text planned new_ledger [] refl (inl refl, (tt, (tt, tt)))

-- Both hold the one run, which the SQLite ledger has written three times.
abbrev revisions : Table WorkflowRunRecord → List (Option ℕ)
revisions [] = []
revisions ((id, run) ∷ records) = run.revision ∷ revisions records

written_thrice : revisions (stored_calls text new_ledger planned).workflows ≡ some 3 ∷ []
unfolding stored_calls create_workflow_run_key json_array json_texts json_text escape escape_char
    Table.get Table.set
written_thrice = refl

-- A second run of the group is refused.
abbrev two_opened : List Call
two_opened = opens input ∷ opens (record input { identity = other_identity }) ∷ []

abbrev first_run : WorkflowRunRecord
first_run = record (new_run input) { revision = some 1 }

first_found :
    Table.get (runs_after text two_opened) (create_workflow_run_key identity) ≡ some first_run
unfolding runs_after stored_calls create_workflow_run_key json_array json_texts json_text escape
    escape_char Table.get Table.set
first_found = refl

second_refused :
    Table.get (runs_after text two_opened) (create_workflow_run_key other_identity) ≡ none
unfolding runs_after stored_calls create_workflow_run_key json_array json_texts json_text escape
    escape_char Table.get Table.set
second_refused = refl

stored_calls-excludes_example : create_workflow_run_key identity ≡ create_workflow_run_key identity
stored_calls-excludes_example =
    stored_calls-excludes text two_opened (create_workflow_run_key identity)
      (create_workflow_run_key identity) first_run first_run (tt, (tt, tt)) first_found first_found
      refl
