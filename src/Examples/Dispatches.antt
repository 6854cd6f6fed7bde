-- ===== src/Examples/Dispatches.antt =====
-- The dispatch of workers, on small inputs.
use linear_pi_orchestrator.Prelude.{
  ℕ, ◌≤◌, ◌∙◌, ◌==◌, ap, String, Option, true, false, none, some, List, [], ◌∷◌, ◌≡◌, refl, arith,
}
use linear_pi_orchestrator.Prelude.Table
use linear_pi_orchestrator.Prelude.Results.{Result, ok, thrown, ok_inj}
use linear_pi_orchestrator.Domain.Status.{is_terminal_work_item}
use linear_pi_orchestrator.Domain.Key.{
  create_run_key, json_array, json_texts, json_text, escape, escape_char,
}
use linear_pi_orchestrator.Domain.Runs.{Workspace, WorkerHandle, RunClaim, RunRecord}
use linear_pi_orchestrator.Storage.Runs.{
  Runs, active_count_for, claim, claimed_run, find_active, update,
}
use linear_pi_orchestrator.Storage.Lookup.{find_runs_for_item}
use linear_pi_orchestrator.Workers.{
  WorkerHost, DispatchOutcome, skip, run_identity, dispatch, claim_of, normalise_concurrency,
}
use linear_pi_orchestrator.Workers.Dispatching.{IsBeside}
use linear_pi_orchestrator.Storage.Runs.Steps.{one, claims}
use linear_pi_orchestrator.Storage.Runs.Limit.{claim-granted, claim-refused}
use linear_pi_orchestrator.Domain.{WorkItem}
use linear_pi_orchestrator.Workers.Limited.{
  Operation, dispatches, stops_all, perform_all, active_count-perform_all,
}
use linear_pi_orchestrator.Examples.Data.{repository, item, worker_identity}
use linear_pi_orchestrator.Examples.Ledgers.{trigger, agent}

abbrev worker : WorkerHandle
worker = record { id = "w1"; started_at = 1500; metadata = none }

abbrev workspace : Workspace
workspace = record { path = "/work/relay-1"; branch = some "eng-1"; metadata = none }

abbrev able : WorkerHost
able = record {
  has_source = λ id. true;
  one_worker_per_item = true;
  is_stopping = false;
  resolve = λ profile item trigger. ok agent;
  accepts_claim = λ run. true;
  provision = λ run. ok workspace;
  launch = λ run place. ok worker;
  stop = some (λ worker run. ok tt);
  reconcile = none;
  clean = none;
  write_error = λ run. none;
  before_claim = λ runs. runs;
  meanwhile = λ run runs. runs;
  now = 1000;
}

-- Another ticket, which another process claims whenever a dispatch waits.
abbrev neighbour : WorkItem
neighbour = record item { id = "ENG-9" }

abbrev rival : RunClaim
rival = claim_of able "linear" trigger neighbour agent 2

abbrev busy : WorkerHost
unfolding claim
busy = record able {
  before_claim = λ runs. (claim runs rival).0;
  meanwhile = λ run runs. (claim runs rival).0;
}

-- A host with no room for another workspace.
abbrev full : WorkerHost
full = record busy { provision = λ run. thrown "disk full" }

-- The run is claimed, and fails for want of a workspace.
abbrev failed_dispatch : Runs × Result DispatchOutcome
failed_dispatch = dispatch full [] "linear" trigger item false

abbrev outcome_of : Result DispatchOutcome → DispatchOutcome
outcome_of (ok outcome) = outcome
outcome_of (thrown message) = skip message

abbrev failed_outcome : DispatchOutcome
failed_outcome = outcome_of failed_dispatch.1

reason_given : failed_outcome.reason ≡ some "disk full"
unfolding dispatch is_terminal_work_item find_active claim update find_runs_for_item
    active_count_for Table.get Table.set create_run_key json_array json_texts json_text escape
    escape_char
reason_given = refl

-- A worker is launched, a second dispatch finds it, and all are stopped.
abbrev operations : List (WorkerHost × Operation)
operations =
    (busy, dispatches "linear" trigger item false)
    ∷ (busy, dispatches "linear" trigger item false)
    ∷ (able, stops_all (repository ∷ []))
    ∷ []

at_most_two : (max : ℕ) → normalise_concurrency trigger.max_concurrent ≡ ok max → max ≤ 2
at_most_two max e = omega (arith, ok_inj e)

abbrev item_key : String
unfolding create_run_key
item_key = create_run_key (run_identity "linear" trigger item)

other_key : (create_run_key rival.identity == item_key) ≡ false
unfolding create_run_key json_array json_texts json_text escape escape_char
other_key = refl

rival_apart :
    (runs : Runs) (o : Option RunRecord)
    → (claim runs rival).1 ≡ o
    → Table.get (claim runs rival).0 item_key ≡ Table.get runs item_key
rival_apart runs none e = ap (λ r. Table.get r item_key) (claim-refused runs rival e)
rival_apart runs (some run) e =
    let (inactive, room, same) = claim-granted runs rival run e in
    ap (λ r. Table.get r.0 item_key) same
    ∙ Table.get-set_ne runs (create_run_key rival.identity) item_key (claimed_run rival) other_key

beside : IsBeside busy worker_identity 2 (create_run_key (run_identity "linear" trigger item))
unfolding IsBeside claim busy create_run_key item_key
beside = (
  λ runs. one (claims rival λ own. omega arith),
  λ run runs. (one (claims rival λ own. omega arith), rival_apart runs _ refl),
)

active_count-perform_all_example : active_count_for (perform_all [] operations) worker_identity ≤ 2
active_count-perform_all_example = active_count-perform_all worker_identity 2 operations (
  ((λ own max e. at_most_two max e), beside),
  (((λ own max e. at_most_two max e), beside), (tt, tt)),
)
