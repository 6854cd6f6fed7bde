-- ===== src/Storage/Runs.antt =====
-- packages/storage-sqlite/src/index.ts: the runs of workers.
pub mod Limit
pub mod Steps
pub mod Active
pub mod Generations
use linear_pi_orchestrator.Prelude.{
  ℕ, String, Bool, true, false, not, ◌&&◌, ◌||◌, Option, none, some, List, [], ◌∷◌, ◌++◌, ◌==◌,
  if◌then◌else◌, get_or_else, truthy, is_some, ltb, leb, nat_eq, includes, is_empty, keep, length,
}
use linear_pi_orchestrator.Prelude.Table
use linear_pi_orchestrator.Prelude.Table.{Table}
use linear_pi_orchestrator.Prelude.Results.{Result, ok, thrown}
use linear_pi_orchestrator.Domain.JsonValue.{Json, Fields, object, close, field, fields_of}
use linear_pi_orchestrator.Domain.{
  Timestamp, RepositoryScope, RunStatus, RunIdentity, is_active_run,
}
use linear_pi_orchestrator.Domain.Key.{create_run_key}
use linear_pi_orchestrator.Domain.Runs.{
  RunRecord, RunClaim, RunTerminalTransition, WorkerHandle, WorkerChildHandle, run_status,
  with_child, with_metadata, worker_children,
}
use linear_pi_orchestrator.RunStore.{same_repository}

abbrev pub Runs : Type 0
Runs = Table RunRecord

abbrev pub save_run : Runs → RunRecord → Runs
save_run runs run = Table.set runs run.id run

unfoldable pub find_active : Runs → RunIdentity → Option RunRecord
unfolding is_active_run Table.get
find_active runs identity = elim (Table.get runs (create_run_key identity)) [
  | none ↦ none
  | some run ↦ if is_active_run run.status then some run else none
]

-- The runs of one trigger on one source of a repository.
abbrev pub same_trigger : RunIdentity → RunIdentity → Bool
same_trigger run identity =
    same_repository run.repository identity.repository
    && run.source_id == identity.source_id
    && run.trigger_id == identity.trigger_id

abbrev pub counts_for : RunIdentity → RunRecord → Bool
counts_for identity run = is_active_run run.status && same_trigger run.identity identity

unfoldable pub active_count_for : Runs → RunIdentity → ℕ
unfolding is_active_run
active_count_for runs identity = length (keep (counts_for identity) (Table.values runs))

abbrev pub claimed_run : RunClaim → RunRecord
claimed_run claim = record {
  id = create_run_key claim.identity;
  identity = claim.identity;
  item = claim.item;
  trigger = claim.trigger;
  agent = claim.agent;
  status = RunStatus.claimed;
  claimed_at = claim.claimed_at;
  updated_at = claim.claimed_at;
  workspace = none;
  worker = none;
  workspace_cleaned_at = none;
  completed_at = none;
  error = none;
}

abbrev pub is_active : Option RunRecord → Bool
is_active none = false
is_active (some run) = is_active_run run.status

unfoldable pub claim : Runs → RunClaim → Runs × Option RunRecord
unfolding is_active_run Table.get Table.set active_count_for
claim runs c =
    if is_active (Table.get runs (create_run_key c.identity))
    then (runs, none)
    else if leb c.max_concurrent (active_count_for runs c.identity)
    then (runs, none)
    else (save_run runs (claimed_run c), some (claimed_run c))

abbrev pub finished_record : RunRecord → RunTerminalTransition → RunRecord
finished_record old t = record old {
  status = run_status t.status;
  error = t.error;
  completed_at = some t.completed_at;
  updated_at = t.completed_at;
}

unfoldable pub finish_active :
    Runs → RunIdentity → Timestamp → RunTerminalTransition → Runs × Option RunRecord
unfolding is_active_run Table.get Table.set
finish_active runs identity claimed_at t = elim (Table.get runs (create_run_key identity)) [
  | none ↦ (runs, none)
  | some old ↦
      if not (is_active_run old.status) || not (nat_eq old.claimed_at claimed_at)
      then (runs, none)
      else (save_run runs (finished_record old t), some (finished_record old t))
]

abbrev pub saved : Runs → Option RunRecord → Runs × Option RunRecord
saved runs none = (runs, none)
saved runs (some next) = (save_run runs next, some next)

-- A change of the run of one generation, where it can be made.
unfoldable pub mutate :
    Runs → RunIdentity → Timestamp → (RunRecord → Option RunRecord) → Runs × Option RunRecord
unfolding Table.get Table.set
mutate runs identity claimed_at change = elim (Table.get runs (create_run_key identity)) [
  | none ↦ (runs, none)
  | some old ↦
      if not (nat_eq old.claimed_at claimed_at) then (runs, none) else saved runs (change old)
]

abbrev pub cleaned_record : Timestamp → RunRecord → Option RunRecord
cleaned_record at run = some (record run { workspace_cleaned_at = some at; updated_at = at })

unfoldable pub mark_workspace_cleaned :
    Runs → RunIdentity → Timestamp → Timestamp → Runs × Option RunRecord
unfolding mutate
mark_workspace_cleaned runs identity claimed_at at =
    mutate runs identity claimed_at (cleaned_record at)

abbrev with_worker : Timestamp → RunRecord → Option WorkerHandle → Option RunRecord
with_worker at run none = none
with_worker at run (some worker) = some (record run { worker = some worker; updated_at = at })

abbrev map_worker : (WorkerHandle → WorkerHandle) → Option WorkerHandle → Option WorkerHandle
map_worker f none = none
map_worker f (some worker) = some (f worker)

abbrev pub child_record : WorkerChildHandle → Timestamp → RunRecord → Option RunRecord
child_record child at run =
    with_worker at run (map_worker (λ worker. with_child worker child) run.worker)

unfoldable pub record_worker_child :
    Runs → RunIdentity → Timestamp → WorkerChildHandle → Timestamp → Runs × Option RunRecord
unfolding mutate worker_children
record_worker_child runs identity claimed_at child at =
    mutate runs identity claimed_at (child_record child at)

-- { ...before, ...outputs }, where `before` is an object.
abbrev table_of : Fields → Table Json
table_of close = []
table_of (field k v fields) = (k, v) ∷ table_of fields

abbrev before_of : Option Json → Table Json
before_of (some (object fields)) = table_of fields
before_of _ = []

abbrev pub with_outputs : Table Json → WorkerHandle → WorkerHandle
with_outputs outputs worker = with_metadata worker "outputs" (
    object (
      fields_of
        (Table.merge (before_of (Table.get (get_or_else worker.metadata []) "outputs")) outputs)))

abbrev pub outputs_record : Table Json → Timestamp → RunRecord → Option RunRecord
outputs_record outputs at run = with_worker at run (map_worker (with_outputs outputs) run.worker)

unfoldable pub record_worker_outputs :
    Runs → RunIdentity → Timestamp → Table Json → Timestamp → Runs × Option RunRecord
unfolding mutate Table.merge
record_worker_outputs runs identity claimed_at outputs at =
    mutate runs identity claimed_at (outputs_record outputs at)

unfoldable pub update : Runs → RunRecord → Runs
unfolding Table.set
update runs run = save_run runs run

unfoldable pub list_active : Runs → RepositoryScope → List RunRecord
unfolding is_active_run
list_active runs repository =
    keep (λ run. is_active_run run.status && same_repository run.identity.repository repository)
      (Table.values runs)
