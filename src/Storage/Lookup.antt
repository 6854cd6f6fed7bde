-- ===== src/Storage/Lookup.antt =====
-- packages/storage-sqlite/src/index.ts: the queries for the runs of an item.
use linear_pi_orchestrator.Prelude.{
  String, Bool, true, not, ◌&&◌, ◌||◌, Option, List, [], ◌∷◌, ◌==◌, if◌then◌else◌, get_or_else,
  is_some, ltb, nat_eq, keep,
}
use linear_pi_orchestrator.Prelude.Table
use linear_pi_orchestrator.Domain.{RepositoryScope, is_active_run}
use linear_pi_orchestrator.Domain.Runs.{RunRecord}
use linear_pi_orchestrator.RunStore.{same_repository}
use linear_pi_orchestrator.Storage.Runs.{Runs}

pub data WorkerTargetSelection : Type 0 where
  latest active all : WorkerTargetSelection

pub record RunItemLookup : Type 0 where
  pub repository : RepositoryScope
  pub source_id : String
  pub item_id : String
  pub selection : Option WorkerTargetSelection
  pub include_cleaned : Option Bool

-- Whether the first run stands before the second: the later claim, then the later change.
abbrev pub is_newer : RunRecord → RunRecord → Bool
is_newer left right =
    ltb right.claimed_at left.claimed_at
    || nat_eq right.claimed_at left.claimed_at && ltb right.updated_at left.updated_at

-- `sort`, where equals keep their order.
unfoldable pub insert_run : RunRecord → List RunRecord → List RunRecord
insert_run run [] = run ∷ []
insert_run run (r ∷ rs) =
    let rest = insert_run run rs in if is_newer run r then run ∷ r ∷ rs else r ∷ rest

unfoldable pub sort_runs : List RunRecord → List RunRecord → List RunRecord
unfolding insert_run
sort_runs sorted [] = sorted
sort_runs sorted (r ∷ rs) = sort_runs (insert_run r sorted) rs

-- slice(0, 1)
abbrev first_only : List RunRecord → List RunRecord
first_only [] = []
first_only (r ∷ rs) = r ∷ []

abbrev selected : WorkerTargetSelection → List RunRecord → List RunRecord
selected active runs = keep (λ run. is_active_run run.status) runs
selected latest runs = first_only runs
selected all runs = runs

unfoldable pub select : List RunRecord → WorkerTargetSelection → List RunRecord
unfolding sort_runs is_active_run
select runs mode = selected mode (sort_runs [] runs)

abbrev pub matches_item : RunItemLookup → RunRecord → Bool
matches_item query run =
    same_repository run.identity.repository query.repository
    && run.identity.source_id == query.source_id
    && run.identity.item_id == query.item_id
    && (get_or_else query.include_cleaned true || not (is_some run.workspace_cleaned_at))

unfoldable pub find_runs_for_item : Runs → RunItemLookup → List RunRecord
unfolding select
find_runs_for_item runs query =
    select (keep (matches_item query) (Table.values runs)) (get_or_else query.selection all)
