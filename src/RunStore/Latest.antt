-- ===== src/RunStore/Latest.antt =====
-- latestWorkflowRun in src/application/in-memory-workflow-run-store.ts.
use linear_pi_orchestrator.Prelude.{
  ◌≤◌, true, false, Option, none, some, List, [], ◌∷◌, ◌≡◌, refl, arith, All, Any, here, there,
  keep, keep-All, keep-All_inv, All-map, first, ltb, Bool-cases, inl, inr,
}
use linear_pi_orchestrator.Prelude.Table
use linear_pi_orchestrator.Domain.{WorkflowRunRecord, WorkflowRunIdentity, Timestamp}
use linear_pi_orchestrator.RunStore.{
  Records, latest_workflow_run, insert_newest, sort_newest, same_work,
}

-- The first run of a list is as new as each.
abbrev Below : Timestamp → List WorkflowRunRecord → Type 0
Below t = All (λ (r : WorkflowRunRecord). r.started_at ≤ t)

abbrev Descending : List WorkflowRunRecord → Type 0
Descending [] = Unit
Descending (r ∷ rs) = Below r.started_at rs × Descending rs

Below-mono : (s t : Timestamp) (rs : List WorkflowRunRecord) → s ≤ t → Below s rs → Below t rs
Below-mono s t [] h b = tt
Below-mono s t (r ∷ rs) h b = (omega arith, Below-mono s t rs h b.1)

insert-Below :
    (t : Timestamp) (run : WorkflowRunRecord) (rs : List WorkflowRunRecord)
    → run.started_at ≤ t
    → Below t rs
    → Below t (insert_newest run rs)
unfolding insert_newest
insert-Below t run [] h b = (h, tt)
insert-Below t run (r ∷ rs) h b = ground (arith, insert-Below t run rs h b.1)

insert-Descending :
    (run : WorkflowRunRecord) (rs : List WorkflowRunRecord)
    → Descending rs
    → Descending (insert_newest run rs)
unfolding insert_newest
insert-Descending run [] d = (tt, tt)
insert-Descending run (r ∷ rs) d = ground (
  arith,
  insert-Descending run rs d.1,
  insert-Below r.started_at run rs,
  Below-mono r.started_at run.started_at rs,
)

module _ {ℓ} (P : WorkflowRunRecord → Type ℓ) where
  insert-All :
      (run : WorkflowRunRecord) (rs : List WorkflowRunRecord)
      → P run
      → All P rs
      → All P (insert_newest run rs)
  unfolding insert_newest
  insert-All run [] p h = (p, tt)
  insert-All run (r ∷ rs) p h = elim (Bool-cases (ltb r.started_at run.started_at)) [
    | inl b ↦ rw b (p, h)
    | inr b ↦ rw b (h.0, insert-All run rs p h.1)
  ]

  insert-All-inv :
      (run : WorkflowRunRecord) (rs : List WorkflowRunRecord)
      → All P (insert_newest run rs)
      → P run × All P rs
  unfolding insert_newest
  insert-All-inv run [] h = h
  insert-All-inv run (r ∷ rs) all = elim (Bool-cases (ltb r.started_at run.started_at)) [
    | inl b ↦ rw b at all
    | inr b ↦ let h = rw b at all in let (p, q) = insert-All-inv run rs h.1 in (p, (h.0, q))
  ]

  sort-All :
      (sorted rs : List WorkflowRunRecord) → All P sorted → All P rs → All P (sort_newest sorted rs)
  unfolding sort_newest
  sort-All sorted [] h k = h
  sort-All sorted (r ∷ rs) h k =
      sort-All (insert_newest r sorted) rs (insert-All r sorted k.0 h) k.1

  sort-All-inv :
      (sorted rs : List WorkflowRunRecord) → All P (sort_newest sorted rs) → All P sorted × All P rs
  unfolding sort_newest
  sort-All-inv sorted [] h = (h, tt)
  sort-All-inv sorted (r ∷ rs) h =
      let (p, q) = sort-All-inv (insert_newest r sorted) rs h in
      let (p', q') = insert-All-inv r sorted p in (q', (p', q))

sort-Descending :
    (sorted rs : List WorkflowRunRecord) → Descending sorted → Descending (sort_newest sorted rs)
unfolding sort_newest
sort-Descending sorted [] d = d
sort-Descending sorted (r ∷ rs) d =
    sort-Descending (insert_newest r sorted) rs (insert-Descending r sorted d)

abbrev Mem : WorkflowRunRecord → List WorkflowRunRecord → Type 0
Mem r = Any (λ (x : WorkflowRunRecord). x ≡ r)

All-Mem : (rs : List WorkflowRunRecord) → All (λ r. Mem r rs) rs
All-Mem [] = tt
All-Mem (r ∷ rs) = (here refl, All-map rs (λ x m. there m) (All-Mem rs))

-- What `latestWorkflowRun` returns of runs.
abbrev pub IsLatest : Records → WorkflowRunIdentity → Option WorkflowRunRecord → Type 0
IsLatest records i none = All (λ r. same_work r.identity i ≡ false) (Table.values records)
IsLatest records i (some r) =
    Mem r (Table.values records)
    × (same_work r.identity i ≡ true)
    × All (λ q. same_work q.identity i ≡ true → q.started_at ≤ r.started_at) (Table.values records)

first-IsLatest :
    (records : Records) (i : WorkflowRunIdentity) (rs : List WorkflowRunRecord)
    → Descending rs
    → All (λ r. (same_work r.identity i ≡ true) × Mem r (Table.values records)) rs
    → ((t : Timestamp)
        → Below t rs
        → All (λ q. same_work q.identity i ≡ true → q.started_at ≤ t) (Table.values records))
    → (rs ≡ [] → All (λ r. same_work r.identity i ≡ false) (Table.values records))
    → IsLatest records i (first rs)
first-IsLatest records i [] d matching bound empty = empty refl
first-IsLatest records i (r ∷ rs) d matching bound empty =
    (matching.0.1, matching.0.0, bound r.started_at (omega arith, d.0))

-- The run of a workflow for an item that started last, whatever its occurrence: what is returned is a
-- run of the store for that repository, workflow, source and item, and no such run started later;
-- `undefined` is returned only if there is no such run.
pub latest_workflow_run-IsLatest :
    (records : Records) (i : WorkflowRunIdentity)
    → IsLatest records i (latest_workflow_run records i)
unfolding latest_workflow_run
latest_workflow_run-IsLatest records i =
    let matches = λ (run : WorkflowRunRecord). same_work run.identity i in
    let all = Table.values records in
    let chosen = keep matches all in
    first-IsLatest records i (sort_newest [] chosen) (sort-Descending [] chosen tt)
      (sort-All _ [] chosen tt (keep-All matches (λ r. Mem r all) all (All-Mem all)))
      (λ t b. keep-All_inv matches (λ r. r.started_at ≤ t) all (sort-All-inv _ [] chosen b).1)
      (λ e.
        All-map all
          (λ r never. elim (Bool-cases (matches r)) [ inl b ↦ absurd (never b) | inr b ↦ b ])
          (keep-All_inv matches (λ _. ⊥) all (sort-All-inv (λ _. ⊥) [] chosen (rw e tt)).1))
