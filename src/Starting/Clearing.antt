-- ===== src/Starting/Clearing.antt =====
-- How StartWorkflow makes room in a concurrency group: packages/application/src/workflow-engine.ts.
use linear_pi_orchestrator.Prelude.{
  String, Bool, true, false, ◌&&◌, some, List, [], ◌∷◌, ◌≡◌, refl, sym, ◌∙◌, subst, arith, ◌==◌,
  ◌⊎◌, eq_iff, Bool-cases, inl, inr, All, keep-All, All-map, truthy, text_eq?, is_empty,
  if◌then◌else◌,
}
use linear_pi_orchestrator.Prelude.Table
use linear_pi_orchestrator.Domain.{WorkflowDefinition, WorkflowRunIdentity, WorkflowRunRecord}
use linear_pi_orchestrator.Domain.Key.{create_workflow_run_key}
use linear_pi_orchestrator.RunStore.{Records, find_running_in_group, is_running, same_repository}
use linear_pi_orchestrator.RunStore.Keyed.{Inv, IsKeyed}
use linear_pi_orchestrator.Cancellation.{cancel}
use linear_pi_orchestrator.Cancellation.Verified.{cancel-over}
use linear_pi_orchestrator.Starting.{
  StartPorts, cancel_others, clear_group, cancels_others, live_others,
}
use linear_pi_orchestrator.Starting.Touches.{IsFailed, cancel-Touches}

empty-All {ℓ κ} : {A : Type ℓ} (P : A → Type κ) (xs : List A) → is_empty xs ≡ true → All P xs
empty-All P [] e = tt
empty-All P (x ∷ xs) e = absurd (cc)

-- Every run is as it was, or has failed.
pub record Fades (records records' : Records) : Type 0 where
  pub inv : Inv records'
  pub each : (j : String) → (Table.get records' j ≡ Table.get records j) ⊎ IsFailed records' j

IsFailed-same :
    (records records' : Records) (j : String)
    → Table.get records' j ≡ Table.get records j
    → IsFailed records j
    → IsFailed records' j
IsFailed-same records records' j same (final, at, failed) = (final, same ∙ at, failed)

IsFailed-Fades : {r s : Records} (j : String) → Fades r s → IsFailed r j → IsFailed s j
IsFailed-Fades j f over = elim (f.each j) [
  | inl same ↦ IsFailed-same _ _ j same over
  | inr gone ↦ gone
]

Fades-then : {r s t : Records} → Fades r s → Fades s t → Fades r t
Fades-then f g = record {
  inv = g.inv;
  each = λ j. elim (g.each j) [
    | inr gone ↦ inr gone
    | inl same ↦ elim (f.each j) [
      | inl before ↦ inl (same ∙ before)
      | inr gone ↦ inr (IsFailed-same _ _ j same gone)
    ]
  ];
}

-- The ledger holds the run as it was read and running, or as failed.
IsHeld : Records → WorkflowRunRecord → Type 0
IsHeld records run =
    ((Table.get records (create_workflow_run_key run.identity) ≡ some run)
      × (is_running run.status ≡ true))
    ⊎ IsFailed records (create_workflow_run_key run.identity)

IsHeld-Fades : {r s : Records} (run : WorkflowRunRecord) → Fades r s → IsHeld r run → IsHeld s run
unfolding IsHeld
IsHeld-Fades run f (inr over) = inr (IsFailed-Fades _ f over)
IsHeld-Fades run f (inl (found, running)) = elim (f.each (create_workflow_run_key run.identity)) [
  | inl same ↦ inl (same ∙ found, running)
  | inr gone ↦ inr gone
]

All-Held-Fades :
    {r s : Records} (runs : List WorkflowRunRecord)
    → Fades r s
    → All (IsHeld r) runs
    → All (IsHeld s) runs
All-Held-Fades [] f h = tt
All-Held-Fades (run ∷ runs) f h = (IsHeld-Fades run f h.0, All-Held-Fades runs f h.1)

module _ (ports : StartPorts) (workflow : WorkflowDefinition) where
  cancelled : WorkflowRunRecord → Records → Records × Bool
  cancelled run records =
      cancel ports.cancelling workflow run
        "Superseded by a newer run in the same concurrency group." records

  cancelled-IsFailed :
      (run : WorkflowRunRecord) (records : Records)
      → Inv records
      → IsHeld records run
      → (cancelled run records).1 ≡ true
      → IsFailed (cancelled run records).0 (create_workflow_run_key run.identity)
  unfolding cancelled IsHeld
  cancelled-IsFailed run records v (inr over) verified =
      (cancel-Touches ports.cancelling run _ workflow records v).stays over
  cancelled-IsFailed run records v (inl (found, running)) verified =
      let (final, at, failed, jobs) =
        cancel-over ports.cancelling workflow run _ records v found running verified in
      (final, at, failed)

  cancelled-Fades :
      (run : WorkflowRunRecord) (records : Records)
      → Inv records
      → IsHeld records run
      → (cancelled run records).1 ≡ true
      → Fades records (cancelled run records).0
  unfolding cancelled
  cancelled-Fades run records v held verified =
      let key = create_workflow_run_key run.identity in
      let touched = cancel-Touches ports.cancelling run _ workflow records v in
      let over = cancelled-IsFailed run records v held verified in
      record {
        inv = touched.inv;
        each = λ j. elim (Bool-cases (key == j)) [
          | inl own ↦
              inr (subst (λ k. IsFailed (cancelled run records).0 k) ((eq_iff key j).0 own) over)
          | inr other ↦ inl (touched.others j other)
        ];
      }

  -- What verified cancellations of the runs leave.
  unfoldable pub Cleared : List WorkflowRunRecord → Records → Records × Bool → Type 0
  Cleared runs records p =
      p.1 ≡ true
      → Fades records p.0 × All (λ run. IsFailed p.0 (create_workflow_run_key run.identity)) runs

  next-Cleared :
      (run : WorkflowRunRecord) (runs : List WorkflowRunRecord) (records : Records)
      (p rest : Records × Bool)
      → (p.1 ≡ true
          → Fades records p.0
            × IsFailed p.0 (create_workflow_run_key run.identity)
            × Cleared runs p.0 rest)
      → Cleared (run ∷ runs) records (if p.1 then rest else (p.0, false))
  unfolding Cleared
  next-Cleared run runs records (s, false) rest step e = absurd (cc)
  next-Cleared run runs records (s, true) rest step e =
      let (first, over, later) = step refl in
      let (fades, all) = later e in (Fades-then first fades, (IsFailed-Fades _ fades over, all))

  cancel_others-Cleared :
      (runs : List WorkflowRunRecord) (records : Records)
      → Inv records
      → All (IsHeld records) runs
      → Cleared runs records (cancel_others ports workflow runs records)
  unfolding cancel_others Cleared cancelled
  cancel_others-Cleared [] records v held = λ e. (record { inv = v; each = λ j. inl refl }, tt)
  cancel_others-Cleared (run ∷ runs) records v held =
      next-Cleared run runs records (cancelled run records)
        (cancel_others ports workflow runs (cancelled run records).0)
        λ verified.
          let fades = cancelled-Fades run records v held.0 verified in
          (
            fades,
            cancelled-IsFailed run records v held.0 verified,
            cancel_others-Cleared runs (cancelled run records).0 fades.inv
                (All-Held-Fades runs fades held.1),
          )

  abbrev pub in_group : String → WorkflowRunRecord → Bool
  in_group group run =
      is_running run.status
      && text_eq? run.concurrency_group (some group)
      && same_repository run.identity.repository workflow.repository

  unfoldable pub live : Records → String → WorkflowRunIdentity → List WorkflowRunRecord
  unfolding find_running_in_group
  live records group identity = live_others ports records workflow (some group) identity

  IsHeld-live :
      (records : Records) (group : String) (identity : WorkflowRunIdentity)
      → Inv records
      → All (IsHeld records) (live records group identity)
  unfolding live find_running_in_group IsHeld Table.get
  IsHeld-live records group identity v =
      All-map _ (λ r h. inl (h.1.1, ground (arith, h.1.0)))
        (keep-All _ _ _ (
          keep-All (in_group group) _ (Table.values records) (
            Table.values-All _ records (
              Table.Entries-map records
                (λ k r i e.
                  let own = Table.Entries-get IsKeyed records k v.keyed e in
                  subst (λ j. Table.get records j ≡ some r) (sym own.own_key) e)
                (Table.Entries-found records v.distinct)))))

  pub clear_group-Cleared :
      (records : Records) (group : String) (identity : WorkflowRunIdentity)
      → Inv records
      → truthy (some group) ≡ true
      → Cleared
          (live records group identity)
          records
          (clear_group ports workflow (some group) identity records)
  unfolding Cleared live find_running_in_group clear_group
  clear_group-Cleared records group identity v named =
      elim (Bool-cases (is_empty (live records group identity))) [
        | inl empty ↦
            rw (named, empty) (λ e. (record { inv = v; each = λ j. inl refl }, empty-All _ _ empty))
        | inr some_live ↦ elim (Bool-cases (cancels_others workflow.concurrency)) [
          | inl cancels ↦
              rw (named, some_live, cancels)
                (cancel_others-Cleared (live records group identity) records v
                  (IsHeld-live records group identity v))
          | inr keeps ↦ rw (named, some_live, keeps) (λ e. absurd (cc))
        ]
      ]
