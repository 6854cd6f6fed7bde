-- ===== src/Storage/Runs/Active.antt =====
-- packages/storage-sqlite/src/index.ts: the active runs of a trigger, at all times.
use linear_pi_orchestrator.Prelude.{
  ℕ, ◌≤◌, ◌<◌, String, Bool, true, false, not, ◌||◌, Option, none, some, [], ◌≡◌, refl, sym, ap,
  ◌∙◌, subst, arith, eq_iff, nat_eq, keep, length, Bool-cases, Option-cases, inl, inr,
}
use linear_pi_orchestrator.Prelude.Table
use linear_pi_orchestrator.Prelude.Table.{Table}
use linear_pi_orchestrator.Domain.JsonValue.{Json}
use linear_pi_orchestrator.Domain.{Timestamp, RunIdentity, is_active_run}
use linear_pi_orchestrator.Domain.Key.{create_run_key}
use linear_pi_orchestrator.Domain.Runs.{
  RunRecord, RunClaim, RunTerminalTransition, WorkerChildHandle,
}
use linear_pi_orchestrator.Storage.Runs.{
  Runs, save_run, same_trigger, counts_for, active_count_for, claimed_run, is_active, claim,
  finished_record, finish_active, saved, mutate, cleaned_record, mark_workspace_cleaned,
  child_record, record_worker_child, outputs_record, record_worker_outputs, update,
}
use linear_pi_orchestrator.Storage.Runs.Limit.{
  bit, count-set, IsKeyed, claim-granted, claim-refused, inactive-bit,
}
use linear_pi_orchestrator.Storage.Runs.Steps.{
  Step, Steps, claims, finishes, cleans, opens, reports, updates, start, later,
}

record Inv (who : RunIdentity) (n : ℕ) (runs : Runs) : Type 0 where
  keyed : IsKeyed runs
  limited : active_count_for runs who ≤ n

keyed_at :
    (runs : Runs) (key : String) (run : RunRecord)
    → IsKeyed runs
    → Table.get runs key ≡ some run
    → (run.id ≡ key) × (create_run_key run.identity ≡ key)
keyed_at runs key run k found =
    Table.Entries-get (λ k r. (r.id ≡ k) × (create_run_key r.identity ≡ k)) runs key k found

counts_for-same :
    (i who : RunIdentity) (run : RunRecord)
    → same_trigger i who ≡ true
    → counts_for i run ≡ counts_for who run
counts_for-same i who run e =
    let id : i.repository.id ≡ who.repository.id =
      ground (arith, eq_iff i.repository.id who.repository.id) in
    let root : i.repository.root ≡ who.repository.root =
      ground (arith, eq_iff i.repository.root who.repository.root) in
    let source : i.source_id ≡ who.source_id = ground (arith, eq_iff i.source_id who.source_id) in
    let trigger : i.trigger_id ≡ who.trigger_id =
      ground (arith, eq_iff i.trigger_id who.trigger_id) in
    cc

active_count-same :
    (runs : Runs) (i who : RunIdentity)
    → same_trigger i who ≡ true
    → active_count_for runs i ≡ active_count_for runs who
unfolding active_count_for
active_count-same runs i who e =
    let same : counts_for i ≡ counts_for who = λ p run. counts_for-same i who run e p in
    ap (λ (test : RunRecord → Bool). length (keep test (Table.values runs))) same

module _ (who : RunIdentity) (n : ℕ) where
  -- A stored run is written back, and does not begin to count.
  save-Inv :
      (runs : Runs) (run old : RunRecord)
      → Inv who n runs
      → Table.get runs run.id ≡ some old
      → run.identity ≡ old.identity
      → (is_active_run run.status ≡ true → is_active_run old.status ≡ true)
      → Inv who n (save_run runs run)
  unfolding active_count_for
  save-Inv runs run old inv found same alive =
      let (id, key) = keyed_at runs run.id old inv.keyed found in
      let total = count-set (counts_for who) runs run.id run in
      let fewer : bit (counts_for who run) ≤ bit (counts_for who old) =
        ground (arith, same, alive) in
      record {
        keyed =
            Table.Entries-set (λ k r. (r.id ≡ k) × (create_run_key r.identity ≡ k)) runs run.id run
              inv.keyed (refl, ap create_run_key same ∙ key);
        limited = ground (arith, total, fewer, found, inv.limited);
      }

  -- A run that is found under its key is written back.
  save_found-Inv :
      (runs : Runs) (key : String) (old run : RunRecord)
      → Inv who n runs
      → Table.get runs key ≡ some old
      → run.id ≡ old.id
      → run.identity ≡ old.identity
      → (is_active_run run.status ≡ true → is_active_run old.status ≡ true)
      → Inv who n (save_run runs run)
  save_found-Inv runs key old run inv found id same alive =
      let (old_id, _) = keyed_at runs key old inv.keyed found in
      save-Inv runs run old inv (subst (λ k. Table.get runs k ≡ some old) (sym (id ∙ old_id)) found)
        same alive

  finish_active-Inv :
      (runs : Runs) (identity : RunIdentity) (claimed_at : Timestamp) (t : RunTerminalTransition)
      → Inv who n runs
      → Inv who n (finish_active runs identity claimed_at t).0
  unfolding finish_active
  finish_active-Inv runs identity claimed_at t inv =
      elim (Option-cases (Table.get runs (create_run_key identity))) [
        | inl absent ↦ rw (absent, finish_active) inv
        | inr (old, found) ↦
            elim (Bool-cases
              (not (is_active_run old.status) || not (nat_eq old.claimed_at claimed_at))) [
                | inl stale ↦ rw (found, finish_active, stale) inv
                | inr current ↦
                    rw (found, finish_active, current)
                      (save_found-Inv runs (create_run_key identity) old (finished_record old t) inv
                        found refl refl (λ a. ground (arith, current)))
              ]
      ]

  abbrev Keeps : (RunRecord → Option RunRecord) → Type 0
  Keeps change =
      (old new : RunRecord)
      → change old ≡ some new
      → (new.id ≡ old.id) × (new.identity ≡ old.identity) × (new.status ≡ old.status)

  saved-Inv :
      (runs : Runs) (key : String) (old : RunRecord) (changed : Option RunRecord)
      → Inv who n runs
      → Table.get runs key ≡ some old
      → ((new : RunRecord)
          → changed ≡ some new
          → (new.id ≡ old.id) × (new.identity ≡ old.identity) × (new.status ≡ old.status))
      → Inv who n (saved runs changed).0
  saved-Inv runs key old none inv found kept = inv
  saved-Inv runs key old (some new) inv found kept =
      let (id, same, status) = kept new refl in
      save_found-Inv runs key old new inv found id same (λ a. ground (arith, status, a))

  mutate-Inv :
      (runs : Runs) (identity : RunIdentity) (claimed_at : Timestamp)
      (change : RunRecord → Option RunRecord)
      → Keeps change
      → Inv who n runs
      → Inv who n (mutate runs identity claimed_at change).0
  unfolding mutate
  mutate-Inv runs identity claimed_at change kept inv =
      elim (Option-cases (Table.get runs (create_run_key identity))) [
        | inl absent ↦ rw (absent, mutate) inv
        | inr (old, found) ↦ elim (Bool-cases (not (nat_eq old.claimed_at claimed_at))) [
          | inl stale ↦ rw (found, mutate, stale) inv
          | inr current ↦
              rw (found, mutate, current)
                (saved-Inv runs (create_run_key identity) old (change old) inv found (kept old))
        ]
      ]

  claimed-Inv :
      (runs : Runs) (c : RunClaim)
      → (same_trigger c.identity who ≡ true → c.max_concurrent ≤ n)
      → Inv who n runs
      → is_active (Table.get runs (create_run_key c.identity)) ≡ false
      → active_count_for runs c.identity < c.max_concurrent
      → Inv who n (save_run runs (claimed_run c))
  unfolding active_count_for
  claimed-Inv runs c bound inv inactive room =
      let key = create_run_key c.identity in
      let total = count-set (counts_for who) runs key (claimed_run c) in
      let before = inactive-bit who (Table.get runs key) inactive in
      record {
        keyed =
            Table.Entries-set (λ k r. (r.id ≡ k) × (create_run_key r.identity ≡ k)) runs key
              (claimed_run c) inv.keyed (refl, refl);
        limited = elim (Bool-cases (same_trigger c.identity who)) [
          | inl own ↦
              let same = active_count-same runs c.identity who own in
              ground (arith, total, before, own, same, room, bound own)
          | inr other ↦ ground (arith, total, before, other, inv.limited)
        ];
      }

  claim-Inv :
      (runs : Runs) (c : RunClaim)
      → (same_trigger c.identity who ≡ true → c.max_concurrent ≤ n)
      → Inv who n runs
      → Inv who n (claim runs c).0
  claim-Inv runs c bound inv = elim (Option-cases (claim runs c).1) [
    | inl refused ↦ subst (Inv who n) (sym (claim-refused runs c refused)) inv
    | inr (run, e) ↦
        let (inactive, room, granted) = claim-granted runs c run e in
        subst (λ (r : Runs × Option RunRecord). Inv who n r.0) (sym granted)
          (claimed-Inv runs c bound inv inactive room)
  ]

  child-Keeps : (child : WorkerChildHandle) (at : Timestamp) → Keeps (child_record child at)
  child-Keeps child at old new e = elim (Option-cases old.worker) [
    | inl absent ↦ let nothing = rw absent at e in cc
    | inr (worker, found) ↦ let same = rw found at e in ground (arith, same)
  ]

  outputs-Keeps : (outputs : Table Json) (at : Timestamp) → Keeps (outputs_record outputs at)
  outputs-Keeps outputs at old new e = elim (Option-cases old.worker) [
    | inl absent ↦ let nothing = rw absent at e in cc
    | inr (worker, found) ↦ let same = rw found at e in ground (arith, same)
  ]

  cleaned-Keeps : (at : Timestamp) → Keeps (cleaned_record at)
  cleaned-Keeps at old new e = ground (arith, e)

  Step-Inv : {r s : Runs} → Step who n r s → Inv who n r → Inv who n s
  unfolding mark_workspace_cleaned record_worker_child record_worker_outputs update
  Step-Inv {r} (claims c bound) inv = claim-Inv r c bound inv
  Step-Inv {r} (finishes identity claimed_at t) inv = finish_active-Inv r identity claimed_at t inv
  Step-Inv {r} (cleans identity claimed_at at) inv =
      mutate-Inv r identity claimed_at (cleaned_record at) (cleaned-Keeps at) inv
  Step-Inv {r} (opens identity claimed_at child at) inv =
      mutate-Inv r identity claimed_at (child_record child at) (child-Keeps child at) inv
  Step-Inv {r} (reports identity claimed_at outputs at) inv =
      mutate-Inv r identity claimed_at (outputs_record outputs at) (outputs-Keeps outputs at) inv
  Step-Inv {r} (updates run old found same alive) inv = save-Inv r run old inv found same alive

  Steps-Inv : {r s : Runs} → Steps who n r s → Inv who n r → Inv who n s
  Steps-Inv start inv = inv
  Steps-Inv (later steps step) inv = Step-Inv step (Steps-Inv steps inv)

  empty-Inv : Inv who n []
  unfolding active_count_for
  empty-Inv = record { keyed = tt; limited = omega arith }

  -- From an empty ledger, a trigger never has more active runs than the largest limit of its claims,
  -- if every update writes back a run that is stored under its id, for the same identity and without
  -- reviving it.
  pub active_count-le : {runs : Runs} → Steps who n [] runs → active_count_for runs who ≤ n
  active_count-le steps = let inv = Steps-Inv steps empty-Inv in inv.limited
