-- ===== src/Storage/Workflows/Groups.antt =====
-- packages/storage-sqlite/src/index.ts: a concurrency group is held by one run at a time.
use linear_pi_orchestrator.Prelude.{
  ℕ, String, Bool, true, false, ◌&&◌, Option, none, some, [], ◌∷◌, ◌≡◌, refl, sym, ap, ap₂, ◌∙◌,
  subst, arith, ◌==◌, eq_iff, Bool-cases, inl, inr, any, truthy, text_eq?,
}
use linear_pi_orchestrator.Prelude.Table
use linear_pi_orchestrator.Prelude.Table.{Table}
use linear_pi_orchestrator.Domain.{RepositoryScope, WorkflowRunIdentity, WorkflowRunRecord}
use linear_pi_orchestrator.RunStore.{Records, OpenInput, is_running, new_run, same_repository}
use linear_pi_orchestrator.Storage.Workflows.{Ledger, holds_group, is_occupied}

-- Both runs are running in one group of one repository.
abbrev pub shares_group : WorkflowRunRecord → WorkflowRunRecord → Bool
shares_group r s =
    is_running r.status
    && is_running s.status
    && truthy r.concurrency_group
    && text_eq? r.concurrency_group s.concurrency_group
    && same_repository r.identity.repository s.identity.repository

abbrev pub IsExclusive : Records → Type 0
IsExclusive records =
    (j k : String) (r s : WorkflowRunRecord)
    → Table.get records j ≡ some r
    → Table.get records k ≡ some s
    → shares_group r s ≡ true
    → j ≡ k

pub record Inv (records : Records) : Type 0 where
  pub keyed : Table.Entries (λ k r. r.id ≡ k) records
  pub exclusive : IsExclusive records

-- A run is as it was for its group, or is no longer running.
pub record Follows (old new : WorkflowRunRecord) : Type 0 where
  pub id : new.id ≡ old.id
  pub repository : new.identity ≡ old.identity
  pub group : new.concurrency_group ≡ old.concurrency_group
  pub alive : is_running new.status ≡ true → is_running old.status ≡ true

Follows-same : (r : WorkflowRunRecord) → Follows r r
Follows-same r = record { id = refl; repository = refl; group = refl; alive = λ e. e }

shares_group-Follows :
    (r r' s s' : WorkflowRunRecord)
    → Follows r r'
    → Follows s s'
    → shares_group r' s' ≡ true
    → shares_group r s ≡ true
shares_group-Follows r r' s s' f g shared =
    let named = ap truthy f.group in
    let same_group = ap₂ text_eq? f.group g.group in
    let same_place =
      ap₂ (λ (i j : WorkflowRunIdentity). same_repository i.repository j.repository) f.repository
        g.repository in
    let alive = f.alive (ground (arith, shared)) in
    let alive' = g.alive (ground (arith, shared)) in
    ground (arith, shared, named, same_group, same_place, alive, alive')

any-values :
    (p : WorkflowRunRecord → Bool) (records : Records) (k : String) (r : WorkflowRunRecord)
    → any p (Table.values records) ≡ false
    → Table.get records k ≡ some r
    → p r ≡ false
unfolding Table.get
any-values p [] k r none_holds found = cc
any-values p ((j, s) ∷ records) k r none_holds found = elim (Bool-cases (j == k)) [
  | inl own ↦
      let same : s ≡ r = ground (arith, own, found) in
      subst (λ x. p x ≡ false) same (ground (arith, none_holds))
  | inr other ↦ any-values p records k r (ground (arith, none_holds)) (ground (arith, other, found))
]

module _ (records : Records) (key : String) (new : WorkflowRunRecord) (inv : Inv records) where
  -- What stands in the ledger after the write.
  after :
      (j : String) (r : WorkflowRunRecord)
      → Table.get (Table.set records key new) j ≡ some r
      → ((key == j) ≡ true → new ≡ r) × ((key == j) ≡ false → Table.get records j ≡ some r)
  after j r found = (
    λ own. ground (arith, own, found, Table.get-set records key j new),
    λ other. ground (arith, other, found, Table.get-set records key j new),
  )

  before :
      (old : WorkflowRunRecord)
      → Table.get records key ≡ some old
      → Follows old new
      → (j : String) (r : WorkflowRunRecord) → Table.get (Table.set records key new) j ≡ some r
      → (r' : WorkflowRunRecord) × (Table.get records j ≡ some r') × Follows r' r
  before old found f j r at_j = elim (Bool-cases (key == j)) [
    | inl own ↦ (
      old,
      subst (λ k. Table.get records k ≡ some old) ((eq_iff key j).0 own) found,
      subst (λ x. Follows old x) ((after j r at_j).0 own) f,
    )
    | inr other ↦ (r, (after j r at_j).1 other, Follows-same r)
  ]

  pub written-IsExclusive :
      (old : WorkflowRunRecord)
      → Table.get records key ≡ some old
      → Follows old new
      → IsExclusive (Table.set records key new)
  written-IsExclusive old found f j k r s at_j at_k shared =
      let (r', was_j, f_j) = before old found f j r at_j in
      let (s', was_k, f_k) = before old found f k s at_k in
      inv.exclusive j k r' s' was_j was_k (shares_group-Follows r' r s' s f_j f_k shared)

  pub opened-IsExclusive :
      ((k : String) (s : WorkflowRunRecord)
        → Table.get records k ≡ some s
        → (shares_group new s ≡ false) × (shares_group s new ≡ false))
      → IsExclusive (Table.set records key new)
  opened-IsExclusive apart j k r s at_j at_k shared = elim (Bool-cases (key == j)) [
    | inl own_j ↦ elim (Bool-cases (key == k)) [
      | inl own_k ↦ sym ((eq_iff key j).0 own_j) ∙ (eq_iff key k).0 own_k
      | inr other_k ↦
          let same = (after j r at_j).0 own_j in
          absurd (
            ground (
              arith,
              (apart k s ((after k s at_k).1 other_k)).0,
              subst (λ x. shares_group x s ≡ true) (sym same) shared,
            ))
    ]
    | inr other_j ↦ elim (Bool-cases (key == k)) [
      | inl own_k ↦
          let same = (after k s at_k).0 own_k in
          absurd (
            ground (
              arith,
              (apart j r ((after j r at_j).1 other_j)).1,
              subst (λ x. shares_group r x ≡ true) (sym same) shared,
            ))
      | inr other_k ↦
          inv.exclusive j k r s ((after j r at_j).1 other_j) ((after k s at_k).1 other_k) shared
    ]
  ]

unnamed_group : (o : Option String) → (truthy o && text_eq? o none) ≡ false
unnamed_group none = refl
unnamed_group (some name) = ground arith

text_eq?_sym : (a b : Option String) → text_eq? a b ≡ text_eq? b a
text_eq?_sym none none = refl
text_eq?_sym (some a) none = refl
text_eq?_sym none (some b) = refl
text_eq?_sym (some a) (some b) = ground (arith, eq_iff a b, eq_iff b a)

same_repository_sym : (a b : RepositoryScope) → same_repository a b ≡ same_repository b a
same_repository_sym a b =
    ground (arith, eq_iff a.id b.id, eq_iff b.id a.id, eq_iff a.root b.root, eq_iff b.root a.root)

-- A new run shares its group with no other, if the group is not occupied.
pub new_run-apart :
    (ledger : Ledger) (input : OpenInput) (revision : Option ℕ)
    → is_occupied ledger input ≡ false
    → (k : String) (s : WorkflowRunRecord) → Table.get ledger.workflows k ≡ some s
    → (shares_group (record (new_run input) { revision = revision }) s ≡ false)
      × (shares_group s (record (new_run input) { revision = revision }) ≡ false)
new_run-apart ledger input revision unoccupied k s found =
    elim (Bool-cases (truthy input.concurrency_group)) [
      | inr unnamed ↦ rw unnamed (ground arith, ground (arith, unnamed_group s.concurrency_group))
      | inl named ↦
          let free =
            any-values (holds_group input.identity.repository input.concurrency_group)
              ledger.workflows k s (ground (arith, unoccupied, named)) found in
          rw named (
            ground (
              arith,
              free,
              text_eq?_sym input.concurrency_group s.concurrency_group,
              same_repository_sym input.identity.repository s.identity.repository,
            ),
            ground (arith, free),
          )
    ]
