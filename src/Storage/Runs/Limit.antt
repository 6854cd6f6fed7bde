-- ===== src/Storage/Runs/Limit.antt =====
-- packages/storage-sqlite/src/index.ts: how many runs of a trigger are active.
use linear_pi_orchestrator.Prelude.{
  ℕ, ◌+◌, ◌≤◌, ◌<◌, String, Bool, true, false, Option, none, some, [], ◌∷◌, ◌≡◌, refl, ap, ◌∙◌,
  arith, eq_iff, leb, keep, length, Bool-cases, Option-cases, inl, inr,
}
use linear_pi_orchestrator.Prelude.Table
use linear_pi_orchestrator.Prelude.Table.{Table}
use linear_pi_orchestrator.Domain.{RunIdentity}
use linear_pi_orchestrator.Domain.Key.{create_run_key}
use linear_pi_orchestrator.Domain.Runs.{RunRecord, RunClaim}
use linear_pi_orchestrator.Storage.Runs.{
  Runs, save_run, find_active, same_trigger, counts_for, active_count_for, claimed_run, is_active,
  claim,
}

-- One, where the test holds.
abbrev pub bit : Bool → ℕ
bit true = 1
bit false = 0

abbrev pub bit_of {ℓ} : {V : Type ℓ} → (V → Bool) → Option V → ℕ
bit_of p none = 0
bit_of p (some v) = bit (p v)

-- A write counts its new value instead of its old one.
pub count-set :
    (p : RunRecord → Bool) (m : Runs) (k : String) (v : RunRecord)
    → length (keep p (Table.values (Table.set m k v))) + bit_of p (Table.get m k)
      ≡ length (keep p (Table.values m)) + bit (p v)
unfolding Table.get Table.set
count-set p [] k v = ground arith
count-set p ((j, w) ∷ m) k v = ground (arith, count-set p m k v)

-- Every run stands under its id, which is the key of its identity.
abbrev pub IsKeyed : Runs → Type 0
IsKeyed = Table.Entries (λ k run. (run.id ≡ k) × (create_run_key run.identity ≡ k))

pub claim-granted :
    (runs : Runs) (c : RunClaim) (run : RunRecord)
    → (claim runs c).1 ≡ some run
    → (is_active (Table.get runs (create_run_key c.identity)) ≡ false)
      × (active_count_for runs c.identity < c.max_concurrent)
      × (claim runs c ≡ (save_run runs (claimed_run c), some (claimed_run c)))
unfolding claim
claim-granted runs c run e =
    elim (Bool-cases (is_active (Table.get runs (create_run_key c.identity)))) [
      | inl a ↦ let refused = rw a at e in cc
      | inr a ↦ elim (Bool-cases (leb c.max_concurrent (active_count_for runs c.identity))) [
        | inl full ↦ let refused = rw (a, full) at e in cc
        | inr room ↦ (a, ground (arith, room), rw (a, room))
      ]
    ]

-- A refused claim changes nothing.
pub claim-refused : (runs : Runs) (c : RunClaim) → (claim runs c).1 ≡ none → (claim runs c).0 ≡ runs
unfolding claim
claim-refused runs c e =
    elim (Bool-cases (is_active (Table.get runs (create_run_key c.identity)))) [
      | inl a ↦ rw a
      | inr a ↦ elim (Bool-cases (leb c.max_concurrent (active_count_for runs c.identity))) [
        | inl full ↦ rw (a, full)
        | inr room ↦ let granted = rw (a, room) at e in cc
      ]
    ]

pub inactive-bit :
    (who : RunIdentity) (o : Option RunRecord) → is_active o ≡ false → bit_of (counts_for who) o ≡ 0
inactive-bit who none e = refl
inactive-bit who (some run) e = ground (arith, e)

same_trigger_refl : (i : RunIdentity) → same_trigger i i ≡ true
same_trigger_refl i = ground (
  arith,
  eq_iff i.repository.id i.repository.id,
  eq_iff i.repository.root i.repository.root,
  eq_iff i.source_id i.source_id,
  eq_iff i.trigger_id i.trigger_id,
)

find_active-save :
    (runs : Runs) (c : RunClaim)
    → find_active (save_run runs (claimed_run c)) c.identity ≡ some (claimed_run c)
unfolding find_active
find_active-save runs c =
    rw (Table.get-set_self runs (create_run_key c.identity) (claimed_run c), find_active)

find_active-inactive :
    (runs : Runs) (identity : RunIdentity)
    → is_active (Table.get runs (create_run_key identity)) ≡ false
    → find_active runs identity ≡ none
unfolding find_active
find_active-inactive runs identity e =
    elim (Option-cases (Table.get runs (create_run_key identity))) [
      | inl absent ↦ rw (absent, find_active)
      | inr (run, found) ↦ rw (found, find_active, rw found at e)
    ]

-- A claim that is granted finds no active run of its identity and fewer active runs of its trigger
-- than its limit; after it there is one more, within the limit, and it is the active run of its
-- identity.
pub claim_within_limit :
    (runs : Runs) (c : RunClaim) (run : RunRecord)
    → (claim runs c).1 ≡ some run
    → (find_active runs c.identity ≡ none)
      × (find_active (claim runs c).0 c.identity ≡ some run)
      × (active_count_for (claim runs c).0 c.identity ≡ active_count_for runs c.identity + 1)
      × (active_count_for (claim runs c).0 c.identity ≤ c.max_concurrent)
unfolding active_count_for
claim_within_limit runs c run e =
    let (inactive, room, granted) = claim-granted runs c run e in
    let same : claimed_run c ≡ run = ground (arith, ap (λ r. r.1) granted, e) in
    let key = create_run_key c.identity in
    let total = count-set (counts_for c.identity) runs key (claimed_run c) in
    let before = inactive-bit c.identity (Table.get runs key) inactive in
    let own = same_trigger_refl c.identity in
    let grown : active_count_for (save_run runs (claimed_run c)) c.identity
        ≡ active_count_for runs c.identity + 1 =
      ground (arith, total, before, own) in
    rw granted (
      find_active-inactive runs c.identity inactive,
      find_active-save runs c ∙ ap some same,
      grown,
      omega (arith, grown, room),
    )
