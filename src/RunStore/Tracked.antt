-- ===== src/RunStore/Tracked.antt =====
-- src/application/in-memory-workflow-run-store.ts: the attempt trail of one job.
use linear_pi_orchestrator.Prelude.{
  suc, patch, ◌≤◌, String, true, false, not, ◌||◌, ◌&&◌, Option, none, some, List, [], ◌∷◌, ◌++◌,
  map, ◌≡◌, refl, ap, inl, inr, arith, length, length-append, Any, here, there, is_some,
  get_or_else, Bool-cases, Option-cases, flag, text_eq?_iff,
}
use linear_pi_orchestrator.Prelude.Table
use linear_pi_orchestrator.Prelude.Table.{Table, Entries}
use linear_pi_orchestrator.Domain.{
  AttemptEntry, WorkflowJobState, WorkflowRunRecord, WorkflowJobTransition,
}
use linear_pi_orchestrator.Domain.Status.{pending_state, is_terminal_job_status}
use linear_pi_orchestrator.RunStore.Job.{
  Claim, claim_entry, unwanted, unclaimable, claimed_job, reset_job, retried_job, retried_jobs,
  fenced_off, updated_job, next_history,
}
use linear_pi_orchestrator.RunStore.{job_of}

abbrev pub history_of : WorkflowJobState → List AttemptEntry
history_of s = get_or_else s.attempt_history []

pub record IsTracked (s : WorkflowJobState) : Type 0 where
  -- the owner's claim is in the trail
  pub owned :
      (a : String)
      → s.attempt_id ≡ some a
      → Any (λ (e : AttemptEntry). e.attempt_id ≡ a) (history_of s)
  -- every claim counted as an attempt
  pub counted : length (history_of s) ≤ s.attempts
  -- nobody owns a job that is over
  pub released : is_terminal_job_status s.status ≡ true → s.attempt_id ≡ none
  -- a completion time is recorded exactly for a job that is over
  pub timed : is_some s.completed_at ≡ is_terminal_job_status s.status

pending-IsTracked : IsTracked pending_state
pending-IsTracked = record {
  owned = λ a e. cc;
  counted = omega arith;
  released = λ e. refl;
  timed = refl;
}

Any-last :
    {a : String} (xs : List AttemptEntry) (e : AttemptEntry)
    → e.attempt_id ≡ a
    → Any (λ (e : AttemptEntry). e.attempt_id ≡ a) (xs ++ e ∷ [])
Any-last [] e h = here h
Any-last (x ∷ xs) e h = there (Any-last xs e h)

pub claimed-IsTracked :
    (s : WorkflowJobState) (c : Claim)
    → unclaimable s ≡ false
    → IsTracked s
    → IsTracked (claimed_job s c)
claimed-IsTracked s c h t = record {
  owned = λ a e. Any-last (history_of s) (claim_entry c) (cc);
  counted = omega (arith, t.counted, length-append (history_of s) (claim_entry c ∷ []));
  released = λ e. ground arith;
  timed = ground (arith, t.timed);
}

reset-IsTracked : (s : WorkflowJobState) → IsTracked s → IsTracked (reset_job s)
reset-IsTracked s t = record {
  owned = λ a e. cc;
  counted = t.counted;
  released = λ e. refl;
  timed = refl;
}

retried-IsTracked :
    (wanted : Option (List String)) (id : String) (s : WorkflowJobState)
    → IsTracked s
    → IsTracked (retried_job wanted id s)
retried-IsTracked wanted id s t =
    elim (Bool-cases (
      unwanted wanted id
      || not (is_terminal_job_status s.status) && not (flag s.needs_attention))) [
        | inl kept ↦ rw kept t
        | inr reset ↦ rw reset (reset-IsTracked s t)
      ]

length-map :
    (f : AttemptEntry → AttemptEntry) (xs : List AttemptEntry) → length (map f xs) ≡ length xs
length-map f [] = refl
length-map f (x ∷ xs) = ap suc (length-map f xs)

length-next_history :
    (s : WorkflowJobState) (t : WorkflowJobTransition)
    → length (get_or_else (patch (next_history s t) s.attempt_history) []) ≡ length (history_of s)
length-next_history s t = elim (Option-cases t.expected_attempt_id) [
  | inl e ↦ rw e (ground arith)
  | inr (a, e) ↦ rw e (length-map _ (history_of s))
]

-- An accepted write leaves the job with no owner.
pub updated_job-unowned :
    (s : WorkflowJobState) (t : WorkflowJobTransition)
    → fenced_off s t ≡ false
    → (updated_job s t).attempt_id ≡ none
updated_job-unowned s t h = ground (arith, text_eq?_iff s.attempt_id t.expected_attempt_id)

pub updated-IsTracked :
    (s : WorkflowJobState) (t : WorkflowJobTransition)
    → fenced_off s t ≡ false
    → IsTracked s
    → IsTracked (updated_job s t)
updated-IsTracked s t h i = record {
  owned = λ a e. cc (updated_job-unowned s t h);
  counted = omega (arith, i.counted, length-next_history s t);
  released = λ e. updated_job-unowned s t h;
  timed = ground arith;
}

pub job_of-IsTracked :
    (run : WorkflowRunRecord) (id : String)
    → Entries (λ id s. IsTracked s) run.jobs
    → IsTracked (job_of run id)
job_of-IsTracked run id t = elim (Option-cases (Table.get run.jobs id)) [
  | inl e ↦ rw e pending-IsTracked
  | inr (s, e) ↦ rw e (Table.Entries-get (λ id s. IsTracked s) run.jobs id t e)
]

pub keys-retried_jobs :
    (wanted : Option (List String)) (jobs : Table WorkflowJobState)
    → Table.keys (retried_jobs wanted jobs) ≡ Table.keys jobs
unfolding retried_jobs
keys-retried_jobs wanted [] = refl
keys-retried_jobs wanted ((id, s) ∷ jobs) = cc (keys-retried_jobs wanted jobs)

pub retried_jobs-IsTracked :
    (wanted : Option (List String)) (jobs : Table WorkflowJobState)
    → Entries (λ id s. IsTracked s) jobs
    → Entries (λ id s. IsTracked s) (retried_jobs wanted jobs)
unfolding retried_jobs
retried_jobs-IsTracked wanted [] t = tt
retried_jobs-IsTracked wanted ((id, s) ∷ jobs) t =
    (retried-IsTracked wanted id s t.0, retried_jobs-IsTracked wanted jobs t.1)
