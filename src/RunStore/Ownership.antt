-- ===== src/RunStore/Ownership.antt =====
-- src/application/in-memory-workflow-run-store.ts: jobs that an attempt owns.
use linear_pi_orchestrator.Prelude.{
  String, subst, false, none, some, List, [], ◌∷◌, ◌≡◌, ◌≢◌, refl, arith, ◌==◌, text_eq?_iff,
}
use linear_pi_orchestrator.Domain.{
  WorkflowJobTransition, WorkflowJobState, WorkflowRunRecord, WorkflowRunIdentity,
}
use linear_pi_orchestrator.Domain.Key.{create_workflow_run_key}
use linear_pi_orchestrator.RunStore.Job.{Claim, unclaimable, claimed_job, fenced_off}
use linear_pi_orchestrator.RunStore.{Records, claim_workflow_job, update_workflow_job, job_of}
use linear_pi_orchestrator.RunStore.Cases.{claim_cases, retry_cases, update_cases, finish_cases}
use linear_pi_orchestrator.RunStore.Keyed.{Inv, call-Inv}
use linear_pi_orchestrator.RunStore.States.{state_at, state_at-found}
use linear_pi_orchestrator.RunStore.Ops.{
  Call, opens, claims, retries, updates, finishes, call, calls, Each,
}
use linear_pi_orchestrator.RunStore.Keeps.{
  state_at-written, write-keeps, same_jobs-keeps, retry-keeps, open-keeps,
}

-- A call by which the attempt `a` does not give its job up: no retry of the run, and no write to
-- the job under this attempt's own token.
abbrev pub Foreign : String → String → String → Call → Type 0
Foreign key id a (retries identity ids at) = create_workflow_run_key identity ≢ key
Foreign key id a (updates identity job t) =
    create_workflow_run_key identity ≡ key → job ≡ id → t.expected_attempt_id ≢ some a
Foreign key id a (opens input) = Unit
Foreign key id a (claims identity job c) = Unit
Foreign key id a (finishes identity result at) = Unit

owned-call :
    (records : Records) (c : Call) (key id a : String) (s : WorkflowJobState)
    → Inv records
    → Foreign key id a c
    → (a == "") ≡ false
    → s.attempt_id ≡ some a
    → state_at records key id ≡ some s
    → state_at (call records c) key id ≡ some s
unfolding call
owned-call records (opens input) key id a s v clear named own now =
    open-keeps records v key id s now input
owned-call records (claims identity job c) key id a s v clear named own now =
    claim_cases records identity (λ r. state_at r.0 key id ≡ some s) job c now
      λ r e running free.
        write-keeps records v key id s now _ job r _ c.at e
          λ _ _ same. let free' = subst (λ x. unclaimable x ≡ false) same free in ground arith
owned-call records (retries identity ids at) key id a s v clear named own now =
    retry_cases records identity (λ r. state_at r.0 key id ≡ some s) ids at now
      λ r e. retry-keeps records v key id s now _ r _ e clear
owned-call records (updates identity job t) key id a s v clear named own now =
    update_cases records identity (λ r. state_at r.0 key id ≡ some s) job t now
      λ r e running free. write-keeps records v key id s now _ job r _ t.at e λ kk jj same.
        let free' = subst (λ x. fenced_off x t ≡ false) same free in
        clear kk jj (ground (arith, text_eq?_iff s.attempt_id t.expected_attempt_id))
owned-call records (finishes identity result at) key id a s v clear named own now =
    finish_cases records identity (λ r. state_at r.0 key id ≡ some s) result at now
      λ r e running. same_jobs-keeps records v key id s now _ r _ e refl

owned-calls :
    (records : Records) (cs : List Call) (key id a : String) (s : WorkflowJobState)
    → Inv records
    → Each (Foreign key id a) cs
    → (a == "") ≡ false
    → s.attempt_id ≡ some a
    → state_at records key id ≡ some s
    → state_at (calls records cs) key id ≡ some s
unfolding calls
owned-calls records [] key id a s v clear named own now = now
owned-calls records (c ∷ cs) key id a s v clear named own now =
    owned-calls (call records c) cs key id a s (call-Inv records c v) clear.1 named own
      (owned-call records c key id a s v clear.0 named own now)

-- A job that an attempt owns is not claimed.
claim-refused :
    (records : Records) (identity : WorkflowRunIdentity) (id a : String) (c : Claim)
    (s : WorkflowJobState)
    → (a == "") ≡ false
    → s.attempt_id ≡ some a
    → state_at records (create_workflow_run_key identity) id ≡ some s
    → (claim_workflow_job records identity id c).1 ≡ none
claim-refused records identity id a c s named own now =
    claim_cases records identity (λ r. r.1 ≡ none) id c refl
      λ r e running free.
        let same : job_of r id ≡ s = cc (state_at-found records _ id r e, now) in
        let free' = subst (λ x. unclaimable x ≡ false) same free in ground arith

-- A claim that succeeds makes its attempt the owner.
claim-owns :
    (records : Records) (identity : WorkflowRunIdentity) (id : String) (c : Claim)
    {run : WorkflowRunRecord}
    → Inv records
    → (claim_workflow_job records identity id c).1 ≡ some run
    → (s : WorkflowJobState) × (s.attempt_id ≡ some c.attempt_id)
      × (state_at (claim_workflow_job records identity id c).0 (create_workflow_run_key identity) id
          ≡ some s)
claim-owns records identity id c {run} v =
    let key = create_workflow_run_key identity in
    claim_cases records identity
      (λ r.
        r.1 ≡ some run
        → (s : WorkflowJobState) × (s.attempt_id ≡ some c.attempt_id)
          × (state_at r.0 key id ≡ some s))
      id c (λ e. absurd (cc))
      λ r e running free h. (
        claimed_job (job_of r id) c,
        refl,
        state_at-written records key id r (claimed_job (job_of r id) c) c.at v e,
      )

-- A job has one owner at a time. After a successful claim under a token that is not empty, every
-- further claim of the job is refused, with whatever token and after any calls in between, as long
-- as none of them retries the run or writes to the job under the owner's token.
pub claim_exclusive :
    (records : Records) (identity : WorkflowRunIdentity) (id : String) (c c' : Claim)
    (cs : List Call) {run : WorkflowRunRecord}
    → Inv records
    → (c.attempt_id == "") ≡ false
    → (claim_workflow_job records identity id c).1 ≡ some run
    → Each (Foreign (create_workflow_run_key identity) id c.attempt_id) cs
    → (claim_workflow_job (calls (claim_workflow_job records identity id c).0 cs) identity id c').1
      ≡ none
unfolding call
claim_exclusive records identity id c c' cs v named won clear =
    let (s, own, now) = claim-owns records identity id c v won in
    claim-refused _ identity id c.attempt_id c' s named own (
      owned-calls (claim_workflow_job records identity id c).0 cs _ id c.attempt_id s
        (call-Inv records (claims identity id c) v) clear named own now)

-- While an attempt owns a job, a write under another token, or under none, is refused and writes
-- nothing.
pub update_fenced :
    (records : Records) (identity : WorkflowRunIdentity) (id a : String) (s : WorkflowJobState)
    (t : WorkflowJobTransition)
    → state_at records (create_workflow_run_key identity) id ≡ some s
    → s.attempt_id ≡ some a
    → t.expected_attempt_id ≢ some a
    → update_workflow_job records identity id t ≡ (records, none)
update_fenced records identity id a s t now own other =
    update_cases records identity (λ r. r ≡ (records, none)) id t refl
      λ r e running free.
        let same : job_of r id ≡ s = cc (state_at-found records _ id r e, now) in
        let free' = subst (λ x. fenced_off x t ≡ false) same free in
        absurd (other (ground (arith, text_eq?_iff s.attempt_id t.expected_attempt_id)))
