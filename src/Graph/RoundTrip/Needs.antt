-- ===== src/Graph/RoundTrip/Needs.antt =====
-- src/workflows/graph.ts: the edges that are made for needs give the needs back.
use linear_pi_orchestrator.Prelude.{
  ℕ, suc, String, Bool, true, false, some, List, [], ◌∷◌, ◌++◌, ◌==◌, ◌≡◌, refl, ap, ◌∙◌, subst,
  arith, eq_iff, eq_refl, if◌then◌else◌, includes, Distinct, append-nil, Bool-cases, inl, inr,
}
use linear_pi_orchestrator.Prelude.Table
use linear_pi_orchestrator.Prelude.Table.{Table}
use linear_pi_orchestrator.Prelude.Results.{Result, ok, thrown, ◌>>=◌, chain_inv, ok_inj}
use linear_pi_orchestrator.Domain.{NeedStatus}
use linear_pi_orchestrator.Domain.Status.{same_status, job_status}
use linear_pi_orchestrator.Config.{RelayNeed, RelayWorkflowJob, needs_list}
use linear_pi_orchestrator.Graph.{WorkflowEdge, EdgeCondition, matched, on, need_parts}
use linear_pi_orchestrator.Graph.FromRelay.{
  need_edges, jobs_edges, trigger_edge, with_trigger_edges,
}
use linear_pi_orchestrator.Graph.ToRelay.{needs_equivalent, original_or, need_of, needs_of}

-- One list of needs, then another.
abbrev both : Result (List RelayNeed) → Result (List RelayNeed) → Result (List RelayNeed)
both m k = m >>= λ xs. k >>= λ ys. ok (xs ++ ys)

need-both :
    (o : Result RelayNeed) (m k : Result (List RelayNeed))
    → (o >>= λ need. both m k >>= λ needs. ok (need ∷ needs))
      ≡ both (o >>= λ need. m >>= λ needs. ok (need ∷ needs)) k
need-both (thrown e) m k = refl
need-both (ok need) (thrown e) k = refl
need-both (ok need) (ok xs) (thrown e) = refl
need-both (ok need) (ok xs) (ok ys) = refl

need_of-both :
    (edge : WorkflowEdge) (condition : EdgeCondition) (m k : Result (List RelayNeed))
    → need_of edge condition (both m k) ≡ both (need_of edge condition m) k
need_of-both edge matched m k = refl
need_of-both edge (on status) m k = need-both (original_or edge.source status edge.relay_need) m k

both-nil : (k : Result (List RelayNeed)) → k ≡ both (ok []) k
both-nil (ok ys) = refl
both-nil (thrown e) = refl

needs_of-append :
    (id : String) (xs ys : List WorkflowEdge)
    → needs_of id (xs ++ ys) ≡ both (needs_of id xs) (needs_of id ys)
unfolding needs_of
needs_of-append id [] ys = both-nil (needs_of id ys)
needs_of-append id (x ∷ xs) ys = elim (Bool-cases (x.target == id)) [
  | inl e ↦
      rw (e, needs_of-append id xs ys)
        (need_of-both x x.condition (needs_of id xs) (needs_of id ys))
  | inr e ↦ rw e (needs_of-append id xs ys)
]

both_nil : (m : Result (List RelayNeed)) → both m (ok []) ≡ m
both_nil (ok xs) = ap ok (append-nil xs)
both_nil (thrown e) = refl

needs_of-trigger_edge : (id job_id : String) → needs_of id (trigger_edge job_id ∷ []) ≡ ok []
unfolding needs_of
needs_of-trigger_edge id job_id = ground arith

needs_of-if :
    (id job_id : String) (has_need : Bool) (edges : List WorkflowEdge)
    → needs_of id (if has_need then edges else edges ++ trigger_edge job_id ∷ [])
      ≡ needs_of id edges
needs_of-if id job_id true edges = refl
needs_of-if id job_id false edges =
    needs_of-append id edges (trigger_edge job_id ∷ [])
    ∙ rw (needs_of-trigger_edge id job_id) (both_nil (needs_of id edges))

pub needs_of-with_trigger_edges :
    (id : String) (job_ids : List String) (edges : List WorkflowEdge)
    → needs_of id (with_trigger_edges edges job_ids) ≡ needs_of id edges
unfolding with_trigger_edges
needs_of-with_trigger_edges id [] edges = refl
needs_of-with_trigger_edges id (job_id ∷ job_ids) edges =
    needs_of-with_trigger_edges id job_ids _ ∙ needs_of-if id job_id _ edges

same_status_refl : (s : NeedStatus) → same_status (job_status s) (job_status s) ≡ true
same_status_refl NeedStatus.started = refl
same_status_refl NeedStatus.succeeded = refl
same_status_refl NeedStatus.failed = refl
same_status_refl NeedStatus.skipped = refl

-- An edge that was made for a need has that need.
original_or-own :
    (need : RelayNeed) (job : String) (status : NeedStatus)
    → need_parts need ≡ ok (job, status)
    → original_or job status (some need) ≡ ok need
unfolding needs_equivalent
original_or-own need job status e = rw (e, eq_refl job, same_status_refl status)

-- Each job's needs stand in the edges.
abbrev pub KeepsNeeds : List WorkflowEdge → Table RelayWorkflowJob → Type 0
KeepsNeeds edges = Table.Entries (λ id job. needs_of id edges ≡ ok (needs_list job.needs))

module _ (digits : ℕ → String) where
  -- The edges of a job give its needs back.
  needs_of-own :
      (id : String) (index : ℕ) (needs : List RelayNeed) (edges : List WorkflowEdge)
      → need_edges digits id index needs ≡ ok edges
      → needs_of id edges ≡ ok needs
  unfolding need_edges needs_of
  needs_of-own id index [] edges e = subst (λ es. needs_of id es ≡ ok []) (ok_inj e) refl
  needs_of-own id index (need ∷ needs) edges e =
      let ((job, status), first_part, e1) = chain_inv (need_parts need) _ _ e in
      let (rest, later, e2) = chain_inv (need_edges digits id (suc index) needs) _ _ e1 in
      subst (λ es. needs_of id es ≡ ok (need ∷ needs)) (ok_inj e2)
        (rw (
          eq_refl id,
          original_or-own need job status first_part,
          needs_of-own id (suc index) needs rest later,
        ))

  needs_of-other :
      (id other : String) (index : ℕ) (needs : List RelayNeed) (edges : List WorkflowEdge)
      → (other == id) ≡ false
      → need_edges digits other index needs ≡ ok edges
      → needs_of id edges ≡ ok []
  unfolding need_edges needs_of
  needs_of-other id other index [] edges d e = subst (λ es. needs_of id es ≡ ok []) (ok_inj e) refl
  needs_of-other id other index (need ∷ needs) edges d e =
      let (parts, first_part, e1) = chain_inv (need_parts need) _ _ e in
      let (rest, later, e2) = chain_inv (need_edges digits other (suc index) needs) _ _ e1 in
      subst (λ es. needs_of id es ≡ ok []) (ok_inj e2)
        (rw d (needs_of-other id other (suc index) needs rest d later))

  needs_of-absent :
      (id : String) (jobs : Table RelayWorkflowJob) (edges : List WorkflowEdge)
      → jobs_edges digits jobs ≡ ok edges
      → includes (Table.keys jobs) id ≡ false
      → needs_of id edges ≡ ok []
  unfolding jobs_edges needs_of
  needs_of-absent id [] edges e a = subst (λ es. needs_of id es ≡ ok []) (ok_inj e) refl
  needs_of-absent id ((other, job) ∷ jobs) edges e a =
      let (own, first_part, e1) =
        chain_inv (need_edges digits other 0 (needs_list job.needs)) _ _ e in
      let (rest, later, e2) = chain_inv (jobs_edges digits jobs) _ _ e1 in
      subst (λ es. needs_of id es ≡ ok []) (ok_inj e2)
        (needs_of-append id own rest
          ∙ rw (
            needs_of-other id other 0 (needs_list job.needs) own (ground arith) first_part,
            needs_of-absent id jobs rest later (ground arith),
          ))

  KeepsNeeds-append :
      (other : String) (job : RelayWorkflowJob) (own rest : List WorkflowEdge)
      (jobs : Table RelayWorkflowJob)
      → need_edges digits other 0 (needs_list job.needs) ≡ ok own
      → includes (Table.keys jobs) other ≡ false
      → KeepsNeeds rest jobs
      → KeepsNeeds (own ++ rest) jobs
  KeepsNeeds-append other job own rest [] e a k = tt
  KeepsNeeds-append other job own rest ((id, j) ∷ jobs) e a k = (
    needs_of-append id own rest
        ∙ rw (
          needs_of-other id other 0 (needs_list job.needs) own
              (ground (arith, eq_iff id other, eq_iff other id)) e,
          k.0,
        ),
    KeepsNeeds-append other job own rest jobs e (ground arith) k.1,
  )

  pub jobs_edges-KeepsNeeds :
      (jobs : Table RelayWorkflowJob) (edges : List WorkflowEdge)
      → jobs_edges digits jobs ≡ ok edges
      → Distinct (Table.keys jobs)
      → KeepsNeeds edges jobs
  unfolding jobs_edges
  jobs_edges-KeepsNeeds [] edges e d = tt
  jobs_edges-KeepsNeeds ((id, job) ∷ jobs) edges e d =
      let (own, first_part, e1) = chain_inv (need_edges digits id 0 (needs_list job.needs)) _ _ e in
      let (rest, later, e2) = chain_inv (jobs_edges digits jobs) _ _ e1 in
      subst (λ es. KeepsNeeds es ((id, job) ∷ jobs)) (ok_inj e2)
        (
          needs_of-append id own rest
              ∙ rw
                  (
                    needs_of-own id 0 (needs_list job.needs) own first_part,
                    needs_of-absent id jobs rest later d.0,
                  )
                  (ap ok (append-nil (needs_list job.needs))),
          KeepsNeeds-append id job own rest jobs first_part d.0
              (jobs_edges-KeepsNeeds jobs rest later d.1),
        )
