-- ===== src/Execution/Order.antt =====
-- ExecuteJob.execute in packages/application/src/execute-job.ts, against the protocol.
use linear_pi_orchestrator.Prelude.{
  String, Option, none, some, List, [], ◌∷◌, ◌++◌, ◌≡◌, refl, subst, sym, inl, inr,
}
use linear_pi_orchestrator.Prelude.Results.{Result, ok, thrown, ◌>>=◌}
use linear_pi_orchestrator.Execution.Values.{Value}
use linear_pi_orchestrator.Execution.{
  Log, Results, Act, Round, run_targets, and_then, give_up, settle_job, settled, execute_alone,
  execute_targets, empty_outcome, execute_job, validate_outcome, outcome_of_round, on_targets,
  select_targets, on_claim, on_input,
}
use linear_pi_orchestrator.Execution.Host.{
  JobAttempt, Parsed, claims, ExecuteJobResult, not_claimed, completed, uncertain,
  ExecuteJobOperations,
}
use linear_pi_orchestrator.Execution.Protocol.{
  Phase, resolved, idle, held, listed, alone, over, targeted, ran, finished, Looping, loop_listed,
  Ready, ready_alone, ready_loop, Owning, owning_held, owning_ready, owning_finished, resolving,
  claiming, not_claiming, listing, running_alone, finishing, failing, Follows, begin, then_call,
  IsRound, IsExecuted, run_target-Follows, execute_with-Follows,
}

module _ {Raw Input Output Target : Type 0}
    (ops : ExecuteJobOperations Raw Input Output Target) where
  and_then-Follows :
      (a : JobAttempt) (rest : Results ops → Log ops → Round ops) (r : Round ops)
      → IsRound ops a r
      → ((results : Results ops) (log : Log ops) (q : Phase Target)
          → Follows ops log q
          → Looping a q
          → IsRound ops a (rest results log))
      → IsRound ops a (and_then ops r rest)
  and_then-Follows a rest (log, results, ok u) (q, f, l) next = next results log q f l
  and_then-Follows a rest (log, results, thrown m) (q, f, o) next = (q, f, o)

  run_targets-Follows :
      (i : Input) (ts : List Target) {log : Log ops} {a : JobAttempt} {q : Phase Target}
      → Follows ops log q
      → Looping a q
      → (results : Results ops) → IsRound ops a (run_targets ops a i ts results log)
  unfolding run_targets
  run_targets-Follows i [] f l results = (_, f, l)
  run_targets-Follows i (t ∷ ts) {a = a} f l results =
      and_then-Follows a _ _ (run_target-Follows ops t i f l results)
        λ results' log' q' f' l'. run_targets-Follows i ts f' l' results'

  -- Where a phase is when an exception leaves the execution: not between an action's call and the
  -- record of its end.
  abbrev pub IsQuiet : Phase Target → Type 0
  IsQuiet (alone a) = ⊥
  IsQuiet (targeted a t r) = ⊥
  IsQuiet (ran a t b) = ⊥
  IsQuiet _ = Unit

  -- How a result tells the end of the calls.
  abbrev pub EndsIn : Result (ExecuteJobResult Output Target) → Phase Target → Type 0
  EndsIn (ok not_claimed) q = q ≡ idle
  EndsIn (ok (completed token outcome results)) q =
      (a : JobAttempt) × (a.attempt_id ≡ token) × (q ≡ finished a (ok tt))
  EndsIn (ok (uncertain token message results)) q =
      (a : JobAttempt) × (a.attempt_id ≡ token) × (q ≡ over a)
  EndsIn (thrown m) q = IsQuiet q

  abbrev pub IsOrdered : Act ops (ExecuteJobResult Output Target) → Type 0
  IsOrdered (log, r) = (q : Phase Target) × Follows ops log q × EndsIn r q

  given_up :
      {log : Log ops} {a : JobAttempt} (m : String) (results : Results ops)
      → (r : Result (Unit {0})) → Follows ops log (over a)
      → IsOrdered (log, r >>= λ _. ok (uncertain a.attempt_id m results))
  given_up m results (ok u) f = (_, f, (_, refl, refl))
  given_up m results (thrown m') f = (_, f, tt)

  give_up-Follows :
      {log : Log ops} {a : JobAttempt} {q : Phase Target} (m : String) (results : Results ops)
      → Follows ops log q
      → Owning a q
      → IsOrdered (give_up ops a m results log)
  give_up-Follows {log = log} {a = a} m results f o =
      given_up m results (ops.finish_uncertain log a.attempt_id m results) (then_call f (failing o))

  settled-Follows :
      {log : Log ops} {a : JobAttempt} (outcome : Parsed Output) (results : Results ops)
      → (r : Result (Unit {0})) → Follows ops log (finished a r)
      → IsOrdered (settled ops a outcome results log r)
  settled-Follows outcome results (ok u) f = (_, f, (_, refl, refl))
  settled-Follows outcome results (thrown m) f = give_up-Follows m results f owning_finished

  settle_job-Follows :
      {log : Log ops} {a : JobAttempt} {q : Phase Target} (results : Results ops)
      → (r : Result (Parsed Output)) → Follows ops log q
      → Ready a q
      → IsOrdered (settle_job ops a results log r)
  settle_job-Follows {log = log} {a = a} results (ok outcome) f y =
      settled-Follows outcome results (ops.finish_job log a.attempt_id outcome results)
        (then_call f (finishing y))
  settle_job-Follows results (thrown m) f y = give_up-Follows m results f (owning_ready y)

  settle_round :
      {log : Log ops} (a : JobAttempt) (results : Results ops) (r : Result (Unit {0}))
      → IsRound ops a (log, results, r)
      → IsOrdered (settle_job ops a results log (outcome_of_round ops results r))
  settle_round a results (ok u) (q, f, l) = settle_job-Follows results _ f (ready_loop l)
  settle_round a results (thrown m) (q, f, o) = give_up-Follows m results f o

  settle_alone :
      {log : Log ops} {a : JobAttempt}
      → Follows ops log (held a)
      → (act : Act ops Value) → IsExecuted ops log (alone a) act
      → IsOrdered (settle_job ops a [] act.0 (act.1 >>= validate_outcome ops))
  unfolding IsExecuted
  settle_alone f act (inl g) = settle_job-Follows [] (act.1 >>= validate_outcome ops) g ready_alone
  settle_alone {a = a} f act (inr (m, e)) =
      subst (λ x. IsOrdered (settle_job ops a [] x.0 (x.1 >>= validate_outcome ops))) (sym e)
        (give_up-Follows m [] f owning_held)

  empty-Follows :
      {log : Log ops} {a : JobAttempt} (r : Result (Unit {0}))
      → Follows ops log (finished a r)
      → IsOrdered (log, r >>= λ _. ok (completed a.attempt_id (empty_outcome ops) []))
  empty-Follows (ok u) f = (_, f, (_, refl, refl))
  empty-Follows (thrown m) f = (_, f, tt)

  on_targets-Follows :
      {log : Log ops} {a : JobAttempt} (i : Input)
      → (r : Result (List Target)) → Follows ops log (listed a)
      → IsOrdered (on_targets ops a i log r)
  unfolding execute_targets
  on_targets-Follows i (thrown m) f = (_, f, tt)
  on_targets-Follows {log = log} {a = a} i (ok []) f =
      empty-Follows (ops.finish_job log a.attempt_id (empty_outcome ops) [])
        (then_call f (finishing (ready_loop loop_listed)))
  on_targets-Follows {a = a} i (ok (t ∷ ts)) f =
      settle_round a _ _ (run_targets-Follows i (t ∷ ts) f loop_listed [])

  select_targets-Follows :
      {log : Log ops} {a : JobAttempt} (i : Input)
      → Follows ops log (held a)
      → (o : Option (Log ops → Result (List Target))) → IsOrdered (select_targets ops a i log o)
  unfolding execute_alone
  select_targets-Follows {log = log} {a = a} i f none =
      settle_alone f _ (execute_with-Follows ops none i f running_alone ops.heartbeat)
  select_targets-Follows {log = log} i f (some list) =
      on_targets-Follows i (list log) (then_call f listing)

  on_claim-Follows :
      {log : Log ops} (i : Input)
      → (r : Result (Option JobAttempt)) → ops.claim_job log i ≡ r
      → Follows ops log resolved
      → IsOrdered (on_claim ops i (log ++ claims i ∷ []) r)
  on_claim-Follows i (thrown m) e f = (_, then_call f not_claiming, tt)
  on_claim-Follows i (ok none) e f = (_, then_call f not_claiming, refl)
  on_claim-Follows i (ok (some a)) e f =
      select_targets-Follows i (then_call f (claiming e)) ops.list_targets

  on_input-Follows :
      {log : Log ops} (r : Result Input) → Follows ops log resolved → IsOrdered (on_input ops log r)
  on_input-Follows (thrown m) f = (_, f, tt)
  on_input-Follows {log = log} (ok i) f = on_claim-Follows i (ops.claim_job log i) refl f

  -- Whatever the host's operations answer, the calls of an execution keep to the protocol: input,
  -- then the claim, then each target claimed before it is run, then at most one completion of the
  -- job and at most one report of uncertainty, both under the claimed attempt. The result `completed`
  -- comes only after a completion that was accepted, `uncertain` only after the report, and an
  -- exception never leaves between the call of an action and the record of its end.
  pub execute_job-Follows : IsOrdered (execute_job ops [])
  unfolding execute_job
  execute_job-Follows =
      on_input-Follows (ops.resolve_input [] >>= ops.parse_input) (then_call begin resolving)
