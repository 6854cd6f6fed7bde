-- ===== src/Execution/Protocol.antt =====
-- The order of a job's effects, as a state machine whose steps are the calls of the host.
use linear_pi_orchestrator.Prelude.{
  String, Bool, true, false, Option, none, some, [], ◌∷◌, ◌++◌, ◌≡◌, refl, ◌⊎◌, inl, inr, subst,
  sym,
}
use linear_pi_orchestrator.Prelude.Results.{Result, ok, thrown, ◌>>=◌}
use linear_pi_orchestrator.Execution.Values.{Value}
use linear_pi_orchestrator.Execution.{
  Log, Results, Act, Round, execute_with, execute_renewed, finish_with, run_target, after_run,
  after_target_claim, claimed_target, claim_with, validate_outcome,
}
use linear_pi_orchestrator.Execution.Host.{
  JobAttempt, Parsed, Event, resolves, claims, lists, claims_target, executes, finishes_target,
  finishes_job, finishes_uncertain, ExecuteJobOperations,
}

-- Where an execution stands. `targeted` keeps how the claim of the target was answered, `finished`
-- how the completion of the job was.
pub data Phase (Target : Type 0) : Type 0 where
  started resolved idle : Phase Target
  held listed alone over : JobAttempt → Phase Target
  targeted : JobAttempt → Target → Result (Option JobAttempt) → Phase Target
  ran : JobAttempt → Target → JobAttempt → Phase Target
  finished : JobAttempt → Result (Unit {0}) → Phase Target

-- Between two targets.
pub data Looping {Target : Type 0} : JobAttempt → Phase Target → Type 0 where
  loop_listed : {a : JobAttempt} → Looping a (listed a)
  loop_ran : {a : JobAttempt} {t : Target} {b : JobAttempt} → Looping a (ran a t b)

-- The job may be completed.
pub data Ready {Target : Type 0} : JobAttempt → Phase Target → Type 0 where
  ready_alone : {a : JobAttempt} → Ready a (alone a)
  ready_loop : {a : JobAttempt} {q : Phase Target} → Looping a q → Ready a q

-- The job may be given up: it is claimed, and not yet completed.
pub data Owning {Target : Type 0} : JobAttempt → Phase Target → Type 0 where
  owning_held : {a : JobAttempt} → Owning a (held a)
  owning_ready : {a : JobAttempt} {q : Phase Target} → Ready a q → Owning a q
  owning_targeted :
      {a : JobAttempt} {t : Target} {r : Result (Option JobAttempt)} → Owning a (targeted a t r)
  owning_finished : {a : JobAttempt} {m : String} → Owning a (finished a (thrown m))

module _ {Raw Input Output Target : Type 0}
    (ops : ExecuteJobOperations Raw Input Output Target) where
  -- The calls that may follow the calls of a log.
  pub data Step : Log ops → Phase Target → Event Input Output Target → Phase Target → Type 0 where
    resolving : {log : Log ops} → Step log started resolves resolved
    claiming :
        {log : Log ops} {i : Input} {a : JobAttempt}
        → ops.claim_job log i ≡ ok (some a)
        → Step log resolved (claims i) (held a)
    not_claiming : {log : Log ops} {i : Input} → Step log resolved (claims i) idle
    listing : {log : Log ops} {a : JobAttempt} → Step log (held a) lists (listed a)
    running_alone :
        {log : Log ops} {a : JobAttempt} {i : Input}
        → Step log (held a) (executes a none i) (alone a)
    targeting :
        {log : Log ops} {a : JobAttempt} {q : Phase Target} {t : Target} {i : Input}
        {claim : Log ops → Target → Input → Result (Option JobAttempt)}
        → Looping a q
        → ops.claim_target ≡ some claim
        → Step log q (claims_target t i) (targeted a t (claim log t i))
    running :
        {log : Log ops} {a : JobAttempt} {t : Target} {b : JobAttempt} {i : Input}
        → Step log (targeted a t (ok (some b))) (executes a (some (t, b)) i) (ran a t b)
    closing :
        {log : Log ops} {a : JobAttempt} {t : Target} {b : JobAttempt} {o : Parsed Output}
        → Step log (ran a t b) (finishes_target t b.attempt_id o) (listed a)
    finishing :
        {log : Log ops} {a : JobAttempt} {q : Phase Target} {o : Parsed Output} {rs : Results ops}
        → Ready a q
        → Step log q
            (finishes_job a.attempt_id o rs)
            (finished a (ops.finish_job log a.attempt_id o rs))
    failing :
        {log : Log ops} {a : JobAttempt} {q : Phase Target} {m : String} {rs : Results ops}
        → Owning a q
        → Step log q (finishes_uncertain a.attempt_id m rs) (over a)

  -- A log that leads from the start to a phase.
  pub data Follows : Log ops → Phase Target → Type 0 where
    begin : Follows [] started
    then_call :
        {log : Log ops} {p q : Phase Target} {e : Event Input Output Target}
        → Follows log p
        → Step log p e q
        → Follows (log ++ e ∷ []) q

  -- How a round of the loop leaves the job.
  abbrev pub RoundEnd : JobAttempt → Phase Target → Result (Unit {0}) → Type 0
  RoundEnd a q (ok u) = Looping a q
  RoundEnd a q (thrown m) = Owning a q

  abbrev pub IsRound : JobAttempt → Round ops → Type 0
  IsRound a (log, results, r) = (q : Phase Target) × Follows log q × RoundEnd a q r

  closed_end :
      {log : Log ops} {a : JobAttempt} (r : Result (Unit {0}))
      → Follows log (listed a)
      → (results : Results ops) → IsRound a (log, results, r)
  closed_end (ok u) f results = (_, f, loop_listed)
  closed_end (thrown m) f results = (_, f, owning_ready (ready_loop loop_listed))

  finish_with-Follows :
      {log : Log ops} {a b : JobAttempt} {t : Target}
      → Follows log (ran a t b)
      → (o : Option (Log ops → Target → String → Parsed Output → Result (Unit {0})))
      → (outcome : Parsed Output) → (results : Results ops)
      → let (log', done) = finish_with ops o t b.attempt_id outcome log in
        IsRound a (log', results, done)
  finish_with-Follows f none outcome results = (_, f, loop_ran)
  finish_with-Follows {log = log} {b = b} {t = t} f (some finish) outcome results =
      closed_end (finish log t b.attempt_id outcome) (then_call f closing) results

  -- The calls of an execution: none if the interval is refused.
  unfoldable pub IsExecuted : Log ops → Phase Target → Act ops Value → Type 0
  IsExecuted log q act = Follows act.0 q ⊎ ((m : String) × (act ≡ (log, thrown m)))

  execute_renewed-Follows :
      {log : Log ops} {a : JobAttempt} {p q : Phase Target} (tg : Option (Target × JobAttempt))
      (i : Input)
      → Follows log p
      → Step log p (executes a tg i) q
      → (beat : Log ops → JobAttempt → Option (Target × JobAttempt) → Option String)
      → (valid : Bool) → IsExecuted log q (execute_renewed ops valid beat a tg i log)
  unfolding IsExecuted
  execute_renewed-Follows tg i f s beat true = inl (then_call f s)
  execute_renewed-Follows tg i f s beat false = inr (_, refl)

  pub execute_with-Follows :
      {log : Log ops} {a : JobAttempt} {p q : Phase Target} (tg : Option (Target × JobAttempt))
      (i : Input)
      → Follows log p
      → Step log p (executes a tg i) q
      → (o : Option (Log ops → JobAttempt → Option (Target × JobAttempt) → Option String))
      → IsExecuted log q (execute_with ops o a tg i log)
  unfolding IsExecuted
  execute_with-Follows tg i f s none = inl (then_call f s)
  execute_with-Follows tg i f s (some beat) =
      execute_renewed-Follows tg i f s beat ops.valid_interval

  after_run-Follows :
      {log : Log ops} {a b : JobAttempt} {t : Target}
      → Follows log (ran a t b)
      → (results : Results ops) → (r : Result (Parsed Output))
      → IsRound a (after_run ops t b results (log, r))
  after_run-Follows f results (thrown m) = (_, f, owning_ready (ready_loop loop_ran))
  after_run-Follows {t = t} f results (ok outcome) =
      finish_with-Follows f ops.finish_target outcome
        (results ++ record { target = t; outcome = outcome } ∷ [])

  executed-Follows :
      {log : Log ops} {a b : JobAttempt} {t : Target}
      → Follows log (targeted a t (ok (some b)))
      → (results : Results ops) → (act : Act ops Value) → IsExecuted log (ran a t b) act
      → IsRound a (after_run ops t b results (act.0, act.1 >>= validate_outcome ops))
  unfolding IsExecuted
  executed-Follows f results act (inl g) =
      after_run-Follows g results (act.1 >>= validate_outcome ops)
  executed-Follows {a = a} {b = b} {t = t} f results act (inr (m, e)) =
      subst (λ x. IsRound a (after_run ops t b results (x.0, x.1 >>= validate_outcome ops))) (sym e)
        (_, f, owning_targeted)

  claimed-Follows :
      {log : Log ops} {a : JobAttempt} {t : Target} (i : Input)
      → (r : Result (Option JobAttempt)) → Follows log (targeted a t r)
      → (results : Results ops)
      → IsRound a (after_target_claim ops a i t results (log, claimed_target ops r))
  claimed-Follows i (thrown m) f results = (_, f, owning_targeted)
  claimed-Follows i (ok none) f results = (_, f, owning_targeted)
  claimed-Follows {log = log} {a = a} {t = t} i (ok (some b)) f results =
      executed-Follows f results _ (execute_with-Follows (some (t, b)) i f running ops.heartbeat)

  claim_with-Follows :
      {log : Log ops} {a : JobAttempt} {q : Phase Target} (t : Target) (i : Input)
      → Follows log q
      → Looping a q
      → (results : Results ops)
      → (o : Option (Log ops → Target → Input → Result (Option JobAttempt))) → ops.claim_target ≡ o
      → IsRound a (after_target_claim ops a i t results (claim_with ops o t i log))
  claim_with-Follows t i f l results none e = (_, f, owning_ready (ready_loop l))
  claim_with-Follows {log = log} t i f l results (some claim) e =
      claimed-Follows i (claim log t i) (then_call f (targeting l e)) results

  pub run_target-Follows :
      {log : Log ops} {a : JobAttempt} {q : Phase Target} (t : Target) (i : Input)
      → Follows log q
      → Looping a q
      → (results : Results ops) → IsRound a (run_target ops a i t results log)
  unfolding run_target
  run_target-Follows {log = log} {a = a} t i f l results =
      claim_with-Follows t i f l results ops.claim_target refl
