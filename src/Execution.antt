-- ===== src/Execution.antt =====
-- packages/application/src/execute-job.ts: the order of a durable job's effects. What the host
-- supplies is a record of operations; an operation's answer may depend on all calls so far.
pub mod Host
pub mod Values
pub mod Outcomes
pub mod Protocol
pub mod Order
pub mod Selection
use linear_pi_orchestrator.Prelude.{
  ℕ, String, Bool, true, false, Option, none, some, List, [], ◌∷◌, ◌++◌, map, if◌then◌else◌,
  get_or_else,
}
use linear_pi_orchestrator.Prelude.Texts.{append}
use linear_pi_orchestrator.Prelude.Results.{Result, ok, thrown, ◌>>=◌}
use linear_pi_orchestrator.Domain.{Timestamp}
use linear_pi_orchestrator.Execution.Values.{Value, undefined, text}
use linear_pi_orchestrator.Execution.Outcomes.{Outcome, adapt_action_outcome, select_outcome}
use linear_pi_orchestrator.Execution.Host.{
  Event, ExecuteJobOperations, ExecuteJobResult, JobAttempt, Parsed, TargetJobResult, claims,
  claims_target, completed, executes, finishes_job, finishes_target, finishes_uncertain, lists,
  not_claimed, resolves, uncertain,
}

module _ {Raw Input Output Target : Type 0}
    (ops : ExecuteJobOperations Raw Input Output Target) where
  abbrev pub Log : Type 0
  Log = List (Event Input Output Target)

  abbrev pub Results : Type 0
  Results = List (TargetJobResult Output Target)

  -- The calls so far and an answer.
  abbrev pub Act : Type 0 → Type 0
  Act A = Log × Result A

  abbrev pub note : Log → Event Input Output Target → Log
  note log event = log ++ event ∷ []

  abbrev with_output : Outcome Value → Option Output → Parsed Output
  with_output o out = record {
    status = o.status;
    output = out;
    message = o.message;
    retry_at = o.retry_at;
    reason = o.reason;
    operation = o.operation;
    error = o.error;
  }

  abbrev parsed : Outcome Value → Value → Result (Parsed Output)
  parsed o undefined = ok (with_output o none)
  parsed o v = ops.parse_output v >>= λ out. ok (with_output o (some out))

  abbrev adapted : Option (Value → Result (Outcome Value)) → Value → Result (Outcome Value)
  adapted none raw = adapt_action_outcome ops.is_date raw none
  adapted (some adapt) raw = adapt raw

  abbrev pub validate_outcome : Value → Result (Parsed Output)
  validate_outcome raw = adapted ops.adapt_outcome raw >>= λ o. parsed o o.output

  abbrev unless_lost : Option String → Value → Result Value
  unless_lost none v = ok v
  unless_lost (some failure) v = thrown (append "Attempt lease renewal failed: " failure)

  -- A call with renewals, if the interval between them is valid.
  abbrev pub execute_renewed :
      Bool
      → (Log → JobAttempt → Option (Target × JobAttempt) → Option String)
      → JobAttempt
      → Option (Target × JobAttempt)
      → Input
      → Log
      → Act Value
  execute_renewed true beat attempt target input log = (
    note log (executes attempt target input),
    ops.execute log attempt target input >>= unless_lost (beat log attempt target),
  )
  execute_renewed false beat attempt target input log =
      (log, thrown "heartbeatIntervalMs must be a positive finite number.")

  abbrev pub execute_with :
      Option (Log → JobAttempt → Option (Target × JobAttempt) → Option String)
      → JobAttempt
      → Option (Target × JobAttempt)
      → Input
      → Log
      → Act Value
  execute_with none attempt target input log =
      (note log (executes attempt target input), ops.execute log attempt target input)
  execute_with (some beat) attempt target input log =
      execute_renewed ops.valid_interval beat attempt target input log

  -- A run and the validation of what it returns.
  abbrev pub execute_validated :
      JobAttempt → Option (Target × JobAttempt) → Input → Log → Act (Parsed Output)
  execute_validated attempt target input log =
      let (log', raw) = execute_with ops.heartbeat attempt target input log in
      (log', raw >>= validate_outcome)

  abbrev pub claimed_target : Result (Option JobAttempt) → Result JobAttempt
  claimed_target (thrown m) = thrown m
  claimed_target (ok none) = thrown "A target action has an unresolved prior invocation."
  claimed_target (ok (some claim)) = ok claim

  abbrev pub claim_with :
      Option (Log → Target → Input → Result (Option JobAttempt))
      → Target
      → Input
      → Log
      → Act JobAttempt
  claim_with none target input log =
      (log, thrown "Worker execution requires a target claim operation.")
  claim_with (some claim) target input log =
      (note log (claims_target target input), claimed_target (claim log target input))

  abbrev pub finish_with :
      Option (Log → Target → String → Parsed Output → Result (Unit {0}))
      → Target
      → String
      → Parsed Output
      → Log
      → Act (Unit {0})
  finish_with none target token outcome log = (log, ok tt)
  finish_with (some finish) target token outcome log =
      (note log (finishes_target target token outcome), finish log target token outcome)

  -- One round of the loop has ended with the results so far, or has thrown.
  abbrev pub Round : Type 0
  Round = Log × Results × Result (Unit {0})

  abbrev pub after_run : Target → JobAttempt → Results → Act (Parsed Output) → Round
  after_run target claim results (log, thrown m) = (log, results, thrown m)
  after_run target claim results (log, ok outcome) =
      let (log', done) = finish_with ops.finish_target target claim.attempt_id outcome log in
      (log', results ++ record { target = target; outcome = outcome } ∷ [], done)

  abbrev pub after_target_claim : JobAttempt → Input → Target → Results → Act JobAttempt → Round
  after_target_claim attempt input target results (log, thrown m) = (log, results, thrown m)
  after_target_claim attempt input target results (log, ok claim) =
      after_run target claim results (execute_validated attempt (some (target, claim)) input log)

  unfoldable pub run_target : JobAttempt → Input → Target → Results → Log → Round
  run_target attempt input target results log =
      after_target_claim attempt input target results (claim_with ops.claim_target target input log)

  abbrev pub and_then : Round → (Results → Log → Round) → Round
  and_then (log, results, thrown m) rest = (log, results, thrown m)
  and_then (log, results, ok u) rest = rest results log

  unfoldable pub run_targets : JobAttempt → Input → List Target → Results → Log → Round
  unfolding run_target
  run_targets attempt input [] results log = (log, results, ok tt)
  run_targets attempt input (target ∷ targets) results log =
      and_then (run_target attempt input target results log) (run_targets attempt input targets)

  -- The `catch` branch.
  abbrev pub give_up : JobAttempt → String → Results → Log → Act (ExecuteJobResult Output Target)
  give_up attempt message results log = (
    note log (finishes_uncertain attempt.attempt_id message results),
    ops.finish_uncertain log attempt.attempt_id message results >>= λ _.
        ok (uncertain attempt.attempt_id message results),
  )

  abbrev pub settled :
      JobAttempt
      → Parsed Output
      → Results
      → Log
      → Result (Unit {0})
      → Act (ExecuteJobResult Output Target)
  settled attempt outcome results log (thrown m) = give_up attempt m results log
  settled attempt outcome results log (ok u) =
      (log, ok (completed attempt.attempt_id outcome results))

  -- The end of the `try` branch, once an outcome is chosen.
  abbrev pub settle_job :
      JobAttempt → Results → Log → Result (Parsed Output) → Act (ExecuteJobResult Output Target)
  settle_job attempt results log (thrown m) = give_up attempt m results log
  settle_job attempt results log (ok outcome) =
      settled attempt outcome results (note log (finishes_job attempt.attempt_id outcome results))
        (ops.finish_job log attempt.attempt_id outcome results)

  unfoldable pub execute_alone : JobAttempt → Input → Log → Act (ExecuteJobResult Output Target)
  execute_alone attempt input log =
      let (log', outcome) = execute_validated attempt none input log in
      settle_job attempt [] log' outcome

  abbrev pub outcome_of_round : Results → Result (Unit {0}) → Result (Parsed Output)
  outcome_of_round results (thrown m) = thrown m
  outcome_of_round results (ok u) = select_outcome (map (λ r. r.outcome) results)

  unfoldable pub execute_targets :
      JobAttempt → Input → List Target → Log → Act (ExecuteJobResult Output Target)
  unfolding run_targets
  execute_targets attempt input targets log =
      let (log', results, done) = run_targets attempt input targets [] log in
      settle_job attempt results log' (outcome_of_round results done)

  abbrev pub empty_outcome : Parsed Output
  empty_outcome = get_or_else ops.no_targets_outcome (record {
    status = text "skipped";
    output = none;
    message = text "No matching workers.";
    retry_at = undefined;
    reason = undefined;
    operation = undefined;
    error = undefined;
  })

  -- Outside of the `try` branch: an exception here is the caller's.
  abbrev pub on_targets :
      JobAttempt → Input → Log → Result (List Target) → Act (ExecuteJobResult Output Target)
  on_targets attempt input log (thrown m) = (log, thrown m)
  on_targets attempt input log (ok []) = (
    note log (finishes_job attempt.attempt_id empty_outcome []),
    ops.finish_job log attempt.attempt_id empty_outcome [] >>= λ _.
        ok (completed attempt.attempt_id empty_outcome []),
  )
  on_targets attempt input log (ok (t ∷ ts)) = execute_targets attempt input (t ∷ ts) log

  abbrev pub select_targets :
      JobAttempt
      → Input
      → Log
      → Option (Log → Result (List Target))
      → Act (ExecuteJobResult Output Target)
  select_targets attempt input log none = execute_alone attempt input log
  select_targets attempt input log (some list) =
      on_targets attempt input (note log lists) (list log)

  abbrev pub on_claim :
      Input → Log → Result (Option JobAttempt) → Act (ExecuteJobResult Output Target)
  on_claim input log (thrown m) = (log, thrown m)
  on_claim input log (ok none) = (log, ok not_claimed)
  on_claim input log (ok (some attempt)) = select_targets attempt input log ops.list_targets

  abbrev pub on_input : Log → Result Input → Act (ExecuteJobResult Output Target)
  on_input log (thrown m) = (log, thrown m)
  on_input log (ok input) = on_claim input (note log (claims input)) (ops.claim_job log input)

  unfoldable pub execute_job : Log → Act (ExecuteJobResult Output Target)
  unfolding execute_alone execute_targets
  execute_job log = on_input (note log resolves) (ops.resolve_input log >>= ops.parse_input)
