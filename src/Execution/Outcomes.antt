-- ===== src/Execution/Outcomes.antt =====
-- packages/application/src/execute-job.ts: what a plugin's outcome must be, how an old one is
-- adapted, and which of several outcomes stands for a job.
use linear_pi_orchestrator.Prelude.{
  String, Bool, true, false, ◌&&◌, ◌||◌, Option, none, some, List, [], ◌∷◌, if◌then◌else◌,
  get_or_else, find, ◌==◌,
}
use linear_pi_orchestrator.Prelude.Texts.{append}
use linear_pi_orchestrator.Prelude.Results.{Result, ok, thrown, ◌>>=◌, ◌>>◌}
use linear_pi_orchestrator.Execution.Values.{
  Value, Members, undefined, null, text, object, member_of, has_member, is_defined, is_text,
  is_string, string_of, assert_json_value,
}

-- The members of an outcome that are read; a member that is missing is undefined.
pub record Outcome {ℓ} (Output : Type ℓ) : Type ℓ where
  pub status : Value
  pub output : Output
  pub message : Value
  pub retry_at : Value
  pub reason : Value
  pub operation : Value
  pub error : Value

abbrev pub outcome_of : Members → Outcome Value
outcome_of ms = record {
  status = member_of ms "status";
  output = member_of ms "output";
  message = member_of ms "message";
  retry_at = member_of ms "retryAt";
  reason = member_of ms "reason";
  operation = member_of ms "operation";
  error = member_of ms "error";
}

abbrev pub has_status {ℓ} : {Output : Type ℓ} → Outcome Output → String → Bool
has_status outcome s = is_text outcome.status s

-- `!v || typeof v !== "object" || Array.isArray(v)` is false
abbrev is_object : Value → Bool
is_object (object ms) = true
is_object v = false

module _ (is_date : String → Bool) where
  abbrev date_check : Value → Bool
  date_check (text t) = is_date t
  date_check v = false

  -- Whether `Date.parse` reads the value is what `is_date` tells.
  unfoldable pub valid_date : Value → String → Result Value
  valid_date v subject =
      if date_check v then ok v else thrown (append subject " requires a valid retryAt timestamp.")

  abbrev known_status : Value → Bool
  known_status v =
      let s = string_of v in
      s == "succeeded" || s == "skipped" || s == "deferred" || s == "running" || s == "failed"

  abbrev check : Bool → String → Result (Unit {0})
  check true message = ok tt
  check false message = thrown message

  abbrev when : Bool → Result (Unit {0}) → Result (Unit {0})
  when true r = r
  when false r = ok tt

  abbrev checked_date : Value → String → Result (Unit {0})
  checked_date v subject = valid_date v subject >>= λ _. ok tt

  -- The checks in the source's order.
  unfoldable pub assert_outcome : Outcome Value → Result (Unit {0})
  unfolding valid_date
  assert_outcome o = do
    check (known_status o.status)
        (append "Action returned an invalid outcome status: " (string_of o.status))
    when (has_status o "deferred") (
        check (is_string o.retry_at && is_string o.reason)
          "A deferred action outcome requires retryAt and reason.")
    when (has_status o "deferred") (checked_date o.retry_at "A deferred action")
    when (has_status o "running")
        (check (is_object o.operation) "A running action outcome requires an operation handle.")
    when (has_status o "running")
        (assert_json_value o.operation "A running action operation handle")
    when (has_status o "failed")
        (check (is_string o.error) "A failed action outcome requires an error message.")
    when (has_status o "failed" && is_defined o.retry_at)
        (checked_date o.retry_at "A failed action")

  unfoldable pub assert_explicit_outcome : Value → Result (Outcome Value)
  unfolding assert_outcome
  assert_explicit_outcome (object ms) =
      if has_member ms "status"
      then (assert_outcome (outcome_of ms) >> ok (outcome_of ms))
      else thrown "Action returned no explicit outcome."
  assert_explicit_outcome v = thrown "Action returned no explicit outcome."

  -- What to make of an old action's `skipped`: itself, or a retry at a given time.
  pub record Deferral : Type 0 where
    pub retry_at : Value
    pub reason : Option String

  abbrev default_to : Value → Value → Value
  default_to undefined w = w
  default_to null w = w
  default_to v w = v

  abbrev deferral_reason : Option String → Value → Value
  deferral_reason (some reason) message = text reason
  deferral_reason none message = default_to message (text "Legacy action deferred.")

  abbrev deferred_outcome : Deferral → Outcome Value → Value → Outcome Value
  deferred_outcome deferral outcome at = record {
    status = text "deferred";
    output = outcome.output;
    message = undefined;
    retry_at = at;
    reason = deferral_reason deferral.reason outcome.message;
    operation = undefined;
    error = undefined;
  }

  abbrev adapt_members : Option Deferral → Members → Result (Outcome Value)
  adapt_members none ms = assert_explicit_outcome (object ms)
  adapt_members (some deferral) ms =
      let outcome = outcome_of ms in
      if has_status outcome "skipped"
      then (valid_date deferral.retry_at "A legacy deferred action" >>= λ at.
          ok (deferred_outcome deferral outcome at))
      else assert_explicit_outcome (object ms)

  unfoldable pub adapt_action_outcome : Value → Option Deferral → Result (Outcome Value)
  unfolding assert_explicit_outcome valid_date
  adapt_action_outcome (object ms) deferral =
      if has_member ms "status"
      then adapt_members deferral ms
      else thrown "Action returned no outcome."
  adapt_action_outcome v deferral = thrown "Action returned no outcome."

module _ {ℓ} {Output : Type ℓ} where
  abbrev is_open : Outcome Output → Bool
  is_open o = has_status o "running" || has_status o "deferred"

  abbrev pub failed_one : List (Outcome Output) → Option (Outcome Output)
  failed_one = find (λ o. has_status o "failed")

  abbrev pub open_one : List (Outcome Output) → Option (Outcome Output)
  open_one = find is_open

  abbrev pub succeeded_one : List (Outcome Output) → Option (Outcome Output)
  succeeded_one = find (λ o. has_status o "succeeded")

  abbrev preferred : Outcome Output → List (Outcome Output) → Outcome Output
  preferred default os =
      get_or_else (failed_one os)
        (get_or_else (open_one os) (get_or_else (succeeded_one os) default))

  unfoldable pub select_outcome : List (Outcome Output) → Result (Outcome Output)
  select_outcome [] = thrown "ExecuteJob has no action outcome to persist."
  select_outcome (o ∷ os) = ok (preferred o (o ∷ os))
