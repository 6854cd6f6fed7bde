-- ===== src/LegacyPipeline.antt =====
-- packages/application/src/legacy-pipeline.ts: an ordered pipeline of actions as a workflow.
pub mod Order
pub mod Chain
use linear_pi_orchestrator.Prelude.{
  ℕ, suc, String, Bool, true, false, not, ◌||◌, ◌==◌, Option, none, some, List, [], ◌∷◌, ◌++◌, map,
  if◌then◌else◌, get_or_else, flag, includes,
}
use linear_pi_orchestrator.Prelude.Table
use linear_pi_orchestrator.Prelude.Texts.{append, is_blank, strip_prefix, trim_start, trim}
use linear_pi_orchestrator.Prelude.Results.{Result, ok, thrown, ◌>>=◌}
use linear_pi_orchestrator.Domain.JsonValue.{
  Json, Items, Fields, string, number, boolean, array, object, end, item, close, field,
}
use linear_pi_orchestrator.Domain.{
  RepositoryScope, FirePolicy, WorkflowNeed, WorkflowJobDefinition, WorkflowDefinition,
}
use linear_pi_orchestrator.Expressions.{close_of}

-- `action_use` is the field `use`, and `condition` the field `if`.
pub record TriggerActionDefinition : Type 0 where
  pub id : String
  pub action_use : String
  pub config : Option Json
  pub condition : Option String
  pub continue_on_error : Option Bool

-- The fields of a trigger that the conversion reads.
pub record LegacyPipelineTrigger : Type 0 where
  pub id : String
  pub source_id : String
  pub repository : RepositoryScope
  pub enabled : Bool
  pub selector : Option (Table.Table Json)
  pub max_concurrent : Option ℕ
  pub metadata : Option (Table.Table Json)
  pub actions : Option (List TriggerActionDefinition)
  pub targets : Option Json
  pub fire_policy : Option FirePolicy

-- A number in a message is printed by `digits`.
module _ (digits : ℕ → String) where
  abbrev about : String → String → String → String
  about trigger_id middle end_text = append (append "Trigger '" trigger_id) (append middle end_text)

  -- The loop over the actions, with the ids seen so far.
  unfoldable pub assert_actions :
      String → ℕ → List String → List TriggerActionDefinition → Result (Unit {0})
  assert_actions trigger_id index ids [] = ok tt
  assert_actions trigger_id index ids (action ∷ actions) =
      let rest = assert_actions trigger_id (suc index) (action.id ∷ ids) actions in
      if is_blank action.id
      then thrown
          (about trigger_id (append "' action " (digits index)) " must have a non-empty id.")
      else if includes ids action.id
      then thrown (about trigger_id (append "' uses action id '" action.id) "' more than once.")
      else if is_blank action.action_use
      then thrown (about trigger_id (append "' action '" action.id) "' must name a plugin.")
      else rest

  unfoldable pub assert_legacy_actions : String → List TriggerActionDefinition → Result (Unit {0})
  unfolding assert_actions
  assert_legacy_actions trigger_id [] =
      thrown (about trigger_id "" "' has no actions to normalize.")
  assert_legacy_actions trigger_id (action ∷ actions) =
      assert_actions trigger_id 0 [] (action ∷ actions)

abbrev legacy_continue_condition : String
legacy_continue_condition = "${{ always() }}"

abbrev unwrapped : Option String → String → String
unwrapped none condition = trim condition
unwrapped (some inner) condition = trim inner

unfoldable pub continue_condition : Option String → String
continue_condition none = legacy_continue_condition
continue_condition (some condition) =
    if is_blank condition
    then legacy_continue_condition
    else append "${{ always() && ("
        (append (unwrapped (close_of (strip_prefix "${{" (trim_start condition))) condition) ") }}")

abbrev pub needs_of : Option TriggerActionDefinition → List WorkflowNeed
needs_of none = []
needs_of (some previous) = record { job = previous.id; status = none } ∷ []

abbrev pub condition_of : Option TriggerActionDefinition → Option String → Option String
condition_of none condition = condition
condition_of (some previous) condition =
    if flag previous.continue_on_error then some (continue_condition condition) else condition

abbrev pub job_of_action :
    Option TriggerActionDefinition → TriggerActionDefinition → WorkflowJobDefinition
job_of_action previous action = record {
  id = action.id;
  action_use = action.action_use;
  config = action.config;
  needs = needs_of previous;
  condition = condition_of previous action.condition;
  continue_on_error = some (flag action.continue_on_error);
  group = none;
  matrix = none;
  timeout_ms = none;
}

-- Each action, with the one before it.
unfoldable pub jobs_of :
    Option TriggerActionDefinition → List TriggerActionDefinition → List WorkflowJobDefinition
jobs_of previous [] = []
jobs_of previous (action ∷ actions) = job_of_action previous action ∷ jobs_of (some action) actions

abbrev pub policy_text : FirePolicy → String
policy_text FirePolicy.once_per_match = "once-per-match"
policy_text FirePolicy.once_per_item = "once-per-item"
policy_text FirePolicy.on_change = "on-change"
policy_text FirePolicy.every_poll = "every-poll"

abbrev id_items : List TriggerActionDefinition → Items
id_items [] = end
id_items (action ∷ actions) = item (string action.id) (id_items actions)

abbrev pub compatibility : LegacyPipelineTrigger → List TriggerActionDefinition → Json
compatibility trigger actions = object (
    field "mode" (string "legacy-pipeline") (
      field "version" (number "1") (
        field "triggerId" (string trigger.id) (
          field "firePolicy"
            (string (policy_text (get_or_else trigger.fire_policy FirePolicy.once_per_match)))
            (field "actionIds" (array (id_items actions))
              (field "includeWorkerGeneration" (boolean true) close))))))

abbrev pub workflow_of : LegacyPipelineTrigger → List TriggerActionDefinition → WorkflowDefinition
workflow_of trigger actions = record {
  id = trigger.id;
  source_id = trigger.source_id;
  repository = trigger.repository;
  enabled = trigger.enabled;
  selector = trigger.selector;
  fire_policy = some (get_or_else trigger.fire_policy FirePolicy.every_poll);
  max_concurrent = trigger.max_concurrent;
  targets = trigger.targets;
  metadata = some (
      Table.set (get_or_else trigger.metadata []) "legacyPipeline" (compatibility trigger actions));
  timeout_ms = none;
  concurrency = none;
  jobs = jobs_of none actions;
}

unfoldable pub legacy_pipeline_to_workflow :
    (ℕ → String) → LegacyPipelineTrigger → Result WorkflowDefinition
unfolding assert_legacy_actions jobs_of
legacy_pipeline_to_workflow digits trigger =
    let actions = get_or_else trigger.actions [] in
    assert_legacy_actions digits trigger.id actions >>= λ _. ok (workflow_of trigger actions)
