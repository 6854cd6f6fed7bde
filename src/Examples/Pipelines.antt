-- ===== src/Examples/Pipelines.antt =====
-- The theorem on old pipelines at a concrete input.
use linear_pi_orchestrator.Prelude.{ℕ, String, true, none, some, [], ◌∷◌, refl}
use linear_pi_orchestrator.Prelude.Texts.{is_blank, is_space}
use linear_pi_orchestrator.LegacyPipeline.{
  TriggerActionDefinition, LegacyPipelineTrigger, workflow_of, legacy_pipeline_to_workflow,
  assert_legacy_actions, assert_actions,
}
use linear_pi_orchestrator.LegacyPipeline.Chain.{IsChain, legacy_pipeline_to_workflow-IsChain}
use linear_pi_orchestrator.Examples.Data.{repository}

abbrev launch : TriggerActionDefinition
launch = record {
  id = "launch";
  action_use = "claude.start-session";
  config = none;
  condition = none;
  continue_on_error = some true;
}

abbrev report : TriggerActionDefinition
report = record {
  id = "report";
  action_use = "command";
  config = none;
  condition = none;
  continue_on_error = none;
}

abbrev trigger : LegacyPipelineTrigger
trigger = record {
  id = "nightly";
  source_id = "linear";
  repository = repository;
  enabled = true;
  selector = none;
  max_concurrent = none;
  metadata = none;
  actions = some (launch ∷ report ∷ []);
  targets = none;
  fire_policy = none;
}

abbrev print : ℕ → String
print n = "n"

legacy_pipeline_to_workflow-IsChain_example :
    IsChain print (workflow_of trigger (launch ∷ report ∷ []))
unfolding legacy_pipeline_to_workflow assert_legacy_actions assert_actions is_blank is_space
legacy_pipeline_to_workflow-IsChain_example =
    legacy_pipeline_to_workflow-IsChain print trigger (workflow_of trigger (launch ∷ report ∷ []))
      refl
