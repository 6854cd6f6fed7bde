-- ===== src/Config.antt =====
-- src/config/v2.ts: the parts of the configuration that describe workflows.
-- `with`, `if`, `on.match` and `use` are the fields `config` (or `inputs`), `condition`, `match` and
-- `plugin_use`. Values that Relay only passes on are kept as JSON. The parsed values are modelled:
-- the schema has put its defaults in. The keys of a `Record` are those of an object.
pub mod JobGraph
use linear_pi_orchestrator.Prelude.{ℕ, String, Bool, Option, none, some, List, [], ◌∷◌}
use linear_pi_orchestrator.Prelude.Table.{Table}
use linear_pi_orchestrator.Domain.JsonValue.{Json}
use linear_pi_orchestrator.Domain.{NeedStatus, WorkflowConcurrency}

pub data RelayNeed : Type 0 where
  text : String → RelayNeed
  object : String → Option NeedStatus → RelayNeed

-- One entry, or a list of them.
pub data RelayNeeds : Type 0 where
  one : RelayNeed → RelayNeeds
  many : List RelayNeed → RelayNeeds

pub record RelayWorkflowJob : Type 0 where
  pub plugin_use : String
  pub config : Option Json
  pub needs : Option RelayNeeds
  pub condition : Option String
  pub continue_on_error : Bool
  pub enabled : Bool
  pub strategy : Option Json
  pub timeout_minutes : Option ℕ

pub record RelayWorkflow : Type 0 where
  pub enabled : Bool
  pub source : String
  pub match : Option Json
  pub fire : Json
  pub max_concurrent : Option ℕ
  pub targets : Option Json
  pub timeout_minutes : ℕ
  pub concurrency : Option WorkflowConcurrency
  pub plugin_use : Option String
  pub inputs : Option (Table Json)
  pub jobs : Option (Table RelayWorkflowJob)

-- needList
abbrev pub needs_list : Option RelayNeeds → List RelayNeed
needs_list none = []
needs_list (some (RelayNeeds.one need)) = need ∷ []
needs_list (some (RelayNeeds.many needs)) = needs
