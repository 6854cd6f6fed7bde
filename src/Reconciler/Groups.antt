-- ===== src/Reconciler/Groups.antt =====
-- src/workflows/reconciler.ts: the instances of a declared name, and a need on a whole group.
use linear_pi_orchestrator.Prelude.{
  String, Bool, true, false, Option, none, some, List, [], ◌∷◌, ◌++◌, map, if◌then◌else◌,
  get_or_else, any, all,
}
use linear_pi_orchestrator.Prelude.Table
use linear_pi_orchestrator.Prelude.Table.{Table}
use linear_pi_orchestrator.Domain.{WorkflowNeed, WorkflowJobDefinition, WorkflowJobState}
use linear_pi_orchestrator.Domain.Status.{Satisfaction, met, waiting, impossible, need_satisfaction}

abbrev pub States : Type 0
States = Table WorkflowJobState

-- Declared name to instance ids.
abbrev pub Instances : Type 0
Instances = Table (List String)

abbrev pub states_of : States → List String → List (Option WorkflowJobState)
states_of states [] = []
states_of states (id ∷ ids) = Table.get states id ∷ states_of states ids

abbrev pub covered : String → States → Option (List String) → List (Option WorkflowJobState)
covered name states none = Table.get states name ∷ []
covered name states (some []) = Table.get states name ∷ []
covered name states (some (id ∷ ids)) = states_of states (id ∷ ids)

abbrev pub lookup_instances : Option Instances → String → Option (List String)
lookup_instances none name = none
lookup_instances (some m) name = Table.get m name

unfoldable pub instances_of : String → States → Option Instances → List (Option WorkflowJobState)
unfolding Table.get
instances_of name states instances = covered name states (lookup_instances instances name)

abbrev pub is_impossible : Satisfaction → Bool
is_impossible met = false
is_impossible waiting = false
is_impossible impossible = true

abbrev pub is_met : Satisfaction → Bool
is_met met = true
is_met waiting = false
is_met impossible = false

unfoldable pub aggregate : List Satisfaction → Satisfaction
aggregate results =
    if any is_impossible results then impossible else if all is_met results then met else waiting

unfoldable pub group_satisfaction : WorkflowNeed → States → Option Instances → Satisfaction
group_satisfaction need states instances =
    aggregate (map (need_satisfaction need) (instances_of need.job states instances))

-- Declared name to instance ids, in declaration order.
abbrev pub group_of : WorkflowJobDefinition → String
group_of job = get_or_else job.group job.id

unfoldable pub add_instances : Instances → List WorkflowJobDefinition → Instances
add_instances instances [] = instances
add_instances instances (job ∷ jobs) =
    add_instances
      (Table.set instances (group_of job)
        (get_or_else (Table.get instances (group_of job)) [] ++ job.id ∷ []))
      jobs

unfoldable pub job_instances : List WorkflowJobDefinition → Instances
job_instances jobs = add_instances [] jobs
