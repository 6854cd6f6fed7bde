-- ===== src/LegacyPipeline/Order.antt =====
-- legacyPipelineToWorkflow in packages/application/src/legacy-pipeline.ts: the needs of the jobs.
use linear_pi_orchestrator.Prelude.{
  String, true, ◌==◌, eq_iff, eq_refl, Option, none, some, List, [], ◌∷◌, ◌++◌, ◌≡◌, refl, ap, ◌∙◌,
  get_or_else, includes, includes-append, All, arith, Bool-cases, inl, inr,
}
use linear_pi_orchestrator.Prelude.Table
use linear_pi_orchestrator.Reconciler.Groups.{Instances}
use linear_pi_orchestrator.Reconciler.Aggregate.{declared_under}
use linear_pi_orchestrator.Reconciler.Progress.{OrderedAfter, ids_of, covered_ids}
use linear_pi_orchestrator.LegacyPipeline.{TriggerActionDefinition, needs_of, jobs_of}

-- Every id is the name.
abbrev pub Named : String → List String → Type 0
Named name = All (λ id. id ≡ name)

pub declared_under-Named :
    (previous : Option TriggerActionDefinition) (actions : List TriggerActionDefinition)
    (name : String)
    → Named name (declared_under name (jobs_of previous actions))
unfolding jobs_of
declared_under-Named previous [] name = tt
declared_under-Named previous (action ∷ actions) name = elim (Bool-cases (action.id == name)) [
  | inl b ↦ rw b ((eq_iff action.id name).0 b, declared_under-Named (some action) actions name)
  | inr b ↦ rw b (declared_under-Named (some action) actions name)
]

covered-Named :
    (name : String) (o : Option (List String))
    → Named name (get_or_else o [])
    → Named name (covered_ids name o)
covered-Named name none n = (refl, tt)
covered-Named name (some []) n = (refl, tt)
covered-Named name (some (id ∷ ids)) n = n

Named-included :
    (earlier ids : List String) (name : String)
    → includes earlier name ≡ true
    → Named name ids
    → All (λ id. includes earlier id ≡ true) ids
Named-included earlier [] name m n = tt
Named-included earlier (id ∷ ids) name m n =
    (ap (includes earlier) n.0 ∙ m, Named-included earlier ids name m n.1)

-- The action before, if there is one, is among the earlier ones.
abbrev IsAfter : List String → Option TriggerActionDefinition → Type 0
IsAfter earlier none = Unit
IsAfter earlier (some previous) = includes earlier previous.id ≡ true

needs_of-earlier :
    (instances : Instances) (earlier : List String) (previous : Option TriggerActionDefinition)
    → ((name : String) → Named name (get_or_else (Table.get instances name) []))
    → IsAfter earlier previous
    → All
        (λ need. All (λ id. includes earlier id ≡ true) (ids_of (some instances) need))
        (needs_of previous)
needs_of-earlier instances earlier none named after = tt
needs_of-earlier instances earlier (some previous) named after = (
  Named-included earlier (covered_ids previous.id (Table.get instances previous.id)) previous.id
      after (covered-Named previous.id (Table.get instances previous.id) (named previous.id)),
  tt,
)

pub jobs_of-OrderedAfter :
    (instances : Instances) (earlier : List String) (previous : Option TriggerActionDefinition)
    (actions : List TriggerActionDefinition)
    → ((name : String) → Named name (get_or_else (Table.get instances name) []))
    → IsAfter earlier previous
    → OrderedAfter (some instances) earlier (jobs_of previous actions)
unfolding jobs_of
jobs_of-OrderedAfter instances earlier previous [] named after = tt
jobs_of-OrderedAfter instances earlier previous (action ∷ actions) named after = (
  needs_of-earlier instances earlier previous named after,
  jobs_of-OrderedAfter instances (earlier ++ action.id ∷ []) (some action) actions named
      (includes-append earlier (action.id ∷ []) action.id ∙ ground (arith, eq_refl action.id)),
)
